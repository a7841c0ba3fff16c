-- ===== src/Sorter.antt =====
-- The `sort` that myLoader/core/func.c copies from the Linux kernel, as its callers rely on it: an
-- interface that they take as a parameter. `insertion` is a sort that meets it.
mod Interface
mod Insertion
pub use Interface.*
pub use Insertion.{insertion}
