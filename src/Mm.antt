-- ===== src/Mm.antt =====
-- Memory management: myLoader/mm/memory.c, page.c and slab.c, with myLoader/include/memory.h.
pub mod Resource
pub mod Buddy
pub mod Rank
pub mod Slab
