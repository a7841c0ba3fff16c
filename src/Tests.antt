-- ===== src/Tests.antt =====
-- Runs of the model on concrete inputs, one for each theorem that has hypotheses or arguments.
pub mod Text
pub mod Words
pub mod Table
pub mod Pages
pub mod Network
pub mod Keys
pub mod Trees
pub mod Screen
pub mod Files
pub mod Sums
pub mod Slabs
pub mod Commands
pub mod Caches
pub mod Packets
