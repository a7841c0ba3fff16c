-- ===== src/Fs.antt =====
-- The file systems of myLoader/fs.
pub mod Ext2
