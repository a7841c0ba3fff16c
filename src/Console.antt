-- ===== src/Console.antt =====
-- The console of myLoader/io/disp.c: the screen and the formatting of text.
pub mod Vga
pub mod Format
