-- ===== src/Net.antt =====
-- The network code of myLoader/core/net.c.
pub mod Arp
pub mod Checksum
pub mod Udp
