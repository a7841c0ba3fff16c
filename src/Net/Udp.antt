-- ===== src/Net/Udp.antt =====
-- `udp_send` of myLoader/core/net.c. The caller's buffer is the list of the bytes from `buff` to the
-- end of its region; the headers that the function writes in front of it are lists of bytes. The
-- pseudo header lies where the IP header is written afterwards. What the driver's `tx` is given is
-- the result.
pub mod Verify
pub mod Header
use porcelix.Prelude.{
  ℕ, ◌+◌, ◌*◌, ◌/◌, ◌%◌, ◌^◌, Bool, true, false, Option, none, some, List, [], ◌∷◌, ◌++◌, ltb, ◌==◌,
  if◌then◌else◌, take,
}
use porcelix.Prelude.Int.{ℤ, pos, negsuc}
use porcelix.Prelude.Mem.{◌>>=◌}
use porcelix.Net.Arp.{ArpCache, arp_getmacaddr}
use porcelix.Net.Checksum.{checksum_calc}

abbrev pub minudp_datelen : ℕ
minudp_datelen = 18

abbrev pub ipv4protocol_udp : ℕ
ipv4protocol_udp = 17

-- The fields of `sock_context_t` that are used, with the MAC address of its device.
pub record SockContext : Type 0 where
  pub protocol : ℕ
  pub localip : List ℕ
  pub destip : List ℕ
  pub localport : ℕ
  pub destport : ℕ
  pub macaddr : List ℕ

-- `(u8)(v >> 8)` and `(u8)(v >> 0)`
abbrev pub high_byte : ℕ → ℕ
high_byte v = v / 2 ^ 8 % 2 ^ 8

abbrev pub low_byte : ℕ → ℕ
low_byte v = v % 2 ^ 8

-- The number that the bytes of an IPv4 address make, and the six bytes of a MAC address.
unfoldable pub address_from : ℕ → List ℕ → ℕ
address_from n [] = n
address_from n (b ∷ bs) = address_from (n * 2 ^ 8 + b) bs

abbrev pub mac_bytes : ℕ → List ℕ
mac_bytes mac =
    mac / 2 ^ 40 % 2 ^ 8
    ∷ mac / 2 ^ 32 % 2 ^ 8
    ∷ mac / 2 ^ 24 % 2 ^ 8
    ∷ mac / 2 ^ 16 % 2 ^ 8
    ∷ mac / 2 ^ 8 % 2 ^ 8
    ∷ mac % 2 ^ 8
    ∷ []

-- `upd_pseudoheader_t` up to its UDP header
abbrev pub pseudo_header : SockContext → ℕ → List ℕ
pseudo_header ctx len =
    ctx.localip ++ (ctx.destip ++ (0 ∷ ipv4protocol_udp ∷ high_byte len ∷ low_byte len ∷ []))

-- `udp_header_t` up to its checksum
abbrev pub udp_ports : SockContext → ℕ → List ℕ
udp_ports ctx len =
    high_byte ctx.localport
    ∷ low_byte ctx.localport
    ∷ high_byte ctx.destport
    ∷ low_byte ctx.destport
    ∷ high_byte len
    ∷ low_byte len
    ∷ []

-- The UDP header with this checksum, in front of the data.
abbrev pub udp_packet : SockContext → ℕ → ℕ → List ℕ → List ℕ
udp_packet ctx len cksum buff = udp_ports ctx len ++ high_byte cksum ∷ low_byte cksum ∷ buff

-- `ipv4_header_t`: version 4 with five words, the flag 2 above the fragment offset.
abbrev pub ipv4_front : ℕ → List ℕ
ipv4_front len =
    0x45 ∷ 0 ∷ high_byte len ∷ low_byte len ∷ 0 ∷ 0 ∷ 0x40 ∷ 0 ∷ 64 ∷ ipv4protocol_udp ∷ []

abbrev pub ipv4_header : SockContext → ℕ → ℕ → List ℕ
ipv4_header ctx len cksum =
    ipv4_front len ++ high_byte cksum ∷ low_byte cksum ∷ ctx.localip ++ ctx.destip

-- `ethii_header_t`, of the type IPv4
abbrev pub ethii_header : List ℕ → List ℕ → List ℕ
ethii_header dstaddr srcaddr = dstaddr ++ (srcaddr ++ (0x08 ∷ 0x00 ∷ []))

-- The return value, and the frame for the driver where there is one.
abbrev pub frame_of : Option ℕ → SockContext → ℕ → List ℕ → ℤ × Option (List ℕ)
frame_of none ctx len packet = (negsuc 0, none)
frame_of (some mac) ctx len packet =
    (pos 0, some (take len (ethii_header (mac_bytes mac) ctx.macaddr ++ packet)))

-- `udp_send` behind the length of the UDP packet.
unfoldable pub build_packet : ArpCache → SockContext → List ℕ → ℕ → Option (ℤ × Option (List ℕ))
build_packet arpcache ctx buff len = do
  udp_cksum ←
      checksum_calc 0 (pseudo_header ctx len ++ udp_packet ctx len 0 buff) ((len + 12) % 2 ^ 16)
  let packet = udp_packet ctx len udp_cksum buff
  let ip_len = (len + 20) % 2 ^ 16
  ip_cksum ← checksum_calc 0 (ipv4_header ctx ip_len 0 ++ packet) 20
  let found = arp_getmacaddr arpcache (address_from 0 ctx.destip)
  some (frame_of found ctx ((ip_len + 14) % 2 ^ 16) (ipv4_header ctx ip_len ip_cksum ++ packet))

unfoldable pub udp_send : ArpCache → SockContext → List ℕ → ℕ → Option (ℤ × Option (List ℕ))
udp_send arpcache ctx buff len =
    let size = if ltb len minudp_datelen then minudp_datelen else len in
    let sent = build_packet arpcache ctx buff ((size + 8) % 2 ^ 16) in
    if ctx.protocol == ipv4protocol_udp then sent else none
