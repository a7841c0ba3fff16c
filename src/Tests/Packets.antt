-- ===== src/Tests/Packets.antt =====
-- A packet of `udp_send` (myLoader/core/net.c) to 192.168.46.1.
use porcelix.Prelude.{ℕ, ◌≡◌, true, some, List, [], ◌∷◌, ◌++◌, arith, replicate}
use porcelix.Net.Arp.{ArpCache}
use porcelix.Net.Udp.{SockContext, udp_packet, ipv4_header}
use porcelix.Net.Udp.Header.{
  getudp_srcport, getudp_dstport, getudp_len, getipv4totallen, get_u16-headers,
}

abbrev gateway : ArpCache
gateway = record {
  list = record { ip = 0xc0a82e01; mac = 0x525400123456; valid = true } ∷ [];
  count = 0;
}

abbrev socket : SockContext
socket = record {
  protocol = 17;
  localip = 192 ∷ 168 ∷ 46 ∷ 193 ∷ [];
  destip = 192 ∷ 168 ∷ 46 ∷ 1 ∷ [];
  localport = 4000;
  destport = 53;
  macaddr = 0x52 ∷ 0x54 ∷ 0 ∷ 0 ∷ 0 ∷ 1 ∷ [];
}

-- Two bytes of data, in a buffer of 18.
abbrev data_buff : List ℕ
data_buff = b'h' ∷ b'i' ∷ replicate 16 0

get_u16-headers_example :
    (getudp_srcport (udp_packet socket 26 7 data_buff) ≡ some 4000)
    × (getudp_dstport (udp_packet socket 26 7 data_buff) ≡ some 53)
    × (getudp_len (udp_packet socket 26 7 data_buff) ≡ some 26)
    × (getipv4totallen (ipv4_header socket 46 7 ++ data_buff) ≡ some 46)
get_u16-headers_example =
    get_u16-headers socket 26 46 7 data_buff data_buff (omega arith) (omega arith) (omega arith)
      (omega arith)
