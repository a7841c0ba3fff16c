-- ===== src/Net/Udp/Header.antt =====
-- The header accessors of myLoader/core/net.c, on the bytes of a packet.
use porcelix.Prelude.{
  ℕ, ◌+◌, ◌*◌, ◌%◌, ◌^◌, ◌<◌, ◌≡◌, Option, some, List, ◌++◌, bit_or, get_elem?, arith, ap, ◌∙◌,
}
use porcelix.Prelude.Bits.{bit_or_fields_left}
use porcelix.Prelude.Mem.{◌>>=◌}
use porcelix.Net.Udp.{SockContext, udp_packet, ipv4_header, high_byte, low_byte}

-- `u16 ret = h; ret <<= 8; ret |= l;` of the bytes at `at`
unfoldable pub get_u16 : List ℕ → ℕ → Option ℕ
get_u16 p at = do h ← get_elem? p at; l ← get_elem? p (at + 1); some (bit_or (h * 2 ^ 8 % 2 ^ 16) l)

unfoldable pub getipv4totallen : List ℕ → Option ℕ
getipv4totallen ipv4header = get_u16 ipv4header 2

unfoldable pub getudp_srcport : List ℕ → Option ℕ
getudp_srcport udpheader = get_u16 udpheader 0

unfoldable pub getudp_dstport : List ℕ → Option ℕ
getudp_dstport udpheader = get_u16 udpheader 2

unfoldable pub getudp_len : List ℕ → Option ℕ
getudp_len udpheader = get_u16 udpheader 4

joined : (v : ℕ) → v < 2 ^ 16 → bit_or (high_byte v * 2 ^ 8 % 2 ^ 16) (low_byte v) ≡ v
joined v h =
    let e : high_byte v * 2 ^ 8 % 2 ^ 16 ≡ high_byte v * 2 ^ 8 = omega arith in
    ap (λ (t : ℕ). bit_or t (low_byte v)) e
    ∙ bit_or_fields_left 8 (high_byte v) (low_byte v) (omega arith)
    ∙ omega arith

-- The accessors read from the headers that `udp_send` builds the 16-bit ports and lengths that it
-- has written.
pub get_u16-headers :
    (ctx : SockContext) (udp_len ip_len cksum : ℕ) (buff rest : List ℕ)
    → ctx.localport < 2 ^ 16
    → ctx.destport < 2 ^ 16
    → udp_len < 2 ^ 16
    → ip_len < 2 ^ 16
    → (getudp_srcport (udp_packet ctx udp_len cksum buff) ≡ some ctx.localport)
      × (getudp_dstport (udp_packet ctx udp_len cksum buff) ≡ some ctx.destport)
      × (getudp_len (udp_packet ctx udp_len cksum buff) ≡ some udp_len)
      × (getipv4totallen (ipv4_header ctx ip_len cksum ++ rest) ≡ some ip_len)
unfolding getudp_srcport getudp_dstport getudp_len getipv4totallen get_u16
get_u16-headers ctx udp_len ip_len cksum buff rest src dst len total = (
  ap some (joined ctx.localport src),
  ap some (joined ctx.destport dst),
  ap some (joined udp_len len),
  ap some (joined ip_len total),
)
