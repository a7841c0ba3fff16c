-- ===== src/Net/Udp/Verify.antt =====
-- The packets that `udp_send` of myLoader/core/net.c makes pass the receiver's tests.
use porcelix.Prelude.{ℕ, ◌<◌, ◌≡◌, List, ltb, if◌then◌else◌, length}
use porcelix.Prelude.Mem.{All}
use porcelix.Net.Udp.{SockContext, minudp_datelen, ipv4protocol_udp}

abbrev IsBytes : List ℕ → Type 0
IsBytes = All (λ b. b < 256)

-- A socket for UDP with addresses of four bytes.
pub record IsSocket (ctx : SockContext) : Type 0 where
  pub udp : ctx.protocol ≡ ipv4protocol_udp
  pub local_size : length ctx.localip ≡ 4
  pub dest_size : length ctx.destip ≡ 4
  pub local_bytes : All (λ b. b < 256) ctx.localip
  pub dest_bytes : All (λ b. b < 256) ctx.destip

-- The bytes that `udp_send` sends of the data.
abbrev pub datelen : ℕ → ℕ
datelen len = if ltb len minudp_datelen then minudp_datelen else len
