-- ===== src/Mm/Slab/Layout.antt =====
-- `initslab` (myLoader/mm/slab.c) divides a slab into as many blocks as the cache counts.
use native.Mathlib.Nat.{
  mul-add, mul-one, mul-zero, mul-suc, pow-le-pow_right, mul-le-mul_left, mul-div-le,
  lt-mul-div-succ,
}
use porcelix.Prelude.{
  ℕ, zero, suc, ◌+◌, ◌-◌, ◌*◌, ◌/◌, ◌%◌, ◌^◌, ◌≤◌, ◌<◌, ◌≡◌, refl, some, List, [], ◌∷◌, arith,
  length, ap, sym, ◌∙◌, le→leb, lt→leb,
}
use porcelix.Prelude.Mem.{All}
use porcelix.Prelude.Bits.{bit_and_high_mask}
use porcelix.Mm.Slab.{Slab, sizeof_slab, slab_size, init_loop, initslab, init_onecache}

-- The blocks below the block `n`, the last one first, from the address `left` on.
unfoldable pub blocks : ℕ → ℕ → ℕ → List ℕ
blocks left s_blk zero = []
blocks left s_blk (suc n) = (left + s_blk * n) ∷ blocks left s_blk n

pub length-blocks : (left s_blk n : ℕ) → length (blocks left s_blk n) ≡ n
unfolding blocks
length-blocks left s_blk zero = refl
length-blocks left s_blk (suc n) = ap suc (length-blocks left s_blk n)

-- The addresses of a list are those of blocks between two addresses.
abbrev pub IsWithin : ℕ → ℕ → ℕ → List ℕ → Type 0
IsWithin left right s_blk = All (λ b. (left ≤ b) × (b + s_blk ≤ right))

pub blocks-IsWithin :
    (left right s_blk n : ℕ)
    → left + s_blk * n ≤ right
    → IsWithin left right s_blk (blocks left s_blk n)
unfolding blocks
blocks-IsWithin left right s_blk zero h = tt
blocks-IsWithin left right s_blk (suc n) h =
    let size = next_block s_blk n in
    ((omega arith, omega (arith, size)), blocks-IsWithin left right s_blk n (omega (arith, size)))
  where
    next_block : (s_blk n : ℕ) → s_blk * suc n ≡ s_blk * n + s_blk
    next_block s_blk n = mul-suc s_blk n

slab_size_bounds : (r : ℕ) → r ≤ 10 → (2 ^ 12 ≤ slab_size r) × (slab_size r ≤ 2 ^ 22)
slab_size_bounds r h =
    let low = pow-le-pow_right {n = 2} (omega arith) {i = 12} {j = r + 12} (omega arith) in
    let high = pow-le-pow_right {n = 2} (omega arith) {i = r + 12} {j = 22} (omega arith) in
    (omega arith, omega arith)

first_block :
    (k s_blk right left : ℕ) {fp : ℕ}
    → fp ≡ left
    → init_loop k s_blk right left [] ≡ init_loop k s_blk right fp (blocks left s_blk 0)
unfolding blocks
first_block k s_blk right left e = ap (λ a. init_loop k s_blk right a []) (sym e)

module _ (left right s_blk bps : ℕ) (fits : left + s_blk * bps ≤ right)
    (full : right < left + s_blk * bps + s_blk) (low : right + s_blk < 2 ^ 32) where
  init_loop-blocks :
      (m i : ℕ)
      → i + m ≡ bps
      → init_loop m s_blk right (left + s_blk * i) (blocks left s_blk i)
        ≡ some (blocks left s_blk bps)
  unfolding init_loop blocks
  init_loop-blocks zero i e =
      let last : i ≡ bps = omega arith in
      let there : (left + s_blk * bps + s_blk) % 2 ^ 32 ≡ left + s_blk * bps + s_blk =
        omega arith in
      rw (last, there, lt→leb (left + s_blk * bps + s_blk) right full) refl
  init_loop-blocks (suc m) i e =
      let size = mul-suc s_blk i in
      let more = mul-le-mul_left {m = suc i} {n = bps} s_blk (omega arith) in
      let there : (left + s_blk * i + s_blk) % 2 ^ 32 ≡ left + s_blk * suc i =
        omega (arith, size) in
      rw (there, le→leb (left + s_blk * suc i) right (omega (arith, more)))
        (init_loop-blocks m (suc i) (omega arith))

-- For a cache as `init_onecache` sets it, with blocks of 1 to 2 ^ 16 bytes and slabs of at most
-- 2 ^ 22 bytes, and a slab that does not reach to within 2 ^ 17 bytes of the end of the address
-- space: `initslab` puts on the free list, the last one first, the blocks one behind the other from
-- the end of the slab's head on, as many as the cache counts and `n_fblk` says. Each of them lies in
-- the slab, whose range goes from the end of its head to its own end, and no further one would fit.
pub initslab-blocks :
    (s_blk r_slb slab : ℕ)
    → 0 < s_blk
    → s_blk ≤ 2 ^ 16
    → r_slb ≤ 10
    → slab + slab_size r_slb + 2 ^ 17 < 2 ^ 32
    → let cache = init_onecache s_blk r_slb in
      let left = slab + sizeof_slab in
      let right = slab + slab_size r_slb in
      (s : Slab) × (initslab cache slab ≡ some s)
      × (s.freepos ≡ blocks left cache.s_blk cache.bps)
      × (s.n_fblk ≡ length s.freepos)
      × IsWithin left right cache.s_blk s.freepos
      × (s.rg.rg_left ≡ left)
      × (s.rg.rg_right ≡ right)
      × (left + cache.s_blk * s.n_fblk ≤ right)
      × (right < left + cache.s_blk * s.n_fblk + cache.s_blk)
unfolding initslab init_onecache
initslab-blocks s_blk r_slb slab some_bytes small rank room =
    let cache = init_onecache s_blk r_slb in
    let size = slab_size r_slb in
    let page : (2 ^ 12 ≤ size) × (size ≤ 2 ^ 22) = slab_size_bounds r_slb rank in
    let rounded : cache.s_blk ≡ (s_blk + 3) / 4 * 4 =
      bit_and_high_mask 2 ((s_blk + 3) % 2 ^ 32) (omega arith) (omega arith) ∙ omega arith in
    let pos : 0 < cache.s_blk = omega (arith, rounded) in
    let space : (size + (2 ^ 32 - sizeof_slab)) % 2 ^ 32 ≡ size - sizeof_slab =
      omega (arith, page) in
    let bps = cache.bps in
    let ebps : bps ≡ (size - sizeof_slab) / cache.s_blk = ap (λ n. n / cache.s_blk) space in
    let below : cache.s_blk * bps ≤ size - sizeof_slab =
      rw ebps (mul-div-le (size - sizeof_slab) cache.s_blk) in
    let above : size - sizeof_slab < cache.s_blk * (bps + 1) =
      rw ebps (lt-mul-div-succ (size - sizeof_slab) pos) in
    let next : cache.s_blk * (bps + 1) ≡ cache.s_blk * bps + cache.s_blk =
      mul-add cache.s_blk bps 1 ∙ ap (λ t. cache.s_blk * bps + t) (mul-one cache.s_blk) in
    let left = slab + sizeof_slab in
    let right = slab + size in
    let fits : left + cache.s_blk * bps ≤ right = omega (arith, below, page) in
    let full : right < left + cache.s_blk * bps + cache.s_blk = omega (arith, above, next) in
    let start : left + cache.s_blk * 0 ≡ left = omega (arith, mul-zero cache.s_blk) in
    let run : init_loop bps cache.s_blk right left [] ≡ some (blocks left cache.s_blk bps) =
      first_block bps cache.s_blk right left start
      ∙ init_loop-blocks left right cache.s_blk bps fits full (omega (arith, rounded)) bps 0
          (omega arith) in
    let eleft : left % 2 ^ 32 ≡ left = omega (arith, page) in
    let eright : right % 2 ^ 32 ≡ right = omega arith in
    (
      record {
        rg = record { rg_left = left; rg_right = right };
        freepos = blocks left cache.s_blk bps;
        n_fblk = bps;
      },
      rw (eleft, eright, run) refl,
      refl,
      sym (length-blocks left cache.s_blk bps),
      blocks-IsWithin left right cache.s_blk bps fits,
      refl,
      refl,
      fits,
      full,
    )
