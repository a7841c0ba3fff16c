-- ===== src/Mm/Slab/Pages.antt =====
-- What a cache of myLoader/mm/slab.c relies on in the page allocator, and the slab that
-- initslab makes of a region.
use porcelix.Prelude.{
  ℕ, ◌+◌, ◌*◌, ◌^◌, ◌≤◌, ◌<◌, ◌≡◌, refl, some, none, arith, ap, ◌∙◌, length, Option,
}
use porcelix.Mm.Buddy.Invariant.{count}
use porcelix.Mm.Slab.{Slab, Memcache, sizeof_slab, slab_size, initslab, init_onecache}
use porcelix.Mm.Slab.Layout.{blocks, length-blocks, initslab-blocks}
use porcelix.Mm.Slab.Invariant.{IsSlab}

-- The bytes of a region that an allocator hands out were free, are not free any more, and end more
-- than 2 ^ 17 bytes before the end of the address space.
pub record IsGiven (before after : ℕ → Type 0) (a size : ℕ) : Type 0 where
  pub free_before : (x : ℕ) → a ≤ x → x < a + size → before x
  pub taken_after : (x : ℕ) → a ≤ x → x < a + size → after x → ⊥
  pub low : a + size + 2 ^ 17 < 2 ^ 32

abbrev pub Given : (ℕ → Type 0) → (ℕ → Type 0) → Option ℕ → ℕ → Type 0
Given before after none size = Unit
Given before after (some a) size = IsGiven before after a size

-- A page allocator with the states `P`: it does not die on a good state, leaves one, frees nothing,
-- and gives NULL or a region of the size of the rank.
pub record PageAlloc (P : Type 0) : Type 1 where
  pub page_alloc : P → ℕ → Option (Option ℕ × P)
  pub IsPages : P → Type 0
  pub IsFree : P → ℕ → Type 0
  pub page_alloc_lem :
      (p : P) (rank : ℕ)
      → IsPages p
      → rank ≤ 10
      → (found : Option ℕ) × (p' : P) × (page_alloc p rank ≡ some (found, p'))
        × IsPages p'
        × ((x : ℕ) → IsFree p' x → IsFree p x)
        × Given (IsFree p) (IsFree p') found (slab_size rank)

-- The sizes of a cache are as `init_onecache` sets them, for slabs of at most 2 ^ 22 bytes.
pub record IsMade (sizes : Memcache) : Type 0 where
  pub s_blk : ℕ
  pub r_slb : ℕ
  pub some_bytes : 0 < s_blk
  pub few_bytes : s_blk ≤ 2 ^ 16
  pub low_rank : r_slb ≤ 10
  pub made : sizes ≡ init_onecache s_blk r_slb

made-IsSlab :
    (s_blk r_slb a : ℕ)
    → 0 < s_blk
    → s_blk ≤ 2 ^ 16
    → r_slb ≤ 10
    → a + slab_size r_slb + 2 ^ 17 < 2 ^ 32
    → let sizes = init_onecache s_blk r_slb in
      (s : Slab) × (initslab sizes a ≡ some s)
      × IsSlab sizes a s
      × (s.n_fblk ≡ sizes.bps)
      × (s.freepos ≡ blocks (a + sizeof_slab) sizes.s_blk sizes.bps)
unfolding init_onecache
made-IsSlab s_blk r_slb a some_bytes few_bytes rank low =
    let sizes = init_onecache s_blk r_slb in
    let (s, run, chain, counted, _, left, right, fits, _) =
      initslab-blocks s_blk r_slb a some_bytes few_bytes rank low in
    let n : s.n_fblk ≡ sizes.bps =
      counted ∙ ap length chain ∙ length-blocks (a + sizeof_slab) sizes.s_blk sizes.bps in
    (
      s,
      run,
      record {
        left = left;
        right = right;
        counted = counted;
        chain = λ x. omega (arith, ap (count x) chain);
        fits = omega (arith, fits, ap (λ k. sizes.s_blk * k) n);
        low = low;
      },
      n,
      chain,
    )

rank_made : (s_blk r_slb : ℕ) → (init_onecache s_blk r_slb).r_slb ≡ r_slb
unfolding init_onecache
rank_made s_blk r_slb = refl

pub IsMade-rank : (sizes : Memcache) → IsMade sizes → sizes.r_slb ≤ 10
IsMade-rank sizes m =
    omega (arith, ap (λ (t : Memcache). t.r_slb) m.made, rank_made m.s_blk m.r_slb, m.low_rank)

pub initslab-IsSlab :
    (sizes : Memcache) (a : ℕ)
    → IsMade sizes
    → a + slab_size sizes.r_slb + 2 ^ 17 < 2 ^ 32
    → (s : Slab) × (initslab sizes a ≡ some s)
      × IsSlab sizes a s
      × (s.n_fblk ≡ sizes.bps)
      × (s.freepos ≡ blocks (a + sizeof_slab) sizes.s_blk sizes.bps)
initslab-IsSlab sizes a m low =
    let rank : sizes.r_slb ≡ m.r_slb =
      ap (λ (t : Memcache). t.r_slb) m.made ∙ rank_made m.s_blk m.r_slb in
    rw m.made (made-IsSlab m.s_blk m.r_slb a m.some_bytes m.few_bytes m.low_rank (rw rank at low))
