-- ===== src/Mm/Buddy/Merge.antt =====
-- One round of the merge loop of `page_free` (myLoader/mm/page.c): a block and its free buddy make
-- a block of the next rank.
use native.Mathlib.Nat.{one-le-pow, two-pow-succ}
use porcelix.Prelude.{
  ℕ, suc, ◌+◌, ◌-◌, ◌%◌, ◌^◌, ◌≤◌, ◌<◌, ◌≡◌, ◌≢◌, ◌⊎◌, inl, inr, ◌↔◌, true, false, some, arith, ap,
  sym, ◌∙◌, min, dec_lt,
}
use porcelix.Mm.Buddy.{Mem, get_pagearea, set_rank, list_remove, buddy_of, buddy_ranknum}
use porcelix.Mm.Buddy.Invariant.{
  rank_of, is_linked, Apart, IsBlock, IsBuddy, IsFree, SameBlocks-IsBuddy, SameBlocks-IsFree,
  SameBlocks-symm, set_rank-SameBlocks, SameBlocks,
}
use porcelix.Mm.Buddy.Pairs.{buddy_of_cases}
use porcelix.Mm.Buddy.Remove.{
  Unlinks, list_remove-Unlinks, Unlinks-IsBuddy, Unlinks-IsFree, Unlinks_cases,
}
use porcelix.Mm.Buddy.Split.{rank_set}
use porcelix.Mm.Buddy.Alloc.{whole_area}

-- The page `x` lies in the block of this rank at `i`.
abbrev pub InBlock : ℕ → ℕ → ℕ → Type 0
InBlock i rank x = (i ≤ x) × (x < i + 2 ^ rank)

-- The state `m'` with the block at `head` holds the pages that `m` with the block at `i` holds, and
-- the block at `i` lies in the one at `head`.
pub record IsMerged (m m' : Mem) (a i head : ℕ) : Type 0 where
  pub buddy : IsBuddy m'
  pub areas : m'.areas ≡ m.areas
  pub block : IsBlock m' a head (rank_of m' head)
  pub free :
      (x : ℕ)
      → (IsFree m x ⊎ InBlock i (rank_of m i) x) ↔ (IsFree m' x ⊎ InBlock head (rank_of m' head) x)
  pub inside : (x : ℕ) → InBlock i (rank_of m i) x → InBlock head (rank_of m' head) x

-- `head` is the first of the blocks of this rank at `i` and `j`, which make one of the next rank.
pub record IsPair (i j head rank : ℕ) : Type 0 where
  pub aligned : head % 2 ^ suc rank ≡ 0
  pub low : ((head ≡ i) × (j ≡ i + 2 ^ rank)) ⊎ ((head ≡ j) × (i ≡ j + 2 ^ rank))
  pub parts : (x : ℕ) → InBlock head (suc rank) x → InBlock i rank x ⊎ InBlock j rank x
  pub first : (x : ℕ) → InBlock i rank x → InBlock head (suc rank) x
  pub second : (x : ℕ) → InBlock j rank x → InBlock head (suc rank) x

-- The lower of two buddies heads the block that they make.
pub min-IsPair : (i r : ℕ) → i % 2 ^ r ≡ 0 → IsPair i (buddy_of i r) (min i (buddy_of i r)) r
min-IsPair i r h =
    let double = two-pow-succ r in
    elim (buddy_of_cases i r h) [
      | inl (e, al) ↦
          let f : min i (buddy_of i r) ≡ i = omega arith in
          record {
            aligned = rw f al;
            low = inl (f, e);
            parts = λ x (from, until). elim (dec_lt x (i + 2 ^ r)) [
              | yes p ↦ inl (omega arith, p)
              | no n ↦ inr (omega arith, omega arith)
            ];
            first = λ x (from, until). (omega arith, omega arith);
            second = λ x (from, until). (omega arith, omega arith);
          }
      | inr (e, al) ↦
          let f : min i (buddy_of i r) ≡ buddy_of i r = omega arith in
          record {
            aligned = rw f al;
            low = inr (f, sym e);
            parts = λ x (from, until). elim (dec_lt x i) [
              | yes p ↦ inr (omega arith, omega arith)
              | no n ↦ inl (omega arith, omega arith)
            ];
            first = λ x (from, until). (omega arith, omega arith);
            second = λ x (from, until). (omega arith, omega arith);
          }
    ]

module _ (m : Mem) (a i j head r : ℕ) (b : IsBuddy m) (k : IsBlock m a i r) (at : rank_of m i ≡ r)
    (p : IsPair i j head r) (here : is_linked m j ≡ true) (rank : rank_of m j ≡ r)
    (area : get_pagearea m.areas j ≡ some a) (high : r < buddy_ranknum - 1) where
  abbrev removed : Mem
  removed = list_remove m j

  abbrev merged : Mem
  merged = set_rank removed head (rank_of removed head + 1)

  unlinked : Unlinks m removed j
  unlinked = list_remove-Unlinks m j b

  other : i ≢ j
  other e = ground (arith, k.unlinked, here, ap (is_linked m) e)

  rank_head : rank_of removed head ≡ r
  rank_head = unlinked.ranks head ∙ elim p.low [
    | inl (e, next) ↦ ap (rank_of m) e ∙ at
    | inr (e, next) ↦ ap (rank_of m) e ∙ rank
  ]

  out_head : is_linked removed head ≡ false
  out_head = elim p.low [
    | inl (e, next) ↦ ap (is_linked removed) e ∙ unlinked.others i other ∙ k.unlinked
    | inr (e, next) ↦ ap (is_linked removed) e ∙ unlinked.out
  ]

  same : SameBlocks removed merged
  same = set_rank-SameBlocks removed head (rank_of removed head + 1) out_head

  pub rank_merged : rank_of merged head ≡ suc r
  rank_merged = rank_set removed head (rank_of removed head + 1) ∙ omega (arith, rank_head)

  -- A free block of the new state is one of the old state, other than the buddy.
  before : (n : ℕ) → is_linked merged n ≡ true → (is_linked m n ≡ true) × (n ≢ j)
  before n l =
      let old : is_linked removed n ≡ true = sym (same.linked n) ∙ l in
      let ne : n ≢ j = λ e. ground (arith, unlinked.out, old, ap (is_linked removed) e) in
      (sym (unlinked.others n ne) ∙ old, ne)

  -- A block that meets neither part does not meet the whole.
  Apart-whole : (n s : ℕ) → Apart i r n s → Apart j r n s → Apart head (suc r) n s
  Apart-whole n s x y =
      let one = one-le-pow r 2 (omega arith) in
      let two = one-le-pow s 2 (omega arith) in
      let double = two-pow-succ r in omega (arith, p.low, x, y)

  merged-IsBlock : IsBlock merged a head (suc r)
  unfolding set_rank list_remove
  merged-IsBlock = record {
    unlinked = same.linked head ∙ out_head;
    small = omega arith;
    aligned = p.aligned;
    whole = λ x from until. elim (p.parts x (from, until)) [
      | inl (h, l) ↦ k.whole x h l
      | inr (h, l) ↦ whole_area m a j b here area x h (rw rank l)
    ];
    alone = λ n l.
        let (old, ne) = before n l in
        let s : rank_of merged n ≡ rank_of m n =
          same.ranks n (sym (same.linked n) ∙ l) ∙ unlinked.ranks n in
        rw s (
          Apart-whole n (rank_of m n) (k.alone n old)
            (rw rank at (b.apart j n here old (λ e. ne (sym e)))));
  }

  parts-IsFree : (x : ℕ) → IsFree m x ⊎ InBlock i r x → IsFree merged x ⊎ InBlock head (suc r) x
  parts-IsFree x (inr h) = inr (p.first x h)
  parts-IsFree x (inl f) = elim (Unlinks_cases b here unlinked x f) [
    | inl g ↦ inl (SameBlocks-IsFree same x g)
    | inr h ↦ inr (p.second x (rw rank at h))
  ]

  parts-IsFree_back :
      (x : ℕ) → IsFree merged x ⊎ InBlock head (suc r) x → IsFree m x ⊎ InBlock i r x
  parts-IsFree_back x (inl f) =
      inl (Unlinks-IsFree b here unlinked x (SameBlocks-IsFree (SameBlocks-symm same) x f))
  parts-IsFree_back x (inr h) = elim (p.parts x h) [
    | inl g ↦ inr g
    | inr (from, until) ↦ inl (record { head = j; free = here; from = from; until = rw rank until })
  ]

  pub pair-IsMerged : IsMerged m merged a i head
  pair-IsMerged = record {
    buddy = SameBlocks-IsBuddy same (Unlinks-IsBuddy b here unlinked);
    areas = same.areas ∙ unlinked.areas;
    block = rw rank_merged merged-IsBlock;
    free = λ x. rw (at, rank_merged) (parts-IsFree x, parts-IsFree_back x);
    inside = λ x. rw (at, rank_merged) (p.first x);
  }
