-- ===== src/Mm/Buddy/Split.antt =====
-- The split loop of `page_alloc` (myLoader/mm/page.c) gives the upper halves of a block back.
use native.Mathlib.Nat.{one-le-pow, two-pow-succ}
use porcelix.Prelude.{
  ℕ, suc, ◌+◌, ◌%◌, ◌^◌, ◌≤◌, ◌<◌, ◌≡◌, ◌≢◌, ◌⊎◌, inl, inr, true, false, arith, ap, sym, ◌∙◌,
  ℕ_discrete, Bool-cases,
}
use porcelix.Mm.Buddy.{Mem, get_pagearea, set_rank, list_add_head, buddy_ranknum}
use porcelix.Mm.Buddy.Invariant.{
  rank_of, is_linked, IsBlock, IsBuddy, IsFree, self_in, SameBlocks-IsBuddy, SameBlocks-IsFree,
  SameBlocks-symm, set_rank-SameBlocks, SameBlocks,
}
use porcelix.Mm.Buddy.Pairs.{buddy_of_upper, aligned_down}
use porcelix.Mm.Buddy.Insert.{list_add_head-IsAdded}

-- The rank that a page has after `set_rank`.
pub rank_set : (m : Mem) (i rank : ℕ) → rank_of (set_rank m i rank) i ≡ rank
unfolding set_rank
rank_set m i rank = ground arith

pub rank_set_ne : (m : Mem) (i j rank : ℕ) → j ≢ i → rank_of (set_rank m i rank) j ≡ rank_of m j
unfolding set_rank
rank_set_ne m i j rank n = ground arith

pub SameBlocks-trans : {m m' m'' : Mem} → SameBlocks m m' → SameBlocks m' m'' → SameBlocks m m''
SameBlocks-trans s t = record {
  areas = t.areas ∙ s.areas;
  lists = λ a r. t.lists a r ∙ s.lists a r;
  linked = λ j. t.linked j ∙ s.linked j;
  ranks = λ j l. t.ranks j (s.linked j ∙ l) ∙ s.ranks j l;
}

-- A block may be taken for a shorter one, or for another inside it.
pub IsBlock-part :
    (m m' : Mem) (a i rank j r : ℕ)
    → SameBlocks m m'
    → IsBlock m a i rank
    → i ≤ j
    → j + 2 ^ r ≤ i + 2 ^ rank
    → r < buddy_ranknum
    → j % 2 ^ r ≡ 0
    → is_linked m j ≡ false
    → IsBlock m' a j r
IsBlock-part m m' a i rank j r s k low high small aligned out = record {
  unlinked = s.linked j ∙ out;
  small = small;
  aligned = aligned;
  whole = λ x h l. ap (λ t. get_pagearea t x) s.areas ∙ k.whole x (omega arith) (omega arith);
  alone = λ n l.
      let was : is_linked m n ≡ true = sym (s.linked n) ∙ l in
      rw (s.ranks n was) (omega (arith, k.alone n was));
}

-- No page inside a block that meets no free block is linked.
pub inner_unlinked :
    (m : Mem) (a i rank j : ℕ)
    → IsBlock m a i rank
    → i ≤ j
    → j < i + 2 ^ rank
    → is_linked m j ≡ false
inner_unlinked m a i rank j k low high = elim (Bool-cases (is_linked m j)) [
  | inl l ↦ absurd (omega (arith, k.alone j l, self_in j (rank_of m j)))
  | inr n ↦ n
]

-- What the split loop leaves: `m'` has the block of rank `rank` at `i` outside the lists, and the
-- rest of the block of rank `full` that it was cut from is free.
pub record IsSplit (m m' : Mem) (a i rank full : ℕ) : Type 0 where
  pub buddy : IsBuddy m'
  pub areas : m'.areas ≡ m.areas
  pub at_rank : rank_of m' i ≡ rank
  pub block : IsBlock m' a i rank
  pub kept : (x : ℕ) → IsFree m x → IsFree m' x
  pub given_back : (x : ℕ) → i + 2 ^ rank ≤ x → x < i + 2 ^ full → IsFree m' x
  pub cases : (x : ℕ) → IsFree m' x → IsFree m x ⊎ ((i + 2 ^ rank ≤ x) × (x < i + 2 ^ full))

-- One round of the loop, on a block of rank `suc r`.
module _ (m : Mem) (a i r : ℕ) (b : IsBuddy m) (k : IsBlock m a i (suc r)) where
  abbrev lowered : Mem
  lowered = set_rank m i r

  abbrev upper : ℕ
  upper = i + 2 ^ r

  abbrev marked : Mem
  marked = set_rank lowered upper r

  upper_unlinked : is_linked m upper ≡ false
  upper_unlinked =
      inner_unlinked m a i (suc r) upper k (omega arith)
        (omega (arith, two-pow-succ r, one-le-pow r 2))

  same : SameBlocks m marked
  same =
      let s = set_rank-SameBlocks m i r k.unlinked in
      let t = set_rank-SameBlocks lowered upper r (s.linked upper ∙ upper_unlinked) in
      SameBlocks-trans s t

  pub halve-IsSplit : IsSplit m (list_add_head marked upper a r) a i r (suc r)
  halve-IsSplit =
      let one = one-le-pow r 2 (omega arith) in
      let double = two-pow-succ r in
      let half : IsBlock marked a upper r =
        IsBlock-part m marked a i (suc r) upper r same k (omega arith) (omega arith)
          (omega (arith, k.small)) (buddy_of_upper i r k.aligned).1 upper_unlinked in
      let low : IsBlock marked a i r =
        IsBlock-part m marked a i (suc r) i r same k (omega arith) (omega arith)
          (omega (arith, k.small)) (aligned_down i r k.aligned) k.unlinked in
      let add =
        list_add_head-IsAdded marked upper a r (SameBlocks-IsBuddy same b)
          (rank_set lowered upper r) half in
      let apart : i ≢ upper = omega arith in
      record {
        buddy = add.buddy;
        areas = add.areas ∙ same.areas;
        at_rank = add.ranks i ∙ rank_set_ne lowered upper i r apart ∙ rank_set m i r;
        block = record {
          unlinked = add.others i apart ∙ low.unlinked;
          small = low.small;
          aligned = low.aligned;
          whole = λ x h l. ap (λ t. get_pagearea t x) add.areas ∙ low.whole x h l;
          alone = λ j l. elim (ℕ_discrete j upper) [
            | yes e ↦ inl (omega arith)
            | no n ↦ rw (add.ranks j) (low.alone j (sym (add.others j n) ∙ l))
          ];
        };
        kept = λ x f. add.kept x (SameBlocks-IsFree same x f);
        given_back = λ x h l. add.block x h (omega arith);
        cases = λ x f. elim (add.cases x f) [
          | inl g ↦ inl (SameBlocks-IsFree (SameBlocks-symm same) x g)
          | inr h ↦ inr (h.0, omega arith)
        ];
      }
