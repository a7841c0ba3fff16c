-- ===== src/Mm/Buddy/Remove.antt =====
-- A block leaves the free lists (`list_remove` and `list_remove_head` in myLoader/mm/page.c).
use porcelix.Prelude.{
  ℕ, suc, ◌+◌, ◌^◌, ◌≤◌, ◌<◌, ◌≡◌, refl, ◌≢◌, ◌⊎◌, inl, inr, true, false, List, ◌∷◌, arith, ◌==◌,
  if◌then◌else◌, ap, sym, ◌∙◌, ℕ_discrete,
}
use porcelix.Mm.Buddy.{Mem, list_remove, list_remove_head}
use porcelix.Mm.Buddy.Invariant.{
  rank_of, is_linked, count, InArea, IsBlock, IsBuddy, IsFree, count-erase,
}

-- `m'` is `m` with the page `i` in no list.
pub record Unlinks (m m' : Mem) (i : ℕ) : Type 0 where
  pub areas : m'.areas ≡ m.areas
  pub out : is_linked m' i ≡ false
  pub others : (j : ℕ) → j ≢ i → is_linked m' j ≡ is_linked m j
  pub ranks : (j : ℕ) → rank_of m' j ≡ rank_of m j
  pub lists :
      (a r j : ℕ) → count j (m'.fpage_list a r) ≡ (if j == i then 0 else count j (m.fpage_list a r))

module _ (m : Mem) (i : ℕ) (b : IsBuddy m) where
  pub list_remove-Unlinks : Unlinks m (list_remove m i) i
  unfolding list_remove
  list_remove-Unlinks = record {
    areas = refl;
    out = ground arith;
    others = λ j n. ground arith;
    ranks = λ j. ground arith;
    lists = λ a r j. ground (arith, count-erase j i (m.fpage_list a r), b.listed a r i);
  }

  -- the first page of a list stands in no other list, and once in this one
  first_only :
      (a r : ℕ) (rest : List ℕ)
      → m.fpage_list a r ≡ i ∷ rest
      → (count i rest ≡ 0) × ((a' r' : ℕ) → (a' ≢ a) ⊎ (r' ≢ r) → count i (m.fpage_list a' r') ≡ 0)
  unfolding count
  first_only a r rest first =
      let whole : count i (m.fpage_list a r) ≡ suc (count i rest) =
        ap (count i) first ∙ ground arith in
      (
        ground (arith, b.listed a r i),
        λ a' r' other. ground (arith, b.listed a r i, b.listed a' r' i),
      )

  pub list_remove_head-Unlinks :
      (a r : ℕ) (rest : List ℕ)
      → m.fpage_list a r ≡ i ∷ rest
      → Unlinks m (list_remove_head m i a r) i
  unfolding list_remove_head count
  list_remove_head-Unlinks a r rest first =
      let (once, never) = first_only a r rest first in
      record {
        areas = refl;
        out = ground arith;
        others = λ j n. ground arith;
        ranks = λ j. ground arith;
        lists = λ a' r' j. elim (ℕ_discrete a' a) [
          | yes e ↦ elim (ℕ_discrete r' r) [
            | yes f ↦ rw (e, f, first) (ground arith)
            | no n ↦
                ground (
                  arith,
                  never a' r' (inr n),
                  ap (λ t. count t (m.fpage_list a' r')) {x = j} {y = i},
                )
          ]
          | no n ↦
              ground
                (arith, never a' r' (inl n), ap (λ t. count t (m.fpage_list a' r')) {x = j} {y = i})
        ];
      }

module _ {m m' : Mem} {i : ℕ} (b : IsBuddy m) (here : is_linked m i ≡ true)
    (u : Unlinks m m' i) where
  not_it : (j : ℕ) → is_linked m' j ≡ true → j ≢ i
  not_it j l e = ground (arith, u.out, l, ap (is_linked m') e)

  before : (j : ℕ) → is_linked m' j ≡ true → is_linked m j ≡ true
  before j l = sym (u.others j (not_it j l)) ∙ l

  pub Unlinks-IsBuddy : IsBuddy m'
  Unlinks-IsBuddy = record {
    listed = λ a r j. elim (ℕ_discrete j i) [
      | yes e ↦ rw (e, u.out, u.lists a r i) (ground arith)
      | no n ↦ rw (u.lists a r j, u.others j n, u.ranks j, u.areas) (ground (arith, b.listed a r j))
    ];
    small = λ j l. rw (u.ranks j) (b.small j (before j l));
    aligned = λ j l. rw (u.ranks j) (b.aligned j (before j l));
    whole = λ j l. rw (u.ranks j, u.areas) (b.whole j (before j l));
    apart = λ j n l o ne. rw (u.ranks j, u.ranks n) (b.apart j n (before j l) (before n o) ne);
  }

  -- What has left the lists is a block of its own.
  pub Unlinks-IsBlock : (a : ℕ) → InArea m a i (rank_of m i) → IsBlock m' a i (rank_of m' i)
  Unlinks-IsBlock a w = record {
    unlinked = u.out;
    small = rw (u.ranks i) (b.small i here);
    aligned = rw (u.ranks i) (b.aligned i here);
    whole = rw (u.ranks i, u.areas) w;
    alone =
        λ j l. rw (u.ranks i, u.ranks j) (b.apart i j here (before j l) (λ e. not_it j l (sym e)));
  }

  -- The free pages lose the block.
  pub Unlinks-IsFree : (x : ℕ) → IsFree m' x → IsFree m x
  Unlinks-IsFree x f = record {
    head = f.head;
    free = before f.head f.free;
    from = f.from;
    until = rw (u.ranks f.head) at f.until;
  }

  pub Unlinks_outside : (x : ℕ) → IsFree m' x → (i ≤ x) → x < i + 2 ^ rank_of m i → ⊥
  Unlinks_outside x f h l =
      let n = not_it f.head f.free in
      let e = u.ranks f.head in
      ground (
        arith,
        f.from,
        f.until,
        b.apart f.head i (before f.head f.free) here n,
        ap (λ (t : ℕ). 2 ^ t) e,
      )

  pub Unlinks_cases : (x : ℕ) → IsFree m x → IsFree m' x ⊎ ((i ≤ x) × (x < i + 2 ^ rank_of m i))
  Unlinks_cases x f = elim (ℕ_discrete f.head i) [
    | yes e ↦
        let until : x < i + 2 ^ rank_of m i = rw e at f.until in inr (omega (arith, f.from), until)
    | no n ↦ inl (record {
      head = f.head;
      free = u.others f.head n ∙ f.free;
      from = f.from;
      until = rw (u.ranks f.head) f.until;
    })
  ]
