-- ===== src/Mm/Buddy/Insert.antt =====
-- A block enters the free lists (`list_add_head` in myLoader/mm/page.c).
use mathlib.Core.Path.{subst}
use porcelix.Prelude.{
  ℕ, ◌+◌, ◌^◌, ◌≤◌, ◌<◌, ◌≡◌, refl, ◌≢◌, ◌⊎◌, inl, inr, true, ◌&&◌, some, arith, ◌==◌,
  if◌then◌else◌, ap, sym, ◌∙◌, ℕ_discrete,
}
use porcelix.Mm.Buddy.{Mem, get_pagearea, list_add_head}
use porcelix.Mm.Buddy.Invariant.{
  rank_of, is_linked, is_area, count, Apart, IsBlock, IsBuddy, IsFree, self_in,
}

module _ (m : Mem) (i a : ℕ) (b : IsBuddy m) (k : IsBlock m a i (rank_of m i)) where
  abbrev added : Mem
  added = list_add_head m i a (rank_of m i)

  Apart-new : (j : ℕ) → is_linked m j ≡ true → Apart j (rank_of m j) i (rank_of m i)
  Apart-new j l = omega (arith, k.alone j l)

  linked_added : (j : ℕ) → j ≢ i → is_linked added j ≡ is_linked m j
  unfolding list_add_head
  linked_added j ne = ground arith

  linked_new : is_linked added i ≡ true
  unfolding list_add_head
  linked_new = ground arith

  rank_added : (j : ℕ) → rank_of added j ≡ rank_of m j
  unfolding list_add_head
  rank_added j = ground arith

  areas_added : added.areas ≡ m.areas
  unfolding list_add_head
  areas_added = refl

  listed_added :
      (a' r j : ℕ)
      → count j (added.fpage_list a' r) ≡ (
          if is_linked added j && rank_of added j == r && is_area (get_pagearea added.areas j) a'
          then 1
          else 0)
  unfolding list_add_head count
  listed_added a' r j =
      let here : get_pagearea m.areas i ≡ some a =
        k.whole i (omega arith) (self_in i (rank_of m i)) in
      let out = k.unlinked in
      elim (ℕ_discrete j i) [
        | yes e ↦ rw e (ground (arith, b.listed a' r i))
        | no n ↦ ground (arith, b.listed a' r j)
      ]

  -- A block enters the list of its area and rank.
  list_add_head-IsBuddy : IsBuddy added
  list_add_head-IsBuddy = record {
    listed = listed_added;
    small = λ j l. elim (ℕ_discrete j i) [
      | yes e ↦ rw (rank_added j, e) k.small
      | no n ↦ rw (rank_added j) (b.small j (sym (linked_added j n) ∙ l))
    ];
    aligned = λ j l. elim (ℕ_discrete j i) [
      | yes e ↦ rw (rank_added j, e) k.aligned
      | no n ↦ rw (rank_added j) (b.aligned j (sym (linked_added j n) ∙ l))
    ];
    whole = λ j l. elim (ℕ_discrete j i) [
      | yes e ↦ rw (rank_added j, areas_added, e) (a, k.whole)
      | no n ↦ rw (rank_added j, areas_added) (b.whole j (sym (linked_added j n) ∙ l))
    ];
    apart = λ j n l o ne.
        rw (rank_added j, rank_added n)
          (elim (ℕ_discrete j i) [
            | yes e ↦
                let other : n ≢ i = λ f. ne (e ∙ sym f) in
                rw e (k.alone n (sym (linked_added n other) ∙ o))
            | no f ↦ elim (ℕ_discrete n i) [
              | yes g ↦ rw g (Apart-new j (sym (linked_added j f) ∙ l))
              | no g ↦ b.apart j n (sym (linked_added j f) ∙ l) (sym (linked_added n g) ∙ o) ne
            ]
          ]);
  }

  -- The free pages grow by the block.
  IsFree-added : (x : ℕ) → IsFree m x → IsFree added x
  IsFree-added x f =
      let other : f.head ≢ i = λ e. ground (arith, k.unlinked, f.free, ap (is_linked m) e) in
      record {
        head = f.head;
        free = linked_added f.head other ∙ f.free;
        from = f.from;
        until = rw (rank_added f.head) f.until;
      }

  IsFree-block : (x : ℕ) → i ≤ x → x < i + 2 ^ rank_of m i → IsFree added x
  IsFree-block x h l = record { head = i; free = linked_new; from = h; until = rw (rank_added i) l }

  IsFree-cases : (x : ℕ) → IsFree added x → IsFree m x ⊎ ((i ≤ x) × (x < i + 2 ^ rank_of m i))
  IsFree-cases x f = elim (ℕ_discrete f.head i) [
    | yes e ↦
        let same : rank_of added f.head ≡ rank_of m i = rank_added f.head ∙ ap (rank_of m) e in
        let until : x < f.head + 2 ^ rank_of m i = rw same at f.until in
        inr (omega (arith, f.from), omega arith)
    | no n ↦ inl (record {
      head = f.head;
      free = sym (linked_added f.head n) ∙ f.free;
      from = f.from;
      until = rw (rank_added f.head) at f.until;
    })
  ]

-- `m'` is `m` with the block of this rank at `i` in its list.
pub record IsAdded (m m' : Mem) (i rank : ℕ) : Type 0 where
  pub buddy : IsBuddy m'
  pub areas : m'.areas ≡ m.areas
  pub new : is_linked m' i ≡ true
  pub others : (j : ℕ) → j ≢ i → is_linked m' j ≡ is_linked m j
  pub ranks : (j : ℕ) → rank_of m' j ≡ rank_of m j
  pub kept : (x : ℕ) → IsFree m x → IsFree m' x
  pub block : (x : ℕ) → i ≤ x → x < i + 2 ^ rank → IsFree m' x
  pub cases : (x : ℕ) → IsFree m' x → IsFree m x ⊎ ((i ≤ x) × (x < i + 2 ^ rank))

pub list_add_head-IsAdded :
    (m : Mem) (i a rank : ℕ)
    → IsBuddy m
    → rank_of m i ≡ rank
    → IsBlock m a i rank
    → IsAdded m (list_add_head m i a rank) i rank
list_add_head-IsAdded m i a rank b e =
    subst (λ t. IsBlock m a i t → IsAdded m (list_add_head m i a t) i t) e
      λ k. record {
        buddy = list_add_head-IsBuddy m i a b k;
        areas = areas_added m i a b k;
        new = linked_new m i a b k;
        others = linked_added m i a b k;
        ranks = rank_added m i a b k;
        kept = IsFree-added m i a b k;
        block = IsFree-block m i a b k;
        cases = IsFree-cases m i a b k;
      }
