-- ===== src/Mm/Buddy/Free.antt =====
-- What `page_free` of myLoader/mm/page.c leaves.
use native.Mathlib.Nat.{one-le-pow}
use porcelix.Prelude.{
  bit_and, ℕ, zero, suc, ◌+◌, ◌-◌, ◌*◌, ◌/◌, ◌%◌, ◌^◌, ◌≤◌, ◌<◌, ◌≡◌, refl, ◌≢◌, ◌⊎◌, inl, inr, ◌↔◌,
  true, false, ◌&&◌, some, arith, ltb, ltb→lt, ◌==◌, ap, sym, ◌∙◌, ℕ_discrete, Bool-cases, min,
}
use porcelix.Mm.Buddy.{
  Mem, get_pagearea, merge, page_alloc, page_free, buddy_of, buddy_ranknum, paf_areamask,
  list_add_head, list_remove, set_rank,
}
use porcelix.Mm.Buddy.Invariant.{rank_of, is_linked, IsBlock, IsBuddy, IsFree, self_in}
use porcelix.Mm.Buddy.Pairs.{buddy_of_cases}
use porcelix.Mm.Buddy.Insert.{IsAdded, list_add_head-IsAdded}
use porcelix.Mm.Buddy.Alloc.{IsAllocated, page_alloc-IsAllocated}
use porcelix.Mm.Buddy.Merge.{InBlock, IsMerged, min-IsPair, pair-IsMerged, rank_merged}

-- The block at `i` has the highest rank, or its buddy is no free block of its rank and area.
abbrev pub IsWhole : Mem → ℕ → ℕ → Type 0
IsWhole m a i =
    (rank_of m i ≡ buddy_ranknum - 1)
    ⊎ (is_linked m (buddy_of i (rank_of m i)) ≡ true
        → rank_of m (buddy_of i (rank_of m i)) ≡ rank_of m i
        → get_pagearea m.areas (buddy_of i (rank_of m i)) ≢ some a)

IsMerged-refl : (m : Mem) (a i : ℕ) → IsBuddy m → IsBlock m a i (rank_of m i) → IsMerged m m a i i
IsMerged-refl m a i b k = record {
  buddy = b;
  areas = refl;
  block = k;
  free = λ x. (λ f. f, λ f. f);
  inside = λ x h. h;
}

IsMerged-trans :
    {m m' m'' : Mem} {a i j k : ℕ}
    → IsMerged m m' a i j
    → IsMerged m' m'' a j k
    → IsMerged m m'' a i k
IsMerged-trans s t = record {
  buddy = t.buddy;
  areas = t.areas ∙ s.areas;
  block = t.block;
  free = λ x. (λ f. (t.free x).0 ((s.free x).0 f), λ f. (s.free x).1 ((t.free x).1 f));
  inside = λ x h. t.inside x (s.inside x h);
}

-- What the merge loop returns.
abbrev pub Merges : ℕ → Mem → ℕ → ℕ → Type 0
Merges k m a i =
    (head : ℕ) × (m' : Mem) × (merge k m i a ≡ some (head, m'))
    × IsMerged m m' a i head
    × IsWhole m' a head

-- The loop stops at the block itself.
stop-Merges :
    (k : ℕ) (m : Mem) (a i : ℕ)
    → IsBuddy m
    → IsBlock m a i (rank_of m i)
    → merge k m i a ≡ some (i, m)
    → IsWhole m a i
    → Merges k m a i
stop-Merges k m a i b block e w = (i, m, e, IsMerged-refl m a i b block, w)

-- The state after a round of the merge loop on the blocks at `i` and `j`.
abbrev next : Mem → ℕ → ℕ → Mem
next m i j = let m' = list_remove m j in set_rank m' (min i j) ((m'.pages (min i j)).buddy_rank + 1)

merge_round :
    (k : ℕ) (m : Mem) (a i : ℕ)
    → ltb (rank_of m i) (buddy_ranknum - 1) ≡ true
    → (is_linked m (buddy_of i (rank_of m i))
        && rank_of m (buddy_of i (rank_of m i)) == rank_of m i)
      ≡ true
    → get_pagearea m.areas (buddy_of i (rank_of m i)) ≡ some a
    → merge (suc k) m i a
      ≡ merge k (next m i (buddy_of i (rank_of m i))) (min i (buddy_of i (rank_of m i))) a
unfolding merge
merge_round k m a i more found area =
    let same : (a == a) ≡ true = ground arith in rw (more, found, area, same, merge) refl

-- The merge loop finds the whole block, if it has rounds enough.
merge-Merges :
    (k : ℕ) (m : Mem) (a i : ℕ)
    → IsBuddy m
    → IsBlock m a i (rank_of m i)
    → buddy_ranknum ≤ rank_of m i + k + 1
    → Merges k m a i
unfolding merge
merge-Merges zero m a i b block enough =
    stop-Merges zero m a i b block refl (inl (omega (arith, block.small)))
merge-Merges (suc k) m a i b block enough =
    let r = rank_of m i in
    let j = buddy_of i r in
    elim (Bool-cases (ltb r (buddy_ranknum - 1))) [
      | inr top ↦
          stop-Merges (suc k) m a i b block (rw (top, merge) refl)
            (inl (ground (arith, block.small)))
      | inl more ↦ elim (Bool-cases (is_linked m j && rank_of m j == r)) [
        | inr apart ↦
            stop-Merges (suc k) m a i b block (rw (more, apart, merge) refl)
              (inr λ l e f. ground (arith, apart, l, e))
        | inl found ↦
            let here : is_linked m j ≡ true = ground arith in
            let rank : rank_of m j ≡ r = ground arith in
            let (c, whole) = b.whole j here in
            let area : get_pagearea m.areas j ≡ some c =
              whole j (omega arith) (self_in j (rank_of m j)) in
            elim (ℕ_discrete c a) [
              | no n ↦
                  let other : (c == a) ≡ false = ground arith in
                  stop-Merges (suc k) m a i b block (rw (more, found, area, other, merge) refl)
                    (inr λ l e f. let same : c ≡ a = cc in n same)
              | yes e ↦
                  let in_area : get_pagearea m.areas j ≡ some a = area ∙ ap some e in
                  let pair = min-IsPair i r block.aligned in
                  let high : r < buddy_ranknum - 1 = ltb→lt r (buddy_ranknum - 1) more in
                  let one =
                    pair-IsMerged m a i j (min i j) r b block refl pair here rank in_area high in
                  let up =
                    rank_merged m a i j (min i j) r b block refl pair here rank in_area high in
                  let (head, m', eq, s, w) =
                    merge-Merges k _ a (min i j) one.buddy one.block (omega arith) in
                  (head, m', merge_round k m a i more found in_area ∙ eq, IsMerged-trans one s, w)
            ]
      ]
    ]

-- The block stays whole when it enters its list.
added-IsWhole :
    (m m' : Mem) (a i : ℕ)
    → i % 2 ^ rank_of m i ≡ 0
    → IsAdded m m' i (rank_of m i)
    → IsWhole m a i
    → IsWhole m' a i
added-IsWhole m m' a i h add (inl top) = inl (add.ranks i ∙ top)
added-IsWhole m m' a i h add (inr apart) = inr (
    rw (add.ranks i) λ l e f.
      let ne : buddy_of i (rank_of m i) ≢ i =
        omega (arith, buddy_of_cases i (rank_of m i) h, one-le-pow (rank_of m i) 2) in
      apart (sym (add.others (buddy_of i (rank_of m i)) ne) ∙ l)
        (sym (add.ranks (buddy_of i (rank_of m i))) ∙ e)
        (ap (λ t. get_pagearea t (buddy_of i (rank_of m i))) (sym add.areas) ∙ f))

-- The page `head` heads a free block of the area that holds every page of the block of this rank at
-- `i`.
pub record IsJoined (m' : Mem) (a i rank head : ℕ) : Type 0 where
  pub linked : is_linked m' head ≡ true
  pub area : get_pagearea m'.areas head ≡ some a
  pub inside : (x : ℕ) → InBlock i rank x → InBlock head (rank_of m' head) x

-- On a state in which the invariant `IsBuddy` holds, `page_free` of a block outside the free lists
-- (`IsBlock`) whose first page nobody refers to finds no failed `ASSERT`. The invariant holds after
-- it, the free pages are those of before and those of the block, and the block joins all its free
-- buddies: it ends in one free block, which holds all its pages and lies in its area (`IsJoined`),
-- and which has the highest rank, or its buddy is no free block of the same rank in the same area.
pub page_free-IsFree :
    (m : Mem) (a i : ℕ)
    → IsBuddy m
    → IsBlock m a i (rank_of m i)
    → (m.pages i).refcount ≡ 0
    → (head : ℕ) × (m' : Mem) × (page_free m (i * 4096) ≡ some m')
      × IsBuddy m'
      × (m'.areas ≡ m.areas)
      × ((x : ℕ) → IsFree m' x ↔ (IsFree m x ⊎ InBlock i (rank_of m i) x))
      × IsJoined m' a i (rank_of m i) head
      × IsWhole m' a head
unfolding page_free
page_free-IsFree m a i b block ref =
    let page : i * 4096 / 4096 ≡ i = omega arith in
    let small : ltb (rank_of m i) buddy_ranknum ≡ true = ground (arith, block.small) in
    let area = block.whole i (omega arith) (self_in i (rank_of m i)) in
    let (head, m1, eq, s, w) = merge-Merges buddy_ranknum m a i b block (omega arith) in
    let add = list_add_head-IsAdded m1 head a (rank_of m1 head) s.buddy refl s.block in
    (
      head,
      list_add_head m1 head a (rank_of m1 head),
      rw (page, ref, small, block.unlinked, area, eq, page_free) refl,
      add.buddy,
      add.areas ∙ s.areas,
      λ x. (
        (λ f. (s.free x).1 (add.cases x f)),
        λ f. elim ((s.free x).0 f) [ inl g ↦ add.kept x g | inr (h, l) ↦ add.block x h l ],
      ),
      record {
        linked = add.new;
        area = rw add.areas (s.block.whole head (omega arith) (self_in head (rank_of m1 head)));
        inside = λ x h. rw (add.ranks head) (s.inside x h);
      },
      added-IsWhole m1 (list_add_head m1 head a (rank_of m1 head)) a head s.block.aligned add w,
    )

-- An allocated block is free again after `page_free`.
IsFree-IsAllocated :
    (m m' : Mem) (a rank i : ℕ)
    → IsBuddy m
    → IsAllocated m m' a i rank
    → (m'.pages i).refcount ≡ 0
    → (m'' : Mem) × (page_free m' (i * 4096) ≡ some m'')
      × IsBuddy m''
      × ((x : ℕ) → IsFree m'' x ↔ IsFree m x)
IsFree-IsAllocated m m' a rank i b k ref =
    let (head, m'', e, b'', areas, free, joined, rest) =
      page_free-IsFree m' a i k.buddy (rw k.at_rank k.block) ref in
    (
      m'',
      e,
      b'',
      λ x. (
        (λ f. (k.free x).1 (rw k.at_rank at ((free x).0 f))),
        (λ f. (free x).1 (rw k.at_rank ((k.free x).0 f))),
      ),
    )

-- Where the invariant `IsBuddy` holds and `page_alloc` returns a page, `page_free` of that page, to
-- which nobody refers, gives back what was taken: it finds no failed `ASSERT`, the invariant holds
-- after it, and a page is free if and only if it was free before `page_alloc`.
pub page_free-page_alloc :
    (m m' : Mem) (rank paf i n : ℕ)
    → IsBuddy m
    → page_alloc m rank paf ≡ some (some (i * 4096, n), m')
    → (m'.pages i).refcount ≡ 0
    → (m'' : Mem) × (page_free m' (i * 4096) ≡ some m'')
      × IsBuddy m''
      × ((x : ℕ) → IsFree m'' x ↔ IsFree m x)
page_free-page_alloc m m' rank paf i n b e ref = elim (page_alloc-IsAllocated m rank paf b) [
  | inl (f, dead) ↦ absurd (ground (arith, e, dead))
  | inr (inl (f, none_there, null)) ↦ absurd (ground (arith, e, null))
  | inr (inr (inl (f, there, high, dead))) ↦ absurd (ground (arith, e, dead))
  | inr (inr (inr (inl (f, there, low, full, null)))) ↦ absurd (ground (arith, e, null))
  | inr (inr (inr (inr (n3, there, j, m1, f, k)))) ↦
      let state : m1 ≡ m' = cc in
      let address : j * 4096 ≡ i * 4096 = cc in
      let page : j ≡ i = omega arith in
      let a = bit_and paf paf_areamask in
      IsFree-IsAllocated m m' a rank i b (rw (state, page) at k) ref
]
