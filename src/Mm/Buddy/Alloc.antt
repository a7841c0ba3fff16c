-- ===== src/Mm/Buddy/Alloc.antt =====
-- What `page_alloc` of myLoader/mm/page.c returns and leaves.
use native.Mathlib.Nat.{pow-le-pow_right}
use porcelix.Prelude.{
  dec_lt, ℕ, zero, suc, ◌+◌, ◌-◌, ◌*◌, ◌^◌, ◌≤◌, ◌<◌, ◌≡◌, refl, ◌⊎◌, inl, inr, ◌↔◌, true, false,
  List, [], ◌∷◌, none, some, arith, ltb, leb, Bool-cases, ◌==◌, if◌then◌else◌, ap, ◌∙◌, ℕ_discrete,
  leb→le, leb→lt, bit_and, ◌≢◌,
}
use porcelix.Prelude.Bits.{bit_and_mask, pow-add}
use porcelix.Mm.Buddy.{
  Mem, get_pagearea, buddy_ranknum, split, find_free, area_size, page_alloc, list_remove_head,
  paf_areamask, paf_zero, mmarea_num,
}
use porcelix.Mm.Buddy.Invariant.{
  rank_of, is_linked, count, InArea, IsBlock, IsBuddy, IsFree, self_in,
}
use porcelix.Mm.Buddy.Remove.{
  Unlinks, list_remove_head-Unlinks, Unlinks-IsBuddy, Unlinks-IsBlock, Unlinks-IsFree,
  Unlinks_cases,
}
use porcelix.Mm.Buddy.Rounds.{split-IsSplit}
use porcelix.Mm.Buddy.Split.{IsSplit}

List-cases : (xs : List ℕ) → (xs ≡ []) ⊎ ((p : ℕ) × (rest : List ℕ) × (xs ≡ p ∷ rest))
List-cases [] = inl refl
List-cases (p ∷ rest) = inr (p, rest, refl)

-- The search loop finds a list with a first page, or all lists from `i` on are empty.
find_free_cases :
    (lists : ℕ → List ℕ) (i k : ℕ)
    → ((find_free lists i k ≡ none) × ((j : ℕ) → i ≤ j → j < i + k → lists j ≡ []))
      ⊎ ((j : ℕ) × (p : ℕ) × (rest : List ℕ) × (find_free lists i k ≡ some (j, p))
          × (lists j ≡ p ∷ rest)
          × (i ≤ j)
          × (j < i + k))
unfolding find_free
find_free_cases lists i zero = inl (refl, λ j low high. absurd (omega arith))
find_free_cases lists i (suc k) = elim (List-cases (lists i)) [
  | inr (p, rest, e) ↦ inr (i, p, rest, rw (e, find_free) refl, e, omega arith, omega arith)
  | inl e ↦ elim (find_free_cases lists (i + 1) k) [
    | inr (j, p, rest, f, g, low, high) ↦
        inr (j, p, rest, rw (e, find_free) f, g, omega arith, omega arith)
    | inl (f, empty) ↦ inl (
      rw (e, find_free) f,
      λ j low high. elim (ℕ_discrete j i) [
        | yes g ↦ ap lists g ∙ e
        | no n ↦ empty j (omega arith) (omega arith)
      ],
    )
  ]
]

-- `page_alloc` has taken the block of rank `rank` at `i` of the area from the free pages.
pub record IsAllocated (m m' : Mem) (a i rank : ℕ) : Type 0 where
  pub buddy : IsBuddy m'
  pub areas : m'.areas ≡ m.areas
  pub at_rank : rank_of m' i ≡ rank
  pub block : IsBlock m' a i rank
  pub free : (x : ℕ) → IsFree m x ↔ (IsFree m' x ⊎ ((i ≤ x) × (x < i + 2 ^ rank)))

-- The first page of a list heads a block of the list's area and rank.
first_linked :
    (m : Mem) (a r i : ℕ) (rest : List ℕ)
    → IsBuddy m
    → m.fpage_list a r ≡ i ∷ rest
    → (is_linked m i ≡ true) × (rank_of m i ≡ r) × (get_pagearea m.areas i ≡ some a)
unfolding count
first_linked m a r i rest b first =
    let one : count i (m.fpage_list a r) ≡ suc (count i rest) = ap (count i) first ∙ ground arith in
    ground (arith, b.listed a r i)

-- The block of a linked page lies in the area of the page.
pub whole_area :
    (m : Mem) (a i : ℕ)
    → IsBuddy m
    → is_linked m i ≡ true
    → get_pagearea m.areas i ≡ some a
    → InArea m a i (rank_of m i)
whole_area m a i b here area x h l =
    let (a', whole) = b.whole i here in
    let other : get_pagearea m.areas i ≡ some a' =
      whole i (omega arith) (self_in i (rank_of m i)) in
    let same : get_pagearea m.areas x ≡ some a' = whole x h l in cc

-- Taking a first page and splitting its block down to the rank allocates the block.
module _ (m : Mem) (a rank r i : ℕ) (rest : List ℕ) (b : IsBuddy m)
    (first : m.fpage_list a r ≡ i ∷ rest) (low : rank ≤ r) (high : r < buddy_ranknum) where
  abbrev taken : Mem
  taken = list_remove_head m i a r

  abbrev left : Mem
  left = split buddy_ranknum taken i a rank

  here : is_linked m i ≡ true
  here = (first_linked m a r i rest b first).0

  at : rank_of m i ≡ r
  at = (first_linked m a r i rest b first).1

  unlinked : Unlinks m taken i
  unlinked = list_remove_head-Unlinks m i b a r rest first

  cut : IsSplit taken left a i rank r
  cut =
      let area = (first_linked m a r i rest b first).2 in
      let rank_taken : rank_of taken i ≡ r = unlinked.ranks i ∙ at in
      let block = Unlinks-IsBlock b here unlinked a (whole_area m a i b here area) in
      split-IsSplit buddy_ranknum taken a i rank r (Unlinks-IsBuddy b here unlinked)
        (rw rank_taken at block) rank_taken low (omega arith)

  shorter : (x : ℕ) → x < i + 2 ^ rank → x < i + 2 ^ rank_of m i
  shorter x l =
      let grow : 2 ^ rank ≤ 2 ^ r = pow-le-pow_right (omega arith) low in rw at (omega arith)

  in_block : (x : ℕ) → i ≤ x → x < i + 2 ^ rank_of m i → IsFree m x
  in_block x h l = record { head = i; free = here; from = h; until = l }

  take-IsFree : (x : ℕ) → IsFree m x → IsFree left x ⊎ ((i ≤ x) × (x < i + 2 ^ rank))
  take-IsFree x f = elim (Unlinks_cases b here unlinked x f) [
    | inl g ↦ inl (cut.kept x g)
    | inr (h, l) ↦ elim (dec_lt x (i + 2 ^ rank)) [
      | yes p ↦ inr (h, p)
      | no n ↦ inl (cut.given_back x (omega arith) (rw at at l))
    ]
  ]

  take-IsFree_back : (x : ℕ) → IsFree left x ⊎ ((i ≤ x) × (x < i + 2 ^ rank)) → IsFree m x
  take-IsFree_back x (inr (h, l)) = in_block x h (shorter x l)
  take-IsFree_back x (inl f) = elim (cut.cases x f) [
    | inl g ↦ Unlinks-IsFree b here unlinked x g
    | inr (h, l) ↦ in_block x (omega arith) (rw at l)
  ]

  take-IsAllocated : IsAllocated m left a i rank
  take-IsAllocated = record {
    buddy = cut.buddy;
    areas = cut.areas ∙ unlinked.areas;
    at_rank = cut.at_rank;
    block = cut.block;
    free = λ x. (take-IsFree x, take-IsFree_back x);
  }

-- What `page_alloc` does: the failed `ASSERT`, NULL for an empty area, the read behind the lists,
-- NULL where no block is large enough, or a block.
abbrev pub AllocReturns : Mem → ℕ → ℕ → Type 0
AllocReturns m rank paf =
    let a = bit_and paf paf_areamask in
    ((a ≡ 3) × (page_alloc m rank paf ≡ none))
    ⊎ ((a ≢ 3) × (area_size m.areas a ≡ 0) × (page_alloc m rank paf ≡ some (none, m)))
    ⊎ ((a ≢ 3)
        × (area_size m.areas a ≢ 0)
        × (buddy_ranknum < rank)
        × (page_alloc m rank paf ≡ none))
    ⊎ ((a ≢ 3)
        × (area_size m.areas a ≢ 0)
        × (rank ≤ buddy_ranknum)
        × ((r : ℕ) → rank ≤ r → r < buddy_ranknum → m.fpage_list a r ≡ [])
        × (page_alloc m rank paf ≡ some (none, m)))
    ⊎ ((a ≢ 3)
        × (area_size m.areas a ≢ 0)
        × (i : ℕ) × (m' : Mem) × (page_alloc m rank paf
            ≡ some (some (i * 4096, if bit_and paf paf_zero == 0 then 0 else 4096 * 2 ^ rank), m'))
        × IsAllocated m m' a i rank)

-- On a state in which the invariant `IsBuddy` holds, `page_alloc` fails its `ASSERT` for the area
-- number 3. For every other area: where the area is empty it returns NULL and changes nothing;
-- where it is not, it reads behind the lists for a rank above 15, which is a fault; for a rank up
-- to 15 it returns NULL and changes nothing, and then the area has no free block of the rank or a
-- higher one; or it returns the address of the first page of a block of the rank, which was free,
-- lies in the area, is aligned, and is taken from the free pages, and no other page is. The block
-- is cleared where the flag asks it.
pub page_alloc-IsAllocated : (m : Mem) (rank paf : ℕ) → IsBuddy m → AllocReturns m rank paf
unfolding page_alloc
page_alloc-IsAllocated m rank paf b =
    let a = bit_and paf paf_areamask in
    let size : 2 ^ (rank + 12) ≡ 4096 * 2 ^ rank = rw (pow-add rank 12) (omega arith) in
    let area : a < 4 = omega (arith, bit_and_mask 2 paf) in
    elim (ℕ_discrete a 3) [
      | yes e ↦ inl (e, rw (e, page_alloc) refl)
      | no n ↦
          let ok : ltb a mmarea_num ≡ true = ground arith in
          elim (ℕ_discrete (area_size m.areas a) 0) [
            | yes e ↦ inr (inl (n, e, rw (ok, e, page_alloc) refl))
            | no p ↦
                let used : (area_size m.areas a == 0) ≡ false = ground arith in
                elim (find_free_cases (m.fpage_list a) rank (buddy_ranknum - rank)) [
                  | inl (f, empty) ↦ elim (Bool-cases (leb rank buddy_ranknum)) [
                    | inl le ↦ inr (
                        inr (
                          inr (
                            inl (
                              n,
                              p,
                              leb→le rank buddy_ranknum le,
                              λ r low high. empty r low (omega arith),
                              rw (ok, used, f, le, page_alloc) refl,
                            ))))
                    | inr gt ↦ inr (
                        inr (
                          inl (
                            n,
                            p,
                            leb→lt rank buddy_ranknum gt,
                            rw (ok, used, f, gt, page_alloc) refl,
                          )))
                  ]
                  | inr (r, i, rest, f, first, low, high) ↦ inr (
                      inr (
                        inr (
                          inr (
                            n,
                            p,
                            i,
                            _,
                            rw (ok, used, f, size, page_alloc) refl,
                            take-IsAllocated m a rank r i rest b first low (omega arith),
                          ))))
                ]
          ]
    ]
