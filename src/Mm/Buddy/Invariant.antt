-- ===== src/Mm/Buddy/Invariant.antt =====
-- The invariant of the buddy allocator of myLoader/mm/page.c, and the pages that it holds free.
use native.Mathlib.Nat.{one-le-pow}
use porcelix.Prelude.{
  ℕ, suc, ◌+◌, ◌-◌, ◌%◌, ◌^◌, ◌≤◌, ◌<◌, ◌≡◌, refl, ◌≢◌, ◌⊎◌, Bool, true, false, ◌&&◌, Option, none,
  some, List, [], ◌∷◌, arith, ◌==◌, if◌then◌else◌, sym, ◌∙◌,
}
use porcelix.Mm.Buddy.{Mem, erase, get_pagearea, set_rank, buddy_ranknum}

abbrev pub rank_of : Mem → ℕ → ℕ
rank_of m i = (m.pages i).buddy_rank

abbrev pub is_linked : Mem → ℕ → Bool
is_linked m i = (m.pages i).linked

abbrev pub is_area : Option ℕ → ℕ → Bool
is_area none a = false
is_area (some b) a = b == a

unfoldable pub count : ℕ → List ℕ → ℕ
count i [] = 0
count i (j ∷ xs) = if j == i then suc (count i xs) else count i xs

-- Every page of the block of this rank at `i` lies in the area.
abbrev pub InArea : Mem → ℕ → ℕ → ℕ → Type 0
InArea m a i rank = (x : ℕ) → i ≤ x → x < i + 2 ^ rank → get_pagearea m.areas x ≡ some a

-- Two blocks, each given by its first page and its rank, have no page in common.
abbrev pub Apart : ℕ → ℕ → ℕ → ℕ → Type 0
Apart i r j s = (i + 2 ^ r ≤ j) ⊎ (j + 2 ^ s ≤ i)

-- The block of this rank at `i` is no free block, meets none, and could be one of area `a`.
pub record IsBlock (m : Mem) (a i rank : ℕ) : Type 0 where
  pub unlinked : is_linked m i ≡ false
  pub small : rank < buddy_ranknum
  pub aligned : i % 2 ^ rank ≡ 0
  pub whole : InArea m a i rank
  pub alone : (j : ℕ) → is_linked m j ≡ true → Apart i rank j (rank_of m j)

-- A page stands once in the list of its area and rank if it is linked, and in no other list.
-- The linked pages head aligned blocks that lie in one area each and have no page in common.
pub record IsBuddy (m : Mem) : Type 0 where
  pub listed :
      (a r i : ℕ)
      → count i (m.fpage_list a r)
        ≡ (if is_linked m i && rank_of m i == r && is_area (get_pagearea m.areas i) a then 1 else 0)
  pub small : (i : ℕ) → is_linked m i ≡ true → rank_of m i < buddy_ranknum
  pub aligned : (i : ℕ) → is_linked m i ≡ true → i % 2 ^ rank_of m i ≡ 0
  pub whole : (i : ℕ) → is_linked m i ≡ true → (a : ℕ) × InArea m a i (rank_of m i)
  pub apart :
      (i j : ℕ)
      → is_linked m i ≡ true
      → is_linked m j ≡ true
      → i ≢ j
      → Apart i (rank_of m i) j (rank_of m j)

-- The page `x` lies in a free block.
pub record IsFree (m : Mem) (x : ℕ) : Type 0 where
  pub head : ℕ
  pub free : is_linked m head ≡ true
  pub from : head ≤ x
  pub until : x < head + 2 ^ rank_of m head

pub count-erase :
    (i j : ℕ) (xs : List ℕ) → count i (erase j xs) ≡ (if i == j then count i xs - 1 else count i xs)
unfolding count erase
count-erase i j [] = ground arith
count-erase i j (k ∷ xs) = ground (arith, count-erase i j xs)

-- A page heads its own block.
pub self_in : (i rank : ℕ) → i < i + 2 ^ rank
self_in i rank = omega (arith, one-le-pow rank 2)

-- Two states with the same areas, lists and linked pages, whose linked pages have the same ranks.
pub record SameBlocks (m m' : Mem) : Type 0 where
  pub areas : m'.areas ≡ m.areas
  pub lists : (a r : ℕ) → m'.fpage_list a r ≡ m.fpage_list a r
  pub linked : (j : ℕ) → is_linked m' j ≡ is_linked m j
  pub ranks : (j : ℕ) → is_linked m j ≡ true → rank_of m' j ≡ rank_of m j

module _ {m m' : Mem} (s : SameBlocks m m') where
  linked_before : (j : ℕ) → is_linked m' j ≡ true → is_linked m j ≡ true
  linked_before j l = sym (s.linked j) ∙ l

  pub SameBlocks-IsBuddy : IsBuddy m → IsBuddy m'
  SameBlocks-IsBuddy b = record {
    listed =
        λ a r j. rw (s.lists a r, s.areas) (ground (arith, b.listed a r j, s.linked j, s.ranks j));
    small = λ j l. let k = linked_before j l in rw (s.ranks j k) (b.small j k);
    aligned = λ j l. let k = linked_before j l in rw (s.ranks j k) (b.aligned j k);
    whole = λ j l. let k = linked_before j l in rw (s.ranks j k, s.areas) (b.whole j k);
    apart = λ i j l o ne.
        let k = linked_before i l in
        let n = linked_before j o in rw (s.ranks i k, s.ranks j n) (b.apart i j k n ne);
  }

  pub SameBlocks-IsFree : (x : ℕ) → IsFree m x → IsFree m' x
  SameBlocks-IsFree x f = record {
    head = f.head;
    free = s.linked f.head ∙ f.free;
    from = f.from;
    until = rw (s.ranks f.head f.free) f.until;
  }

  pub SameBlocks-symm : SameBlocks m' m
  SameBlocks-symm = record {
    areas = sym s.areas;
    lists = λ a r. sym (s.lists a r);
    linked = λ j. sym (s.linked j);
    ranks = λ j l. sym (s.ranks j (linked_before j l));
  }

-- The rank of a page outside the lists may change.
pub set_rank-SameBlocks :
    (m : Mem) (i rank : ℕ) → is_linked m i ≡ false → SameBlocks m (set_rank m i rank)
unfolding set_rank
set_rank-SameBlocks m i rank out = record {
  areas = refl;
  lists = λ a r. refl;
  linked = λ j. ground arith;
  ranks = λ j l. ground arith;
}
