-- ===== src/Avl.antt =====
-- The AVL trees of myLoader/lib/avl/avl.c. A node holds the structure that it is embedded in, its
-- stored height `subth` and its children; `nil` is a null pointer. The father pointers above a node
-- are the path of crumbs to the root, nearest first. `cmpf` is the comparison with the key that the
-- caller passes on. Heights stay far below 2 ^ 31, so that the balance `avl_inbf`, a difference that
-- is read as an `int`, is compared by comparing the heights.
pub mod Rotate
pub mod Balance
pub mod Insert
pub mod Lookup
pub mod Remove
pub mod Walk
use porcelix.Prelude.{
  ℕ, zero, suc, ◌+◌, Bool, true, false, not, ◌&&◌, ◌||◌, Option, none, some, List, [], ◌∷◌, ◌++◌,
  ltb, ◌==◌, if◌then◌else◌,
}
use porcelix.Prelude.Int.{ℤ, pos, negsuc}
use porcelix.Prelude.Mem.{◌>>=◌}

-- `avlcr_e`
pub data AvlCmp : Type 0 where
  avlcmp_1lt2 avlcmp_1eq2 avlcmp_1bt2 avlcmp_1in2 avlcmp_2in1 avlcmp_ovlp : AvlCmp

-- `avlwt_t`
pub data AvlWt : Type 0 where
  avlwt_lmr avlwt_lrm avlwt_mlr avlwt_mrl avlwt_rlm avlwt_rml : AvlWt

module _ (A : Type 0) where
  -- `avln_t`: the stored height, the left child, what the node is embedded in, the right child.
  pub data Avln : Type 0 where
    nil : Avln
    node : ℕ → Avln → A → Avln → Avln

  -- A father: the node below is its left or its right child.
  pub data Father : Type 0 where
    from_left : ℕ → A → Avln → Father
    from_right : ℕ → Avln → A → Father

module _ {A : Type 0} where
  abbrev pub subth : Avln A → ℕ
  subth nil = 0
  subth (node h l a r) = h

  abbrev pub attach : Father A → Avln A → Avln A
  attach (from_left h a r) t = node h t a r
  attach (from_right h l a) t = node h l a t

  -- `avl_inbf(node) < -k` and `avl_inbf(node) > k`
  abbrev pub right_heavy : ℕ → Avln A → Bool
  right_heavy k nil = false
  right_heavy k (node h l a r) = ltb (subth l + k) (subth r)

  abbrev pub left_heavy : ℕ → Avln A → Bool
  left_heavy k nil = false
  left_heavy k (node h l a r) = ltb (subth r + k) (subth l)

  -- The node after `avl_rfh`.
  unfoldable pub avl_rfh : Avln A → Avln A
  avl_rfh nil = nil
  avl_rfh (node h l a r) = node (if ltb (subth r) (subth l) then subth l + 1 else subth r + 1) l a r

  -- What `avl_rfh` returns: the node is out of balance or its height has changed.
  unfoldable pub rfh_changed : Avln A → Bool
  unfolding avl_rfh
  rfh_changed t = right_heavy 1 t || left_heavy 1 t || not (subth (avl_rfh t) == subth t)

  -- The two rotations, for a node that has the child that comes up.
  unfoldable pub avl_lr : Avln A → Avln A
  unfolding avl_rfh
  avl_lr (node h l a (node h' l' a' r')) = avl_rfh (node h' (avl_rfh (node h l a l')) a' r')
  avl_lr t = t

  unfoldable pub avl_rr : Avln A → Avln A
  unfolding avl_rfh
  avl_rr (node h (node h' l' a' r') a r) = avl_rfh (node h' l' a' (avl_rfh (node h r' a r)))
  avl_rr t = t

  abbrev pub fix_right : Avln A → Avln A
  fix_right nil = nil
  fix_right (node h l a r) = node h l a (if left_heavy 0 r then avl_rr r else r)

  abbrev pub fix_left : Avln A → Avln A
  fix_left nil = nil
  fix_left (node h l a r) = node h (if right_heavy 0 l then avl_lr l else l) a r

  -- The rotations of one round of `avl_ab`.
  unfoldable pub rotate : Avln A → Avln A
  rotate t =
      if right_heavy 1 t
      then avl_lr (fix_right t)
      else (if left_heavy 1 t then avl_rr (fix_left t) else t)

  -- The whole tree again.
  unfoldable pub zip : Avln A → List (Father A) → Avln A
  zip t [] = t
  zip t (f ∷ path) = zip (attach f t) path

  -- `avl_ab(root, cn)` on the node `cn` with the fathers `path`: the tree at the root afterwards.
  unfoldable pub avl_ab : Avln A → List (Father A) → Avln A
  avl_ab t [] = if rfh_changed t then rotate (avl_rfh t) else avl_rfh t
  avl_ab t (f ∷ path) =
      let rest = avl_ab (attach f (rotate (avl_rfh t))) path in
      if rfh_changed t then rest else zip (avl_rfh t) (f ∷ path)

  -- `avl_ab(root, f)` for the father `f` of a place where the tree `t` now stands.
  abbrev pub rebalance : Avln A → List (Father A) → Avln A
  rebalance t [] = t
  rebalance t (f ∷ path) = avl_ab (attach f t) path

  module _ (cmpf : A → AvlCmp) where
    -- The first loop of `avl_insert`: the fathers of the empty place, or `none` for a return of -1.
    unfoldable pub find_place : Avln A → List (Father A) → Option (List (Father A))
    find_place nil path = some path
    find_place (node h l a r) path = elim (cmpf a) [
      | avlcmp_1lt2 ↦ find_place r (from_right h l a ∷ path)
      | avlcmp_1bt2 ↦ find_place l (from_left h a r ∷ path)
      | avlcmp_1eq2 ↦ none
      | avlcmp_1in2 ↦ none
      | avlcmp_2in1 ↦ none
      | avlcmp_ovlp ↦ none
    ]

    -- The return value and the tree afterwards.
    unfoldable pub avl_insert : Avln A → A → ℤ × Avln A
    avl_insert root new = elim (find_place root []) [
      | none ↦ (negsuc 0, root)
      | some path ↦ (pos 0, rebalance (node 1 nil new nil) path)
    ]

    unfoldable pub avl_lkup : Avln A → Option A
    avl_lkup nil = none
    avl_lkup (node h l a r) = elim (cmpf a) [
      | avlcmp_1lt2 ↦ avl_lkup r
      | avlcmp_1bt2 ↦ avl_lkup l
      | avlcmp_1eq2 ↦ some a
      | avlcmp_1in2 ↦ none
      | avlcmp_2in1 ↦ some a
      | avlcmp_ovlp ↦ none
    ]

  -- The most right node of `node h l a r` on the way from the fathers `path`: what it holds, its left
  -- child, and its fathers. And the most left one.
  pub most_right : ℕ → Avln A → A → Avln A → List (Father A) → A × Avln A × List (Father A)
  most_right h l a nil path = (a, l, path)
  most_right h l a (node h' l' a' r') path = most_right h' l' a' r' (from_right h l a ∷ path)

  pub most_left : ℕ → Avln A → A → Avln A → List (Father A) → A × Avln A × List (Father A)
  most_left h nil a r path = (a, r, path)
  most_left h (node h' l' a' r') a r path = most_left h' l' a' r' (from_left h a r ∷ path)

  -- `avl_remove(root, rmnode)`, of the node `rmnode` with the fathers `path`.
  unfoldable pub avl_remove : Avln A → List (Father A) → Avln A
  unfolding most_right most_left
  avl_remove nil path = zip nil path
  avl_remove (node h nil a r) path = rebalance r path
  avl_remove (node h (node hl ll al rl) a nil) path = rebalance (node hl ll al rl) path
  avl_remove (node h (node hl ll al rl) a (node hr lr ar rr)) path =
      if ltb hr hl
      then (let (rmpos, nc, fathers) = most_right hl ll al rl [] in
          rebalance nc (fathers ++ from_left h rmpos (node hr lr ar rr) ∷ path))
      else (let (rmpos, nc, fathers) = most_left hr lr ar rr [] in
          rebalance nc (fathers ++ from_right h (node hl ll al rl) rmpos ∷ path))

  module _ {S : Type 0} (op : A → S → ℤ × S) where
    -- `if (f(...) == -1) return -1;` before `g`
    abbrev pub unless_stopped : ℤ × S → (S → ℤ × S) → ℤ × S
    unless_stopped (negsuc zero, s) g = (negsuc 0, s)
    unless_stopped (negsuc (suc n), s) g = g s
    unless_stopped (pos n, s) g = g s

    abbrev pub in_turn : (S → ℤ × S) → (S → ℤ × S) → (S → ℤ × S) → S → ℤ × S
    in_turn f g k s =
        unless_stopped (f s)
          λ s1. unless_stopped (g s1) λ s2. unless_stopped (k s2) λ s3. (pos 0, s3)

    -- `avl_walk`, with the state `p` that `op` works on.
    unfoldable pub avl_walk : Avln A → AvlWt → S → ℤ × S
    avl_walk nil wt p = (pos 0, p)
    avl_walk (node h l a r) wt p =
        let left = avl_walk l wt in
        let right = avl_walk r wt in
        if h == 1 then op a p else elim wt [
          | avlwt_lmr ↦ in_turn left (op a) right p
          | avlwt_lrm ↦ in_turn left right (op a) p
          | avlwt_mlr ↦ in_turn (op a) left right p
          | avlwt_mrl ↦ in_turn (op a) right left p
          | avlwt_rlm ↦ in_turn right left (op a) p
          | avlwt_rml ↦ in_turn right (op a) left p
        ]
