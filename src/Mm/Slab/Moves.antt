-- ===== src/Mm/Slab/Moves.antt =====
-- A slab of a cache goes from one list to another, and in or out of the tree (myLoader/mm/slab.c).
use porcelix.Prelude.{ℕ, suc, ◌-◌, ◌≡◌, ◌≢◌, List, ◌∷◌, arith, ap, ◌∙◌}
use porcelix.Avl.Rotate.{elements}
use porcelix.Mm.Buddy.{erase}
use porcelix.Mm.Buddy.Invariant.{count, count-erase}
use porcelix.Mm.Slab.{Slab}
use porcelix.Mm.Slab.Cache.{Cache, put_slab, to_afh, to_hfh, to_nfh}
use porcelix.Mm.Slab.Tree.{IsTree}
use porcelix.Mm.Slab.Invariant.{rg_of, IsSlab, SamePlace, IsChanged}

pub erase_other : (a b : ℕ) (xs : List ℕ) → b ≢ a → count b (erase a xs) ≡ count b xs
erase_other a b xs ne = ground (arith, count-erase b a xs)

pub erase_self : (a : ℕ) (xs : List ℕ) → count a (erase a xs) ≡ count a xs - 1
erase_self a xs = ground (arith, count-erase a a xs)

pub cons_other : (a b : ℕ) (xs : List ℕ) → b ≢ a → count b (a ∷ xs) ≡ count b xs
unfolding count
cons_other a b xs ne = ground arith

pub cons_self : (a : ℕ) (xs : List ℕ) → count a (a ∷ xs) ≡ suc (count a xs)
unfolding count
cons_self a xs = ground arith

-- A move of the slab `a` leaves the other slabs where they are.
module _ (c : Cache) (a b : ℕ) (ne : b ≢ a) where
  stays : (xs : List ℕ) → count b (erase a xs) ≡ count b xs
  stays xs = erase_other a b xs ne

  stays_behind : (xs : List ℕ) → count b (a ∷ erase a xs) ≡ count b xs
  stays_behind xs = cons_other a b (erase a xs) ne ∙ stays xs

  pub to_afh-SamePlace : SamePlace c (to_afh c a) b
  to_afh-SamePlace = (stays_behind c.afh, stays c.hfh, stays c.nfh)

  pub to_hfh-SamePlace : SamePlace c (to_hfh c a) b
  to_hfh-SamePlace = (stays c.afh, stays_behind c.hfh, stays c.nfh)

  pub to_nfh-SamePlace : SamePlace c (to_nfh c a) b
  to_nfh-SamePlace = (stays c.afh, stays c.hfh, stays_behind c.nfh)

-- The place of a slab: how often it stands in the three lists.
abbrev pub StandsIn : Cache → ℕ → ℕ → ℕ → ℕ → Type 0
StandsIn c a x y z = (count a c.afh ≡ x) × (count a c.hfh ≡ y) × (count a c.nfh ≡ z)

-- One step on from a change of the slab `a`.
pub IsChanged-next :
    (c e d : Cache) (a : ℕ)
    → IsChanged c e a
    → d.sizes ≡ e.sizes
    → d.slabs ≡ e.slabs
    → ((b : ℕ) → b ≢ a → SamePlace e d b)
    → IsTree (rg_of c) d.slbtroot
    → ((b : ℕ) → b ≢ a → count b (elements d.slbtroot) ≡ count b (elements e.slbtroot))
    → IsChanged c d a
IsChanged-next c e d a ch sizes slabs same tree nodes = record {
  sizes = sizes ∙ ch.sizes;
  others = λ b ne.
      let (x, y, z) = same b ne in let (x', y', z') = ch.others b ne in (x ∙ x', y ∙ y', z ∙ z');
  untouched = λ b ne. ap (λ (f : ℕ → Slab). f b) slabs ∙ ch.untouched b ne;
  range = ap (λ (f : ℕ → Slab). (f a).rg) slabs ∙ ch.range;
  slab = rw slabs ch.slab;
  tree = tree;
  other_nodes = λ b ne. nodes b ne ∙ ch.other_nodes b ne;
}

-- The slab is in the list of the half free ones and in the tree.
pub record IsHalf (c e : Cache) (a : ℕ) : Type 0 where
  pub changed : IsChanged c e a
  pub place : StandsIn e a 0 1 0
  pub node : count a (elements e.slbtroot) ≡ 1

pub put_slab_other : (d : Cache) (a b : ℕ) (s : Slab) → b ≢ a → (put_slab d a s).slabs b ≡ d.slabs b
put_slab_other d a b s ne = ground arith

pub put_slab_self : (d : Cache) (a : ℕ) (s : Slab) → (put_slab d a s).slabs a ≡ s
put_slab_self d a s = ground arith

-- A slab is replaced by one with the same range.
pub put_slab-IsChanged :
    (c d : Cache) (a : ℕ) (s : Slab)
    → d.sizes ≡ c.sizes
    → d.slabs ≡ c.slabs
    → ((b : ℕ) → b ≢ a → SamePlace c d b)
    → IsSlab c.sizes a s
    → s.rg ≡ rg_of c a
    → IsTree (rg_of c) d.slbtroot
    → ((b : ℕ) → b ≢ a → count b (elements d.slbtroot) ≡ count b (elements c.slbtroot))
    → IsChanged c (put_slab d a s) a
put_slab-IsChanged c d a s sizes slabs same whole range tree nodes = record {
  sizes = sizes;
  others = same;
  untouched = λ b ne. put_slab_other d a b s ne ∙ ap (λ (f : ℕ → Slab). f b) slabs;
  range = ap (λ (t : Slab). t.rg) (put_slab_self d a s) ∙ range;
  slab = rw (put_slab_self d a s) whole;
  tree = tree;
  other_nodes = nodes;
}
