-- ===== src/Prelude/Mem.antt =====
-- Byte memory as a list indexed by offset, with faults as `none`, and the chain of fallible steps.
use porcelix.Prelude.{
  ℕ, zero, suc, ◌<◌, ◌≡◌, refl, Bool, true, false, Option, none, some, List, [], ◌∷◌, ◌++◌, arith,
  ltb, if◌then◌else◌, length, get_elem?, set,
}

infixl 5 ◌>>=◌ ◌>>◌
abbrev pub ◌>>=◌ {ℓ κ} : {A : Type ℓ} {B : Type κ} → Option A → (A → Option B) → Option B
none >>= f = none
some a >>= f = f a

abbrev pub ◌>>◌ {ℓ κ} : {A : Type ℓ} {B : Type κ} → Option A → Option B → Option B
m >> k = m >>= λ _. k

-- `ASSERT(cond)`: the machine dies where the condition fails.
abbrev pub assert : Bool → Option (Unit {0})
assert true = some tt
assert false = none

module _ {ℓ} {A : Type ℓ} where
  -- `*(base + i) = v`, a fault past the end of the region
  unfoldable pub store : List A → ℕ → A → Option (List A)
  store m i v = if ltb i (length m) then some (set m i v) else none

  pub store_in : (m : List A) (i : ℕ) (v : A) → i < length m → store m i v ≡ some (set m i v)
  unfolding store
  store_in m i v h = ground arith

  -- A predicate that every element of a list satisfies.
  abbrev pub All {κ} : (A → Type κ) → List A → Type κ
  All P [] = Unit
  All P (x ∷ xs) = P x × All P xs

  pub get_elem?_in : (m : List A) (i : ℕ) → i < length m → (v : A) × (get_elem? m i ≡ some v)
  get_elem?_in [] i h = elim h [ ]
  get_elem?_in (x ∷ m) zero h = (x, refl)
  get_elem?_in (x ∷ m) (suc i) h = get_elem?_in m i (omega arith)

  pub All-append {κ} : (P : A → Type κ) (xs ys : List A) → All P xs → All P ys → All P (xs ++ ys)
  All-append P [] ys h k = k
  All-append P (x ∷ xs) ys h k = (h.0, All-append P xs ys h.1 k)

  pub All-parts {κ} : (P : A → Type κ) (xs ys : List A) → All P (xs ++ ys) → All P xs × All P ys
  All-parts P [] ys h = (tt, h)
  All-parts P (x ∷ xs) ys h = let (front, back) = All-parts P xs ys h.1 in ((h.0, front), back)
