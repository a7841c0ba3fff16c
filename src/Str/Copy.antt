-- ===== src/Str/Copy.antt =====
-- What `memcpy` and `memset` of myLoader/core/func.c leave in memory.
use porcelix.Prelude.{
  ℕ, zero, suc, ◌+◌, ◌-◌, ◌≤◌, ◌<◌, ◌≡◌, refl, ◌⊎◌, ◌&&◌, Option, some, List, [], ◌∷◌, arith, ltb,
  leb, if◌then◌else◌, length, get_elem?, set, length-set, ap, ◌==◌, ◌∙◌,
}
use porcelix.Prelude.Mem.{store_in, get_elem?_in}
use porcelix.Str.{memcpy, memset}

pub get_elem?-set {ℓ} :
    {A : Type ℓ} (xs : List A) (i j : ℕ) (v : A)
    → i < length xs
    → get_elem? (set xs i v) j ≡ (if i == j then some v else get_elem? xs j)
get_elem?-set [] i j v h = elim h [ ]
get_elem?-set (x ∷ xs) zero zero v h = refl
get_elem?-set (x ∷ xs) zero (suc j) v h = ground arith
get_elem?-set (x ∷ xs) (suc i) zero v h = ground arith
get_elem?-set (x ∷ xs) (suc i) (suc j) v h = ground (arith, get_elem?-set xs i j v)

-- `m'` is `m` with the `len` bytes from `dst` on given by `f`, and nothing else changed.
pub record IsWindow (m m' : List ℕ) (dst len : ℕ) (f : ℕ → Option ℕ) : Type 0 where
  pub size : length m' ≡ length m
  pub reads :
      (j : ℕ)
      → get_elem? m' j ≡ (if leb dst j && ltb j (dst + len) then f (j - dst) else get_elem? m j)

-- `memset` succeeds when the window fits in the region: it makes every byte of the window `value`
-- and leaves every other byte as it was.
pub memset_lem :
    (m : List ℕ) (dst value len : ℕ)
    → dst + len ≤ length m
    → (m' : List ℕ) × (memset m dst value len ≡ some m') × IsWindow m m' dst len (λ k. some value)
unfolding memset
memset_lem m dst value zero h = (m, refl, record { size = refl; reads = λ j. ground arith })
memset_lem m dst value (suc len) h =
    let (m', run, w) =
      memset_lem (set m dst value) (dst + 1) value len (omega (arith, length-set m dst value)) in
    (
      m',
      rw (store_in m dst value (omega arith)) run,
      record {
        size = w.size ∙ length-set m dst value;
        reads = λ j. ground (arith, w.reads j, get_elem?-set m dst j value);
      },
    )

-- `memcpy` succeeds when both windows fit in the region. If the destination does not begin inside
-- the source window, it gets the bytes that the source had before the call; every byte outside
-- the destination is left as it was.
pub memcpy_lem :
    (m : List ℕ) (dst src len : ℕ)
    → dst + len ≤ length m
    → src + len ≤ length m
    → (dst ≤ src) ⊎ (src + len ≤ dst)
    → (m' : List ℕ) × (memcpy m dst src len ≡ some m')
      × IsWindow m m' dst len (λ k. get_elem? m (src + k))
unfolding memcpy
memcpy_lem m dst src zero h k apart = (m, refl, record { size = refl; reads = λ j. ground arith })
memcpy_lem m dst src (suc len) h k apart =
    let (v, read) = get_elem?_in m src (omega arith) in
    let same = length-set m dst v in
    let (m', run, w) =
      memcpy_lem (set m dst v) (dst + 1) (src + 1) len (omega arith) (omega arith) (omega arith) in
    (
      m',
      rw (read, store_in m dst v (omega arith)) run,
      record {
        size = w.size ∙ same;
        reads = λ j. ground (
          arith,
          w.reads j,
          get_elem?-set m dst j v,
          get_elem?-set m dst (src + 1 + (j - (dst + 1))) v,
          ap (get_elem? m) (shift j),
          ap (get_elem? m) (first j),
        );
      },
    )
  where
    shift : (j : ℕ) → src + 1 + (j - (dst + 1)) ≡ (if ltb dst j then src + (j - dst) else src + 1)
    shift j = ground arith

    first : (j : ℕ) → src + (j - dst) ≡ (if ltb dst j then src + (j - dst) else src)
    first j = ground arith
