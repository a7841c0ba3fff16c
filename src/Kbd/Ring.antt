-- ===== src/Kbd/Ring.antt =====
-- The characters that the ring buffer of myLoader/io/kbd.c holds, oldest first.
use porcelix.Prelude.{
  ℕ, zero, suc, ◌+◌, ◌-◌, ◌%◌, ◌≤◌, ◌<◌, ◌≡◌, refl, List, [], ◌∷◌, ◌++◌, arith, length, set, ap,
  ◌∙◌, ◌==◌, if◌then◌else◌,
}
use porcelix.Str.Copy.{get_elem?-set}
use porcelix.Kbd.{map_at}

-- The `k` characters from `pos` on, in the ring of 256 places.
unfoldable pub items : List ℕ → ℕ → ℕ → List ℕ
items buff zero pos = []
items buff (suc k) pos = map_at buff pos ∷ items buff k ((pos + 1) % 256)

-- How many places `to` lies behind `from`.
abbrev pub distance : ℕ → ℕ → ℕ
distance from to = (to + 256 - from) % 256

pub items-snoc :
    (buff : List ℕ) (k pos : ℕ)
    → pos < 256
    → items buff (suc k) pos ≡ items buff k pos ++ map_at buff ((pos + k) % 256) ∷ []
unfolding items
items-snoc buff zero pos h =
    let e : pos ≡ (pos + 0) % 256 = omega arith in ap (λ (t : ℕ). map_at buff t ∷ []) e
items-snoc buff (suc k) pos h =
    let e : ((pos + 1) % 256 + k) % 256 ≡ (pos + suc k) % 256 = omega arith in
    ap (λ (t : List ℕ). map_at buff pos ∷ t)
      (items-snoc buff k ((pos + 1) % 256) (omega arith)
        ∙ ap (λ (t : ℕ). items buff k ((pos + 1) % 256) ++ map_at buff t ∷ []) e)

pub map_at-set :
    (buff : List ℕ) (i j v : ℕ)
    → i < length buff
    → map_at (set buff i v) j ≡ (if i == j then v else map_at buff j)
map_at-set buff i j v h = ground (arith, get_elem?-set buff i j v)

-- A write in front of the characters leaves them as they are.
pub items-set :
    (buff : List ℕ) (k pos w v : ℕ)
    → length buff ≡ 256
    → pos < 256
    → w < 256
    → k ≤ distance pos w
    → items (set buff w v) k pos ≡ items buff k pos
unfolding items
items-set buff zero pos w v n p h d = refl
items-set buff (suc k) pos w v n p h d =
    let here : map_at (set buff w v) pos ≡ map_at buff pos =
      ground (arith, map_at-set buff w pos v) in
    let rest = items-set buff k ((pos + 1) % 256) w v n (omega arith) h (omega arith) in cc
