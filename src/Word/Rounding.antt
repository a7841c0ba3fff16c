-- ===== src/Word/Rounding.antt =====
-- `get_upper_range` and `get_lower_range` of myLoader/include/public.h round to a power of two.
use native.Mathlib.Nat.{div-mul-le_self, lt-div-mul-add, one-le-pow}
use porcelix.Prelude.{ℕ, ◌+◌, ◌-◌, ◌*◌, ◌/◌, ◌%◌, ◌^◌, ◌≤◌, ◌<◌, ◌≡◌, arith}
use porcelix.Prelude.Bits.{bit_and_high_mask}
use porcelix.Word.{get_upper_range, get_lower_range}

low_range : (k val : ℕ) → k ≤ 31 → val < 2 ^ 32 → get_lower_range val (2 ^ k) ≡ val / 2 ^ k * 2 ^ k
unfolding get_lower_range
low_range k val h small =
    let e : 2 ^ 32 - 1 - (2 ^ k - 1) ≡ 2 ^ 32 - 2 ^ k = omega (arith, one-le-pow k 2) in
    rw e (bit_and_high_mask k val (omega arith) small)

-- `get_lower_range` rounds a 32-bit value down to the next multiple of a power of two.
pub get_lower_range_lem :
    (k val : ℕ)
    → k ≤ 31
    → val < 2 ^ 32
    → (q : ℕ) × (get_lower_range val (2 ^ k) ≡ q * 2 ^ k)
      × (q * 2 ^ k ≤ val)
      × (val < q * 2 ^ k + 2 ^ k)
get_lower_range_lem k val h small = (
  val / 2 ^ k,
  low_range k val h small,
  div-mul-le_self val (2 ^ k),
  lt-div-mul-add (one-le-pow k 2 (omega arith)),
)

-- `get_upper_range` rounds a value up to the next multiple of a power of two, if that multiple
-- is at most 2 ^ 32 - 1 (otherwise the sum wraps).
pub get_upper_range_lem :
    (k val : ℕ)
    → k ≤ 31
    → val + 2 ^ k ≤ 2 ^ 32
    → (q : ℕ) × (get_upper_range val (2 ^ k) ≡ q * 2 ^ k)
      × (val ≤ q * 2 ^ k)
      × (q * 2 ^ k < val + 2 ^ k)
unfolding get_upper_range
get_upper_range_lem k val h small =
    let one = one-le-pow k 2 (omega arith) in
    let e : (val + 2 ^ k + 2 ^ 32 - 1) % 2 ^ 32 ≡ val + 2 ^ k - 1 = omega arith in
    let q = (val + 2 ^ k - 1) / 2 ^ k in
    let below = div-mul-le_self (val + 2 ^ k - 1) (2 ^ k) in
    let above = lt-div-mul-add {a = val + 2 ^ k - 1} one in
    (
      q,
      rw e (unfold get_lower_range in low_range k (val + 2 ^ k - 1) h (omega arith)),
      omega arith,
      omega arith,
    )
