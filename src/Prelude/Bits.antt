-- ===== src/Prelude/Bits.antt =====
-- `&` and `^` on words as arithmetic: masks of low bits, shifted operands, a single bit.
use Prim.Native.Nat.{digits, bitwise, bit_and-bitwise, bit_or-bitwise, bit_xor-bitwise, differ, max}
use native.Mathlib.Nat.{pow-suc, one-le-pow, div-lt_iff_lt-mul, mod-eq_of_lt}
use mathlib.Core.WellFounded
use porcelix.Prelude.{
  ℕ, zero, suc, ◌+◌, ◌-◌, ◌*◌, ◌/◌, ◌%◌, ◌^◌, ◌≤◌, ◌<◌, bit_and, bit_or, bit_xor, ◌∙◌, min, ◌≡◌,
  refl, arith, ap, ◌==◌, if◌then◌else◌,
}
use porcelix.Prelude.Order.{lt_wf}

module _ (rest : ℕ → ℕ) (op : ℕ → ℕ → ℕ) where
  -- Where the fuel covers the left operand, one unit more changes nothing.
  steady : (n x y : ℕ) → x ≤ n → digits rest op (suc n) x y ≡ digits rest op n x y
  steady zero zero y h = refl
  steady (suc n) zero y h = refl
  steady zero (suc x) y h = absurd (omega arith)
  steady (suc n) (suc x) y h =
      ap (λ (t : ℕ). t * 2 + op (suc x % 2) (y % 2)) (steady n (suc x / 2) (y / 2) (omega arith))

  settled : (k x y : ℕ) → digits rest op (k + x) x y ≡ bitwise rest op x y
  settled zero x y = let e : 0 + x ≡ x = omega arith in rw e refl
  settled (suc k) x y =
      let e : suc k + x ≡ suc (k + x) = omega arith in
      rw e (steady (k + x) x y (omega arith) ∙ settled k x y)

  lowest :
      (x y : ℕ)
      → bitwise rest op (suc x) y ≡ bitwise rest op (suc x / 2) (y / 2) * 2 + op (suc x % 2) (y % 2)
  lowest x y =
      let e : x - suc x / 2 + suc x / 2 ≡ x = omega arith in
      let half : digits rest op x (suc x / 2) (y / 2) ≡ bitwise rest op (suc x / 2) (y / 2) =
        rw e at (settled (x - suc x / 2) (suc x / 2) (y / 2)) in
      ap (λ (t : ℕ). t * 2 + op (suc x % 2) (y % 2)) half

bit_xor_step : (x y : ℕ) → bit_xor x y ≡ bit_xor (x / 2) (y / 2) * 2 + differ (x % 2) (y % 2)
bit_xor_step zero y = simp bit_xor-bitwise (omega arith)
bit_xor_step (suc x) y = simp bit_xor-bitwise (lowest (λ z. z) differ x y)

bit_and_step : (x y : ℕ) → bit_and x y ≡ bit_and (x / 2) (y / 2) * 2 + min (x % 2) (y % 2)
bit_and_step zero y = simp bit_and-bitwise (omega arith)
bit_and_step (suc x) y = simp bit_and-bitwise (lowest (λ z. 0) min x y)

bit_or_step : (x y : ℕ) → bit_or x y ≡ bit_or (x / 2) (y / 2) * 2 + max (x % 2) (y % 2)
bit_or_step zero y = simp bit_or-bitwise (omega arith)
bit_or_step (suc x) y = simp bit_or-bitwise (lowest (λ z. z) max x y)

bit_and-zero : (a : ℕ) → bit_and a 0 ≡ 0
bit_and-zero a = WellFounded.induction lt_wf {C = λ n. bit_and n 0 ≡ 0} a λ n ih. split n ih
  where
    split : (n : ℕ) → ((m : ℕ) → m < n → bit_and m 0 ≡ 0) → bit_and n 0 ≡ 0
    split zero ih = refl
    split (suc n) ih = omega (arith, bit_and_step (suc n) 0, ih (suc n / 2) (omega arith))

pub twice : (q k : ℕ) → q * 2 ^ suc k ≡ 2 * (q * 2 ^ k)
twice q k = omega (arith, ap (λ (t : ℕ). q * t) (pow-suc 2 k))

mask_fields : (k q r : ℕ) → r < 2 ^ k → bit_and (q * 2 ^ k + r) (2 ^ k - 1) ≡ r
mask_fields zero q r h = rw bit_and-zero (omega arith)
mask_fields (suc k) q r h = ground (
  arith,
  bit_and_step (q * 2 ^ suc k + r) (2 ^ suc k - 1),
  twice q k,
  pow-suc 2 k,
  mask_fields k q (r / 2) (omega (arith, pow-suc 2 k)),
)

-- `a & (2^k - 1)`
pub bit_and_mask : (k a : ℕ) → bit_and a (2 ^ k - 1) ≡ a % 2 ^ k
bit_and_mask k a = ground (arith, one-le-pow k 2, mask_fields k (a / 2 ^ k) (a % 2 ^ k))

shift_fields : (k q r m : ℕ) → r < 2 ^ k → bit_and (q * 2 ^ k + r) (m * 2 ^ k) ≡ bit_and q m * 2 ^ k
shift_fields zero q r m h =
    let e : q * 2 ^ 0 + r ≡ q = omega arith in
    let f : m * 2 ^ 0 ≡ m = omega arith in rw (e, f) (omega arith)
shift_fields (suc k) q r m h = ground (
  arith,
  bit_and_step (q * 2 ^ suc k + r) (m * 2 ^ suc k),
  twice q k,
  twice m k,
  twice (bit_and q m) k,
  pow-suc 2 k,
  shift_fields k q (r / 2) m (omega (arith, pow-suc 2 k)),
)

-- A mask that is shifted left drops the low bits.
pub bit_and_shift : (k a m : ℕ) → bit_and a (m * 2 ^ k) ≡ bit_and (a / 2 ^ k) m * 2 ^ k
bit_and_shift k a m = ground (arith, one-le-pow k 2, shift_fields k (a / 2 ^ k) (a % 2 ^ k) m)

-- `|` of a field and one shifted above it is their sum.
pub bit_or_fields : (k q r : ℕ) → r < 2 ^ k → bit_or r (q * 2 ^ k) ≡ r + q * 2 ^ k
bit_or_fields zero q zero h =
    let e : q * 2 ^ 0 ≡ q = omega arith in rw e (bit_or-bitwise 0 q ∙ omega arith)
bit_or_fields zero q (suc r) h = absurd (omega arith)
bit_or_fields (suc k) q r h = ground (
  arith,
  bit_or_step r (q * 2 ^ suc k),
  twice q k,
  pow-suc 2 k,
  bit_or_fields k q (r / 2) (omega (arith, pow-suc 2 k)),
)

bit_or-zero : (n q : ℕ) → q ≤ n → bit_or q 0 ≡ q
bit_or-zero n zero h = simp bit_or-bitwise refl
bit_or-zero zero (suc q) h = absurd (omega arith)
bit_or-zero (suc n) (suc q) h =
    bit_or_step (suc q) 0 ∙ ground (arith, bit_or-zero n (suc q / 2) (omega arith))

pub bit_or_fields_left : (k q r : ℕ) → r < 2 ^ k → bit_or (q * 2 ^ k) r ≡ r + q * 2 ^ k
bit_or_fields_left zero q zero h =
    let e : q * 2 ^ 0 ≡ q = omega arith in rw e (bit_or-zero q q (omega arith) ∙ omega arith)
bit_or_fields_left zero q (suc r) h = absurd (omega arith)
bit_or_fields_left (suc k) q r h = ground (
  arith,
  bit_or_step (q * 2 ^ suc k) r,
  twice q k,
  pow-suc 2 k,
  bit_or_fields_left k q (r / 2) (omega (arith, pow-suc 2 k)),
)

-- `^` of two operands that are both shifted left.
pub bit_xor_shift : (k a b : ℕ) → bit_xor (a * 2 ^ k) (b * 2 ^ k) ≡ bit_xor a b * 2 ^ k
bit_xor_shift zero a b =
    let e : a * 2 ^ 0 ≡ a = omega arith in
    let f : b * 2 ^ 0 ≡ b = omega arith in rw (e, f) (omega arith)
bit_xor_shift (suc k) a b = ground (
  arith,
  bit_xor_step (a * 2 ^ suc k) (b * 2 ^ suc k),
  twice a k,
  twice b k,
  twice (bit_xor a b) k,
  bit_xor_shift k a b,
)

differ-bit : (x : ℕ) → x < 2 → (differ x 0 ≡ x) × (differ x 1 ≡ 1 - x)
differ-bit zero h = (refl, refl)
differ-bit (suc zero) h = (refl, refl)
differ-bit (suc (suc x)) h = absurd (omega arith)

bit_xor-zero : (a : ℕ) → bit_xor a 0 ≡ a
bit_xor-zero a = WellFounded.induction lt_wf {C = λ n. bit_xor n 0 ≡ n} a λ n ih. split n ih
  where
    split : (n : ℕ) → ((m : ℕ) → m < n → bit_xor m 0 ≡ m) → bit_xor n 0 ≡ n
    split zero ih = refl
    split (suc n) ih = ground (
      arith,
      bit_xor_step (suc n) 0,
      differ-bit (suc n % 2) (omega arith),
      ih (suc n / 2) (omega arith),
    )

-- `^ 1` steps to the other number of an even-odd pair.
pub bit_xor-one : (a : ℕ) → bit_xor a 1 ≡ (if a % 2 == 0 then a + 1 else a - 1)
bit_xor-one a =
    ground (arith, bit_xor_step a 1, differ-bit (a % 2) (omega arith), bit_xor-zero (a / 2))

differ_lt : (x y : ℕ) → x < 2 → y < 2 → differ x y < 2
differ_lt x zero h k = omega (arith, differ-bit x h)
differ_lt x (suc zero) h k = omega (arith, differ-bit x h)
differ_lt x (suc (suc y)) h k = absurd (omega arith)

pub bit_xor_lt : (k a b : ℕ) → a < 2 ^ k → b < 2 ^ k → bit_xor a b < 2 ^ k
bit_xor_lt zero a b h j =
    let ea : a ≡ 0 = omega arith in let eb : b ≡ 0 = omega arith in rw (ea, eb) (omega arith)
bit_xor_lt (suc k) a b h j =
    let low = differ_lt (a % 2) (b % 2) (omega arith) (omega arith) in
    omega (
      arith,
      bit_xor_step a b,
      low,
      pow-suc 2 k,
      bit_xor_lt k (a / 2) (b / 2) (omega (arith, pow-suc 2 k)) (omega (arith, pow-suc 2 k)),
    )

pub pow-add : (a b : ℕ) → 2 ^ (a + b) ≡ 2 ^ a * 2 ^ b
pow-add a zero = let e : a + 0 ≡ a = omega arith in rw e (omega arith)
pow-add a (suc b) =
    let e : a + suc b ≡ suc (a + b) = omega arith in
    rw e (omega (arith, pow-suc 2 (a + b), pow-add a b, ap (λ (t : ℕ). 2 ^ a * t) (pow-suc 2 b)))

pred_mul : (m q : ℕ) → 1 ≤ m → (m - 1) * q + q ≡ m * q
pred_mul zero q h = absurd (omega arith)
pred_mul (suc m) q h = let e : suc m - 1 ≡ m = omega arith in rw e (omega arith)

-- The mask of all 32 bits but the low `k`.
pub high_mask : (k : ℕ) → k ≤ 32 → 2 ^ 32 - 2 ^ k ≡ (2 ^ (32 - k) - 1) * 2 ^ k
high_mask k h =
    let e : 32 - k + k ≡ 32 = omega arith in
    let p : 2 ^ 32 ≡ 2 ^ (32 - k) * 2 ^ k = rw (← pow-add (32 - k) k, e) refl in
    let one : 1 ≤ 2 ^ (32 - k) = one-le-pow (32 - k) 2 (omega arith) in
    omega (arith, pred_mul (2 ^ (32 - k)) (2 ^ k) one)

-- `a & ~(2^k - 1)` on 32 bits
pub bit_and_high_mask :
    (k a : ℕ) → k ≤ 32 → a < 2 ^ 32 → bit_and a (2 ^ 32 - 2 ^ k) ≡ a / 2 ^ k * 2 ^ k
bit_and_high_mask k a h small =
    let e : 32 - k + k ≡ 32 = omega arith in
    let p : 2 ^ 32 ≡ 2 ^ (32 - k) * 2 ^ k = rw (← pow-add (32 - k) k, e) refl in
    let fits : a / 2 ^ k < 2 ^ (32 - k) =
      (div-lt_iff_lt-mul (one-le-pow k 2 (omega arith))).1 (omega arith) in
    rw (
      high_mask k h,
      bit_and_shift k a (2 ^ (32 - k) - 1),
      bit_and_mask (32 - k) (a / 2 ^ k),
      mod-eq_of_lt fits,
    )
