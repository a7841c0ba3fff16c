-- ===== src/Mm/Rank/Least.antt =====
-- `get_pagerank` of myLoader/mm/page.c finds the least rank that is large enough.
use native.Mathlib.Nat.{one-le-pow, pow-le-pow_right, two-pow-succ}
use porcelix.Prelude.{
  ℕ, suc, ◌+◌, ◌-◌, ◌*◌, ◌^◌, ◌≤◌, ◌<◌, ◌≡◌, inl, inr, arith, ltb, Bool-cases, ltb→lt, ◌∙◌, ap, sym,
}
use porcelix.Prelude.Bits.{pow-add}
use porcelix.Word.Log.{log2_lem}
use porcelix.Mm.Rank.{get_pagerank}

-- A block of this rank holds `size` bytes, and no block of a lower rank does.
pub record IsLeast (size rank : ℕ) : Type 0 where
  pub enough : size ≤ 2 ^ rank * 4096
  pub least : (r : ℕ) → r < rank → 2 ^ r * 4096 < size

pages : (i : ℕ) → 12 ≤ i → 2 ^ i ≡ 2 ^ (i - 12) * 4096
pages i h =
    let e : i - 12 + 12 ≡ i = omega arith in sym (ap (λ (t : ℕ). 2 ^ t) e) ∙ pow-add (i - 12) 12

below : (r i size : ℕ) → r < i → 2 ^ i * 4096 ≤ size → 2 ^ r * 4096 < size
below r i size h k =
    let grow : 2 ^ suc r ≤ 2 ^ i = pow-le-pow_right (omega arith) h in
    let double = two-pow-succ r in omega (arith, one-le-pow r 2)

at_most : (r i size : ℕ) → r ≤ i → 2 ^ i * 4096 < size → 2 ^ r * 4096 < size
at_most r i size h k = let grow : 2 ^ r ≤ 2 ^ i = pow-le-pow_right (omega arith) h in omega arith

-- For every nonzero 32-bit size, a block of the rank `get_pagerank` holds that many bytes, and no
-- block of a lower rank does.
pub get_pagerank-IsLeast : (size : ℕ) → 0 < size → size < 2 ^ 32 → IsLeast size (get_pagerank size)
unfolding get_pagerank
get_pagerank-IsLeast size some_size h =
    let (i, log, le, low, high) = log2_lem size some_size h in
    elim (Bool-cases (ltb i 12)) [
      | inl small ↦
          let part : 2 ^ suc i ≤ 2 ^ 12 = pow-le-pow_right (omega arith) (ltb→lt i 12 small) in
          rw (log, small, get_pagerank)
            (record { enough = omega arith; least = λ r k. absurd (omega arith) })
      | inr large ↦
          let whole = pages i (ground arith) in
          elim (Bool-cases (ltb (2 ^ i) size)) [
            | inl more ↦
                let next : 2 ^ (i - 12 + 1) ≡ 2 * 2 ^ (i - 12) =
                  let e : i - 12 + 1 ≡ suc (i - 12) = omega arith in
                  rw e (omega (arith, two-pow-succ (i - 12))) in
                rw (log, large, more, get_pagerank)
                  (record {
                    enough = omega (arith, two-pow-succ i);
                    least = λ r k.
                        at_most r (i - 12) size (omega arith)
                          (omega (arith, ltb→lt (2 ^ i) size more));
                  })
            | inr exact ↦
                rw (log, large, exact, get_pagerank)
                  (record {
                    enough = ground arith;
                    least = λ r k. below r (i - 12) size k (omega arith);
                  })
          ]
    ]
