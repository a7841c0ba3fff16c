-- ===== src/Mm/Buddy/Rounds.antt =====
-- All rounds of the split loop of `page_alloc` (myLoader/mm/page.c).
use native.Mathlib.Nat.{pow-le-pow_right, two-pow-succ}
use porcelix.Prelude.{
  dec_lt, ℕ, zero, suc, ◌+◌, ◌-◌, ◌^◌, ◌≤◌, ◌≡◌, refl, inl, inr, false, arith, ltb, ltb→lt, ap, ◌∙◌,
  Bool-cases,
}
use porcelix.Mm.Buddy.{Mem, split}
use porcelix.Mm.Buddy.Invariant.{rank_of, IsBlock, IsBuddy}
use porcelix.Mm.Buddy.Pairs.{buddy_of_upper}
use porcelix.Mm.Buddy.Split.{IsSplit, halve-IsSplit}

IsSplit-refl :
    (m : Mem) (a i rank full : ℕ)
    → IsBuddy m
    → IsBlock m a i full
    → rank_of m i ≡ full
    → full ≡ rank
    → IsSplit m m a i rank full
IsSplit-refl m a i rank full b k e f = record {
  buddy = b;
  areas = refl;
  at_rank = e ∙ f;
  block = rw f at k;
  kept = λ x g. g;
  given_back = λ x h l. absurd (omega (arith, ap (λ (t : ℕ). 2 ^ t) f));
  cases = λ x g. inl g;
}

IsSplit-trans :
    {m m' m'' : Mem} {a i rank r : ℕ}
    → rank ≤ r
    → IsSplit m m' a i r (suc r)
    → IsSplit m' m'' a i rank r
    → IsSplit m m'' a i rank (suc r)
IsSplit-trans {i} {rank} {r} le s t =
    let grow : 2 ^ rank ≤ 2 ^ r = pow-le-pow_right (omega arith) le in
    let double = two-pow-succ r in
    record {
      buddy = t.buddy;
      areas = t.areas ∙ s.areas;
      at_rank = t.at_rank;
      block = t.block;
      kept = λ x f. t.kept x (s.kept x f);
      given_back = λ x h l. elim (dec_lt x (i + 2 ^ r)) [
        | yes p ↦ t.given_back x h p
        | no n ↦ t.kept x (s.given_back x (omega arith) l)
      ];
      cases = λ x f. elim (t.cases x f) [
        | inl g ↦ elim (s.cases x g) [
          | inl before ↦ inl before
          | inr h ↦ inr (omega arith, omega arith)
        ]
        | inr h ↦ inr (h.0, omega arith)
      ];
    }

-- The split loop ends with a block of the rank that is asked for, if it has rounds enough.
pub split-IsSplit :
    (k : ℕ) (m : Mem) (a i rank full : ℕ)
    → IsBuddy m
    → IsBlock m a i full
    → rank_of m i ≡ full
    → rank ≤ full
    → full ≤ rank + k
    → IsSplit m (split k m i a rank) a i rank full
unfolding split
split-IsSplit zero m a i rank full b block e low high =
    IsSplit-refl m a i rank full b block e (omega arith)
split-IsSplit (suc k) m a i rank zero b block e low high =
    let done : ltb rank (rank_of m i) ≡ false = ground arith in
    rw (done, split) (IsSplit-refl m a i rank 0 b block e (omega arith))
split-IsSplit (suc k) m a i rank (suc r) b block e low high =
    elim (Bool-cases (ltb rank (rank_of m i))) [
      | inr done ↦ rw (done, split) (IsSplit-refl m a i rank (suc r) b block e (ground arith))
      | inl more ↦
          let lower : rank_of m i - 1 ≡ r = omega arith in
          let s = halve-IsSplit m a i r b block in
          let le : rank ≤ r = omega (arith, ltb→lt rank (rank_of m i) more) in
          rw (more, lower, (buddy_of_upper i r block.aligned).0, split)
            (IsSplit-trans le s
              (split-IsSplit k _ a i rank r s.buddy s.block s.at_rank le (omega arith)))
    ]
