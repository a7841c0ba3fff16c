-- ===== src/Mm/Buddy/Online.antt =====
-- What `sysram_online` of myLoader/mm/page.c leaves.
use porcelix.Prelude.{
  bit_and, ℕ, zero, suc, ◌+◌, ◌*◌, ◌/◌, ◌%◌, ◌^◌, ◌≤◌, ◌<◌, ◌≡◌, refl, ◌⊎◌, inl, inr, ◌↔◌, true,
  false, some, arith, ltb, ap, ◌∙◌, ℕ_discrete, Bool-cases, dec_lt,
}
use porcelix.Prelude.Bits.{bit_and_mask}
use porcelix.Mm.Buddy.{Mem, update, get_pagearea, page_free, online_from, sysram_online}
use porcelix.Mm.Buddy.Invariant.{
  rank_of, is_linked, IsBlock, IsBuddy, IsFree, self_in, SameBlocks, SameBlocks-IsBuddy,
  SameBlocks-IsFree, SameBlocks-symm,
}
use porcelix.Mm.Buddy.Free.{page_free-IsFree}

-- The pages of these numbers lie in the area, and none of them is free.
pub record IsOffline (m : Mem) (a from until : ℕ) : Type 0 where
  pub in_area : (x : ℕ) → from ≤ x → x < until → get_pagearea m.areas x ≡ some a
  pub used : (x : ℕ) → from ≤ x → x < until → IsFree m x → ⊥

-- The record that the loop writes before `page_free`.
abbrev reset : Mem → ℕ → Mem
reset m i = record m {
  pages = update m.pages i (record (m.pages i) { buddy_rank = 0; refcount = 0 });
}

reset-SameBlocks : (m : Mem) (i : ℕ) → is_linked m i ≡ false → SameBlocks m (reset m i)
reset-SameBlocks m i out = record {
  areas = refl;
  lists = λ a r. refl;
  linked = λ j. ground arith;
  ranks = λ j l. ground arith;
}

used_unlinked : (m : Mem) (i : ℕ) → (IsFree m i → ⊥) → is_linked m i ≡ false
used_unlinked m i used = elim (Bool-cases (is_linked m i)) [
  | inl l ↦
      absurd
        (used (record { head = i; free = l; from = omega arith; until = self_in i (rank_of m i) }))
  | inr n ↦ n
]

-- A page that is not free is a block of its own.
reset-IsBlock :
    (m : Mem) (a i until : ℕ) → IsOffline m a i until → i < until → IsBlock (reset m i) a i 0
reset-IsBlock m a i until off h =
    let used = off.used i (omega arith) h in
    let s = reset-SameBlocks m i (used_unlinked m i used) in
    record {
      unlinked = s.linked i ∙ used_unlinked m i used;
      small = omega arith;
      aligned = omega arith;
      whole = λ x low high. off.in_area x low (omega arith);
      alone = λ j l. elim (dec_lt i j) [
        | yes p ↦ inl (omega arith)
        | no n ↦ elim (dec_lt i (j + 2 ^ rank_of (reset m i) j)) [
          | no q ↦ inr (omega arith)
          | yes p ↦ absurd (
              used (
                SameBlocks-IsFree (SameBlocks-symm s) i
                  (record { head = j; free = l; from = omega arith; until = p })))
        ]
      ];
    }

-- What a run of the loop over the pages of these numbers leaves.
pub record IsOnline (m m' : Mem) (from until : ℕ) : Type 0 where
  pub buddy : IsBuddy m'
  pub areas : m'.areas ≡ m.areas
  pub free : (x : ℕ) → IsFree m' x ↔ (IsFree m x ⊎ ((from ≤ x) × (x < until)))

-- One round of the loop.
round-IsOnline :
    (m : Mem) (a i until : ℕ)
    → IsBuddy m
    → IsOffline m a i until
    → i < until
    → (m' : Mem) × (page_free (reset m i) (i * 4096) ≡ some m') × IsOnline m m' i (i + 1)
round-IsOnline m a i until b off h =
    let s = reset-SameBlocks m i (used_unlinked m i (off.used i (omega arith) h)) in
    let rank : rank_of (reset m i) i ≡ 0 = ground arith in
    let block = reset-IsBlock m a i until off h in
    let (head, m', e, buddy, areas, free, new, rest) =
      page_free-IsFree (reset m i) a i (SameBlocks-IsBuddy s b) (rw rank block) (ground arith) in
    (
      m',
      e,
      record {
        buddy = buddy;
        areas = areas;
        free = λ x. (
          λ f. elim ((free x).0 f) [
            | inl g ↦ inl (SameBlocks-IsFree (SameBlocks-symm s) x g)
            | inr (low, high) ↦ inr (low, rw rank at high)
          ],
          λ f. elim f [
            | inl g ↦ (free x).1 (inl (SameBlocks-IsFree s x g))
            | inr (low, high) ↦ (free x).1 (inr (low, rw rank high))
          ],
        );
      },
    )

-- The pages behind the first stay offline.
rest-IsOffline :
    (m m' : Mem) (a i until : ℕ)
    → IsOffline m a i until
    → IsOnline m m' i (i + 1)
    → IsOffline m' a (i + 1) until
rest-IsOffline m m' a i until off on = record {
  in_area = λ x low high. ap (λ t. get_pagearea t x) on.areas ∙ off.in_area x (omega arith) high;
  used = λ x low high f. elim ((on.free x).0 f) [
    | inl g ↦ off.used x (omega arith) high g
    | inr (h, l) ↦ omega arith
  ];
}

IsOnline-trans :
    {m m' m'' : Mem} {i until : ℕ}
    → i < until
    → IsOnline m m' i (i + 1)
    → IsOnline m' m'' (i + 1) until
    → IsOnline m m'' i until
IsOnline-trans {i} {until} h s t = record {
  buddy = t.buddy;
  areas = t.areas ∙ s.areas;
  free = λ x. (
    λ f. elim ((t.free x).0 f) [
      | inr (low, high) ↦ inr (omega arith, high)
      | inl g ↦ elim ((s.free x).0 g) [
        | inl before ↦ inl before
        | inr (low, high) ↦ inr (low, omega arith)
      ]
    ],
    λ f. elim f [
      | inl g ↦ (t.free x).1 (inl ((s.free x).1 (inl g)))
      | inr (low, high) ↦ elim (ℕ_discrete x i) [
        | yes e ↦ (t.free x).1 (inl ((s.free x).1 (inr (low, omega arith))))
        | no n ↦ (t.free x).1 (inr (omega arith, high))
      ]
    ],
  );
}

online_round :
    (k : ℕ) (m m' : Mem) (i until : ℕ)
    → i < until
    → page_free (reset m i) (i * 4096) ≡ some m'
    → until * 4096 < 2 ^ 32
    → online_from (suc k) m (i * 4096) (until * 4096)
      ≡ online_from k m' ((i + 1) * 4096) (until * 4096)
unfolding online_from
online_round k m m' i until h e fits =
    let more : ltb (i * 4096) (until * 4096) ≡ true = ground arith in
    let page : i * 4096 / 4096 ≡ i = omega arith in
    let step : (i * 4096 + 4096) % 2 ^ 32 ≡ (i + 1) * 4096 = omega arith in
    rw (more, page, e, step, online_from) refl

online_from-IsOnline :
    (k : ℕ) (m : Mem) (a i until : ℕ)
    → IsBuddy m
    → IsOffline m a i until
    → until ≡ i + k
    → until * 4096 < 2 ^ 32
    → (m' : Mem) × (online_from k m (i * 4096) (until * 4096) ≡ some m') × IsOnline m m' i until
unfolding online_from
online_from-IsOnline zero m a i until b off e fits = (
  m,
  refl,
  record {
    buddy = b;
    areas = refl;
    free = λ x. (λ f. inl f, λ f. elim f [ inl g ↦ g | inr (low, high) ↦ absurd (omega arith) ]);
  },
)
online_from-IsOnline (suc k) m a i until b off e fits =
    let h : i < until = omega arith in
    let (m1, e1, s) = round-IsOnline m a i until b off h in
    let (m', e', t) =
      online_from-IsOnline k m1 a (i + 1) until s.buddy (rest-IsOffline m m1 a i until off s)
        (omega arith) fits in
    (m', online_round k m m1 i until h e1 fits ∙ e', IsOnline-trans h s t)

-- On a state in which the invariant `IsBuddy` holds, `sysram_online` of a page-aligned range below
-- 4 GB, all in one area, none of whose pages is free, finds no failed `ASSERT`; the invariant holds
-- after it, and the free pages are those of before and the pages of the range.
pub sysram_online-IsOnline :
    (m : Mem) (a first n : ℕ)
    → IsBuddy m
    → IsOffline m a first (first + n)
    → (first + n) * 4096 < 2 ^ 32
    → (m' : Mem) × (sysram_online m (first * 4096) (n * 4096) ≡ some m')
      × IsOnline m m' first (first + n)
unfolding sysram_online
sysram_online-IsOnline m a first n b off fits =
    let aligned : bit_and (first * 4096) 4095 ≡ 0 = omega (arith, bit_and_mask 12 (first * 4096)) in
    let whole : bit_and (n * 4096) 4095 ≡ 0 = omega (arith, bit_and_mask 12 (n * 4096)) in
    let rounds : n * 4096 / 4096 ≡ n = omega arith in
    let end : (first * 4096 + n * 4096) % 2 ^ 32 ≡ (first + n) * 4096 = omega arith in
    let (m', e, on) = online_from-IsOnline n m a first (first + n) b off refl fits in
    (m', rw (aligned, whole, rounds, end, sysram_online) e, on)
