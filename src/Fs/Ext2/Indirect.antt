-- ===== src/Fs/Ext2/Indirect.antt =====
-- `ext2_readfile_ind` and `ext2_readfile_dind` (myLoader/fs/ext2.c) read the blocks of a file that
-- they are there for.
use mathlib.Core.List.{append-nil}
use native.Mathlib.Nat.{mul-zero, mul-suc}
use porcelix.Prelude.{
  ℕ, zero, suc, ◌+◌, ◌-◌, ◌*◌, ◌%◌, ◌^◌, ◌≤◌, ◌<◌, ◌≡◌, refl, Bool-cases, inl, inr, true, false,
  some, List, [], ◌∷◌, ◌++◌, arith, ltb, leb, ◌==◌, if◌then◌else◌, get_or, ap, sym, ◌∙◌, ==→eq,
  le→ltb, ltb→lt, le→leb,
}
use porcelix.Prelude.Mem.{◌>>=◌}
use porcelix.Fs.Ext2.{
  Ext2Info, DevRead, Inode, ext2_load_block, per_block, index_of, ind_loop, ext2_readfile_ind,
  dind_loop, ext2_readfile_dind, page_size,
}
use porcelix.Fs.Ext2.Blocks.{
  from, from-append, block_of, read_block, block_of-ind, block_of-dind, place_behind,
}

-- The smaller of what is asked for and what a block of numbers holds.
unfoldable pub least : ℕ → ℕ → ℕ
least bound count = if ltb bound count then bound else count

pub least_lem : (bound count : ℕ) → (least bound count ≤ bound) × (least bound count ≤ count)
unfolding least
least_lem bound count = ground arith

least_rest_lem : (bound count m : ℕ) → count ≤ m + bound → count - least bound count ≤ m
unfolding least
least_rest_lem bound count m h = ground arith

pub least_full :
    (bound count : ℕ) → ((count - least bound count) == 0) ≡ false → least bound count ≡ bound
unfolding least
least_full bound count h = ground arith

module _ (info : Ext2Info) (word : ℕ → ℕ → ℕ) (inode : Inode) (start : ℕ) where
  -- The place of the block `k`.
  abbrev pub place : ℕ → ℕ
  place k = (start + k * info.blk_size) % 2 ^ 32

  abbrev pub reads : ℕ → ℕ → List DevRead
  reads = from (read_block info word inode start)

  -- A block of numbers that stands for the blocks from `base` on.
  ind_loop-reads :
      (b base count n : ℕ)
      → ((c : ℕ) → c < count + n → block_of info word inode (base + c) ≡ index_of info word b c)
      → ind_loop info word b (place base) count n ≡ reads (base + count) n
  unfolding ind_loop read_block
  ind_loop-reads b base count zero covers = refl
  ind_loop-reads b base count (suc n) covers =
      let first =
        ap (λ k. ext2_load_block info k (place (base + count))) (covers count (omega arith)) in
      let here = place_behind info word inode start base count in
      ap
        (λ m.
          ext2_load_block info (index_of info word b count) m
          ∷ ind_loop info word b (place base) (count + 1) n)
        here
      ∙ ap (λ d. d ∷ ind_loop info word b (place base) (count + 1) n) (sym first)
      ∙ ap
          (λ t.
            ext2_load_block info (block_of info word inode (base + count)) (place (base + count))
            ∷ t)
          (ind_loop-reads b base (count + 1) n (λ c h. covers c (omega arith))
            ∙ ap (λ k. reads k n) {x = base + (count + 1)} {y = base + count + 1} (omega arith))

  abbrev pub per : ℕ
  per = per_block info

  readfile_ind-reads :
      (b base count : ℕ)
      → info.blk_size ≤ page_size
      → ((c : ℕ) → c < per → block_of info word inode (base + c) ≡ index_of info word b c)
      → ext2_readfile_ind info word b count (place base)
        ≡ some (least per count, reads base (least per count))
  unfolding ext2_readfile_ind least
  readfile_ind-reads b base count page covers = rw (le→leb info.blk_size page_size page) (
      ap (λ l. some (least per count, l))
        (ind_loop-reads b base 0 (least per count)
            (λ c h. covers c (omega (arith, least_lem per count)))
          ∙ ap (λ k. reads k (least per count)) {x = base + 0} {y = base} (omega arith)))

  -- `ext2_readfile_ind` for the blocks from 12 on.
  pub ext2_readfile_ind-reads :
      (count : ℕ)
      → info.blk_size ≤ page_size
      → ext2_readfile_ind info word (get_or inode.i_block 12 0) count (place 12)
        ≡ some (least per count, reads 12 (least per count))
  ext2_readfile_ind-reads count page =
      readfile_ind-reads (get_or inode.i_block 12 0) 12 count page (block_of-ind info word inode)

  -- The first block that the block of numbers `idx` stands for.
  abbrev pub dind_base : ℕ → ℕ
  dind_base idx = 12 + per + per * idx

  pub reads-least :
      (base next count : ℕ)
      → next ≡ base + per
      → reads base (least per count) ++ reads next (count - least per count) ≡ reads base count
  unfolding least
  reads-least base next count e = elim (Bool-cases (ltb per count)) [
    | inl more ↦ rw more (
        ap (λ k. reads base per ++ reads k (count - per)) e
        ∙ from-append (read_block info word inode start) base per (count - per)
        ∙ ap (reads base) {x = per + (count - per)} {y = count} (omega (arith, ltb→lt _ _ more)))
    | inr last ↦ rw last (
        ap (λ m. reads base count ++ reads next m) {x = count - count} {y = 0} (omega arith)
        ∙ append-nil (reads base count))
  ]

  dind_round :
      (k b idx count mem r : ℕ) (ls : List DevRead)
      → (count == 0) ≡ false
      → ext2_readfile_ind info word (index_of info word b idx) count mem ≡ some (r, ls)
      → dind_loop info word (suc k) b idx count mem ≡ (
          dind_loop info word k b (idx + 1) (count - r) ((mem + per * info.blk_size) % 2 ^ 32)
          >>= λ (i, ls'). some (i, ls ++ ls'))
  unfolding dind_loop
  dind_round k b idx count mem r ls more e = rw (more, e) refl

  dind_loop_end :
      (k b idx count mem : ℕ)
      → (count == 0) ≡ true
      → dind_loop info word (suc k) b idx count mem ≡ some (idx, [])
  unfolding dind_loop
  dind_loop_end k b idx count mem done = rw done refl

  module _ (b : ℕ) (eb : b ≡ get_or inode.i_block 13 0) (pos : 0 < per)
      (page : info.blk_size ≤ page_size) where
    dind_ind-reads :
        (idx count : ℕ)
        → ext2_readfile_ind info word (index_of info word b idx) count (place (dind_base idx))
          ≡ some (least per count, reads (dind_base idx) (least per count))
    dind_ind-reads idx count =
        readfile_ind-reads (index_of info word b idx) (dind_base idx) count page (λ c h.
          ap (block_of info word inode) {x = dind_base idx + c} {y = 12 + per + (per * idx + c)}
            (omega arith)
          ∙ block_of-dind info word inode idx c h
          ∙ ap (λ t. index_of info word (index_of info word t idx) c) (sym eb))

    dind_loop-reads :
        (k idx count : ℕ)
        → count ≤ per * k
        → (idx' : ℕ) × (dind_loop info word k b idx count (place (dind_base idx))
            ≡ some (idx', reads (dind_base idx) count))
          × (idx' ≤ idx + k)
    dind_loop-reads zero idx count h =
        let gone : count ≡ 0 = omega (arith, mul-zero per) in
        (idx, unfold dind_loop in rw gone refl, omega arith)
    dind_loop-reads (suc k) idx count h = elim (Bool-cases (count == 0)) [
      | inl done ↦
          let gone = ==→eq count 0 done in
          (
            idx,
            dind_loop_end k b idx count (place (dind_base idx)) done
                ∙ ap (λ n. some (idx, reads (dind_base idx) n)) (sym gone),
            omega arith,
          )
      | inr more ↦
          let r = least per count in
          let next = dind_base (idx + 1) in
          let (idx', run, le) =
            dind_loop-reads k (idx + 1) (count - r)
              (least_rest_lem per count (per * k) (omega (arith, mul-suc per k))) in
          let there : (place (dind_base idx) + per * info.blk_size) % 2 ^ 32 ≡ place next =
            place_behind info word inode start (dind_base idx) per
            ∙ ap place {x = dind_base idx + per} {y = next} (omega (arith, mul-suc per idx)) in
          (
            idx',
            dind_round k b idx count (place (dind_base idx)) r (reads (dind_base idx) r) more
                  (dind_ind-reads idx count)
                ∙ ap
                    (λ m. dind_loop info word k b (idx + 1) (count - r) m >>= λ (i, ls).
                      some (i, reads (dind_base idx) r ++ ls))
                    there
                ∙ ap (λ o. o >>= λ (i, ls). some (i, reads (dind_base idx) r ++ ls)) run
                ∙ ap (λ ls. some (idx', ls))
                    (reads-least (dind_base idx) next count (omega (arith, mul-suc per idx))),
            omega arith,
          )
    ]

  -- `ext2_readfile_dind` for the blocks behind those of `ext2_readfile_ind`.
  pub ext2_readfile_dind-reads :
      (count : ℕ)
      → 0 < per
      → info.blk_size ≤ page_size
      → count ≤ per * per
      → ext2_readfile_dind info word (get_or inode.i_block 13 0) count (place (12 + per))
        ≡ some (count, reads (12 + per) count)
  unfolding ext2_readfile_dind
  ext2_readfile_dind-reads count pos page h =
      let b = get_or inode.i_block 13 0 in
      let (idx, run, le) = dind_loop-reads b refl pos page per 0 count h in
      let origin : dind_base 0 ≡ 12 + per = omega (arith, mul-zero per) in
      let run' : dind_loop info word per b 0 count (place (12 + per))
          ≡ some (idx, reads (12 + per) count) =
        ap (λ k. dind_loop info word per b 0 count (place k)) (sym origin)
        ∙ run
        ∙ ap (λ k. some (idx, reads k count)) origin in
      let all : ltb (per * per) count ≡ false = le→ltb (per * per) count h in
      let in_range : leb idx per ≡ true = le→leb idx per (omega arith) in
      rw (le→leb info.blk_size page_size page, all, run', in_range) refl
