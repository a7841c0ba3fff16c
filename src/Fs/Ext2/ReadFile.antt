-- ===== src/Fs/Ext2/ReadFile.antt =====
-- `ext2_readfile` (myLoader/fs/ext2.c) reads the blocks of a file in their order, each to its place.
use native.Mathlib.Nat.{
  mul-zero, mul-add, mul-one, mul_comm, mul-div-le, lt-mul-div-succ, le-mul_of_pos_right,
}
use porcelix.Prelude.{
  ℕ, zero, suc, ◌+◌, ◌-◌, ◌*◌, ◌/◌, ◌%◌, ◌^◌, ◌≤◌, ◌<◌, ◌≡◌, refl, Bool-cases, inl, inr, true, some,
  List, [], ◌∷◌, ◌++◌, arith, length, ◌==◌, if◌then◌else◌, get_elem?, get_or, ap, sym, ◌∙◌, ==→eq,
  ==→ne, lt→ltb,
}
use porcelix.Prelude.Mem.{◌>>=◌}
use porcelix.Fs.Ext2.{
  Ext2Info, DevRead, Inode, ext2_load_block, read_at, readfile_loop, n_block_of, ext2_readfile,
  page_size,
}
use porcelix.Fs.Ext2.Blocks.{from-append, read_block, block_of-direct, place_behind}
use porcelix.Fs.Ext2.Indirect.{
  place, reads, per, least, least_lem, least_full, reads-least, ext2_readfile_ind-reads,
  ext2_readfile_dind-reads,
}

get_elem?_or : (xs : List ℕ) (i d : ℕ) → i < length xs → get_elem? xs i ≡ some (get_or xs i d)
get_elem?_or [] i d h = elim h [ ]
get_elem?_or (x ∷ xs) zero d h = refl
get_elem?_or (x ∷ xs) (suc i) d h = get_elem?_or xs i d (omega arith)

module _ (info : Ext2Info) (word : ℕ → ℕ → ℕ) (inode : Inode) (start : ℕ) where
  -- One round, which has read `tmp'` of the `n` blocks that are left.
  readfile_round :
      (k i n tmp addr tmp' : ℕ) (ls : List DevRead)
      → read_at info word inode i n tmp addr ≡ some (tmp', ls)
      → tmp' ≤ n
      → n < 2 ^ 32
      → readfile_loop info word inode (suc k) i n tmp addr ≡ (
          if n - tmp' == 0
          then some ls
          else (readfile_loop info word inode k
                (i + 1)
                (n - tmp')
                tmp'
                ((addr + tmp' * info.blk_size) % 2 ^ 32)
              >>= λ ls'. some (ls ++ ls')))
  unfolding readfile_loop
  readfile_round k i n tmp addr tmp' ls e some_left small =
      let left : (n + (2 ^ 32 - tmp' % 2 ^ 32)) % 2 ^ 32 ≡ n - tmp' = omega arith in
      rw (e, left) refl

  module _ (size : 15 ≤ length inode.i_block) (pos : 0 < per info word inode start)
      (page : info.blk_size ≤ page_size) where
    read_at-direct :
        (i n tmp : ℕ)
        → i < 12
        → read_at info word inode i n tmp (place info word inode start i)
          ≡ some (1, reads info word inode start i 1)
    unfolding read_at read_block
    read_at-direct i n tmp h =
        rw (get_elem?_or inode.i_block i 0 (omega arith), lt→ltb i 12 h)
          (ap (λ b. some (1, ext2_load_block info b (place info word inode start i) ∷ []))
            (sym (block_of-direct info word inode i h)))

    read_at-ind :
        (n tmp : ℕ)
        → read_at info word inode 12 n tmp (place info word inode start 12)
          ≡ some (
            least (per info word inode start) n,
            reads info word inode start 12 (least (per info word inode start) n),
          )
    unfolding read_at
    read_at-ind n tmp =
        rw (get_elem?_or inode.i_block 12 0 (omega arith))
          (ext2_readfile_ind-reads info word inode start n page)

    read_at-dind :
        (n tmp : ℕ)
        → n ≤ per info word inode start * per info word inode start
        → read_at info word inode 13 n tmp
            (place info word inode start (12 + per info word inode start))
          ≡ some (n, reads info word inode start (12 + per info word inode start) n)
    unfolding read_at
    read_at-dind n tmp h =
        rw (get_elem?_or inode.i_block 13 0 (omega arith))
          (ext2_readfile_dind-reads info word inode start n pos page h)

    loop_dind :
        (n tmp : ℕ)
        → n < 2 ^ 32
        → n ≤ per info word inode start * per info word inode start
        → readfile_loop info word inode 2 13 n tmp
            (place info word inode start (12 + per info word inode start))
          ≡ some (reads info word inode start (12 + per info word inode start) n)
    loop_dind n tmp small h =
        let done : (n - n == 0) ≡ true = ground arith in
        readfile_round 1 13 n tmp _ n _ (read_at-dind n tmp h) (omega arith) small ∙ rw done refl

    loop_ind :
        (n tmp : ℕ)
        → n < 2 ^ 32
        → n ≤ per info word inode start + per info word inode start * per info word inode start
        → readfile_loop info word inode 3 12 n tmp (place info word inode start 12)
          ≡ some (reads info word inode start 12 n)
    loop_ind n tmp small h =
        let p = per info word inode start in
        let r = least p n in
        let bound = least_lem p n in
        readfile_round 2 12 n tmp (place info word inode start 12) r _ (read_at-ind n tmp) bound.1
          small
        ∙ elim (Bool-cases (n - r == 0)) [
          | inl done ↦ rw done (
              ap (λ m. some (reads info word inode start 12 m)) {x = r} {y = n}
                (omega (arith, bound, ==→eq (n - r) 0 done)))
          | inr more ↦
              let full = least_full p n more in
              let there : (place info word inode start 12 + r * info.blk_size) % 2 ^ 32
                  ≡ place info word inode start (12 + p) =
                place_behind info word inode start 12 r
                ∙ ap (λ k. place info word inode start (12 + k)) full in
              rw (more, there, loop_dind (n - r) r (omega arith) (omega (arith, full)))
                (ap some (reads-least info word inode start 12 (12 + p) n refl))
        ]

    loop_direct :
        (d i n tmp : ℕ)
        → i + d ≡ 12
        → 0 < n
        → n < 2 ^ 32
        → n
          ≤ d + (per info word inode start + per info word inode start * per info word inode start)
        → readfile_loop info word inode (d + 3) i n tmp (place info word inode start i)
          ≡ some (reads info word inode start i n)
    loop_direct zero i n tmp e some_left small h =
        let last : i ≡ 12 = omega arith in
        ap (λ j. readfile_loop info word inode 3 j n tmp (place info word inode start j)) last
        ∙ loop_ind n tmp small (omega arith)
        ∙ ap (λ j. some (reads info word inode start j n)) (sym last)
    loop_direct (suc d) i n tmp e some_left small h =
        ap (λ k. readfile_loop info word inode k i n tmp (place info word inode start i))
          {x = suc d + 3} {y = suc (d + 3)} (omega arith)
        ∙ readfile_round (d + 3) i n tmp (place info word inode start i) 1 _
            (read_at-direct i n tmp (omega arith)) (omega arith) small
        ∙ elim (Bool-cases (n - 1 == 0)) [
          | inl done ↦ rw done (
              ap (λ m. some (reads info word inode start i m)) {x = 1} {y = n}
                (omega (arith, ==→eq (n - 1) 0 done)))
          | inr more ↦
              rw
                (
                  more,
                  place_behind info word inode start i 1,
                  loop_direct d (i + 1) (n - 1) 1 (omega arith)
                      (omega (arith, ==→ne (n - 1) 0 more)) (omega arith) (omega arith),
                )
                (ap some (
                  from-append (read_block info word inode start) i 1 (n - 1)
                  ∙ ap (reads info word inode start i) {x = 1 + (n - 1)} {y = n} (omega arith)))
        ]

  -- The blocks are just enough for the file.
  pub n_block_of_lem :
      0 < info.blk_size
      → 0 < inode.i_size
      → inode.i_size + info.blk_size ≤ 2 ^ 32
      → (0 < n_block_of info word inode.i_size)
        × (inode.i_size ≤ info.blk_size * n_block_of info word inode.i_size)
        × (info.blk_size * n_block_of info word inode.i_size < inode.i_size + info.blk_size)
        × (n_block_of info word inode.i_size < 2 ^ 32)
  unfolding n_block_of
  n_block_of_lem pos some_bytes room =
      let s = (inode.i_size + info.blk_size + (2 ^ 32 - 1)) % 2 ^ 32 in
      let n = s / info.blk_size in
      let es : s + 1 ≡ inode.i_size + info.blk_size = omega arith in
      let above = lt-mul-div-succ s pos in
      let below = mul-div-le s info.blk_size in
      let next : info.blk_size * (n + 1) ≡ info.blk_size * n + info.blk_size =
        mul-add info.blk_size n 1 ∙ ap (λ t. info.blk_size * n + t) (mul-one info.blk_size) in
      let some_blocks : 0 < n = n_pos n (omega (arith, es, above, next)) in
      let few : n ≤ n * info.blk_size = le-mul_of_pos_right n pos in
      (
        some_blocks,
        omega (arith, es, above, next),
        omega (arith, es, below),
        omega (arith, es, below, few, mul_comm n info.blk_size),
      )
    where
      n_pos : (n : ℕ) → 0 < info.blk_size * n → 0 < n
      n_pos zero h = absurd (omega (arith, mul-zero info.blk_size))
      n_pos (suc n) h = omega arith

  -- For a file that is not empty, that has its 15 block numbers, that needs no triple indirection
  -- and whose size is not within a block of 2 ^ 32, on a disk with blocks of 4 bytes up to a page,
  -- into memory from an address `start` below 2 ^ 32 on: `ext2_readfile` returns, and reads the
  -- blocks of the file in their order, each block once and each to its place, as many as the size
  -- asks for.
  pub ext2_readfile-reads :
      15 ≤ length inode.i_block
      → 0 < per info word inode start
      → info.blk_size ≤ page_size
      → start < 2 ^ 32
      → 0 < inode.i_size
      → inode.i_size + info.blk_size ≤ 2 ^ 32
      → n_block_of info word inode.i_size
        ≤ 12 + (per info word inode start + per info word inode start * per info word inode start)
      → (ext2_readfile info word inode start
          ≡ some (reads info word inode start 0 (n_block_of info word inode.i_size)))
        × (inode.i_size ≤ info.blk_size * n_block_of info word inode.i_size)
        × (info.blk_size * n_block_of info word inode.i_size < inode.i_size + info.blk_size)
  unfolding ext2_readfile
  ext2_readfile-reads size pos page low some_bytes room h =
      let n = n_block_of info word inode.i_size in
      let (some_blocks, enough, no_more, small) = n_block_of_lem (omega arith) some_bytes room in
      let origin : start ≡ place info word inode start 0 = omega arith in
      (
        ap (λ a. readfile_loop info word inode 15 0 n 0 a) origin
            ∙ loop_direct size pos page 12 0 n 0 refl some_blocks small h,
        enough,
        no_more,
      )
