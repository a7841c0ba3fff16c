-- ===== src/Mm/Slab/Cache.antt =====
-- `memcache_alloc` and `memcache_free` of myLoader/mm/slab.c. A slab is its address, the three lists
-- of slabs and the tree hold addresses, and `slabs` is what stands there. What the bytes of a block
-- hold is not modelled, but for the chain of the free ones. `P` is the state of the page allocator.
use porcelix.Prelude.{ℕ, ◌+◌, ◌-◌, ◌%◌, ◌^◌, Option, none, some, List, [], ◌∷◌, ◌==◌, if◌then◌else◌}
use porcelix.Prelude.Int.{ℤ, pos, negsuc}
use porcelix.Prelude.Mem.{◌>>=◌}
use porcelix.Avl.{
  AvlCmp, Avln, nil, node, Father, from_left, from_right, avl_insert, avl_lkup, avl_remove,
}
use porcelix.Mm.Buddy.{erase}
use porcelix.Mm.Slab.{Rg, Slab, Memcache, initslab, slabcmp, block_rg}

-- `memcache_t`, but for its name and its place in the list of caches.
pub record Cache : Type 0 where
  pub sizes : Memcache
  pub afh : List ℕ
  pub hfh : List ℕ
  pub nfh : List ℕ
  pub slbtroot : Avln ℕ
  pub n_blk : ℕ
  pub slabs : ℕ → Slab

abbrev pub put_slab : Cache → ℕ → Slab → Cache
put_slab c a s = record c { slabs = λ b. if b == a then s else c.slabs b }

-- `list_remove(&(slab->curslb))` takes the slab out of the list that it is in.
abbrev pub unlist : Cache → ℕ → Cache
unlist c a = record c { afh = erase a c.afh; hfh = erase a c.hfh; nfh = erase a c.nfh }

abbrev pub to_afh : Cache → ℕ → Cache
to_afh c a = let d = unlist c a in record d { afh = a ∷ d.afh }

abbrev pub to_hfh : Cache → ℕ → Cache
to_hfh c a = let d = unlist c a in record d { hfh = a ∷ d.hfh }

abbrev pub to_nfh : Cache → ℕ → Cache
to_nfh c a = let d = unlist c a in record d { nfh = a ∷ d.nfh }

-- The comparison of a slab of the tree with a range.
abbrev pub cmp_with : Cache → Rg → ℕ → AvlCmp
cmp_with c key a = slabcmp key (c.slabs a).rg

-- `ASSERT(0 == ...)` on the result of `avl_insert`.
unfoldable pub assert_inserted : Cache → ℤ × Avln ℕ → Option Cache
assert_inserted c (pos n, root) = if n == 0 then some (record c { slbtroot = root }) else none
assert_inserted c (negsuc n, root) = none

unfoldable pub enter_tree : Cache → ℕ → Option Cache
enter_tree c a = assert_inserted c (avl_insert (cmp_with c (c.slabs a).rg) c.slbtroot a)

-- The node that is embedded in the slab `a`, with its fathers.
unfoldable pub node_of : ℕ → Avln ℕ → List (Father ℕ) → Option (Avln ℕ × List (Father ℕ))
node_of a nil path = none
node_of a (node h l b r) path =
    let left = node_of a l (from_left h b r ∷ path) in
    let right = node_of a r (from_right h l b ∷ path) in
    if b == a
    then some (node h l b r, path)
    else elim left [ none ↦ right | some found ↦ some found ]

-- `avl_remove(&(cache->slbtroot), &(slab->spbst))`, of a node of the tree.
unfoldable pub leave_tree : Cache → ℕ → Option Cache
leave_tree c a = do
  (rmnode, path) ← node_of a c.slbtroot []
  some (record c { slbtroot = avl_remove rmnode path })

-- `memcache_alloc` behind the choice of the slab, whose free blocks come last: the block, and the
-- cache.
unfoldable pub take_first : Cache → ℕ → List ℕ → Option (ℕ × Cache)
take_first c a [] = none
take_first c a (fp ∷ next) =
    let n = (c.slabs a).n_fblk in
    let n' = (n + (2 ^ 32 - 1)) % 2 ^ 32 in
    let s = record (c.slabs a) { freepos = next; n_fblk = n' } in
    do
      c' ← (if n == c.sizes.bps then enter_tree (to_hfh c a) a else some c)
      let c'' = put_slab c' a s
      let d = if n' == 0 then to_nfh c'' a else c''
      some (fp, record d { n_blk = (c.n_blk + 1) % 2 ^ 32 })

unfoldable pub take_block : Cache → ℕ → Option (ℕ × Cache)
take_block c a = take_first c a (c.slabs a).freepos

-- `memcache_free` behind the lookup of the slab.
unfoldable pub give_block : Cache → ℕ → ℕ → Option Cache
give_block c a blk =
    let n = (c.slabs a).n_fblk in
    let n' = (n + 1) % 2 ^ 32 in
    let s = record (c.slabs a) { freepos = blk ∷ (c.slabs a).freepos; n_fblk = n' } in
    let c' = put_slab (if n == 0 then to_hfh c a else c) a s in
    do
      d ← (if n' == c.sizes.bps then leave_tree (to_afh c' a) a else some c')
      some (record d { n_blk = (c.n_blk + (2 ^ 32 - 1)) % 2 ^ 32 })

unfoldable pub free_found : Cache → ℕ → Option ℕ → Option Cache
free_found c blk none = some c
free_found c blk (some a) = give_block c a blk

-- The cache afterwards; a block that lies in no slab of the tree is reported and nothing changes.
unfoldable pub memcache_free : Cache → ℕ → Option Cache
memcache_free c blk = free_found c blk (avl_lkup (cmp_with c (block_rg c.sizes blk)) c.slbtroot)

-- `initslab`, and the new slab at the head of the list of the all free ones.
unfoldable pub new_slab : Cache → ℕ → Option Cache
new_slab c a = do s ← initslab c.sizes a; some (put_slab (record c { afh = a ∷ c.afh }) a s)

module _ {P : Type 0} (page_alloc : P → ℕ → Option (Option ℕ × P)) where
  unfoldable pub new_or_none : Cache → Option ℕ × P → Option (Option ℕ × Cache × P)
  new_or_none c (none, p) = some (none, c, p)
  new_or_none c (some a, p) = do c' ← new_slab c a; some (some a, c', p)

  -- The slab that `memcache_alloc` takes a block of, by the heads of its lists; a new one where no
  -- slab has a free block, or none where there is no page left.
  unfoldable pub choose_slab : List ℕ → List ℕ → Cache → P → Option (Option ℕ × Cache × P)
  choose_slab (a ∷ hfh) afh c p = some (some a, c, p)
  choose_slab [] (a ∷ afh) c p = some (some a, c, p)
  choose_slab [] [] c p = page_alloc p c.sizes.r_slb >>= new_or_none c

  unfoldable pub alloc_from : Option ℕ × Cache × P → Option (Option ℕ × Cache × P)
  alloc_from (none, c, p) = some (none, c, p)
  alloc_from (some a, c, p) = do (fp, d) ← take_block c a; some (some fp, d, p)

  -- The block or NULL, the cache and the state of the page allocator.
  unfoldable pub memcache_alloc : Cache → P → Option (Option ℕ × Cache × P)
  memcache_alloc c p = choose_slab c.hfh c.afh c p >>= alloc_from
