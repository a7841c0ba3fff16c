-- ===== src/Tests/Pages.antt =====
-- The buddy allocator of myLoader/mm/page.c with one free block of four pages.
use porcelix.Prelude.{
  ℕ, ◌+◌, ◌*◌, ◌≤◌, ◌<◌, ◌≡◌, refl, ◌⊎◌, ◌↔◌, inr, ◌&&◌, [], ◌∷◌, some, arith, ◌==◌, if◌then◌else◌,
  ℕ_discrete,
}
use porcelix.Mm.Buddy.{
  Mem, page_alloc, page_free, sysram_online, get_pagearea, find_area, split, list_remove_head,
  list_add_head, set_rank, find_free,
}
use porcelix.Mm.Buddy.Invariant.{IsBlock, IsBuddy, IsFree, rank_of, count}
use porcelix.Mm.Buddy.Alloc.{AllocReturns, page_alloc-IsAllocated}
use porcelix.Mm.Buddy.Merge.{InBlock}
use porcelix.Mm.Buddy.Free.{IsJoined, IsWhole, page_free-IsFree, page_free-page_alloc}
use porcelix.Mm.Buddy.Online.{IsOffline, IsOnline, sysram_online-IsOnline}

-- The pages 256 to 259 are free, in the area above 1 MB. Every page record has rank 2.
abbrev pub four_free : Mem
four_free = record {
  pages = λ i. record { linked = i == 256; buddy_rank = 2; refcount = 0 };
  areas =
      record { begin = 0; size = 0x100000 }
      ∷ record { begin = 0x100000; size = 0x700000 }
      ∷ record { begin = 0; size = 0 }
      ∷ [];
  fpage_list = λ a r. if a == 1 && r == 2 then 256 ∷ [] else [];
}

in_normal : (x : ℕ) → 256 ≤ x → x < 2048 → get_pagearea four_free.areas x ≡ some 1
unfolding get_pagearea find_area
in_normal x low high = ground arith

pub four_free-IsBuddy : IsBuddy four_free
unfolding count
four_free-IsBuddy = record {
  listed = λ a r i. elim (ℕ_discrete i 256) [
    | yes e ↦ rw (e, in_normal 256 (omega arith) (omega arith)) (ground arith)
    | no n ↦ ground arith
  ];
  small = λ i l. omega arith;
  aligned = λ i l. ground arith;
  whole = λ i l.
      let e : i ≡ 256 = ground arith in (1, λ x h k. in_normal x (omega arith) (omega arith));
  apart = λ i j l k ne. ground arith;
}

-- The pages 260 to 263 are allocated: the buddy of the free block.
next-IsBlock : IsBlock four_free 1 260 2
next-IsBlock = record {
  unlinked = refl;
  small = omega arith;
  aligned = omega arith;
  whole = λ x h k. in_normal x (omega arith) (omega arith);
  alone = λ j l. let e : j ≡ 256 = ground arith in inr (omega arith);
}

next-IsOffline : IsOffline four_free 1 264 (264 + 3)
next-IsOffline = record {
  in_area = λ x low high. in_normal x (omega arith) (omega arith);
  used = λ x low high f. let e : f.head ≡ 256 = ground (arith, f.free) in omega (arith, f.until);
}

page_alloc-IsAllocated_example : AllocReturns four_free 0 0x11
page_alloc-IsAllocated_example = page_alloc-IsAllocated four_free 0 0x11 four_free-IsBuddy

page_free-IsFree_example :
    (head : ℕ) × (m' : Mem) × (page_free four_free (260 * 4096) ≡ some m')
    × IsBuddy m'
    × (m'.areas ≡ four_free.areas)
    × ((x : ℕ) → IsFree m' x ↔ (IsFree four_free x ⊎ InBlock 260 (rank_of four_free 260) x))
    × IsJoined m' 1 260 (rank_of four_free 260) head
    × IsWhole m' 1 head
page_free-IsFree_example = page_free-IsFree four_free 1 260 four_free-IsBuddy next-IsBlock refl

-- One page is taken: the rest of the block stays free, in two halves.
abbrev one_taken : Mem
one_taken = split 15 (list_remove_head four_free 256 1 2) 256 1 0

page_free-page_alloc_example :
    (m'' : Mem) × (page_free one_taken (256 * 4096) ≡ some m'')
    × IsBuddy m''
    × ((x : ℕ) → IsFree m'' x ↔ IsFree four_free x)
page_free-page_alloc_example =
    page_free-page_alloc four_free one_taken 0 1 256 0 four_free-IsBuddy taken unused
  where
    taken : page_alloc four_free 0 1 ≡ some (some (256 * 4096, 0), one_taken)
    taken = unfold page_alloc find_free in refl

    unused : (one_taken.pages 256).refcount ≡ 0
    unused = unfold split list_remove_head list_add_head set_rank in refl

sysram_online-IsOnline_example :
    (m' : Mem) × (sysram_online four_free (264 * 4096) (3 * 4096) ≡ some m')
    × IsOnline four_free m' 264 (264 + 3)
sysram_online-IsOnline_example =
    sysram_online-IsOnline four_free 1 264 3 four_free-IsBuddy next-IsOffline (omega arith)
