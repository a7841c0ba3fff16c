-- ===== src/Lib.antt =====
-- A model of the Porcelix loader (myLoader), a small x86 kernel in C, and its proofs. The parts
-- that are modelled are the byte strings and words of the kernel library, the table of memory
-- ranges, the buddy allocator of physical pages, the ARP cache, the checksum and the sending of UDP
-- packets of the network code, the keyboard and its semaphore, the AVL trees, the console, reading
-- files from ext2, the CRC, the command line and the slab allocator. The table reserves memory for
-- the allocator's page list and says which ranges are brought online; the allocator hands the pages
-- out to every other part; both use the rounding and the logarithm of the library. The slab
-- allocator cuts pages into blocks and finds a block's slab in an AVL tree. The command line reads
-- the keyboard's characters and splits a line with the string routines; udp_send looks the receiver
-- up in the ARP cache.
--
-- * Prelude, Prelude/*: Boolean tests and lists over the native numbers, signed integers, byte
--   memory with faults, and bit operations by division.
-- * Str, Str/*: memcpy, memset, strcmp, memcmp, strlen, str2num, isinteflag and
--   parse_str_by_inteflag of myLoader/core/func.c, each under its own name.
-- * Word, Word/*: get_upper_range, get_lower_range, SWAP_2B, SWAP_4B and log2 of
--   myLoader/include/public.h.
-- * Search, Search/Floor: alg_bsch of myLoader/core/func.c.
-- * Sorter, Sorter/*: what the callers of sort rely on. sort is a copy from the Linux kernel,
--   so it is a parameter; an insertion sort shows that the interface can be met.
-- * Mm/Resource, Mm/Resource/*: rr_cmp and resoure_add_range of myLoader/mm/memory.c on the
--   list of the descriptors of a resource_t.
-- * Mm/Buddy, Mm/Buddy/*: page_alloc, page_free, sysram_online and get_pagearea of
--   myLoader/mm/page.c, with the list operations of myLoader/include/list.h on the free lists.
--   A page is its index, a free list is a sequence of indices, and a page's pointers are the
--   flag linked.
-- * Net/Arp, Net/Arp/*: arp_insert and arp_getmacaddr of myLoader/core/net.c on the list of the
--   cache's entries; an address is the number that its bytes make.
-- * Net/Checksum, Net/Checksum/*: checksum_calc of myLoader/core/net.c.
-- * Net/Udp, Net/Udp/*: udp_send and the header accessors (getudp_srcport, getudp_dstport,
--   getudp_len, getipv4totallen) of myLoader/core/net.c. The headers that it writes in front of
--   the buffer are lists of bytes, and the frame for the driver is a result.
-- * Sem, for Kbd/Queue: sem_init, sem_wait and sem_signal of myLoader/core/sem.c. A blocked task
--   is a result of the call.
-- * Kbd, Kbd/*: kbd_rawbuff_insert, kbd_get_char and kbd_int of myLoader/io/kbd.c; the scan
--   code that the handler reads from the controller is its argument.
-- * Avl, Avl/*: avl_insert, avl_remove, avl_lkup and avl_walk of myLoader/lib/avl/avl.c, with
--   the rotations and avl_ab. A node that is embedded in a structure is a node that holds it,
--   and the father pointers are the path above a node.
-- * Console/Vga, Console/Vga/*: memset_u16 of myLoader/core/func.c, and vga_bks,
--   vga_console_write, vga_console_spcdisp, vga_screen_clear and vga_console_init of
--   myLoader/io/disp.c, on the video memory as a list of cells.
-- * Console/Format, Console/Format/*: num_fmt, vsprintf, printk and conspc_printf of
--   myLoader/io/disp.c. The bytes that a call writes to its buffer are a list.
-- * Fs/Ext2, Fs/Ext2/*: ext2_load_block, ext2_readfile, ext2_readfile_ind, ext2_readfile_dind
--   and the place that ext2_get_inode computes, of myLoader/fs/ext2.c. What the disk holds is a
--   parameter, and a read into the caller's memory is an entry of a list.
-- * Crc, Crc/*: crc32_raw and crc32 of myLoader/lib/crc32/crc32.c.
-- * Mm/Slab, Mm/Slab/*: init_onecache (the sizes), initslab, slabcmp, memcache_alloc and
--   memcache_free of myLoader/mm/slab.c. A slab is its address, the three lists of slabs and
--   the tree hold addresses, and the state has what stands at each. The page allocator is an
--   interface (Mm/Slab/Pages), which page_alloc meets (Mm/Slab/OverBuddy).
-- * Cmd, Cmd/*: the line editor and the loop of cmd_loop, and cmd_parse_impl, of
--   myLoader/core/cmdlist.c; the keys that are typed are a list.
-- * Mm/Rank, Mm/Rank/Least: get_pagerank of myLoader/mm/page.c.
-- * Tests, Tests/*: the theorems on concrete inputs.
--
-- A pointer into a string is the list of the bytes that follow it, or an offset; a fault and a
-- failed ASSERT are none. Machine words are numbers with the wrap-around written out.
--
-- Fuel: alg_bsch takes the array size, since every round shortens the range; the split and merge
-- loops of the buddy allocator take the number of ranks, since every round changes a rank by one;
-- sysram_online takes the number of pages; folding the carries of a 32-bit checksum takes two
-- rounds; num_fmt takes 32 rounds, one for each bit of the number; ext2_readfile_dind takes as
-- many rounds as a block holds numbers; crc32_raw takes a round for each bit; initslab takes a
-- round for each block. The theorems say that these end with the result of the loop.
--
-- Not modelled: device drivers, boot code, interrupt and fault handlers (port I/O, assembly and
-- descriptor tables), the dumps of raw memory, and the host tools; the rest of the network code,
-- tasks, directories and mounting, and the creation of caches of the slab allocator; sort and
-- bsearch (copies from the Linux kernel).
pub mod Prelude
pub mod Str
pub mod Word
pub mod Search
pub mod Sem
pub mod Sorter
pub mod Mm
pub mod Net
pub mod Kbd
pub mod Avl
pub mod Console
pub mod Fs
pub mod Crc
pub mod Cmd
pub mod Tests
