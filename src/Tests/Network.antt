-- ===== src/Tests/Network.antt =====
-- The ARP cache and the checksum of myLoader/core/net.c.
use porcelix.Prelude.{
  ◌<◌, ℕ, ◌+◌, ◌/◌, ◌%◌, ◌^◌, ◌≡◌, refl, ◌≢◌, ◌↔◌, true, false, List, [], ◌∷◌, ◌++◌, some, none,
  arith, length, get_elem?, ◌==◌, if◌then◌else◌,
}
use porcelix.Prelude.Int.{pos, negsuc}
use porcelix.Net.Arp.{ArpCache, ArpEntry, arp_insert, arp_getmacaddr, fill, evict}
use porcelix.Net.Arp.Lookup.{hits, forget}
use porcelix.Net.Arp.Insert.{IsUnique, IsKept, arp_insert-arp_getmacaddr, arp_insert_dies}
use porcelix.Net.Checksum.{checksum_calc}
use porcelix.Net.Checksum.Verify.{checksum_calc-checksum_calc}

abbrev entry : ℕ → ℕ → ArpEntry
entry ip mac = record { ip = ip; mac = mac; valid = true }

abbrev cache : List ArpEntry → ArpCache
cache list = record { list = list; count = 0 }

-- One used entry and two free ones.
abbrev before : ArpCache
before = cache (
    entry 7 70
    ∷ record { ip = 0; mac = 0; valid = false }
    ∷ record { ip = 0; mac = 0; valid = false }
    ∷ [])

abbrev after : ArpCache
after = cache (entry 7 70 ∷ entry 8 80 ∷ record { ip = 0; mac = 0; valid = false } ∷ [])

before-IsUnique : IsUnique before
unfolding hits
before-IsUnique x = ground arith

arp_insert-arp_getmacaddr_example :
    IsUnique after
    × ((x : ℕ)
        → arp_getmacaddr after x
          ≡ (if x == 8 then some 80 else forget 80 (arp_getmacaddr before x)))
arp_insert-arp_getmacaddr_example = arp_insert-arp_getmacaddr before after 8 80 before-IsUnique run
  where
    run : arp_insert before 8 80 ≡ some (pos 0, after)
    run = unfold arp_insert fill evict in refl

arp_insert_dies_example :
    ((arp_insert (cache (entry 7 70 ∷ [])) 8 80 ≡ none)
      ↔ ((k : ℕ) (e : ArpEntry) → get_elem? (entry 7 70 ∷ []) k ≡ some e → IsKept 8 80 e))
    × ((c' : ArpCache) → arp_insert (cache (entry 7 70 ∷ [])) 8 80 ≢ some (negsuc 0, c'))
arp_insert_dies_example = arp_insert_dies (cache (entry 7 70 ∷ [])) 8 80 (omega arith)

abbrev odd_text : List ℕ
odd_text = 1 ∷ 2 ∷ 3 ∷ []

-- An echo request: type and code, the checksum field, and one byte.
abbrev echo_head : List ℕ
echo_head = 8 ∷ 0 ∷ []

abbrev echo_tail : List ℕ
echo_tail = 5 ∷ []

checksum_calc-checksum_calc_example :
    (c : ℕ) × (c < 2 ^ 16)
    × (checksum_calc 0
          ((echo_head ++ 0 ∷ 0 ∷ echo_tail) ++ [])
          (length echo_head + 2 + length echo_tail)
        ≡ some c)
    × (checksum_calc 0
          ((echo_head ++ c / 2 ^ 8 ∷ c % 2 ^ 8 ∷ echo_tail) ++ [])
          (length echo_head + 2 + length echo_tail)
        ≡ some 0)
checksum_calc-checksum_calc_example =
    checksum_calc-checksum_calc echo_head echo_tail [] (omega arith) (omega arith)
      (omega arith, (omega arith, tt)) (omega arith, tt)
