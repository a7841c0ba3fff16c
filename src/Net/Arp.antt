-- ===== src/Net/Arp.antt =====
-- The ARP cache of myLoader/core/net.c. An IPv4 or MAC address is the number that its bytes make,
-- so that `memcmp` on two addresses is a test of the numbers. `listsize` is the length of the list.
-- `none` is the failed `ASSERT(0)` of `arp_insert`.
pub mod Lookup
pub mod Insert
use porcelix.Prelude.{
  ℕ, ◌+◌, Bool, true, false, ◌&&◌, Option, none, some, List, [], ◌∷◌, map, ◌==◌, if◌then◌else◌,
  length,
}
use porcelix.Prelude.Int.{ℤ, pos, negsuc}

pub record ArpEntry : Type 0 where
  pub ip : ℕ
  pub mac : ℕ
  pub valid : Bool

pub record ArpCache : Type 0 where
  pub list : List ArpEntry
  pub count : ℕ

-- One round of the first loop: the entry is dropped if the IP or the MAC address matches.
unfoldable pub evict : ℕ → ℕ → ArpEntry → ArpEntry
evict ipaddr macaddr e =
    let e' = if e.valid && e.ip == ipaddr then record e { valid = false } else e in
    if e'.valid && e'.mac == macaddr then record e' { valid = false } else e'

-- The second loop: the first entry that is not valid is written.
unfoldable pub fill : ℕ → ℕ → List ArpEntry → Option (List ArpEntry)
fill ipaddr macaddr [] = none
fill ipaddr macaddr (e ∷ list) =
    let rest = fill ipaddr macaddr list in
    if e.valid
    then elim rest [ none ↦ none | some list' ↦ some (e ∷ list') ]
    else some (record { ip = ipaddr; mac = macaddr; valid = true } ∷ list)

unfoldable pub arp_insert : ArpCache → ℕ → ℕ → Option (ℤ × ArpCache)
arp_insert arpcache ipaddr macaddr =
    let list = map (evict ipaddr macaddr) arpcache.list in
    if arpcache.count == length list
    then some (negsuc 0, record arpcache { list = list })
    else elim (fill ipaddr macaddr list) [
      | none ↦ none
      | some list' ↦ some (pos 0, record arpcache { list = list' })
    ]

-- The loop of `arp_getmacaddr`.
pub find_mac : ℕ → List ArpEntry → Option ℕ
find_mac ipaddr [] = none
find_mac ipaddr (e ∷ list) =
    let rest = find_mac ipaddr list in if e.valid && e.ip == ipaddr then some e.mac else rest

-- The address that is copied for a return of 0, or `none` for a return of -1.
pub arp_getmacaddr : ArpCache → ℕ → Option ℕ
arp_getmacaddr arpcache ipaddr = find_mac ipaddr arpcache.list
