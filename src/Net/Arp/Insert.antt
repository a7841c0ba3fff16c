-- ===== src/Net/Arp/Insert.antt =====
-- `arp_insert` of myLoader/core/net.c as an update of the map from IP to MAC addresses.
use porcelix.Prelude.{
  ℕ, zero, suc, ◌≤◌, ◌≡◌, refl, ◌≢◌, inl, inr, ◌↔◌, true, false, Option, none, some, List, [], ◌∷◌,
  map, arith, ◌==◌, if◌then◌else◌, length, length-map, get_elem?, ap, ◌∙◌, Bool-cases, Option-cases,
}
use porcelix.Prelude.Int.{ℤ, pos, negsuc}
use porcelix.Net.Arp.{ArpEntry, ArpCache, evict, fill, arp_insert, arp_getmacaddr}
use porcelix.Net.Arp.Lookup.{hits, forget, hits-evict, find_mac-evict, fill-find_mac, fill-hits}

-- Every IP address has one valid entry at most.
abbrev pub IsUnique : ArpCache → Type 0
IsUnique c = (x : ℕ) → hits x c.list ≤ 1

list_of : Option (ℤ × ArpCache) → Option (List ArpEntry)
list_of none = none
list_of (some (ret, c)) = some c.list

-- What a call that succeeds has written.
insert_list :
    (c c' : ArpCache) (ip mac : ℕ)
    → arp_insert c ip mac ≡ some (pos 0, c')
    → fill ip mac (map (evict ip mac) c.list) ≡ some c'.list
unfolding arp_insert list_of
insert_list c c' ip mac h = elim (Bool-cases (c.count == length (map (evict ip mac) c.list))) [
  | inl full ↦ ground (arith, h, full)
  | inr room ↦ elim (Option-cases (fill ip mac (map (evict ip mac) c.list))) [
    | inl miss ↦ ground (arith, h, room, miss)
    | inr (l, done) ↦ done ∙ rw (room, done) at (ap list_of h)
  ]
]

-- A call of `arp_insert` that returns 0 on a cache in which every IP address has one valid entry at
-- most keeps that so. Afterwards `arp_getmacaddr` finds the new MAC address for the new IP address;
-- for every other IP address it finds what it found before, unless that was the new MAC address:
-- then it finds nothing.
pub arp_insert-arp_getmacaddr :
    (c c' : ArpCache) (ip mac : ℕ)
    → IsUnique c
    → arp_insert c ip mac ≡ some (pos 0, c')
    → IsUnique c'
      × ((x : ℕ)
          → arp_getmacaddr c' x ≡ (if x == ip then some mac else forget mac (arp_getmacaddr c x)))
unfolding arp_getmacaddr
arp_insert-arp_getmacaddr c c' ip mac u h =
    let list = map (evict ip mac) c.list in
    let done = insert_list c c' ip mac h in
    let gone : hits ip list ≡ 0 = ground (arith, hits-evict ip mac ip c.list) in
    (
      λ x.
          ground
            (arith, fill-hits ip mac x list c'.list done, hits-evict ip mac x c.list, u x, gone),
      λ x. ground (
        arith,
        fill-find_mac ip mac x list c'.list done gone,
        find_mac-evict ip mac x c.list (u x),
      ),
    )

-- The entry stays valid in the first loop.
abbrev pub IsKept : ℕ → ℕ → ArpEntry → Type 0
IsKept ip mac e = (e.valid ≡ true) × (e.ip ≢ ip) × (e.mac ≢ mac)

fill_full :
    (ip mac : ℕ) (list : List ArpEntry)
    → fill ip mac (map (evict ip mac) list) ≡ none
    → (k : ℕ) (e : ArpEntry) → get_elem? list k ≡ some e
    → IsKept ip mac e
unfolding fill evict
fill_full ip mac [] h k e at = cc
fill_full ip mac (d ∷ list) h zero e at = first (ground arith)
  where
    kept : IsKept ip mac d
    kept = ground arith

    first : d ≡ e → IsKept ip mac e
    first same = rw same at kept
fill_full ip mac (d ∷ list) h (suc k) e at =
    let rest : fill ip mac (map (evict ip mac) list) ≡ none =
      elim (Option-cases (fill ip mac (map (evict ip mac) list))) [
        | inl full ↦ full
        | inr (l, done) ↦ ground (arith, done)
      ] in
    fill_full ip mac list rest k e at

fill_full_back :
    (ip mac : ℕ) (list : List ArpEntry)
    → ((k : ℕ) (e : ArpEntry) → get_elem? list k ≡ some e → IsKept ip mac e)
    → fill ip mac (map (evict ip mac) list) ≡ none
unfolding fill evict
fill_full_back ip mac [] h = refl
fill_full_back ip mac (d ∷ list) h =
    let (valid, other, apart) = h zero d refl in
    let rest = fill_full_back ip mac list (λ k. h (suc k)) in ground arith

-- Where `count` is not the length of the list, which holds in a cache that has only been set up and
-- inserted into, `arp_insert` dies exactly when every entry is valid and has neither the IP nor the
-- MAC address; it never returns the -1 of its test for a full cache.
pub arp_insert_dies :
    (c : ArpCache) (ip mac : ℕ)
    → c.count ≢ length c.list
    → ((arp_insert c ip mac ≡ none)
        ↔ ((k : ℕ) (e : ArpEntry) → get_elem? c.list k ≡ some e → IsKept ip mac e))
      × ((c' : ArpCache) → arp_insert c ip mac ≢ some (negsuc 0, c'))
unfolding arp_insert
arp_insert_dies c ip mac n =
    let list = map (evict ip mac) c.list in
    let room : (c.count == length list) ≡ false =
      ground (arith, length-map c.list (evict ip mac)) in
    elim (Option-cases (fill ip mac list)) [
      | inl full ↦ (
        (λ h. fill_full ip mac c.list full, λ h. rw (room, full) refl),
        λ c' h. ground (arith, h, room, full),
      )
      | inr (l, done) ↦ (
        (
          λ h. absurd (ground (arith, h, room, done)),
          λ h. absurd (ground (arith, done, fill_full_back ip mac c.list h)),
        ),
        λ c' h. ground (arith, h, room, done),
      )
    ]
