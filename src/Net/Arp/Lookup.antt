-- ===== src/Net/Arp/Lookup.antt =====
-- What the two loops of `arp_insert` (myLoader/core/net.c) do to the entries that a lookup finds.
use porcelix.Prelude.{
  ℕ, suc, ◌≤◌, ◌≡◌, refl, inl, inr, ◌&&◌, Option, none, some, List, [], ◌∷◌, map, arith, ◌==◌,
  if◌then◌else◌, Bool-cases, Option-cases,
}
use porcelix.Net.Arp.{ArpEntry, evict, fill, find_mac}

-- How many valid entries have the IP address.
unfoldable pub hits : ℕ → List ArpEntry → ℕ
hits ip [] = 0
hits ip (e ∷ list) = if e.valid && e.ip == ip then suc (hits ip list) else hits ip list

-- What a lookup has left when the entries with a MAC address have been dropped.
abbrev pub forget : ℕ → Option ℕ → Option ℕ
forget mac none = none
forget mac (some m) = if m == mac then none else some m

pub find_mac-none : (ip : ℕ) (list : List ArpEntry) → hits ip list ≡ 0 → find_mac ip list ≡ none
unfolding hits find_mac
find_mac-none ip [] h = refl
find_mac-none ip (e ∷ list) h = ground (arith, find_mac-none ip list)

pub hits-evict :
    (ip mac x : ℕ) (list : List ArpEntry)
    → hits x (map (evict ip mac) list) ≤ (if x == ip then 0 else hits x list)
unfolding hits evict
hits-evict ip mac x [] = omega arith
hits-evict ip mac x (e ∷ list) = ground (arith, hits-evict ip mac x list)

-- Where an address has one entry at most, the first loop forgets what has the MAC address.
pub find_mac-evict :
    (ip mac x : ℕ) (list : List ArpEntry)
    → hits x list ≤ 1
    → find_mac x (map (evict ip mac) list)
      ≡ (if x == ip then none else forget mac (find_mac x list))
unfolding hits evict find_mac
find_mac-evict ip mac x [] h = ground arith
find_mac-evict ip mac x (e ∷ list) h = elim (Bool-cases (e.valid && e.ip == x)) [
  | inl hit ↦
      let rest : hits x list ≡ 0 = ground arith in
      ground (arith, find_mac-evict ip mac x list (omega arith), find_mac-none x list rest)
  | inr miss ↦
      let rest : hits x list ≤ 1 = ground arith in ground (arith, find_mac-evict ip mac x list rest)
]

pub fill-find_mac :
    (ip mac x : ℕ) (list list' : List ArpEntry)
    → fill ip mac list ≡ some list'
    → hits ip list ≡ 0
    → find_mac x list' ≡ (if x == ip then some mac else find_mac x list)
unfolding hits fill find_mac
fill-find_mac ip mac x [] list' h z = cc
fill-find_mac ip mac x (e ∷ list) list' h z = elim (Option-cases (fill ip mac list)) [
  | inl full ↦ ground (arith, h, full)
  | inr (l, done) ↦ ground (arith, h, done, fill-find_mac ip mac x list l done (ground arith))
]

pub fill-hits :
    (ip mac x : ℕ) (list list' : List ArpEntry)
    → fill ip mac list ≡ some list'
    → hits x list' ≡ (if x == ip then suc (hits x list) else hits x list)
unfolding hits fill
fill-hits ip mac x [] list' h = cc
fill-hits ip mac x (e ∷ list) list' h = elim (Option-cases (fill ip mac list)) [
  | inl full ↦ ground (arith, h, full)
  | inr (l, done) ↦ ground (arith, h, done, fill-hits ip mac x list l done)
]
