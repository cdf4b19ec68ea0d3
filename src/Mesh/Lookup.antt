-- ===== src/Mesh/Lookup.antt =====
-- Finding a host by its address in the vector `hosts` of src/mesh.cpp.
use libpubsub.Base.{
  All, Bytes, List, [], arith, eq_ℤ_iff, equal_iff, if◌then◌else◌, none, refl, some, true, ℕ, ℤ,
  ◌++◌, ◌<◌, ◌↔◌, ◌∷◌, ◌≡◌,
}
use libpubsub.World.{Host, World, update}
use libpubsub.Mesh.{has_address, find_host}

pub has_address_iff :
    (ip : Bytes) (port : ℤ) (h : Host)
    → (has_address ip port h ≡ true) ↔ ((h.ip ≡ ip) × (h.port ≡ port))
unfolding has_address
has_address_iff ip port h = ground (arith, equal_iff h.ip ip, eq_ℤ_iff h.port port)

pub has_address_self : (h : Host) → has_address h.ip h.port h ≡ true
has_address_self h = (has_address_iff h.ip h.port h).1 (refl, refl)

-- Two maps of hosts agree on addresses.
abbrev pub SameAddresses : (ℕ → Host) → (ℕ → Host) → Type 0
SameAddresses heap heap' = (h : ℕ) → ((heap' h).ip ≡ (heap h).ip) × ((heap' h).port ≡ (heap h).port)

pub find_host-SameAddresses :
    (heap heap' : ℕ → Host)
    → SameAddresses heap heap'
    → (ip : Bytes) (port : ℤ) (hs : List ℕ) → find_host heap' ip port hs ≡ find_host heap ip port hs
unfolding find_host has_address
find_host-SameAddresses heap heap' e ip port [] = refl
find_host-SameAddresses heap heap' e ip port (h ∷ hs) =
    rw ((e h).0, (e h).1, find_host-SameAddresses heap heap' e ip port hs)

-- Every registered host is an allocated object.
abbrev pub Allocated : World → Type 0
Allocated w = All (λ h. h < w.next_host) w.hosts

pub find_host-update :
    (heap : ℕ → Host) (n : ℕ) (v : Host) (ip : Bytes) (port : ℤ) (hs : List ℕ)
    → All (λ h. h < n) hs
    → find_host (update heap n v) ip port hs ≡ find_host heap ip port hs
unfolding find_host
find_host-update heap n v ip port [] a = refl
find_host-update heap n v ip port (h ∷ hs) a =
    ground (arith, find_host-update heap n v ip port hs a.1)

pub find_host-append :
    (heap : ℕ → Host) (ip : Bytes) (port : ℤ) (n : ℕ) (hs : List ℕ)
    → find_host heap ip port hs ≡ none
    → find_host heap ip port (hs ++ (n ∷ []))
      ≡ (if has_address ip port (heap n) then some n else none)
unfolding find_host
find_host-append heap ip port n [] e = refl
find_host-append heap ip port n (h ∷ hs) e = ground (arith, find_host-append heap ip port n hs)

pub find_host-append_some :
    (heap : ℕ → Host) (ip : Bytes) (port : ℤ) (n g : ℕ) (hs : List ℕ)
    → find_host heap ip port hs ≡ some g
    → find_host heap ip port (hs ++ (n ∷ [])) ≡ some g
unfolding find_host
find_host-append_some heap ip port n g [] e = cc
find_host-append_some heap ip port n g (h ∷ hs) e =
    ground (arith, find_host-append_some heap ip port n g hs)
