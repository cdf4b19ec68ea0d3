-- ===== src/Mesh/Distinct.antt =====
-- The hosts that src/mesh.cpp registers have distinct addresses, as long as no message changes the
-- address of one of them.
use libpubsub.Base.{
  All, Bytes, List, Option-cases, [], arith, eq_ℤ_iff, equal_iff, false, inl, inr, none, refl, some,
  true, ℕ, ℤ, ◌++◌, ◌<◌, ◌∙◌, ◌∷◌, ◌≡◌,
}
use libpubsub.World.{Host, World, ok, Env, dialled, update}
use libpubsub.Mesh.{has_address, find_host, get_host, has_host, add_host, new_incoming, remote_host}
use libpubsub.Mesh.Registry.{
  Added, add_host-Added, new_incoming-Added, get_host-Added, Allocated-Added, fresh_at,
  get_host-Added_other,
}
use libpubsub.Mesh.Lookup.{
  SameAddresses, Allocated, find_host-SameAddresses, find_host-append, find_host-update,
}

-- No two hosts of the list have one address: none of them is found again behind its place.
abbrev pub Distinct : (ℕ → Host) → List ℕ → Type 0
Distinct heap [] = Unit {0}
Distinct heap (h ∷ hs) = (find_host heap (heap h).ip (heap h).port hs ≡ none) × Distinct heap hs

Distinct-cong : (f g : ℕ → Host) → SameAddresses f g → (hs : List ℕ) → Distinct f hs → Distinct g hs
Distinct-cong f g e [] d = tt
Distinct-cong f g e (h ∷ hs) d = (
  rw ((e h).0, (e h).1, find_host-SameAddresses f g e (f h).ip (f h).port hs) d.0,
  Distinct-cong f g e hs d.1,
)

has_address_sym :
    (a b : Host) → has_address a.ip a.port b ≡ false → has_address b.ip b.port a ≡ false
unfolding has_address
has_address_sym a b h = ground (
  arith,
  equal_iff a.ip b.ip,
  equal_iff b.ip a.ip,
  eq_ℤ_iff a.port b.port,
  eq_ℤ_iff b.port a.port,
)

find_host_head :
    (heap : ℕ → Host) (ip : Bytes) (port : ℤ) (h : ℕ) (hs : List ℕ)
    → find_host heap ip port (h ∷ hs) ≡ none
    → (has_address ip port (heap h) ≡ false) × (find_host heap ip port hs ≡ none)
unfolding find_host
find_host_head heap ip port h hs e = ground arith

Distinct-append :
    (heap : ℕ → Host) (n : ℕ) (hs : List ℕ)
    → Distinct heap hs
    → find_host heap (heap n).ip (heap n).port hs ≡ none
    → Distinct heap (hs ++ (n ∷ []))
Distinct-append heap n [] d e = (unfold find_host in refl, tt)
Distinct-append heap n (h ∷ hs) d e =
    let (differs, absent) = find_host_head heap (heap n).ip (heap n).port h hs e in
    let differs' = has_address_sym (heap n) (heap h) differs in
    (
      find_host-append heap (heap h).ip (heap h).port n hs d.0 ∙ rw differs',
      Distinct-append heap n hs d.1 absent,
    )

Distinct-update :
    (heap : ℕ → Host) (n : ℕ) (v : Host) (hs : List ℕ)
    → All (λ h. h < n) hs
    → Distinct heap hs
    → Distinct (update heap n v) hs
Distinct-update heap n v [] a d = tt
Distinct-update heap n v (h ∷ hs) a d =
    let old : update heap n v h ≡ heap h = ground arith in
    (
      rw old (find_host-update heap n v (heap h).ip (heap h).port hs a.1 ∙ d.0),
      Distinct-update heap n v hs a.1 d.1,
    )

-- The registered hosts are allocated and have distinct addresses.
abbrev pub IsRegistry : World → Type 0
IsRegistry w = Allocated w × Distinct w.host w.hosts

Added-IsRegistry :
    (v : Host) (w w' : World)
    → IsRegistry w
    → get_host v.ip v.port w ≡ none
    → Added v w w'
    → IsRegistry w'
unfolding get_host
Added-IsRegistry v w w' (a, d) h added =
    let heap = update w.host w.next_host v in
    let self = fresh_at v w w' a added in
    let absent = find_host-update w.host w.next_host v v.ip v.port w.hosts a ∙ h in
    let distinct =
      Distinct-append heap w.next_host w.hosts (Distinct-update w.host w.next_host v w.hosts a d)
        (rw self absent) in
    (
      Allocated-Added v w w' a added,
      rw added.at_end
          (Distinct-cong heap w'.host added.addresses (w.hosts ++ (w.next_host ∷ [])) distinct),
    )

add_host_known :
    (e : Env) (ip : Bytes) (port : ℤ) (w : World) (h : ℕ)
    → get_host ip port w ≡ some h
    → add_host e ip port w ≡ ok w
unfolding add_host has_host
add_host_known e ip port w h k = rw (k, has_host)

-- In a process whose registered hosts are allocated and have distinct addresses, add_host of an
-- address whose name resolves returns. The hosts still have distinct addresses, the address is
-- registered, every other address is found as before, and a second call with the address finds the
-- host and changes nothing.
pub add_host-registered :
    (e f : Env) (ip : Bytes) (port : ℤ) (w : World)
    → IsRegistry w
    → e.dial ip ≡ dialled
    → (w' : World) × (add_host e ip port w ≡ ok w')
      × IsRegistry w'
      × ((h : ℕ) × (get_host ip port w' ≡ some h))
      × ((ip' : Bytes) (port' : ℤ)
          → has_address ip' port' (remote_host ip port false) ≡ false
          → get_host ip' port' w' ≡ get_host ip' port' w)
      × (add_host f ip port w' ≡ ok w')
add_host-registered e f ip port w r d = elim (Option-cases (get_host ip port w)) [
  | inr (h, found) ↦ (
    w,
    add_host_known e ip port w h found,
    r,
    (h, found),
    (λ ip' port' other. refl),
    add_host_known f ip port w h found,
  )
  | inl absent ↦
      let v = remote_host ip port false in
      let (w', k, added) = add_host-Added e ip port w r.0 absent d in
      let found = get_host-Added v w w' r.0 added absent in
      (
        w',
        k,
        Added-IsRegistry v w w' r absent added,
        (w.next_host, found),
        get_host-Added_other v w w' r.0 added,
        add_host_known f ip port w' w.next_host found,
      )
]

-- In a process whose registered hosts are allocated and have distinct addresses, a host for an
-- accepted connection from an unknown address keeps the addresses distinct and is found under its
-- own.
pub new_incoming-IsRegistry :
    (ip : Bytes) (port : ℤ) (s : ℕ) (w : World)
    → IsRegistry w
    → get_host ip port w ≡ none
    → IsRegistry (new_incoming ip port s w)
      × (get_host ip port (new_incoming ip port s w) ≡ some w.next_host)
new_incoming-IsRegistry ip port s w r h =
    let v = remote_host ip port true in
    let added = new_incoming-Added ip port s w r.0 h in
    (Added-IsRegistry v w _ r h added, get_host-Added v w _ r.0 added h)
