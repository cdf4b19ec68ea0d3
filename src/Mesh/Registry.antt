-- ===== src/Mesh/Registry.antt =====
-- The vector `hosts` of src/mesh.cpp: what add_host and an incoming connection add to it, and how
-- get_host finds it again.
use libpubsub.Base.{
  All, Bytes, List, Option-cases, [], arith, false, inl, inr, none, refl, some, suc, sym, true, ℕ,
  ℤ, ◌++◌, ◌<◌, ◌∙◌, ◌∷◌, ◌≡◌,
}
use libpubsub.World.{Host, World, ok, Env, dialled, update, set_socket_at}
use libpubsub.Socket.{connected}
use libpubsub.Mesh.{
  has_address, find_host, get_host, has_host, push_host, place_host, remote_host, set_socket,
  adopt_socket, welcome, welcome_on, fresh_socket, connect_socket, new_remote, new_incoming,
  add_host,
}
use libpubsub.Mesh.Lookup.{
  has_address_self, SameAddresses, find_host-SameAddresses, Allocated, find_host-update,
  find_host-append, find_host-append_some,
}

-- `w'` has one more host than `w`, at the next address and at the end of the vector.
pub record Added (v : Host) (w w' : World) : Type 0 where
  pub at_end : w'.hosts ≡ w.hosts ++ (w.next_host ∷ [])
  pub addresses : SameAddresses (update w.host w.next_host v) w'.host
  pub next : w'.next_host ≡ suc w.next_host

place_host-Added :
    (v : Host) (w : World)
    → Allocated w
    → get_host v.ip v.port w ≡ none
    → Added v w (place_host v w)
unfolding place_host push_host has_host get_host
place_host-Added v w a h = record {
  at_end = ground (arith, find_host-update w.host w.next_host v v.ip v.port w.hosts a);
  addresses = λ g. (ground arith, ground arith);
  next = ground arith;
}

set_socket-SameAddresses : (h s : ℕ) (w : World) → SameAddresses w.host (set_socket h s w).host
unfolding set_socket adopt_socket welcome welcome_on
set_socket-SameAddresses h s w g = (ground arith, ground arith)

set_socket_hosts : (h s : ℕ) (w : World) → (set_socket h s w).hosts ≡ w.hosts
unfolding set_socket adopt_socket welcome welcome_on
set_socket_hosts h s w = ground arith

set_socket_next : (h s : ℕ) (w : World) → (set_socket h s w).next_host ≡ w.next_host
unfolding set_socket adopt_socket welcome welcome_on
set_socket_next h s w = ground arith

pub SameAddresses-trans :
    (f g k : ℕ → Host) → SameAddresses f g → SameAddresses g k → SameAddresses f k
SameAddresses-trans f g k p q h = ((q h).0 ∙ (p h).0, (q h).1 ∙ (p h).1)

-- Later steps of a constructor that leave the vector and the addresses.
Added-step :
    (v : Host) (w w' w'' : World)
    → Added v w w'
    → SameAddresses w'.host w''.host
    → w''.hosts ≡ w'.hosts
    → w''.next_host ≡ w'.next_host
    → Added v w w''
Added-step v w w' w'' a s h n = record {
  at_end = h ∙ a.at_end;
  addresses = SameAddresses-trans (update w.host w.next_host v) w'.host w''.host a.addresses s;
  next = n ∙ a.next;
}

set_socket-Added :
    (v : Host) (h s : ℕ) (w w' : World) → Added v w w' → Added v w (set_socket h s w')
set_socket-Added v h s w w' a =
    Added-step v w w' (set_socket h s w') a (set_socket-SameAddresses h s w')
      (set_socket_hosts h s w') (set_socket_next h s w')

fresh_socket-Added : (v : Host) (w w' : World) → Added v w w' → Added v w (fresh_socket w')
unfolding fresh_socket
fresh_socket-Added v w w' a = Added-step v w w' _ a (λ h. (refl, refl)) refl refl

-- An accepted connection from an unknown address registers one host.
pub new_incoming-Added :
    (ip : Bytes) (port : ℤ) (s : ℕ) (w : World)
    → Allocated w
    → get_host ip port w ≡ none
    → Added (remote_host ip port true) w (new_incoming ip port s w)
unfolding new_incoming
new_incoming-Added ip port s w a h =
    set_socket-Added _ w.next_host s w _ (place_host-Added (remote_host ip port true) w a h)

-- The process before the socket of a new remote host is dialled.
pub prepared : Bytes → ℤ → World → World
prepared ip port w =
    set_socket w.next_host w.next_socket (fresh_socket (place_host (remote_host ip port false) w))

prepared-Added :
    (ip : Bytes) (port : ℤ) (w : World)
    → Allocated w
    → get_host ip port w ≡ none
    → Added (remote_host ip port false) w (prepared ip port w)
unfolding prepared
prepared-Added ip port w a h =
    set_socket-Added _ w.next_host w.next_socket w _
      (fresh_socket-Added _ w _ (place_host-Added (remote_host ip port false) w a h))

dial-Added :
    (v : Host) (e : Env) (s : ℕ) (ip : Bytes) (port : ℤ) (w w' : World)
    → Added v w w'
    → e.dial ip ≡ dialled
    → (w'' : World) × (connect_socket e s ip port w' ≡ ok w'') × Added v w w''
dial-Added v e s ip port w w' a d =
    let w'' = set_socket_at s (connected ip port (w'.socket s)) w' in
    (
      w'',
      unfold connect_socket in rw (d, connect_socket),
      Added-step v w w' w'' a (λ h. (refl, refl)) refl refl,
    )

pub add_host_unknown :
    (e : Env) (ip : Bytes) (port : ℤ) (w : World)
    → get_host ip port w ≡ none
    → add_host e ip port w ≡ connect_socket e w.next_socket ip port (prepared ip port w)
unfolding add_host has_host new_remote prepared
add_host_unknown e ip port w h = rw (h, has_host)

-- add_host of an unknown address whose name resolves registers one host.
pub add_host-Added :
    (e : Env) (ip : Bytes) (port : ℤ) (w : World)
    → Allocated w
    → get_host ip port w ≡ none
    → e.dial ip ≡ dialled
    → (w' : World) × (add_host e ip port w ≡ ok w') × Added (remote_host ip port false) w w'
add_host-Added e ip port w a h d =
    let (w', r, added) =
      dial-Added _ e w.next_socket ip port w (prepared ip port w) (prepared-Added ip port w a h)
        d in
    (w', add_host_unknown e ip port w h ∙ r, added)

module _ (v : Host) (w w' : World) (a : Allocated w) (added : Added v w w') where
  find-Added :
      (ip : Bytes) (port : ℤ)
      → get_host ip port w'
        ≡ find_host (update w.host w.next_host v) ip port (w.hosts ++ (w.next_host ∷ []))
  unfolding get_host
  find-Added ip port =
      rw added.at_end
        (find_host-SameAddresses (update w.host w.next_host v) w'.host added.addresses ip port _)

  pub fresh_at : (update w.host w.next_host v) w.next_host ≡ v
  fresh_at = ground arith

  -- The new host is found under its address.
  pub get_host-Added : get_host v.ip v.port w ≡ none → get_host v.ip v.port w' ≡ some w.next_host
  unfolding get_host
  get_host-Added h =
      find-Added v.ip v.port
      ∙ find_host-append (update w.host w.next_host v) v.ip v.port w.next_host w.hosts
          (find_host-update w.host w.next_host v v.ip v.port w.hosts a ∙ h)
      ∙ rw (fresh_at, has_address_self v)

  -- Every other host is found as before.
  pub get_host-Added_other :
      (ip : Bytes) (port : ℤ)
      → has_address ip port v ≡ false
      → get_host ip port w' ≡ get_host ip port w
  unfolding get_host
  get_host-Added_other ip port h =
      let old = find_host-update w.host w.next_host v ip port w.hosts a in
      let heap = update w.host w.next_host v in
      elim (Option-cases (find_host w.host ip port w.hosts)) [
        | inl e ↦
            find-Added ip port
            ∙ find_host-append heap ip port w.next_host w.hosts (old ∙ e)
            ∙ rw (fresh_at, h, e)
        | inr (g, e) ↦
            find-Added ip port
            ∙ find_host-append_some heap ip port w.next_host g w.hosts (old ∙ e)
            ∙ sym e
      ]

  pub Allocated-Added : Allocated w'
  Allocated-Added = rw (added.at_end, added.next) (below w.hosts a)
    where
      below :
          (hs : List ℕ)
          → All (λ h. h < w.next_host) hs
          → All (λ h. h < suc w.next_host) (hs ++ (w.next_host ∷ []))
      below [] b = (omega arith, tt)
      below (h ∷ hs) b = (omega arith, below hs b.1)
