-- ===== src/Peer/Collision.antt =====
-- Two hosts that connect to each other at once, in handle_incoming_connection of src/mesh.cpp: which
-- of the two connections each of them keeps.
use libpubsub.Base.{
  Bytes, Option, [], append_assoc, arith, codes, false, if_ind, if◌then◌else◌, ltb_ℤ, none, pos,
  refl, some, true, ℕ, ℤ, ◌++◌, ◌∙◌, ◌∷◌, ◌≡◌, ◌≢◌,
}
use libpubsub.Socket.{Socket, frame, close, remove_listeners}
use libpubsub.World.{World, set_host, set_socket_at}
use libpubsub.Mesh.{send, set_socket, new_incoming, place_host, remote_host}
use libpubsub.Peer.{resolve, replace_socket, drop_old, close_socket}
use libpubsub.Peer.Takes.{Adopted, Lasts, Takes, Takes-trans, set_socket-Takes, send-Takes}
use libpubsub.Peer.Welcome.{greeting, set_socket_lem, send_lem, place_host_lem}

-- A socket that is shut for good: its thread stops and does not dial again, and nobody hears of it.
abbrev pub IsShut : Socket → Type 0
IsShut s = (s.stop ≡ true) × (s.reconnect ≡ false)

ltb_ℤ_asym : (a b : ℤ) → ltb_ℤ a b ≡ true → ltb_ℤ b a ≡ false
ltb_ℤ_asym (pos m) b h = ground arith
ltb_ℤ_asym _ b h = ground arith

-- The socket is without listeners.
abbrev pub IsMute : Socket → Type 0
IsMute s = (s.on_open ≡ none) × (s.on_close ≡ none) × (s.cb_recv ≡ none)

-- The process once the old socket `old` of the host `h` is shut and the host is marked as a server.
marked : ℕ → ℕ → World → World
marked h old w =
    set_host h (record (w.host h) { server = true })
      (set_socket_at old (close true (remove_listeners (w.socket old))) w)

marked_lem :
    (h old : ℕ) (w : World)
    → (((marked h old w).host h).server ≡ true)
      × IsShut ((marked h old w).socket old)
      × IsMute ((marked h old w).socket old)
unfolding marked close remove_listeners
marked_lem h old w =
    (ground arith, (ground arith, ground arith), (ground arith, ground arith, ground arith))

marked_others : (h old s : ℕ) (w : World) → old ≢ s → (marked h old w).socket s ≡ w.socket s
unfolding marked
marked_others h old s w d = ground (arith, d)

drop_old-some :
    (o : Option ℕ) (old : ℕ) (w : World)
    → o ≡ some old
    → drop_old o w ≡ set_socket_at old (close true (remove_listeners (w.socket old))) w
unfolding drop_old
drop_old-some none old w e = cc
drop_old-some (some s) old w e = let same : s ≡ old = cc in rw same

answered : ℕ → ℕ → World → World
answered h s w =
    if ((set_socket h s w).host h).ready
    then set_socket h s w
    else send h (codes "CONNECTED") (set_socket h s w)

answered-Takes : (h s : ℕ) (w : World) → Takes h s w (answered h s w)
unfolding answered
answered-Takes h s w =
    let first = set_socket-Takes h s w in
    if_ind (Takes h s w) ((set_socket h s w).host h).ready (set_socket h s w)
      (send h (codes "CONNECTED") (set_socket h s w)) (λ _. first)
      (λ _.
        Takes-trans h s w _ _ first
          (send-Takes h s (codes "CONNECTED") (set_socket h s w) first.adopted))

replace_socket-answered :
    (h old s : ℕ) (w : World)
    → (w.host h).socket ≡ some old
    → replace_socket h s w ≡ answered h s (marked h old w)
unfolding replace_socket answered marked
replace_socket-answered h old s w e = rw (drop_old-some (w.host h).socket old w e)

-- The side with the lower number takes the incoming connection and shuts its own.
replace_socket_lem :
    (h old s : ℕ) (w : World)
    → (w.host h).socket ≡ some old
    → old ≢ s
    → Adopted h s (replace_socket h s w)
      × Lasts s w (replace_socket h s w)
      × (((replace_socket h s w).host h).server ≡ true)
      × IsShut ((replace_socket h s w).socket old)
      × IsMute ((replace_socket h s w).socket old)
replace_socket_lem h old s w e d =
    let (server, shut, mute) = marked_lem h old w in
    let t = answered-Takes h s (marked h old w) in
    rw (replace_socket-answered h old s w e) (
      t.adopted,
      rw (← marked_others h old s w d) t.lasts,
      t.same_server ∙ server,
      rw (t.others old d) shut,
      rw (t.others old d) mute,
    )

-- The side with the higher number shuts the incoming connection and changes nothing else.
close_socket_lem :
    (s : ℕ) (w : World)
    → ((close_socket s w).host ≡ w.host)
      × IsShut ((close_socket s w).socket s)
      × ((t : ℕ) → t ≢ s → (close_socket s w).socket t ≡ w.socket t)
unfolding close_socket close
close_socket_lem s w = (refl, (ground arith, ground arith), λ t d. ground arith)

-- Processes `a` and `b` have each dialled the other, neither marks the other's host as a server,
-- `a` has the lower number, and its own connection `old` is not the incoming one. When each reads
-- the other's ID line, `a`, which knows `b` as `hb`, takes the connection that `b` dialled: it is
-- the host's socket with the host's callbacks, runs, and is open, as far as it was before. `a` shuts
-- its own for good and without a listener; and `b`, which knows `a` as `ha`, shuts the connection
-- that `a` dialled and keeps every host and every other socket, the one that it dialled among them,
-- as it is.
pub resolve_collision :
    (a b : World) (hb ha old in_a in_b : ℕ) (ip_b ip_a : Bytes) (port_b port_a : ℤ)
    → ltb_ℤ a.id b.id ≡ true
    → (a.host hb).server ≡ false
    → (b.host ha).server ≡ false
    → (a.host hb).socket ≡ some old
    → old ≢ in_a
    → let a' = resolve (some hb) b.id ip_b port_b in_a a in
      let b' = resolve (some ha) a.id ip_a port_a in_b b in
      Adopted hb in_a a'
      × Lasts in_a a a'
      × IsShut (a'.socket old)
      × IsMute (a'.socket old)
      × (b'.host ≡ b.host)
      × IsShut (b'.socket in_b)
      × ((t : ℕ) → t ≢ in_b → b'.socket t ≡ b.socket t)
unfolding resolve
resolve_collision a b hb ha old in_a in_b ip_b ip_a port_b port_a lower sa sb own d =
    let (takes, lasts, _, shut, mute) = replace_socket_lem hb old in_a a own d in
    let (same, closed, rest) = close_socket_lem in_b b in
    rw (lower, ltb_ℤ_asym a.id b.id lower, sb) (takes, lasts, shut, mute, same, closed, rest)

-- What a process sends on a running accepted connection from an unknown address, in order: its own
-- ID line, the address under which it sees the peer, and "CONNECTED".
pub resolve_unknown-sent :
    (id : ℤ) (ip : Bytes) (port : ℤ) (s : ℕ) (w : World)
    → (w.socket s).stop ≡ false
    → ((resolve none id ip port s w).socket s).sent
      ≡ (w.socket s).sent ++ (greeting w s ++ (frame (codes "CONNECTED") ∷ []))
unfolding resolve new_incoming
resolve_unknown-sent id ip port s w running =
    let placed = place_host (remote_host ip port true) w in
    let (self, sockets, same_id) = place_host_lem (remote_host ip port true) w in
    let (own, runs, greeted) =
      set_socket_lem w.next_host s placed (rw self refl) (rw sockets running) in
    send_lem w.next_host s (codes "CONNECTED") (set_socket w.next_host s placed) own runs
    ∙ rw (greeted, sockets, same_id)
        (append_assoc (w.socket s).sent (greeting w s) (frame (codes "CONNECTED") ∷ []))
