-- ===== src/Mesh/Broadcast.antt =====
-- Which bytes Host::send and Host::broadcast of src/mesh.cpp put on which socket.
use libpubsub.Base.{
  Bool, Bool-cases, Bytes, List, Option, [], append-nil, append_assoc, arith, drop, false,
  if◌then◌else◌, inl, inr, none, not, refl, some, ℕ, ◌&&◌, ◌++◌, ◌==◌, ◌∷◌, ◌≡◌,
}
use libpubsub.Socket.{frame, write}
use libpubsub.World.{World}
use libpubsub.Mesh.Quiet.{Quiet, send-Quiet, send_ready_idle, send_ready_busy}
use libpubsub.Mesh.{send, send_ready, broadcast}

-- A socket pointer names the socket `s`, and that socket runs.
hits : World → ℕ → Option ℕ → Bool
hits w s none = false
hits w s (some t) = t == s && not (w.socket t).stop

-- Host::send of a host reaches the socket `s`: it is the host's, and it runs.
pub reaches : World → ℕ → ℕ → Bool
unfolding hits
reaches w s h = hits w s (w.host h).socket

-- What a broadcast to the listed hosts adds to the socket `s`: one frame for each ready host that
-- reaches it.
pub added : Bytes → World → ℕ → List ℕ → List Bytes
unfolding reaches
added msg w s [] = []
added msg w s (h ∷ hs) =
    let rest = added msg w s hs in
    if (w.host h).ready && reaches w s h then frame msg ∷ rest else rest

send-sent :
    (h : ℕ) (msg : Bytes) (w : World) (s : ℕ)
    → ((send h msg w).socket s).sent
      ≡ (w.socket s).sent ++ (if reaches w s h then frame msg ∷ [] else [])
unfolding send reaches write
send-sent h msg w s = ground (arith, append-nil (w.socket s).sent)

hits-Quiet : (w w' : World) → Quiet w w' → (s : ℕ) (o : Option ℕ) → hits w' s o ≡ hits w s o
unfolding hits
hits-Quiet w w' q s none = refl
hits-Quiet w w' q s (some t) = rw (q.same_stop t)

reaches-Quiet : (w w' : World) → Quiet w w' → (s h : ℕ) → reaches w' s h ≡ reaches w s h
unfolding reaches
reaches-Quiet w w' q s h = rw q.same_host (hits-Quiet w w' q s (w.host h).socket)

added-Quiet :
    (w w' : World)
    → Quiet w w'
    → (msg : Bytes) (s : ℕ) (hs : List ℕ) → added msg w' s hs ≡ added msg w s hs
unfolding added
added-Quiet w w' q msg s [] = refl
added-Quiet w w' q msg s (h ∷ hs) =
    rw (reaches-Quiet w w' q s h, added-Quiet w w' q msg s hs, q.same_host)

send_ready-sent :
    (hs : List ℕ) (msg : Bytes) (w : World) (s : ℕ)
    → ((send_ready hs msg w).socket s).sent ≡ (w.socket s).sent ++ added msg w s hs
unfolding added
send_ready-sent [] msg w s = unfold send_ready in ground (arith, append-nil (w.socket s).sent)
send_ready-sent (h ∷ hs) msg w s = elim (Bool-cases (w.host h).ready) [
  | inl e ↦
      rw
        (
          send_ready_busy h hs msg w e,
          send_ready-sent hs msg (send h msg w) s,
          send-sent h msg w s,
          added-Quiet w (send h msg w) (send-Quiet h msg w) msg s hs,
        )
        (ground (
          arith,
          append_assoc (w.socket s).sent (frame msg ∷ []) (added msg w s hs),
          append-nil (w.socket s).sent,
        ))
  | inr e ↦ rw (send_ready_idle h hs msg w e, send_ready-sent hs msg w s, e)
]

-- A broadcast adds to each socket one frame for every ready host behind the first whose running
-- socket it is, and nothing to any other socket.
pub broadcast-sent :
    (msg : Bytes) (w : World) (s : ℕ)
    → ((broadcast msg w).socket s).sent ≡ (w.socket s).sent ++ added msg w s (drop 1 w.hosts)
unfolding broadcast
broadcast-sent msg w s = send_ready-sent (drop 1 w.hosts) msg w s

-- Only hosts and sockets decide what a broadcast adds.
pub added-cong :
    (w w' : World)
    → w'.host ≡ w.host
    → w'.socket ≡ w.socket
    → (msg : Bytes) (s : ℕ) (hs : List ℕ) → added msg w' s hs ≡ added msg w s hs
unfolding added reaches hits
added-cong w w' h k msg s [] = refl
added-cong w w' h k msg s (g ∷ hs) = rw (h, k, added-cong w w' h k msg s hs)
