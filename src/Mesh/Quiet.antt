-- ===== src/Mesh/Quiet.antt =====
-- Sending, in src/mesh.cpp, changes nothing of the process but what its sockets have sent.
use libpubsub.Base.{
  Bool-cases, Bytes, List, Option, [], arith, drop, false, if_ind, inl, inr, none, refl, some, true,
  ℕ, ◌∙◌, ◌∷◌, ◌≡◌,
}
use libpubsub.Socket.{write}
use libpubsub.World.{World, socket_write}
use libpubsub.Mesh.{send_on, send, send_ready, broadcast}

-- Only what the sockets have sent differs.
pub record Quiet (w w' : World) : Type 0 where
  pub same_host : w'.host ≡ w.host
  pub same_hosts : w'.hosts ≡ w.hosts
  pub same_next_host : w'.next_host ≡ w.next_host
  pub same_next_channel : w'.next_channel ≡ w.next_channel
  pub same_channel : w'.channel ≡ w.channel
  pub same_channels : w'.channels ≡ w.channels
  pub same_subscription : w'.subscription ≡ w.subscription
  pub same_next_subscription : w'.next_subscription ≡ w.next_subscription
  pub same_stop : (s : ℕ) → (w'.socket s).stop ≡ (w.socket s).stop

pub Quiet-refl : (w : World) → Quiet w w
Quiet-refl w = record {
  same_host = refl;
  same_hosts = refl;
  same_next_host = refl;
  same_next_channel = refl;
  same_channel = refl;
  same_channels = refl;
  same_subscription = refl;
  same_next_subscription = refl;
  same_stop = λ s. refl;
}

pub Quiet-trans : {u v w : World} → Quiet u v → Quiet v w → Quiet u w
Quiet-trans p q = record {
  same_host = q.same_host ∙ p.same_host;
  same_hosts = q.same_hosts ∙ p.same_hosts;
  same_next_host = q.same_next_host ∙ p.same_next_host;
  same_next_channel = q.same_next_channel ∙ p.same_next_channel;
  same_channel = q.same_channel ∙ p.same_channel;
  same_channels = q.same_channels ∙ p.same_channels;
  same_subscription = q.same_subscription ∙ p.same_subscription;
  same_next_subscription = q.same_next_subscription ∙ p.same_next_subscription;
  same_stop = λ s. q.same_stop s ∙ p.same_stop s;
}

socket_write-Quiet : (t : ℕ) (msg : Bytes) (w : World) → Quiet w (socket_write t msg w)
unfolding socket_write write
socket_write-Quiet t msg w = record {
  same_host = refl;
  same_hosts = refl;
  same_next_host = refl;
  same_next_channel = refl;
  same_channel = refl;
  same_channels = refl;
  same_subscription = refl;
  same_next_subscription = refl;
  same_stop = λ s. ground arith;
}

send_on-Quiet : (o : Option ℕ) (msg : Bytes) (w : World) → Quiet w (send_on o msg w)
unfolding send_on
send_on-Quiet none msg w = Quiet-refl w
send_on-Quiet (some t) msg w =
    if_ind (Quiet w) (w.socket t).stop _ _ (λ _. Quiet-refl w) (λ _. socket_write-Quiet t msg w)

pub send-Quiet : (h : ℕ) (msg : Bytes) (w : World) → Quiet w (send h msg w)
unfolding send
send-Quiet h msg w = send_on-Quiet (w.host h).socket msg w

pub send_ready_idle :
    (h : ℕ) (hs : List ℕ) (msg : Bytes) (w : World)
    → (w.host h).ready ≡ false
    → send_ready (h ∷ hs) msg w ≡ send_ready hs msg w
unfolding send_ready
send_ready_idle h hs msg w e = rw e

pub send_ready_busy :
    (h : ℕ) (hs : List ℕ) (msg : Bytes) (w : World)
    → (w.host h).ready ≡ true
    → send_ready (h ∷ hs) msg w ≡ send_ready hs msg (send h msg w)
unfolding send_ready
send_ready_busy h hs msg w e = rw e

send_ready-Quiet : (hs : List ℕ) (msg : Bytes) (w : World) → Quiet w (send_ready hs msg w)
send_ready-Quiet [] msg w = unfold send_ready in Quiet-refl w
send_ready-Quiet (h ∷ hs) msg w = elim (Bool-cases (w.host h).ready) [
  | inl e ↦
      rw (send_ready_busy h hs msg w e)
        (Quiet-trans (send-Quiet h msg w) (send_ready-Quiet hs msg (send h msg w)))
  | inr e ↦ rw (send_ready_idle h hs msg w e) (send_ready-Quiet hs msg w)
]

pub broadcast-Quiet : (msg : Bytes) (w : World) → Quiet w (broadcast msg w)
unfolding broadcast
broadcast-Quiet msg w = send_ready-Quiet (drop 1 w.hosts) msg w
