-- ===== src/Channel/Closing.antt =====
-- Closing one subscription of a channel (src/channel.cpp).
use libpubsub.Base.{Option, arith, false, none, refl, some, subst, sym, ℕ, ◌∙◌, ◌≡◌, ◌≢◌}
use libpubsub.Socket.{Socket, remove_listeners}
use libpubsub.Socket
use libpubsub.World.Kept.{ok_injective}
use libpubsub.World.{
  World, Subscription, ok, fault, deleted, tcp, vector_remove, update, set_socket_at,
}
use libpubsub.Subscription.{deref, destroy, drop_listeners, on_close, shut, close_transport, close}

-- A subscription of the channel `c` that uses the socket `k` over TCP.
pub record IsOpen (w : World) (c s k : ℕ) (v : Subscription) : Type 0 where
  pub alive : w.subscription s ≡ some v
  pub of_channel : v.channel ≡ c
  pub over_tcp : v.transport ≡ tcp
  pub has_socket : v.socket ≡ some k

-- What closing the subscription `s` of the channel `c` leaves: it is deleted and off the vector, and
-- every other subscription is as before.
pub record Closes (c s : ℕ) (w w' : World) : Type 0 where
  pub off_vector : (w'.channel c).subscriptions ≡ vector_remove s (w.channel c).subscriptions
  pub deletes : w'.subscription ≡ update w.subscription s none

drop_listeners-some :
    (o : Option ℕ) (k : ℕ) (w : World)
    → o ≡ some k
    → drop_listeners o w ≡ ok (set_socket_at k (remove_listeners (w.socket k)) w)
unfolding drop_listeners
drop_listeners-some none k w e = cc
drop_listeners-some (some j) k w e = let same : j ≡ k = cc in rw same

shut-some :
    (o : Option ℕ) (k : ℕ) (w : World)
    → o ≡ some k
    → shut o w ≡ ok (set_socket_at k (Socket.close false (remove_listeners (w.socket k))) w)
unfolding shut
shut-some none k w e = cc
shut-some (some j) k w e = let same : j ≡ k = cc in rw same

pub deref-some :
    (s : ℕ) (v : Subscription) (w : World) → w.subscription s ≡ some v → deref s w ≡ ok v
unfolding deref
deref-some s v w a = rw (a, deref)

pub deref-none : (s : ℕ) (w : World) → w.subscription s ≡ none → deref s w ≡ fault deleted
unfolding deref
deref-none s w a = rw (a, deref)

pub close_transport-tcp :
    (v : Subscription) (w : World) → v.transport ≡ tcp → close_transport v w ≡ shut v.socket w
unfolding close_transport
close_transport-tcp v w e = rw (e, close_transport)

-- The process after the socket `k` is shut, and then loses its callbacks once more.
shut_world : ℕ → World → World
shut_world k w = set_socket_at k (Socket.close false (remove_listeners (w.socket k))) w

mute_world : ℕ → World → World
mute_world k w = set_socket_at k (remove_listeners (w.socket k)) w

on_close_lem :
    (s k : ℕ) (v : Subscription) (w : World)
    → w.subscription s ≡ some v
    → v.socket ≡ some k
    → on_close s w ≡ ok (destroy s v (mute_world k w))
unfolding on_close mute_world
on_close_lem s k v w a e = rw (deref-some s v w a, drop_listeners-some v.socket k w e)

close_lem :
    (c s k : ℕ) (v : Subscription) (w : World)
    → IsOpen w c s k v
    → close s w ≡ ok (destroy s v (mute_world k (shut_world k w)))
unfolding close shut_world
close_lem c s k v w o =
    rw
      (
        deref-some s v w o.alive,
        close_transport-tcp v w o.over_tcp,
        shut-some v.socket k w o.has_socket,
      )
      (on_close_lem s k v (shut_world k w) o.alive o.has_socket)

destroy-Closes :
    (c s k : ℕ) (v : Subscription) (w : World)
    → v.channel ≡ c
    → Closes c s w (destroy s v (mute_world k (shut_world k w)))
unfolding destroy mute_world shut_world
destroy-Closes c s k v w e = record { off_vector = rw e (ground arith); deletes = refl }

-- Closing an open subscription succeeds.
pub close-Closes :
    (c s k : ℕ) (v : Subscription) (w : World)
    → IsOpen w c s k v
    → (w' : World) × (close s w ≡ ok w') × Closes c s w w'
close-Closes c s k v w o = (
  destroy s v (mute_world k (shut_world k w)),
  close_lem c s k v w o,
  destroy-Closes c s k v w o.of_channel,
)

-- It leaves every other socket.
pub close-others :
    (c s k j : ℕ) (v : Subscription) (w w' : World)
    → IsOpen w c s k v
    → close s w ≡ ok w'
    → j ≢ k
    → w'.socket j ≡ w.socket j
close-others c s k j v w w' o r ne =
    let result : destroy s v (mute_world k (shut_world k w)) ≡ w' =
      ok_injective (sym (close_lem c s k v w o) ∙ r) in
    subst (λ x. x.socket j ≡ w.socket j) result
      (unfold destroy mute_world shut_world in ground (arith, ne))

pub IsOpen-Closes :
    (c s t k : ℕ) (v : Subscription) (w w' : World)
    → t ≢ s
    → Closes c s w w'
    → IsOpen w c t k v
    → IsOpen w' c t k v
IsOpen-Closes c s t k v w w' ne g o = record {
  alive = let same = g.deletes in let was = o.alive in rw same (ground (arith, was, ne));
  of_channel = o.of_channel;
  over_tcp = o.over_tcp;
  has_socket = o.has_socket;
}

pub deleted-Closes : (c s : ℕ) (w w' : World) → Closes c s w w' → w'.subscription s ≡ none
deleted-Closes c s w w' g = rw g.deletes (ground arith)

-- Deletion is for good.
pub stays_deleted :
    (c s t : ℕ) (w w' : World)
    → Closes c s w w'
    → w.subscription t ≡ none
    → w'.subscription t ≡ none
stays_deleted c s t w w' g e = rw g.deletes (ground (arith, e))
