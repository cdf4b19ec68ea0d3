-- ===== src/Process/Writes.antt =====
-- Writing on a channel (src/channel.cpp, src/libpubsub.cpp) in a process that has been started and has
-- run.
use libpubsub.Base.{
  All, All-map, Bool, Bytes, List, Option, [], append-nil, codes, false, if_ind, if◌then◌else◌,
  none, not, pos, refl, some, sym, true, ℕ, ℤ, ◌+◌, ◌==◌, ◌∷◌, ◌≡◌,
}
use libpubsub.World.{World, Subscription, Result, ok, fault, thrown, Env}
use libpubsub.World.Kept.{OnOk-ok}
use libpubsub.World.Aside.{Aside, AsideOk}
use libpubsub.Socket.Ports.{find_port}
use libpubsub.Mesh.{new_loopback}
use libpubsub.Subscription
use libpubsub.Subscription.Links.{IsStream}
use libpubsub.Subscription.Quiet.{write-Aside, write_dma-Aside}
use libpubsub.Channel.{for_each}
use libpubsub.Channel
use libpubsub.Channel.Publisher.{Returns}
use libpubsub.Api.{start, init, Buffer, is_ptr, write_channel}
use libpubsub.Process.Moves.{
  Moves, MovesOk, MovesOk-if, MovesOk-after, Moves-refl, Moves-outer, outer, chained,
}
use libpubsub.Process.Hosts.{add_host-Moves}
use libpubsub.Process.Steps.{run-Moves}
use libpubsub.Process.Sound.Objects.{Owned, Owned-same}
use libpubsub.Process.Sound.{IsSound, Sound-Moves}
use libpubsub.Process.{Event, run}

-- What stands behind the guard of `connected` when the object has a socket.
guarded-Returns :
    (b : Bool) (t : ℕ) (msg : Bytes) (w : World)
    → Returns (if not b then ok w else Subscription.write_socket (some t) msg w)
unfolding Subscription.write_socket
guarded-Returns true t msg w = (_, refl)
guarded-Returns false t msg w = (w, refl)

write-Returns :
    (s : ℕ) (v : Subscription) (msg : Bytes) (w : World)
    → w.subscription s ≡ some v
    → IsStream v
    → Returns (Subscription.write s msg w)
unfolding Subscription.write Subscription.deref
write-Returns s v msg w e (t, (k, f)) =
    rw (e, Subscription.write, Subscription.deref, t, f) (guarded-Returns v.connected k msg w)

write_dma-Returns :
    (s : ℕ) (v : Subscription) (w : World)
    → w.subscription s ≡ some v
    → IsStream v
    → Returns (Subscription.write_dma s w)
unfolding Subscription.write_dma Subscription.deref
write_dma-Returns s v w e (t, (k, f)) =
    rw (e, Subscription.write_dma, Subscription.deref, t, f) (guarded-Returns v.connected k [] w)

-- A loop over objects that are there, where no turn touches an object.
for_each-Returns :
    (f : ℕ → World → Result World) (role : ℕ → Bool) (c : ℕ) (ss : List ℕ) (w : World)
    → ((s : ℕ) (v : Subscription) (w : World)
        → w.subscription s ≡ some v
        → IsStream v
        → Returns (f s w))
    → ((s : ℕ) (w : World) → AsideOk w (f s w))
    → All (Owned role true w c) ss
    → Returns (for_each f ss w)
unfolding for_each
for_each-Returns f role c [] w returns aside all = (w, refl)
for_each-Returns f role c (s ∷ ss) w returns aside (p, all) =
    let (v, live, k, stream) = p.object in
    let (w', e) = returns s v w live (stream refl) in
    let a = OnOk-ok (Aside w) (f s w) (aside s w) e in
    let (u, later) =
      for_each-Returns f role c ss w' returns aside
        (All-map (Owned-same a.same_subscription a.same_next_subscription c) ss all) in
    (u, rw e later)

write_channel-Returns :
    (s : Buffer) (msg : Bytes) (c : ℕ) (w : World) → IsSound w → Returns (write_channel s msg c w)
unfolding write_channel Channel.write Channel.write_dma
write_channel-Returns s msg c w (role, h) =
    if_ind Returns (is_ptr s (w.channel c).ptr) _ _
      (λ _.
        for_each-Returns Subscription.write_dma role c (w.channel c).subscriptors w
          write_dma-Returns write_dma-Aside (h c).1)
      (λ _.
        for_each-Returns (λ t. Subscription.write t msg) role c (w.channel c).subscriptors w
          (λ t v u. write-Returns t v msg u) (λ t u. write-Aside t msg u) (h c).1)

new_loopback-Moves : (port : ℤ) (w : World) → Moves w (new_loopback port w)
unfolding new_loopback
new_loopback-Moves port w = outer (record {
  more_hosts = (w.next_host ∷ [], refl);
  same_channel = refl;
  same_channels = refl;
  same_next_channel = refl;
  same_subscription = refl;
  same_next_subscription = refl;
})

start-Moves : (e : Env) (port : ℕ) (w : World) → MovesOk w (start e port w)
unfolding start
start-Moves e port w =
    MovesOk-after (start e port w)
      (chained
        (outer (record {
          more_hosts = ([], sym (append-nil w.hosts));
          same_channel = refl;
          same_channels = refl;
          same_next_channel = refl;
          same_subscription = refl;
          same_next_subscription = refl;
        }))
        (new_loopback-Moves (pos port) _))
      (MovesOk-if v (port == 12212) (ok v) _ (Moves-refl v) (add_host-Moves e _ _ v))
  where
    v : World
    v = new_loopback (pos port) (record w { signaling_port = pos port })

init-Moves : (e : Env) (random : ℤ) (w : World) → MovesOk w (init e random w)
unfolding init
init-Moves e random w = go (find_port e.can_bind 12212 (12212 + 64))
  where
    go :
        (o : Option ℕ)
        → MovesOk w (elim o [
          | none ↦ fault (thrown (codes "No free port"))
          | some port ↦ start e port (record w { id = random })
        ])
    go none = tt
    go (some port) =
        MovesOk-after (start e port v) (Moves-outer refl refl refl refl refl refl)
          (start-Moves e port v)
      where
        v : World
        v = record w { id = random }

-- Before `init` no channel has an object.
empty-IsSound :
    (w : World)
    → ((c : ℕ) → (w.channel c).subscriptions ≡ [])
    → ((c : ℕ) → (w.channel c).subscriptors ≡ [])
    → IsSound w
empty-IsSound w s t = (λ x. false, λ c. rw (s c, t c) (tt, tt))

-- In a process that `init` has started with no subscription and no subscriptor on any channel, after any
-- run of events that no fault ends, every write on a channel returns, of bytes and of shared memory, to
-- whatever subscriptors it has by then: no pointer that it uses is null and no object deleted.
pub run-write_channel-Returns :
    (e : Env) (random : ℤ) (events : List (Env × Event)) (s : Buffer) (msg : Bytes) (c : ℕ)
    (u w w' : World)
    → ((d : ℕ) → (u.channel d).subscriptions ≡ [])
    → ((d : ℕ) → (u.channel d).subscriptors ≡ [])
    → init e random u ≡ ok w
    → run events w ≡ ok w'
    → Returns (write_channel s msg c w')
run-write_channel-Returns e random events s msg c u w w' none_in none_out i r =
    write_channel-Returns s msg c w' (
      Sound-Moves
        (chained (OnOk-ok (Moves u) (init e random u) (init-Moves e random u) i)
          (run-Moves events w w' r))
        (empty-IsSound u none_in none_out))
