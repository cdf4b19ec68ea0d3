-- ===== src/Process/Steps.antt =====
-- Every event of a process (src/libpubsub.cpp, src/utils/Socket.cpp) only makes the changes of Process/Moves.
use libpubsub.Api.Access.{write_memory, write_memory_on}
use libpubsub.Base.{Bytes, List, Option, [], false, if_ind, none, refl, some, ℕ, ℤ, ◌∷◌, ◌≡◌}
use libpubsub.Socket.{
  Socket, Callback, host_welcome, host_lost, host_receive, sub_open, sub_close, sub_message,
  channel_message, signaling, opened,
}
use libpubsub.World.{World, Result, ok, fault, Env, set_socket_at, ◌>>=◌}
use libpubsub.World.Kept.{OnOk, OnOk-ok}
use libpubsub.World.Aside.{AsideOk}
use libpubsub.Mesh.{add_host_url}
use libpubsub.Subscription
use libpubsub.Subscription.Quiet.{write-Aside, write_dma-Aside}
use libpubsub.Subscription.Links.{on_open-Links, on_close-Links}
use libpubsub.Channel.{get_or_create_channel}
use libpubsub.Channel
use libpubsub.Api.{
  Buffer, is_ptr, publish, subscribe, write_channel, write_subscription, alloc_channel,
}
use libpubsub.Process.Moves.{
  Moves, Moves-outer, Moves-refl, Moves-Links, chained, joined, MovesOk, MovesOk-after,
  MovesOk-bind, branching,
}
use libpubsub.Process.Channels.{
  get_or_create-Moves, Moves-AsideOk, publish-Moves, unpublish-Moves, subscribe-Moves,
  write_channel-Moves, write_dma-Moves, alloc-Moves,
}
use libpubsub.Process.Hosts.{
  add_host-Moves, on_receive-Moves, on_incoming-Moves, handle_incoming-Moves, on_close-Moves,
  welcome-Moves,
}
use libpubsub.Process.{
  call, up, take, down, accepted, accept_host, accept_subscriptor, Event, came_up, went_down,
  message, host_came, subscriptor_came, host_added, publishing, subscribing, unpublishing,
  channel_write, subscription_write, allocating, world_of, handle, run, channel_dma,
  subscription_dma, address_added,
}

socket-Moves : (s : ℕ) (v : Socket) (w : World) → Moves w (set_socket_at s v w)
socket-Moves s v w = Moves-outer refl refl refl refl refl refl

call-Moves :
    (e : Env) (s : ℕ) (o : Option Callback) (msg : Bytes) (w : World) → MovesOk w (call e s o msg w)
unfolding call
call-Moves e s none msg w = Moves-refl w
call-Moves e s (some (host_welcome h)) msg w = welcome-Moves h w
call-Moves e s (some (host_lost h)) msg w = on_close-Moves e h w
call-Moves e s (some (host_receive h)) msg w = on_receive-Moves e h msg w
call-Moves e s (some (sub_open a)) msg w = on_open-Links Moves Moves-Links a w
call-Moves e s (some (sub_close a)) msg w = on_close-Links Moves Moves-Links a w
call-Moves e s (some (sub_message a)) msg w = Moves-refl w
call-Moves e s (some (channel_message c)) msg w = Moves-refl w
call-Moves e s (some signaling) msg w = on_incoming-Moves s msg w

up-Moves : (e : Env) (s : ℕ) (w : World) → MovesOk w (up e s w)
unfolding up
up-Moves e s w =
    MovesOk-after (call e s (w.socket s).on_open [] v) (socket-Moves s (opened (w.socket s)) w)
      (call-Moves e s (w.socket s).on_open [] v)
  where
    v : World
    v = set_socket_at s (opened (w.socket s)) w

down-Moves : (e : Env) (s : ℕ) (w : World) → MovesOk w (down e s w)
unfolding down
down-Moves e s w =
    MovesOk-bind w (call e s (w.socket s).on_close [] v) _
      (MovesOk-after (call e s (w.socket s).on_close [] v) (socket-Moves s _ w)
        (call-Moves e s (w.socket s).on_close [] v))
      (λ u. socket-Moves s _ u)
  where
    v : World
    v = set_socket_at s (record (w.socket s) { fd_open = false }) w

accepted-Moves : (ip : Bytes) (port : ℤ) (w : World) → Moves w (accepted ip port w)
accepted-Moves ip port w = Moves-outer refl refl refl refl refl refl

accept_host-Moves : (ip : Bytes) (port : ℤ) (w : World) → Moves w (accept_host ip port w)
unfolding accept_host
accept_host-Moves ip port w = chained (accepted-Moves ip port w) (
    chained (handle_incoming-Moves w.next_socket (accepted ip port w))
      (socket-Moves w.next_socket _ _))

accept_subscriptor-Moves :
    (v : ℕ) (ip : Bytes) (port : ℤ) (w : World) → Moves w (accept_subscriptor v ip port w)
unfolding accept_subscriptor
accept_subscriptor-Moves v ip port w = chained (accepted-Moves ip port w) (
    chained (joined (w.server v).channel w.next_socket (w.server v).host (accepted ip port w))
      (socket-Moves w.next_socket _ _))

pub publishing-Moves :
    (e : Env) (name : Bytes) (w : World) → MovesOk w (world_of (publish e name w))
unfolding publish
publishing-Moves e name w =
    let (c, v) = get_or_create_channel name w in
    go c v (Channel.publish e c v) (get_or_create-Moves name w) (publish-Moves e c v)
  where
    go :
        (c : ℕ) (v : World) (r : Result World)
        → Moves w v
        → MovesOk v r
        → MovesOk w (world_of (r >>= λ u. ok (c, u)))
    go c v (ok u) g h = chained g h
    go c v (fault x) g h = tt

subscribing-Moves : (e : Env) (name : Bytes) (w : World) → MovesOk w (world_of (subscribe e name w))
unfolding subscribe
subscribing-Moves e name w =
    let (c, v) = get_or_create_channel name w in
    go v (Channel.subscribe e c v) (get_or_create-Moves name w) (subscribe-Moves e c v)
  where
    go :
        (v : World) (r : Result (ℕ × World))
        → Moves w v
        → OnOk (λ (p : ℕ × World). Moves v p.1) r
        → MovesOk w (world_of r)
    go v (ok p) g h = chained g h
    go v (fault x) g h = tt

pub channel_write-Moves :
    (s : Buffer) (msg : Bytes) (c : ℕ) (w : World) → MovesOk w (write_channel s msg c w)
unfolding write_channel
channel_write-Moves s msg c w = search (branching, write_dma-Moves, write_channel-Moves)

subscription_write-Moves :
    (s : Buffer) (msg : Bytes) (a : ℕ) (w : World) → MovesOk w (write_subscription s msg a w)
unfolding write_subscription
subscription_write-Moves s msg a w = Moves-AsideOk w (write_subscription s msg a w) (
    if_ind (AsideOk w) (is_ptr s none) (Subscription.write_dma a w) (Subscription.write a msg w)
      (λ _. write_dma-Aside a w) (λ _. write-Aside a msg w))

handle-Moves : (e : Env) (event : Event) (w : World) → MovesOk w (handle e event w)
unfolding handle add_host_url alloc_channel take write_memory write_memory_on
handle-Moves e (came_up s) w = up-Moves e s w
handle-Moves e (went_down s) w = down-Moves e s w
handle-Moves e (message s msg) w = call-Moves e s (w.socket s).cb_recv msg w
handle-Moves e (host_came ip port) w = accept_host-Moves ip port w
handle-Moves e (subscriptor_came v ip port) w = accept_subscriptor-Moves v ip port w
handle-Moves e (host_added url) w = add_host-Moves e _ _ w
handle-Moves e (publishing name) w = publishing-Moves e name w
handle-Moves e (subscribing name) w = subscribing-Moves e name w
handle-Moves e (unpublishing c) w = unpublish-Moves e c w
handle-Moves e (channel_write c s msg) w = channel_write-Moves s msg c w
handle-Moves e (subscription_write a s msg) w = subscription_write-Moves s msg a w
handle-Moves e (allocating c size) w = alloc-Moves e c size w
handle-Moves e (channel_dma c) w = write_dma-Moves c w
handle-Moves e (subscription_dma a) w =
    Moves-AsideOk w (Subscription.write_dma a w) (write_dma-Aside a w)
handle-Moves e (address_added ip port) w = add_host-Moves e ip port w

pub run-MovesOk : (events : List (Env × Event)) (w : World) → MovesOk w (run events w)
unfolding run
run-MovesOk [] w = Moves-refl w
run-MovesOk ((e, event) ∷ more) w =
    MovesOk-bind w (handle e event w) (run more) (handle-Moves e event w) (run-MovesOk more)

-- What a run of events does to a process, where it returns, is a sequence of the changes of Moves and
-- of nothing else: channels and subscriptions come and go by them alone.
pub run-Moves : (events : List (Env × Event)) (w w' : World) → run events w ≡ ok w' → Moves w w'
run-Moves events w w' r = OnOk-ok (Moves w) (run events w) (run-MovesOk events w) r
