-- ===== src/Subscription.antt =====
-- SubscriptionImpl of src/channel.cpp: one connection of a channel, as a subscription of this process
-- or as a subscriptor of a remote one. Using a null pointer or a deleted object is a fault.
pub mod Quiet
pub mod Links
pub mod Kept
use libpubsub.Base.{
  Bool, Bytes, List, Option, [], drop, false, if◌then◌else◌, length, ltb, none, not, some, suc,
  true, ℕ, ◌++◌, ◌∷◌,
}
use libpubsub.Socket.{
  Socket, new_socket, remove_listeners, sub_open, sub_close, sub_message, channel_message,
}
use libpubsub.Socket
use libpubsub.World.{
  Channel, Subscription, World, tcp, shm, Result, ok, fault, null_pointer, deleted, overrun, Env,
  set_socket_at, set_channel, set_subscription, vector_remove, socket_write_bytes, update, ◌>>=◌,
}
use libpubsub.Mesh.{me, connect_socket, fresh_socket}

-- The object behind a pointer that the code uses.
unfoldable pub deref : ℕ → World → Result Subscription
deref s w = elim (w.subscription s) [ none ↦ fault deleted | some v ↦ ok v ]

abbrev on_subscriptions : (List ℕ → List ℕ) → Channel → Channel
on_subscriptions f c = record c { subscriptions = f c.subscriptions }

abbrev on_subscriptors : (List ℕ → List ℕ) → Channel → Channel
on_subscriptors f c = record c { subscriptors = f c.subscriptors }

abbrev on_channel : ℕ → (Channel → Channel) → World → World
on_channel c f w = set_channel c (f (w.channel c)) w

abbrev subscription_of : ℕ → ℕ → Bool → Subscription
subscription_of c h is_async = record {
  channel = c;
  host = some h;
  is_async = is_async;
  connected = false;
  transport = tcp;
  socket = none;
  memory = none;
}

-- A subscription at a fresh address.
abbrev place : Subscription → World → World
place v w = record (set_subscription w.next_subscription (some v) w) {
  next_subscription = suc w.next_subscription;
}

-- SubscriptionImpl(channel, bAsync): this process subscribes.
unfoldable pub new_subscription : ℕ → Bool → World → World
new_subscription c is_async w =
    on_channel c (on_subscriptions (λ l. l ++ (w.next_subscription ∷ [])))
      (place (subscription_of c (me w) is_async) w)

-- SubscriptionImpl(channel, socket, host): a remote host subscribes through a socket.
unfoldable pub new_tcp_subscriptor : ℕ → ℕ → ℕ → World → World
new_tcp_subscriptor c s h w =
    set_socket_at s
      (record (w.socket s) {
        on_open = some (sub_open w.next_subscription);
        on_close = some (sub_close w.next_subscription);
        cb_recv = some (channel_message c);
      })
      (on_channel c (on_subscriptors (λ l. l ++ (w.next_subscription ∷ [])))
        (place (record (subscription_of c h false) { connected = true; socket = some s }) w))

-- ~SubscriptionImpl and the release of the object.
unfoldable pub destroy : ℕ → Subscription → World → World
unfolding vector_remove
destroy s v w = set_subscription s none (
    on_channel v.channel
      (λ c. on_subscriptors (vector_remove s) (on_subscriptions (vector_remove s) c)) w)

abbrev store : ℕ → Subscription → World → World
store s v w = set_subscription s (some v) w

-- SubscriptionImpl::on_open.
unfoldable pub on_open : ℕ → World → Result World
unfolding deref
on_open s w = do v ← deref s w; ok (store s (record v { connected = true }) w)

-- `socket->remove_listeners()`.
unfoldable pub drop_listeners : Option ℕ → World → Result World
unfolding remove_listeners
drop_listeners none w = fault null_pointer
drop_listeners (some s) w = ok (set_socket_at s (remove_listeners (w.socket s)) w)

-- SubscriptionImpl::on_close. The object deletes itself, its segment already dropped.
unfoldable pub on_close : ℕ → World → Result World
unfolding deref drop_listeners destroy
on_close s w = do v ← deref s w; w' ← drop_listeners v.socket w; ok (destroy s v w')

-- `socket->remove_listeners(); socket->close();`
unfoldable pub shut : Option ℕ → World → Result World
unfolding remove_listeners Socket.close
shut none w = fault null_pointer
shut (some s) w = ok (set_socket_at s (Socket.close false (remove_listeners (w.socket s))) w)

-- The branch of SubscriptionImpl::close on the transport.
unfoldable pub close_transport : Subscription → World → Result World
unfolding shut
close_transport v w = elim v.transport [ tcp ↦ shut v.socket w | shm ↦ ok w ]

-- SubscriptionImpl::close.
unfoldable pub close : ℕ → World → Result World
unfolding deref close_transport on_close
close s w = do v ← deref s w; w' ← close_transport v w; on_close s w'

-- `new TCPSocket()` for the subscription, with its three callbacks and TRANSPORT_TCP.
unfoldable pub attach_socket : ℕ → Subscription → World → World
unfolding fresh_socket
attach_socket s v w =
    set_socket_at w.next_socket
      (record new_socket {
        on_open = some (sub_open s);
        on_close = some (sub_close s);
        cb_recv = some (sub_message s);
      })
      (store s (record v { connected = false; socket = some w.next_socket; transport = tcp })
        (fresh_socket w))

-- `socket->connect(channel->publisher->ip.c_str(), channel->offeredPort)`.
unfoldable pub dial_publisher : Env → ℕ → Channel → Option ℕ → World → Result World
unfolding connect_socket
dial_publisher e sock c none w = fault null_pointer
dial_publisher e sock c (some p) w = connect_socket e sock (w.host p).ip c.offered_port w

-- SubscriptionImpl::connect_tcp.
unfoldable pub connect_tcp : Env → ℕ → World → Result World
unfolding deref attach_socket dial_publisher
connect_tcp e s w = do
  v ← deref s w
  if v.connected
      then ok w
      else dial_publisher e w.next_socket (w.channel v.channel) (w.channel v.channel).publisher
          (attach_socket s v w)

-- `new SHM(path, size)` at a fresh address.
unfoldable pub fresh_segment : Env → Bytes → ℕ → World → World
fresh_segment e path size w = record w {
  segment = update w.segment w.next_segment (record { path = path; contents = e.mapped path size });
  next_segment = suc w.next_segment;
}

-- SubscriptionImpl::connect_shm.
unfoldable pub connect_shm : Env → ℕ → World → Result World
unfolding deref fresh_segment
connect_shm e s w = do
  v ← deref s w
  let c = w.channel v.channel
  if v.connected
      then ok w
      else if v.is_async
      then ok (store s (record v { transport = shm; connected = true }) w)
      else ok (
          store s (record v { transport = shm; connected = true; memory = some w.next_segment })
            (fresh_segment e c.offered_shm_path c.size w))

-- SHM::write(msg, len) of src/shm.h: memcpy to the start of the mapping.
unfoldable pub copy_to_segment : Option ℕ → Bytes → World → Result World
copy_to_segment none msg w = fault null_pointer
copy_to_segment (some g) msg w =
    let old = (w.segment g).contents in
    if ltb (length old) (length msg)
    then fault overrun
    else ok (record w {
      segment =
          update w.segment g (record (w.segment g) { contents = msg ++ drop (length msg) old });
    })

-- `socket->write(msg, len)`.
unfoldable pub write_socket : Option ℕ → Bytes → World → Result World
unfolding socket_write_bytes
write_socket none msg w = fault null_pointer
write_socket (some s) msg w = ok (socket_write_bytes s msg w)

-- SubscriptionImpl::write(msg, len).
unfoldable pub write : ℕ → Bytes → World → Result World
unfolding deref write_socket copy_to_segment
write s msg w = do
  v ← deref s w
  if not v.connected then ok w else elim v.transport [
    | tcp ↦ write_socket v.socket msg w
    | shm ↦ copy_to_segment v.memory msg w
  ]

-- `shm->write()`, which does nothing to the segment.
unfoldable pub notify : Option ℕ → World → Result World
notify none w = fault null_pointer
notify (some g) w = ok w

-- SubscriptionImpl::write(): the subscription's own `ptr` and `_size`, which nothing ever sets, so
-- no byte is sent.
unfoldable pub write_dma : ℕ → World → Result World
unfolding deref write_socket notify
write_dma s w = do
  v ← deref s w
  if not v.connected
      then ok w
      else elim v.transport [ tcp ↦ write_socket v.socket [] w | shm ↦ notify v.memory w ]
