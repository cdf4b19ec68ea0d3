-- ===== src/Channel.antt =====
-- ChannelImpl and the channel registry of src/channel.h and src/channel.cpp.
pub mod State
pub mod Links
pub mod Publisher
pub mod Closing
pub mod Disconnect
pub mod Delivery
pub mod Registry
unfoldable pub use libpubsub.Channel.State.{
  find_channel, get_channel, has_channel, index_loop, get_channel_index, channel_named, new_channel,
  remove_channel, get_or_create_channel, is_empty, is_some, get_type, publisher_text,
  channel_to_string,
}
use libpubsub.Base.{
  Bool, Bytes, List, Option, [], codes, drop, eq_ℤ, equal, false, get_elem?, if◌then◌else◌, length,
  negsuc, none, not, pos, some, suc, true, zero, ℕ, ℤ, ◌&&◌, ◌++◌, ◌-◌, ◌==◌, ◌^◌, ◌||◌, ◌∷◌,
}
use libpubsub.Text.{str_before, str_after}
use libpubsub.Text.Decimal.{show_ℕ, atoi}
use libpubsub.Socket.Ports.{find_port}
use libpubsub.Subscription
use libpubsub.World.{
  World, Result, ok, fault, null_pointer, thrown, Env, set_channel, points_to, update, ◌>>=◌,
}
use libpubsub.Mesh.{me, is_local, send, broadcast}

-- A loop over the subscriptions of a channel that does not change the vector.
unfoldable pub for_each : (ℕ → World → Result World) → List ℕ → World → Result World
for_each f [] w = ok w
for_each f (s ∷ ss) w = do w' ← f s w; for_each f ss w'

unfoldable pub send_publisher : Option ℕ → Bytes → World → Result World
unfolding send
send_publisher none msg w = fault null_pointer
send_publisher (some p) msg w = ok (send p msg w)

-- ChannelImpl::connect_tcp.
unfoldable pub connect_tcp : Env → ℕ → World → Result World
unfolding for_each send_publisher Subscription.connect_tcp
connect_tcp e c w =
    if eq_ℤ (w.channel c).offered_port (pos 0)
    then send_publisher (w.channel c).publisher (codes "CONNECT_TCP=" ++ (w.channel c).name) w
    else for_each (Subscription.connect_tcp e) (w.channel c).subscriptions w

-- ChannelImpl::connect_shm. The request carries no '=' between its keyword and the name.
unfoldable pub connect_shm : Env → ℕ → World → Result World
unfolding for_each send_publisher Subscription.connect_shm equal
connect_shm e c w =
    if equal (w.channel c).offered_shm_path []
    then send_publisher (w.channel c).publisher (codes "CONNECT_SHM" ++ (w.channel c).name) w
    else for_each (Subscription.connect_shm e) (w.channel c).subscriptions w

-- The two transports behind the guard of ChannelImpl::connect.
unfoldable pub connect_to : Env → ℕ → Option ℕ → World → Result World
unfolding connect_tcp connect_shm is_empty is_local
connect_to e c none w = ok w
connect_to e c (some p) w =
    if is_empty (w.channel c).subscriptions || p == me w
    then ok w
    else if is_local p w
    then connect_shm e c w
    else connect_tcp e c w

-- ChannelImpl::connect.
unfoldable pub connect : Env → ℕ → World → Result World
unfolding connect_to
connect e c w = connect_to e c (w.channel c).publisher w

-- The loop of ChannelImpl::disconnect. Each `close` erases its subscription from the vector over
-- which the loop runs, while the loop keeps the end that it read at the start. `slots` is the
-- vector's storage as erase leaves it: what is left of the vector, and behind it the old entries.
unfoldable pub disconnect_loop : ℕ → ℕ → ℕ → List ℕ → World → Result World
unfolding Subscription.close
disconnect_loop zero i c slots w = ok w
disconnect_loop (suc left) i c slots w = elim (get_elem? slots i) [
  | none ↦ ok w
  | some s ↦ do
    w' ← Subscription.close s w
    let now = (w'.channel c).subscriptions
    disconnect_loop left (suc i) c (now ++ drop (length now) slots) w'
]

-- ChannelImpl::disconnect.
unfoldable pub disconnect : ℕ → World → Result World
unfolding disconnect_loop
disconnect c w =
    disconnect_loop (length (w.channel c).subscriptions) 0 c (w.channel c).subscriptions w

-- `publisher = p; offeredPort = 0;`
unfoldable pub assign_publisher : ℕ → Option ℕ → World → World
assign_publisher c p w =
    set_channel c (record (w.channel c) { publisher = p; offered_port = pos 0 }) w

-- Two pointers that may be null.
unfoldable pub same_pointer : Option ℕ → Option ℕ → Bool
same_pointer none none = true
same_pointer (some a) (some b) = a == b
same_pointer _ _ = false

-- `if(publisher && publisher != p) disconnect();`
unfoldable pub leave_publisher : ℕ → Option ℕ → World → Result World
unfolding disconnect same_pointer
leave_publisher c p w =
    if is_some (w.channel c).publisher && not (same_pointer (w.channel c).publisher p)
    then disconnect c w
    else ok w

-- `if(subscriptions.size() && publisher) connect();`, the publisher being `p` by then.
unfoldable pub join_publisher : Env → ℕ → Option ℕ → World → Result World
unfolding connect is_empty
join_publisher e c p w =
    if not (is_empty (w.channel c).subscriptions) && is_some p then connect e c w else ok w

-- ChannelImpl::setPublisher.
unfoldable pub set_publisher : Env → ℕ → Option ℕ → World → Result World
unfolding leave_publisher assign_publisher join_publisher
set_publisher e c p w = do
  w' ← leave_publisher c p w
  join_publisher e c p (assign_publisher c p w')

-- ChannelImpl::publish.
unfoldable pub publish : Env → ℕ → World → Result World
unfolding set_publisher broadcast channel_to_string
publish e c w = if points_to (w.channel c).publisher (me w) then ok w else do
  w' ← set_publisher e c (some (me w)) w
  ok (broadcast (codes "PUBLISH=" ++ channel_to_string c w') w')

-- ChannelImpl::unpublish.
unfoldable pub unpublish : Env → ℕ → World → Result World
unfolding set_publisher broadcast channel_to_string
unpublish e c w = do
  w' ← set_publisher e c none w
  ok (broadcast (codes "UNPUBLISH=" ++ channel_to_string c w') w')

-- ChannelImpl::subscribe.
unfoldable pub subscribe : Env → ℕ → World → Result (ℕ × World)
unfolding connect Subscription.new_subscription
subscribe e c w = do
  w' ← connect e c (Subscription.new_subscription c false w)
  ok (w.next_subscription, w')

-- ChannelImpl::write(msg, len) and write().
unfoldable pub write : ℕ → Bytes → World → Result World
unfolding for_each Subscription.write
write c msg w = for_each (λ s. Subscription.write s msg) (w.channel c).subscriptors w

unfoldable pub write_dma : ℕ → World → Result World
unfolding for_each Subscription.write_dma
write_dma c w = for_each Subscription.write_dma (w.channel c).subscriptors w

-- `if(!server) server = new TCPServer(10000,20000)`, with the host for which it makes subscriptors.
unfoldable pub ensure_server : Env → ℕ → ℕ → Option ℕ → World → Result (ℕ × World)
unfolding find_port
ensure_server e c h (some v) w = ok ((w.server v).port, w)
ensure_server e c h none w = elim (find_port e.can_bind 10000 20000) [
  | none ↦ fault (thrown (codes "No free port"))
  | some port ↦ ok (
    port,
    set_channel c (record (w.channel c) { server = some w.next_server })
        (record w {
          server = update w.server w.next_server (record { port = port; channel = c; host = h });
          next_server = suc w.next_server;
        }),
  )
]

-- ChannelImpl::offer_tcp.
unfoldable pub offer_tcp : Env → ℕ → ℕ → World → Result World
unfolding ensure_server send show_ℕ
offer_tcp e c h w = do
  (port, w') ← ensure_server e c h (w.channel c).server w
  ok (send h (codes "OFFER_TCP=" ++ ((w.channel c).name ++ (b'|' ∷ show_ℕ port))) w')

-- ChannelImpl::offer_shm. The offer carries no '=' between its keyword and the name.
unfoldable pub offer_shm : ℕ → ℕ → World → World
unfolding send show_ℕ
offer_shm c h w =
    send h
      (codes "OFFER_SHM"
        ++ ((w.channel c).name
            ++ (b'|' ∷ ((w.channel c).name ++ (b'|' ∷ show_ℕ (w.channel c).size)))))
      (set_channel c (record (w.channel c) { offered_shm_path = (w.channel c).name }) w)

-- ChannelImpl::on_offer_tcp.
unfoldable pub on_offer_tcp : Env → ℕ → Bytes → World → Result World
unfolding connect_tcp atoi
on_offer_tcp e c offer w =
    connect_tcp e c (set_channel c (record (w.channel c) { offered_port = atoi offer }) w)

-- An `int` stored in a size_t of 64 bits.
abbrev pub to_size : ℤ → ℕ
to_size (pos n) = n
to_size (negsuc n) = 2 ^ 64 - 1 - n

-- ChannelImpl::on_offer_shm.
unfoldable pub on_offer_shm : Env → ℕ → Bytes → World → Result World
unfolding connect_shm atoi str_before str_after
on_offer_shm e c offer w = connect_shm e c (
    set_channel c
      (record (w.channel c) {
        offered_shm_path = str_before offer (codes "|");
        size = to_size (atoi (str_after offer (codes "|")));
      })
      w)

-- ChannelImpl::alloc. A channel that is already allocated only gets a warning on stderr.
unfoldable pub alloc : Env → ℕ → ℕ → World → World
unfolding broadcast show_ℕ Subscription.fresh_segment
alloc e c size w = elim (w.channel c).ptr [
  | some g ↦ w
  | none ↦ broadcast (codes "ALLOCATE=" ++ ((w.channel c).name ++ (b'=' ∷ show_ℕ size))) (
      set_channel c (record (w.channel c) { ptr = some w.next_segment; size = size })
        (Subscription.fresh_segment e (w.channel c).name size w))
]
