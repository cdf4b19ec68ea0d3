-- ===== src/Process.antt =====
-- One process over time: the calls of the application (src/libpubsub.cpp) and what its threads do
-- (TCPSocket::run and TCPServer::run of src/utils/Socket.cpp, with the callbacks that src/mesh.cpp and
-- src/channel.cpp put on sockets), in any order. Each is one
-- step, as it is where the source holds a mutex over it.
pub mod Moves
pub mod Grows
pub mod Sound
pub mod Writes
pub mod Dangling
pub mod Channels
pub mod Signals
pub mod Hosts
pub mod Steps
pub mod Identity
pub mod Flow
pub mod Served
use libpubsub.Api.Access.{write_memory, write_memory_on}
use libpubsub.Base.{Bool, Bytes, List, Option, [], false, none, some, suc, true, ℕ, ℤ, ◌∷◌}
use libpubsub.Socket.{
  Callback, host_welcome, host_lost, host_receive, sub_open, sub_close, sub_message,
  channel_message, signaling, accepted_socket, opened, hung_up,
}
use libpubsub.World.{
  World, Result, ok, Env, Dial, dialled, unresolved, no_descriptor, set_socket_at, ◌>>=◌,
}
use libpubsub.Mesh.{welcome, add_host_url, add_host}
use libpubsub.Peer.{on_receive, on_close, on_incoming, handle_incoming_connection}
use libpubsub.Subscription
use libpubsub.Channel
use libpubsub.Api.{Buffer, publish, subscribe, write_channel, write_subscription, alloc_channel}

-- A std::function that a socket calls, with the message for those that take one. What the application
-- does with a message of a channel is its own.
unfoldable pub call : Env → ℕ → Option Callback → Bytes → World → Result World
unfolding welcome on_close on_receive on_incoming Subscription.on_open Subscription.on_close
call e s none msg w = ok w
call e s (some (host_welcome h)) msg w = ok (welcome h w)
call e s (some (host_lost h)) msg w = on_close e h w
call e s (some (host_receive h)) msg w = on_receive e h msg w
call e s (some (sub_open a)) msg w = Subscription.on_open a w
call e s (some (sub_close a)) msg w = Subscription.on_close a w
call e s (some (sub_message a)) msg w = ok w
call e s (some (channel_message c)) msg w = ok w
call e s (some signaling) msg w = ok (on_incoming s msg w)

-- TCPSocket::run, when the connection is up.
unfoldable pub up : Env → ℕ → World → Result World
unfolding opened call
up e s w = call e s (w.socket s).on_open [] (set_socket_at s (opened (w.socket s)) w)

-- TCPSocket::run, with a message that it cut out of the stream.
unfoldable pub take : Env → ℕ → Bytes → World → Result World
unfolding call
take e s msg w = call e s (w.socket s).cb_recv msg w

-- What gethostbyname and socket answer to a client that dials again.
abbrev resolves : Dial → Bool
resolves dialled = true
resolves unresolved = false
resolves no_descriptor = true

abbrev opens : Dial → Bool
opens dialled = true
opens unresolved = false
opens no_descriptor = false

-- TCPSocket::run behind the loop of one connection: the descriptor is closed, `on_close` is called,
-- and a client may dial again.
unfoldable pub down : Env → ℕ → World → Result World
unfolding call hung_up
down e s w = do
  w' ←
      call e s (w.socket s).on_close []
        (set_socket_at s (record (w.socket s) { fd_open = false }) w)
  let answer = e.dial (w'.socket s).ip
  ok (set_socket_at s (hung_up (resolves answer) (opens answer) (w'.socket s)).1 w')

-- TCPServer::run: the socket of an accepted connection, at a fresh address.
abbrev pub accepted : Bytes → ℤ → World → World
accepted ip port w = record (set_socket_at w.next_socket (accepted_socket ip port) w) {
  next_socket = suc w.next_socket;
}

-- `c->run()`.
abbrev pub launched : ℕ → World → World
launched s w = set_socket_at s (record (w.socket s) { started = true }) w

-- A connection to the signaling server that `init` makes.
unfoldable pub accept_host : Bytes → ℤ → World → World
unfolding handle_incoming_connection
accept_host ip port w =
    launched w.next_socket (handle_incoming_connection w.next_socket (accepted ip port w))

-- A connection to the server that ChannelImpl::offer_tcp makes.
unfoldable pub accept_subscriptor : ℕ → Bytes → ℤ → World → World
unfolding Subscription.new_tcp_subscriptor
accept_subscriptor v ip port w = launched w.next_socket (
    Subscription.new_tcp_subscriptor (w.server v).channel w.next_socket (w.server v).host
      (accepted ip port w))

-- What can happen in a process.
pub data Event : Type 0 where
  -- A socket is up, has a message, or is down.
  came_up went_down : ℕ → Event
  message : ℕ → Bytes → Event
  -- A server accepts a connection, for signaling or for a channel.
  host_came : Bytes → ℤ → Event
  subscriptor_came : ℕ → Bytes → ℤ → Event
  -- The application calls.
  host_added publishing subscribing : Bytes → Event
  unpublishing : ℕ → Event
  channel_write : ℕ → Buffer → Bytes → Event
  subscription_write : ℕ → Buffer → Bytes → Event
  allocating : ℕ → ℕ → Event
  channel_dma subscription_dma : ℕ → Event
  address_added : Bytes → ℤ → Event

-- The second part of a result.
abbrev pub world_of : Result (ℕ × World) → Result World
world_of r = r >>= λ p. ok p.1

unfoldable pub handle : Env → Event → World → Result World
unfolding up take down accept_host accept_subscriptor add_host_url publish subscribe
    Channel.unpublish write_channel write_subscription alloc_channel add_host write_memory
    write_memory_on
handle e (came_up s) w = up e s w
handle e (went_down s) w = down e s w
handle e (message s msg) w = take e s msg w
handle e (host_came ip port) w = ok (accept_host ip port w)
handle e (subscriptor_came v ip port) w = ok (accept_subscriptor v ip port w)
handle e (host_added url) w = add_host_url e url w
handle e (publishing name) w = world_of (publish e name w)
handle e (subscribing name) w = world_of (subscribe e name w)
handle e (unpublishing c) w = Channel.unpublish e c w
handle e (channel_write c s msg) w = write_channel s msg c w
handle e (subscription_write a s msg) w = write_subscription s msg a w
handle e (allocating c size) w = ok (alloc_channel e c size w)
handle e (channel_dma c) w = write_memory c w
handle e (subscription_dma a) w = write_memory_on a w
handle e (address_added ip port) w = add_host e ip port w

-- A run: each event with what the operating system answers during it. It ends at the first fault.
unfoldable pub run : List (Env × Event) → World → Result World
unfolding handle
run [] w = ok w
run ((e, event) ∷ more) w = do w' ← handle e event w; run more w'
