-- ===== src/World.antt =====
-- The objects of one process: the hosts, sockets, channels, subscriptions, servers and shared-memory
-- segments of src/mesh.h, src/channel.h, src/utils/Socket.h and src/shm.h, by address, with the
-- registries and globals of src/mesh.cpp and src/channel.cpp. An address is a number; a null
-- pointer is `none`. Only subscriptions are ever deleted: a deleted one reads as `none`.
pub mod Kept
pub mod Aside
use libpubsub.Base.{
  Bool, Bytes, List, Option, [], false, if◌then◌else◌, none, some, ℕ, ℤ, ◌==◌, ◌∷◌,
}
use libpubsub.Socket.{Socket, write, write_bytes}

-- class Host.
pub record Host : Type 0 where
  pub ip : Bytes
  pub port : ℤ
  pub id : ℤ
  pub ready : Bool
  pub connecting : Bool
  pub server : Bool
  pub socket : Option ℕ
  pub commit_id : ℤ
  pub known_commit_id : ℤ
  pub up_to_date : Bool
  pub fast_forwarding : Bool

-- TRANSPORT_TCP and TRANSPORT_SHM.
pub data Transport : Type 0 where
  tcp shm : Transport

-- class SubscriptionImpl, for both roles. `memory` is its SHM segment.
pub record Subscription : Type 0 where
  pub channel : ℕ
  pub host : Option ℕ
  pub is_async : Bool
  pub connected : Bool
  pub transport : Transport
  pub socket : Option ℕ
  pub memory : Option ℕ

-- class ChannelImpl with the fields of its base class Channel; `ptr` is the segment, if allocated.
pub record Channel : Type 0 where
  pub name : Bytes
  pub publisher : Option ℕ
  pub server : Option ℕ
  pub offered_port : ℤ
  pub offered_shm_path : Bytes
  pub subscriptions : List ℕ
  pub subscriptors : List ℕ
  pub ptr : Option ℕ
  pub size : ℕ

-- class SHM: the mapped bytes.
pub record Segment : Type 0 where
  pub path : Bytes
  pub contents : Bytes

-- class TCPServer as a channel uses it: its port, and for whom `on_open` makes subscriptors.
pub record Server : Type 0 where
  pub port : ℕ
  pub channel : ℕ
  pub host : ℕ

pub record World : Type 0 where
  pub host : ℕ → Host
  pub next_host : ℕ
  pub hosts : List ℕ
  pub socket : ℕ → Socket
  pub next_socket : ℕ
  pub channel : ℕ → Channel
  pub next_channel : ℕ
  pub channels : List ℕ
  pub subscription : ℕ → Option Subscription
  pub next_subscription : ℕ
  pub segment : ℕ → Segment
  pub next_segment : ℕ
  pub server : ℕ → Server
  pub next_server : ℕ
  -- ID and SIGNALING_PORT of mesh.cpp.
  pub id : ℤ
  pub signaling_port : ℤ

-- How a call can fail: a null pointer or a deleted object is used, a copy leaves its segment, or an
-- exception is thrown.
pub data Fault : Type 0 where
  null_pointer : Fault
  deleted : Fault
  overrun : Fault
  thrown : Bytes → Fault

pub data Result {ℓ} (A : Type ℓ) : Type ℓ where
  ok : A → Result A
  fault : Fault → Result A

infixl 5 ◌>>=◌
abbrev pub ◌>>=◌ {ℓ κ} : {A : Type ℓ} {B : Type κ} → Result A → (A → Result B) → Result B
ok a >>= f = f a
fault e >>= f = fault e

-- The outcome of resolving a name and of opening a descriptor in TCPSocket::connect.
pub data Dial : Type 0 where
  dialled unresolved no_descriptor : Dial

-- What the operating system answers during a call: which ports can be bound, how a dial goes,
-- and what a shared-memory object holds.
pub record Env : Type 0 where
  pub can_bind : ℕ → Bool
  pub dial : Bytes → Dial
  -- The bytes that a mapping of a path shows, at a requested size.
  pub mapped : Bytes → ℕ → Bytes

-- A map changed at one address.
abbrev pub update {ℓ} : {A : Type ℓ} → (ℕ → A) → ℕ → A → ℕ → A
update f p v q = if p == q then v else f q

abbrev pub set_host : ℕ → Host → World → World
set_host h v w = record w { host = update w.host h v }

abbrev pub set_socket_at : ℕ → Socket → World → World
set_socket_at s v w = record w { socket = update w.socket s v }

abbrev pub set_channel : ℕ → Channel → World → World
set_channel c v w = record w { channel = update w.channel c v }

abbrev pub set_subscription : ℕ → Option Subscription → World → World
set_subscription s v w = record w { subscription = update w.subscription s v }

-- std::remove and erase, as vector_remove of src/utils/utils.h.
unfoldable pub vector_remove : ℕ → List ℕ → List ℕ
vector_remove a [] = []
vector_remove a (x ∷ xs) = if x == a then vector_remove a xs else x ∷ vector_remove a xs

-- A pointer comparison with a known address.
abbrev pub points_to : Option ℕ → ℕ → Bool
points_to none h = false
points_to (some g) h = g == h

-- TCPSocket::write(const string&) and write(const char*, size_t) on the socket at an address.
unfoldable pub socket_write : ℕ → Bytes → World → World
unfolding write
socket_write s msg w = set_socket_at s (write msg (w.socket s)) w

unfoldable pub socket_write_bytes : ℕ → Bytes → World → World
unfolding write_bytes
socket_write_bytes s msg w = set_socket_at s (write_bytes msg (w.socket s)) w
