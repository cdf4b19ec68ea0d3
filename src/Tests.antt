-- ===== src/Tests.antt =====
-- Concrete processes, on which the tests run the model of src/.
mod Words
mod Hosts
mod Channels
mod Flows
mod Runs
mod Memory
mod Threads
mod Web
use libpubsub.Base.{
  Bytes, List, [], codes, false, if◌then◌else◌, none, not, pos, some, true, ℕ, ◌==◌, ◌∷◌,
}
use libpubsub.Socket.{Socket, new_socket}
use libpubsub.World.{World, Host, Env, Subscription, Channel, dialled, tcp}
use libpubsub.Mesh.{remote_host}
use libpubsub.Channel.{channel_named}

-- Every port can be bound and every name resolves.
abbrev pub easy : Env
easy = record { can_bind = λ p. true; dial = λ ip. dialled; mapped = λ path size. [] }

-- Port 12212 is taken.
abbrev pub second : Env
second = record { can_bind = λ p. not (p == 12212); dial = λ ip. dialled; mapped = λ path size. [] }

abbrev pub news : Bytes
news = codes "news"

abbrev pub running : Socket
running = record new_socket { ip = codes "10.0.0.2"; stop = false; fd_open = true }

abbrev pub self : Host
self = record (remote_host (codes "10.0.0.1") (pos 12212) true) { ready = true }

abbrev pub other : Host
other = record (remote_host (codes "10.0.0.2") (pos 12213) false) { ready = true; socket = some 0 }

-- A process that knows one other host, which is ready and reached through the socket 0.
abbrev pub pair : World
pair = record {
  host = λ h. if h == 0 then self else other;
  next_host = 2;
  hosts = 0 ∷ 1 ∷ [];
  socket = λ s. running;
  next_socket = 1;
  channel = λ c. channel_named news;
  next_channel = 0;
  channels = [];
  subscription = λ s. none;
  next_subscription = 0;
  segment = λ g. record { path = []; contents = [] };
  next_segment = 0;
  server = λ v. record { port = 0; channel = 0; host = 0 };
  next_server = 0;
  id = pos 7;
  signaling_port = pos 12212;
}

-- Before `init`.
abbrev pub bare : World
bare = record pair { hosts = []; next_host = 0 }

abbrev pub with_channel_of : Channel → World
with_channel_of c = record pair { channel = λ d. c; next_channel = 1; channels = 0 ∷ [] }

-- The process publishes "news".
abbrev pub publishing_news : World
publishing_news = with_channel_of (record (channel_named news) { publisher = some 0 })

-- The process knows "news", which has no publisher.
abbrev pub knowing_news : World
knowing_news = with_channel_of (channel_named news)

-- The other host publishes "news".
abbrev pub following_news : World
following_news = with_channel_of (record (channel_named news) { publisher = some 1 })

-- A subscription of "news" on the socket of its own number.
abbrev pub open_on : ℕ → Subscription
open_on k = record {
  channel = 0;
  host = some 0;
  is_async = false;
  connected = true;
  transport = tcp;
  socket = some k;
  memory = none;
}

abbrev pub subscribed : List ℕ → World
subscribed ss =
    record (with_channel_of
      (record (channel_named news) { publisher = some 1; subscriptions = ss })) {
        subscription = λ s. some (open_on s);
        next_subscription = 3;
      }

-- Two subscriptors of the published "news", on the sockets 0 and 1.
abbrev pub serving : World
serving =
    record (with_channel_of
      (record (channel_named news) { publisher = some 0; subscriptors = 0 ∷ 1 ∷ [] })) {
        subscription = λ s. some (open_on s);
        next_subscription = 2;
      }

-- A subscription of the other host's "news" that waits for a transport.
abbrev pub waiting : World
waiting =
    record (with_channel_of
      (record (channel_named news) { publisher = some 1; subscriptions = 0 ∷ [] })) {
        subscription = λ s. some (record (open_on 0) { connected = false; socket = none });
        next_subscription = 1;
      }
