-- ===== src/Mesh.antt =====
-- src/mesh.cpp: the registry of hosts, and what a host sends. A call is one step of the process: the
-- recursive mutex is held over those that run over the registry.
pub mod Mutex
pub mod Locked
pub mod Quiet
pub mod Lookup
pub mod Registry
pub mod Distinct
pub mod Broadcast
use libpubsub.Base.{
  Bool, Bytes, List, Option, [], codes, drop, eq_ℤ, equal, false, if◌then◌else◌, negsuc, none, pos,
  some, suc, true, ℕ, ℤ, ◌&&◌, ◌++◌, ◌==◌, ◌||◌, ◌∷◌,
}
use libpubsub.Text.{str_before, str_after}
use libpubsub.Text.Decimal.{show, atoi}
use libpubsub.Socket.{new_socket, connected, host_welcome, host_lost, host_receive}
use libpubsub.World.{
  Host, World, Result, ok, fault, thrown, Env, dialled, unresolved, no_descriptor, set_host,
  set_socket_at, socket_write,
}

-- Host::me(), which is hosts[0]. The loopback host is pushed when the library is loaded, so the
-- vector is never empty; the value for an empty one is not reached.
unfoldable pub me_of : List ℕ → ℕ
me_of [] = 0
me_of (h ∷ hs) = h

abbrev pub me : World → ℕ
me w = me_of w.hosts

-- Host::tostring.
unfoldable pub host_to_string : Host → Bytes
host_to_string h = h.ip ++ (b':' ∷ show h.port)

-- The test of has_host and get_host.
unfoldable pub has_address : Bytes → ℤ → Host → Bool
unfolding equal
has_address ip port h = equal h.ip ip && eq_ℤ h.port port

unfoldable pub find_host : (ℕ → Host) → Bytes → ℤ → List ℕ → Option ℕ
unfolding has_address
find_host heap ip port [] = none
find_host heap ip port (h ∷ hs) =
    if has_address ip port (heap h) then some h else find_host heap ip port hs

-- get_host.
unfoldable pub get_host : Bytes → ℤ → World → Option ℕ
unfolding find_host
get_host ip port w = find_host w.host ip port w.hosts

-- has_host.
unfoldable pub has_host : Bytes → ℤ → World → Bool
unfolding get_host
has_host ip port w = elim (get_host ip port w) [ none ↦ false | some h ↦ true ]

-- Host::is_local.
unfoldable pub is_local : ℕ → World → Bool
unfolding equal me_of
is_local h w =
    h == me w
    || equal (w.host h).ip (codes "localhost")
    || equal (w.host h).ip (codes "0.0.0.0")
    || equal (w.host h).ip (w.host (me w)).ip

-- Host::send.
unfoldable pub send_on : Option ℕ → Bytes → World → World
unfolding socket_write
send_on none msg w = w
send_on (some s) msg w = if (w.socket s).stop then w else socket_write s msg w

unfoldable pub send : ℕ → Bytes → World → World
unfolding send_on
send h msg w = send_on (w.host h).socket msg w

-- The loop of Host::broadcast.
unfoldable pub send_ready : List ℕ → Bytes → World → World
unfolding send
send_ready [] msg w = w
send_ready (h ∷ hs) msg w = send_ready hs msg (if (w.host h).ready then send h msg w else w)

-- Host::broadcast: every ready host but the first.
unfoldable pub broadcast : Bytes → World → World
unfolding send_ready
broadcast msg w = send_ready (drop 1 w.hosts) msg w

-- "127.0.0.1" is written "localhost".
unfoldable pub display_ip : Bytes → Bytes
unfolding equal
display_ip ip = if equal ip (codes "127.0.0.1") then codes "localhost" else ip

-- The first line of Host::welcome.
unfoldable pub id_line : ℤ → ℤ → Bytes
unfolding show
id_line id port = codes "ID=" ++ (show id ++ (codes "|PORT=" ++ show port))

abbrev pub id_message : World → Bytes
id_message w = id_line w.id w.signaling_port

-- Host::welcome.
unfoldable pub welcome_on : ℕ → Option ℕ → World → World
unfolding socket_write
welcome_on h none w = w
welcome_on h (some s) w =
    if (w.socket s).stop
    then w
    else socket_write s (codes "YOU=" ++ display_ip (w.socket s).ip)
        (socket_write s (id_message w) (set_host h (record (w.host h) { connecting = true }) w))

unfoldable pub welcome : ℕ → World → World
unfolding welcome_on
welcome h w = welcome_on h (w.host h).socket w

-- Host::setSocket.
unfoldable pub adopt_socket : ℕ → ℕ → World → World
adopt_socket h s w =
    set_socket_at s
      (record (w.socket s) {
        line_buffer = true;
        on_open = some (host_welcome h);
        on_close = some (host_lost h);
        cb_recv = some (host_receive h);
      })
      (set_host h (record (w.host h) { socket = some s }) w)

unfoldable pub set_socket : ℕ → ℕ → World → World
unfolding adopt_socket welcome
set_socket h s w = if (w.host h).server then welcome h (adopt_socket h s w) else adopt_socket h s w

-- `if(!has_host(ip, port)) hosts.push_back(this)`.
unfoldable pub push_host : ℕ → World → World
unfolding has_host
push_host h w =
    if has_host (w.host h).ip (w.host h).port w then w else record w { hosts = w.hosts ++ (h ∷ []) }

abbrev pub remote_host : Bytes → ℤ → Bool → Host
remote_host ip port server = record {
  ip = ip;
  port = port;
  id = pos 0;
  ready = false;
  connecting = false;
  server = server;
  socket = none;
  commit_id = negsuc 0;
  known_commit_id = negsuc 0;
  up_to_date = false;
  fast_forwarding = false;
}

abbrev loopback_host : ℤ → Host
loopback_host port = record (remote_host (codes "localhost") port true) {
  commit_id = pos 0;
  known_commit_id = pos 0;
  up_to_date = true;
}

-- Host::Host(int): the loopback host.
unfoldable pub new_loopback : ℤ → World → World
new_loopback port w = record (set_host w.next_host (loopback_host port) w) {
  next_host = suc w.next_host;
  hosts = w.hosts ++ (w.next_host ∷ []);
}

-- A host at a fresh address, registered unless its address is known.
unfoldable pub place_host : Host → World → World
unfolding push_host
place_host v w =
    push_host w.next_host (record (set_host w.next_host v w) { next_host = suc w.next_host })

-- Host::Host(ip, port, socket): a host that connected to this one. The constructor leaves
-- bConnecting as it finds it, here false.
unfoldable pub new_incoming : Bytes → ℤ → ℕ → World → World
unfolding place_host set_socket
new_incoming ip port s w = set_socket w.next_host s (place_host (remote_host ip port true) w)

-- TCPSocket::connect on the socket at an address.
unfoldable pub connect_socket : Env → ℕ → Bytes → ℤ → World → Result World
unfolding connected
connect_socket e s ip port w = elim (e.dial ip) [
  | dialled ↦ ok (set_socket_at s (connected ip port (w.socket s)) w)
  | unresolved ↦ fault (thrown (codes "Couldn't resolve host"))
  | no_descriptor ↦ fault (thrown (codes "ERROR opening socket"))
]

-- `new TCPSocket()`.
unfoldable pub fresh_socket : World → World
fresh_socket w = record (set_socket_at w.next_socket new_socket w) {
  next_socket = suc w.next_socket;
}

-- Host::Host(ip, port): a host that this one connects to.
unfoldable pub new_remote : Env → Bytes → ℤ → World → Result World
unfolding place_host fresh_socket set_socket connect_socket
new_remote e ip port w =
    connect_socket e w.next_socket ip port (
      set_socket w.next_host w.next_socket
        (fresh_socket (place_host (remote_host ip port false) w)))

-- add_host(ip, port), after the first call of `init`.
unfoldable pub add_host : Env → Bytes → ℤ → World → Result World
unfolding has_host new_remote
add_host e ip port w = if has_host ip port w then ok w else new_remote e ip port w

-- add_host(url).
unfoldable pub add_host_url : Env → Bytes → World → Result World
unfolding str_before str_after atoi add_host
add_host_url e url = add_host e (str_before url (codes ":")) (atoi (str_after url (codes ":")))

-- The text of broadcast_hosts.
unfoldable pub host_lines : (ℕ → Host) → List ℕ → Bytes
unfolding host_to_string
host_lines heap [] = []
host_lines heap (h ∷ hs) =
    if (heap h).ready
    then codes "Host=" ++ (host_to_string (heap h) ++ (b'\n' ∷ host_lines heap hs))
    else host_lines heap hs

-- broadcast_hosts.
unfoldable pub broadcast_hosts : World → World
unfolding host_lines broadcast
broadcast_hosts w = broadcast (host_lines w.host w.hosts) w
