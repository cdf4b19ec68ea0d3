-- ===== src/Peer.antt =====
-- The connection of two hosts in src/mesh.cpp: Host::on_receive, the callback that
-- handle_incoming_connection puts on an accepted socket, and what a lost connection does.
pub mod Welcome
pub mod Takes
pub mod Collision
pub mod Handshake
use libpubsub.Base.{
  Bytes, Option, codes, equal, false, if◌then◌else◌, ltb_ℤ, none, not, some, true, ℕ, ℤ, ◌||◌,
}
use libpubsub.Text.{str_starts_with, str_before, str_after}
use libpubsub.Text.Decimal.{atoi}
use libpubsub.Socket.{Socket, remove_listeners, signaling}
use libpubsub.Socket
use libpubsub.World.{
  World, Result, ok, fault, null_pointer, Env, set_host, set_socket_at, vector_remove, ◌>>=◌,
}
use libpubsub.Mesh.{
  me, get_host, push_host, send, display_ip, new_incoming, set_socket, add_host, broadcast_hosts,
}
use libpubsub.Signaling.{digest_message, on_host_open, on_host_close}

-- The two numbers of an "ID=…|PORT=…" line.
unfoldable pub line_id : Bytes → ℤ
unfolding str_before str_after atoi
line_id s = atoi (str_after (str_before s (codes "|")) (codes "="))

unfoldable pub line_port : Bytes → ℤ
unfolding str_after atoi
line_port s = atoi (str_after (str_after s (codes "|")) (codes "="))

-- `me()->ip = …; me()->bReady = true;`
unfoldable pub learn_address : Bytes → World → World
learn_address ip w = set_host (me w) (record (w.host (me w)) { ip = ip; ready = true }) w

-- The branch of Host::on_receive for an ID line.
unfoldable pub identify : ℕ → Bytes → World → World
unfolding line_id line_port send
identify h s w =
    send h (codes "CONNECTED")
      (set_host h (record (w.host h) { id = line_id s; port = line_port s }) w)

-- The branch for "CONNECTED".
unfoldable pub confirm : ℕ → World → World
unfolding push_host on_host_open broadcast_hosts
confirm h w =
    broadcast_hosts
      (on_host_open h (push_host h (set_host h (record (w.host h) { ready = true }) w)))

-- The branch for "Host=ip:port".
unfoldable pub learn_host : Env → Bytes → World → Result World
unfolding str_after str_before atoi add_host
learn_host e s w =
    let ss = str_after s (codes "=") in
    add_host e (str_before ss (codes ":")) (atoi (str_after ss (codes ":"))) w

-- Host::on_receive.
unfoldable pub on_receive : Env → ℕ → Bytes → World → Result World
unfolding str_starts_with equal identify learn_address confirm learn_host digest_message
on_receive e h s w =
    if str_starts_with s (codes "ID=")
    then ok (identify h s w)
    else if str_starts_with s (codes "YOU=")
    then ok (learn_address (str_after s (codes "=")) w)
    else if equal s (codes "CONNECTED")
    then ok (confirm h w)
    else if not (w.host h).ready
    then ok w
    else if str_starts_with s (codes "Host=")
    then learn_host e s w
    else digest_message e h s w

-- `socket->close(true)`.
unfoldable pub close_socket : ℕ → World → World
unfolding Socket.close
close_socket s w = set_socket_at s (Socket.close true (w.socket s)) w

-- `if(h->socket) { h->socket->remove_listeners(); h->socket->close(true); }`
unfoldable pub drop_old : Option ℕ → World → World
unfolding Socket.close remove_listeners
drop_old none w = w
drop_old (some s) w = set_socket_at s (Socket.close true (remove_listeners (w.socket s))) w

-- A known host takes the incoming connection in place of its own.
unfoldable pub replace_socket : ℕ → ℕ → World → World
unfolding drop_old set_socket send
replace_socket h s w =
    let w1 = drop_old (w.host h).socket w in
    let w2 = set_socket h s (set_host h (record (w1.host h) { server = true }) w1) in
    if (w2.host h).ready then w2 else send h (codes "CONNECTED") w2

-- The choice between an incoming connection and the one at hand.
unfoldable pub resolve : Option ℕ → ℤ → Bytes → ℤ → ℕ → World → World
unfolding new_incoming replace_socket close_socket send
resolve none id ip port s w = send w.next_host (codes "CONNECTED") (new_incoming ip port s w)
resolve (some h) id ip port s w =
    if ltb_ℤ w.id id || (w.host h).server
    then replace_socket h s w
    else if ltb_ℤ id w.id
    then close_socket s w
    else w

-- The callback of handle_incoming_connection on an ID line.
unfoldable pub on_identified : ℕ → Bytes → World → World
unfolding line_id line_port display_ip get_host resolve
on_identified s line w =
    let ip = display_ip (w.socket s).ip in
    resolve (get_host ip (line_port line) w) (line_id line) ip (line_port line) s w

-- The callback of handle_incoming_connection: other lines are passed over.
unfoldable pub on_incoming : ℕ → Bytes → World → World
unfolding str_starts_with on_identified
on_incoming s line w = if str_starts_with line (codes "ID=") then on_identified s line w else w

-- handle_incoming_connection.
unfoldable pub handle_incoming_connection : ℕ → World → World
handle_incoming_connection s w =
    set_socket_at s (record (w.socket s) { line_buffer = true; cb_recv = some signaling }) w

-- `socket->close()` on the socket of a host.
unfoldable pub hang_up : Option ℕ → World → Result World
unfolding Socket.close
hang_up none w = fault null_pointer
hang_up (some s) w = ok (set_socket_at s (Socket.close false (w.socket s)) w)

-- Host::on_close.
unfoldable pub on_close : Env → ℕ → World → Result World
unfolding hang_up on_host_close
on_close e h w = do
  w' ← hang_up (w.host h).socket (set_host h (record (w.host h) { ready = false }) w)
  on_host_close e h w'

-- Host::~Host, behind which the object is gone.
unfoldable pub leave_registry : ℕ → World → Result World
unfolding vector_remove hang_up
leave_registry h w = hang_up (w.host h).socket (record w { hosts = vector_remove h w.hosts })
