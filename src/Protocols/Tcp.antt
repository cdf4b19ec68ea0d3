-- ===== src/Protocols/Tcp.antt =====
-- ClientTCP and ServerTCP of src/protocols/tcp.h, over TCPSocket and TCPServer.
use libpubsub.Base.{Bool, Bytes, List, [], codes, false, if◌then◌else◌, true, ℕ, ℤ}
use libpubsub.Socket.{Socket, RunEnd, client_socket, write_bytes, received, hung_up}
use libpubsub.Server.{TcpServer}
use libpubsub.Server
use libpubsub.World.{Result, ok, fault, thrown, Dial, dialled, unresolved, no_descriptor}

-- class ClientTCP: its socket, and whether the user has set `cb` and `Client::on_close`.
pub record ClientTcp : Type 0 where
  pub socket : Socket
  pub has_cb : Bool
  pub has_on_close : Bool

-- ClientTCP::ClientTCP.
unfoldable pub new_client : Dial → Bytes → ℤ → Result ClientTcp
unfolding client_socket
new_client answer ip port = elim answer [
  | dialled ↦ ok (record {
    socket = record (client_socket ip port) { reconnect = false };
    has_cb = false;
    has_on_close = false;
  })
  | unresolved ↦ fault (thrown (codes "Couldn't resolve host"))
  | no_descriptor ↦ fault (thrown (codes "ERROR opening socket"))
]

-- ClientTCP::send.
unfoldable pub client_send : Bytes → ClientTcp → ClientTcp
unfolding write_bytes
client_send msg c = record c { socket = write_bytes msg c.socket }

-- ClientTCP::on_receive, on what the connection hands over: what reaches `cb`.
unfoldable pub client_receive : ClientTcp → List Bytes → List Bytes
unfolding received
client_receive c bufs = if c.has_cb then received c.socket bufs else []

-- The end of the connection. The callback of the socket calls `Client::on_close`, which is an empty
-- std::function until the user sets it.
unfoldable pub client_end : Bool → Bool → ClientTcp → Result (RunEnd × ClientTcp)
unfolding hung_up
client_end resolves opens c =
    if c.has_on_close
    then (let (next, s) = hung_up resolves opens c.socket in ok (next, record c { socket = s }))
    else fault (thrown (codes "std::bad_function_call"))

-- ServerTCP::ServerTCP, whose port must be free.
unfoldable pub new_server : (ℕ → Bool) → ℕ → Result TcpServer
new_server can_bind port =
    if can_bind port
    then ok (record { port = port; stop = false; listening = true; connections = [] })
    else fault (thrown (codes "ERROR on binding"))

-- ServerTCP::send.
unfoldable pub server_send : Bytes → TcpServer → (ℕ → Socket) → ℕ → Socket
unfolding Server.broadcast
server_send msg v heap = Server.broadcast msg v heap
