-- ===== src/Server.antt =====
-- TCPServer of src/utils/Socket.cpp and Socket.h: the connections that a server accepted.
pub mod Connections
pub mod Binding
use libpubsub.Base.{Bool, Bytes, List, Option, [], false, none, some, true, ℕ, ℤ, ◌++◌, ◌∷◌}
use libpubsub.Socket.{Socket, accepted_socket, write_bytes}
use libpubsub.Socket
use libpubsub.Socket.Ports.{find_port}
use libpubsub.World.{update}

-- class TCPServer; its connections are sockets by address.
pub record TcpServer : Type 0 where
  pub port : ℕ
  pub stop : Bool
  pub listening : Bool
  pub connections : List ℕ

-- TCPServer(firstPort, lastPort); `none` is the exception.
unfoldable pub new_server : (ℕ → Bool) → ℕ → ℕ → Option TcpServer
unfolding find_port
new_server can_bind first last = elim (find_port can_bind first last) [
  | none ↦ none
  | some p ↦ some (record { port = p; stop = false; listening = true; connections = [] })
]

-- One round of TCPServer::run, without the callback that it puts on the connection's close, which uses the
-- variable `c` of a round that is over: the socket for a connection from `ip`, with the callbacks that on_open
-- put on it, joins the connections and runs.
unfoldable pub accept :
    ℕ → Bytes → ℤ → (Socket → Socket) → TcpServer × (ℕ → Socket) → TcpServer × (ℕ → Socket)
accept a ip port on_open (v, heap) = (
  record v { connections = v.connections ++ (a ∷ []) },
  update heap a (record (on_open (accepted_socket ip port)) { started = true }),
)

-- `for(TCPSocket* s : connections) s->close();`
unfoldable pub close_each : List ℕ → (ℕ → Socket) → ℕ → Socket
unfolding Socket.close
close_each [] heap = heap
close_each (a ∷ as') heap = close_each as' (update heap a (Socket.close false (heap a)))

-- TCPServer::close.
unfoldable pub close : TcpServer → (ℕ → Socket) → TcpServer × (ℕ → Socket)
unfolding close_each
close v heap = (record v { stop = true; listening = false }, close_each v.connections heap)

-- The loop of TCPServer::broadcast.
unfoldable pub write_each : Bytes → List ℕ → (ℕ → Socket) → ℕ → Socket
unfolding write_bytes
write_each msg [] heap = heap
write_each msg (a ∷ as') heap = write_each msg as' (update heap a (write_bytes msg (heap a)))

-- TCPServer::broadcast.
unfoldable pub broadcast : Bytes → TcpServer → (ℕ → Socket) → ℕ → Socket
unfolding write_each
broadcast msg v heap = write_each msg v.connections heap
