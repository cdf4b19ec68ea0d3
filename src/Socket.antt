-- ===== src/Socket.antt =====
-- src/utils/Socket.cpp and Socket.h: the state of a TCPSocket, what `write` puts on the wire, and the
-- receive loop of `TCPSocket::run`, which cuts a line-buffered stream into messages.
pub mod Framing
pub mod Bounds
pub mod Ports
use libpubsub.Base.{
  Bool, Bytes, List, Option, [], drop, false, if◌then◌else◌, length, none, pos, suc, true, zero, ℕ,
  ℤ, ◌&&◌, ◌++◌, ◌==◌, ◌||◌, ◌∷◌,
}

-- A std::function that the library stores in a socket: which object's method it calls.
pub data Callback : Type 0 where
  -- Host::setSocket.
  host_welcome host_lost host_receive : ℕ → Callback
  -- SubscriptionImpl::connect_tcp and the constructor for an incoming subscriptor.
  sub_open sub_close sub_message : ℕ → Callback
  channel_message : ℕ → Callback
  -- handle_incoming_connection.
  signaling : Callback

-- class TCPSocket. `sent` lists the arguments of send(2), oldest first; `started` says that the
-- receive thread was launched.
pub record Socket : Type 0 where
  pub ip : Bytes
  pub port : ℤ
  pub stop : Bool
  pub is_client : Bool
  pub line_buffer : Bool
  pub reconnect : Bool
  pub on_open : Option Callback
  pub on_close : Option Callback
  pub cb_recv : Option Callback
  pub started : Bool
  pub fd_open : Bool
  pub sent : List Bytes

-- TCPSocket::TCPSocket().
abbrev pub new_socket : Socket
new_socket = record {
  ip = [];
  port = pos 0;
  stop = true;
  is_client = true;
  line_buffer = false;
  reconnect = true;
  on_open = none;
  on_close = none;
  cb_recv = none;
  started = false;
  fd_open = false;
  sent = [];
}

-- TCPSocket::TCPSocket(fd, ip, port, false), as TCPServer::run makes it for an accepted connection.
abbrev pub accepted_socket : Bytes → ℤ → Socket
accepted_socket ip port = record new_socket {
  ip = ip;
  port = port;
  is_client = false;
  fd_open = true;
}

-- TCPSocket::connect once the name is resolved and the descriptor is open; it launches the thread.
unfoldable pub connected : Bytes → ℤ → Socket → Socket
connected ip port s = record s {
  ip = ip;
  port = port;
  is_client = true;
  started = true;
  fd_open = true;
}

-- TCPSocket::TCPSocket(ip, port), whose `connect` has resolved the name and opened the descriptor.
unfoldable pub client_socket : Bytes → ℤ → Socket
unfolding connected
client_socket ip port = connected ip port new_socket

-- TCPSocket::close.
unfoldable pub close : Bool → Socket → Socket
close dont_reconnect s = record s {
  reconnect = if dont_reconnect then false else s.reconnect;
  stop = true;
  fd_open = false;
}

-- TCPSocket::~TCPSocket.
unfoldable pub destroyed : Socket → Socket
unfolding close
destroyed s = close true s

-- TCPSocket::remove_listeners.
unfoldable pub remove_listeners : Socket → Socket
remove_listeners s = record s { on_close = none; on_open = none; cb_recv = none }

-- TCPSocket::write(const char*, size_t).
unfoldable pub write_bytes : Bytes → Socket → Socket
write_bytes msg s = record s { sent = s.sent ++ (msg ∷ []) }

-- The bytes of a C string: those before the first NUL.
unfoldable pub c_str : Bytes → Bytes
c_str [] = []
c_str (c ∷ s) = if c == 0 then [] else c ∷ c_str s

-- What TCPSocket::write(const string&) sends: strlen + 1 bytes, the NUL included.
unfoldable pub frame : Bytes → Bytes
unfolding c_str
frame msg = c_str msg ++ (0 ∷ [])

unfoldable pub write : Bytes → Socket → Socket
unfolding frame write_bytes
write msg s = write_bytes (frame msg) s

-- The inner loop of TCPSocket::run: the bytes up to the first NUL or newline, and the rest from it.
pub to_terminator : Bytes → Bytes × Bytes
to_terminator [] = ([], [])
to_terminator (c ∷ s) =
    let (seg, rest) = to_terminator s in
    if c == 0 || c == b'\n' then ([], c ∷ s) else (c ∷ seg, rest)

-- An empty segment is passed over.
abbrev pub deliver : Bytes → List Bytes → List Bytes
deliver [] rest = rest
deliver (c ∷ seg) rest = (c ∷ seg) ∷ rest

-- The outer loop over one buffer of `recv`, on fuel: the messages that it hands to the callback.
pub recv_loop : ℕ → Bytes → List Bytes
unfolding to_terminator
recv_loop zero buf = []
recv_loop (suc fuel) [] = []
recv_loop (suc fuel) (c ∷ s) =
    let (seg, rest) = to_terminator (c ∷ s) in deliver seg (recv_loop fuel (drop 1 rest))

-- Each round passes over at least one byte.
unfoldable pub recv_lines : Bytes → List Bytes
unfolding recv_loop
recv_lines buf = recv_loop (length buf) buf

-- A run of the loop over the buffers that `recv` returns, in order.
unfoldable pub recv_all : List Bytes → List Bytes
unfolding recv_lines
recv_all [] = []
recv_all (buf ∷ bufs) = recv_lines buf ++ recv_all bufs

-- A connection that is up, in TCPSocket::run.
unfoldable pub opened : Socket → Socket
opened s = record s { stop = false }

-- What a connection hands to the callback: with no line buffering, each buffer as it is.
unfoldable pub received : Socket → List Bytes → List Bytes
unfolding recv_all
received s bufs = if s.line_buffer then recv_all bufs else bufs

-- How TCPSocket::run goes on once a connection has ended.
pub data RunEnd : Type 0 where
  again finished failed : RunEnd

-- `resolves` and `opens` are what gethostbyname and socket answer to a client that dials again.
unfoldable pub hung_up : Bool → Bool → Socket → RunEnd × Socket
hung_up resolves opens s =
    if s.reconnect && s.is_client
    then (if resolves && opens
        then (again, record s { fd_open = true })
        else (failed, record s { fd_open = false }))
    else (finished, record s { fd_open = false })
