-- ===== src/Websocket.antt =====
-- src/utils/websocket.h and websocket.cpp: the server over libwebsockets. What that library does is a
-- sequence of its callbacks; the memory that it keeps for a connection starts as zero.
pub mod Sessions
pub mod Sending
use libpubsub.Base.{
  Bool, Bytes, List, Option, [], drop, if◌then◌else◌, leb, length, none, some, suc, take, zero, ℕ,
  ◌++◌, ◌+◌, ◌∷◌,
}
use libpubsub.Socket.{c_str}
use libpubsub.World.{Result, ok, fault, null_pointer, deleted, ◌>>=◌, update}

-- class IWebSocketPeer, as createPeer makes it for a connection. `inbox` lists what its onMessage, which
-- the application defines, was called with.
pub record Peer : Type 0 where
  pub ws : ℕ
  pub inbox : List Bytes

-- The memory of the library for each connection, and the peers by address. A deleted peer is `none`.
pub record Memory : Type 0 where
  pub user : ℕ → Option ℕ
  pub peer : ℕ → Option Peer
  pub next_peer : ℕ

-- LWS_CALLBACK_ESTABLISHED, LWS_CALLBACK_RECEIVE, LWS_CALLBACK_CLOSED, and the other reasons.
pub data Reason : Type 0 where
  established closed another : Reason
  receive : Bytes → Reason

-- `curWebSocketServer->createPeer(ws)`, stored in the connection's memory.
unfoldable pub create_peer : ℕ → Memory → Memory
create_peer ws m = record {
  user = update m.user ws (some m.next_peer);
  peer = update m.peer m.next_peer (some (record { ws = ws; inbox = [] }));
  next_peer = suc m.next_peer;
}

-- `peer->onMessage((char*)msg)`: `len` is not passed on, so the message ends at its first NUL. Behind the
-- last byte of a message the library puts a NUL of its own.
unfoldable pub on_message : Option ℕ → Bytes → Memory → Result Memory
unfolding c_str
on_message none msg m = fault null_pointer
on_message (some p) msg m = elim (m.peer p) [
  | none ↦ fault deleted
  | some v ↦ ok (record m {
    peer = update m.peer p (some (record v { inbox = v.inbox ++ (c_str msg ∷ []) }));
  })
]

-- `delete peer`, which does nothing to a null pointer.
unfoldable pub delete_peer : Option ℕ → Memory → Result Memory
delete_peer none m = ok m
delete_peer (some p) m = elim (m.peer p) [
  | none ↦ fault deleted
  | some v ↦ ok (record m { peer = update m.peer p none })
]

-- callback_websocket.
unfoldable pub callback : Reason → ℕ → Memory → Result Memory
unfolding create_peer on_message delete_peer
callback established ws m = ok (create_peer ws m)
callback (receive msg) ws m = on_message (m.user ws) msg m
callback closed ws m = delete_peer (m.user ws) m
callback another ws m = ok m

-- The callbacks of one call of libwebsocket_service.
unfoldable pub service : List (Reason × ℕ) → Memory → Result Memory
unfolding callback
service [] m = ok m
service ((reason, ws) ∷ more) m = callback reason ws m >>= service more

-- IWebSocketServer::run: `bQuit` as each round reads it, with what the library does in the round.
unfoldable pub run : List (Bool × List (Reason × ℕ)) → Memory → Result Memory
unfolding service
run [] m = ok m
run ((quit, events) ∷ rounds) m = if quit then ok m else service events m >>= run rounds

-- Behind the constructor.
abbrev pub started : Memory
started = record { user = λ ws. none; peer = λ p. none; next_peer = 0 }

-- `new unsigned char[n]`, with the bytes that stand there.
unfoldable pub allocate : ℕ → (ℕ → ℕ) → Bytes
allocate zero junk = []
allocate (suc n) junk = junk n ∷ allocate n junk

abbrev pub copy_at : ℕ → Bytes → Bytes → Bytes
copy_at n bytes buffer = take n buffer ++ (bytes ++ drop (n + length bytes) buffer)

-- memcpy to an offset of a buffer; `none` is a copy that leaves the buffer.
unfoldable pub memcpy : ℕ → Bytes → Bytes → Option Bytes
memcpy n bytes buffer =
    if leb (n + length bytes) (length buffer) then some (copy_at n bytes buffer) else none

-- What libwebsocket_write is given: the bytes of the buffer before the pointer, the `len` bytes from it on,
-- and the rest of the buffer. The library documents that it writes to the paddings on both sides.
pub record Given : Type 0 where
  pub padding_before : Bytes
  pub text : Bytes
  pub padding_behind : Bytes

abbrev given : ℕ → ℕ → Bytes → Given
given before len buffer = record {
  padding_before = take before buffer;
  text = take len (drop before buffer);
  padding_behind = drop len (drop before buffer);
}

-- IWebSocketPeer::send. LWS_SEND_BUFFER_PRE_PADDING is `before`, LWS_SEND_BUFFER_POST_PADDING `behind`.
unfoldable pub send : ℕ → ℕ → (ℕ → ℕ) → Bytes → Option Given
send before behind junk msg =
    let len = length (c_str msg) in
    elim (memcpy before (c_str msg) (allocate (before + len + behind) junk)) [
      | none ↦ none
      | some buffer ↦ some (given before len buffer)
    ]
