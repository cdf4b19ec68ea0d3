-- ===== src/Protocols/Client.antt =====
-- The interface of class Client and class Server in src/protocols/protocols.h: what `send` promises for every
-- transport, and the transports that keep it.
use libpubsub.Base.{Bytes, List, [], append-nil, append_assoc, refl, sym, ◌++◌, ◌∙◌, ◌∷◌, ◌≡◌}
use libpubsub.Socket.{write_bytes}
use libpubsub.Protocols.Tcp.{ClientTcp, client_send}
use libpubsub.Protocols.Pipe

-- An end of a connection: `sent` is what its medium has of it, oldest first, and `send` adds to that.
pub record Sender {ℓ} (A : Type ℓ) : Type ℓ where
  pub send : Bytes → A → A
  pub sent : A → List Bytes
  pub send_appends : (msg : Bytes) (a : A) → sent (send msg a) ≡ sent a ++ (msg ∷ [])

-- Messages that are sent one after the other, over any transport.
module _ {ℓ} {A : Type ℓ} (end : Sender A) where
  pub send_all : List Bytes → A → A
  send_all [] a = a
  send_all (msg ∷ msgs) a = send_all msgs (end.send msg a)

  -- They reach the medium whole and in order, behind what was sent before.
  pub send_all-sent : (msgs : List Bytes) (a : A) → end.sent (send_all msgs a) ≡ end.sent a ++ msgs
  unfolding send_all
  send_all-sent [] a = sym (append-nil (end.sent a))
  send_all-sent (msg ∷ msgs) a =
      send_all-sent msgs (end.send msg a)
      ∙ rw (end.send_appends msg a) (append_assoc (end.sent a) (msg ∷ []) msgs)

-- ClientTCP, whose medium is its socket.
pub tcp_sender : Sender ClientTcp
unfolding client_send write_bytes
tcp_sender = record { send = client_send; sent = λ c. c.socket.sent; send_appends = λ msg c. refl }

-- A pipe, whose medium is its file.
pub pipe_sender : Sender (List Bytes)
unfolding Pipe.send
pipe_sender = record { send = Pipe.send; sent = λ file. file; send_appends = λ msg file. refl }
