-- ===== src/Peer/Welcome.antt =====
-- What a host writes on a connection that it accepted, in src/mesh.cpp.
use libpubsub.Base.{
  Bytes, List, [], append_assoc, arith, codes, false, some, true, ℕ, ◌++◌, ◌∷◌, ◌≡◌,
}
use libpubsub.Socket.{frame, write}
use libpubsub.World.{Host, World, socket_write}
use libpubsub.Mesh.{
  send, send_on, set_socket, adopt_socket, welcome, welcome_on, id_message, display_ip, place_host,
  push_host,
}

-- The two lines of Host::welcome, as they leave on the socket `s`.
abbrev pub greeting : World → ℕ → List Bytes
greeting w s = frame (id_message w) ∷ frame (codes "YOU=" ++ display_ip (w.socket s).ip) ∷ []

-- Host::welcome on a running socket.
pub welcome_lem :
    (h s : ℕ) (w : World)
    → (w.host h).socket ≡ some s
    → (w.socket s).stop ≡ false
    → ((welcome h w).socket s).sent ≡ (w.socket s).sent ++ greeting w s
unfolding welcome welcome_on socket_write write
welcome_lem h s w own running = rw own (
    ground (
      arith,
      running,
      append_assoc (w.socket s).sent (frame (id_message w) ∷ [])
          (frame (codes "YOU=" ++ display_ip (w.socket s).ip) ∷ []),
    ))

-- setSocket for a host that was accepted: it greets on its new socket.
pub set_socket_lem :
    (h s : ℕ) (w : World)
    → (w.host h).server ≡ true
    → (w.socket s).stop ≡ false
    → (((set_socket h s w).host h).socket ≡ some s)
      × (((set_socket h s w).socket s).stop ≡ false)
      × (((set_socket h s w).socket s).sent ≡ (w.socket s).sent ++ greeting w s)
unfolding set_socket adopt_socket welcome welcome_on socket_write write
set_socket_lem h s w server running = (
  ground arith,
  ground arith,
  ground (
    arith,
    append_assoc (w.socket s).sent (frame (id_message w) ∷ [])
        (frame (codes "YOU=" ++ display_ip (w.socket s).ip) ∷ []),
  ),
)

pub send_lem :
    (h s : ℕ) (msg : Bytes) (w : World)
    → (w.host h).socket ≡ some s
    → (w.socket s).stop ≡ false
    → ((send h msg w).socket s).sent ≡ (w.socket s).sent ++ (frame msg ∷ [])
unfolding send send_on socket_write write
send_lem h s msg w e running = ground arith

pub place_host_lem :
    (v : Host) (w : World)
    → ((place_host v w).host w.next_host ≡ v)
      × ((place_host v w).socket ≡ w.socket)
      × (id_message (place_host v w) ≡ id_message w)
unfolding place_host push_host
place_host_lem v w = (ground arith, ground arith, ground arith)
