-- ===== src/Peer/Takes.antt =====
-- What a host does to the sockets of its process when it takes one (setSocket, Host::send in src/mesh.cpp).
use libpubsub.Base.{Bytes, arith, if_ind, refl, some, ℕ, ◌∙◌, ◌≡◌, ◌≢◌}
use libpubsub.Socket.{write, host_welcome, host_lost, host_receive}
use libpubsub.World.{World, socket_write}
use libpubsub.Mesh.{send, send_on, set_socket, adopt_socket, welcome, welcome_on}

-- The host `h` has the socket `s`, whose callbacks are those of the host.
abbrev pub Adopted : ℕ → ℕ → World → Type 0
Adopted h s w =
    ((w.host h).socket ≡ some s)
    × ((w.socket s).on_open ≡ some (host_welcome h))
    × ((w.socket s).on_close ≡ some (host_lost h))
    × ((w.socket s).cb_recv ≡ some (host_receive h))

-- The socket runs, dials again and is open in `w'` if it is in `w`.
abbrev pub Lasts : ℕ → World → World → Type 0
Lasts s w w' =
    ((w'.socket s).stop ≡ (w.socket s).stop)
    × ((w'.socket s).reconnect ≡ (w.socket s).reconnect)
    × ((w'.socket s).fd_open ≡ (w.socket s).fd_open)

Lasts-trans : (s : ℕ) (u v w : World) → Lasts s u v → Lasts s v w → Lasts s u w
Lasts-trans s u v w (a, b, c) (d, e, f) = (d ∙ a, e ∙ b, f ∙ c)

-- The host `h` has the socket `s` in `w'`, which lasts, and no other socket has changed since `w`.
pub record Takes (h s : ℕ) (w w' : World) : Type 0 where
  pub adopted : Adopted h s w'
  pub lasts : Lasts s w w'
  pub same_server : (w'.host h).server ≡ (w.host h).server
  pub others : (t : ℕ) → t ≢ s → w'.socket t ≡ w.socket t

pub Takes-trans : (h s : ℕ) (u v w : World) → Takes h s u v → Takes h s v w → Takes h s u w
Takes-trans h s u v w p q = record {
  adopted = q.adopted;
  lasts = Lasts-trans s u v w p.lasts q.lasts;
  same_server = q.same_server ∙ p.same_server;
  others = λ t d. q.others t d ∙ p.others t d;
}

Takes-refl : (h s : ℕ) (w : World) → Adopted h s w → Takes h s w w
Takes-refl h s w e = record {
  adopted = e;
  lasts = (refl, refl, refl);
  same_server = refl;
  others = λ t d. refl;
}

adopt_socket-Takes : (h s : ℕ) (w : World) → Takes h s w (adopt_socket h s w)
unfolding adopt_socket
adopt_socket-Takes h s w = record {
  adopted = (ground arith, ground arith, ground arith, ground arith);
  lasts = (ground arith, ground arith, ground arith);
  same_server = ground arith;
  others = λ t d. ground (arith, d);
}

welcome_on-Takes : (h s : ℕ) (w : World) → Adopted h s w → Takes h s w (welcome_on h (some s) w)
unfolding welcome_on socket_write write
welcome_on-Takes h s w (e, opens, loses, receives) =
    if_ind (Takes h s w) (w.socket s).stop w _ (λ _. Takes-refl h s w (e, opens, loses, receives))
      (λ _. record {
        adopted = (
          ground (arith, e),
          ground (arith, opens),
          ground (arith, loses),
          ground (arith, receives),
        );
        lasts = (ground arith, ground arith, ground arith);
        same_server = ground arith;
        others = λ t d. ground (arith, d);
      })

welcome-Takes : (h s : ℕ) (w : World) → Adopted h s w → Takes h s w (welcome h w)
unfolding welcome
welcome-Takes h s w e = rw e.0 (welcome_on-Takes h s w e)

pub set_socket-Takes : (h s : ℕ) (w : World) → Takes h s w (set_socket h s w)
unfolding set_socket
set_socket-Takes h s w =
    let first = adopt_socket-Takes h s w in
    if_ind (Takes h s w) (w.host h).server (welcome h (adopt_socket h s w)) (adopt_socket h s w)
      (λ _. Takes-trans h s w _ _ first (welcome-Takes h s (adopt_socket h s w) first.adopted))
      (λ _. first)

send_on-Takes :
    (h s : ℕ) (msg : Bytes) (w : World) → Adopted h s w → Takes h s w (send_on (some s) msg w)
unfolding send_on socket_write write
send_on-Takes h s msg w (e, opens, loses, receives) =
    if_ind (Takes h s w) (w.socket s).stop w _ (λ _. Takes-refl h s w (e, opens, loses, receives))
      (λ _. record {
        adopted = (e, ground (arith, opens), ground (arith, loses), ground (arith, receives));
        lasts = (ground arith, ground arith, ground arith);
        same_server = refl;
        others = λ t d. ground (arith, d);
      })

pub send-Takes : (h s : ℕ) (msg : Bytes) (w : World) → Adopted h s w → Takes h s w (send h msg w)
unfolding send
send-Takes h s msg w e = rw e.0 (send_on-Takes h s msg w e)
