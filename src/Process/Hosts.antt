-- ===== src/Process/Hosts.antt =====
-- What the connection of hosts does (src/mesh.cpp) only makes the changes of Process/Moves.
use libpubsub.Base.{Bytes, Option, [], codes, false, if_ind, none, refl, some, suc, true, ℕ, ℤ, ◌∷◌}
use libpubsub.World.{World, Host, Env, set_host, socket_write}
use libpubsub.Mesh.{
  has_host, push_host, place_host, send, broadcast_hosts, new_incoming, new_remote, set_socket,
  adopt_socket, welcome, welcome_on, fresh_socket, connect_socket, add_host, remote_host,
}
use libpubsub.Subscription.Quiet.{connect_socket-Aside}
use libpubsub.Peer.{
  line_id, line_port, learn_address, identify, confirm, learn_host, on_receive, close_socket,
  drop_old, replace_socket, resolve, on_identified, on_incoming, handle_incoming_connection,
  hang_up, on_close,
}
use libpubsub.Signaling.{on_host_open, on_host_close}
use libpubsub.Process.Moves.{
  Moves, Moves-outer, Moves-refl, Moves-if, outer, chained, MovesOk, MovesOk-after, MovesOk-bind,
  branching,
}
use libpubsub.Process.Channels.{send-Moves, broadcast-Moves, Moves-AsideOk}
use libpubsub.Process.Signals.{digest_message-Moves, on_host_open-Moves, on_host_close-Moves}

push_host-Moves : (h : ℕ) (w : World) → Moves w (push_host h w)
unfolding push_host
push_host-Moves h w = Moves-if w w _ (has_host (w.host h).ip (w.host h).port w) (Moves-refl w) (
    outer (record {
      more_hosts = (h ∷ [], refl);
      same_channel = refl;
      same_channels = refl;
      same_next_channel = refl;
      same_subscription = refl;
      same_next_subscription = refl;
    }))

place_host-Moves : (v : Host) (w : World) → Moves w (place_host v w)
unfolding place_host
place_host-Moves v w = chained (placed v w) (push_host-Moves w.next_host _)
  where
    placed :
        (v : Host) (w : World)
        → Moves w (record (set_host w.next_host v w) { next_host = suc w.next_host })
    placed v w = Moves-outer refl refl refl refl refl refl

welcome_on-Moves : (h : ℕ) (o : Option ℕ) (w : World) → Moves w (welcome_on h o w)
unfolding welcome_on socket_write
welcome_on-Moves h none w = Moves-refl w
welcome_on-Moves h (some s) w =
    Moves-if w w _ (w.socket s).stop (Moves-refl w) (Moves-outer refl refl refl refl refl refl)

adopt_socket-Moves : (h s : ℕ) (w : World) → Moves w (adopt_socket h s w)
unfolding adopt_socket
adopt_socket-Moves h s w = Moves-outer refl refl refl refl refl refl

pub welcome-Moves : (h : ℕ) (w : World) → Moves w (welcome h w)
unfolding welcome
welcome-Moves h w = welcome_on-Moves h (w.host h).socket w

set_socket-Moves : (h s : ℕ) (w : World) → Moves w (set_socket h s w)
unfolding set_socket
set_socket-Moves h s w =
    let moved = adopt_socket-Moves h s w in
    Moves-if w _ _ (w.host h).server (chained moved (welcome-Moves h (adopt_socket h s w))) moved

fresh_socket-Moves : (w : World) → Moves w (fresh_socket w)
unfolding fresh_socket
fresh_socket-Moves w = Moves-outer refl refl refl refl refl refl

new_incoming-Moves :
    (ip : Bytes) (port : ℤ) (s : ℕ) (w : World) → Moves w (new_incoming ip port s w)
unfolding new_incoming
new_incoming-Moves ip port s w =
    chained (place_host-Moves (remote_host ip port true) w) (set_socket-Moves w.next_host s _)

new_remote-Moves :
    (e : Env) (ip : Bytes) (port : ℤ) (w : World) → MovesOk w (new_remote e ip port w)
unfolding new_remote
new_remote-Moves e ip port w = MovesOk-after (connect_socket e w.next_socket ip port v) before (
    Moves-AsideOk v (connect_socket e w.next_socket ip port v)
      (connect_socket-Aside e w.next_socket ip port v))
  where
    placed : World
    placed = place_host (remote_host ip port false) w

    v : World
    v = set_socket w.next_host w.next_socket (fresh_socket placed)

    before : Moves w v
    before = chained (place_host-Moves (remote_host ip port false) w) (
        chained (fresh_socket-Moves placed)
          (set_socket-Moves w.next_host w.next_socket (fresh_socket placed)))

pub add_host-Moves :
    (e : Env) (ip : Bytes) (port : ℤ) (w : World) → MovesOk w (add_host e ip port w)
unfolding add_host
add_host-Moves e ip port w = search (branching, new_remote-Moves)

identify-Moves : (h : ℕ) (s : Bytes) (w : World) → Moves w (identify h s w)
unfolding identify
identify-Moves h s w = chained known (send-Moves h (codes "CONNECTED") v)
  where
    v : World
    v = set_host h (record (w.host h) { id = line_id s; port = line_port s }) w

    known : Moves w v
    known = Moves-outer refl refl refl refl refl refl

learn_address-Moves : (ip : Bytes) (w : World) → Moves w (learn_address ip w)
unfolding learn_address
learn_address-Moves ip w = Moves-outer refl refl refl refl refl refl

confirm-Moves : (h : ℕ) (w : World) → Moves w (confirm h w)
unfolding confirm broadcast_hosts
confirm-Moves h w = chained ready (
    chained (push_host-Moves h v) (
      chained (on_host_open-Moves h (push_host h v))
        (broadcast-Moves _ (on_host_open h (push_host h v)))))
  where
    v : World
    v = set_host h (record (w.host h) { ready = true }) w

    ready : Moves w v
    ready = Moves-outer refl refl refl refl refl refl

learn_host-Moves : (e : Env) (s : Bytes) (w : World) → MovesOk w (learn_host e s w)
unfolding learn_host
learn_host-Moves e s w = add_host-Moves e _ _ w

pub on_receive-Moves : (e : Env) (h : ℕ) (s : Bytes) (w : World) → MovesOk w (on_receive e h s w)
unfolding on_receive
on_receive-Moves e h s w =
    search
      (
        branching, identify-Moves, learn_address-Moves, confirm-Moves, learn_host-Moves,
        digest_message-Moves,
      )
      depth 8

drop_old-Moves : (o : Option ℕ) (w : World) → Moves w (drop_old o w)
unfolding drop_old
drop_old-Moves none w = Moves-refl w
drop_old-Moves (some s) w = Moves-outer refl refl refl refl refl refl

replace_socket-Moves : (h s : ℕ) (w : World) → Moves w (replace_socket h s w)
unfolding replace_socket
replace_socket-Moves h s w =
    if_ind (Moves w) (v2.host h).ready v2 (send h (codes "CONNECTED") v2) (λ _. moved)
      (λ _. chained moved (send-Moves h (codes "CONNECTED") v2))
  where
    v1 : World
    v1 = drop_old (w.host h).socket w

    v2 : World
    v2 = set_socket h s (set_host h (record (v1.host h) { server = true }) v1)

    serving : (v : World) → Moves v (set_host h (record (v.host h) { server = true }) v)
    serving v = Moves-outer refl refl refl refl refl refl

    moved : Moves w v2
    moved =
        chained (drop_old-Moves (w.host h).socket w) (chained (serving v1) (set_socket-Moves h s _))

close_socket-Moves : (s : ℕ) (w : World) → Moves w (close_socket s w)
unfolding close_socket
close_socket-Moves s w = Moves-outer refl refl refl refl refl refl

resolve-Moves :
    (o : Option ℕ) (id : ℤ) (ip : Bytes) (port : ℤ) (s : ℕ) (w : World)
    → Moves w (resolve o id ip port s w)
unfolding resolve
resolve-Moves none id ip port s w =
    chained (new_incoming-Moves ip port s w)
      (send-Moves w.next_host (codes "CONNECTED") (new_incoming ip port s w))
resolve-Moves (some h) id ip port s w = search (branching, replace_socket-Moves, close_socket-Moves)

pub on_incoming-Moves : (s : ℕ) (line : Bytes) (w : World) → Moves w (on_incoming s line w)
unfolding on_incoming on_identified
on_incoming-Moves s line w = search (branching, resolve-Moves)

pub handle_incoming-Moves : (s : ℕ) (w : World) → Moves w (handle_incoming_connection s w)
unfolding handle_incoming_connection
handle_incoming-Moves s w = Moves-outer refl refl refl refl refl refl

hang_up-Moves : (o : Option ℕ) (w : World) → MovesOk w (hang_up o w)
unfolding hang_up
hang_up-Moves none w = tt
hang_up-Moves (some s) w = Moves-outer refl refl refl refl refl refl

pub on_close-Moves : (e : Env) (h : ℕ) (w : World) → MovesOk w (on_close e h w)
unfolding on_close
on_close-Moves e h w =
    MovesOk-bind w (hang_up (w.host h).socket v) (on_host_close e h)
      (MovesOk-after (hang_up (w.host h).socket v) gone (hang_up-Moves (w.host h).socket v))
      (on_host_close-Moves e h)
  where
    v : World
    v = set_host h (record (w.host h) { ready = false }) w

    gone : Moves w v
    gone = Moves-outer refl refl refl refl refl refl
