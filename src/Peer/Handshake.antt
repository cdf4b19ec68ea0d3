-- ===== src/Peer/Handshake.antt =====
-- What a host sends when a connection opens (Host::welcome, broadcast_hosts) against what the other side
-- reads out of it (Host::on_receive, handle_incoming_connection), in src/mesh.cpp.
use libpubsub.Base.{
  All, Bytes, Lacks, List, [], ap, append_assoc, arith, codes, false, if_ind, if◌then◌else◌, inl,
  inr, refl, some, true, ℕ, ℤ, ◌++◌, ◌∙◌, ◌∷◌, ◌≡◌,
}
use libpubsub.Text.{str_after}
use libpubsub.Text.Split.{str_after-byte, str_before-byte}
use libpubsub.Text.Decimal.{show, IsInt, atoi-show_last, show-Lacks, atoi}
use libpubsub.Socket.{frame, recv_lines}
use libpubsub.Socket.Framing.{Clean, IsMessage, text_lines, recv_lines-text_lines}
use libpubsub.World.{World, Host, ok, Env, set_host}
use libpubsub.Peer.Welcome.{welcome_lem}
use libpubsub.Mesh.{
  welcome, me, id_line, id_message, display_ip, host_to_string, host_lines, send, get_host,
  add_host,
}
use libpubsub.Peer.{
  line_id, line_port, on_receive, identify, learn_address, learn_host, on_incoming, on_identified,
  resolve,
}

line_id-id_line : (id port : ℤ) → IsInt id → line_id (id_line id port) ≡ id
unfolding line_id id_line
line_id-id_line id port h =
    let before = str_before-byte b'|' (codes "ID=" ++ show id) (codes "PORT=" ++ show port) (
      omega arith,
      (omega arith, (omega arith, show-Lacks b'|' id (inr (omega arith)) (omega arith))),
    ) in
    let after = str_after-byte b'=' (codes "ID") (show id) (omega arith, (omega arith, tt)) in
    ap (λ s. atoi (str_after s (codes "="))) before ∙ ap atoi after ∙ atoi-show_last id h

line_port-id_line : (id port : ℤ) → IsInt port → line_port (id_line id port) ≡ port
unfolding line_port id_line
line_port-id_line id port h =
    let rest = str_after-byte b'|' (codes "ID=" ++ show id) (codes "PORT=" ++ show port) (
      omega arith,
      (omega arith, (omega arith, show-Lacks b'|' id (inr (omega arith)) (omega arith))),
    ) in
    let after =
      str_after-byte b'=' (codes "PORT") (show port)
        (omega arith, (omega arith, (omega arith, (omega arith, tt)))) in
    ap (λ s. atoi (str_after s (codes "="))) rest ∙ ap atoi after ∙ atoi-show_last port h

on_receive-id :
    (e : Env) (h : ℕ) (id port : ℤ) (w : World)
    → on_receive e h (id_line id port) w ≡ ok (identify h (id_line id port) w)
unfolding on_receive id_line
on_receive-id e h id port w = refl

on_receive-you :
    (e : Env) (h : ℕ) (ip : Bytes) (w : World)
    → on_receive e h (codes "YOU=" ++ ip) w
      ≡ ok (learn_address (str_after (codes "YOU=" ++ ip) (codes "=")) w)
unfolding on_receive
on_receive-you e h ip w = refl

on_incoming-id :
    (s : ℕ) (id port : ℤ) (w : World)
    → on_incoming s (id_line id port) w ≡ on_identified s (id_line id port) w
unfolding on_incoming id_line
on_incoming-id s id port w = refl

-- The two lines with which process `a` greets, whose number and port are in the range of an `int`,
-- are read back on the other side. Host::welcome sends exactly those two on its running socket, the
-- address in the second being the one that the socket names. A host that receives the first takes the
-- number and the port of `a` and answers "CONNECTED", and the second tells the process its own address; on an accepted connection the first line
-- starts the choice of a connection, with the number and the port of `a` and the host that is registered
-- under the socket's address and that port.
pub greeting-read :
    (e : Env) (a w : World) (g k h s : ℕ)
    → IsInt a.id
    → IsInt a.signaling_port
    → (a.host g).socket ≡ some k
    → (a.socket k).stop ≡ false
    → let you = codes "YOU=" ++ display_ip (a.socket k).ip in
      (((welcome g a).socket k).sent ≡ (a.socket k).sent ++ (frame (id_message a) ∷ frame you ∷ []))
      × (on_receive e h (id_message a) w
          ≡ ok (
              send h
                (codes "CONNECTED")
                (set_host h (record (w.host h) { id = a.id; port = a.signaling_port }) w)))
      × (on_receive e h you w
          ≡ ok (
              set_host
                (me w)
                (record (w.host (me w)) { ip = display_ip (a.socket k).ip; ready = true })
                w))
      × (on_incoming s (id_message a) w
          ≡ resolve
              (get_host (display_ip (w.socket s).ip) a.signaling_port w)
              a.id
              (display_ip (w.socket s).ip)
              a.signaling_port
              s
              w)
greeting-read e a w g k h s i p own running =
    let number = line_id-id_line a.id a.signaling_port i in
    let port = line_port-id_line a.id a.signaling_port p in
    let ip = display_ip (a.socket k).ip in
    (
      welcome_lem g k a own running,
      on_receive-id e h a.id a.signaling_port w ∙ (unfold identify in rw (number, port)),
      on_receive-you e h ip w
          ∙ (unfold learn_address in
              ap (λ x. ok (learn_address x w))
                (str_after-byte b'=' (codes "YOU") ip
                  (omega arith, (omega arith, (omega arith, tt))))),
      on_incoming-id s a.id a.signaling_port w ∙ (unfold on_identified in rw (number, port)),
    )

-- The line for one host.
pub host_line : Host → Bytes
unfolding host_to_string
host_line v = codes "Host=" ++ host_to_string v

-- The lines for the ready hosts of a list.
pub ready_lines : (ℕ → Host) → List ℕ → List Bytes
unfolding host_line
ready_lines heap [] = []
ready_lines heap (h ∷ hs) =
    let rest = ready_lines heap hs in if (heap h).ready then host_line (heap h) ∷ rest else rest

host_lines-text_lines :
    (heap : ℕ → Host) (hs : List ℕ) → host_lines heap hs ≡ text_lines (ready_lines heap hs)
unfolding host_lines ready_lines
host_lines-text_lines heap [] = refl
host_lines-text_lines heap (h ∷ hs) = ground (
  arith,
  host_lines-text_lines heap hs,
  append_assoc (host_to_string (heap h)) (b'\n' ∷ []) (text_lines (ready_lines heap hs)),
)

Clean-of_Lacks : (s : Bytes) → Lacks 0 s → Lacks b'\n' s → Clean s
Clean-of_Lacks [] h k = tt
Clean-of_Lacks (c ∷ s) h k = (h.0, k.0, Clean-of_Lacks s h.1 k.1)

Clean-append : (a b : Bytes) → Clean a → Clean b → Clean (a ++ b)
Clean-append [] b h k = k
Clean-append (c ∷ a) b h k = (h.0, h.1, Clean-append a b h.2 k)

show-Clean : (z : ℤ) → Clean (show z)
show-Clean z =
    Clean-of_Lacks (show z) (show-Lacks 0 z (inl (omega arith)) (omega arith))
      (show-Lacks b'\n' z (inl (omega arith)) (omega arith))

host_line-IsMessage : (v : Host) → Clean v.ip → IsMessage (host_line v)
unfolding host_line host_to_string
host_line-IsMessage v h = (
  λ e. cc,
  Clean-append (codes "Host=") _ (ground arith)
      (Clean-append v.ip (b':' ∷ show v.port) h (omega arith, omega arith, show-Clean v.port)),
)

ready_lines-IsMessage :
    (heap : ℕ → Host) (hs : List ℕ)
    → All (λ h. Clean (heap h).ip) hs
    → All IsMessage (ready_lines heap hs)
unfolding ready_lines
ready_lines-IsMessage heap [] a = tt
ready_lines-IsMessage heap (h ∷ hs) (a, rest) =
    if_ind (All IsMessage) (heap h).ready (host_line (heap h) ∷ ready_lines heap hs)
      (ready_lines heap hs)
      (λ _. (host_line-IsMessage (heap h) a, ready_lines-IsMessage heap hs rest))
      (λ _. ready_lines-IsMessage heap hs rest)

learn_host-line :
    (e : Env) (v : Host) (w : World)
    → Lacks b':' v.ip
    → IsInt v.port
    → learn_host e (host_line v) w ≡ add_host e v.ip v.port w
unfolding learn_host host_line host_to_string
learn_host-line e v w l i =
    let text = v.ip ++ (b':' ∷ show v.port) in
    let after =
      str_after-byte b'=' (codes "Host") text
        (omega arith, (omega arith, (omega arith, (omega arith, tt)))) in
    rw (
      after,
      str_before-byte b':' v.ip (show v.port) l,
      str_after-byte b':' v.ip (show v.port) l,
      atoi-show_last v.port i,
    )

on_receive-Host :
    (e : Env) (h : ℕ) (v : Host) (w : World)
    → (w.host h).ready ≡ true
    → on_receive e h (host_line v) w ≡ learn_host e (host_line v) w
unfolding on_receive host_line
on_receive-Host e h v w r = rw r

-- What broadcast_hosts sends is received as one message for each ready host, in the order of the
-- registry, where no address holds a NUL or a newline.
pub host_lines-received :
    (heap : ℕ → Host) (hs : List ℕ)
    → All (λ h. Clean (heap h).ip) hs
    → recv_lines (frame (host_lines heap hs)) ≡ ready_lines heap hs
host_lines-received heap hs a =
    rw (host_lines-text_lines heap hs)
      (recv_lines-text_lines (ready_lines heap hs) (ready_lines-IsMessage heap hs a))

-- A "Host=" line for a host whose address holds no ':' and whose port is in the range of an `int`
-- makes the receiver add the host of that address, if it comes from a ready host.
pub host_line-learnt :
    (e : Env) (h : ℕ) (v : Host) (w : World)
    → (w.host h).ready ≡ true
    → Lacks b':' v.ip
    → IsInt v.port
    → on_receive e h (host_line v) w ≡ add_host e v.ip v.port w
host_line-learnt e h v w r l i = on_receive-Host e h v w r ∙ learn_host-line e v w l i
