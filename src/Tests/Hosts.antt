-- ===== src/Tests/Hosts.antt =====
-- Tests of the registry of hosts, of the handshake and of the start.
use libpubsub.Server.{TcpServer}
use libpubsub.Server
use libpubsub.Server.Connections.{count, repeated, shut_if, server-connections}
use libpubsub.Base.{
  All, Bytes, List, [], arith, codes, equal, false, pos, refl, some, true, ℕ, ℤ, ◌++◌, ◌∷◌, ◌≡◌,
  ◌≢◌,
}
use libpubsub.Socket.{frame, recv_lines}
use libpubsub.World.{World, ok, set_host}
use libpubsub.Mesh.{
  welcome, me, broadcast, send, id_message, display_ip, get_host, add_host, host_lines, has_address,
  remote_host,
}
use libpubsub.Mesh.Broadcast.{added, broadcast-sent}
use libpubsub.Mesh.Distinct.{IsRegistry, add_host-registered}
use libpubsub.Peer.{on_receive, on_incoming, resolve}
use libpubsub.Peer.Handshake.{greeting-read, ready_lines, host_lines-received}
use libpubsub.Peer.Takes.{Adopted, Lasts}
use libpubsub.Peer.Collision.{IsShut, IsMute, resolve_collision}
use libpubsub.Api.{parse_args}
use libpubsub.Api.Arguments.{IsName, joined, IsKnown, url_ip, url_port, parse_args-registered}
use libpubsub.Tests.{easy, second, pair, news}

broadcast-sent_example :
    ((broadcast news pair).socket 0).sent ≡ (pair.socket 0).sent ++ added news pair 0 (1 ∷ [])
broadcast-sent_example = broadcast-sent news pair 0

pair-IsRegistry : IsRegistry pair
unfolding get_host
pair-IsRegistry = ((omega arith, (omega arith, tt)), (refl, (refl, tt)))

add_host-registered_example :
    (w' : World) × (add_host easy (codes "10.0.0.3") (pos 12212) pair ≡ ok w')
    × IsRegistry w'
    × ((h : ℕ) × (get_host (codes "10.0.0.3") (pos 12212) w' ≡ some h))
    × ((ip' : Bytes) (port' : ℤ)
        → has_address ip' port' (remote_host (codes "10.0.0.3") (pos 12212) false) ≡ false
        → get_host ip' port' w' ≡ get_host ip' port' pair)
    × (add_host second (codes "10.0.0.3") (pos 12212) w' ≡ ok w')
add_host-registered_example =
    add_host-registered easy second (codes "10.0.0.3") (pos 12212) pair pair-IsRegistry refl

-- The other side of a collision, with a higher number.
abbrev higher : World
higher = record pair { id = pos 9 }

resolve_collision_example :
    Adopted 1 5 (resolve (some 1) (pos 9) (codes "10.0.0.2") (pos 12213) 5 pair)
    × Lasts 5 pair (resolve (some 1) (pos 9) (codes "10.0.0.2") (pos 12213) 5 pair)
    × IsShut ((resolve (some 1) (pos 9) (codes "10.0.0.2") (pos 12213) 5 pair).socket 0)
    × IsMute ((resolve (some 1) (pos 9) (codes "10.0.0.2") (pos 12213) 5 pair).socket 0)
    × ((resolve (some 1) (pos 7) (codes "10.0.0.1") (pos 12212) 6 higher).host ≡ higher.host)
    × IsShut ((resolve (some 1) (pos 7) (codes "10.0.0.1") (pos 12212) 6 higher).socket 6)
    × ((t : ℕ)
        → t ≢ 6
        → (resolve (some 1) (pos 7) (codes "10.0.0.1") (pos 12212) 6 higher).socket t
          ≡ higher.socket t)
resolve_collision_example =
    resolve_collision pair higher 1 1 0 5 6 (codes "10.0.0.2") (codes "10.0.0.1") (pos 12213)
      (pos 12212) refl refl refl refl (omega arith)

greeting-read_example :
    (((welcome 1 higher).socket 0).sent
      ≡ (higher.socket 0).sent
        ++ (frame (id_message higher)
            ∷ frame (codes "YOU=" ++ display_ip (higher.socket 0).ip)
            ∷ []))
    × (on_receive easy 1 (id_message higher) pair
        ≡ ok (
            send 1
              (codes "CONNECTED")
              (set_host 1 (record (pair.host 1) { id = pos 9; port = pos 12212 }) pair)))
    × (on_receive easy 1 (codes "YOU=" ++ display_ip (higher.socket 0).ip) pair
        ≡ ok (
            set_host
              (me pair)
              (record (pair.host (me pair)) { ip = display_ip (higher.socket 0).ip; ready = true })
              pair))
    × (on_incoming 0 (id_message higher) pair
        ≡ resolve
            (get_host (display_ip (codes "10.0.0.2")) (pos 12212) pair)
            (pos 9)
            (display_ip (codes "10.0.0.2"))
            (pos 12212)
            0
            pair)
greeting-read_example = greeting-read easy higher pair 1 0 1 0 (omega arith) (omega arith) refl refl

host_lines-received_example :
    recv_lines (frame (host_lines pair.host (0 ∷ 1 ∷ []))) ≡ ready_lines pair.host (0 ∷ 1 ∷ [])
host_lines-received_example =
    host_lines-received pair.host (0 ∷ 1 ∷ []) (ground arith, (ground arith, tt))

-- A server with the connection 4, twice.
abbrev serves : TcpServer
serves = record { port = 10000; stop = false; listening = true; connections = 4 ∷ 4 ∷ [] }

server-connections_example :
    ((Server.broadcast news serves pair.socket 4).sent ≡ (pair.socket 4).sent ++ repeated 2 news)
    × ((Server.close serves pair.socket).1 4 ≡ shut_if 2 (pair.socket 4))
unfolding count
server-connections_example = server-connections news serves pair.socket 4

-- publish -h 10.0.0.3:12212,10.0.0.2:12213 news
abbrev two_urls : List Bytes
two_urls = codes "10.0.0.3:12212" ∷ codes "10.0.0.2:12213" ∷ []

two_urls-IsName : All (IsName b',') two_urls
unfolding equal
two_urls-IsName = ((refl, ground arith), ((refl, ground arith), tt))

parse_args-registered_example :
    (w' : World) × (parse_args easy
        (codes "publish" ∷ codes "-h" ∷ joined b',' two_urls ∷ news ∷ [])
        pair
      ≡ ok w')
    × IsRegistry w'
    × All (λ url. IsKnown (url_ip url) (url_port url) w') two_urls
    × ((ip : Bytes) (port : ℤ) → IsKnown ip port pair → IsKnown ip port w')
parse_args-registered_example =
    parse_args-registered easy (codes "publish") two_urls (news ∷ []) pair pair-IsRegistry
      two_urls-IsName (refl, (refl, tt))
