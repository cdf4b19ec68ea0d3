-- ===== src/Api/Connected.antt =====
-- How `subscribe` of src/libpubsub.cpp ends in a connection over TCP: the statements that the subscriber and
-- the publisher exchange (src/channel.h, src/signaling.cpp), and the socket that the subscriber opens.
use libpubsub.Base.{
  Bytes, Lacks, [], arith, codes, false, inl, inr, none, pos, refl, some, suc, true, ℕ, ◌++◌, ◌<◌,
  ◌==◌, ◌^◌, ◌∙◌, ◌∷◌, ◌≡◌, ◌⊎◌,
}
use libpubsub.Text.Decimal.{show_ℕ}
use libpubsub.Socket.{frame}
use libpubsub.World.{World, Subscription, ok, Env, dialled, set_channel, update}
use libpubsub.Mesh.{send, me, is_local}
use libpubsub.Socket.Ports.{find_port}
use libpubsub.Channel.{get_channel, offer_tcp, ensure_server}
use libpubsub.Channel.Registry.{find_channel_name}
use libpubsub.Signaling.{digest_message}
use libpubsub.Api.{subscribe}
use libpubsub.Api.Requested.{request, subscribe-requested}
use libpubsub.Process.{up}
use libpubsub.Process.Flow.{offer_tcp-connected}

-- The offer of a server.
abbrev pub offer : Bytes → ℕ → Bytes
offer name port = codes "OFFER_TCP=" ++ (name ++ (b'|' ∷ show_ℕ port))

-- The channel has a server on the port.
abbrev pub Serving : ℕ → ℕ → World → Type 0
Serving c port w = (v : ℕ) × ((w.channel c).server ≡ some v) × ((w.server v).port ≡ port)

-- The channel has a server on the port, or has none, and the port is the one that a new server takes.
abbrev pub Serves : Env → ℕ → ℕ → World → Type 0
Serves e c port w =
    Serving c port w
    ⊎ (((w.channel c).server ≡ none) × (find_port e.can_bind 10000 20000 ≡ some port))

-- The process with a new server for the channel.
abbrev with_server : ℕ → ℕ → ℕ → World → World
with_server c g port w =
    set_channel c (record (w.channel c) { server = some w.next_server })
      (record w {
        server = update w.server w.next_server (record { port = port; channel = c; host = g });
        next_server = suc w.next_server;
      })

ensure_server-free :
    (e : Env) (c g port : ℕ) (w : World)
    → find_port e.can_bind 10000 20000 ≡ some port
    → ensure_server e c g none w ≡ ok (port, with_server c g port w)
unfolding ensure_server
ensure_server-free e c g port w free = rw (free, ensure_server)

-- A publisher offers the port of its server, which it makes if there is none.
offer_tcp-Serving :
    (e : Env) (c g port : ℕ) (w : World)
    → Serves e c port w
    → (w' : World) × (offer_tcp e c g w ≡ ok (send g (offer (w.channel c).name port) w'))
      × Serving c port w'
      × ((w'.channel c).name ≡ (w.channel c).name)
offer_tcp-Serving e c g port w (inl (v, has, at)) =
    (w, unfold offer_tcp ensure_server in rw (has, at) refl, (v, has, at), refl)
offer_tcp-Serving e c g port w (inr (none_yet, free)) = (
  with_server c g port w,
  unfold offer_tcp in rw (none_yet, ensure_server-free e c g port w free) refl,
  (w.next_server, ground arith, ground arith),
  ground arith,
)

-- A process `b` subscribes to a name whose channel it knows without a subscription, with a publisher on
-- another machine that has offered no port, is reached through a running socket and has an address that
-- resolves. The name holds no '|'. A process `a` has a channel of the name, and either a server for it or
-- none yet and a port to make one on; that port is neither 0 nor 2 ^ 31 and above. Then `subscribe`
-- returns a subscription and sends a request to the publisher; `a` answers the request with an offer of
-- the port, on which it then has a server; `b` dials the publisher at that port when it reads the offer,
-- and when the new socket is up the subscription is connected through it.
pub subscribe-connected :
    (e f : Env) (name : Bytes) (b a : World) (d p k c g h port : ℕ)
    → get_channel name b ≡ some d
    → (b.channel d).subscriptions ≡ []
    → (b.channel d).publisher ≡ some p
    → (b.channel d).offered_port ≡ pos 0
    → (p == me b) ≡ false
    → is_local p b ≡ false
    → (b.host p).socket ≡ some k
    → (b.socket k).stop ≡ false
    → f.dial (b.host p).ip ≡ dialled
    → Lacks b'|' name
    → get_channel name a ≡ some c
    → Serves e c port a
    → port < 2 ^ 31
    → 0 < port
    → (b1 : World) × (subscribe f name b ≡ ok (b.next_subscription, b1))
      × ((b1.socket k).sent ≡ (b.socket k).sent ++ (frame (request name) ∷ []))
      × ((a1 : World) × (digest_message e g (request name) a ≡ ok (send g (offer name port) a1))
          × Serving c port a1)
      × ((b2 : World) × (digest_message f h (offer name port) b1 ≡ ok b2)
          × ((b2.socket b1.next_socket).ip ≡ (b.host p).ip)
          × ((b2.socket b1.next_socket).port ≡ pos port)
          × ((b3 : World) × (up f b1.next_socket b2 ≡ ok b3)
              × ((b3.socket b1.next_socket).stop ≡ false)
              × ((v : Subscription) × (b3.subscription b.next_subscription ≡ some v)
                  × (v.connected ≡ true)
                  × (v.socket ≡ some b1.next_socket))))
subscribe-connected e f name b a d p k c g h port found alone pub_b unoffered other far reached
      running resolves plain known serves small real =
    let (b1, returns, listed, (v, held, own, waits), found1, pub1, hosts, sent, answers) =
      subscribe-requested f e name b a d p k c g found pub_b unoffered other far reached running
        known in
    let named : (a.channel c).name ≡ name =
      unfold get_channel in find_channel_name a.channel name c a.channels known in
    let (a1, offers, (sv, served, at), same_name) = offer_tcp-Serving e c g port a serves in
    let (_, (b2, read, done, (b3, raised, open_now, stays))) =
      rw (same_name ∙ named, at) at
        (offer_tcp-connected e f a1 b1 c d g h sv b.next_subscription p v served (rw at small)
          (rw at real) (rw (same_name ∙ named) plain) (rw (same_name ∙ named) found1)
          (listed ∙ rw alone refl) held waits own pub1 (rw hosts resolves)) in
    (
      b1,
      returns,
      sent,
      (a1, answers ∙ offers ∙ rw named refl, (sv, served, at)),
      (
        b2,
        read,
        done.at_ip ∙ rw hosts refl,
        done.at_port,
        (b3, raised, stays, (_, open_now, refl, refl)),
      ),
    )
