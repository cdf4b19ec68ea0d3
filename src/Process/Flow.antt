-- ===== src/Process/Flow.antt =====
-- How a subscription gets its connection: the offer of src/channel.h, the dialling of src/channel.cpp and the
-- thread of src/utils/Socket.cpp that reports the connection.
use libpubsub.Base.{
  Bytes, Lacks, [], ap, arith, codes, eq_ℤ, eq_ℤ_iff, false, pos, refl, some, true, ℕ, ℤ, ◌++◌, ◌<◌,
  ◌^◌, ◌∙◌, ◌∷◌, ◌≡◌,
}
use libpubsub.Text.Decimal.{show_ℕ}
use libpubsub.Socket.{connected, opened, sub_open, sub_message}
use libpubsub.World.{
  World, Channel, Subscription, ok, Env, tcp, dialled, set_channel, set_socket_at, set_subscription,
}
use libpubsub.Mesh.{send, connect_socket}
use libpubsub.Subscription
use libpubsub.Subscription.{deref, attach_socket, dial_publisher}
use libpubsub.Channel
use libpubsub.Channel.{get_channel, for_each, offer_tcp}
use libpubsub.Signaling.{digest_message}
use libpubsub.Signaling.Transport.{offer_tcp-answered}
use libpubsub.Process.{up, call}

-- The process behind the dialling of a subscription.
abbrev pub dialing : ℕ → Subscription → Bytes → ℤ → World → World
dialing s v ip port w =
    set_socket_at w.next_socket (connected ip port ((attach_socket s v w).socket w.next_socket))
      (attach_socket s v w)

dial_publisher-some :
    (f : Env) (s : ℕ) (c : Channel) (p : ℕ) (w : World)
    → c.publisher ≡ some p
    → f.dial (w.host p).ip ≡ dialled
    → dial_publisher f s c c.publisher w
      ≡ ok (set_socket_at s (connected (w.host p).ip c.offered_port (w.socket s)) w)
unfolding dial_publisher connect_socket
dial_publisher-some f s c p w h d = rw (h, dial_publisher, d, connect_socket)

pub connect_tcp-dialing :
    (f : Env) (s p : ℕ) (v : Subscription) (w : World)
    → w.subscription s ≡ some v
    → v.connected ≡ false
    → (w.channel v.channel).publisher ≡ some p
    → f.dial (w.host p).ip ≡ dialled
    → Subscription.connect_tcp f s w
      ≡ ok (dialing s v (w.host p).ip (w.channel v.channel).offered_port w)
unfolding Subscription.connect_tcp attach_socket
connect_tcp-dialing f s p v w a n h d =
    rw (a, deref, n)
      (dial_publisher-some f w.next_socket (w.channel v.channel) p (attach_socket s v w) h d)

-- What the thread of the dialled socket finds.
pub record Dialled (s n : ℕ) (v : Subscription) (ip : Bytes) (port : ℤ) (w' : World) : Type 0 where
  pub at_ip : (w'.socket n).ip ≡ ip
  pub at_port : (w'.socket n).port ≡ port
  pub runs : (w'.socket n).started ≡ true
  pub opens_sub : (w'.socket n).on_open ≡ some (sub_open s)
  pub hands_over : (w'.socket n).cb_recv ≡ some (sub_message s)
  pub waits :
      w'.subscription s ≡ some (record v { connected = false; socket = some n; transport = tcp })

dialing-Dialled :
    (s : ℕ) (v : Subscription) (ip : Bytes) (port : ℤ) (w : World)
    → Dialled s w.next_socket v ip port (dialing s v ip port w)
unfolding attach_socket connected
dialing-Dialled s v ip port w = record {
  at_ip = ground arith;
  at_port = ground arith;
  runs = ground arith;
  opens_sub = ground arith;
  hands_over = ground arith;
  waits = ground arith;
}

channel_dials :
    (f : Env) (d s q : ℕ) (w w' : World)
    → (w.channel d).offered_port ≡ pos q
    → 0 < q
    → (w.channel d).subscriptions ≡ s ∷ []
    → Subscription.connect_tcp f s w ≡ ok w'
    → Channel.connect_tcp f d w ≡ ok w'
unfolding Channel.connect_tcp for_each
channel_dials f d s q w w' o l one r =
    let busy : eq_ℤ (pos q) (pos 0) ≡ false = ground (arith, eq_ℤ_iff (pos q) (pos 0)) in
    rw (o, busy, one, r)

-- The thread of the dialled socket reports the connection.
pub up_calls :
    (f : Env) (k s : ℕ) (w : World)
    → (w.socket k).on_open ≡ some (sub_open s)
    → up f k w ≡ Subscription.on_open s (set_socket_at k (opened (w.socket k)) w)
up_calls f k s w e =
    unfold up in
    ap (λ o. call f k o [] (set_socket_at k (opened (w.socket k)) w)) e ∙ (unfold call in refl)

up_connects :
    (f : Env) (s n : ℕ) (v : Subscription) (ip : Bytes) (port : ℤ) (w' : World)
    → Dialled s n v ip port w'
    → (w'' : World) × (up f n w' ≡ ok w'')
      × (w''.subscription s
          ≡ some (record v { connected = true; socket = some n; transport = tcp }))
      × ((w''.socket n).stop ≡ false)
up_connects f s n v ip port w' h = (
  set_subscription s (some open_now) u,
  up_calls f n s w' h.opens_sub ∙ opens u h.waits,
  ground arith,
  unfold opened in ground arith,
)
  where
    u : World
    u = set_socket_at n (opened (w'.socket n)) w'

    open_now : Subscription
    open_now = record v { connected = true; socket = some n; transport = tcp }

    opens :
        (u : World)
        → u.subscription s ≡ some (record v { connected = false; socket = some n; transport = tcp })
        → Subscription.on_open s u ≡ ok (set_subscription s (some open_now) u)
    opens u e = unfold Subscription.on_open deref in rw (e, deref)

-- A publisher `a` has a server for a channel, whose name holds no '|', on a port that is neither 0 nor
-- 2 ^ 31 and above. A subscriber `b` has a channel of that name with one subscription, which belongs to
-- it and is neither deleted nor connected, and a publisher whose address resolves. The offer that `a`
-- sends makes `b` dial the publisher's address at that port, for the subscription and with its
-- callbacks, and when the new socket is up the subscription is connected through it.
pub offer_tcp-connected :
    (e f : Env) (a b : World) (c d g h k s p : ℕ) (v : Subscription)
    → (a.channel c).server ≡ some k
    → (a.server k).port < 2 ^ 31
    → 0 < (a.server k).port
    → Lacks b'|' (a.channel c).name
    → get_channel (a.channel c).name b ≡ some d
    → (b.channel d).subscriptions ≡ s ∷ []
    → b.subscription s ≡ some v
    → v.connected ≡ false
    → v.channel ≡ d
    → (b.channel d).publisher ≡ some p
    → f.dial (b.host p).ip ≡ dialled
    → let offer = codes "OFFER_TCP=" ++ ((a.channel c).name ++ (b'|' ∷ show_ℕ (a.server k).port)) in
      (offer_tcp e c g a ≡ ok (send g offer a))
      × ((b1 : World) × (digest_message f h offer b ≡ ok b1)
          × Dialled s b.next_socket v (b.host p).ip (pos (a.server k).port) b1
          × ((b2 : World) × (up f b.next_socket b1 ≡ ok b2)
              × (b2.subscription s
                  ≡ some
                      (record v { connected = true; socket = some b.next_socket; transport = tcp }))
              × ((b2.socket b.next_socket).stop ≡ false)))
offer_tcp-connected e f a b c d g h k s p v served small real l found one held waits own pub_b
      resolves =
    let (sent, read) = offer_tcp-answered e f a b c d g h k served small l found in
    let done = dialing-Dialled s v (b.host p).ip (pos port) told in
    (
      sent,
      (
        dialing s v (b.host p).ip (pos port) told,
        read ∙ channel_dials f d s port told _ stored real (ground (arith, one)) dials,
        done,
        up_connects f s b.next_socket v (b.host p).ip (pos port) _ done,
      ),
    )
  where
    port : ℕ
    port = (a.server k).port

    told : World
    told = set_channel d (record (b.channel d) { offered_port = pos port }) b

    stored : (told.channel d).offered_port ≡ pos port
    stored = ground arith

    at_d : (told.channel v.channel).offered_port ≡ pos port
    at_d = ground (arith, own)

    dials : Subscription.connect_tcp f s told ≡ ok (dialing s v (b.host p).ip (pos port) told)
    dials =
        connect_tcp-dialing f s p v told held waits (ground (arith, own, pub_b)) resolves
        ∙ ap (λ q. ok (dialing s v (b.host p).ip q told)) at_d
