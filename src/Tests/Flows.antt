-- ===== src/Tests/Flows.antt =====
-- Tests of how a channel is announced, connected and written to.
use libpubsub.Process.Served.{IsOlder, accept_subscriptor-served}
use libpubsub.Tests.Channels.{knowing-IsFree}
use libpubsub.Base.{
  All, Bytes, [], arith, codes, false, inr, none, pos, refl, some, true, ℕ, ◌++◌, ◌<◌, ◌∷◌, ◌≡◌,
}
use libpubsub.Text.Decimal.{show_ℕ}
use libpubsub.World.{World, ok, fault, deleted, Subscription, tcp}
use libpubsub.Mesh.{send, me_of, is_local}
use libpubsub.Channel.{get_channel, write, offer_tcp, channel_named}
use libpubsub.Channel.Delivery.{copies}
use libpubsub.Signaling.{digest_message}
use libpubsub.Signaling.Announce.{Publishes}
use libpubsub.Socket.{frame}
use libpubsub.Socket.Ports.{find_port, find_port_first}
use libpubsub.Api
use libpubsub.Api.Requested.{request}
use libpubsub.Api.Connected.{offer, Serving, subscribe-connected}
use libpubsub.Api.Announced.{statement, publish-announced}
use libpubsub.Mesh.Broadcast.{added}
use libpubsub.Subscription
use libpubsub.Process.Dangling.{CanDial, connect_tcp-dangling}
use libpubsub.Process.{up, down, accept_subscriptor}
use libpubsub.Process.Flow.{Dialled, offer_tcp-connected}
use libpubsub.Tests.{
  easy, second, news, knowing_news, following_news, open_on, serving, waiting, with_channel_of,
  pair,
}

news_absent : get_channel news pair ≡ none
unfolding get_channel
news_absent = refl

publish-announced_example :
    (a' : World) × (Api.publish easy news pair ≡ ok (0, a'))
    × ((a'.channel 0).publisher ≡ some 0)
    × ((s : ℕ)
        → (a'.socket s).sent ≡ (pair.socket s).sent ++ added (statement news pair) pair s (1 ∷ []))
    × ((b' : World) × (digest_message second 1 (statement news pair) knowing_news ≡ ok b')
        × Publishes news (some 1) b')
unfolding me_of
publish-announced_example =
    publish-announced easy second news pair knowing_news 1 (ground arith) news_absent
      (omega arith, tt) knowing-IsFree

-- The publisher has a server on port 10000.
abbrev offering_news : World
offering_news =
    record (with_channel_of (record (channel_named news) { publisher = some 0; server = some 0 })) {
      server = λ v. record { port = 10000; channel = 0; host = 1 };
      next_server = 1;
    }

abbrev news_offer : Bytes
news_offer = codes "OFFER_TCP=" ++ (news ++ (b'|' ∷ show_ℕ 10000))

waits_for_news : get_channel news waiting ≡ some 0
unfolding get_channel
waits_for_news = refl

abbrev pending : Subscription
pending = record (open_on 0) { connected = false; socket = none }

offer_tcp_example :
    (offer_tcp easy 0 1 offering_news ≡ ok (send 1 news_offer offering_news))
    × ((b1 : World) × (digest_message second 1 news_offer waiting ≡ ok b1)
        × Dialled 0 1 pending (codes "10.0.0.2") (pos 10000) b1
        × ((b2 : World) × (up second 1 b1 ≡ ok b2)
            × (b2.subscription 0
                ≡ some (record pending { connected = true; socket = some 1; transport = tcp }))
            × ((b2.socket 1).stop ≡ false)))
offer_tcp_example =
    offer_tcp-connected easy second offering_news waiting 0 0 1 1 0 0 1 pending refl (omega arith)
      (omega arith) (ground arith) waits_for_news refl refl refl refl refl refl

follows_news : get_channel news following_news ≡ some 0
unfolding get_channel
follows_news = refl

offers_news : get_channel news offering_news ≡ some 0
unfolding get_channel
offers_news = refl

far_away : is_local 1 following_news ≡ false
unfolding is_local
far_away = refl

-- The publisher has no server yet.
abbrev lazy_news : World
lazy_news = with_channel_of (record (channel_named news) { publisher = some 0 })

lazy_found : get_channel news lazy_news ≡ some 0
unfolding get_channel
lazy_found = refl

lazy_port : find_port easy.can_bind 10000 20000 ≡ some 10000
lazy_port = find_port_first easy.can_bind 10000 10000 refl

subscribe-connected_example :
    (b1 : World) × (Api.subscribe second news following_news ≡ ok (0, b1))
    × ((b1.socket 0).sent ≡ (following_news.socket 0).sent ++ (frame (request news) ∷ []))
    × ((a1 : World) × (digest_message easy 1 (request news) lazy_news
          ≡ ok (send 1 (offer news 10000) a1))
        × Serving 0 10000 a1)
    × ((b2 : World) × (digest_message second 1 (offer news 10000) b1 ≡ ok b2)
        × ((b2.socket b1.next_socket).ip ≡ codes "10.0.0.2")
        × ((b2.socket b1.next_socket).port ≡ pos 10000)
        × ((b3 : World) × (up second b1.next_socket b2 ≡ ok b3)
            × ((b3.socket b1.next_socket).stop ≡ false)
            × ((v : Subscription) × (b3.subscription 0 ≡ some v)
                × (v.connected ≡ true)
                × (v.socket ≡ some b1.next_socket))))
unfolding me_of
subscribe-connected_example =
    subscribe-connected easy second news following_news lazy_news 0 1 0 0 1 1 10000 follows_news
      refl refl refl refl far_away refl refl refl (ground arith) lazy_found (inr (refl, lazy_port))
      (omega arith) (omega arith)

pending-CanDial : CanDial easy 0 1 pending waiting
pending-CanDial = record { alive = refl; waits = refl; publisher = refl; resolves = refl }

connect_tcp-dangling_example :
    (w1 : World) × (Subscription.connect_tcp easy 0 waiting ≡ ok w1)
    × ((w2 : World) × (Subscription.connect_tcp easy 0 w1 ≡ ok w2)
        × ((w3 : World) × (Subscription.close 0 w2 ≡ ok w3)
            × (up second 1 w3 ≡ fault deleted)
            × (down second 1 w3 ≡ fault deleted)))
connect_tcp-dangling_example = connect_tcp-dangling easy second 0 1 pending waiting pending-CanDial

-- Two subscriptors of a channel with a server, to which a third connects.
abbrev inviting : World
inviting = record serving {
  server = λ v. record { port = 10000; channel = 0; host = 1 };
  next_server = 1;
  next_socket = 2;
}

inviting-IsOlder : All (IsOlder inviting) (0 ∷ 1 ∷ [])
inviting-IsOlder = (
  (omega arith, (open_on 0, 0, (refl, refl, refl, omega arith))),
  ((omega arith, (open_on 1, 1, (refl, refl, refl, omega arith))), tt),
)

served_example :
    (w' : World) × (write 0
        (codes "hello")
        (accept_subscriptor 0 (codes "10.0.0.3") (pos 40000) inviting)
      ≡ ok w')
    × ((w'.socket 2).sent ≡ codes "hello" ∷ [])
    × ((j : ℕ)
        → j < 2
        → (w'.socket j).sent
          ≡ (inviting.socket j).sent ++ copies inviting (codes "hello") j (0 ∷ 1 ∷ []))
served_example =
    accept_subscriptor-served 0 (codes "10.0.0.3") (pos 40000) (codes "hello") inviting
      inviting-IsOlder
