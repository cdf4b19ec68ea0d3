-- ===== src/Api/Requested.antt =====
-- `subscribe` of src/libpubsub.cpp on a channel that another host publishes, and what the publisher makes of
-- the request (src/channel.h, src/signaling.cpp).
use libpubsub.Base.{
  Bytes, List, [], ap, arith, codes, equal, false, none, pos, refl, some, true, ℕ, ◌++◌, ◌==◌, ◌||◌,
  ◌∙◌, ◌∷◌, ◌≡◌,
}
use libpubsub.Socket.{frame, write}
use libpubsub.World.{World, Subscription, tcp, ok, Env, socket_write}
use libpubsub.Mesh.{send, send_on, me, is_local}
use libpubsub.Subscription
use libpubsub.Channel
use libpubsub.Channel.{get_channel, get_or_create_channel, connect, connect_to, is_empty, offer_tcp}
use libpubsub.Channel.Registry.{find_channel_name, find_channel-cong}
use libpubsub.Channel.Publisher.{connect_tcp-request}
use libpubsub.Signaling.{digest_message, with_channel, make_offer_tcp}
use libpubsub.Api.{subscribe}

-- The request that connect_tcp of a channel sends to the publisher.
abbrev pub request : Bytes → Bytes
request name = codes "CONNECT_TCP=" ++ name

is_empty-append : (xs : List ℕ) (x : ℕ) → is_empty (xs ++ (x ∷ [])) ≡ false
unfolding is_empty
is_empty-append [] x = refl
is_empty-append (y ∷ xs) x = refl

-- The publisher's side.
digest-request :
    (f : Env) (g c : ℕ) (name : Bytes) (a : World)
    → get_channel name a ≡ some c
    → digest_message f g (request name) a ≡ offer_tcp f c g a
digest-request f g c name a e = unfold digest_message make_offer_tcp with_channel in rw e refl

-- A channel with a publisher elsewhere that has offered nothing, and with a subscription.
connect_requests :
    (e : Env) (d p : ℕ) (w : World)
    → (w.channel d).publisher ≡ some p
    → (w.channel d).offered_port ≡ pos 0
    → is_empty (w.channel d).subscriptions ≡ false
    → (p == me w) ≡ false
    → is_local p w ≡ false
    → connect e d w ≡ ok (send p (request (w.channel d).name) w)
connect_requests e d p w h o some_sub other far =
    let away : (p == me w
          || equal (w.host p).ip (codes "localhost")
          || equal (w.host p).ip (codes "0.0.0.0")
          || equal (w.host p).ip (w.host (me w)).ip)
        ≡ false =
      unfold is_local in far in
    unfold connect in
    rw h (unfold connect_to in rw (some_sub, away, other) (connect_tcp-request e d p w h o))

-- What send does to the socket of a host that is reached.
send_sent :
    (p k : ℕ) (msg : Bytes) (w : World)
    → (w.host p).socket ≡ some k
    → (w.socket k).stop ≡ false
    → send p msg w ≡ socket_write k msg w
unfolding send send_on
send_sent p k msg w e f = rw (e, f) refl

-- Where a channel of the name has a publisher that is not this machine and has offered no port, and the
-- publisher is reached through a running socket: `subscribe` returns a new subscription of the channel,
-- which is not connected yet, and sends one request on that socket. A process that reads the request and
-- has a channel of the name answers with its offer for that channel.
pub subscribe-requested :
    (e f : Env) (name : Bytes) (b a : World) (d p k c g : ℕ)
    → get_channel name b ≡ some d
    → (b.channel d).publisher ≡ some p
    → (b.channel d).offered_port ≡ pos 0
    → (p == me b) ≡ false
    → is_local p b ≡ false
    → (b.host p).socket ≡ some k
    → (b.socket k).stop ≡ false
    → get_channel name a ≡ some c
    → (b' : World) × (subscribe e name b ≡ ok (b.next_subscription, b'))
      × ((b'.channel d).subscriptions ≡ (b.channel d).subscriptions ++ (b.next_subscription ∷ []))
      × ((v : Subscription) × (b'.subscription b.next_subscription ≡ some v)
          × (v.channel ≡ d)
          × (v.connected ≡ false))
      × (get_channel name b' ≡ some d)
      × ((b'.channel d).publisher ≡ some p)
      × (b'.host ≡ b.host)
      × ((b'.socket k).sent ≡ (b.socket k).sent ++ (frame (request name) ∷ []))
      × (digest_message f g (request name) a ≡ offer_tcp f c g a)
subscribe-requested e f name b a d p k c g found h o other far reached running known = (
  socket_write k (request name) v,
  unfold subscribe in rw (found, get_or_create_channel) calls,
  unfold socket_write in (listed ∙ ground arith),
  unfold socket_write Subscription.new_subscription in (fresh, ground arith, refl, refl),
  unfold socket_write Subscription.new_subscription get_channel in
      (find_channel-cong b.channel v.channel name b.channels names ∙ found),
  unfold socket_write in kept.0,
  unfold socket_write Subscription.new_subscription in refl,
  sent,
  digest-request f g c name a known,
)
  where
    v : World
    v = Subscription.new_subscription d false b

    fresh : Subscription
    fresh = record {
      channel = d;
      host = some (me b);
      is_async = false;
      connected = false;
      transport = tcp;
      socket = none;
      memory = none;
    }

    names : (x : ℕ) → (v.channel x).name ≡ (b.channel x).name
    names x = unfold Subscription.new_subscription in ground arith

    elsewhere : (p == me v) ≡ false
    elsewhere = unfold Subscription.new_subscription in other

    outside : is_local p v ≡ false
    outside = unfold is_local Subscription.new_subscription in far

    holds : (v.host p).socket ≡ some k
    holds = unfold Subscription.new_subscription in reached

    runs : (v.socket k).stop ≡ false
    runs = unfold Subscription.new_subscription in running

    -- The channel in the state behind the constructor of the subscription.
    listed : (v.channel d).subscriptions ≡ (b.channel d).subscriptions ++ (b.next_subscription ∷ [])
    listed = unfold Subscription.new_subscription in ground arith

    named : (b.channel d).name ≡ name
    named = unfold get_channel in find_channel_name b.channel name d b.channels found

    kept :
        ((v.channel d).publisher ≡ some p)
        × ((v.channel d).offered_port ≡ pos 0)
        × ((v.channel d).name ≡ name)
    kept =
        unfold Subscription.new_subscription in
        (ground (arith, h), ground (arith, o), ground (arith, named))

    asks : connect e d v ≡ ok (socket_write k (request name) v)
    asks =
        let (h', o', n') = kept in
        connect_requests e d p v h' o'
          (rw listed (is_empty-append (b.channel d).subscriptions b.next_subscription)) elsewhere
          outside
        ∙ ap (λ x. ok (send p (request x) v)) n'
        ∙ ap ok (send_sent p k (request name) v holds runs)

    calls : Channel.subscribe e d b ≡ ok (b.next_subscription, socket_write k (request name) v)
    calls = unfold Channel.subscribe in rw asks refl

    sent :
        ((socket_write k (request name) v).socket k).sent
        ≡ (b.socket k).sent ++ (frame (request name) ∷ [])
    sent =
        let itself : (k == k) ≡ true = ground arith in
        unfold socket_write write Subscription.new_subscription in rw itself refl
