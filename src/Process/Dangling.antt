-- ===== src/Process/Dangling.antt =====
-- A subscription that dials twice (src/channel.cpp) and what its first socket does afterwards
-- (src/utils/Socket.cpp).
use libpubsub.Base.{Bytes, Option, [], ap, arith, false, none, refl, some, suc, ℕ, ℤ, ◌<◌, ◌∙◌, ◌≡◌}
use libpubsub.Socket.{Callback, sub_open, sub_close, opened, connected}
use libpubsub.World.{World, Subscription, ok, fault, deleted, Env, tcp, dialled, set_socket_at}
use libpubsub.Subscription
use libpubsub.Subscription.{attach_socket}
use libpubsub.Channel.Closing.{IsOpen, close-Closes, close-others, deleted-Closes, deref-none}
use libpubsub.Process.Flow.{dialing, connect_tcp-dialing, up_calls}
use libpubsub.Process.{up, down, call}

-- The socket `n` still calls the subscription `s`, which is deleted.
record IsDangling (s n : ℕ) (w : World) : Type 0 where
  opens_sub : (w.socket n).on_open ≡ some (sub_open s)
  closes_sub : (w.socket n).on_close ≡ some (sub_close s)
  gone : w.subscription s ≡ none

on_open-deleted :
    (s : ℕ) (w : World) → w.subscription s ≡ none → Subscription.on_open s w ≡ fault deleted
unfolding Subscription.on_open
on_open-deleted s w e = rw (deref-none s w e) refl

on_close-deleted :
    (s : ℕ) (w : World) → w.subscription s ≡ none → Subscription.on_close s w ≡ fault deleted
unfolding Subscription.on_close
on_close-deleted s w e = rw (deref-none s w e) refl

up-deleted : (e : Env) (s n : ℕ) (w : World) → IsDangling s n w → up e n w ≡ fault deleted
up-deleted e s n w d =
    up_calls e n s w d.opens_sub
    ∙ on_open-deleted s (set_socket_at n (opened (w.socket n)) w) d.gone

close_calls :
    (e : Env) (s n : ℕ) (o : Option Callback) (w : World)
    → o ≡ some (sub_close s)
    → w.subscription s ≡ none
    → call e n o [] w ≡ fault deleted
close_calls e s n o w c g = ap (λ x. call e n x [] w) c ∙ (unfold call in on_close-deleted s w g)

down-deleted : (e : Env) (s n : ℕ) (w : World) → IsDangling s n w → down e n w ≡ fault deleted
down-deleted e s n w d =
    let lost = set_socket_at n (record (w.socket n) { fd_open = false }) w in
    let calls = close_calls e s n (w.socket n).on_close lost d.closes_sub d.gone in
    unfold down in rw calls refl

-- A subscription that is there and not connected, of a channel with a publisher whose name resolves.
pub record CanDial (e : Env) (s p : ℕ) (v : Subscription) (w : World) : Type 0 where
  pub alive : w.subscription s ≡ some v
  pub waits : v.connected ≡ false
  pub publisher : (w.channel v.channel).publisher ≡ some p
  pub resolves : e.dial (w.host p).ip ≡ dialled

-- The subscription behind a dialling, which has the new socket.
abbrev on_socket : ℕ → Subscription → Subscription
on_socket n v = record v { connected = false; socket = some n; transport = tcp }

dialing-CanDial :
    (e : Env) (s p : ℕ) (v : Subscription) (ip : Bytes) (port : ℤ) (w : World)
    → CanDial e s p v w
    → CanDial e s p (on_socket w.next_socket v) (dialing s v ip port w)
unfolding attach_socket
dialing-CanDial e s p v ip port w c = record {
  alive = ground arith;
  waits = refl;
  publisher = c.publisher;
  resolves = c.resolves;
}

-- A socket that calls the subscription keeps doing so when the subscription dials again.
dialing-calls :
    (s n : ℕ) (v : Subscription) (ip : Bytes) (port : ℤ) (w : World)
    → n < w.next_socket
    → (dialing s v ip port w).socket n ≡ w.socket n
unfolding attach_socket
dialing-calls s n v ip port w l = ground (arith, l)

dialing-on_open :
    (s : ℕ) (v : Subscription) (ip : Bytes) (port : ℤ) (w : World)
    → (((dialing s v ip port w).socket w.next_socket).on_open ≡ some (sub_open s))
      × (((dialing s v ip port w).socket w.next_socket).on_close ≡ some (sub_close s))
      × ((dialing s v ip port w).next_socket ≡ suc w.next_socket)
unfolding attach_socket connected
dialing-on_open s v ip port w = (ground arith, ground arith, refl)

-- A subscription that is there and not connected, of a channel with a publisher whose name resolves, and
-- that dials twice before it is connected, as a second OFFER_TCP makes it, is then closed: all three
-- calls return, and from then on the first socket's report of its connection, and that of its end, uses
-- the deleted subscription.
pub connect_tcp-dangling :
    (e f : Env) (s p : ℕ) (v : Subscription) (w : World)
    → CanDial e s p v w
    → (w1 : World) × (Subscription.connect_tcp e s w ≡ ok w1)
      × ((w2 : World) × (Subscription.connect_tcp e s w1 ≡ ok w2)
          × ((w3 : World) × (Subscription.close s w2 ≡ ok w3)
              × (up f w.next_socket w3 ≡ fault deleted)
              × (down f w.next_socket w3 ≡ fault deleted)))
connect_tcp-dangling e f s p v w c = (w1, first, (w2, second, closed))
  where
    dials : (u : World) (x : Subscription) → World
    dials u x = dialing s x (u.host p).ip (u.channel x.channel).offered_port u

    w1 : World
    w1 = dials w v

    first : Subscription.connect_tcp e s w ≡ ok w1
    first = connect_tcp-dialing e s p v w c.alive c.waits c.publisher c.resolves

    v1 : Subscription
    v1 = on_socket w.next_socket v

    c1 : CanDial e s p v1 w1
    c1 = dialing-CanDial e s p v _ _ w c

    w2 : World
    w2 = dials w1 v1

    second : Subscription.connect_tcp e s w1 ≡ ok w2
    second = connect_tcp-dialing e s p v1 w1 c1.alive c1.waits c1.publisher c1.resolves

    c2 : CanDial e s p (on_socket w1.next_socket v1) w2
    c2 = dialing-CanDial e s p v1 _ _ w1 c1

    open_two : IsOpen w2 v.channel s w1.next_socket (on_socket w1.next_socket v1)
    open_two = record { alive = c2.alive; of_channel = refl; over_tcp = refl; has_socket = refl }

    next : w1.next_socket ≡ suc w.next_socket
    next = (dialing-on_open s v (w.host p).ip (w.channel v.channel).offered_port w).2

    kept : w2.socket w.next_socket ≡ w1.socket w.next_socket
    kept = dialing-calls s w.next_socket v1 _ _ w1 (omega (arith, next))

    closed :
        (w3 : World) × (Subscription.close s w2 ≡ ok w3)
        × (up f w.next_socket w3 ≡ fault deleted)
        × (down f w.next_socket w3 ≡ fault deleted)
    closed =
        let (w3, k, g) = close-Closes v.channel s w1.next_socket _ w2 open_two in
        let other =
          close-others v.channel s w1.next_socket w.next_socket _ w2 w3 open_two k
            (omega (arith, next)) in
        let calls = dialing-on_open s v (w.host p).ip (w.channel v.channel).offered_port w in
        let d : IsDangling s w.next_socket w3 = record {
          opens_sub = rw (other, kept) calls.0;
          closes_sub = rw (other, kept) calls.1;
          gone = deleted-Closes v.channel s w2 w3 g;
        } in
        (w3, k, up-deleted f s w.next_socket w3 d, down-deleted f s w.next_socket w3 d)
