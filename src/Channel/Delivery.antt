-- ===== src/Channel/Delivery.antt =====
-- ChannelImpl::write (src/channel.h) down to send(2): which bytes reach the socket of which subscriptor.
use libpubsub.Base.{
  All, Bool-cases, Bytes, List, Option, [], append-nil, append_assoc, arith, false, if◌then◌else◌,
  inl, inr, none, refl, some, sym, true, ℕ, ◌++◌, ◌∙◌, ◌∷◌, ◌≡◌,
}
use libpubsub.Socket.{write_bytes}
use libpubsub.World.{World, Subscription, Result, ok, tcp, points_to, socket_write_bytes}
use libpubsub.Subscription.{deref, write_socket}
use libpubsub.Subscription
use libpubsub.Channel.{for_each, write}

-- The socket on which a subscription sends, if it is connected.
unfoldable pub outlet : Option Subscription → Option ℕ
outlet none = none
outlet (some v) = if v.connected then v.socket else none

-- What sending `msg` to the listed subscriptions adds to the socket `k`: `msg` itself, once for each
-- connected subscription that uses `k`.
unfoldable pub copies : World → Bytes → ℕ → List ℕ → List Bytes
unfolding outlet
copies w msg k [] = []
copies w msg k (s ∷ ss) =
    let rest = copies w msg k ss in
    if points_to (outlet (w.subscription s)) k then msg ∷ rest else rest

-- A subscription over TCP that is not deleted, and that has a socket.
abbrev pub IsTcp : World → ℕ → Type 0
IsTcp w s =
    (v : Subscription) × (k : ℕ) × ((w.subscription s ≡ some v)
      × (v.transport ≡ tcp)
      × (v.socket ≡ some k))

-- Only what the sockets have sent differs from `w`; the socket `k` has sent `more` besides.
record Writes (w w' : World) (more : ℕ → List Bytes) : Type 0 where
  same_subscription : w'.subscription ≡ w.subscription
  sends : (k : ℕ) → (w'.socket k).sent ≡ (w.socket k).sent ++ more k

write_one :
    (s k : ℕ) (v : Subscription) (msg : Bytes) (w : World)
    → w.subscription s ≡ some v
    → v.transport ≡ tcp
    → v.socket ≡ some k
    → (w' : World) × (Subscription.write s msg w ≡ ok w')
      × Writes w w' (λ j. if points_to (outlet (w.subscription s)) j then msg ∷ [] else [])
write_one s k v msg w a t o = elim (Bool-cases v.connected) [
  | inl c ↦ (
    socket_write_bytes k msg w,
    sent_on c,
    record {
      same_subscription = unfold socket_write_bytes in refl;
      sends = λ j.
          unfold socket_write_bytes write_bytes outlet in
          rw (a, o) (ground (arith, c, append-nil (w.socket j).sent));
    },
  )
  | inr c ↦ (
    w,
    skipped c,
    record {
      same_subscription = refl;
      sends = λ j. unfold outlet in rw (a, c) (sym (append-nil (w.socket j).sent));
    },
  )
]
  where
    sent_on : v.connected ≡ true → Subscription.write s msg w ≡ ok (socket_write_bytes k msg w)
    sent_on c = unfold Subscription.write deref write_socket in rw (a, deref, c, t, o)

    skipped : v.connected ≡ false → Subscription.write s msg w ≡ ok w
    skipped c = unfold Subscription.write deref in rw (a, deref, c)

copies-same :
    (w w' : World) (msg : Bytes) (k : ℕ) (ss : List ℕ)
    → w'.subscription ≡ w.subscription
    → copies w' msg k ss ≡ copies w msg k ss
unfolding copies
copies-same w w' msg k [] e = refl
copies-same w w' msg k (s ∷ ss) e = rw (copies-same w w' msg k ss e, e)

copies_cons :
    (w : World) (msg : Bytes) (k s : ℕ) (ss : List ℕ)
    → copies w msg k (s ∷ ss)
      ≡ (if points_to (outlet (w.subscription s)) k then msg ∷ [] else []) ++ copies w msg k ss
unfolding copies
copies_cons w msg k s ss = ground arith

All-same :
    (w w' : World) (ss : List ℕ)
    → w'.subscription ≡ w.subscription
    → All (IsTcp w) ss
    → All (IsTcp w') ss
All-same w w' [] e a = tt
All-same w w' (s ∷ ss) e ((v, k, (x, t, o)), rest) =
    ((v, k, (rw e x, t, o)), All-same w w' ss e rest)

for_each_step :
    (f : ℕ → World → Result World) (s : ℕ) (ss : List ℕ) (w w' : World)
    → f s w ≡ ok w'
    → for_each f (s ∷ ss) w ≡ for_each f ss w'
unfolding for_each
for_each_step f s ss w w' r = rw r

write_each :
    (msg : Bytes) (ss : List ℕ) (w : World)
    → All (IsTcp w) ss
    → (w' : World) × (for_each (λ s. Subscription.write s msg) ss w ≡ ok w')
      × Writes w w' (λ k. copies w msg k ss)
write_each msg [] w a = (
  w,
  (unfold for_each in refl),
  record {
    same_subscription = refl;
    sends = λ k. unfold copies in sym (append-nil (w.socket k).sent);
  },
)
write_each msg (s ∷ ss) w ((v, k, (x, t, o)), rest) =
    let (w1, r1, p) = write_one s k v msg w x t o in
    let (w2, r2, q) = write_each msg ss w1 (All-same w w1 ss p.same_subscription rest) in
    (
      w2,
      for_each_step (λ s. Subscription.write s msg) s ss w w1 r1 ∙ r2,
      record {
        same_subscription = q.same_subscription ∙ p.same_subscription;
        sends = λ j.
            q.sends j
            ∙ rw
                (p.sends j, copies-same w w1 msg j ss p.same_subscription, copies_cons w msg j s ss)
                (append_assoc (w.socket j).sent _ _);
      },
    )

-- A write on a channel whose subscriptors are all over TCP, not deleted and with a socket,
-- returns. It adds the bytes of the message, as they are and with no frame, to each socket once
-- for every connected subscriptor that uses it; to any other socket it adds nothing, and it
-- changes no subscription.
pub write-sent :
    (c : ℕ) (msg : Bytes) (w : World)
    → All (IsTcp w) (w.channel c).subscriptors
    → (w' : World) × (write c msg w ≡ ok w')
      × ((k : ℕ)
          → (w'.socket k).sent ≡ (w.socket k).sent ++ copies w msg k (w.channel c).subscriptors)
      × (w'.subscription ≡ w.subscription)
unfolding write
write-sent c msg w a =
    let (w', r, p) = write_each msg (w.channel c).subscriptors w a in
    (w', r, p.sends, p.same_subscription)
