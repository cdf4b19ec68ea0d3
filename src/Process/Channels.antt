-- ===== src/Process/Channels.antt =====
-- The calls on channels (src/channel.h, channel.cpp and signaling.cpp) only make the changes of Process/Moves.
use libpubsub.Base.{
  Bytes, Option, Option-cases, codes, false, inl, inr, none, refl, some, ℕ, ◌++◌, ◌∷◌,
}
use libpubsub.World.{World, Result, ok, fault, ◌>>=◌, Env, set_channel}
use libpubsub.World.Kept.{OnOk}
use libpubsub.World.Aside.{AsideOk}
use libpubsub.Mesh.{send, broadcast}
use libpubsub.Mesh.Quiet.{send-Quiet, broadcast-Quiet}
use libpubsub.Text.Decimal.{show_ℕ}
use libpubsub.Subscription
use libpubsub.Subscription.Quiet.{write-Aside, write_dma-Aside}
use libpubsub.Subscription.Links.{OnOk-aside}
use libpubsub.Channel
use libpubsub.Channel.{
  get_channel, get_or_create_channel, set_publisher, channel_to_string, connect, disconnect,
  assign_publisher, leave_publisher, join_publisher,
}
use libpubsub.Channel.Links.{Quiet-Aside, for_each-Links, connect-Links, disconnect-Links}
use libpubsub.Process.Moves.{
  Moves, Moves-outer, Moves-refl, Moves-Aside, Moves-Links, chained, retouched, made, subscribed,
  MovesOk, MovesOk-after, MovesOk-bind, MovesOk-if, branching,
}

pub get_or_create-Moves : (name : Bytes) (w : World) → Moves w (get_or_create_channel name w).1
unfolding get_or_create_channel
get_or_create-Moves name w = elim (Option-cases (get_channel name w)) [
  | inl e ↦ rw (e, get_or_create_channel) (made name w e)
  | inr (c, e) ↦ rw (e, get_or_create_channel) (Moves-refl w)
]

assign_publisher-Moves : (c : ℕ) (p : Option ℕ) (w : World) → Moves w (assign_publisher c p w)
unfolding assign_publisher
assign_publisher-Moves c p w = retouched c _ w refl refl refl

leave_publisher-Moves : (c : ℕ) (p : Option ℕ) (w : World) → MovesOk w (leave_publisher c p w)
unfolding leave_publisher
leave_publisher-Moves c p w =
    MovesOk-if w _ (disconnect c w) (ok w) (disconnect-Links Moves Moves-Links c w) (Moves-refl w)

join_publisher-Moves :
    (e : Env) (c : ℕ) (p : Option ℕ) (w : World) → MovesOk w (join_publisher e c p w)
unfolding join_publisher
join_publisher-Moves e c p w =
    MovesOk-if w _ (connect e c w) (ok w) (connect-Links Moves Moves-Links e c w) (Moves-refl w)

pub set_publisher-Moves :
    (e : Env) (c : ℕ) (p : Option ℕ) (w : World) → MovesOk w (set_publisher e c p w)
unfolding set_publisher
set_publisher-Moves e c p w =
    MovesOk-bind w (leave_publisher c p w) (λ w'. join_publisher e c p (assign_publisher c p w'))
      (leave_publisher-Moves c p w)
      (λ w'.
        MovesOk-after (join_publisher e c p (assign_publisher c p w'))
          (assign_publisher-Moves c p w') (join_publisher-Moves e c p (assign_publisher c p w')))

pub broadcast-Moves : (msg : Bytes) (w : World) → Moves w (broadcast msg w)
broadcast-Moves msg w = Moves-Aside (Quiet-Aside (broadcast-Quiet msg w))

pub send-Moves : (h : ℕ) (msg : Bytes) (w : World) → Moves w (send h msg w)
send-Moves h msg w = Moves-Aside (Quiet-Aside (send-Quiet h msg w))

pub Moves-AsideOk : (w : World) (r : Result World) → AsideOk w r → MovesOk w r
Moves-AsideOk = OnOk-aside Moves Moves-Links

-- setPublisher and the broadcast behind it.
announce-Moves :
    (e : Env) (c : ℕ) (p : Option ℕ) (text : World → Bytes) (w : World)
    → MovesOk w (set_publisher e c p w >>= λ w'. ok (broadcast (text w') w'))
announce-Moves e c p text w =
    MovesOk-bind w (set_publisher e c p w) (λ w'. ok (broadcast (text w') w'))
      (set_publisher-Moves e c p w) (λ w'. broadcast-Moves (text w') w')

pub publish-Moves : (e : Env) (c : ℕ) (w : World) → MovesOk w (Channel.publish e c w)
unfolding Channel.publish
publish-Moves e c w = search (branching, announce-Moves)

pub unpublish-Moves : (e : Env) (c : ℕ) (w : World) → MovesOk w (Channel.unpublish e c w)
unfolding Channel.unpublish
unpublish-Moves e c w = announce-Moves e c none (λ v. codes "UNPUBLISH=" ++ channel_to_string c v) w

pub subscribe-Moves :
    (e : Env) (c : ℕ) (w : World) → OnOk (λ (r : ℕ × World). Moves w r.1) (Channel.subscribe e c w)
unfolding Channel.subscribe
subscribe-Moves e c w = go (connect e c v) (connect-Links Moves Moves-Links e c v)
  where
    v : World
    v = Subscription.new_subscription c false w

    go :
        (r : Result World)
        → MovesOk v r
        → OnOk (λ (p : ℕ × World). Moves w p.1) (r >>= λ w'. ok (w.next_subscription, w'))
    go (ok w') g = chained (subscribed c false w) g
    go (fault x) g = tt

pub write_channel-Moves : (c : ℕ) (msg : Bytes) (w : World) → MovesOk w (Channel.write c msg w)
unfolding Channel.write
write_channel-Moves c msg w =
    for_each-Links Moves Moves-Links (λ s. Subscription.write s msg) (w.channel c).subscriptors w
      (λ s v. Moves-AsideOk v (Subscription.write s msg v) (write-Aside s msg v))

pub write_dma-Moves : (c : ℕ) (w : World) → MovesOk w (Channel.write_dma c w)
unfolding Channel.write_dma
write_dma-Moves c w =
    for_each-Links Moves Moves-Links Subscription.write_dma (w.channel c).subscriptors w
      (λ s v. Moves-AsideOk v (Subscription.write_dma s v) (write_dma-Aside s v))

pub alloc-Moves : (e : Env) (c size : ℕ) (w : World) → Moves w (Channel.alloc e c size w)
unfolding Channel.alloc
alloc-Moves e c size w = go (w.channel c).ptr
  where
    u : World
    u = Subscription.fresh_segment e (w.channel c).name size w

    v : World
    v = set_channel c (record (w.channel c) { ptr = some w.next_segment; size = size }) u

    mapped : Moves w v
    mapped =
        unfold Subscription.fresh_segment in
        chained (Moves-outer refl refl refl refl refl refl) (retouched c _ u refl refl refl)

    go :
        (o : Option ℕ)
        → Moves w (elim o [
          | some g ↦ w
          | none ↦ broadcast (codes "ALLOCATE=" ++ ((w.channel c).name ++ (b'=' ∷ show_ℕ size))) v
        ])
    go none = chained mapped (broadcast-Moves _ v)
    go (some g) = Moves-refl w
