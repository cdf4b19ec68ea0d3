-- ===== src/Process/Moves.antt =====
-- The life of the objects of a process (src/mesh.cpp, src/channel.h, src/channel.cpp), without the code:
-- the ways in which its hosts, channels and subscriptions may change.
use libpubsub.Base.{
  Bool, Bytes, List, [], append-nil, if_ind, if◌then◌else◌, none, refl, some, sym, ℕ, ◌++◌, ◌∙◌,
  ◌≡◌,
}
use libpubsub.World.{
  World, Subscription, Channel, Result, ok, fault, ◌>>=◌, set_channel, set_subscription,
}
use libpubsub.World.Kept.{OnOk}
use libpubsub.World.Aside.{Aside}
use libpubsub.Subscription
use libpubsub.Subscription.Links.{Links, Stores}
use libpubsub.Channel.{get_channel, new_channel}

-- Channels and subscriptions are as they were, and hosts are registered at the end if at all.
pub record Outer (w w' : World) : Type 0 where
  pub more_hosts : (more : List ℕ) × (w'.hosts ≡ w.hosts ++ more)
  pub same_channel : w'.channel ≡ w.channel
  pub same_channels : w'.channels ≡ w.channels
  pub same_next_channel : w'.next_channel ≡ w.next_channel
  pub same_subscription : w'.subscription ≡ w.subscription
  pub same_next_subscription : w'.next_subscription ≡ w.next_subscription

pub data Moves : World → World → Type 0 where
  chained : {u v w : World} → Moves u v → Moves v w → Moves u w
  outer : {w w' : World} → Outer w w' → Moves w w'
  -- A field of a channel changes, other than its name and its lists.
  retouched :
      (c : ℕ) (v : Channel) (w : World)
      → v.name ≡ (w.channel c).name
      → v.subscriptions ≡ (w.channel c).subscriptions
      → v.subscriptors ≡ (w.channel c).subscriptors
      → Moves w (set_channel c v w)
  -- A channel is made under a name that has none.
  made : (name : Bytes) (w : World) → get_channel name w ≡ none → Moves w (new_channel name w)
  -- A subscription is made, for either role.
  subscribed :
      (c : ℕ) (is_async : Bool) (w : World) → Moves w (Subscription.new_subscription c is_async w)
  joined : (c s h : ℕ) (w : World) → Moves w (Subscription.new_tcp_subscriptor c s h w)
  -- A subscription that is there changes, but not its channel; where a channel lists it as a
  -- subscriptor, it keeps a socket.
  stored :
      (s : ℕ) (v v' : Subscription) (w : World)
      → w.subscription s ≡ some v
      → v'.channel ≡ v.channel
      → Stores s v v' w
      → Moves w (set_subscription s (some v') w)
  -- A subscription that is there is released.
  gone :
      (s : ℕ) (v : Subscription) (w : World)
      → w.subscription s ≡ some v
      → Moves w (Subscription.destroy s v w)

pub Moves-outer :
    {w w' : World}
    → w'.hosts ≡ w.hosts
    → w'.channel ≡ w.channel
    → w'.channels ≡ w.channels
    → w'.next_channel ≡ w.next_channel
    → w'.subscription ≡ w.subscription
    → w'.next_subscription ≡ w.next_subscription
    → Moves w w'
Moves-outer {w} h c r n s m = outer (record {
  more_hosts = ([], h ∙ sym (append-nil w.hosts));
  same_channel = c;
  same_channels = r;
  same_next_channel = n;
  same_subscription = s;
  same_next_subscription = m;
})

pub Moves-Aside : {w w' : World} → Aside w w' → Moves w w'
Moves-Aside a =
    Moves-outer a.same_hosts a.same_channel a.same_channels a.same_next_channel a.same_subscription
      a.same_next_subscription

pub Moves-Links : Links Moves
Moves-Links = record { join = chained; aside = Moves-Aside; gone = gone; stored = stored }

pub Moves-refl : (w : World) → Moves w w
Moves-refl w = Moves-outer refl refl refl refl refl refl

-- A call that, where it returns, has made such changes only.
abbrev pub MovesOk : World → Result World → Type 0
MovesOk w = OnOk (Moves w)

pub MovesOk-after : {v w : World} (r : Result World) → Moves v w → MovesOk w r → MovesOk v r
MovesOk-after (ok u) p q = chained p q
MovesOk-after (fault e) p q = tt

pub MovesOk-bind :
    (w : World) (m : Result World) (f : World → Result World)
    → MovesOk w m
    → ((v : World) → MovesOk v (f v))
    → MovesOk w (m >>= f)
MovesOk-bind w (ok v) f h k = MovesOk-after (f v) h (k v)
MovesOk-bind w (fault e) f h k = tt

-- A call that branches on a test.
pub Moves-if : (w u v : World) (b : Bool) → Moves w u → Moves w v → Moves w (if b then u else v)
Moves-if w u v b p q = if_ind (Moves w) b u v (λ _. p) (λ _. q)

pub MovesOk-if :
    (w : World) (b : Bool) (r q : Result World)
    → MovesOk w r
    → MovesOk w q
    → MovesOk w (if b then r else q)
MovesOk-if w b r q h k = if_ind (MovesOk w) b r q (λ _. h) (λ _. k)

-- The rules for calls that only branch.
pub ruleset branching = (Moves-refl, Moves-if, MovesOk-if)
