-- ===== src/World/Aside.antt =====
-- What a step leaves as it was when it only concerns sockets, servers and shared memory: the hosts,
-- the channels and the subscriptions of a process (src/mesh.h, src/channel.h).
use libpubsub.Base.{refl, ◌∙◌, ◌≡◌}
use libpubsub.World.{World, Result}
use libpubsub.World.Kept.{OnOk, Kept, Kept-of}

pub record Aside (w w' : World) : Type 0 where
  pub same_host : w'.host ≡ w.host
  pub same_hosts : w'.hosts ≡ w.hosts
  pub same_next_host : w'.next_host ≡ w.next_host
  pub same_channel : w'.channel ≡ w.channel
  pub same_channels : w'.channels ≡ w.channels
  pub same_next_channel : w'.next_channel ≡ w.next_channel
  pub same_subscription : w'.subscription ≡ w.subscription
  pub same_next_subscription : w'.next_subscription ≡ w.next_subscription

-- A step that leaves each of them.
pub Aside-of :
    {w w' : World}
    → w'.host ≡ w.host
    → w'.hosts ≡ w.hosts
    → w'.next_host ≡ w.next_host
    → w'.channel ≡ w.channel
    → w'.channels ≡ w.channels
    → w'.next_channel ≡ w.next_channel
    → w'.subscription ≡ w.subscription
    → w'.next_subscription ≡ w.next_subscription
    → Aside w w'
Aside-of a b c d e f g h = record {
  same_host = a;
  same_hosts = b;
  same_next_host = c;
  same_channel = d;
  same_channels = e;
  same_next_channel = f;
  same_subscription = g;
  same_next_subscription = h;
}

pub Aside-refl : (w : World) → Aside w w
Aside-refl w = record {
  same_host = refl;
  same_hosts = refl;
  same_next_host = refl;
  same_channel = refl;
  same_channels = refl;
  same_next_channel = refl;
  same_subscription = refl;
  same_next_subscription = refl;
}

pub Aside-trans : {u v w : World} → Aside u v → Aside v w → Aside u w
Aside-trans p q = record {
  same_host = q.same_host ∙ p.same_host;
  same_hosts = q.same_hosts ∙ p.same_hosts;
  same_next_host = q.same_next_host ∙ p.same_next_host;
  same_channel = q.same_channel ∙ p.same_channel;
  same_channels = q.same_channels ∙ p.same_channels;
  same_next_channel = q.same_next_channel ∙ p.same_next_channel;
  same_subscription = q.same_subscription ∙ p.same_subscription;
  same_next_subscription = q.same_next_subscription ∙ p.same_next_subscription;
}

pub Aside-Kept : {w w' : World} → Aside w w' → Kept w w'
Aside-Kept a =
    Kept-of a.same_host a.same_hosts a.same_next_host a.same_next_channel a.same_channels
      a.same_channel

-- A call that, where it returns, has left them.
abbrev pub AsideOk : World → Result World → Type 0
AsideOk w = OnOk (Aside w)
