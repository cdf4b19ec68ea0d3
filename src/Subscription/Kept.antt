-- ===== src/Subscription/Kept.antt =====
-- Opening and closing subscriptions (src/channel.cpp) leaves the hosts and the channel registry.
use libpubsub.Base.{arith, refl, ℕ}
use libpubsub.World.{World, Subscription}
use libpubsub.World.Kept.{Kept, Kept-of, Kept-trans}
use libpubsub.World.Aside.{Aside-Kept}
use libpubsub.Subscription.{destroy}
use libpubsub.Subscription.Links.{Links}

destroy-Kept : (s : ℕ) (v : Subscription) (w : World) → Kept w (destroy s v w)
unfolding destroy
destroy-Kept s v w = record {
  same_host = refl;
  same_hosts = refl;
  same_next_host = refl;
  same_next_channel = refl;
  same_channels = refl;
  same_name = λ c. ground arith;
  same_publisher = λ c. ground arith;
}

pub Kept-Links : Links Kept
Kept-Links = record {
  join = Kept-trans;
  aside = Aside-Kept;
  gone = λ s v w e. destroy-Kept s v w;
  stored = λ s v v' w e k m. Kept-of refl refl refl refl refl refl;
}
