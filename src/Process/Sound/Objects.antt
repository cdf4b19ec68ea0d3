-- ===== src/Process/Sound/Objects.antt =====
-- What the objects of a list are to a channel (src/channel.h), and what a change to a process does to
-- them.
use libpubsub.Base.{
  All, Bool, Bool-cases, List, [], ap, arith, false, inl, inr, none, refl, some, subst, suc, true,
  ℕ, ◌<◌, ◌==◌, ◌∙◌, ◌∷◌, ◌≡◌,
}
use mathlib.Core.List.{Memᴰ}
use libpubsub.World.{World, Subscription, vector_remove, update, set_subscription}
use libpubsub.Subscription.Links.{IsStream}

-- `role` tells subscriptors, the objects of remote hosts, from subscriptions. An object of a list is
-- there, is of the channel and in its role, and a subscriptor has a socket.
pub record Owned (role : ℕ → Bool) (side : Bool) (w : World) (c s : ℕ) : Type 0 where
  pub allocated : s < w.next_subscription
  pub in_role : role s ≡ side
  pub object :
      (v : Subscription) × (w.subscription s ≡ some v)
      × (v.channel ≡ c)
      × (side ≡ true → IsStream v)

-- Both lists of every channel have such objects only.
abbrev pub Lists : (ℕ → Bool) → World → Type 0
Lists role w =
    (c : ℕ)
    → All (Owned role false w c) (w.channel c).subscriptions
      × All (Owned role true w c) (w.channel c).subscriptors

pub Owned-listed :
    (role : ℕ → Bool) (side : Bool) (w : World) (c s : ℕ) (xs : List ℕ)
    → All (Owned role side w c) xs
    → Memᴰ s xs
    → role s ≡ side
Owned-listed role side w c s [] all m = elim m [ ]
Owned-listed role side w c s (x ∷ xs) (p, all) (Memᴰ.head e) = rw e p.in_role
Owned-listed role side w c s (x ∷ xs) (p, all) (Memᴰ.tail m) = Owned-listed role side w c s xs all m

-- A change that makes no difference to any object.
pub Owned-same :
    {role : ℕ → Bool} {side : Bool} {w w' : World}
    → w'.subscription ≡ w.subscription
    → w'.next_subscription ≡ w.next_subscription
    → (c s : ℕ) → Owned role side w c s
    → Owned role side w' c s
Owned-same e n c s p = record {
  allocated = rw n p.allocated;
  in_role = p.in_role;
  object = rw e p.object;
}

module _ (role : ℕ → Bool) (side : Bool) where
  pub Owned-stored :
      (s : ℕ) (v v' : Subscription) (w : World)
      → w.subscription s ≡ some v
      → v'.channel ≡ v.channel
      → (role s ≡ true → IsStream v → IsStream v')
      → (c t : ℕ) → Owned role side w c t
      → Owned role side (set_subscription s (some v') w) c t
  Owned-stored s v v' w e k kept c t p =
      let (u, f, g, stream) = p.object in
      elim (Bool-cases (s == t)) [
        | inl y ↦
            let same : s ≡ t = ground (arith, y) in
            let of_channel : v.channel ≡ c = cc in
            let it : u ≡ v = cc in
            record {
              allocated = p.allocated;
              in_role = p.in_role;
              object = (
                v',
                rw y refl,
                k ∙ of_channel,
                λ b. kept (ap role same ∙ p.in_role ∙ b) (subst IsStream it (stream b)),
              );
            }
        | inr n ↦ record {
          allocated = p.allocated;
          in_role = p.in_role;
          object = (u, rw n f, g, stream);
        }
      ]

  -- A new object takes an address that no list has.
  pub Owned-placed :
      (of_new : Bool) (v : Subscription) (w w' : World)
      → w'.subscription ≡ update w.subscription w.next_subscription (some v)
      → w'.next_subscription ≡ suc w.next_subscription
      → (c t : ℕ) → Owned role side w c t
      → Owned (update role w.next_subscription of_new) side w' c t
  Owned-placed of_new v w w' e n c t p =
      let (u, f, g, stream) = p.object in
      let other : (w.next_subscription == t) ≡ false = ground (arith, p.allocated) in
      record {
        allocated = omega (arith, p.allocated, n);
        in_role = rw other p.in_role;
        object = (u, rw (e, other) f, g, stream);
      }

  pub Owned-new :
      (v : Subscription) (w w' : World)
      → (side ≡ true → IsStream v)
      → w'.subscription ≡ update w.subscription w.next_subscription (some v)
      → w'.next_subscription ≡ suc w.next_subscription
      → Owned (update role w.next_subscription side) side w' v.channel w.next_subscription
  Owned-new v w w' stream e n = record {
    allocated = omega (arith, n);
    in_role = ground arith;
    object = (v, rw e (ground arith), refl, stream);
  }

  module _ (s : ℕ) (w w' : World) (e : w'.subscription ≡ update w.subscription s none)
      (n : w'.next_subscription ≡ w.next_subscription) where
    -- A released object takes no other with it.
    Owned-other : (c t : ℕ) → (s == t) ≡ false → Owned role side w c t → Owned role side w' c t
    Owned-other c t other p =
        let (u, f, g, stream) = p.object in
        record {
          allocated = rw n p.allocated;
          in_role = p.in_role;
          object = (u, rw (e, other) f, g, stream);
        }

    -- What stays in a list is another object.
    pub Owned-vector_remove :
        (c : ℕ) (ts : List ℕ)
        → All (Owned role side w c) ts
        → All (Owned role side w' c) (vector_remove s ts)
    unfolding vector_remove
    Owned-vector_remove c [] h = tt
    Owned-vector_remove c (t ∷ ts) (p, h) =
        let rest = Owned-vector_remove c ts h in
        elim (Bool-cases (t == s)) [
          | inl y ↦ rw y rest
          | inr x ↦ rw x (Owned-other c t (ground (arith, x)) p, rest)
        ]

    -- In the lists of another channel the object does not stand.
    pub Owned-elsewhere :
        (c : ℕ) (v : Subscription)
        → w.subscription s ≡ some v
        → (v.channel == c) ≡ false
        → (t : ℕ) → Owned role side w c t
        → Owned role side w' c t
    Owned-elsewhere c v live differs t p =
        let (u, f, g, stream) = p.object in
        elim (Bool-cases (s == t)) [
          | inl y ↦
              let same : s ≡ t = ground (arith, y) in
              let owner : v.channel ≡ c = cc in ground (arith, owner, differs)
          | inr x ↦ Owned-other c t x p
        ]
