-- ===== src/Process/Sound.antt =====
-- The lists of a channel (src/channel.h) name objects that are there: what the loops of
-- src/channel.cpp over them rely on.
pub mod Objects
use libpubsub.Base.{
  All, All-append, All-map, Bool, Bool-cases, Bytes, List, [], arith, false, inl, inr, refl, some,
  subst, true, ℕ, ◌==◌, ◌∷◌, ◌≡◌,
}
use libpubsub.World.{World, Subscription, set_subscription, update}
use libpubsub.Subscription
use libpubsub.Subscription.Links.{IsStream, Stores}
use libpubsub.Channel.{new_channel}
use libpubsub.Process.Sound.Objects.{
  Owned, Lists, Owned-listed, Owned-same, Owned-stored, Owned-placed, Owned-new,
  Owned-vector_remove, Owned-elsewhere,
}
use libpubsub.Process.Moves.{
  Moves, Outer, chained, outer, retouched, made, subscribed, joined, stored, gone,
}

-- Each object is in one role, subscription or subscriptor, and the lists are of its role.
abbrev pub IsSound : World → Type 0
IsSound w = (role : ℕ → Bool) × Lists role w

-- Every object of a list of `w` is in the later state what it was, and the lists are as they were.
Sound-Lists :
    {role : ℕ → Bool} {w w' : World}
    → ((side : Bool) (c s : ℕ) → Owned role side w c s → Owned role side w' c s)
    → ((c : ℕ) → (w'.channel c).subscriptions ≡ (w.channel c).subscriptions)
    → ((c : ℕ) → (w'.channel c).subscriptors ≡ (w.channel c).subscriptors)
    → Lists role w
    → Lists role w'
Sound-Lists {role} {w} moved e f h c =
    rw (e c, f c)
      (
        All-map (moved false c) (w.channel c).subscriptions (h c).0,
        All-map (moved true c) (w.channel c).subscriptors (h c).1,
      )

Sound-Outer : {w w' : World} → Outer w w' → IsSound w → IsSound w'
Sound-Outer o (role, h) = (
  role,
  Sound-Lists (λ side. Owned-same o.same_subscription o.same_next_subscription)
      (λ c. rw o.same_channel refl) (λ c. rw o.same_channel refl) h,
)

-- The lists of a channel in the later state, written out.
Sound-at :
    (role : ℕ → Bool) (w' : World) (c : ℕ) (ss ts : List ℕ)
    → (w'.channel c).subscriptions ≡ ss
    → (w'.channel c).subscriptors ≡ ts
    → All (Owned role false w' c) ss
    → All (Owned role true w' c) ts
    → All (Owned role false w' c) (w'.channel c).subscriptions
      × All (Owned role true w' c) (w'.channel c).subscriptors
Sound-at role w' c ss ts e f a b = rw (e, f) (a, b)

Sound-made : (name : Bytes) (w : World) → IsSound w → IsSound (new_channel name w)
unfolding new_channel
Sound-made name w (role, h) = (
  role,
  λ c. elim (Bool-cases (w.next_channel == c)) [
    | inl y ↦ Sound-at role w' c [] [] (rw y refl) (rw y refl) tt tt
    | inr x ↦
        Sound-at role w' c _ _ (rw x refl) (rw x refl)
          (All-map (Owned-same refl refl c) (w.channel c).subscriptions (h c).0)
          (All-map (Owned-same refl refl c) (w.channel c).subscriptors (h c).1)
  ],
)
  where
    w' : World
    w' = new_channel name w

module _ (role : ℕ → Bool) (w : World) (h : Lists role w) where
  Sound-subscribed :
      (c : ℕ) (is_async : Bool) → IsSound (Subscription.new_subscription c is_async w)
  unfolding Subscription.new_subscription
  Sound-subscribed c is_async = (
    role',
    λ d.
        let old = All-map (moved false d) (w.channel d).subscriptions (h d).0 in
        let others = All-map (moved true d) (w.channel d).subscriptors (h d).1 in
        elim (Bool-cases (c == d)) [
          | inl y ↦
              let same : c ≡ d = ground (arith, y) in
              Sound-at role' w' d _ _ (rw y (rw same refl)) (rw y (rw same refl))
                (All-append (Owned role' false w' d) (w.channel d).subscriptions
                  (w.next_subscription ∷ []) old
                  (
                    subst (λ x. Owned role' false w' x w.next_subscription) same
                        (Owned-new role false _ w w' (λ b. cc) refl refl),
                    tt,
                  ))
                others
          | inr x ↦ Sound-at role' w' d _ _ (rw x refl) (rw x refl) old others
        ],
  )
    where
      w' : World
      w' = Subscription.new_subscription c is_async w

      role' : ℕ → Bool
      role' = update role w.next_subscription false

      moved : (side : Bool) (d s : ℕ) → Owned role side w d s → Owned role' side w' d s
      moved side d = Owned-placed role side false _ w w' refl refl d

  Sound-joined : (c s i : ℕ) → IsSound (Subscription.new_tcp_subscriptor c s i w)
  unfolding Subscription.new_tcp_subscriptor
  Sound-joined c s i = (
    role',
    λ d.
        let old = All-map (moved false d) (w.channel d).subscriptions (h d).0 in
        let others = All-map (moved true d) (w.channel d).subscriptors (h d).1 in
        elim (Bool-cases (c == d)) [
          | inl y ↦
              let same : c ≡ d = ground (arith, y) in
              Sound-at role' w' d _ _ (rw y (rw same refl)) (rw y (rw same refl)) old (
                All-append (Owned role' true w' d) (w.channel d).subscriptors
                  (w.next_subscription ∷ []) others
                  (
                    subst (λ x. Owned role' true w' x w.next_subscription) same
                        (Owned-new role true _ w w' (λ b. (refl, (s, refl))) refl refl),
                    tt,
                  ))
          | inr x ↦ Sound-at role' w' d _ _ (rw x refl) (rw x refl) old others
        ],
  )
    where
      w' : World
      w' = Subscription.new_tcp_subscriptor c s i w

      role' : ℕ → Bool
      role' = update role w.next_subscription true

      moved : (side : Bool) (d t : ℕ) → Owned role side w d t → Owned role' side w' d t
      moved side d = Owned-placed role side true _ w w' refl refl d

  Sound-stored :
      (s : ℕ) (v v' : Subscription)
      → w.subscription s ≡ some v
      → v'.channel ≡ v.channel
      → Stores s v v' w
      → IsSound (set_subscription s (some v') w)
  Sound-stored s v v' e k m = (
    role,
    Sound-Lists (λ side. Owned-stored role side s v v' w e k (kept m)) (λ c. refl) (λ c. refl) h,
  )
    where
      kept : Stores s v v' w → role s ≡ true → IsStream v → IsStream v'
      kept (inl keeps) b stream = keeps stream
      kept (inr (d, listed)) b stream =
          let subscribes : role s ≡ false =
            Owned-listed role false w d s (w.channel d).subscriptions (h d).0 listed in
          cc

  Sound-gone :
      (s : ℕ) (v : Subscription) → w.subscription s ≡ some v → IsSound (Subscription.destroy s v w)
  unfolding Subscription.destroy
  Sound-gone s v e = (
    role,
    λ d. elim (Bool-cases (v.channel == d)) [
      | inl y ↦
          let same : v.channel ≡ d = ground (arith, y) in
          Sound-at role w' d _ _ (rw y (rw same refl)) (rw y (rw same refl))
            (Owned-vector_remove role false s w w' refl refl d (w.channel d).subscriptions (h d).0)
            (Owned-vector_remove role true s w w' refl refl d (w.channel d).subscriptors (h d).1)
      | inr x ↦
          Sound-at role w' d _ _ (rw x refl) (rw x refl)
            (All-map (Owned-elsewhere role false s w w' refl refl d v e x)
              (w.channel d).subscriptions (h d).0)
            (All-map (Owned-elsewhere role true s w w' refl refl d v e x) (w.channel d).subscriptors
              (h d).1)
    ],
  )
    where
      w' : World
      w' = Subscription.destroy s v w

-- No change to a process leaves a channel with a list that names an object which is not there.
pub Sound-Moves : {w w' : World} → Moves w w' → IsSound w → IsSound w'
Sound-Moves (chained p q) h = Sound-Moves q (Sound-Moves p h)
Sound-Moves (outer o) h = Sound-Outer o h
Sound-Moves (retouched c v w n s t) (role, h) = (
  role,
  Sound-Lists (λ side. Owned-same refl refl) (λ d. ground (arith, s)) (λ d. ground (arith, t)) h,
)
Sound-Moves (made name w e) h = Sound-made name w h
Sound-Moves (subscribed c is_async w) (role, h) = Sound-subscribed role w h c is_async
Sound-Moves (joined c s i w) (role, h) = Sound-joined role w h c s i
Sound-Moves (stored s v v' w e k m) (role, h) = Sound-stored role w h s v v' e k m
Sound-Moves (gone s v w e) (role, h) = Sound-gone role w h s v e
