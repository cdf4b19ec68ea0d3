-- ===== src/Signaling/HostClose.antt =====
-- What a lost connection does to the channels: close_all_channels of src/channel.cpp.
use libpubsub.Base.{
  Bool, Bool-cases, List, Option, [], arith, false, if◌then◌else◌, inl, inr, none, refl, subst,
  true, ℕ, ◌&&◌, ◌==◌, ◌||◌, ◌∙◌, ◌∷◌, ◌≡◌,
}
use libpubsub.World.{World, ok, ◌>>=◌, Env, points_to}
use libpubsub.World.Kept.{OnOk, OnOk-bind, OnOk-map, OnOk-ok}
use libpubsub.Channel.{set_publisher, assign_publisher}
use libpubsub.Channel.Publisher.{Sets, set_publisher-Sets, set_publisher-idle, Returns}
use libpubsub.Signaling.{close_channels, on_host_close}

-- `c` is in the list.
pub listed : ℕ → List ℕ → Bool
listed c [] = false
listed c (d ∷ ds) = d == c || listed c ds

-- The publisher that a channel has after the listed channels of the host `h` are closed.
pub after_close : ℕ → List ℕ → ℕ → Option ℕ → Option ℕ
unfolding listed
after_close h cs c p = if listed c cs && points_to p h then none else p

record Cleared (h : ℕ) (cs : List ℕ) (w w' : World) : Type 0 where
  same_channels : w'.channels ≡ w.channels
  cleared : (c : ℕ) → (w'.channel c).publisher ≡ after_close h cs c (w.channel c).publisher

Cleared-step :
    (h c : ℕ) (cs : List ℕ) (u v w : World)
    → Cleared h (c ∷ []) u v
    → Cleared h cs v w
    → Cleared h (c ∷ cs) u w
unfolding after_close
Cleared-step h c cs u v w p q = record {
  same_channels = q.same_channels ∙ p.same_channels;
  cleared = λ d. ground (arith, q.cleared d, p.cleared d);
}

Sets-Cleared :
    (h c : ℕ) (w w' : World)
    → points_to (w.channel c).publisher h ≡ true
    → Sets c none w w'
    → Cleared h (c ∷ []) w w'
unfolding after_close
Sets-Cleared h c w w' hit s = record {
  same_channels = s.same_channels;
  cleared = λ d. elim (Bool-cases (c == d)) [
    | inl e ↦
        let same : c ≡ d = ground arith in
        subst
          (λ x. (w'.channel x).publisher ≡ (
            if (c == x || false) && points_to (w.channel x).publisher h
            then none
            else (w.channel x).publisher))
          same (ground (arith, hit, s.publisher_set))
    | inr e ↦ rw (s.same_publisher d (ground arith), e)
  ];
}

miss-Cleared :
    (h c : ℕ) (w : World) → points_to (w.channel c).publisher h ≡ false → Cleared h (c ∷ []) w w
unfolding after_close
miss-Cleared h c w miss = record {
  same_channels = refl;
  cleared = λ d. elim (Bool-cases (c == d)) [
    | inl e ↦
        let same : c ≡ d = ground arith in
        subst
          (λ x. (w.channel x).publisher ≡ (
            if (c == x || false) && points_to (w.channel x).publisher h
            then none
            else (w.channel x).publisher))
          same (ground (arith, miss))
    | inr e ↦ rw e
  ];
}

close_channels-Cleared :
    (e : Env) (h : ℕ) (cs : List ℕ) (w : World) → OnOk (Cleared h cs w) (close_channels e h cs w)
unfolding close_channels
close_channels-Cleared e h [] w = record {
  same_channels = refl;
  cleared = λ c. unfold after_close in refl;
}
close_channels-Cleared e h (c ∷ cs) w =
    OnOk-bind (Cleared h (c ∷ []) w) (Cleared h (c ∷ cs) w)
      (if points_to (w.channel c).publisher h then set_publisher e c none w else ok w)
      (close_channels e h cs) (first (points_to (w.channel c).publisher h) refl)
      λ v p.
        OnOk-map (Cleared h cs v) (Cleared h (c ∷ cs) w) (close_channels e h cs v)
          (close_channels-Cleared e h cs v) (λ w' q. Cleared-step h c cs w v w' p q)
  where
    first :
        (b : Bool)
        → points_to (w.channel c).publisher h ≡ b
        → OnOk (Cleared h (c ∷ []) w) (if b then set_publisher e c none w else ok w)
    first true hit =
        OnOk-map (Sets c none w) (Cleared h (c ∷ []) w) (set_publisher e c none w)
          (set_publisher-Sets e c none w) (λ w' s. Sets-Cleared h c w w' hit s)
    first false miss = miss-Cleared h c w miss

idle-Returns :
    (e : Env) (h : ℕ) (cs : List ℕ) (w : World)
    → ((c : ℕ) → (w.channel c).subscriptions ≡ [])
    → Returns (close_channels e h cs w)
unfolding close_channels
idle-Returns e h [] w idle = (w, refl)
idle-Returns e h (c ∷ cs) w idle =
    first (λ v. idle-Returns e h cs v) (points_to (w.channel c).publisher h)
      (set_publisher-idle e c none w (idle c))
  where
    assigned_idle : (d : ℕ) → ((assign_publisher c none w).channel d).subscriptions ≡ []
    assigned_idle d = unfold assign_publisher in ground (arith, idle c, idle d)

    first :
        ((v : World)
          → ((d : ℕ) → (v.channel d).subscriptions ≡ [])
          → Returns (close_channels e h cs v))
        → (b : Bool) → set_publisher e c none w ≡ ok (assign_publisher c none w)
        → Returns ((if b then set_publisher e c none w else ok w) >>= close_channels e h cs)
    first rest true r = rw r (rest (assign_publisher c none w) assigned_idle)
    first rest false r = rest w idle

-- When the connection to a host is lost in a process that has no subscription, close_all_channels
-- returns; every registered channel that the host published is left with no publisher, and every
-- other channel keeps the one it had.
pub on_host_close-cleared :
    (e : Env) (h : ℕ) (w : World)
    → ((c : ℕ) → (w.channel c).subscriptions ≡ [])
    → (w' : World) × (on_host_close e h w ≡ ok w')
      × ((c : ℕ) → (w'.channel c).publisher ≡ after_close h w.channels c (w.channel c).publisher)
unfolding on_host_close
on_host_close-cleared e h w idle =
    let (w', r) = idle-Returns e h w.channels w idle in
    (
      w',
      r,
      (OnOk-ok (Cleared h w.channels w) (close_channels e h w.channels w)
          (close_channels-Cleared e h w.channels w) r).cleared,
    )
