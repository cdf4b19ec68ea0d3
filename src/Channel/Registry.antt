-- ===== src/Channel/Registry.antt =====
-- The vector `channels` of src/channel.cpp: get_or_create_channel finds a channel by its name, makes
-- it once, and never registers a name twice.
use libpubsub.Base.{
  All, Bool-cases, Bytes, List, Option-cases, [], arith, equal, equal_iff, equal_refl, false,
  if◌then◌else◌, inl, inr, none, refl, some, suc, sym, true, ℕ, ◌++◌, ◌<◌, ◌||◌, ◌∙◌, ◌∷◌, ◌≡◌, ◌⊎◌,
}
use libpubsub.World.{Channel, World, update}
use libpubsub.Channel.{
  find_channel, get_channel, new_channel, get_or_create_channel, channel_named, has_channel,
}

-- Every registered channel is an allocated object.
abbrev pub Allocated : World → Type 0
Allocated w = All (λ c. c < w.next_channel) w.channels

find_channel-update :
    (heap : ℕ → Channel) (n : ℕ) (v : Channel) (name : Bytes) (cs : List ℕ)
    → All (λ c. c < n) cs
    → find_channel (update heap n v) name cs ≡ find_channel heap name cs
unfolding find_channel
find_channel-update heap n v name [] a = refl
find_channel-update heap n v name (c ∷ cs) a =
    ground (arith, find_channel-update heap n v name cs a.1)

find_channel-append :
    (heap : ℕ → Channel) (name : Bytes) (n : ℕ) (cs : List ℕ)
    → find_channel heap name cs ≡ none
    → find_channel heap name (cs ++ (n ∷ [])) ≡ (if equal (heap n).name name then some n else none)
unfolding find_channel
find_channel-append heap name n [] e = refl
find_channel-append heap name n (c ∷ cs) e = ground (arith, find_channel-append heap name n cs)

find_channel-append_some :
    (heap : ℕ → Channel) (name : Bytes) (n d : ℕ) (cs : List ℕ)
    → find_channel heap name cs ≡ some d
    → find_channel heap name (cs ++ (n ∷ [])) ≡ some d
unfolding find_channel
find_channel-append_some heap name n d [] e = cc
find_channel-append_some heap name n d (c ∷ cs) e =
    ground (arith, find_channel-append_some heap name n d cs)

-- What is found has the name.
pub find_channel_name :
    (heap : ℕ → Channel) (name : Bytes) (c : ℕ) (cs : List ℕ)
    → find_channel heap name cs ≡ some c
    → (heap c).name ≡ name
unfolding find_channel
find_channel_name heap name c [] e = cc
find_channel_name heap name c (d ∷ cs) e =
    ground (arith, equal_iff (heap d).name name, find_channel_name heap name c cs)

-- Names decide what is found.
pub find_channel-cong :
    (f g : ℕ → Channel) (name : Bytes) (cs : List ℕ)
    → ((c : ℕ) → (g c).name ≡ (f c).name)
    → find_channel g name cs ≡ find_channel f name cs
unfolding find_channel
find_channel-cong f g name [] h = refl
find_channel-cong f g name (c ∷ cs) h = rw (h c, find_channel-cong f g name cs h)

module _ (name : Bytes) (w : World) (a : Allocated w) where
  new_at :
      (update w.channel w.next_channel (channel_named name)) w.next_channel ≡ channel_named name
  new_at = ground arith

  get_channel-new :
      get_channel name w ≡ none → get_channel name (new_channel name w) ≡ some w.next_channel
  unfolding get_channel new_channel
  get_channel-new h =
      find_channel-append (update w.channel w.next_channel (channel_named name)) name w.next_channel
        w.channels
        (find_channel-update w.channel w.next_channel (channel_named name) name w.channels a ∙ h)
      ∙ rw (new_at, equal_refl name)

  -- The channel that get_or_create_channel answers is the one found under the name afterwards.
  pub get_channel-get_or_create :
      get_channel name (get_or_create_channel name w).1 ≡ some (get_or_create_channel name w).0
  get_channel-get_or_create = elim (Option-cases (get_channel name w)) [
    | inl e ↦ unfold get_or_create_channel in rw (e, get_or_create_channel) (get_channel-new e)
    | inr (c, e) ↦ unfold get_or_create_channel in rw (e, get_or_create_channel) e
  ]

-- No two channels of the list have one name: none of them is found again behind its place.
abbrev pub Distinct : (ℕ → Channel) → List ℕ → Type 0
Distinct heap [] = Unit {0}
Distinct heap (c ∷ cs) = (find_channel heap (heap c).name cs ≡ none) × Distinct heap cs

find_channel_head :
    (heap : ℕ → Channel) (name : Bytes) (c : ℕ) (cs : List ℕ)
    → find_channel heap name (c ∷ cs) ≡ none
    → (equal (heap c).name name ≡ false) × (find_channel heap name cs ≡ none)
unfolding find_channel
find_channel_head heap name c cs e = ground arith

equal_sym : (a b : Bytes) → equal a b ≡ false → equal b a ≡ false
equal_sym a b h = ground (arith, equal_iff a b, equal_iff b a)

Distinct-append :
    (heap : ℕ → Channel) (n : ℕ) (cs : List ℕ)
    → Distinct heap cs
    → find_channel heap (heap n).name cs ≡ none
    → Distinct heap (cs ++ (n ∷ []))
Distinct-append heap n [] d e = (unfold find_channel in refl, tt)
Distinct-append heap n (c ∷ cs) d e =
    let (differs, absent) = find_channel_head heap (heap n).name c cs e in
    (
      find_channel-append heap (heap c).name n cs d.0
          ∙ rw (equal_sym (heap c).name (heap n).name differs),
      Distinct-append heap n cs d.1 absent,
    )

Distinct-update :
    (heap : ℕ → Channel) (n : ℕ) (v : Channel) (cs : List ℕ)
    → All (λ c. c < n) cs
    → Distinct heap cs
    → Distinct (update heap n v) cs
Distinct-update heap n v [] a d = tt
Distinct-update heap n v (c ∷ cs) a d =
    let old : update heap n v c ≡ heap c = ground arith in
    (
      rw old (find_channel-update heap n v (heap c).name cs a.1 ∙ d.0),
      Distinct-update heap n v cs a.1 d.1,
    )

Allocated-append :
    (n : ℕ) (cs : List ℕ) → All (λ c. c < n) cs → All (λ c. c < suc n) (cs ++ (n ∷ []))
Allocated-append n [] a = (omega arith, tt)
Allocated-append n (c ∷ cs) a = (omega arith, Allocated-append n cs a.1)

-- The registered channels are allocated and have distinct names.
abbrev pub IsRegistry : World → Type 0
IsRegistry w = Allocated w × Distinct w.channel w.channels

pub new_channel-IsRegistry :
    (name : Bytes) (w : World)
    → IsRegistry w
    → get_channel name w ≡ none
    → IsRegistry (new_channel name w)
unfolding new_channel get_channel
new_channel-IsRegistry name w (a, d) h =
    let heap = update w.channel w.next_channel (channel_named name) in
    let absent =
      find_channel-update w.channel w.next_channel (channel_named name) name w.channels a ∙ h in
    (
      Allocated-append w.next_channel w.channels a,
      Distinct-append heap w.next_channel w.channels
          (Distinct-update w.channel w.next_channel (channel_named name) w.channels a d)
          (rw (new_at name w a) absent),
    )

get_or_create_found :
    (name : Bytes) (w : World) (c : ℕ)
    → get_channel name w ≡ some c
    → get_or_create_channel name w ≡ (c, w)
unfolding get_or_create_channel
get_or_create_found name w c e = rw (e, get_or_create_channel)

has_channel-some :
    (n : Bytes) (w : World) (c : ℕ) → get_channel n w ≡ some c → has_channel n w ≡ true
has_channel-some n w c e = unfold has_channel in rw (e, has_channel)

has_channel-none : (n : Bytes) (w : World) → get_channel n w ≡ none → has_channel n w ≡ false
has_channel-none n w e = unfold has_channel in rw (e, has_channel)

-- A new channel adds its name to the known ones.
module _ (name n : Bytes) (w : World) (a : Allocated w) where
  appended :
      get_channel n w ≡ none
      → get_channel n (new_channel name w) ≡ (if equal name n then some w.next_channel else none)
  unfolding get_channel new_channel
  appended e =
      find_channel-append (update w.channel w.next_channel (channel_named name)) n w.next_channel
        w.channels
        (find_channel-update w.channel w.next_channel (channel_named name) n w.channels a ∙ e)
      ∙ rw (new_at name w a)

  kept : (c : ℕ) → get_channel n w ≡ some c → get_channel n (new_channel name w) ≡ some c
  unfolding get_channel new_channel
  kept c e =
      find_channel-append_some (update w.channel w.next_channel (channel_named name)) n
        w.next_channel c w.channels
        (find_channel-update w.channel w.next_channel (channel_named name) n w.channels a ∙ e)

  known_or_new : has_channel n (new_channel name w) ≡ (has_channel n w || equal name n)
  known_or_new = elim (Option-cases (get_channel n w)) [
    | inr (c, e) ↦
        has_channel-some n (new_channel name w) c (kept c e) ∙ rw (has_channel-some n w c e)
    | inl e ↦ rw (has_channel-none n w e) (by_name e (Bool-cases (equal name n)))
  ]
    where
      by_name :
          get_channel n w ≡ none
          → (equal name n ≡ true) ⊎ (equal name n ≡ false)
          → has_channel n (new_channel name w) ≡ equal name n
      by_name e (inl y) =
          has_channel-some n (new_channel name w) w.next_channel (appended e ∙ rw y) ∙ sym y
      by_name e (inr d) = has_channel-none n (new_channel name w) (appended e ∙ rw d) ∙ sym d

get_or_create_known :
    (name n : Bytes) (w : World)
    → Allocated w
    → has_channel n (get_or_create_channel name w).1 ≡ (has_channel n w || equal name n)
get_or_create_known name n w a = elim (Option-cases (get_channel name w)) [
  | inl e ↦ unfold get_or_create_channel in rw (e, get_or_create_channel) (known_or_new name n w a)
  | inr (c, e) ↦ rw (get_or_create_found name w c e) (same c e (Bool-cases (equal name n)))
]
  where
    same :
        (c : ℕ)
        → get_channel name w ≡ some c
        → (equal name n ≡ true) ⊎ (equal name n ≡ false)
        → has_channel n w ≡ (has_channel n w || equal name n)
    same c e (inl y) =
        let alike : name ≡ n = (equal_iff name n).0 y in
        let here : has_channel n w ≡ true = has_channel-some n w c (rw (sym alike) e) in rw here
    same c e (inr d) = rw d (ground arith)

-- Where the registered channels are allocated and have distinct names, get_or_create_channel keeps
-- them so, whether or not it makes a channel; a second call with the name answers the same
-- channel and changes nothing; and the names that then have a channel are those that had one and
-- the name given.
pub get_or_create-IsRegistry :
    (name : Bytes) (w : World)
    → IsRegistry w
    → let (c, w') = get_or_create_channel name w in
      IsRegistry w'
      × (get_or_create_channel name w' ≡ (c, w'))
      × ((n : Bytes) → has_channel n w' ≡ (has_channel n w || equal name n))
get_or_create-IsRegistry name w r = (
  elim (Option-cases (get_channel name w)) [
    | inl e ↦
        unfold get_or_create_channel in
        rw (e, get_or_create_channel) (new_channel-IsRegistry name w r e)
    | inr (c, e) ↦ rw (get_or_create_found name w c e) r
  ],
  get_or_create_found name (get_or_create_channel name w).1 (get_or_create_channel name w).0
      (get_channel-get_or_create name w r.0),
  λ n. get_or_create_known name n w r.0,
)
