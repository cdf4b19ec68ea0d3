-- ===== src/Signaling/Announce.antt =====
-- "PUBLISH=" and "UNPUBLISH=" statements from the process that sends them (ChannelImpl::tostring of
-- src/channel.h) to the process that reads them (digest_message of src/signaling.cpp).
use libpubsub.Channel.Disconnect.{set_publisher_null}
use libpubsub.Base.{
  Bytes, Lacks, List, Option, Option-cases, [], ap, arith, codes, inl, inr, none, pos, refl, some,
  true, ℕ, ◌++◌, ◌∙◌, ◌∷◌, ◌≡◌,
}
use libpubsub.Text.Split.{str_before-byte}
use libpubsub.World.{World, ok, fault, Env, points_to, Subscription, tcp, null_pointer, set_channel}
use libpubsub.Mesh.{me}
use libpubsub.Channel.{
  get_type, channel_to_string, publisher_text, get_channel, get_or_create_channel, set_publisher,
  new_channel, assign_publisher,
}
use libpubsub.Channel.Publisher.{Sets, set_publisher-first, set_publisher-idle}
use libpubsub.Channel.Registry.{Allocated, find_channel-cong, get_channel-get_or_create}
use libpubsub.Signaling.{
  statement_name, statement_type, apply_publish_type, apply_publish_statement, digest_message,
  apply_unpublish_statement, statement_host, with_channel,
}

-- The text of a statement about a channel.
abbrev pub announcement : ℕ → Bytes → Bytes → Bytes
announcement type name host = codes "PUBLISH=" ++ (type ∷ (name ++ (b'|' ∷ host)))

digest-publish :
    (e : Env) (h : ℕ) (body : Bytes) (w : World)
    → digest_message e h (codes "PUBLISH=" ++ body) w ≡ apply_publish_statement e h body w
unfolding digest_message
digest-publish e h body w = refl

digest-unpublish :
    (e : Env) (h : ℕ) (body : Bytes) (w : World)
    → digest_message e h (codes "UNPUBLISH=" ++ body) w ≡ apply_unpublish_statement e h body w
unfolding digest_message
digest-unpublish e h body w = refl

statement_name-lem :
    (type : ℕ) (name host : Bytes)
    → Lacks b'|' name
    → statement_name (type ∷ (name ++ (b'|' ∷ host))) ≡ ok name
unfolding statement_name
statement_name-lem type name host l = ap ok (str_before-byte b'|' name host l)

apply_publish-name :
    (e : Env) (h : ℕ) (statement name : Bytes) (w : World)
    → statement_name statement ≡ ok name
    → apply_publish_statement e h statement w
      ≡ apply_publish_type e h
          (statement_type statement)
          (statement_host statement (get_or_create_channel name w).1)
          (get_or_create_channel name w).0
          (get_or_create_channel name w).1
unfolding apply_publish_statement
apply_publish-name e h statement name w n = rw (n, apply_publish_statement)

apply_publish-P :
    (e : Env) (h : ℕ) (named : Option ℕ) (c : ℕ) (w : World)
    → apply_publish_type e h b'P' named c w ≡ set_publisher e c (some h) w
unfolding apply_publish_type
apply_publish-P e h named c w = refl

-- A statement of type 'P' makes its sender the publisher of the named channel.
digest-announcement :
    (e : Env) (h : ℕ) (name host : Bytes) (w : World)
    → Lacks b'|' name
    → digest_message e h (announcement b'P' name host) w
      ≡ set_publisher e (get_or_create_channel name w).0 (some h) (get_or_create_channel name w).1
digest-announcement e h name host w l =
    digest-publish e h (b'P' ∷ (name ++ (b'|' ∷ host))) w
    ∙ apply_publish-name e h (b'P' ∷ (name ++ (b'|' ∷ host))) name w
        (statement_name-lem b'P' name host l)
    ∙ apply_publish-P e h _ (get_or_create_channel name w).0 (get_or_create_channel name w).1

pub channel_to_string-P :
    (c : ℕ) (w : World)
    → points_to (w.channel c).publisher (me w) ≡ true
    → channel_to_string c w
      ≡ b'P' ∷ ((w.channel c).name ++ (b'|' ∷ publisher_text (w.channel c).publisher w))
unfolding channel_to_string get_type
channel_to_string-P c w h = rw h

-- The channel of a name has the publisher `p`.
abbrev pub Publishes : Bytes → Option ℕ → World → Type 0
Publishes name p w = (c : ℕ) × (get_channel name w ≡ some c) × ((w.channel c).publisher ≡ p)

Sets-Publishes :
    (name : Bytes) (p : Option ℕ) (c : ℕ) (w w' : World)
    → get_channel name w ≡ some c
    → Sets c p w w'
    → Publishes name p w'
unfolding get_channel
Sets-Publishes name p c w w' f s = (
  c,
  rw s.same_channels (find_channel-cong w.channel w'.channel name w.channels s.same_name ∙ f),
  s.publisher_set,
)

-- A channel that waits for a publisher: it has none, and no shared memory is on offer.
abbrev pub IsFree : ℕ → World → Type 0
IsFree c w = ((w.channel c).publisher ≡ none) × ((w.channel c).offered_shm_path ≡ [])

-- The channel of a name is free where the name has no channel yet, or a free one.
get_or_create-IsFree :
    (name : Bytes) (w : World)
    → ((d : ℕ) → get_channel name w ≡ some d → IsFree d w)
    → IsFree (get_or_create_channel name w).0 (get_or_create_channel name w).1
unfolding get_or_create_channel
get_or_create-IsFree name w free = elim (Option-cases (get_channel name w)) [
  | inl e ↦ rw (e, get_or_create_channel) (unfold new_channel in (ground arith, ground arith))
  | inr (d, e) ↦ rw (e, get_or_create_channel) (free d e)
]

-- A process `a` publishes a channel whose name holds no '|'. What `a` broadcasts about it is
-- handled without fail by a process `b`, all of whose registered channels are allocated, if the
-- channel of that name in `b`, where there is one, has no publisher and no shared memory on offer.
-- The channel of that name then has the host `h`, by which `b` knows the sender, as its publisher.
pub digest-tostring_first :
    (e : Env) (a b : World) (c h : ℕ)
    → Lacks b'|' (a.channel c).name
    → points_to (a.channel c).publisher (me a) ≡ true
    → Allocated b
    → ((d : ℕ) → get_channel (a.channel c).name b ≡ some d → IsFree d b)
    → (b' : World) × (digest_message e h (codes "PUBLISH=" ++ channel_to_string c a) b ≡ ok b')
      × Publishes (a.channel c).name (some h) b'
digest-tostring_first e a b c h l p alloc free =
    let name = (a.channel c).name in
    let d = (get_or_create_channel name b).0 in
    let w = (get_or_create_channel name b).1 in
    let (none_yet, nothing) = get_or_create-IsFree name b free in
    let (b', r, s) = set_publisher-first e d h w none_yet nothing in
    let known = get_channel-get_or_create name b alloc in
    (
      b',
      rw (channel_to_string-P c a p)
          (digest-announcement e h name (publisher_text (a.channel c).publisher a) b l ∙ r),
      Sets-Publishes name (some h) d w b' known s,
    )

apply_unpublish-name :
    (e : Env) (h : ℕ) (statement name : Bytes) (d : ℕ) (w : World)
    → statement_name statement ≡ ok name
    → get_channel name w ≡ some d
    → apply_unpublish_statement e h statement w ≡ set_publisher e d none w
unfolding apply_unpublish_statement
apply_unpublish-name e h statement name d w n k = rw (n, apply_unpublish_statement, k, with_channel)

-- An "UNPUBLISH=" statement about a known channel takes its publisher, whoever sends it.
digest-unpublished :
    (e : Env) (a b : World) (c d h : ℕ)
    → Lacks b'|' (a.channel c).name
    → get_channel (a.channel c).name b ≡ some d
    → digest_message e h (codes "UNPUBLISH=" ++ channel_to_string c a) b ≡ set_publisher e d none b
unfolding channel_to_string
digest-unpublished e a b c d h l k =
    let name = (a.channel c).name in
    let type = get_type (a.channel c) (me a) in
    let text = publisher_text (a.channel c).publisher a in
    digest-unpublish e h (type ∷ (name ++ (b'|' ∷ text))) b
    ∙ apply_unpublish-name e h (type ∷ (name ++ (b'|' ∷ text))) name d b
        (statement_name-lem type name text l) k

-- An "UNPUBLISH=" text that a process `a` makes of a channel, whose name holds no '|', a process
-- `b` that has a channel of the name and no subscription on it handles without fail: the channel
-- is left with no publisher and no port on offer, and nothing else changes. It does not matter
-- which host sent the text.
pub digest-unpublished_idle :
    (e : Env) (a b : World) (c d h : ℕ)
    → Lacks b'|' (a.channel c).name
    → get_channel (a.channel c).name b ≡ some d
    → (b.channel d).subscriptions ≡ []
    → digest_message e h (codes "UNPUBLISH=" ++ channel_to_string c a) b
      ≡ ok (set_channel d (record (b.channel d) { publisher = none; offered_port = pos 0 }) b)
unfolding assign_publisher
digest-unpublished_idle e a b c d h l k idle =
    digest-unpublished e a b c d h l k ∙ set_publisher-idle e d none b idle

-- A subscription that no transport was agreed for yet.
pub record IsPending (s : ℕ) (w : World) (v : Subscription) : Type 0 where
  pub alive : w.subscription s ≡ some v
  pub over_tcp : v.transport ≡ tcp
  pub no_socket : v.socket ≡ none

-- An "UNPUBLISH=" text that a process `a` makes of a channel, whose name holds no '|', makes `b`
-- use a null pointer where its channel of the name has a publisher and the first subscription
-- there, over TCP, has no socket yet.
pub digest-unpublished_pending :
    (e : Env) (a b : World) (c d h p s : ℕ) (rest : List ℕ) (v : Subscription)
    → Lacks b'|' (a.channel c).name
    → get_channel (a.channel c).name b ≡ some d
    → (b.channel d).publisher ≡ some p
    → (b.channel d).subscriptions ≡ s ∷ rest
    → IsPending s b v
    → digest_message e h (codes "UNPUBLISH=" ++ channel_to_string c a) b ≡ fault null_pointer
digest-unpublished_pending e a b c d h p s rest v l k own subs pending =
    digest-unpublished e a b c d h l k ∙ crashes
  where
    crashes : set_publisher e d none b ≡ fault null_pointer
    crashes =
        set_publisher_null e d p s rest v b own subs pending.alive pending.over_tcp
          pending.no_socket
