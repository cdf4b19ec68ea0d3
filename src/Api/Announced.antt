-- ===== src/Api/Announced.antt =====
-- `publish` of src/libpubsub.cpp for a new channel, down to what the other processes make of it.
use libpubsub.Base.{
  Bytes, Lacks, [], ap, ap₂, arith, codes, drop, false, if_ind, none, refl, some, subst, sym, true,
  ℕ, ◌++◌, ◌∙◌, ◌∷◌, ◌≡◌,
}
use libpubsub.World.{World, Result, ok, Env, points_to, ◌>>=◌}
use libpubsub.Mesh.{host_to_string, me, broadcast}
use libpubsub.Mesh.Quiet.{broadcast-Quiet}
use libpubsub.Mesh.Broadcast.{added, broadcast-sent, added-cong}
use libpubsub.Channel.{
  get_channel, new_channel, get_or_create_channel, assign_publisher, set_publisher,
  channel_to_string,
}
use libpubsub.Channel
use libpubsub.Channel.Registry.{Allocated}
use libpubsub.Channel.Publisher.{set_publisher-idle}
use libpubsub.Signaling.{digest_message}
use libpubsub.Signaling.Announce.{channel_to_string-P, IsFree, Publishes, digest-tostring_first}
use libpubsub.Api.{publish}

module _ (name : Bytes) (a : World) where
  -- The process before the broadcast.
  assigned : World
  assigned = assign_publisher a.next_channel (some (me a)) (new_channel name a)

  abbrev told : Bytes
  told = codes "PUBLISH=" ++ channel_to_string a.next_channel assigned

  assigned_lem :
      ((assigned.channel a.next_channel).publisher ≡ some (me a))
      × ((assigned.channel a.next_channel).name ≡ name)
      × (assigned.hosts ≡ a.hosts)
      × (assigned.host ≡ a.host)
      × (assigned.socket ≡ a.socket)
      × (points_to (assigned.channel a.next_channel).publisher (me assigned) ≡ true)
  unfolding assigned assign_publisher new_channel
  assigned_lem = (ground arith, ground arith, refl, refl, refl, ground arith)

  fresh_idle :
      (((new_channel name a).channel a.next_channel).subscriptions ≡ [])
      × (points_to ((new_channel name a).channel a.next_channel).publisher (me (new_channel name a))
          ≡ false)
  unfolding new_channel
  fresh_idle = (ground arith, ground arith)

  -- ChannelImpl::publish on the new channel.
  channel_publishes :
      (e : Env)
      → Channel.publish e a.next_channel (new_channel name a) ≡ ok (broadcast told assigned)
  unfolding Channel.publish assigned new_channel
  channel_publishes e =
      if_ind (λ r. r ≡ ok (broadcast told assigned))
        (points_to ((new_channel name a).channel a.next_channel).publisher
          (me (new_channel name a)))
        (ok (new_channel name a)) _ (λ t. let others = fresh_idle.1 in cc)
        (λ _. ap announced (
          set_publisher-idle e a.next_channel (some (me (new_channel name a))) (new_channel name a)
            fresh_idle.0))
    where
      announced : Result World → Result World
      announced m =
          m >>= λ w. ok (broadcast (codes "PUBLISH=" ++ channel_to_string a.next_channel w) w)

  publish_new :
      (e : Env)
      → get_channel name a ≡ none
      → publish e name a ≡ ok (a.next_channel, broadcast told assigned)
  unfolding publish Channel.publish
  publish_new e h = by_channel (get_or_create_channel name a) made
    where
      made : get_or_create_channel name a ≡ (a.next_channel, new_channel name a)
      made = unfold get_or_create_channel in rw (h, get_or_create_channel)

      numbered : ℕ × World → Result (ℕ × World)
      numbered p = Channel.publish e p.0 p.1 >>= λ w. ok (p.0, w)

      by_channel :
          (p : ℕ × World)
          → p ≡ (a.next_channel, new_channel name a)
          → numbered p ≡ ok (a.next_channel, broadcast told assigned)
      by_channel p q =
          ap numbered q ∙ ap (λ m. m >>= λ w. ok (a.next_channel, w)) (channel_publishes e)

-- The statement about a channel that the process itself publishes.
pub statement : Bytes → World → Bytes
statement name a = codes "PUBLISH=P" ++ (name ++ (b'|' ∷ host_to_string (a.host (me a))))

told_lem : (name : Bytes) (a : World) → told name a ≡ statement name a
unfolding statement
told_lem name a =
    let (own, its_name, hosts, heap, sockets, mine) = assigned_lem name a in
    ap (λ t. codes "PUBLISH=" ++ t)
      (channel_to_string-P a.next_channel (assigned name a) mine ∙ rw (own, its_name, heap) refl)

-- `publish` with a name that holds no '|' and that has no channel yet in a process `a` returns a new channel, of
-- which that process is the publisher, and adds to each socket one frame with a statement for every
-- ready host behind the first whose running socket it is. A process `b`, all of whose registered
-- channels are allocated, handles that statement without fail, if its channel of the name, where there
-- is one, has no publisher and no shared memory on offer: the channel of that name then has the
-- host `h`, by which `b` knows the sender, as its publisher.
pub publish-announced :
    (e f : Env) (name : Bytes) (a b : World) (h : ℕ)
    → Lacks b'|' name
    → get_channel name a ≡ none
    → Allocated b
    → ((d : ℕ) → get_channel name b ≡ some d → IsFree d b)
    → (a' : World) × (publish e name a ≡ ok (a.next_channel, a'))
      × ((a'.channel a.next_channel).publisher ≡ some (me a))
      × ((s : ℕ)
          → (a'.socket s).sent ≡ (a.socket s).sent ++ added (statement name a) a s (drop 1 a.hosts))
      × ((b' : World) × (digest_message f h (statement name a) b ≡ ok b')
          × Publishes name (some h) b')
publish-announced e f name a b h l new alloc free =
    let (own, its_name, hosts, heap, sockets, mine) = assigned_lem name a in
    (
      broadcast msg u,
      publish_new name a e new,
      rw (broadcast-Quiet msg u).same_channel own,
      sends hosts heap sockets,
      reads its_name mine,
    )
  where
    n : ℕ
    n = a.next_channel

    u : World
    u = assigned name a

    msg : Bytes
    msg = told name a

    sends :
        u.hosts ≡ a.hosts
        → u.host ≡ a.host
        → u.socket ≡ a.socket
        → (s : ℕ)
        → ((broadcast msg u).socket s).sent
          ≡ (a.socket s).sent ++ added (statement name a) a s (drop 1 a.hosts)
    sends hosts heap sockets s =
        broadcast-sent msg u s
        ∙ ap₂ (λ x y. x ++ y) (ap (λ k. (k s).sent) sockets)
            (ap (λ hs. added msg u s (drop 1 hs)) hosts
              ∙ added-cong a u heap sockets msg s (drop 1 a.hosts)
              ∙ ap (λ m. added m a s (drop 1 a.hosts)) (told_lem name a))

    reads :
        (u.channel n).name ≡ name
        → points_to (u.channel n).publisher (me u) ≡ true
        → (b' : World) × (digest_message f h (statement name a) b ≡ ok b')
          × Publishes name (some h) b'
    reads its_name mine =
        let (b', r, p) =
          digest-tostring_first f u b n h (subst (Lacks b'|') (sym its_name) l) mine alloc
            (subst (λ x. (d : ℕ) → get_channel x b ≡ some d → IsFree d b) (sym its_name) free) in
        (
          b',
          subst (λ m. digest_message f h m b ≡ ok b') (told_lem name a) r,
          subst (λ x. Publishes x (some h) b') its_name p,
        )
