-- ===== src/Channel/Publisher.antt =====
-- ChannelImpl::setPublisher and the connections that it closes and opens (src/channel.h): what they
-- do to the publishers of the channels.
use libpubsub.Base.{
  Option, [], arith, codes, if_ind, none, not, pos, refl, some, true, ℕ, ◌&&◌, ◌++◌, ◌==◌, ◌||◌,
  ◌∙◌, ◌≡◌, ◌≢◌,
}
use libpubsub.World.{World, Result, ok, fault, Env}
use libpubsub.World.Kept.{OnOk, OnOk-bind, OnOk-ok, Kept, Kept-refl, Keeps}
use libpubsub.Mesh.{send, me, is_local}
use libpubsub.Channel.{
  send_publisher, connect_tcp, connect_shm, connect_to, connect, disconnect_loop, disconnect,
  assign_publisher, set_publisher, is_empty, is_some, same_pointer, leave_publisher, join_publisher,
}
use libpubsub.Subscription.Kept.{Kept-Links}
use libpubsub.Channel.Links.{connect-Links, disconnect-Links}

-- `w'` differs from `w` in the publisher of the channel `c`, which is `p`, and in nothing else of the
-- hosts, the registry, the names and the publishers.
pub record Sets (c : ℕ) (p : Option ℕ) (w w' : World) : Type 0 where
  pub same_host : w'.host ≡ w.host
  pub same_hosts : w'.hosts ≡ w.hosts
  pub same_next_host : w'.next_host ≡ w.next_host
  pub same_next_channel : w'.next_channel ≡ w.next_channel
  pub same_channels : w'.channels ≡ w.channels
  pub same_name : (d : ℕ) → (w'.channel d).name ≡ (w.channel d).name
  pub publisher_set : (w'.channel c).publisher ≡ p
  pub same_publisher : (d : ℕ) → c ≢ d → (w'.channel d).publisher ≡ (w.channel d).publisher

assign_publisher-Sets : (c : ℕ) (p : Option ℕ) (w : World) → Sets c p w (assign_publisher c p w)
unfolding assign_publisher
assign_publisher-Sets c p w = record {
  same_host = refl;
  same_hosts = refl;
  same_next_host = refl;
  same_next_channel = refl;
  same_channels = refl;
  same_name = λ d. ground arith;
  publisher_set = ground arith;
  same_publisher = λ d h. ground arith;
}

Kept-Sets : {c : ℕ} {p : Option ℕ} {u v w : World} → Kept u v → Sets c p v w → Sets c p u w
Kept-Sets k s = record {
  same_host = s.same_host ∙ k.same_host;
  same_hosts = s.same_hosts ∙ k.same_hosts;
  same_next_host = s.same_next_host ∙ k.same_next_host;
  same_next_channel = s.same_next_channel ∙ k.same_next_channel;
  same_channels = s.same_channels ∙ k.same_channels;
  same_name = λ d. s.same_name d ∙ k.same_name d;
  publisher_set = s.publisher_set;
  same_publisher = λ d h. s.same_publisher d h ∙ k.same_publisher d;
}

Sets-Kept : {c : ℕ} {p : Option ℕ} {u v w : World} → Sets c p u v → Kept v w → Sets c p u w
Sets-Kept {c} s k = record {
  same_host = k.same_host ∙ s.same_host;
  same_hosts = k.same_hosts ∙ s.same_hosts;
  same_next_host = k.same_next_host ∙ s.same_next_host;
  same_next_channel = k.same_next_channel ∙ s.same_next_channel;
  same_channels = k.same_channels ∙ s.same_channels;
  same_name = λ d. k.same_name d ∙ s.same_name d;
  publisher_set = k.same_publisher c ∙ s.publisher_set;
  same_publisher = λ d h. k.same_publisher d ∙ s.same_publisher d h;
}

OnOk-Sets :
    (c : ℕ) (p : Option ℕ) (u v : World) (r : Result World)
    → Sets c p u v
    → Keeps v r
    → OnOk (Sets c p u) r
OnOk-Sets c p u v (ok w) s k = Sets-Kept s k
OnOk-Sets c p u v (fault e) s k = tt

leave_publisher-Keeps : (c : ℕ) (p : Option ℕ) (w : World) → Keeps w (leave_publisher c p w)
unfolding leave_publisher
leave_publisher-Keeps c p w =
    if_ind (Keeps w)
      (is_some (w.channel c).publisher && not (same_pointer (w.channel c).publisher p))
      (disconnect c w) (ok w) (λ _. disconnect-Links Kept Kept-Links c w) (λ _. Kept-refl w)

join_publisher-Keeps :
    (e : Env) (c : ℕ) (p : Option ℕ) (w : World) → Keeps w (join_publisher e c p w)
unfolding join_publisher
join_publisher-Keeps e c p w =
    if_ind (Keeps w) (not (is_empty (w.channel c).subscriptions) && is_some p) (connect e c w)
      (ok w) (λ _. connect-Links Kept Kept-Links e c w) (λ _. Kept-refl w)

-- Where setPublisher returns, the channel has the given publisher, whatever it had, and no other
-- channel, no name and no host has changed.
pub set_publisher-Sets :
    (e : Env) (c : ℕ) (p : Option ℕ) (w : World) → OnOk (Sets c p w) (set_publisher e c p w)
unfolding set_publisher
set_publisher-Sets e c p w =
    OnOk-bind (Kept w) (Sets c p w) (leave_publisher c p w)
      (λ w'. join_publisher e c p (assign_publisher c p w')) (leave_publisher-Keeps c p w)
      λ w' k.
        OnOk-Sets c p w (assign_publisher c p w') _ (Kept-Sets k (assign_publisher-Sets c p w'))
          (join_publisher-Keeps e c p (assign_publisher c p w'))

leave_publisher-none :
    (c : ℕ) (p : Option ℕ) (w : World)
    → (w.channel c).publisher ≡ none
    → leave_publisher c p w ≡ ok w
unfolding leave_publisher
leave_publisher-none c p w h = rw h

-- The call returns.
abbrev pub Returns : Result World → Type 0
Returns r = (w : World) × (r ≡ ok w)

-- With nothing offered yet, each transport only sends a request to the publisher.
pub connect_tcp-request :
    (e : Env) (c p : ℕ) (w : World)
    → (w.channel c).publisher ≡ some p
    → (w.channel c).offered_port ≡ pos 0
    → connect_tcp e c w ≡ ok (send p (codes "CONNECT_TCP=" ++ (w.channel c).name) w)
unfolding connect_tcp send_publisher
connect_tcp-request e c p w h o = rw (o, h)

pub connect_shm-request :
    (e : Env) (c p : ℕ) (w : World)
    → (w.channel c).publisher ≡ some p
    → (w.channel c).offered_shm_path ≡ []
    → connect_shm e c w ≡ ok (send p (codes "CONNECT_SHM" ++ (w.channel c).name) w)
unfolding connect_shm send_publisher
connect_shm-request e c p w h o = rw (o, h)

connect-Returns :
    (e : Env) (c p : ℕ) (w : World)
    → (w.channel c).publisher ≡ some p
    → (w.channel c).offered_port ≡ pos 0
    → (w.channel c).offered_shm_path ≡ []
    → Returns (connect e c w)
unfolding connect
connect-Returns e c p w h o m = rw h (
    unfold connect_to in
    if_ind Returns (is_empty (w.channel c).subscriptions || p == me w) (ok w) _ (λ _. (w, refl))
      (λ _.
        if_ind Returns (is_local p w) (connect_shm e c w) (connect_tcp e c w)
          (λ _. (_, connect_shm-request e c p w h m)) (λ _. (_, connect_tcp-request e c p w h o))))

assigned :
    (c : ℕ) (p : Option ℕ) (w : World)
    → (((assign_publisher c p w).channel c).publisher ≡ p)
      × (((assign_publisher c p w).channel c).offered_port ≡ pos 0)
      × (((assign_publisher c p w).channel c).offered_shm_path ≡ (w.channel c).offered_shm_path)
unfolding assign_publisher
assigned c p w = (ground arith, ground arith, ground arith)

-- setPublisher of a host on a channel that has no publisher, and no shared memory on offer,
-- returns. The channel then has that publisher, and no other publisher, no name, no host and
-- neither registry has changed.
pub set_publisher-first :
    (e : Env) (c p : ℕ) (w : World)
    → (w.channel c).publisher ≡ none
    → (w.channel c).offered_shm_path ≡ []
    → (w' : World) × (set_publisher e c (some p) w ≡ ok w') × Sets c (some p) w w'
set_publisher-first e c p w h m =
    let v = assign_publisher c (some p) w in
    let (own, port, path) = assigned c (some p) w in
    let (w', r) = joins v own port (path ∙ m) in
    let whole = starts ∙ r in
    (
      w',
      whole,
      OnOk-ok (Sets c (some p) w) (set_publisher e c (some p) w) (set_publisher-Sets e c (some p) w)
          whole,
    )
  where
    joins :
        (v : World)
        → (v.channel c).publisher ≡ some p
        → (v.channel c).offered_port ≡ pos 0
        → (v.channel c).offered_shm_path ≡ []
        → Returns (join_publisher e c (some p) v)
    joins v own port path =
        unfold join_publisher in
        if_ind Returns (not (is_empty (v.channel c).subscriptions) && true) (connect e c v) (ok v)
          (λ _. connect-Returns e c p v own port path) (λ _. (v, refl))

    starts :
        set_publisher e c (some p) w ≡ join_publisher e c (some p) (assign_publisher c (some p) w)
    starts = unfold set_publisher in rw (leave_publisher-none c (some p) w h)

-- With no subscription setPublisher has nothing to close or open.
pub set_publisher-idle :
    (e : Env) (c : ℕ) (p : Option ℕ) (w : World)
    → (w.channel c).subscriptions ≡ []
    → set_publisher e c p w ≡ ok (assign_publisher c p w)
set_publisher-idle e c p w h = unfold set_publisher in rw leaves (unfold join_publisher in rw after)
  where
    leaves : leave_publisher c p w ≡ ok w
    leaves =
        unfold leave_publisher disconnect disconnect_loop in
        rw h (
          if_ind (λ r. r ≡ ok w)
            (is_some (w.channel c).publisher && not (same_pointer (w.channel c).publisher p)) (ok w)
            (ok w) (λ _. refl) (λ _. refl))

    after : ((assign_publisher c p w).channel c).subscriptions ≡ []
    after = unfold assign_publisher in ground (arith, h)
