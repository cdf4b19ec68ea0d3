-- ===== src/Process/Grows.antt =====
-- What no step of a process undoes: its registries of src/mesh.cpp and src/channel.cpp only grow at
-- their ends, and a channel keeps its name.
use libpubsub.Base.{
  Bytes, List, [], append-nil, append_assoc, arith, none, refl, sym, ℕ, ◌++◌, ◌<◌, ◌∙◌, ◌∷◌, ◌≡◌,
  ◌≤◌,
}
use libpubsub.World.{World, Channel}
use libpubsub.Subscription
use libpubsub.Channel.{get_channel, new_channel}
use libpubsub.Channel.Registry.{Distinct, IsRegistry, find_channel-cong, new_channel-IsRegistry}
use libpubsub.Process.Moves.{
  Moves, Outer, chained, outer, retouched, made, subscribed, joined, stored, gone,
}

pub record Grows (w w' : World) : Type 0 where
  pub more_hosts : (more : List ℕ) × (w'.hosts ≡ w.hosts ++ more)
  pub more_channels : (more : List ℕ) × (w'.channels ≡ w.channels ++ more)
  pub next_later : w.next_channel ≤ w'.next_channel
  pub name_kept : (c : ℕ) → c < w.next_channel → (w'.channel c).name ≡ (w.channel c).name
  pub registry : IsRegistry w → IsRegistry w'

Distinct-cong :
    (f g : ℕ → Channel) (cs : List ℕ)
    → ((c : ℕ) → (g c).name ≡ (f c).name)
    → Distinct f cs
    → Distinct g cs
Distinct-cong f g [] e d = tt
Distinct-cong f g (c ∷ cs) e d =
    (rw (e c) (find_channel-cong f g (f c).name cs e ∙ d.0), Distinct-cong f g cs e d.1)

-- The registries, the counter and the names are as they were.
pub Grows-same :
    {w w' : World}
    → w'.hosts ≡ w.hosts
    → w'.channels ≡ w.channels
    → w'.next_channel ≡ w.next_channel
    → ((c : ℕ) → (w'.channel c).name ≡ (w.channel c).name)
    → Grows w w'
Grows-same {w} {w'} h r n e = record {
  more_hosts = ([], h ∙ sym (append-nil w.hosts));
  more_channels = ([], r ∙ sym (append-nil w.channels));
  next_later = omega (arith, n);
  name_kept = λ c l. e c;
  registry = λ (a, d). (rw (r, n) a, rw r (Distinct-cong w.channel w'.channel w.channels e d));
}

pub Grows-trans : {u v w : World} → Grows u v → Grows v w → Grows u w
Grows-trans {u} {v} {w} p q =
    let (hs, h) = p.more_hosts in
    let (hs', h') = q.more_hosts in
    let (cs, c) = p.more_channels in
    let (cs', c') = q.more_channels in
    record {
      more_hosts = (hs ++ hs', h' ∙ rw h (append_assoc u.hosts hs hs'));
      more_channels = (cs ++ cs', c' ∙ rw c (append_assoc u.channels cs cs'));
      next_later = omega (arith, p.next_later, q.next_later);
      name_kept = λ x l. q.name_kept x (omega (arith, p.next_later)) ∙ p.name_kept x l;
      registry = λ r. q.registry (p.registry r);
    }

Grows-Outer : {w w' : World} → Outer w w' → Grows w w'
Grows-Outer {w} o = record {
  more_hosts = o.more_hosts;
  more_channels = ([], o.same_channels ∙ sym (append-nil w.channels));
  next_later = omega (arith, o.same_next_channel);
  name_kept = λ c l. rw o.same_channel;
  registry = λ (a, d).
      (rw (o.same_channels, o.same_next_channel) a, rw (o.same_channels, o.same_channel) d);
}

Grows-made : (name : Bytes) (w : World) → get_channel name w ≡ none → Grows w (new_channel name w)
Grows-made name w e = record {
  more_hosts = unfold new_channel in ([], sym (append-nil w.hosts));
  more_channels = unfold new_channel in (w.next_channel ∷ [], refl);
  next_later = unfold new_channel in omega arith;
  name_kept = λ c l. unfold new_channel in ground (arith, l);
  registry = λ r. new_channel-IsRegistry name w r e;
}

-- What no change to a process undoes: its registries only grow.
pub Grows-Moves : {w w' : World} → Moves w w' → Grows w w'
Grows-Moves (chained p q) = Grows-trans (Grows-Moves p) (Grows-Moves q)
Grows-Moves (outer o) = Grows-Outer o
Grows-Moves (retouched c v w n s t) = Grows-same refl refl refl (λ d. ground (arith, n))
Grows-Moves (made name w e) = Grows-made name w e
Grows-Moves (subscribed c is_async w) =
    unfold Subscription.new_subscription in Grows-same refl refl refl (λ d. ground arith)
Grows-Moves (joined c s h w) =
    unfold Subscription.new_tcp_subscriptor in Grows-same refl refl refl (λ d. ground arith)
Grows-Moves (stored s v v' w e k m) = Grows-same refl refl refl (λ d. refl)
Grows-Moves (gone s v w e) =
    unfold Subscription.destroy in Grows-same refl refl refl (λ d. ground arith)
