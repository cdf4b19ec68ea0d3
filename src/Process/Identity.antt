-- ===== src/Process/Identity.antt =====
-- What stays the same through every run of a process (src/mesh.cpp, src/channel.cpp and src/libpubsub.cpp):
-- which host it is, and which channel a name means.
use libpubsub.Base.{
  All, Bytes, List, Option, [], ap, arith, codes, if_ind, none, pos, refl, some, subst, ℕ, ℤ, ◌++◌,
  ◌+◌, ◌<◌, ◌==◌, ◌∙◌, ◌∷◌, ◌≡◌,
}
use libpubsub.World.{World, Channel, Result, ok, fault, thrown, Env, ◌>>=◌}
use libpubsub.World.Kept.{OnOk-ok, ok_injective}
use libpubsub.Socket.Ports.{find_port}
use libpubsub.Mesh.{me, me_of, new_loopback, add_host}
use libpubsub.Channel.{find_channel, get_channel, get_or_create_channel}
use libpubsub.Channel
use libpubsub.Channel.Registry.{
  find_channel_name, IsRegistry, get_channel-get_or_create, get_or_create-IsRegistry,
}
use libpubsub.Api.{start, init, publish}
use libpubsub.Process.Moves.{Moves, Moves-refl, MovesOk}
use libpubsub.Process.Grows.{Grows, Grows-trans, Grows-Moves}
use libpubsub.Process.Channels.{publish-Moves}
use libpubsub.Process.Hosts.{add_host-Moves}
use libpubsub.Process.{Event, run, world_of}
use libpubsub.Process.Steps.{run-Moves, publishing-Moves}

find_channel-extend :
    (f g : ℕ → Channel) (n : ℕ) (name : Bytes) (cs more : List ℕ) (c : ℕ)
    → All (λ d. d < n) cs
    → ((d : ℕ) → d < n → (g d).name ≡ (f d).name)
    → find_channel f name cs ≡ some c
    → find_channel g name (cs ++ more) ≡ some c
unfolding find_channel
find_channel-extend f g n name [] more c a h e = cc
find_channel-extend f g n name (d ∷ cs) more c a h e =
    rw (h d a.0) (ground (arith, find_channel-extend f g n name cs more c a.1 h, e))

-- A name that has a channel keeps it.
pub get_channel-Grows :
    {w w' : World} (name : Bytes) (c : ℕ)
    → Grows w w'
    → IsRegistry w
    → get_channel name w ≡ some c
    → get_channel name w' ≡ some c
unfolding get_channel
get_channel-Grows {w} {w'} name c g r e =
    let (more, m) = g.more_channels in
    rw m (
      find_channel-extend w.channel w'.channel w.next_channel name w.channels more c r.0 g.name_kept
        e)

me-Grows : {w w' : World} (h : ℕ) (hs : List ℕ) → Grows w w' → w.hosts ≡ h ∷ hs → me w' ≡ h
unfolding me_of
me-Grows h hs g e = let (more, m) = g.more_hosts in rw (m, e) refl

Grows-run : {w w' : World} (events : List (Env × Event)) → run events w ≡ ok w' → Grows w w'
Grows-run {w} {w'} events r = Grows-Moves (run-Moves events w w' r)

-- A process with one host and no channel.
record Alone (h : ℕ) (w : World) : Type 0 where
  its_host : w.hosts ≡ h ∷ []
  no_channels : w.channels ≡ []

-- What every later state of such a process has.
abbrev Started : ℕ → World → Type 0
Started h w = (me w ≡ h) × IsRegistry w

Started-Grows :
    {w w' : World} (h : ℕ)
    → Started h w
    → ((hs : List ℕ) × (w.hosts ≡ h ∷ hs))
    → Grows w w'
    → Started h w'
Started-Grows h (m, r) (hs, e) g = (me-Grows h hs g e, g.registry r)

Alone-Started :
    {v w : World} (h : ℕ)
    → Alone h v
    → Grows v w
    → Started h w × ((hs : List ℕ) × (w.hosts ≡ h ∷ hs))
Alone-Started {v} {w} h a g =
    let (more, m) = g.more_hosts in
    let empty : IsRegistry v = rw a.no_channels (tt, tt) in
    ((me-Grows h [] g a.its_host, g.registry empty), (more, m ∙ rw a.its_host refl))

-- `init` makes the one host, and behind it may only add the host of the first process.
start-Moves :
    (e : Env) (port : ℕ) (u w : World)
    → u.hosts ≡ []
    → u.channels ≡ []
    → start e port u ≡ ok w
    → (v : World) × Alone u.next_host v × Moves v w
unfolding start
start-Moves e port u w h c r = (v, alone, OnOk-ok (Moves v) (start e port u) grows r)
  where
    v : World
    v = new_loopback (pos port) (record u { signaling_port = pos port })

    alone : Alone u.next_host v
    alone = unfold new_loopback in record { its_host = rw h refl; no_channels = c }

    grows : MovesOk v (start e port u)
    grows =
        unfold start in
        if_ind (MovesOk v) (port == 12212) (ok v) (add_host e (codes "localhost") (pos 12212) v)
          (λ _. Moves-refl v) (λ _. add_host-Moves e (codes "localhost") (pos 12212) v)

init-Moves :
    (e : Env) (random : ℤ) (u w : World)
    → u.hosts ≡ []
    → u.channels ≡ []
    → init e random u ≡ ok w
    → (v : World) × Alone u.next_host v × Moves v w
unfolding init
init-Moves e random u w h c = go (find_port e.can_bind 12212 (12212 + 64))
  where
    go :
        (o : Option ℕ)
        → elim o [
          | none ↦ fault (thrown (codes "No free port"))
          | some port ↦ start e port (record u { id = random })
        ]
          ≡ ok w
        → (v : World) × Alone u.next_host v × Moves v w
    go none r = cc
    go (some port) r = start-Moves e port (record u { id = random }) w h c r

-- In a process that `init` has started with no host and no channel before it, after any run of events
-- that no fault ends: the process is still the host that `init` made, and the registered channels are
-- allocated and have distinct names.
pub run-IsRegistry :
    (e : Env) (random : ℤ) (events : List (Env × Event)) (u w w' : World)
    → u.hosts ≡ []
    → u.channels ≡ []
    → init e random u ≡ ok w
    → run events w ≡ ok w'
    → (me w' ≡ u.next_host) × IsRegistry w'
run-IsRegistry e random events u w w' h c i r =
    let (v, a, g) = init-Moves e random u w h c i in
    (Alone-Started u.next_host a (Grows-trans (Grows-Moves g) (Grows-run events r))).0

-- The channel that `publish` answers is the one found under the name afterwards.
pub publish_found :
    (e : Env) (name : Bytes) (c : ℕ) (w w' : World)
    → IsRegistry w
    → publish e name w ≡ ok (c, w')
    → IsRegistry w' × (get_channel name w' ≡ some c)
unfolding publish
publish_found e name c w w' r =
    let (d, v) = get_or_create_channel name w in
    go d v (Channel.publish e d v) (publish-Moves e d v) (get_or_create-IsRegistry name w r).0
      (get_channel-get_or_create name w r.0)
  where
    numbered : ℕ → World → Result (ℕ × World)
    numbered d x = ok (d, x)

    go :
        (d : ℕ) (v : World) (m : Result World)
        → MovesOk v m
        → IsRegistry v
        → get_channel name v ≡ some d
        → (m >>= numbered d) ≡ ok (c, w')
        → IsRegistry w' × (get_channel name w' ≡ some c)
    go d v (fault x) g q f h = cc
    go d v (ok x) g q f h =
        let both : (d, x) ≡ (c, w') = ok_injective h in
        let same : d ≡ c = ap (λ p. p.0) both in
        let state : x ≡ w' = ap (λ p. p.1) both in
        subst (λ y. IsRegistry y × (get_channel name y ≡ some c)) state
          ((Grows-Moves g).registry q, get_channel-Grows name d (Grows-Moves g) q f ∙ ap some same)

named : {name : Bytes} (d : ℕ) (x : World) → get_channel name x ≡ some d → (x.channel d).name ≡ name
unfolding find_channel get_channel
named {name} d x f = find_channel_name x.channel name d x.channels f

-- Where the registered channels are allocated and have distinct names, and `publish` answers a channel
-- for a name: after any run of events that no fault ends, `publish` with that name, where it returns,
-- answers the same channel, and the channel has the name.
pub publish_again :
    (e e' : Env) (name : Bytes) (c d : ℕ) (events : List (Env × Event)) (u v w x : World)
    → IsRegistry u
    → publish e name u ≡ ok (c, v)
    → run events v ≡ ok w
    → publish e' name w ≡ ok (d, x)
    → (d ≡ c) × ((x.channel d).name ≡ name)
publish_again e e' name c d events u v w x r p q s =
    let (r1, f1) = publish_found e name c u v r p in
    let later = Grows-run events q in
    let before : get_channel name w ≡ some c = get_channel-Grows name c later r1 f1 in
    let (r2, f2) = publish_found e' name d w x (later.registry r1) s in
    let after : Grows w x = Grows-Moves (
      OnOk-ok (Moves w) (world_of (publish e' name w)) (publishing-Moves e' name w)
        (ap world_of s)) in
    let kept : get_channel name x ≡ some c =
      get_channel-Grows name c after (later.registry r1) before in
    (cc, named d x f2)
