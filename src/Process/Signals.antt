-- ===== src/Process/Signals.antt =====
-- What a received message does (src/signaling.cpp and src/channel.cpp) only makes the changes of Process/Moves.
use libpubsub.Base.{
  Bytes, List, Option, Option-cases, [], codes, if_ind, if◌then◌else◌, inl, inr, none, refl, some,
  suc, ℕ, ◌++◌, ◌∷◌,
}
use libpubsub.Text.{str_before, str_after}
use libpubsub.Text.Decimal.{atoi}
use libpubsub.Socket.Ports.{find_port}
use libpubsub.World.{World, Result, ok, Env, set_channel, points_to, update, ◌>>=◌}
use libpubsub.World.Kept.{OnOk, OnOk-bind}
use libpubsub.Mesh.{me, broadcast}
use libpubsub.Channel.{
  get_channel, get_or_create_channel, set_publisher, channel_to_string, to_size, ensure_server,
  offer_tcp, offer_shm, on_offer_tcp, on_offer_shm, connect_tcp, connect_shm,
}
use libpubsub.Channel.Links.{connect_tcp-Links, connect_shm-Links}
use libpubsub.Signaling.{
  statement_type, statement_name, statement_host, apply_publish_type, apply_publish_statement,
  with_channel, apply_unpublish_statement, make_offer_tcp, make_offer_shm, take_offer_tcp,
  take_offer_shm, answer_offer_tcp, answer_offer_shm, Statement, publishing, unpublishing,
  asking_tcp, asking_shm, offering_tcp, offering_shm, classify, perform, digest_message, announce,
  on_host_open, close_channels, on_host_close,
}
use libpubsub.Process.Moves.{
  Moves, Moves-outer, Moves-refl, Moves-Links, chained, retouched, MovesOk, MovesOk-after,
  MovesOk-bind, branching,
}
use libpubsub.Process.Channels.{
  get_or_create-Moves, set_publisher-Moves, send-Moves, broadcast-Moves,
}

server_of-Moves :
    (c h port : ℕ) (w : World)
    → Moves w (
        set_channel c
          (record (w.channel c) { server = some w.next_server })
          (record w {
            server = update w.server w.next_server (record { port = port; channel = c; host = h });
            next_server = suc w.next_server;
          }))
server_of-Moves c h port w =
    chained (Moves-outer {w = w} {w' = u} refl refl refl refl refl refl)
      (retouched c _ u refl refl refl)
  where
    u : World
    u = record w {
      server = update w.server w.next_server (record { port = port; channel = c; host = h });
      next_server = suc w.next_server;
    }

ensure_server-Moves :
    (e : Env) (c h : ℕ) (o : Option ℕ) (w : World)
    → OnOk (λ (r : ℕ × World). Moves w r.1) (ensure_server e c h o w)
unfolding ensure_server
ensure_server-Moves e c h (some v) w = Moves-refl w
ensure_server-Moves e c h none w = elim (Option-cases (find_port e.can_bind 10000 20000)) [
  | inl n ↦ rw (n, OnOk, ensure_server) tt
  | inr (port, n) ↦ rw (n, OnOk, ensure_server) (server_of-Moves c h port w)
]

offer_tcp-Moves : (e : Env) (c h : ℕ) (w : World) → MovesOk w (offer_tcp e c h w)
unfolding offer_tcp
offer_tcp-Moves e c h w =
    OnOk-bind (λ (r : ℕ × World). Moves w r.1) (Moves w)
      (ensure_server e c h (w.channel c).server w) _
      (ensure_server-Moves e c h (w.channel c).server w) (λ r g. chained g (send-Moves h _ r.1))

offer_shm-Moves : (c h : ℕ) (w : World) → Moves w (offer_shm c h w)
unfolding offer_shm
offer_shm-Moves c h w = chained offered (send-Moves h _ v)
  where
    v : World
    v = set_channel c (record (w.channel c) { offered_shm_path = (w.channel c).name }) w

    offered : Moves w v
    offered = retouched c _ w refl refl refl

on_offer_tcp-Moves :
    (e : Env) (c : ℕ) (offer : Bytes) (w : World) → MovesOk w (on_offer_tcp e c offer w)
unfolding on_offer_tcp
on_offer_tcp-Moves e c offer w =
    MovesOk-after (connect_tcp e c v) stored (connect_tcp-Links Moves Moves-Links e c v)
  where
    v : World
    v = set_channel c (record (w.channel c) { offered_port = atoi offer }) w

    stored : Moves w v
    stored = retouched c _ w refl refl refl

on_offer_shm-Moves :
    (e : Env) (c : ℕ) (offer : Bytes) (w : World) → MovesOk w (on_offer_shm e c offer w)
unfolding on_offer_shm
on_offer_shm-Moves e c offer w =
    MovesOk-after (connect_shm e c v) stored (connect_shm-Links Moves Moves-Links e c v)
  where
    v : World
    v =
        set_channel c
          (record (w.channel c) {
            offered_shm_path = str_before offer (codes "|");
            size = to_size (atoi (str_after offer (codes "|")));
          })
          w

    stored : Moves w v
    stored = retouched c _ w refl refl refl

with_channel-Moves :
    (o : Option ℕ) (f : ℕ → Result World) (w : World)
    → ((c : ℕ) → MovesOk w (f c))
    → MovesOk w (with_channel o f w)
unfolding with_channel
with_channel-Moves none f w h = Moves-refl w
with_channel-Moves (some c) f w h = h c

apply_publish_type-Moves :
    (e : Env) (h type : ℕ) (named : Option ℕ) (c : ℕ) (w : World)
    → MovesOk w (apply_publish_type e h type named c w)
unfolding apply_publish_type
apply_publish_type-Moves e h type named c w = search (branching, set_publisher-Moves)

-- A statement that has a name.
named-Moves :
    (statement : Bytes) (f : Bytes → Result World) (w : World)
    → ((name : Bytes) → MovesOk w (f name))
    → MovesOk w (statement_name statement >>= f)
unfolding statement_name
named-Moves [] f w h = tt
named-Moves (c ∷ s) f w h = h (str_before s (codes "|"))

apply_publish-Moves :
    (e : Env) (h : ℕ) (s : Bytes) (w : World) → MovesOk w (apply_publish_statement e h s w)
unfolding apply_publish_statement
apply_publish-Moves e h s w = named-Moves s _ w (λ name.
    MovesOk-after
      (apply_publish_type e h (statement_type s) (statement_host s (get_or_create_channel name w).1)
        (get_or_create_channel name w).0 (get_or_create_channel name w).1)
      (get_or_create-Moves name w)
      (apply_publish_type-Moves e h (statement_type s) _ _ (get_or_create_channel name w).1))

apply_unpublish-Moves :
    (e : Env) (h : ℕ) (s : Bytes) (w : World) → MovesOk w (apply_unpublish_statement e h s w)
unfolding apply_unpublish_statement
apply_unpublish-Moves e h s w =
    named-Moves s _ w
      (λ name. with_channel-Moves (get_channel name w) _ w (λ c. set_publisher-Moves e c none w))

take_offer_tcp-Moves :
    (e : Env) (name offered : Bytes) (w : World) → MovesOk w (take_offer_tcp e name offered w)
unfolding take_offer_tcp
take_offer_tcp-Moves e name offered w =
    with_channel-Moves (get_channel name w) (λ c. on_offer_tcp e c offered w) w
      (λ c. on_offer_tcp-Moves e c offered w)

take_offer_shm-Moves :
    (e : Env) (name offered : Bytes) (w : World) → MovesOk w (take_offer_shm e name offered w)
unfolding take_offer_shm
take_offer_shm-Moves e name offered w =
    with_channel-Moves (get_channel name w) (λ c. on_offer_shm e c offered w) w
      (λ c. on_offer_shm-Moves e c offered w)

perform-Moves :
    (e : Env) (h : ℕ) (o : Option Statement) (body : Bytes) (w : World)
    → MovesOk w (perform e h o body w)
unfolding perform make_offer_tcp make_offer_shm answer_offer_tcp answer_offer_shm
perform-Moves e h none body w = Moves-refl w
perform-Moves e h (some publishing) body w = apply_publish-Moves e h body w
perform-Moves e h (some unpublishing) body w = apply_unpublish-Moves e h body w
perform-Moves e h (some asking_tcp) body w =
    with_channel-Moves (get_channel body w) (λ c. offer_tcp e c h w) w
      (λ c. offer_tcp-Moves e c h w)
perform-Moves e h (some asking_shm) body w =
    with_channel-Moves (get_channel body w) (λ c. ok (offer_shm c h w)) w
      (λ c. offer_shm-Moves c h w)
perform-Moves e h (some offering_tcp) body w =
    take_offer_tcp-Moves e (str_before body (codes "|")) (str_after body (codes "|")) w
perform-Moves e h (some offering_shm) body w =
    take_offer_shm-Moves e (str_before body (codes "|")) (str_after body (codes "|")) w

pub digest_message-Moves :
    (e : Env) (h : ℕ) (s : Bytes) (w : World) → MovesOk w (digest_message e h s w)
unfolding digest_message
digest_message-Moves e h s w = perform-Moves e h (classify s) (str_after s (codes "=")) w

announce-Moves : (cs : List ℕ) (w : World) → Moves w (announce cs w)
unfolding announce
announce-Moves [] w = Moves-refl w
announce-Moves (c ∷ cs) w =
    chained
      (if_ind (Moves w) (points_to (w.channel c).publisher (me w))
        (broadcast (codes "PUBLISH=" ++ channel_to_string c w) w) w (λ _. broadcast-Moves _ w)
        (λ _. Moves-refl w))
      (announce-Moves cs _)

pub on_host_open-Moves : (h : ℕ) (w : World) → Moves w (on_host_open h w)
unfolding on_host_open
on_host_open-Moves h w = announce-Moves w.channels w

close_channels-Moves :
    (e : Env) (h : ℕ) (cs : List ℕ) (w : World) → MovesOk w (close_channels e h cs w)
unfolding close_channels
close_channels-Moves e h [] w = Moves-refl w
close_channels-Moves e h (c ∷ cs) w =
    MovesOk-bind w (if points_to (w.channel c).publisher h then set_publisher e c none w else ok w)
      (close_channels e h cs)
      (if_ind (MovesOk w) (points_to (w.channel c).publisher h) (set_publisher e c none w) (ok w)
        (λ _. set_publisher-Moves e c none w) (λ _. Moves-refl w))
      (close_channels-Moves e h cs)

pub on_host_close-Moves : (e : Env) (h : ℕ) (w : World) → MovesOk w (on_host_close e h w)
unfolding on_host_close
on_host_close-Moves e h w = close_channels-Moves e h w.channels w
