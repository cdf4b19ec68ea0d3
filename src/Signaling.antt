-- ===== src/Signaling.antt =====
-- src/signaling.cpp and the statement handlers of src/channel.cpp: what a received message does to the
-- channels. The recursive mutex is held over each message, so a message is one step.
pub mod Announce
pub mod Transport
pub mod Mutex
pub mod HostClose
use libpubsub.Base.{
  Bytes, List, Option, [], codes, if◌then◌else◌, none, some, ℕ, ◌++◌, ◌==◌, ◌||◌, ◌∷◌,
}
use libpubsub.Text.{str_starts_with, str_before, str_after}
use libpubsub.Text.Decimal.{atoi}
use libpubsub.World.{World, Result, ok, fault, thrown, Env, points_to, ◌>>=◌}
use libpubsub.Mesh.{me, get_host, broadcast}
use libpubsub.Channel.{
  get_channel, get_or_create_channel, set_publisher, offer_tcp, offer_shm, on_offer_tcp,
  on_offer_shm, channel_to_string, is_some,
}

-- The first byte of a statement; a std::string answers NUL past its end.
abbrev pub statement_type : Bytes → ℕ
statement_type [] = 0
statement_type (c ∷ s) = c

-- `str_before(statement.substr(1), "|")`; substr throws on an empty statement.
unfoldable pub statement_name : Bytes → Result Bytes
unfolding str_before
statement_name [] = fault (thrown (codes "std::out_of_range"))
statement_name (c ∷ s) = ok (str_before s (codes "|"))

-- The host that a statement's options name.
unfoldable pub statement_host : Bytes → World → Option ℕ
unfolding str_before str_after atoi get_host
statement_host statement w =
    let opts = str_after statement (codes "|") in
    get_host (str_before opts (codes ":")) (atoi (str_after opts (codes ":"))) w

-- The branch of apply_publish_statement on the type, for a channel at hand. A channel that has a
-- publisher keeps it: the difference is only reported.
unfoldable pub apply_publish_type : Env → ℕ → ℕ → Option ℕ → ℕ → World → Result World
unfolding set_publisher
apply_publish_type e h type named c w =
    if type == b'P'
    then set_publisher e c (some h) w
    else if type == b'A' || type == b'S'
    then (if is_some (w.channel c).publisher then ok w else set_publisher e c named w)
    else ok w

-- apply_publish_statement.
unfoldable pub apply_publish_statement : Env → ℕ → Bytes → World → Result World
unfolding get_or_create_channel statement_host apply_publish_type statement_name
apply_publish_statement e h statement w = do
  name ← statement_name statement
  let (c, w') = get_or_create_channel name w
  apply_publish_type e h (statement_type statement) (statement_host statement w') c w'

-- `if(c) …`, for a channel that may not exist.
unfoldable pub with_channel : Option ℕ → (ℕ → Result World) → World → Result World
with_channel none f w = ok w
with_channel (some c) f w = f c

-- apply_unpublish_statement. Whoever sent it, the channel loses its publisher.
unfoldable pub apply_unpublish_statement : Env → ℕ → Bytes → World → Result World
unfolding get_channel with_channel set_publisher statement_name
apply_unpublish_statement e h statement w = do
  name ← statement_name statement
  with_channel (get_channel name w) (λ c. set_publisher e c none w) w

-- make_offer_tcp and make_offer_shm.
unfoldable pub make_offer_tcp : Env → ℕ → Bytes → World → Result World
unfolding get_channel with_channel offer_tcp
make_offer_tcp e h name w = with_channel (get_channel name w) (λ c. offer_tcp e c h w) w

unfoldable pub make_offer_shm : ℕ → Bytes → World → Result World
unfolding get_channel with_channel offer_shm
make_offer_shm h name w = with_channel (get_channel name w) (λ c. ok (offer_shm c h w)) w

-- The two handlers of offers, on the name and the text that they cut out of one.
unfoldable pub take_offer_tcp : Env → Bytes → Bytes → World → Result World
unfolding get_channel with_channel on_offer_tcp
take_offer_tcp e name offered w =
    with_channel (get_channel name w) (λ c. on_offer_tcp e c offered w) w

unfoldable pub take_offer_shm : Env → Bytes → Bytes → World → Result World
unfolding get_channel with_channel on_offer_shm
take_offer_shm e name offered w =
    with_channel (get_channel name w) (λ c. on_offer_shm e c offered w) w

-- answer_offer_tcp and answer_offer_shm.
unfoldable pub answer_offer_tcp : Env → ℕ → Bytes → World → Result World
unfolding take_offer_tcp str_before str_after
answer_offer_tcp e h offer w =
    take_offer_tcp e (str_before offer (codes "|")) (str_after offer (codes "|")) w

unfoldable pub answer_offer_shm : Env → ℕ → Bytes → World → Result World
unfolding take_offer_shm str_before str_after
answer_offer_shm e h offer w =
    take_offer_shm e (str_before offer (codes "|")) (str_after offer (codes "|")) w

-- The statements of the protocol.
pub data Statement : Type 0 where
  publishing unpublishing asking_tcp asking_shm offering_tcp offering_shm : Statement

-- The tests of digest_message, in their order.
unfoldable pub classify : Bytes → Option Statement
unfolding str_starts_with
classify s =
    if str_starts_with s (codes "PUBLISH=")
    then some publishing
    else if str_starts_with s (codes "UNPUBLISH=")
    then some unpublishing
    else if str_starts_with s (codes "CONNECT_TCP=")
    then some asking_tcp
    else if str_starts_with s (codes "CONNECT_SHM=")
    then some asking_shm
    else if str_starts_with s (codes "OFFER_TCP=")
    then some offering_tcp
    else if str_starts_with s (codes "OFFER_SHM=")
    then some offering_shm
    else none

-- The branches of digest_message. A text that is no statement is passed over.
unfoldable pub perform : Env → ℕ → Option Statement → Bytes → World → Result World
perform e h none body w = ok w
perform e h (some publishing) body w = apply_publish_statement e h body w
perform e h (some unpublishing) body w = apply_unpublish_statement e h body w
perform e h (some asking_tcp) body w = make_offer_tcp e h body w
perform e h (some asking_shm) body w = make_offer_shm h body w
perform e h (some offering_tcp) body w = answer_offer_tcp e h body w
perform e h (some offering_shm) body w = answer_offer_shm e h body w

-- digest_message.
unfoldable pub digest_message : Env → ℕ → Bytes → World → Result World
unfolding classify perform str_after
digest_message e h s w = perform e h (classify s) (str_after s (codes "=")) w

-- The loop of broadcast_published_channels.
unfoldable pub announce : List ℕ → World → World
unfolding broadcast channel_to_string
announce [] w = w
announce (c ∷ cs) w = announce cs (
    if points_to (w.channel c).publisher (me w)
    then broadcast (codes "PUBLISH=" ++ channel_to_string c w) w
    else w)

-- broadcast_published_channels, which on_host_open calls.
unfoldable pub on_host_open : ℕ → World → World
unfolding announce
on_host_open h w = announce w.channels w

-- The loop of close_all_channels.
unfoldable pub close_channels : Env → ℕ → List ℕ → World → Result World
unfolding set_publisher
close_channels e h [] w = ok w
close_channels e h (c ∷ cs) w = do
  w' ← if points_to (w.channel c).publisher h then set_publisher e c none w else ok w
  close_channels e h cs w'

-- close_all_channels, which on_host_close calls.
unfoldable pub on_host_close : Env → ℕ → World → Result World
unfolding close_channels
on_host_close e h w = close_channels e h w.channels w
