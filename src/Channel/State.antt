-- ===== src/Channel/State.antt =====
-- The channel registry of src/channel.cpp, and what a channel says of itself in src/channel.h.
use libpubsub.Base.{
  Bool, Bytes, List, Option, [], equal, false, if◌then◌else◌, negsuc, none, not, pos, some, suc,
  true, ℕ, ℤ, ◌++◌, ◌==◌, ◌∷◌,
}
use libpubsub.World.{Channel, World, set_channel, points_to, vector_remove}
use libpubsub.Mesh.{me, host_to_string}

-- get_channel: the first registered channel of the name.
unfoldable pub find_channel : (ℕ → Channel) → Bytes → List ℕ → Option ℕ
unfolding equal
find_channel heap name [] = none
find_channel heap name (c ∷ cs) =
    if equal (heap c).name name then some c else find_channel heap name cs

unfoldable pub get_channel : Bytes → World → Option ℕ
unfolding find_channel
get_channel name w = find_channel w.channel name w.channels

unfoldable pub has_channel : Bytes → World → Bool
unfolding get_channel
has_channel name w = elim (get_channel name w) [ none ↦ false | some c ↦ true ]

-- get_channel_index, which answers -1 for a channel that is not registered.
unfoldable pub index_loop : ℕ → ℕ → List ℕ → ℤ
index_loop c i [] = negsuc 0
index_loop c i (x ∷ xs) = if x == c then pos i else index_loop c (suc i) xs

unfoldable pub get_channel_index : ℕ → World → ℤ
unfolding index_loop
get_channel_index c w = index_loop c 0 w.channels

abbrev pub channel_named : Bytes → Channel
channel_named name = record {
  name = name;
  publisher = none;
  server = none;
  offered_port = pos 0;
  offered_shm_path = [];
  subscriptions = [];
  subscriptors = [];
  ptr = none;
  size = 0;
}

-- ChannelImpl::ChannelImpl.
unfoldable pub new_channel : Bytes → World → World
new_channel name w = record (set_channel w.next_channel (channel_named name) w) {
  next_channel = suc w.next_channel;
  channels = w.channels ++ (w.next_channel ∷ []);
}

-- ChannelImpl::~ChannelImpl.
unfoldable pub remove_channel : ℕ → World → World
unfolding vector_remove
remove_channel c w = record w { channels = vector_remove c w.channels }

-- get_or_create_channel.
unfoldable pub get_or_create_channel : Bytes → World → ℕ × World
unfolding get_channel new_channel
get_or_create_channel name w = elim (get_channel name w) [
  | none ↦ (w.next_channel, new_channel name w)
  | some c ↦ (c, w)
]

unfoldable pub is_empty : List ℕ → Bool
is_empty [] = true
is_empty (x ∷ xs) = false

abbrev pub is_some : Option ℕ → Bool
is_some none = false
is_some (some x) = true

-- ChannelImpl::getType.
unfoldable pub get_type : Channel → ℕ → ℕ
unfolding is_empty
get_type c self =
    if points_to c.publisher self
    then b'P'
    else if not (is_empty c.subscriptions)
    then b'S'
    else if is_some c.publisher
    then b'A'
    else b'N'

-- `publisher ? publisher->tostring() : ""`.
abbrev pub publisher_text : Option ℕ → World → Bytes
publisher_text none w = []
publisher_text (some h) w = host_to_string (w.host h)

-- ChannelImpl::tostring.
unfoldable pub channel_to_string : ℕ → World → Bytes
unfolding get_type host_to_string
channel_to_string c w =
    get_type (w.channel c) (me w)
    ∷ ((w.channel c).name ++ (b'|' ∷ publisher_text (w.channel c).publisher w))
