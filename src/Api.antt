-- ===== src/Api.antt =====
-- src/libpubsub.cpp: the calls of the application, and the start of the library in src/mesh.cpp.
pub mod Arguments
pub mod Requested
pub mod Connected
pub mod Start
pub mod Access
pub mod Announced
use libpubsub.Base.{
  Bool, Bytes, List, Option, [], codes, equal, false, if◌then◌else◌, none, pos, some, true, ℕ, ℤ,
  ◌++◌, ◌+◌, ◌==◌, ◌∷◌,
}
use libpubsub.Socket.Ports.{find_port}
use libpubsub.World.{World, Result, ok, fault, null_pointer, thrown, Env, ◌>>=◌}
use libpubsub.Mesh.{new_loopback, add_host, add_host_url}
use libpubsub.Channel.{get_or_create_channel}
use libpubsub.Channel
use libpubsub.Subscription

-- publish(name).
unfoldable pub publish : Env → Bytes → World → Result (ℕ × World)
unfolding get_or_create_channel Channel.publish
publish e name w = do
  let (c, w1) = get_or_create_channel name w
  w2 ← Channel.publish e c w1
  ok (c, w2)

-- subscribe(name).
unfoldable pub subscribe : Env → Bytes → World → Result (ℕ × World)
unfolding get_or_create_channel Channel.subscribe
subscribe e name w = do let (c, w1) = get_or_create_channel name w; Channel.subscribe e c w1

-- A pointer that the application passes to `write`.
pub data Buffer : Type 0 where
  null elsewhere : Buffer
  start_of : ℕ → Buffer

-- `s == ptr`.
unfoldable pub is_ptr : Buffer → Option ℕ → Bool
is_ptr null none = true
is_ptr (start_of g) (some k) = g == k
is_ptr _ _ = false

-- Channel::write(s, len), where `s` points to the bytes `msg`: the channel's own segment goes by DMA.
unfoldable pub write_channel : Buffer → Bytes → ℕ → World → Result World
unfolding is_ptr Channel.write_dma Channel.write
write_channel s msg c w =
    if is_ptr s (w.channel c).ptr then Channel.write_dma c w else Channel.write c msg w

-- Subscription::write(s, len). Nothing sets the pointer of a subscription.
unfoldable pub write_subscription : Buffer → Bytes → ℕ → World → Result World
unfolding is_ptr Subscription.write_dma Subscription.write
write_subscription s msg a w =
    if is_ptr s none then Subscription.write_dma a w else Subscription.write a msg w

-- Channel::alloc.
unfoldable pub alloc_channel : Env → ℕ → ℕ → World → World
unfolding Channel.alloc
alloc_channel e c size w = Channel.alloc e c size w

-- The parts that strtok cuts a text into: the longest pieces with no separator, none of them empty.
unfoldable pub strtok : ℕ → Bytes → Bytes → List Bytes
strtok sep piece [] = if equal piece [] then [] else piece ∷ []
strtok sep piece (c ∷ s) =
    let ended = strtok sep [] s in
    if c == sep
    then (if equal piece [] then ended else piece ∷ ended)
    else strtok sep (piece ++ (c ∷ [])) s

-- The loop of parse_args.
unfoldable pub add_hosts : Env → List Bytes → World → Result World
unfolding add_host_url
add_hosts e [] w = ok w
add_hosts e (url ∷ urls) w = do w' ← add_host_url e url w; add_hosts e urls w'

-- parse_args: `argv` is the list of the arguments, the program's name first. Behind a last "-h"
-- stands argv's null pointer, which strtok then reads.
unfoldable pub parse_args : Env → List Bytes → World → Result World
unfolding add_hosts strtok equal
parse_args e (program ∷ flag ∷ names ∷ rest) w =
    if equal flag (codes "-h") then add_hosts e (strtok b',' [] names) w else ok w
parse_args e (program ∷ flag ∷ []) w = if equal flag (codes "-h") then fault null_pointer else ok w
parse_args e argv w = ok w

-- The rest of `init` behind the signaling server's port: the loopback host, and on a second process
-- of the machine the host of the first one.
unfoldable pub start : Env → ℕ → World → Result World
unfolding new_loopback add_host
start e port w =
    let w' = new_loopback (pos port) (record w { signaling_port = pos port }) in
    if port == 12212 then ok w' else add_host e (codes "localhost") (pos 12212) w'

-- `init` on its first call, with the number that rand() gives for ID.
unfoldable pub init : Env → ℤ → World → Result World
unfolding find_port start
init e random w = elim (find_port e.can_bind 12212 (12212 + 64)) [
  | none ↦ fault (thrown (codes "No free port"))
  | some port ↦ start e port (record w { id = random })
]
