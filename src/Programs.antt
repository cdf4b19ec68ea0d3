-- ===== src/Programs.antt =====
-- The programs of src/bin around the calls of the library: publish.cpp, subscribe.cpp and the writing side
-- of throughput.cpp. The terminal is a parameter: what read(2) returns, with what the threads of the
-- process do before each of its returns.
pub mod Named
pub mod Dump
use libpubsub.Base.{
  Bytes, List, [], codes, equal, if◌then◌else◌, negsuc, pos, suc, zero, ℕ, ℤ, ◌%◌, ◌++◌, ◌∷◌,
}
use libpubsub.Text.Decimal.{atoi}
use libpubsub.World.{World, Result, ok, fault, null_pointer, overrun, thrown, Env, ◌>>=◌}
use libpubsub.Api.{publish, subscribe, parse_args, write_channel, write_subscription, elsewhere}
use libpubsub.Process.{Event, run}

-- What read(2) returns, oldest first, up to the end of the input.
abbrev pub Input : Type 0
Input = List (List (Env × Event) × Bytes)

-- The loop of the programs over their input.
unfoldable pub copy : (Bytes → World → Result World) → Input → World → Result World
unfolding run
copy send [] w = ok w
copy send ((before, chunk) ∷ more) w = do w1 ← run before w; w2 ← send chunk w1; copy send more w2

-- main of publish.cpp. With no argument argv[1] is null, which a std::string cannot be made of. Without even
-- a program name it only prints how it is used.
unfoldable pub publish_main : Env → List Bytes → Input → World → Result World
unfolding parse_args publish copy write_channel
publish_main e [] input w = ok w
publish_main e (program ∷ []) input w = do w1 ← parse_args e (program ∷ []) w; fault null_pointer
publish_main e (program ∷ name ∷ rest) input w = do
  w1 ← parse_args e (program ∷ name ∷ rest) w
  (c, w2) ← publish e name w1
  copy (λ msg. write_channel elsewhere msg c) input w2

-- main of subscribe.cpp.
unfoldable pub subscribe_main : Env → List Bytes → Input → World → Result World
unfolding parse_args subscribe copy write_subscription
subscribe_main e [] input w = ok w
subscribe_main e (program ∷ []) input w = do w1 ← parse_args e (program ∷ []) w; fault null_pointer
subscribe_main e (program ∷ name ∷ rest) input w = do
  w1 ← parse_args e (program ∷ name ∷ rest) w
  (s, w2) ← subscribe e name w1
  copy (λ msg. write_subscription elsewhere msg s) input w2

-- The buffer of subscribe_out: byte i is i % 255.
unfoldable pub pattern_from : ℕ → ℕ → Bytes
pattern_from i zero = []
pattern_from i (suc n) = i % 255 ∷ pattern_from (suc i) n

-- `new char[BUFSIZE]` filled, with '\n' in its last byte. With BUFSIZE 0 that byte is before the buffer, and
-- a negative size makes new throw.
unfoldable pub out_buffer : ℤ → Result Bytes
unfolding pattern_from
out_buffer (negsuc n) = fault (thrown (codes "std::bad_array_new_length"))
out_buffer (pos zero) = fault overrun
out_buffer (pos (suc n)) = ok (pattern_from 0 n ++ (b'\n' ∷ []))

-- `rounds` rounds of the endless loop of subscribe_out, each with what the threads do before it.
unfoldable pub write_rounds : ℕ → Bytes → List (List (Env × Event)) → World → Result World
unfolding run write_subscription
write_rounds s buf [] w = ok w
write_rounds s buf (before ∷ more) w = do
  w1 ← run before w
  w2 ← write_subscription elsewhere buf s w1
  write_rounds s buf more w2

-- subscribe_out("__throughput").
unfoldable pub subscribe_out : Env → ℤ → List (List (Env × Event)) → World → Result World
unfolding subscribe out_buffer write_rounds
subscribe_out e bufsize rounds w = do
  (s, w1) ← subscribe e (codes "__throughput") w
  buf ← out_buffer bufsize
  write_rounds s buf rounds w1

-- publish_in("__throughput") up to its getchar; its thread only prints.
unfoldable pub publish_in : Env → World → Result World
unfolding publish
publish_in e w = do (c, w1) ← publish e (codes "__throughput") w; ok w1

-- BUFSIZE, which a second argument gives.
unfoldable pub out_size : List Bytes → ℤ
unfolding atoi
out_size (program ∷ word ∷ size ∷ rest) = atoi size
out_size argv = pos 512000

-- main of throughput.cpp.
unfoldable pub throughput_main : Env → List Bytes → List (List (Env × Event)) → World → Result World
unfolding parse_args subscribe_out publish_in out_size equal
throughput_main e [] rounds w = ok w
throughput_main e (program ∷ []) rounds w = ok w
throughput_main e (program ∷ word ∷ rest) rounds w = do
  w1 ← parse_args e (program ∷ word ∷ rest) w
  if equal word (codes "out")
      then subscribe_out e (out_size (program ∷ word ∷ rest)) rounds w1
      else publish_in e w1
