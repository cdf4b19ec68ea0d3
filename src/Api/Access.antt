-- ===== src/Api/Access.antt =====
-- The accessors and the overloads of `write` in src/libpubsub.h.
use libpubsub.Base.{Bytes, Option, [], get_elem?, negsuc, none, pos, some, suc, zero, ℕ, ℤ, ◌∷◌}
use libpubsub.Socket.{c_str}
use libpubsub.World.{World, Result, ok, fault, null_pointer, overrun, update}
use libpubsub.Channel
use libpubsub.Subscription
use libpubsub.Api.{Buffer, write_channel, write_subscription}

-- Channel::write(const char*): the bytes up to the first NUL, which is not sent, and Channel::write(const
-- std::string&), whose bytes behind a NUL are not sent either.
unfoldable pub write_text : Buffer → Bytes → ℕ → World → Result World
unfolding c_str write_channel
write_text s text c w = write_channel s (c_str text) c w

-- The same two of class Subscription.
unfoldable pub write_text_on : Buffer → Bytes → ℕ → World → Result World
unfolding c_str write_subscription
write_text_on s text a w = write_subscription s (c_str text) a w

-- Channel::write() and Subscription::write() of src/libpubsub.cpp.
unfoldable pub write_memory : ℕ → World → Result World
unfolding Channel.write_dma
write_memory c w = Channel.write_dma c w

unfoldable pub write_memory_on : ℕ → World → Result World
unfolding Subscription.write_dma
write_memory_on a w = Subscription.write_dma a w

-- Channel::size.
abbrev pub size : ℕ → World → ℕ
size c w = (w.channel c).size

-- A byte of a memory, by an index that must lie in it.
unfoldable pub byte_at : Bytes → ℤ → Result ℕ
byte_at memory (negsuc i) = fault overrun
byte_at memory (pos i) = elim (get_elem? memory i) [ none ↦ fault overrun | some b ↦ ok b ]

unfoldable pub set_at : ℕ → ℕ → Bytes → Option Bytes
set_at i v [] = none
set_at zero v (b ∷ memory) = some (v ∷ memory)
set_at (suc i) v (b ∷ memory) = elim (set_at i v memory) [
  | none ↦ none
  | some rest ↦ some (b ∷ rest)
]

-- `c[i]`, read.
unfoldable pub peek : ℕ → ℤ → World → Result ℕ
unfolding byte_at
peek c i w = elim (w.channel c).ptr [
  | none ↦ fault null_pointer
  | some g ↦ byte_at (w.segment g).contents i
]

-- A segment with a byte changed.
abbrev with_contents : ℕ → Bytes → World → World
with_contents g memory w = record w {
  segment = update w.segment g (record (w.segment g) { contents = memory });
}

unfoldable pub poke_segment : ℕ → ℤ → ℕ → World → Result World
unfolding set_at
poke_segment g (negsuc i) v w = fault overrun
poke_segment g (pos i) v w = elim (set_at i v (w.segment g).contents) [
  | none ↦ fault overrun
  | some memory ↦ ok (with_contents g memory w)
]

-- `c[i] = v`.
unfoldable pub poke : ℕ → ℤ → ℕ → World → Result World
unfolding poke_segment
poke c i v w = elim (w.channel c).ptr [ none ↦ fault null_pointer | some g ↦ poke_segment g i v w ]
