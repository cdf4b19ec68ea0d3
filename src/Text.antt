-- ===== src/Text.antt =====
-- src/utils/utils.cpp and utils.h: the string helpers on which the signaling protocol is written.
-- A std::string is the list of its bytes.
pub mod Split
pub mod Replace
pub mod Decimal
use mathlib.Core.Option
use libpubsub.Base.{
  Bool, Bytes, Option, [], codes, drop, equal, false, if◌then◌else◌, leb, length, ltb, map, none,
  some, suc, take, true, zero, ℕ, ◌&&◌, ◌++◌, ◌+◌, ◌-◌, ◌/◌, ◌∷◌,
}

-- s.compare(0, prefix.length(), prefix) == 0.
unfoldable pub str_starts_with : Bytes → Bytes → Bool
unfolding equal
str_starts_with s prefix = equal (take (length prefix) s) prefix

unfoldable pub str_ends_with : Bytes → Bytes → Bool
unfolding equal
str_ends_with s suffix =
    if ltb (length s) (length suffix)
    then false
    else equal (take (length suffix) (drop (length s - length suffix) s)) suffix

-- std::string::find: where the needle first occurs.
unfoldable pub find : Bytes → Bytes → Option ℕ
unfolding str_starts_with
find needle [] = if str_starts_with [] needle then some 0 else none
find needle (c ∷ s) =
    if str_starts_with (c ∷ s) needle then some 0 else Option.map suc (find needle s)

-- std::string::find with a start position.
unfoldable pub find_from : Bytes → Bytes → ℕ → Option ℕ
unfolding find
find_from needle s start =
    if leb start (length s) then Option.map (λ i. start + i) (find needle (drop start s)) else none

unfoldable pub str_after : Bytes → Bytes → Bytes
unfolding find
str_after s prefix = elim (find prefix s) [ none ↦ s | some i ↦ drop (i + length prefix) s ]

unfoldable pub str_before : Bytes → Bytes → Bytes
unfolding find
str_before s suffix = elim (find suffix s) [ none ↦ s | some i ↦ take i s ]

unfoldable pub str_between : Bytes → Bytes → Bytes → Bytes
unfolding str_before str_after
str_between s prefix suffix = str_before (str_after s prefix) suffix

unfoldable pub str_has : Bytes → Bytes → Bool
unfolding find
str_has s needle = elim (find needle s) [ none ↦ false | some i ↦ true ]

-- ::tolower in the "C" locale.
pub tolower : ℕ → ℕ
tolower c = if leb b'A' c && leb c b'Z' then c + 32 else c

unfoldable pub str_to_lower : Bytes → Bytes
unfolding tolower
str_to_lower s = map tolower s

-- The loop of str_replace from position `start`, on fuel; `none` is a loop that has not ended.
pub replace_loop : ℕ → Bytes → Bytes → Bytes → ℕ → Option Bytes
unfolding find_from
replace_loop zero subject search replacement start = none
replace_loop (suc fuel) subject search replacement start = elim (find_from search subject start) [
  | none ↦ some subject
  | some i ↦
      replace_loop fuel (take i subject ++ (replacement ++ drop (i + length search) subject)) search
        replacement (i + length replacement)
]

-- Each round consumes a part of the subject, so its length bounds the rounds.
unfoldable pub str_replace : Bytes → Bytes → Bytes → Option Bytes
unfolding replace_loop
str_replace subject search replacement =
    replace_loop (suc (length subject)) subject search replacement 0

-- ENC of channel.h: a path as a single file name.
unfoldable pub enc : Bytes → Option Bytes
unfolding str_replace
enc s = str_replace s (codes "/") (codes "@@@")
