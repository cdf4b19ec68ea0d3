-- ===== src/Tests/Words.antt =====
-- Tests of the text helpers, of the receive loop and of the choice of a port.
use mathlib.Core.List.{flatten}
use libpubsub.Protocols.{Description, EndPoint, parse, to_string}
use libpubsub.Protocols.RoundTrip.{IsPlain, parse-to_string}
use libpubsub.World.{update}
use libpubsub.Socket.{c_str}
use libpubsub.Protocols.FreePort.{IsName, get_free_port, is_free, get_free_port-lowest}
use libpubsub.Base.{
  All, Bool, Bytes, List, Option, [], arith, codes, equal, false, if◌then◌else◌, length, ltb, map,
  none, pos, refl, some, suc, true, ℕ, ◌++◌, ◌-◌, ◌<◌, ◌==◌, ◌∷◌, ◌≡◌, ◌≤◌, ◌⊎◌,
}
use libpubsub.Text.{str_replace, str_to_lower}
use libpubsub.Text.Replace.{replaced, str_replace-replaced}
use libpubsub.Socket.{frame, recv_lines, recv_all}
use libpubsub.Socket.Bounds.{strip, recv_lines-strip}
use mathlib.Core.List.{flatten}
use libpubsub.Socket.Framing.{wire, recv_all-wire, recv_all-torn, IsMessage}
use libpubsub.Server.Binding.{new_server, new_server-find_port}
use libpubsub.Socket.Ports.{find_port}

-- The replacement holds the text that is searched for.
str_replace_example :
    str_replace (codes "a/b//") (codes "/") (codes "//")
    ≡ some (replaced (codes "/") (codes "//") (codes "a/b//"))
str_replace_example = str_replace-replaced b'/' [] (codes "//") (codes "a/b//")

abbrev lines : List Bytes
lines = codes "ID=7|PORT=12212" ∷ codes "CONNECTED" ∷ []

lines-IsMessage : All IsMessage lines
lines-IsMessage = (((λ e. cc), ground arith), (((λ e. cc), ground arith), tt))

recv_all_example : recv_all (map wire (lines ∷ lines ∷ [])) ≡ flatten (lines ∷ lines ∷ [])
recv_all_example = recv_all-wire (lines ∷ lines ∷ []) (lines-IsMessage, (lines-IsMessage, tt))

torn_example :
    (frame (codes "PUBLISH=Pnews" ++ codes "|a:1")
      ≡ codes "PUBLISH=Pnews" ++ (codes "|a:1" ++ (0 ∷ [])))
    × (recv_all (codes "PUBLISH=Pnews" ∷ (codes "|a:1" ++ (0 ∷ [])) ∷ [])
        ≡ codes "PUBLISH=Pnews" ∷ codes "|a:1" ∷ [])
torn_example =
    recv_all-torn (codes "PUBLISH=Pnews") (codes "|a:1") ((λ e. cc), ground arith)
      ((λ e. cc), ground arith)

abbrev torn_buffer : Bytes
torn_buffer = codes "me" ++ (0 ∷ (b'\n' ∷ codes "you"))

recv_lines-strip_example :
    All IsMessage (recv_lines torn_buffer)
    × (flatten (recv_lines torn_buffer) ≡ strip torn_buffer)
    × (length (flatten (recv_lines torn_buffer)) ≤ 7)
recv_lines-strip_example = recv_lines-strip torn_buffer

abbrev above_14 : ℕ → Bool
above_14 p = ltb 14 p

first_free : find_port above_14 12 20 ≡ some 15
unfolding find_port
first_free = refl

none_free : find_port above_14 12 14 ≡ none
unfolding find_port
none_free = refl

-- The ports 12, 13 and 14 are taken, and two descriptors are left.
new_server-find_port_example :
    ((p : ℕ) × (find_port above_14 12 20 ≡ some p)
      × (new_server above_14 12 20 2
          ≡ (if ltb (p - 12) 2 then (some p, 2 - suc (p - 12)) else (none, 0))))
    ⊎ ((find_port above_14 12 20 ≡ none) × (new_server above_14 12 20 2 ≡ (none, 2 - 9)))
new_server-find_port_example = new_server-find_port above_14 12 20 2

two_descriptors : new_server above_14 12 20 2 ≡ (none, 0)
unfolding new_server
two_descriptors = refl

-- tcp://10.0.0.1:8080/output
abbrev described : Description
described = record {
  valid = true;
  protocol = codes "tcp";
  local = false;
  ip = codes "10.0.0.1";
  port = pos 8080;
  channel = codes "news";
  type = EndPoint.output;
}

described-IsPlain : IsPlain described
unfolding str_to_lower equal
described-IsPlain = record {
  is_valid = refl;
  lower = refl;
  no_colon = ground arith;
  local_shm = refl;
  named = λ e. cc;
  ip_colon = ground arith;
  ip_slash = ground arith;
  int_port = omega arith;
  some_port = refl;
  directed = λ e. cc;
}

parse_example : parse (codes "news") (to_string described) ≡ described
parse_example = parse-to_string described described-IsPlain

-- Another channel has the first port.
abbrev taken_first : ℕ → Option Bytes
taken_first p = if p == 10001 then some (codes "sport") else none

news-IsName : IsName (codes "news")
unfolding equal
news-IsName = record { named = refl; clean = ground arith; short = omega arith }

-- What the buffer holds before the two calls is not the name.
misses : equal (c_str []) (codes "news") ≡ false
unfolding equal c_str
misses = refl

misses_other : equal (c_str (codes "sport")) (codes "news") ≡ false
unfolding equal c_str
misses_other = refl

get_free_port_example :
    (p : ℕ) × (get_free_port 5 taken_first [] 10001 (codes "news")
      ≡ some (p, update taken_first p (some (codes "news"))))
    × (p ≤ 10002)
    × (is_free taken_first (codes "news") p ≡ true)
    × ((r : ℕ) → 10001 ≤ r → r < p → is_free taken_first (codes "news") r ≡ false)
    × (get_free_port 5
          (update taken_first p (some (codes "news")))
          (codes "sport")
          10001
          (codes "news")
        ≡ some (p, update (update taken_first p (some (codes "news"))) p (some (codes "news"))))
get_free_port_example =
    get_free_port-lowest 5 10001 10002 taken_first [] (codes "sport") (codes "news") news-IsName
      misses misses_other (omega arith) (omega arith) refl
