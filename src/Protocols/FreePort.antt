-- ===== src/Protocols/FreePort.antt =====
-- get_free_port of src/protocols/tcp.h: processes of a machine agree on the port of a channel by files.
use libpubsub.Base.{
  Bool, Bool-cases, Bytes, Option, Option-cases, [], ap, arith, dec_lt, equal, equal_refl, false,
  if◌then◌else◌, inl, inr, length, none, refl, some, suc, true, zero, ℕ, ◌+◌, ◌<◌, ◌==◌, ◌∙◌, ◌∷◌,
  ◌≡◌, ◌≤◌,
}
use libpubsub.Socket.{c_str}
use libpubsub.Socket.Framing.{Clean, c_str-Clean}
use libpubsub.Socket.Ports.{port_loop, port_loop-some, port_loop-none, port_loop-first}
use libpubsub.World.{update}

-- The bytes that fgets reads of a file: at most `n`, and no further than a newline.
unfoldable pub line : ℕ → Bytes → Bytes
line zero text = []
line (suc n) [] = []
line (suc n) (c ∷ text) = let rest = line n text in if c == b'\n' then c ∷ [] else c ∷ rest

-- The buffer `_channel` of 512 bytes behind fgets, which leaves it as it is where the file is empty.
unfoldable pub fgets : Bytes → Bytes → Bytes
unfolding line
fgets [] buffer = buffer
fgets (c ∷ text) buffer = line 511 (c ∷ text)

-- `files` holds the text of the file of each port; `none` is a port with no file. The loop runs over the
-- ports on fuel.
unfoldable pub port_from : ℕ → (ℕ → Option Bytes) → Bytes → ℕ → Bytes → Option ℕ
unfolding fgets equal c_str
port_from zero files buffer i channel = none
port_from (suc n) files buffer i channel = elim (files i) [
  | none ↦ some i
  | some text ↦
      let read = fgets text buffer in
      let rest = port_from n files read (i + 1) channel in
      if equal (c_str read) channel then some i else rest
]

-- `buffer` is what `_channel` holds at first. The file of the port that the loop stops at is written.
unfoldable pub get_free_port :
    ℕ → (ℕ → Option Bytes) → Bytes → ℕ → Bytes → Option (ℕ × (ℕ → Option Bytes))
unfolding port_from
get_free_port fuel files buffer first channel = elim (port_from fuel files buffer first channel) [
  | none ↦ none
  | some port ↦ some (port, update files port (some channel))
]

-- A port with no file, or whose file begins with a line that is the channel's name.
pub is_free : (ℕ → Option Bytes) → Bytes → ℕ → Bool
unfolding equal c_str line
is_free files channel port = elim (files port) [
  | none ↦ true
  | some text ↦ equal (c_str (line 511 text)) channel
]

-- A name that a file holds as it is: not empty, without a NUL or a newline, of at most 511 bytes.
pub record IsName (channel : Bytes) : Type 0 where
  pub named : equal [] channel ≡ false
  pub clean : Clean channel
  pub short : length channel ≤ 511

line-Clean : (n : ℕ) (text : Bytes) → Clean text → length text ≤ n → line n text ≡ text
unfolding line
line-Clean zero [] h l = refl
line-Clean zero (c ∷ text) h l = absurd (omega arith)
line-Clean (suc n) [] h l = refl
line-Clean (suc n) (c ∷ text) h l =
    let other : (c == b'\n') ≡ false = ground (arith, h.1) in
    rw other (ap (λ x. c ∷ x) (line-Clean n text h.2 (omega (arith, l))))

free_none :
    (files : ℕ → Option Bytes) (channel : Bytes) (q : ℕ)
    → files q ≡ none
    → is_free files channel q ≡ true
unfolding is_free
free_none files channel q e = rw (e, is_free)

free_text :
    (files : ℕ → Option Bytes) (channel text : Bytes) (q : ℕ)
    → files q ≡ some text
    → is_free files channel q ≡ equal (c_str (line 511 text)) channel
unfolding is_free
free_text files channel text q e = rw (e, is_free)

free_own :
    (files : ℕ → Option Bytes) (channel : Bytes) (p : ℕ)
    → IsName channel
    → is_free (update files p (some channel)) channel p ≡ true
free_own files channel p name =
    free_text (update files p (some channel)) channel channel p (ground arith)
    ∙ rw (line-Clean 511 channel name.clean name.short, c_str-Clean channel name.clean)
        (equal_refl channel)

free_cong :
    (files files' : ℕ → Option Bytes) (channel : Bytes) (q : ℕ)
    → files' q ≡ files q
    → is_free files' channel q ≡ is_free files channel q
unfolding is_free
free_cong files files' channel q e = rw (e, is_free)

free_other :
    (files : ℕ → Option Bytes) (channel : Bytes) (p q : ℕ)
    → q < p
    → is_free files channel q ≡ false
    → is_free (update files p (some channel)) channel q ≡ false
free_other files channel p q l e =
    free_cong files (update files p (some channel)) channel q (ground arith) ∙ e

-- While no line that was read is the name, an empty file is passed over.
port_from-loop :
    (fuel : ℕ) (files : ℕ → Option Bytes) (buffer : Bytes) (i : ℕ) (channel : Bytes)
    → equal [] channel ≡ false
    → equal (c_str buffer) channel ≡ false
    → port_from fuel files buffer i channel ≡ port_loop (is_free files channel) fuel i
unfolding port_from port_loop
port_from-loop zero files buffer i channel named stale = refl
port_from-loop (suc n) files buffer i channel named stale =
    go (files i) refl (λ b. port_from-loop n files b (i + 1) channel named)
  where
    Agrees : Option Bytes → Type 0
    Agrees o =
        elim o [
          | none ↦ some i
          | some text ↦
              let rest = port_from n files (fgets text buffer) (i + 1) channel in
              if equal (c_str (fgets text buffer)) channel then some i else rest
        ]
        ≡ (if is_free files channel i then some i else port_loop (is_free files channel) n (i + 1))

    go :
        (o : Option Bytes)
        → files i ≡ o
        → ((b : Bytes)
            → equal (c_str b) channel ≡ false
            → port_from n files b (i + 1) channel ≡ port_loop (is_free files channel) n (i + 1))
        → Agrees o
    go none e ih = rw (free_none files channel i e) refl
    go (some []) e ih =
        unfold fgets in
        let taken : is_free files channel i ≡ false =
          free_text files channel [] i e ∙ (unfold line c_str in named) in
        rw (taken, stale) (ih buffer stale)
    go (some (c ∷ text)) e ih =
        unfold fgets in
        rw (free_text files channel (c ∷ text) i e)
          (elim (Bool-cases (equal (c_str (line 511 (c ∷ text))) channel)) [
            | inl hit ↦ rw hit refl
            | inr miss ↦ rw miss (ih (line 511 (c ∷ text)) miss)
          ])

get_free_port-found :
    (fuel first p : ℕ) (files : ℕ → Option Bytes) (buffer channel : Bytes)
    → equal [] channel ≡ false
    → equal (c_str buffer) channel ≡ false
    → port_loop (is_free files channel) fuel first ≡ some p
    → get_free_port fuel files buffer first channel ≡ some (p, update files p (some channel))
unfolding get_free_port
get_free_port-found fuel first p files buffer channel named stale e =
    rw (port_from-loop fuel files buffer first channel named stale ∙ e, get_free_port)

-- For a name that is not empty, holds no NUL and no newline and has at most 511 bytes, where `_channel` does
-- not hold the name before the call: where some port `q` from the first on has no file, as many rounds as
-- there are ports up to `q` are enough. The port is then the lowest that has no file or whose file begins
-- with a line that is the name, it is not above `q`, and a next call for the name answers the same port.
pub get_free_port-lowest :
    (fuel first q : ℕ) (files : ℕ → Option Bytes) (buffer buffer' channel : Bytes)
    → IsName channel
    → equal (c_str buffer) channel ≡ false
    → equal (c_str buffer') channel ≡ false
    → first ≤ q
    → q < first + fuel
    → files q ≡ none
    → (p : ℕ) × (get_free_port fuel files buffer first channel
        ≡ some (p, update files p (some channel)))
      × (p ≤ q)
      × (is_free files channel p ≡ true)
      × ((r : ℕ) → first ≤ r → r < p → is_free files channel r ≡ false)
      × (get_free_port fuel (update files p (some channel)) buffer' first channel
          ≡ some (p, update (update files p (some channel)) p (some channel)))
get_free_port-lowest fuel first q files buffer buffer' channel name stale stale' lo hi e =
    elim (Option-cases (port_loop (is_free files channel) fuel first)) [
      | inl none_found ↦
          let taken = port_loop-none (is_free files channel) fuel first q none_found lo hi in
          let free = free_none files channel q e in absurd (ground arith)
      | inr (p, found) ↦
          let (free, from, below, before) =
            port_loop-some (is_free files channel) fuel first p found in
          let after = update files p (some channel) in
          (
            p,
            get_free_port-found fuel first p files buffer channel name.named stale found,
            least p before,
            free,
            before,
            get_free_port-found fuel first p after buffer' channel name.named stale' (
                port_loop-first (is_free after channel) fuel first p from below
                  (free_own files channel p name)
                  (λ r l h. free_other files channel p r h (before r l h))),
          )
    ]
  where
    least : (p : ℕ) → ((r : ℕ) → first ≤ r → r < p → is_free files channel r ≡ false) → p ≤ q
    least p before = elim (dec_lt q p) [
      | yes above ↦
          let taken = before q lo above in
          let free = free_none files channel q e in absurd (ground arith)
      | no here ↦ omega arith
    ]
