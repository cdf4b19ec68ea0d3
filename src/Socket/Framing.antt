-- ===== src/Socket/Framing.antt =====
-- The messages that the receive loop of TCPSocket::run makes out of what TCPSocket::write sent.
use libpubsub.Base.{
  All, Bytes, List, [], ap, append_assoc, arith, drop, inl, inr, length, length-drop, map, refl,
  suc, zero, ℕ, ◌++◌, ◌∙◌, ◌∷◌, ◌≡◌, ◌≢◌, ◌≤◌, ◌⊎◌,
}
use mathlib.Core.List.{flatten}
use libpubsub.Socket.{c_str, frame, to_terminator, deliver, recv_loop, recv_lines, recv_all}

-- A byte that ends a message.
abbrev pub IsTerminator : ℕ → Type 0
IsTerminator c = (c ≡ 0) ⊎ (c ≡ b'\n')

-- A text with no terminator.
abbrev pub Clean : Bytes → Type 0
Clean [] = Unit {0}
Clean (c ∷ s) = (c ≢ 0) × (c ≢ b'\n') × Clean s

to_terminator-Clean :
    (m : Bytes) (t : ℕ) (rest : Bytes)
    → Clean m
    → IsTerminator t
    → to_terminator (m ++ (t ∷ rest)) ≡ (m, t ∷ rest)
unfolding to_terminator
to_terminator-Clean [] t rest h k = ground arith
to_terminator-Clean (c ∷ m) t rest h k = ground (arith, to_terminator-Clean m t rest h.2 k)

to_terminator-end : (m : Bytes) → Clean m → to_terminator m ≡ (m, [])
unfolding to_terminator
to_terminator-end [] h = refl
to_terminator-end (c ∷ m) h = ground (arith, to_terminator-end m h.2)

pub length-to_terminator : (s : Bytes) → length (to_terminator s).1 ≤ length s
unfolding to_terminator
length-to_terminator [] = omega arith
length-to_terminator (c ∷ s) = ground (arith, length-to_terminator s)

recv_loop_cons :
    (f c : ℕ) (s : Bytes)
    → recv_loop (suc f) (c ∷ s)
      ≡ deliver (to_terminator (c ∷ s)).0 (recv_loop f (drop 1 (to_terminator (c ∷ s)).1))
unfolding recv_loop
recv_loop_cons f c s = refl

-- What is left after one round is shorter.
pub round-lt : (c : ℕ) (s : Bytes) → length (drop 1 (to_terminator (c ∷ s)).1) ≤ length s
round-lt c s = omega (arith, length-to_terminator (c ∷ s), length-drop 1 (to_terminator (c ∷ s)).1)

-- More fuel than bytes changes nothing.
recv_loop-fuel : (f g : ℕ) (s : Bytes) → length s ≤ f → length s ≤ g → recv_loop f s ≡ recv_loop g s
unfolding recv_loop
recv_loop-fuel zero zero s h k = refl
recv_loop-fuel zero (suc g) [] h k = refl
recv_loop-fuel (suc f) zero [] h k = refl
recv_loop-fuel (suc f) (suc g) [] h k = refl
recv_loop-fuel zero (suc g) (c ∷ s) h k = absurd (omega arith)
recv_loop-fuel (suc f) zero (c ∷ s) h k = absurd (omega arith)
recv_loop-fuel (suc f) (suc g) (c ∷ s) h k =
    let next = drop 1 (to_terminator (c ∷ s)).1 in
    ap (deliver (to_terminator (c ∷ s)).0)
      (recv_loop-fuel f g next (omega (arith, round-lt c s)) (omega (arith, round-lt c s)))

recv_lines_cons :
    (c : ℕ) (s : Bytes)
    → recv_lines (c ∷ s)
      ≡ deliver (to_terminator (c ∷ s)).0 (recv_lines (drop 1 (to_terminator (c ∷ s)).1))
unfolding recv_lines
recv_lines_cons c s =
    recv_loop_cons (length s) c s
    ∙ ap (deliver (to_terminator (c ∷ s)).0) (
        recv_loop-fuel (length s) (length (drop 1 (to_terminator (c ∷ s)).1)) _ (round-lt c s)
          (omega arith))

-- One terminated message at the head of a buffer is handed over whole, and the rest is read on.
pub recv_lines-Clean :
    (m : Bytes) (t : ℕ) (rest : Bytes)
    → Clean m
    → IsTerminator t
    → recv_lines (m ++ (t ∷ rest)) ≡ deliver m (recv_lines rest)
recv_lines-Clean [] t rest h k = recv_lines_cons t rest ∙ rw (to_terminator-Clean [] t rest tt k)
recv_lines-Clean (c ∷ m) t rest h k =
    recv_lines_cons c (m ++ (t ∷ rest)) ∙ rw (to_terminator-Clean (c ∷ m) t rest h k)

-- A clean buffer with no terminator is handed over as it is.
pub recv_lines-unterminated :
    (c : ℕ) (m : Bytes) → Clean (c ∷ m) → recv_lines (c ∷ m) ≡ (c ∷ m) ∷ []
unfolding recv_lines recv_loop
recv_lines-unterminated c m h = recv_lines_cons c m ∙ rw (to_terminator-end (c ∷ m) h)

pub c_str-Clean : (m : Bytes) → Clean m → c_str m ≡ m
unfolding c_str
c_str-Clean [] h = refl
c_str-Clean (c ∷ m) h = ground (arith, c_str-Clean m h.2)

pub frame-Clean : (m : Bytes) → Clean m → frame m ≡ m ++ (0 ∷ [])
unfolding frame
frame-Clean m h = rw (c_str-Clean m h)

-- A message that the protocol can carry in one piece: not empty, and with no terminator inside.
abbrev pub IsMessage : Bytes → Type 0
IsMessage m = (m ≢ []) × Clean m

deliver-IsMessage : (m : Bytes) (rest : List Bytes) → m ≢ [] → deliver m rest ≡ m ∷ rest
deliver-IsMessage [] rest h = absurd (h refl)
deliver-IsMessage (c ∷ m) rest h = refl

-- The wire image of a list of messages.
abbrev pub wire : List Bytes → Bytes
wire [] = []
wire (m ∷ ms) = frame m ++ wire ms

-- Messages that arrive in one buffer are received one by one, each whole, in the order of sending.
pub recv_lines-wire : (ms : List Bytes) → All IsMessage ms → recv_lines (wire ms) ≡ ms
recv_lines-wire [] h = unfold recv_lines recv_loop in refl
recv_lines-wire (m ∷ ms) (h, hs) =
    rw (frame-Clean m h.1, append_assoc)
      (recv_lines-Clean m 0 (wire ms) h.1 (inl refl)
        ∙ ap (deliver m) (recv_lines-wire ms hs)
        ∙ deliver-IsMessage m ms h.0)

-- Messages that are not empty and hold neither NUL nor newline, written one after the other and
-- received in buffers that each hold whole messages, are handed over one by one, each whole, in
-- the order of writing.
pub recv_all-wire :
    (batches : List (List Bytes))
    → All (All IsMessage) batches
    → recv_all (map wire batches) ≡ flatten batches
unfolding recv_all flatten
recv_all-wire [] h = refl
recv_all-wire (b ∷ bs) (h, hs) = rw (recv_lines-wire b h, recv_all-wire bs hs)

Clean-append : (a b : Bytes) → Clean a → Clean b → Clean (a ++ b)
Clean-append [] b h k = k
Clean-append (c ∷ a) b h k = (h.0, h.1, Clean-append a b h.2 k)

-- Where a buffer ends inside a message, so that both pieces are not empty and hold no terminator,
-- the pieces are handed over as two messages: the bytes that arrive are those of one frame, and
-- the message `a ++ b` that was sent is not received.
pub recv_all-torn :
    (a b : Bytes)
    → IsMessage a
    → IsMessage b
    → (frame (a ++ b) ≡ a ++ (b ++ (0 ∷ []))) × (recv_all (a ∷ (b ++ (0 ∷ [])) ∷ []) ≡ a ∷ b ∷ [])
unfolding recv_all
recv_all-torn [] b h k = absurd (h.0 refl)
recv_all-torn (c ∷ a) b h k = (
  frame-Clean ((c ∷ a) ++ b) (Clean-append (c ∷ a) b h.1 k.1) ∙ rw append_assoc,
  rw (recv_lines-unterminated c a h.1, recv_lines-Clean b 0 [] k.1 (inl refl))
      (unfold recv_lines recv_loop in rw (deliver-IsMessage b [] k.0)),
)

-- A text of several lines, as broadcast_hosts builds it.
abbrev pub text_lines : List Bytes → Bytes
text_lines [] = []
text_lines (l ∷ ls) = l ++ (b'\n' ∷ text_lines ls)

c_str-line : (l rest : Bytes) → Clean l → c_str (l ++ (b'\n' ∷ rest)) ≡ l ++ (b'\n' ∷ c_str rest)
unfolding c_str
c_str-line [] rest h = ground arith
c_str-line (c ∷ l) rest h = ground (arith, c_str-line l rest h.2)

c_str-text_lines : (ls : List Bytes) → All IsMessage ls → c_str (text_lines ls) ≡ text_lines ls
c_str-text_lines [] h = unfold c_str in refl
c_str-text_lines (l ∷ ls) (h, hs) = c_str-line l (text_lines ls) h.1 ∙ rw (c_str-text_lines ls hs)

recv_lines-nul : (ls : List Bytes) → All IsMessage ls → recv_lines (text_lines ls ++ (0 ∷ [])) ≡ ls
recv_lines-nul [] h = unfold recv_lines recv_loop to_terminator in refl
recv_lines-nul (l ∷ ls) (h, hs) = rw append_assoc (
    recv_lines-Clean l b'\n' (text_lines ls ++ (0 ∷ [])) h.1 (inr refl)
    ∙ ap (deliver l) (recv_lines-nul ls hs)
    ∙ deliver-IsMessage l ls h.0)

-- A text of several lines, none of them empty or with a NUL or newline inside, that is sent as one
-- message is received line by line.
pub recv_lines-text_lines :
    (ls : List Bytes) → All IsMessage ls → recv_lines (frame (text_lines ls)) ≡ ls
unfolding frame
recv_lines-text_lines ls h = rw (c_str-text_lines ls h) (recv_lines-nul ls h)
