-- ===== src/Socket/Bounds.antt =====
-- What the receive loop of TCPSocket::run (src/utils/Socket.cpp) hands over of any buffer.
use libpubsub.Base.{
  All, Bytes, List, [], ap, arith, drop, if◌then◌else◌, length, refl, suc, sym, zero, ℕ, ◌++◌, ◌==◌,
  ◌||◌, ◌∙◌, ◌∷◌, ◌≡◌, ◌≤◌,
}
use mathlib.Core.List.{flatten}
use libpubsub.Socket.{to_terminator, deliver, recv_loop, recv_lines}
use libpubsub.Socket.Framing.{Clean, IsMessage, round-lt}

-- The bytes that end no message.
pub strip : Bytes → Bytes
strip [] = []
strip (c ∷ s) = if c == 0 || c == b'\n' then strip s else c ∷ strip s

to_terminator-strip :
    (s : Bytes) → strip s ≡ (to_terminator s).0 ++ strip (drop 1 (to_terminator s).1)
unfolding to_terminator strip
to_terminator-strip [] = refl
to_terminator-strip (c ∷ s) = ground (arith, to_terminator-strip s)

Clean-to_terminator : (s : Bytes) → Clean (to_terminator s).0
unfolding to_terminator
Clean-to_terminator [] = tt
Clean-to_terminator (c ∷ s) = ground (arith, Clean-to_terminator s)

length-strip : (s : Bytes) → length (strip s) ≤ length s
unfolding strip
length-strip [] = omega arith
length-strip (c ∷ s) = ground (arith, length-strip s)

flatten-deliver : (m : Bytes) (ms : List Bytes) → flatten (deliver m ms) ≡ m ++ flatten ms
unfolding flatten
flatten-deliver [] ms = refl
flatten-deliver (c ∷ m) ms = refl

deliver-All :
    (m : Bytes) (ms : List Bytes) → Clean m → All IsMessage ms → All IsMessage (deliver m ms)
deliver-All [] ms h hs = hs
deliver-All (c ∷ m) ms h hs = ((λ e. cc, h), hs)

recv_loop-strip : (f : ℕ) (s : Bytes) → length s ≤ f → flatten (recv_loop f s) ≡ strip s
unfolding recv_loop strip flatten
recv_loop-strip zero [] h = refl
recv_loop-strip zero (c ∷ s) h = absurd (omega arith)
recv_loop-strip (suc f) [] h = refl
recv_loop-strip (suc f) (c ∷ s) h =
    let (seg, rest) = to_terminator (c ∷ s) in
    flatten-deliver seg (recv_loop f (drop 1 rest))
    ∙ ap (λ t. seg ++ t) (recv_loop-strip f (drop 1 rest) (omega (arith, round-lt c s)))
    ∙ sym (to_terminator-strip (c ∷ s))

recv_loop-All : (f : ℕ) (s : Bytes) → All IsMessage (recv_loop f s)
unfolding recv_loop
recv_loop-All zero s = tt
recv_loop-All (suc f) [] = tt
recv_loop-All (suc f) (c ∷ s) =
    deliver-All (to_terminator (c ∷ s)).0 _ (Clean-to_terminator (c ∷ s)) (recv_loop-All f _)

-- Of any buffer, the receive loop hands over messages that are not empty and hold neither NUL nor
-- newline. Put together they are the buffer's bytes without its NULs and newlines, in their order, so
-- that they are no longer than the buffer.
pub recv_lines-strip :
    (buf : Bytes)
    → All IsMessage (recv_lines buf)
      × (flatten (recv_lines buf) ≡ strip buf)
      × (length (flatten (recv_lines buf)) ≤ length buf)
unfolding recv_lines
recv_lines-strip buf =
    let whole = recv_loop-strip (length buf) buf (omega arith) in
    (recv_loop-All (length buf) buf, whole, rw whole (length-strip buf))
