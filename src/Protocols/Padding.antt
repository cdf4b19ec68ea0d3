-- ===== src/Protocols/Padding.antt =====
-- What the reading thread of a pipe (src/protocols/pipe.cpp) hands over.
use libpubsub.Base.{
  All, Bytes, List, [], ap, arith, drop, length, length-append, length-drop, refl, suc, ℕ, ◌++◌,
  ◌∙◌, ◌∷◌, ◌≡◌, ◌≤◌,
}
use libpubsub.Protocols.Pipe.{filled, read_loop}

-- The buffer behind some reads: the last message handed over, or what was there at the start.
pub last_of : Bytes → List Bytes → Bytes
last_of buf [] = buf
last_of buf (m ∷ ms) = last_of m ms

length-filled : (got buf : Bytes) → length got ≤ length buf → length (filled got buf) ≡ length buf
length-filled got buf h =
    omega (arith, length-append got (drop (length got) buf), length-drop (length got) buf)

read_loop-length :
    (n : ℕ) (buf : Bytes) (reads : List Bytes)
    → length buf ≡ n
    → All (λ got. length got ≤ n) reads
    → All (λ m. length m ≡ n) (read_loop buf reads)
unfolding read_loop
read_loop-length n buf [] e h = tt
read_loop-length n buf (got ∷ more) e (l, h) =
    let full : length (filled got buf) ≡ n = length-filled got buf (omega (arith, e)) ∙ e in
    (full, read_loop-length n (filled got buf) more full h)

read_loop-end :
    (buf : Bytes) (reads : List Bytes)
    → read_loop buf (reads ++ ([] ∷ []))
      ≡ read_loop buf reads ++ (last_of buf (read_loop buf reads) ∷ [])
unfolding read_loop last_of
read_loop-end buf [] = refl
read_loop-end buf (got ∷ more) =
    ap (λ ms. filled got buf ∷ ms) (read_loop-end (filled got buf) more)

length-read_loop : (buf : Bytes) (reads : List Bytes) → length (read_loop buf reads) ≡ length reads
unfolding read_loop
length-read_loop buf [] = refl
length-read_loop buf (got ∷ more) = ap suc (length-read_loop (filled got buf) more)

-- Where each read fits the buffer of a pipe, its thread hands over one message for each read, and every
-- message has the length of the buffer, however few bytes were read. At the end of the file, where
-- nothing is read, it hands over the last message again.
pub read_loop-padded :
    (buf : Bytes) (reads : List Bytes)
    → All (λ got. length got ≤ length buf) reads
    → All (λ m. length m ≡ length buf) (read_loop buf reads)
      × (length (read_loop buf reads) ≡ length reads)
      × (read_loop buf (reads ++ ([] ∷ []))
          ≡ read_loop buf reads ++ (last_of buf (read_loop buf reads) ∷ []))
read_loop-padded buf reads h = (
  read_loop-length (length buf) buf reads refl h,
  length-read_loop buf reads,
  read_loop-end buf reads,
)
