-- ===== src/Text/Replace.antt =====
-- str_replace of src/utils/utils.cpp against a scan of the text from left to right: it ends for
-- every search text that is not empty, and it replaces the leftmost occurrences that do not overlap.
use mathlib.Core.Option
use native.Mathlib.Nat.{zero-add, suc-add, add_assoc}
use libpubsub.Text.{str_starts_with, find, find_from, replace_loop, str_replace}
use libpubsub.Text.Split.{str_starts_with-split, find_split, find_cons, find_nil}
use libpubsub.Base.{
  Bytes, Option-cases, [], ap, append_assoc, arith, drop, drop-append, false, inl, inr, length,
  length-append, length-drop, length-take, none, refl, some, suc, take, true, zero, ℕ, ◌++◌, ◌+◌,
  ◌-◌, ◌<◌, ◌∷◌, ◌≡◌,
}

-- The text with each occurrence replaced; `skip` bytes of the last occurrence are still to pass.
pub scan : Bytes → Bytes → ℕ → Bytes → Bytes
scan search replacement skip [] = []
scan search replacement (suc skip) (c ∷ s) = scan search replacement skip s
scan search replacement zero (c ∷ s) = elim (str_starts_with (c ∷ s) search) [
  | true ↦ replacement ++ scan search replacement (length search - 1) s
  | false ↦ c ∷ scan search replacement zero s
]

pub replaced : Bytes → Bytes → Bytes → Bytes
replaced search replacement = scan search replacement zero

take_past :
    (done rest : Bytes) (i : ℕ) → take (length done + i) (done ++ rest) ≡ done ++ take i rest
take_past [] rest i = rw zero-add
take_past (c ∷ done) rest i = rw suc-add (ap (◌∷◌ c) (take_past done rest i))

drop_past : (done rest : Bytes) (i : ℕ) → drop (length done + i) (done ++ rest) ≡ drop i rest
drop_past [] rest i = rw zero-add
drop_past (c ∷ done) rest i = rw suc-add (drop_past done rest i)

-- A search from the end of a prefix is a search in the rest.
find_from-append :
    (x done rest : Bytes)
    → find_from x (done ++ rest) (length done) ≡ Option.map (λ i. length done + i) (find x rest)
unfolding find_from
find_from-append x done rest = ground (arith, length-append done rest, drop-append done rest)

-- An occurrence lies within the text.
find-length :
    (x s : Bytes) (i : ℕ)
    → 0 < length x
    → find x s ≡ some i
    → (length (take i s) ≡ i) × (i + length x + length (drop (i + length x) s) ≡ length s)
find-length x s i p e =
    let total = ap length (find_split x s i e) in
    let parts = length-append (take i s) (x ++ drop (i + length x) s) in
    let rest = length-append x (drop (i + length x) s) in
    (
      omega (arith, total, parts, rest, length-take i s, length-drop (i + length x) s),
      omega (arith, total, parts, rest, length-take i s, length-drop (i + length x) s),
    )

module _ (x : ℕ) (xs r : Bytes) where
  scan-drop : (k : ℕ) (s : Bytes) → scan (x ∷ xs) r k s ≡ replaced (x ∷ xs) r (drop k s)
  unfolding scan replaced
  scan-drop zero s = refl
  scan-drop (suc k) [] = refl
  scan-drop (suc k) (c ∷ s) = scan-drop k s

  replaced-none : (s : Bytes) → find (x ∷ xs) s ≡ none → replaced (x ∷ xs) r s ≡ s
  unfolding find replaced scan
  replaced-none [] h = refl
  replaced-none (c ∷ s) h = ground (arith, replaced-none s)

  replaced-some :
      (s : Bytes) (i : ℕ)
      → find (x ∷ xs) s ≡ some i
      → replaced (x ∷ xs) r s
        ≡ take i s ++ (r ++ replaced (x ∷ xs) r (drop (i + length (x ∷ xs)) s))
  unfolding replaced scan
  replaced-some [] i h =
      let (e, z) = find_nil (x ∷ xs) i h in cc (str_starts_with-split [] (x ∷ xs) e)
  replaced-some (c ∷ s) i h = elim (find_cons (x ∷ xs) s c i h) [
    | inl (e, z) ↦
        rw (z, zero-add, e, scan)
          (ap (◌++◌ r) (
            let d : suc (length xs) - 1 ≡ length xs = omega arith in
            rw d (scan-drop (length xs) s)))
    | inr (k, e, g, z) ↦ rw (z, suc-add, e, scan) (ap (◌∷◌ c) (replaced-some s k g))
  ]

  -- The subject and the position after one round, in terms of the settled part.
  round_subject :
      (done rest : Bytes) (i : ℕ)
      → take (length done + i) (done ++ rest)
          ++ (r ++ drop (length done + i + length (x ∷ xs)) (done ++ rest))
        ≡ (done ++ (take i rest ++ r)) ++ drop (i + length (x ∷ xs)) rest
  round_subject done rest i =
      rw
        (
          take_past done rest i,
          add_assoc (length done) i (length (x ∷ xs)),
          drop_past done rest (i + length (x ∷ xs)),
        )
        (simp append_assoc)

  round_start :
      (done rest : Bytes) (i : ℕ)
      → find (x ∷ xs) rest ≡ some i
      → length done + i + length r ≡ length (done ++ (take i rest ++ r))
  round_start done rest i e = omega (
    arith,
    length-append done (take i rest ++ r),
    length-append (take i rest) r,
    (find-length (x ∷ xs) rest i (omega arith) e).0,
  )

  -- One round of the loop, on a subject whose first `length done` bytes are settled.
  loop_lem :
      (f : ℕ) (done rest : Bytes)
      → length rest < f
      → replace_loop f (done ++ rest) (x ∷ xs) r (length done)
        ≡ some (done ++ replaced (x ∷ xs) r rest)
  unfolding replace_loop
  loop_lem zero done rest h = absurd (omega arith)
  loop_lem (suc f) done rest h = elim (Option-cases (find (x ∷ xs) rest)) [
    | inl e ↦ rw (find_from-append (x ∷ xs) done rest, e, replace_loop) (rw (replaced-none rest e))
    | inr (i, e) ↦
        let next = drop (i + length (x ∷ xs)) rest in
        let shorter = find-length (x ∷ xs) rest i (omega arith) e in
        let rec = loop_lem f (done ++ (take i rest ++ r)) next (omega (arith, shorter.1)) in
        rw (find_from-append (x ∷ xs) done rest, e, replace_loop)
          (rw (round_subject done rest i, round_start done rest i e, rec, replaced-some rest i e)
            (simp append_assoc))
  ]

  -- str_replace with a search text that is not empty ends, and its result is the scan from left to
  -- right.
  pub str_replace-replaced : (s : Bytes) → str_replace s (x ∷ xs) r ≡ some (replaced (x ∷ xs) r s)
  unfolding str_replace
  str_replace-replaced s = loop_lem (suc (length s)) [] s (omega arith)
