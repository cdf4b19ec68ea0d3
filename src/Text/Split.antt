-- ===== src/Text/Split.antt =====
-- What the cutting helpers of src/utils/utils.cpp return: where a separator occurs, and the text
-- on its two sides.
use native.Mathlib.Nat.{zero-add, suc-add}
use native.Mathlib.Numerals.{add-one}
use libpubsub.Base.{
  Bool-cases, Bytes, Lacks, Option-cases, [], ap, arith, drop, equal, equal_refl, false, inl, inr,
  length, none, refl, some, suc, take, take-append, true, ℕ, ◌++◌, ◌+◌, ◌∷◌, ◌≡◌, ◌⊎◌,
}
use libpubsub.Text.{str_starts_with, find, str_after, str_before, str_has}

pub str_starts_with-append : (p s : Bytes) → str_starts_with (p ++ s) p ≡ true
unfolding str_starts_with
str_starts_with-append p s = rw (take-append p s) (equal_refl p)

-- A text with the prefix is the prefix and what follows it.
pub str_starts_with-split : (s p : Bytes) → str_starts_with s p ≡ true → p ++ drop (length p) s ≡ s
unfolding str_starts_with equal
str_starts_with-split s [] h = refl
str_starts_with-split [] (x ∷ p) h = cc
str_starts_with-split (c ∷ s) (x ∷ p) h = ground (arith, str_starts_with-split s p)

-- One step of the search: the needle stands here, or it is found one byte further on.
pub find_cons :
    (x s : Bytes) (c i : ℕ)
    → find x (c ∷ s) ≡ some i
    → ((str_starts_with (c ∷ s) x ≡ true) × (i ≡ 0))
      ⊎ ((k : ℕ) × (str_starts_with (c ∷ s) x ≡ false) × (find x s ≡ some k) × (i ≡ suc k))
unfolding find
find_cons x s c i h = elim (Bool-cases (str_starts_with (c ∷ s) x)) [
  | inl e ↦ inl (e, ground arith)
  | inr e ↦ elim (Option-cases (find x s)) [
    | inl e' ↦ absurd (ground arith)
    | inr (k, e') ↦ inr (k, e, e', ground arith)
  ]
]

pub find_nil : (x : Bytes) (i : ℕ) → find x [] ≡ some i → (str_starts_with [] x ≡ true) × (i ≡ 0)
unfolding find
find_nil x i h = ground arith

-- Where the needle is found, the text is what stands before it, the needle and what stands after.
pub find_split :
    (x s : Bytes) (i : ℕ) → find x s ≡ some i → take i s ++ (x ++ drop (i + length x) s) ≡ s
find_split x [] i h = let (e, z) = find_nil x i h in rw (z, zero-add) (str_starts_with-split [] x e)
find_split x (c ∷ s) i h = elim (find_cons x s c i h) [
  | inl (e, z) ↦ rw (z, zero-add) (str_starts_with-split (c ∷ s) x e)
  | inr (k, e, f, z) ↦ rw (z, suc-add) (ap (◌∷◌ c) (find_split x s k f))
]

pub find-byte : (c : ℕ) (a b : Bytes) → Lacks c a → find (c ∷ []) (a ++ (c ∷ b)) ≡ some (length a)
unfolding find
find-byte c [] b h = ground arith
find-byte c (x ∷ a) b h = ground (arith, find-byte c a b h.1)

pub find-Lacks : (c : ℕ) (a : Bytes) → Lacks c a → find (c ∷ []) a ≡ none
unfolding find
find-Lacks c [] h = ground arith
find-Lacks c (x ∷ a) h = ground (arith, find-Lacks c a h.1)

pub str_before-byte : (c : ℕ) (a b : Bytes) → Lacks c a → str_before (a ++ (c ∷ b)) (c ∷ []) ≡ a
unfolding str_before
str_before-byte c a b h = rw (find-byte c a b h, str_before) (take-append a (c ∷ b))

drop_past : (c : ℕ) (a b : Bytes) → drop (suc (length a)) (a ++ (c ∷ b)) ≡ b
drop_past c [] b = refl
drop_past c (x ∷ a) b = drop_past c a b

pub str_after-byte : (c : ℕ) (a b : Bytes) → Lacks c a → str_after (a ++ (c ∷ b)) (c ∷ []) ≡ b
unfolding str_after
str_after-byte c a b h = rw (find-byte c a b h, str_after, add-one) (drop_past c a b)

pub str_before-Lacks : (c : ℕ) (a : Bytes) → Lacks c a → str_before a (c ∷ []) ≡ a
unfolding str_before
str_before-Lacks c a h = rw (find-Lacks c a h, str_before)

-- The two sides of the first separator and the separator itself make up the text again.
before-after : (s x : Bytes) → str_has s x ≡ true → str_before s x ++ (x ++ str_after s x) ≡ s
unfolding str_has str_before str_after
before-after s x h = elim (Option-cases (find x s)) [
  | inl e ↦ absurd (ground arith)
  | inr (i, e) ↦ rw (e, str_before, str_after) (find_split x s i e)
]

-- With no separator both helpers return the whole text.
before-after_absent :
    (s x : Bytes) → str_has s x ≡ false → (str_before s x ≡ s) × (str_after s x ≡ s)
unfolding str_has str_before str_after
before-after_absent s x h = elim (Option-cases (find x s)) [
  | inl e ↦ (rw (e, str_before), rw (e, str_after))
  | inr (i, e) ↦ absurd (ground arith)
]

-- Where the separator occurs, the text before it, the separator and the text after it make up the text;
-- where it does not, both helpers return the whole text.
pub before-after_cases :
    (s x : Bytes)
    → ((str_has s x ≡ true) × (str_before s x ++ (x ++ str_after s x) ≡ s))
      ⊎ ((str_has s x ≡ false) × (str_before s x ≡ s) × (str_after s x ≡ s))
before-after_cases s x = elim (Bool-cases (str_has s x)) [
  | inl e ↦ inl (e, before-after s x e)
  | inr e ↦ let whole = before-after_absent s x e in inr (e, whole.0, whole.1)
]
