-- ===== src/Text/Decimal.antt =====
-- How the library writes and reads an `int`: `ostringstream << int`, and `atoi` of the C library.
-- `atoi` skips white space, takes one sign and the digits up to the first other byte. Beyond the
-- range of `int` it is glibc's `(int) strtol(s)`, which saturates at 64 bits and then keeps 32.
use libpubsub.Base.{
  Bool, Bool-cases, Bytes, Lacks, [], ap, append-nil, arith, false, if◌then◌else◌, inl, inr, leb,
  ltb, ltb→lt, negsuc, pos, refl, subst, suc, true, zero, ℕ, ℤ, ◌%◌, ◌&&◌, ◌*◌, ◌++◌, ◌+◌, ◌-◌, ◌/◌,
  ◌<◌, ◌==◌, ◌^◌, ◌||◌, ◌∙◌, ◌∷◌, ◌≡◌, ◌≢◌, ◌≤◌, ◌⊎◌,
}

unfoldable pub is_digit : ℕ → Bool
is_digit c = leb b'0' c && leb c b'9'

-- The C locale's isspace.
unfoldable pub is_space : ℕ → Bool
is_space c = c == 32 || (leb 9 c && leb c 13)

-- The digits of `n` in front of `out`, on fuel; `n + 1` rounds are enough.
pub digits : ℕ → ℕ → Bytes → Bytes
digits zero n out = out
digits (suc fuel) n out = elim (ltb n 10) [
  | true ↦ (b'0' + n) ∷ out
  | false ↦ digits fuel (n / 10) ((b'0' + n % 10) ∷ out)
]

unfoldable pub show_ℕ : ℕ → Bytes
unfolding digits
show_ℕ n = digits (suc n) n []

unfoldable pub show : ℤ → Bytes
unfolding show_ℕ
show (pos n) = show_ℕ n
show (negsuc n) = b'-' ∷ show_ℕ (suc n)

-- The value of the leading digits, behind the digits already read.
unfoldable pub scan : ℕ → Bytes → ℕ
unfolding is_digit
scan acc [] = acc
scan acc (c ∷ s) = if is_digit c then scan (acc * 10 + (c - b'0')) s else acc

abbrev min_ℕ : ℕ → ℕ → ℕ
min_ℕ a b = if ltb a b then a else b

-- A bit pattern of 32 bits as an `int`.
abbrev to_int : ℕ → ℤ
to_int w = if ltb w (2 ^ 31) then pos w else negsuc (2 ^ 32 - 1 - w)

-- A magnitude with its sign, saturated to 64 bits and cut to 32.
unfoldable pub narrow : Bool → ℕ → ℤ
narrow false n = to_int (min_ℕ n (2 ^ 63 - 1) % 2 ^ 32)
narrow true n = to_int ((2 ^ 32 - min_ℕ n (2 ^ 63) % 2 ^ 32) % 2 ^ 32)

signed : Bytes → ℤ
unfolding narrow scan
signed [] = pos 0
signed (c ∷ s) =
    if c == b'-'
    then narrow true (scan 0 s)
    else if c == b'+'
    then narrow false (scan 0 s)
    else narrow false (scan 0 (c ∷ s))

unfoldable pub atoi : Bytes → ℤ
unfolding signed is_space
atoi [] = pos 0
atoi (c ∷ s) = if is_space c then atoi s else signed (c ∷ s)

-- In the range of a 32-bit `int`.
abbrev pub IsInt : ℤ → Type 0
IsInt (pos n) = n < 2 ^ 31
IsInt (negsuc n) = n < 2 ^ 31

-- A text that is digits only.
abbrev pub AllDigits : Bytes → Type 0
AllDigits [] = Unit {0}
AllDigits (c ∷ s) = (b'0' ≤ c) × (c ≤ b'9') × AllDigits s

digits-last : (f n : ℕ) (out : Bytes) → ltb n 10 ≡ true → digits (suc f) n out ≡ (b'0' + n) ∷ out
unfolding digits
digits-last f n out e = rw (e, digits)

digits-more :
    (f n : ℕ) (out : Bytes)
    → ltb n 10 ≡ false
    → digits (suc f) n out ≡ digits f (n / 10) ((b'0' + n % 10) ∷ out)
unfolding digits
digits-more f n out e = rw (e, digits)

digits-AllDigits : (f n : ℕ) (out : Bytes) → AllDigits out → AllDigits (digits f n out)
unfolding digits
digits-AllDigits zero n out h = h
digits-AllDigits (suc f) n out h = elim (Bool-cases (ltb n 10)) [
  | inl e ↦ rw (digits-last f n out e) (omega arith, omega (arith, ltb→lt n 10 e), h)
  | inr e ↦ rw (digits-more f n out e) (digits-AllDigits f (n / 10) _ (omega arith, omega arith, h))
]

scan-digits : (f n : ℕ) (out : Bytes) → n < f → scan 0 (digits f n out) ≡ scan n out
unfolding digits scan
scan-digits zero n out h = absurd (omega arith)
scan-digits (suc f) n out h = ground (arith, scan-digits f (n / 10) ((b'0' + n % 10) ∷ out))

-- What follows the digits is no digit.
abbrev pub Ends : Bytes → Type 0
Ends [] = Unit {0}
Ends (c ∷ s) = is_digit c ≡ false

scan-Ends : (n : ℕ) (rest : Bytes) → Ends rest → scan n rest ≡ n
unfolding scan
scan-Ends n [] h = refl
scan-Ends n (c ∷ s) h = rw (h, scan)

digits-append : (f n : ℕ) (out rest : Bytes) → digits f n out ++ rest ≡ digits f n (out ++ rest)
unfolding digits
digits-append zero n out rest = refl
digits-append (suc f) n out rest =
    ground (arith, digits-append f (n / 10) ((b'0' + n % 10) ∷ out) rest)

-- A text that begins with a digit.
abbrev StartsDigit : Bytes → Type 0
StartsDigit s = (c : ℕ) × (t : Bytes) × (s ≡ c ∷ t) × (is_digit c ≡ true)

digits-StartsDigit :
    (f n c : ℕ) (out : Bytes) → is_digit c ≡ true → StartsDigit (digits f n (c ∷ out))
unfolding digits
digits-StartsDigit zero n c out h = (c, out, refl, h)
digits-StartsDigit (suc f) n c out h = elim (Bool-cases (ltb n 10)) [
  | inl e ↦ (b'0' + n, c ∷ out, digits-last f n (c ∷ out) e, unfold is_digit in ground arith)
  | inr e ↦
      rw (digits-more f n (c ∷ out) e)
        (digits-StartsDigit f (n / 10) (b'0' + n % 10) (c ∷ out) (unfold is_digit in ground arith))
]

show_ℕ-StartsDigit : (f n : ℕ) (out : Bytes) → StartsDigit (digits (suc f) n out)
unfolding digits
show_ℕ-StartsDigit f n out = elim (Bool-cases (ltb n 10)) [
  | inl e ↦ (b'0' + n, out, digits-last f n out e, unfold is_digit in ground arith)
  | inr e ↦
      rw (digits-more f n out e)
        (digits-StartsDigit f (n / 10) (b'0' + n % 10) out (unfold is_digit in ground arith))
]

atoi-digit : (c : ℕ) (t : Bytes) → is_digit c ≡ true → atoi (c ∷ t) ≡ narrow false (scan 0 (c ∷ t))
unfolding atoi
atoi-digit c t h = ground (arith, h)

atoi-StartsDigit : (s : Bytes) → StartsDigit s → atoi s ≡ narrow false (scan 0 s)
atoi-StartsDigit s (c, t, e, h) = rw e (atoi-digit c t h)

atoi_minus : (s : Bytes) → atoi (b'-' ∷ s) ≡ narrow true (scan 0 s)
unfolding atoi
atoi_minus s = refl

narrow-pos : (n : ℕ) → n < 2 ^ 31 → narrow false n ≡ pos n
unfolding narrow
narrow-pos n h = ground arith

narrow-negsuc : (n : ℕ) → n < 2 ^ 31 → narrow true (suc n) ≡ negsuc n
unfolding narrow
narrow-negsuc n h = ground arith

pub scan-show_ℕ : (n : ℕ) (rest : Bytes) → Ends rest → scan 0 (show_ℕ n ++ rest) ≡ n
unfolding show_ℕ
scan-show_ℕ n rest h =
    rw (digits-append (suc n) n [] rest)
      (scan-digits (suc n) n rest (omega arith) ∙ scan-Ends n rest h)

-- Every `int` is read back from its print, whatever stands behind it that is no digit.
pub atoi-show : (z : ℤ) (rest : Bytes) → IsInt z → Ends rest → atoi (show z ++ rest) ≡ z
unfolding show
atoi-show (pos n) rest h e =
    atoi-StartsDigit (show_ℕ n ++ rest)
      (unfold show_ℕ in rw (digits-append (suc n) n [] rest) (show_ℕ-StartsDigit n n rest))
    ∙ ap (narrow false) (scan-show_ℕ n rest e)
    ∙ narrow-pos n h
atoi-show (negsuc n) rest h e =
    atoi_minus (show_ℕ (suc n) ++ rest)
    ∙ ap (narrow true) (scan-show_ℕ (suc n) rest e)
    ∙ narrow-negsuc n h

-- The same for a number that stands last, such as a port.
pub atoi-show_ℕ : (n : ℕ) → n < 2 ^ 31 → atoi (show_ℕ n) ≡ pos n
unfolding show
atoi-show_ℕ n h = subst (λ s. atoi s ≡ pos n) (append-nil (show_ℕ n)) (atoi-show (pos n) [] h tt)

pub atoi-show_last : (z : ℤ) → IsInt z → atoi (show z) ≡ z
atoi-show_last z h = subst (λ s. atoi s ≡ z) (append-nil (show z)) (atoi-show z [] h tt)

AllDigits-Lacks : (c : ℕ) (s : Bytes) → (c < b'0') ⊎ (b'9' < c) → AllDigits s → Lacks c s
AllDigits-Lacks c [] h a = tt
AllDigits-Lacks c (x ∷ s) h (lo, hi, rest) = (omega arith, AllDigits-Lacks c s h rest)

show_ℕ-Lacks : (c n : ℕ) → (c < b'0') ⊎ (b'9' < c) → Lacks c (show_ℕ n)
unfolding show_ℕ
show_ℕ-Lacks c n h = AllDigits-Lacks c (digits (suc n) n []) h (digits-AllDigits (suc n) n [] tt)

-- A printed number is digits behind at most one '-'.
pub show-Lacks : (c : ℕ) (z : ℤ) → (c < b'0') ⊎ (b'9' < c) → c ≢ b'-' → Lacks c (show z)
unfolding show
show-Lacks c (pos n) h d = show_ℕ-Lacks c n h
show-Lacks c (negsuc n) h d = (omega arith, show_ℕ-Lacks c (suc n) h)
