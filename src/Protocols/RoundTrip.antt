-- ===== src/Protocols/RoundTrip.antt =====
-- Printing a TransportDescription and parsing it again.
use native.Mathlib.Nat.{zero-add, suc-add}
use libpubsub.Base.{
  Bool, Bytes, Lacks, [], ap, append_assoc, arith, codes, drop, drop-append, eq_ℤ, equal, equal_iff,
  false, inl, length, pos, refl, some, sym, take-append, true, ℕ, ◌++◌, ◌+◌, ◌∙◌, ◌∷◌, ◌≡◌, ◌≢◌,
}
use libpubsub.Text.{str_starts_with, str_before, str_after, str_has, str_to_lower, find}
use libpubsub.Text.Split.{
  str_starts_with-append, str_before-byte, str_after-byte, str_before-Lacks, find-byte,
}
use libpubsub.Text.Decimal.{show, atoi-show, IsInt, is_digit, show-Lacks, Ends}
use libpubsub.Protocols.{
  Description, EndPoint, input, output, both, parse, to_string, describe, direction, read_port,
  or_localhost, port_text, type_text,
}

starts_other : (c y : ℕ) (x s : Bytes) → y ≢ c → str_starts_with (y ∷ s) (c ∷ x) ≡ false
unfolding str_starts_with equal
starts_other c y x s d = ground (arith, d)

-- A marker is found where its first byte stands for the first time.
find-marker :
    (c : ℕ) (x a b : Bytes) → Lacks c a → find (c ∷ x) (a ++ (c ∷ (x ++ b))) ≡ some (length a)
unfolding find
find-marker c x [] b l = rw (str_starts_with-append (c ∷ x) b)
find-marker c x (y ∷ a) b l =
    rw (starts_other c y x (a ++ (c ∷ (x ++ b))) l.0, find-marker c x a b l.1)

drop_past : (a b : Bytes) (i : ℕ) → drop (length a + i) (a ++ b) ≡ drop i b
drop_past [] b i = rw zero-add
drop_past (c ∷ a) b i = rw suc-add (drop_past a b i)

str_before-marker :
    (c : ℕ) (x a b : Bytes) → Lacks c a → str_before (a ++ (c ∷ (x ++ b))) (c ∷ x) ≡ a
unfolding str_before
str_before-marker c x a b l = rw (find-marker c x a b l, str_before) (take-append a (c ∷ (x ++ b)))

str_after-marker : (c : ℕ) (x a b : Bytes) → Lacks c a → str_after (a ++ (c ∷ (x ++ b))) (c ∷ x) ≡ b
unfolding str_after
str_after-marker c x a b l =
    rw (find-marker c x a b l, str_after)
      (drop_past a (c ∷ (x ++ b)) (length (c ∷ x)) ∙ drop-append x b)

-- A description as a program writes one: a lower-case protocol, an address with none of the marks, a
-- port that is not 0, and one direction.
pub record IsPlain (d : Description) : Type 0 where
  pub is_valid : d.valid ≡ true
  pub lower : str_to_lower d.protocol ≡ d.protocol
  pub no_colon : Lacks b':' d.protocol
  pub local_shm : d.local ≡ equal d.protocol (codes "shm")
  pub named : d.ip ≢ []
  pub ip_colon : Lacks b':' d.ip
  pub ip_slash : Lacks b'/' d.ip
  pub int_port : IsInt d.port
  pub some_port : eq_ℤ d.port (pos 0) ≡ false
  pub directed : d.type ≢ both

url_of : Description → Bytes
unfolding type_text
url_of d = d.ip ++ (b':' ∷ (show d.port ++ type_text d.type))

to_string-url :
    (d : Description) → IsPlain d → to_string d ≡ d.protocol ++ (b':' ∷ (codes "//" ++ url_of d))
unfolding to_string url_of
to_string-url d p = rw (p.is_valid, p.some_port, port_text)

str_has-byte : (c : ℕ) (a b : Bytes) → Lacks c a → str_has (a ++ (c ∷ b)) (c ∷ []) ≡ true
unfolding str_has
str_has-byte c a b l = rw (find-byte c a b l, str_has)

Lacks-append : (c : ℕ) (a b : Bytes) → Lacks c a → Lacks c b → Lacks c (a ++ b)
Lacks-append c [] b l k = k
Lacks-append c (x ∷ a) b l k = (l.0, Lacks-append c a b l.1 k)

read_port-url : (d : Description) → IsPlain d → read_port (url_of d) ≡ d.port
unfolding read_port url_of
read_port-url d p =
    let rest = show d.port ++ type_text d.type in
    rw (str_has-byte b':' d.ip rest p.ip_colon, read_port, str_after-byte b':' d.ip rest p.ip_colon)
      (atoi-show d.port (type_text d.type) p.int_port (ends d.type))
  where
    ends : (t : EndPoint) → Ends (type_text t)
    ends input = unfold type_text is_digit in refl
    ends output = unfold type_text is_digit in refl
    ends both = unfold type_text in tt

address-url :
    (d : Description)
    → IsPlain d
    → str_before (str_before (url_of d) (codes ":")) (codes "/") ≡ d.ip
unfolding url_of
address-url d p =
    rw (str_before-byte b':' d.ip (show d.port ++ type_text d.type) p.ip_colon)
      (str_before-Lacks b'/' d.ip p.ip_slash)

or_localhost-named : (local : Bool) (ip : Bytes) → ip ≢ [] → or_localhost local ip ≡ ip
unfolding or_localhost
or_localhost-named local ip n = ground (arith, equal_iff ip [], n)

details : EndPoint → Bytes
details input = codes "input"
details output = codes "output"
details both = []

type_text-details : (t : EndPoint) → t ≢ both → type_text t ≡ b'/' ∷ details t
unfolding type_text details
type_text-details input n = refl
type_text-details output n = refl
type_text-details both n = absurd (n refl)

direction-details : (t : EndPoint) → t ≢ both → direction (details t) ≡ t
unfolding direction details
direction-details input n = refl
direction-details output n = refl
direction-details both n = absurd (n refl)

direction-url :
    (d : Description) → IsPlain d → direction (str_after (url_of d) (codes "/")) ≡ d.type
unfolding url_of
direction-url d p =
    let front = d.ip ++ (b':' ∷ show d.port) in
    let lacks =
      Lacks-append b'/' d.ip (b':' ∷ show d.port) p.ip_slash
        (omega arith, show-Lacks b'/' d.port (inl (omega arith)) (omega arith)) in
    rw
      (
        type_text-details d.type p.directed,
        ← append_assoc d.ip (b':' ∷ show d.port) (b'/' ∷ details d.type),
        str_after-byte b'/' front (details d.type) lacks,
      )
      (direction-details d.type p.directed)

describe-url : (d : Description) → IsPlain d → describe d.channel d.protocol (url_of d) ≡ d
unfolding describe
describe-url d p =
    let own = p.is_valid in
    let local = p.local_shm in
    rw
      (
        address-url d p,
        read_port-url d p,
        direction-url d p,
        or_localhost-named (equal d.protocol (codes "shm")) d.ip p.named,
        ← local,
      )
      (ap (λ v. record d { valid = v }) (sym own))

-- A valid description with a lower-case protocol with no ':', an address that is not empty and
-- holds neither ':' nor '/', a port in the range of an `int` that is not 0, and one direction, is
-- the same after it is printed and parsed again for its channel.
pub parse-to_string : (d : Description) → IsPlain d → parse d.channel (to_string d) ≡ d
unfolding parse
parse-to_string d p =
    rw
      (
        to_string-url d p,
        str_before-marker b':' (codes "//") d.protocol (url_of d) p.no_colon,
        str_after-marker b':' (codes "//") d.protocol (url_of d) p.no_colon,
        p.lower,
      )
      (describe-url d p)
