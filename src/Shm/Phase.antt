-- ===== src/Shm/Phase.antt =====
-- Who owns the memory of src/utils/shm.cpp between two steps of its threads, and the invariant that
-- goes with it.
use libpubsub.Base.{
  Bool, Bool-cases, Bytes, List, Option, [], ap, arith, false, if◌then◌else◌, inl, inr, none, not,
  refl, some, sym, take, true, ℕ, ◌++◌, ◌==◌, ◌∙◌, ◌∷◌, ◌≡◌, ◌≢◌,
}
use libpubsub.World.{update}
use libpubsub.Shm.{Method, write_bytes, write_memory, read_memory, read_bytes, Call, method}
use libpubsub.Shm.Slot.{Thread, idle, calling, inside, leaving, Slot}

abbrev pub is_writer : Method → Bool
is_writer (write_bytes buf) = true
is_writer write_memory = true
is_writer read_memory = false
is_writer (read_bytes len) = false

-- The abstract view: a mailbox that holds at most one message, with the messages put and got so far.
pub data Mail : Option Bytes → List Bytes → List Bytes → Type 0 where
  empty : Mail none [] []
  put :
      {m : Bytes} {puts gets : List Bytes}
      → Mail none puts gets
      → Mail (some m) (puts ++ (m ∷ [])) gets
  get :
      {m : Bytes} {puts gets : List Bytes}
      → Mail (some m) puts gets
      → Mail none puts (gets ++ (m ∷ []))

-- Each of the first is what stands at the start of its message.
pub data Prefixes : List Bytes → List Bytes → Type 0 where
  no_reads : Prefixes [] []
  one_more :
      {handed taken : List Bytes}
      → (len : ℕ) (m : Bytes) → Prefixes handed taken
      → Prefixes (handed ++ (take len m ∷ [])) (taken ++ (m ∷ []))

-- Who owns the memory: nobody, with a message in it or none, or one thread in a call, before its action
-- (`false`) or behind it.
pub data Phase : Type 0 where
  free full : Phase
  busy : ℕ → Call → Bool → Phase

-- A message waits in the memory: a writer has put it there, or a reader has not yet taken it.
abbrev pub holds : Phase → Bool
holds free = false
holds full = true
holds (busy i c false) = not (is_writer (method c))
holds (busy i c true) = is_writer (method c)

abbrev pub box : Phase → Bytes → Option Bytes
box p memory = if holds p then some memory else none

abbrev pub readable_of : Phase → ℕ
readable_of full = 1
readable_of _ = 0

abbrev pub writable_of : Phase → ℕ
writable_of free = 1
writable_of _ = 0

abbrev pub at : Call → Bool → Thread
at c false = inside c
at c true = leaving c

pub data Outside : Thread → Type 0 where
  rests : Outside idle
  calls : (c : Call) → Outside (calling c)

abbrev pub Owns : Phase → (ℕ → Thread) → Type 0
Owns free f = Unit {0}
Owns full f = Unit {0}
Owns (busy i c done) f = f i ≡ at c done

abbrev pub Away : Phase → ℕ → Type 0
Away free j = Unit {0}
Away full j = Unit {0}
Away (busy i c done) j = j ≢ i

pub record Inv (p : Phase) (s : Slot) : Type 0 where
  pub reads : s.readable ≡ readable_of p
  pub writes : s.writable ≡ writable_of p
  pub owner : Owns p s.thread
  pub others : (j : ℕ) → Away p j → Outside (s.thread j)
  pub log : Mail (box p s.memory) s.written s.taken
  pub prefixes : Prefixes s.handed s.taken

pub Outside-update :
    (i j : ℕ) (t : Thread) (f : ℕ → Thread)
    → Outside t
    → (j ≢ i → Outside (f j))
    → Outside (update f i t j)
Outside-update i j t f new old = elim (Bool-cases (i == j)) [
  | inl e ↦ rw e new
  | inr e ↦ rw e (old (ground (arith, e)))
]

-- A thread that is inside a call is not outside.
not_inside : (c : Call) (done : Bool) {t : Thread} → Outside t → t ≢ at c done
not_inside c false rests e = cc
not_inside c true rests e = cc
not_inside c false (calls d) e = cc
not_inside c true (calls d) e = cc

at-injective : (c d : Call) (a b : Bool) → at c a ≡ at d b → (c ≡ d) × (a ≡ b)
at-injective c d false false e = (cc, refl)
at-injective c d true true e = (cc, refl)
at-injective c d false true e = cc
at-injective c d true false e = cc

-- A thread inside a call owns the memory.
pub owner_of :
    (i : ℕ) (c : Call) (done : Bool) (p : Phase) (s : Slot)
    → Inv p s
    → s.thread i ≡ at c done
    → p ≡ busy i c done
owner_of i c done free s v e = absurd (not_inside c done (v.others i tt) e)
owner_of i c done full s v e = absurd (not_inside c done (v.others i tt) e)
owner_of i c done (busy k d b) s v e = elim (Bool-cases (k == i)) [
  | inl same ↦
      let k_is : k ≡ i = ground arith in
      let own = v.owner in
      let (d_is, b_is) = at-injective d c b done (sym own ∙ ap s.thread k_is ∙ e) in
      rw (k_is, d_is, b_is)
  | inr other ↦ absurd (not_inside c done (v.others i (ground (arith, other))) e)
]
