-- ===== src/Shm/Delivery.antt =====
-- What the processes that share a memory of src/utils/shm.cpp see of each other.
use libpubsub.Base.{
  Bool, Bool-cases, Bytes, List, Option, [], append-nil, false, inl, inr, none, refl, some, sym,
  true, ℕ, ◌++◌, ◌∙◌, ◌∷◌, ◌≡◌, ◌≢◌,
}
use libpubsub.Shm.{Call}
use libpubsub.Shm.Slot.{Thread, idle, calling, inside, leaving, Slot, Reach, fresh}
use libpubsub.Shm.Phase.{Mail, empty, put, get, busy, at, owner_of}
use libpubsub.Shm.Exclusion.{Reach-Stays}

-- A thread is behind its sem_wait and has not posted yet.
unfoldable pub is_inside : Thread → Bool
is_inside idle = false
is_inside (calling c) = false
is_inside (inside c) = true
is_inside (leaving c) = true

inside_call : (t : Thread) → is_inside t ≡ true → (c : Call) × (done : Bool) × (t ≡ at c done)
unfolding is_inside
inside_call idle e = cc
inside_call (calling c) e = cc
inside_call (inside c) e = (c, false, refl)
inside_call (leaving c) e = (c, true, refl)

busy-injective : (i j : ℕ) (c d : Call) (a b : Bool) → busy i c a ≡ busy j d b → i ≡ j
busy-injective i j c d a b e = cc

same_thread :
    {memory : Bytes} {s : Slot}
    → Reach (fresh memory) s
    → (i j : ℕ) → is_inside (s.thread i) ≡ true
    → is_inside (s.thread j) ≡ true
    → i ≡ j
same_thread {memory} {s} r i j h k =
    let (p, v) = Reach-Stays r in
    let (c, a, e) = inside_call (s.thread i) h in
    let (d, b, f) = inside_call (s.thread j) k in
    busy-injective i j c d a b (sym (owner_of i c a p s v e) ∙ owner_of j d b p s v f)

-- While a thread is behind its sem_wait, no other thread is, whatever calls the threads make and in
-- whatever order they run, from the state in which a server leaves a memory.
pub mutual_exclusion :
    {memory : Bytes} {s : Slot}
    → Reach (fresh memory) s
    → (i j : ℕ) → i ≢ j
    → is_inside (s.thread i) ≡ true
    → is_inside (s.thread j) ≡ false
mutual_exclusion {memory} {s} r i j d h = elim (Bool-cases (is_inside (s.thread j))) [
  | inl k ↦ absurd (d (same_thread r i j h k))
  | inr k ↦ k
]

unfoldable pub one_or_none : Option Bytes → List Bytes
one_or_none none = []
one_or_none (some m) = m ∷ []

pub Mail-order :
    {o : Option Bytes} {puts gets : List Bytes} → Mail o puts gets → puts ≡ gets ++ one_or_none o
unfolding one_or_none
Mail-order empty = refl
Mail-order (put {m} {puts} {gets} l) = rw (Mail-order l) (rw (append-nil gets))
Mail-order (get {m} {puts} {gets} l) = Mail-order l ∙ sym (append-nil (gets ++ (m ∷ [])))
