-- ===== src/Tests/Threads.antt =====
-- Tests of the mutex of the mesh.
use libpubsub.Base.{
  Bool, Bytes, Option, [], arith, codes, false, if◌then◌else◌, none, pos, refl, some,
  some_injective, subst, suc, sym, true, zero, ℕ, ◌++◌, ◌==◌, ◌∙◌, ◌∷◌, ◌≡◌, ◌≢◌,
}
use libpubsub.Text.{str_before, str_after}
use libpubsub.Text.Decimal.{atoi}
use libpubsub.World.{Env, ok, fault, thrown, unresolved}
use libpubsub.Mesh
use libpubsub.Mesh.Mutex.{
  RecursiveMutex, waits, returned, threw, has_host, get_host, broadcast, add_host, learn_host,
}
use libpubsub.Mesh.Locked.{add_host-locked, learn_host-stuck}
use libpubsub.Text.Decimal.{show_ℕ}
use libpubsub.Channel.{get_channel}
use libpubsub.Signaling.Mutex
use libpubsub.Signaling.Mutex.{digest_message-stuck}
use libpubsub.Tests.{easy, pair, news, waiting, open_on}

-- The thread that has the mutex, and how often it has taken it again.
abbrev Holder : Type 0
Holder = Option (ℕ × ℕ)

abbrev take_again : ℕ → ℕ → ℕ → Option Holder
take_again t o n = if o == t then some (some (o, suc n)) else none

abbrev taken_by : ℕ → Holder → Option Holder
taken_by t none = some (some (t, 0))
taken_by t (some (o, n)) = take_again t o n

abbrev given_back : Holder → Holder
given_back none = none
given_back (some (o, zero)) = none
given_back (some (o, suc n)) = some (o, n)

-- Who takes the mutex has it, and to give it back undoes that.
abbrev Taken : ℕ → Holder → Holder → Type 0
Taken t m m' = (n : ℕ) × (m' ≡ some (t, n)) × (given_back m' ≡ m)

taken_by-Taken : (t : ℕ) (m m' : Holder) → taken_by t m ≡ some m' → Taken t m m'
taken_by-Taken t none m' e =
    let it : some (t, 0) ≡ m' = some_injective e in
    (0, sym it, subst (λ x. given_back x ≡ none) it refl)
taken_by-Taken t (some (o, n)) m' e = go (o == t) refl e
  where
    go :
        (b : Bool)
        → (o == t) ≡ b
        → (if b then some (some (o, suc n)) else none) ≡ some m'
        → Taken t (some (o, n)) m'
    go true y e =
        let it : some (o, suc n) ≡ m' = some_injective e in
        let same : o ≡ t = ground (arith, y) in
        (suc n, sym it ∙ rw same refl, subst (λ x. given_back x ≡ some (o, n)) it refl)
    go false y e = cc

holder-relock :
    (t : ℕ) (m m' : Holder) → taken_by t m ≡ some m' → (m'' : Holder) × (taken_by t m' ≡ some m'')
holder-relock t m m' e =
    let (n, k, back) = taken_by-Taken t m m' e in (some (t, suc n), rw k (ground arith))

holder-unlock : (t : ℕ) (m m' : Holder) → taken_by t m ≡ some m' → given_back m' ≡ m
holder-unlock t m m' e = let (n, k, back) = taken_by-Taken t m m' e in back

holder-excludes :
    (t t' : ℕ) (m m' : Holder) → taken_by t m ≡ some m' → t ≢ t' → taken_by t' m' ≡ none
holder-excludes t t' m m' e other =
    let (n, k, back) = taken_by-Taken t m m' e in rw k (ground (arith, other))

abbrev holder_mutex : RecursiveMutex Holder
holder_mutex = record {
  lock = taken_by;
  unlock = given_back;
  relock = holder-relock;
  unlock-lock = holder-unlock;
  excludes = holder-excludes;
}

add_host-locked_example :
    add_host holder_mutex 3 easy (codes "10.0.0.9") (pos 12212) none pair
    ≡ elim (Mesh.add_host easy (codes "10.0.0.9") (pos 12212) pair) [
      | ok w' ↦ returned tt none w'
      | fault x ↦ threw x (some (3, 0))
    ]
add_host-locked_example =
    add_host-locked holder_mutex 3 none (some (3, 0)) easy (codes "10.0.0.9") (pos 12212) pair refl

-- No name resolves.
abbrev nameless : Env
nameless = record easy { dial = λ ip. unresolved }

abbrev lost_line : Bytes
lost_line = codes "Host=nowhere:12212"

learn_host-stuck_example :
    (learn_host holder_mutex 3 nameless lost_line none pair
      ≡ threw (thrown (codes "Couldn't resolve host")) (some (3, 0)))
    × (has_host holder_mutex 4 (codes "10.0.0.2") (pos 12213) (some (3, 0)) pair ≡ waits)
    × (get_host holder_mutex 4 (codes "10.0.0.2") (pos 12213) (some (3, 0)) pair ≡ waits)
    × (add_host holder_mutex 4 easy (codes "10.0.0.2") (pos 12213) (some (3, 0)) pair ≡ waits)
    × (broadcast holder_mutex 4 news (some (3, 0)) pair ≡ waits)
learn_host-stuck_example =
    learn_host-stuck holder_mutex 3 4 none (some (3, 0)) nameless easy lost_line (codes "10.0.0.2")
      (pos 12213) news pair pair refl differs unknown refl
  where
    differs : ◌≢◌ {A = ℕ} 3 4
    differs = λ e. omega (arith, e)

    unknown :
        Mesh.has_host
          (str_before (str_after lost_line (codes "=")) (codes ":"))
          (atoi (str_after (str_after lost_line (codes "=")) (codes ":")))
          pair
        ≡ false
    unknown = unfold Mesh.has_host str_before str_after atoi in refl

waiting_for_news : get_channel news waiting ≡ some 0
unfolding get_channel
waiting_for_news = refl

digest_message-stuck_example :
    (Mutex.digest_message holder_mutex 3 nameless 1
        (codes "OFFER_TCP=" ++ (news ++ (b'|' ∷ show_ℕ 10000)))
        none
        waiting
      ≡ threw (thrown (codes "Couldn't resolve host")) (some (3, 0)))
    × (Mutex.digest_message holder_mutex 4 easy 1 news (some (3, 0)) waiting ≡ waits)
    × (Mutex.on_host_open holder_mutex 4 1 (some (3, 0)) waiting ≡ waits)
    × (Mutex.on_host_close holder_mutex 4 easy 1 (some (3, 0)) waiting ≡ waits)
digest_message-stuck_example =
    digest_message-stuck holder_mutex 3 4 none (some (3, 0)) nameless easy 1 1 1 0 0 1 10000 []
      (record (open_on 0) { connected = false; socket = none }) news news waiting waiting refl
      differs (ground arith) waiting_for_news (omega arith) (omega arith) refl refl refl refl refl
      refl
  where
    differs : ◌≢◌ {A = ℕ} 3 4
    differs = λ e. omega (arith, e)
