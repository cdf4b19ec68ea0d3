-- ===== src/Mesh/Mutex.antt =====
-- The mutex of src/mesh.cpp (LOCK and UNLOCK) in the calls that look for a host and add one. The
-- pthread mutex is a parameter, with what the code relies on: it is recursive and excludes.
use libpubsub.Base.{
  Bool, Bool-cases, Bytes, Option, [], ap, codes, false, if◌then◌else◌, inl, inr, none, refl, some,
  suc, ℕ, ℤ, ◌++◌, ◌∙◌, ◌∷◌, ◌≡◌, ◌≢◌,
}
use libpubsub.Text.{str_before, str_after}
use libpubsub.Text.Decimal.{atoi}
use libpubsub.World.{World, Result, ok, fault, Fault, Env, set_host}
use libpubsub.Mesh
use libpubsub.Mesh.{remote_host, set_socket, fresh_socket, connect_socket}

-- `lock t m` is `none` where thread `t` has to wait.
pub record RecursiveMutex (M : Type 0) : Type 0 where
  pub lock : ℕ → M → Option M
  pub unlock : M → M
  -- The thread that has it takes it again.
  pub relock : (t : ℕ) (m m' : M) → lock t m ≡ some m' → (m'' : M) × (lock t m' ≡ some m'')
  -- To give it back undoes the last time that it was taken.
  pub unlock-lock : (t : ℕ) (m m' : M) → lock t m ≡ some m' → unlock m' ≡ m
  -- While a thread has it no other takes it.
  pub excludes : (t t' : ℕ) (m m' : M) → lock t m ≡ some m' → t ≢ t' → lock t' m' ≡ none

-- How a call of a thread ends: it waits for the mutex, it returns, or an exception leaves it.
pub data Outcome (M A : Type 0) : Type 0 where
  waits : Outcome M A
  returned : A → M → World → Outcome M A
  threw : Fault → M → Outcome M A

module _ {M : Type 0} where
  abbrev after : {A B : Type 0} → Outcome M A → (A → M → World → Outcome M B) → Outcome M B
  after waits f = waits
  after (returned a m w) f = f a m w
  after (threw e m) f = threw e m

  -- A call that takes no mutex.
  abbrev pub plainly : Result World → M → Outcome M Unit
  plainly (ok w) m = returned tt m w
  plainly (fault e) m = threw e m

  -- UNLOCK at the end of a call. An exception passes it by.
  abbrev release : {A : Type 0} → RecursiveMutex M → Outcome M A → Outcome M A
  release mutex waits = waits
  release mutex (returned a m w) = returned a (mutex.unlock m) w
  release mutex (threw e m) = threw e m

module _ {M : Type 0} (mutex : RecursiveMutex M) (t : ℕ) where
  -- LOCK, a call, and UNLOCK.
  unfoldable pub guarded : {A : Type 0} → (M → World → Outcome M A) → M → World → Outcome M A
  guarded f m w = elim (mutex.lock t m) [ none ↦ waits | some m' ↦ release mutex (f m' w) ]

  -- has_host.
  unfoldable pub has_host : Bytes → ℤ → M → World → Outcome M Bool
  unfolding guarded Mesh.has_host
  has_host ip port = guarded (λ m w. returned (Mesh.has_host ip port w) m w)

  -- get_host.
  unfoldable pub get_host : Bytes → ℤ → M → World → Outcome M (Option ℕ)
  unfolding guarded Mesh.get_host
  get_host ip port = guarded (λ m w. returned (Mesh.get_host ip port w) m w)

  -- Host::broadcast.
  unfoldable pub broadcast : Bytes → M → World → Outcome M Unit
  unfolding guarded Mesh.broadcast
  broadcast msg = guarded (λ m w. returned tt m (Mesh.broadcast msg w))

  -- `if(!has_host(ip, port)) hosts.push_back(this)`, on the host at an address.
  unfoldable pub push_host : ℕ → M → World → Outcome M Unit
  unfolding has_host
  push_host h m w = after (has_host (w.host h).ip (w.host h).port m w) λ known m' w'.
      returned tt m' (if known then w' else record w' { hosts = w'.hosts ++ (h ∷ []) })

  -- Host::Host(ip, port): a host that this one connects to.
  unfoldable pub new_remote : Env → Bytes → ℤ → M → World → Outcome M Unit
  unfolding push_host fresh_socket set_socket connect_socket
  new_remote e ip port m w =
      after
        (push_host w.next_host m (record (set_host w.next_host (remote_host ip port false) w) {
          next_host = suc w.next_host;
        }))
        λ _ m' w'.
          plainly
            (connect_socket e w.next_socket ip port
              (set_socket w.next_host w.next_socket (fresh_socket w')))
            m'

  -- What add_host does between LOCK and UNLOCK.
  unfoldable pub add_unknown : Env → Bytes → ℤ → M → World → Outcome M Unit
  unfolding has_host new_remote
  add_unknown e ip port m w =
      after (has_host ip port m w)
        λ known m' w'. if known then returned tt m' w' else new_remote e ip port m' w'

  -- add_host(ip, port), after the first call of `init`.
  unfoldable pub add_host : Env → Bytes → ℤ → M → World → Outcome M Unit
  unfolding guarded add_unknown
  add_host e ip port = guarded (add_unknown e ip port)

  -- The branch of Host::on_receive for "Host=ip:port".
  unfoldable pub learn_host : Env → Bytes → M → World → Outcome M Unit
  unfolding add_host str_before str_after atoi
  learn_host e s =
      let ss = str_after s (codes "=") in
      add_host e (str_before ss (codes ":")) (atoi (str_after ss (codes ":")))

  module _ (m m' : M) (free : mutex.lock t m ≡ some m') where
    -- What is guarded runs, where the mutex can be taken, and returns it if it returns.
    guarded_free :
        {A : Type 0} (f : M → World → Outcome M A) (w : World)
        → guarded f m w ≡ release mutex (f m' w)
    unfolding guarded
    guarded_free f w = rw (free, guarded) refl

    has_host_free :
        (ip : Bytes) (port : ℤ) (w : World)
        → has_host ip port m w ≡ returned (Mesh.has_host ip port w) m w
    has_host_free ip port w =
        unfold has_host in
        rw
          (
            guarded_free (λ m w. returned (Mesh.has_host ip port w) m w) w,
            mutex.unlock-lock t m m' free,
          )
          refl

    push_host_free : (h : ℕ) (w : World) → push_host h m w ≡ returned tt m (Mesh.push_host h w)
    push_host_free h w =
        unfold push_host Mesh.push_host in rw (has_host_free (w.host h).ip (w.host h).port w) refl

    new_remote_free :
        (e : Env) (ip : Bytes) (port : ℤ) (w : World)
        → new_remote e ip port m w ≡ plainly (Mesh.new_remote e ip port w) m
    new_remote_free e ip port w =
        unfold new_remote Mesh.new_remote Mesh.place_host in rw (push_host_free w.next_host _) refl

  -- What the calls under LOCK are without it, on every branch.
  add_unknown_free :
      (m m' : M)
      → mutex.lock t m ≡ some m'
      → (e : Env) (ip : Bytes) (port : ℤ) (w : World)
      → add_unknown e ip port m w ≡ plainly (Mesh.add_host e ip port w) m
  add_unknown_free m m' free e ip port w =
      unfold add_unknown in
      rw (has_host_free m m' free ip port w) (elim (Bool-cases (Mesh.has_host ip port w)) [
        | inl y ↦ unfold Mesh.add_host in rw y refl
        | inr n ↦ unfold Mesh.add_host in rw n (new_remote_free m m' free e ip port w)
      ])

  module _ (m m' : M) (free : mutex.lock t m ≡ some m') where
    -- How a call ends that took the mutex: an exception leaves it taken.
    abbrev pub ends : Result World → Outcome M Unit
    ends (ok w) = returned tt m w
    ends (fault x) = threw x m'

    release-plainly : (r : Result World) → release mutex (plainly r m') ≡ ends r
    release-plainly (ok w) = ap (λ x. returned tt x w) (mutex.unlock-lock t m m' free)
    release-plainly (fault x) = refl

    pub add_host-ends :
        (e : Env) (ip : Bytes) (port : ℤ) (w : World)
        → add_host e ip port m w ≡ ends (Mesh.add_host e ip port w)
    add_host-ends e ip port w =
        let (m'', again) = mutex.relock t m m' free in
        unfold add_host in
        guarded_free m m' free (add_unknown e ip port) w
        ∙ ap (release mutex) (add_unknown_free m' m'' again e ip port w)
        ∙ release-plainly (Mesh.add_host e ip port w)
