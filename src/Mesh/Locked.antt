-- ===== src/Mesh/Locked.antt =====
-- What holding the mutex of src/mesh.cpp means for the threads of a process, and what an exception
-- under it does to them.
use libpubsub.Base.{Bytes, codes, false, refl, some, ℕ, ℤ, ◌∙◌, ◌≡◌, ◌≢◌}
use libpubsub.Text.{str_before, str_after}
use libpubsub.Text.Decimal.{atoi}
use libpubsub.World.{World, Result, ok, fault, thrown, Env, unresolved}
use libpubsub.Mesh
use libpubsub.Mesh.Mutex.{
  RecursiveMutex, Outcome, waits, returned, threw, guarded, has_host, get_host, broadcast, add_host,
  learn_host, add_host-ends, ends, add_unknown,
}

-- A thread that can take the mutex runs add_host as the call is without it. Where that returns, the
-- mutex is afterwards as it was before; where it throws, the thread keeps the mutex.
pub add_host-locked :
    {M : Type 0} (mutex : RecursiveMutex M) (t : ℕ) (m m' : M) (e : Env) (ip : Bytes) (port : ℤ)
    (w : World)
    → mutex.lock t m ≡ some m'
    → add_host mutex t e ip port m w
      ≡ elim (Mesh.add_host e ip port w) [ ok w' ↦ returned tt m w' | fault x ↦ threw x m' ]
add_host-locked mutex t m m' e ip port w free =
    add_host-ends mutex t m m' free e ip port w ∙ same (Mesh.add_host e ip port w)
  where
    same :
        (r : Result World)
        → ends mutex t m m' free r ≡ elim r [ ok w' ↦ returned tt m w' | fault x ↦ threw x m' ]
    same (ok w') = refl
    same (fault x) = refl

pub guarded_waits :
    {M A : Type 0} (mutex : RecursiveMutex M) (t t' : ℕ) (m m' : M) (f : M → World → Outcome M A)
    (w : World)
    → mutex.lock t m ≡ some m'
    → t ≢ t'
    → guarded mutex t' f m' w ≡ waits
unfolding guarded
guarded_waits mutex t t' m m' f w took other =
    rw (mutex.excludes t t' m m' took other, guarded) refl

add_host_unresolved :
    (e : Env) (ip : Bytes) (port : ℤ) (w : World)
    → Mesh.has_host ip port w ≡ false
    → e.dial ip ≡ unresolved
    → Mesh.add_host e ip port w ≡ fault (thrown (codes "Couldn't resolve host"))
unfolding Mesh.add_host Mesh.new_remote Mesh.connect_socket
add_host_unresolved e ip port w fresh lost =
    rw (fresh, Mesh.add_host, Mesh.new_remote, Mesh.connect_socket, lost) refl

-- Where a thread that can take the mutex receives a line "Host=ip:port" with an address that the process
-- does not know and that cannot be resolved, an exception leaves the line's handler with the mutex
-- taken. With the mutex as it then is, and in any state of the process, every other thread that looks
-- for a host, adds one or broadcasts waits.
pub learn_host-stuck :
    {M : Type 0} (mutex : RecursiveMutex M) (t t' : ℕ) (m m' : M) (e e' : Env) (s ip : Bytes)
    (port : ℤ) (msg : Bytes) (w v : World)
    → mutex.lock t m ≡ some m'
    → t ≢ t'
    → Mesh.has_host
        (str_before (str_after s (codes "=")) (codes ":"))
        (atoi (str_after (str_after s (codes "=")) (codes ":")))
        w
      ≡ false
    → e.dial (str_before (str_after s (codes "=")) (codes ":")) ≡ unresolved
    → (learn_host mutex t e s m w ≡ threw (thrown (codes "Couldn't resolve host")) m')
      × (has_host mutex t' ip port m' v ≡ waits)
      × (get_host mutex t' ip port m' v ≡ waits)
      × (add_host mutex t' e' ip port m' v ≡ waits)
      × (broadcast mutex t' msg m' v ≡ waits)
learn_host-stuck {M = M} mutex t t' m m' e e' s ip port msg w v took other fresh lost = (
  throws,
  unfold has_host in stuck (λ x u. returned (Mesh.has_host ip port u) x u),
  unfold get_host in stuck (λ x u. returned (Mesh.get_host ip port u) x u),
  unfold add_host in stuck (add_unknown mutex t' e' ip port),
  unfold broadcast in stuck (λ x u. returned tt x (Mesh.broadcast msg u)),
)
  where
    stuck : {A : Type 0} (f : M → World → Outcome M A) → guarded mutex t' f m' v ≡ waits
    stuck f = guarded_waits mutex t t' m m' f v took other

    throws : learn_host mutex t e s m w ≡ threw (thrown (codes "Couldn't resolve host")) m'
    throws =
        unfold learn_host in
        add_host-locked mutex t m m' e _ _ w took ∙ rw (add_host_unresolved e _ _ w fresh lost) refl
