-- ===== src/Shm/Names.antt =====
-- What the calls that open a name do to the other names of the system, for src/utils/shm.cpp.
use libpubsub.Base.{
  Bytes, Option-cases, [], equal, equal_refl, false, inl, inr, none, refl, some, suc, ℕ, ◌≡◌,
}
use libpubsub.World.{update}
use libpubsub.Shm.Handle.{Kernel, set_name, read_name, write_name, sem_open, shm_open}

module _ {ℓ} {A : Type ℓ} where
  pub set_name_same : (f : Bytes → A) (n : Bytes) (v : A) → set_name f n v n ≡ v
  unfolding set_name
  set_name_same f n v = rw (equal_refl n)

  pub set_name_other :
      (f : Bytes → A) (n m : Bytes) (v : A) → equal n m ≡ false → set_name f n v m ≡ f m
  unfolding set_name
  set_name_other f n m v e = rw e

pub read_write : (name : Bytes) → equal (read_name name) (write_name name) ≡ false
unfolding equal
read_write name = refl

pub write_read : (name : Bytes) → equal (write_name name) (read_name name) ≡ false
unfolding equal
write_read name = refl

pub sem_open-some :
    (name : Bytes) (initial a : ℕ) (k : Kernel)
    → k.semaphore name ≡ some a
    → sem_open name initial k ≡ (a, k)
unfolding sem_open
sem_open-some name initial a k e = rw (e, sem_open)

pub sem_open-none :
    (name : Bytes) (initial : ℕ) (k : Kernel)
    → k.semaphore name ≡ none
    → sem_open name initial k ≡ (
      k.fresh,
      record k {
        semaphore = set_name k.semaphore name (some k.fresh);
        count = update k.count k.fresh initial;
        fresh = suc k.fresh;
      },
    )
unfolding sem_open
sem_open-none name initial k e = rw (e, sem_open)

pub shm_open-some :
    (name : Bytes) (a : ℕ) (k : Kernel) → k.object name ≡ some a → shm_open name k ≡ (a, k)
unfolding shm_open
shm_open-some name a k e = rw (e, shm_open)

shm_open-none :
    (name : Bytes) (k : Kernel)
    → k.object name ≡ none
    → shm_open name k ≡ (
      k.fresh,
      record k {
        object = set_name k.object name (some k.fresh);
        contents = update k.contents k.fresh [];
        fresh = suc k.fresh;
      },
    )
unfolding shm_open
shm_open-none name k e = rw (e, shm_open)

-- What shm_open leaves as it was, and that the name is taken afterwards.
pub record Names (name : Bytes) (k : Kernel) (m : ℕ) (k' : Kernel) : Type 0 where
  pub found : k'.object name ≡ some m
  pub same_file : k'.file ≡ k.file

pub shm_open-Names :
    (name : Bytes) (k : Kernel) → Names name k (shm_open name k).0 (shm_open name k).1
shm_open-Names name k = elim (Option-cases (k.object name)) [
  | inl e ↦
      rw (shm_open-none name k e)
        (record { found = set_name_same k.object name (some k.fresh); same_file = refl })
  | inr (a, e) ↦ rw (shm_open-some name a k e) (record { found = e; same_file = refl })
]
