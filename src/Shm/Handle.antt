-- ===== src/Shm/Handle.antt =====
-- SHMServer and SHMClient of src/utils/shm.cpp: how they open and drop the named objects of the system.
use libpubsub.Base.{
  Bool, Bytes, Option, [], codes, equal, if◌then◌else◌, none, some, suc, zero, ℕ, ◌++◌, ◌+◌, ◌∷◌,
}
use libpubsub.Text.Decimal.{show_ℕ, scan}
use libpubsub.World.{Result, ok, fault, null_pointer, thrown, update}

-- What the system holds under names: shared-memory objects, semaphores and files.
pub record Kernel : Type 0 where
  pub object : Bytes → Option ℕ
  pub contents : ℕ → Bytes
  pub semaphore : Bytes → Option ℕ
  pub count : ℕ → ℕ
  pub fresh : ℕ
  pub file : Bytes → Option Bytes

-- class SHMServer and class SHMClient, for which `memory` and the semaphores are addresses. `receives` says
-- that the thread that reads was launched.
pub record Handle : Type 0 where
  pub name : Bytes
  pub bufsize : ℕ
  pub memory : ℕ
  pub sem_read : ℕ
  pub sem_write : ℕ
  pub receives : Bool

-- A map from names changed at one name.
unfoldable pub set_name {ℓ} : {A : Type ℓ} → (Bytes → A) → Bytes → A → Bytes → A
unfolding equal
set_name f name v n = if equal name n then v else f n

abbrev pub read_name : Bytes → Bytes
read_name name = codes "/semread_" ++ name

abbrev pub write_name : Bytes → Bytes
write_name name = codes "/semwrite_" ++ name

abbrev pub object_name : Bytes → Bytes
object_name name = codes "/" ++ name

abbrev pub infos_name : Bytes → Bytes
infos_name name = codes "/tmp/shm_" ++ (name ++ codes "_infos")

-- sem_open with O_CREAT: the semaphore of the name, or a new one with the given value.
unfoldable pub sem_open : Bytes → ℕ → Kernel → ℕ × Kernel
unfolding set_name
sem_open name initial k = elim (k.semaphore name) [
  | some a ↦ (a, k)
  | none ↦ (
    k.fresh,
    record k {
      semaphore = set_name k.semaphore name (some k.fresh);
      count = update k.count k.fresh initial;
      fresh = suc k.fresh;
    },
  )
]

-- sem_unlink.
abbrev pub sem_unlink : Bytes → Kernel → Kernel
sem_unlink name k = record k { semaphore = set_name k.semaphore name none }

-- shm_open with O_CREAT.
unfoldable pub shm_open : Bytes → Kernel → ℕ × Kernel
unfolding set_name
shm_open name k = elim (k.object name) [
  | some a ↦ (a, k)
  | none ↦ (
    k.fresh,
    record k {
      object = set_name k.object name (some k.fresh);
      contents = update k.contents k.fresh [];
      fresh = suc k.fresh;
    },
  )
]

unfoldable pub zeros : ℕ → Bytes
zeros zero = []
zeros (suc n) = 0 ∷ zeros n

-- O_TRUNC and then ftruncate to `n` bytes.
abbrev pub truncate : ℕ → ℕ → Kernel → Kernel
truncate a n k = record k { contents = update k.contents a (zeros n) }

-- SHMServer::print_infos("%lu", bufsize).
abbrev pub print_infos : Bytes → ℕ → Kernel → Kernel
print_infos name bufsize k = record k {
  file = set_name k.file (infos_name name) (some (show_ℕ bufsize));
}

abbrev sem_post : ℕ → Kernel → Kernel
sem_post a k = record k { count = update k.count a (suc (k.count a)) }

-- SHMServer::SHMServer, which sets `bufsize` to 0, where the mapping succeeds. The memory has room for an
-- `int` behind the buffer.
unfoldable pub new_server : Bool → Bytes → Kernel → Handle × Kernel
new_server is_input name k =
    let (m, k1) = shm_open (object_name name) (print_infos name 0 k) in
    let k2 = sem_unlink (write_name name) (sem_unlink (read_name name) (truncate m (0 + 4) k1)) in
    let (r, k3) = sem_open (read_name name) 0 k2 in
    let (w, k4) = sem_open (write_name name) 0 k3 in
    (
      record {
        name = name;
        bufsize = 0;
        memory = m;
        sem_read = r;
        sem_write = w;
        receives = is_input;
      },
      sem_post w k4,
    )

-- SHMServer::~SHMServer.
unfoldable pub drop_server : Handle → Kernel → Kernel
unfolding set_name
drop_server h k = record k {
  object = set_name k.object (object_name h.name) none;
  semaphore = set_name (set_name k.semaphore (read_name h.name) none) (write_name h.name) none;
  file = set_name k.file (infos_name h.name) none;
}

-- SHMClient::SHMClient behind scan_infos. A mapping of no bytes fails.
unfoldable pub attach : ℕ → Bool → Bytes → Kernel → Result (Handle × Kernel)
attach zero is_input name k = fault (thrown (codes "mmap"))
attach (suc n) is_input name k =
    let (m, k1) = shm_open (object_name name) k in
    let (r, k2) = sem_open (read_name name) 0 k1 in
    let (w, k3) = sem_open (write_name name) 1 k2 in
    ok (
      record {
        name = name;
        bufsize = suc n;
        memory = m;
        sem_read = r;
        sem_write = w;
        receives = is_input;
      },
      k3,
    )

-- SHMClient::SHMClient. Where there is no file, scan_infos uses the null pointer of fopen.
unfoldable pub new_client : Bool → Bytes → Kernel → Result (Handle × Kernel)
unfolding attach scan
new_client is_input name k = elim (k.file (infos_name name)) [
  | none ↦ fault null_pointer
  | some text ↦ attach (scan 0 text) is_input name k
]
