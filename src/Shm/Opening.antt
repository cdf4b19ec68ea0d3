-- ===== src/Shm/Opening.antt =====
-- A client that opens a memory of src/utils/shm.cpp after its server.
use libpubsub.Base.{
  Bool, Bytes, [], ap, append-nil, arith, codes, length, none, refl, some, subst, suc, zero, ℕ, ◌∙◌,
  ◌≡◌,
}
use libpubsub.Text.Decimal.{show_ℕ, scan, scan-show_ℕ}
use libpubsub.World.{fault, thrown, update}
use libpubsub.Shm.Handle.{
  Kernel, Handle, set_name, read_name, write_name, object_name, infos_name, sem_open, sem_unlink,
  shm_open, truncate, print_infos, zeros, new_server, attach, new_client,
}
use libpubsub.Shm.Names.{
  set_name_same, set_name_other, read_write, write_read, sem_open-none, Names, shm_open-Names,
}

-- The two semaphores that a server makes behind sem_unlink.
abbrev unlinked : Bytes → Kernel → Kernel
unlinked name k = sem_unlink (write_name name) (sem_unlink (read_name name) k)

abbrev paired : Bytes → Kernel → Kernel
paired name k = record k {
  semaphore =
      set_name (set_name (unlinked name k).semaphore (read_name name) (some k.fresh))
        (write_name name) (some (suc k.fresh));
  count = update (update k.count k.fresh 0) (suc k.fresh) 0;
  fresh = suc (suc k.fresh);
}

abbrev first : Bytes → Kernel → Kernel
first name k = record (unlinked name k) {
  semaphore = set_name (unlinked name k).semaphore (read_name name) (some k.fresh);
  count = update k.count k.fresh 0;
  fresh = suc k.fresh;
}

sem_open-first :
    (name : Bytes) (k : Kernel)
    → sem_open (read_name name) 0 (unlinked name k) ≡ (k.fresh, first name k)
sem_open-first name k = sem_open-none (read_name name) 0 (unlinked name k) (
    set_name_other (set_name k.semaphore (read_name name) none) (write_name name) (read_name name)
      none (write_read name)
    ∙ set_name_same k.semaphore (read_name name) none)

sem_open-second :
    (name : Bytes) (k : Kernel)
    → sem_open (write_name name) 0 (first name k) ≡ (suc k.fresh, paired name k)
sem_open-second name k = sem_open-none (write_name name) 0 (first name k) (
    set_name_other (unlinked name k).semaphore (read_name name) (write_name name) (some k.fresh)
      (read_write name)
    ∙ set_name_same (set_name k.semaphore (read_name name) none) (write_name name) none)

-- The system and the memory's address before a server makes its semaphores.
abbrev object_at : Bytes → Kernel → ℕ
object_at name k = (shm_open (object_name name) (print_infos name 0 k)).0

abbrev sized : Bytes → Kernel → Kernel
sized name k =
    truncate (object_at name k) (4) (shm_open (object_name name) (print_infos name 0 k)).1

abbrev posted : Bytes → Kernel → Kernel
posted name k = record (paired name k) {
  count = update (paired name k).count (suc k.fresh) (suc ((paired name k).count (suc k.fresh)));
}

abbrev handle_of : Bool → Bytes → Kernel → Handle
handle_of receives name k = record {
  name = name;
  bufsize = 0;
  memory = object_at name k;
  sem_read = (sized name k).fresh;
  sem_write = suc (sized name k).fresh;
  receives = receives;
}

new_server-lem :
    (is_input : Bool) (name : Bytes) (k : Kernel)
    → new_server is_input name k ≡ (handle_of is_input name k, posted name (sized name k))
unfolding new_server
new_server-lem is_input name k =
    rw (sem_open-first name (sized name k), sem_open-second name (sized name k)) refl

new_client-some :
    (is_input : Bool) (name text : Bytes) (n : ℕ) (k : Kernel)
    → k.file (infos_name name) ≡ some text
    → scan 0 text ≡ n
    → new_client is_input name k ≡ attach n is_input name k
unfolding new_client
new_client-some is_input name text n k e f = rw (e, new_client, f)

length-zeros : (n : ℕ) → length (zeros n) ≡ n
unfolding zeros
length-zeros zero = refl
length-zeros (suc n) = ap suc (length-zeros n)

scan-show : (n : ℕ) → scan 0 (show_ℕ n) ≡ n
scan-show n = subst (λ s. scan 0 s ≡ n) (append-nil (show_ℕ n)) (scan-show_ℕ n [] tt)

-- The state that a server leaves, seen through the names.
module _ (name : Bytes) (k : Kernel) where
  names :
      Names
        (object_name name)
        (print_infos name 0 k)
        (object_at name k)
        (shm_open (object_name name) (print_infos name 0 k)).1
  names = shm_open-Names (object_name name) (print_infos name 0 k)

  file_found : (posted name (sized name k)).file (infos_name name) ≡ some (show_ℕ 0)
  file_found = rw names.same_file (set_name_same k.file (infos_name name) (some (show_ℕ 0)))

  counts :
      ((posted name (sized name k)).count (sized name k).fresh ≡ 0)
      × ((posted name (sized name k)).count (suc (sized name k).fresh) ≡ 1)
  counts = (ground arith, ground arith)

  size_made : length ((posted name (sized name k)).contents (object_at name k)) ≡ 4
  size_made =
      let own : update (shm_open (object_name name) (print_infos name 0 k)).1.contents
            (object_at name k) (zeros (4)) (object_at name k)
          ≡ zeros (4) =
        ground arith in
      rw own (length-zeros (4))

-- Behind the constructor of a server a write may begin on its memory, there is nothing to read, and the
-- memory, whose buffer has no byte, holds four bytes. The constructor of a client for the name then
-- throws, whichever of the two receive.
pub opening :
    (input output : Bool) (name : Bytes) (k : Kernel)
    → let (h, k') = new_server input name k in
      (k'.count h.sem_read ≡ 0)
      × (k'.count h.sem_write ≡ 1)
      × (length (k'.contents h.memory) ≡ 4)
      × (new_client output name k' ≡ fault (thrown (codes "mmap")))
opening input output name k = rw (new_server-lem input name k) (
  (counts name k).0,
  (counts name k).1,
  size_made name k,
  new_client-some output name (show_ℕ 0) 0 (posted name (sized name k)) (file_found name k)
        (scan-show 0)
      ∙ (unfold attach in refl),
)
