-- ===== src/Shm/Acts.antt =====
-- What the actions of src/utils/shm.cpp do to the memory and the histories.
use libpubsub.Base.{
  Bytes, [], ap, false, if◌then◌else◌, length, none, not, refl, some, subst, take, true, ℕ, ◌++◌,
  ◌∷◌, ◌≡◌,
}
use libpubsub.Shm.{
  write_bytes, write_memory, read_memory, read_bytes, Call, on_server, on_client, method, body_of,
  copy_in, nothing, receive, copy_out,
}
use libpubsub.Shm.Slot.{Slot, act}
use libpubsub.Shm.Phase.{is_writer, Mail, put, get, Prefixes, one_more}

-- What an action does to the memory and the histories.
pub record Acts (c : Call) (s t : Slot) : Type 0 where
  pub same_readable : t.readable ≡ s.readable
  pub same_writable : t.writable ≡ s.writable
  pub same_thread : t.thread ≡ s.thread
  pub log_after :
      Mail (if not (is_writer (method c)) then some s.memory else none) s.written s.taken
      → Mail (if is_writer (method c) then some t.memory else none) t.written t.taken
  pub prefixes_after : Prefixes s.handed s.taken → Prefixes t.handed t.taken

copy_in-Acts :
    (c : Call) (buf : Bytes) (s : Slot)
    → is_writer (method c) ≡ true
    → Acts c s (act (copy_in buf) s)
copy_in-Acts c buf s w = record {
  same_readable = refl;
  same_writable = refl;
  same_thread = refl;
  log_after = rw w (λ e. put e);
  prefixes_after = λ e. e;
}

nothing-Acts : (c : Call) (s : Slot) → is_writer (method c) ≡ true → Acts c s (act nothing s)
nothing-Acts c s w = record {
  same_readable = refl;
  same_writable = refl;
  same_thread = refl;
  log_after = rw w (λ e. put e);
  prefixes_after = λ e. e;
}

take_all : (m : Bytes) → take (length m) m ≡ m
take_all [] = refl
take_all (c ∷ m) = ap (λ x. c ∷ x) (take_all m)

receive-Acts : (c : Call) (s : Slot) → is_writer (method c) ≡ false → Acts c s (act receive s)
receive-Acts c s w = record {
  same_readable = refl;
  same_writable = refl;
  same_thread = refl;
  log_after = rw w (λ e. get e);
  prefixes_after = λ e.
      subst (λ m. Prefixes (s.handed ++ (m ∷ [])) (s.taken ++ (s.memory ∷ []))) (take_all s.memory)
        (one_more (length s.memory) s.memory e);
}

copy_out-Acts :
    (c : Call) (len : ℕ) (s : Slot) → is_writer (method c) ≡ false → Acts c s (act (copy_out len) s)
copy_out-Acts c len s w = record {
  same_readable = refl;
  same_writable = refl;
  same_thread = refl;
  log_after = rw w (λ e. get e);
  prefixes_after = λ e. one_more len s.memory e;
}

pub action-Acts : (c : Call) (s : Slot) → Acts c s (act (body_of c).action s)
action-Acts (on_server (write_bytes b)) s = copy_in-Acts (on_server (write_bytes b)) b s refl
action-Acts (on_server write_memory) s = nothing-Acts (on_server write_memory) s refl
action-Acts (on_server read_memory) s = receive-Acts (on_server read_memory) s refl
action-Acts (on_server (read_bytes n)) s = copy_out-Acts (on_server (read_bytes n)) n s refl
action-Acts (on_client (write_bytes b)) s = copy_in-Acts (on_client (write_bytes b)) b s refl
action-Acts (on_client write_memory) s = nothing-Acts (on_client write_memory) s refl
action-Acts (on_client read_memory) s = receive-Acts (on_client read_memory) s refl
action-Acts (on_client (read_bytes n)) s = copy_out-Acts (on_client (read_bytes n)) n s refl
