-- ===== src/Shm/Slot.antt =====
-- The threads that call `write` and `read` of src/utils/shm.cpp on one memory, interleaved in any order.
use libpubsub.Base.{Bytes, List, [], drop, length, suc, take, ℕ, ◌++◌, ◌∷◌, ◌≡◌}
use libpubsub.World.{update}
use libpubsub.Shm.{
  Semaphore, sem_read, sem_write, Action, copy_in, nothing, receive, copy_out, Call, body_of,
}

-- A thread outside a call, in a call that has not passed sem_wait, behind it, and before sem_post.
pub data Thread : Type 0 where
  idle : Thread
  calling inside leaving : Call → Thread

-- The values of the semaphores, the memory and the threads. Three histories go with them, oldest first: the contents of
-- the memory as each write left it, as each read found it, and what each read copied out or, for a read that
-- hands over the memory itself, what stands there.
pub record Slot : Type 0 where
  pub readable : ℕ
  pub writable : ℕ
  pub memory : Bytes
  pub thread : ℕ → Thread
  pub written : List Bytes
  pub taken : List Bytes
  pub handed : List Bytes

abbrev pub value : Semaphore → Slot → ℕ
value sem_read s = s.readable
value sem_write s = s.writable

abbrev pub set_value : Semaphore → ℕ → Slot → Slot
set_value sem_read n s = record s { readable = n }
set_value sem_write n s = record s { writable = n }

abbrev pub set_thread : ℕ → Thread → Slot → Slot
set_thread i t s = record s { thread = update s.thread i t }

-- memcpy to the start of the memory, which nothing checks: the bytes of a longer buffer go on past its end.
abbrev pub overwrite : Bytes → Bytes → Bytes
overwrite buf memory = buf ++ drop (length buf) memory

abbrev pub act : Action → Slot → Slot
act (copy_in buf) s = record s {
  memory = overwrite buf s.memory;
  written = s.written ++ (overwrite buf s.memory ∷ []);
}
act nothing s = record s { written = s.written ++ (s.memory ∷ []) }
act receive s = record s {
  taken = s.taken ++ (s.memory ∷ []);
  handed = s.handed ++ (s.memory ∷ []);
}
act (copy_out len) s = record s {
  taken = s.taken ++ (s.memory ∷ []);
  handed = s.handed ++ (take len s.memory ∷ []);
}

-- One step of one thread.
pub data Step (s : Slot) : Slot → Type 0 where
  call : (i : ℕ) (c : Call) → s.thread i ≡ idle → Step s (set_thread i (calling c) s)
  wait :
      (i n : ℕ) (c : Call)
      → s.thread i ≡ calling c
      → value (body_of c).waits_on s ≡ suc n
      → Step s (set_thread i (inside c) (set_value (body_of c).waits_on n s))
  work :
      (i : ℕ) (c : Call)
      → s.thread i ≡ inside c
      → Step s (set_thread i (leaving c) (act (body_of c).action s))
  post :
      (i : ℕ) (c : Call)
      → s.thread i ≡ leaving c
      → Step s (
          set_thread i idle (set_value (body_of c).posts_to (suc (value (body_of c).posts_to s)) s))

pub data Reach (s : Slot) : Slot → Type 0 where
  here : Reach s s
  next : {t u : Slot} → Reach s t → Step t u → Reach s u

-- The memory as SHMServer::SHMServer leaves it: nobody calls, and a write may begin.
abbrev pub fresh : Bytes → Slot
fresh memory = record {
  readable = 0;
  writable = 1;
  memory = memory;
  thread = λ i. idle;
  written = [];
  taken = [];
  handed = [];
}
