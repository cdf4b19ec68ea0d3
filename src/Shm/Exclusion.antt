-- ===== src/Shm/Exclusion.antt =====
-- Every step of the threads of src/utils/shm.cpp keeps the invariant.
use libpubsub.Base.{
  Bool, Bytes, ap, arith, false, if◌then◌else◌, not, refl, subst, suc, true, ℕ, ◌∙◌, ◌≡◌, ◌≢◌,
}
use libpubsub.World.{update}
use libpubsub.Shm.{
  Semaphore, sem_read, sem_write, write_bytes, write_memory, read_memory, read_bytes, Call,
  on_server, on_client, method, body_of,
}
use libpubsub.Shm.Slot.{
  Thread, idle, calling, inside, leaving, Slot, value, set_value, set_thread, act, Step, call, wait,
  work, post, Reach, here, next, fresh,
}
use libpubsub.Shm.Phase.{
  is_writer, empty, Phase, free, full, busy, Outside, rests, calls, Owns, Inv, Outside-update,
  owner_of, no_reads,
}
use libpubsub.Shm.Acts.{Acts, action-Acts}

abbrev Stays : Slot → Type 0
Stays s = (p : Phase) × Inv p s

call-Inv :
    (i : ℕ) (c : Call) (p : Phase) (s : Slot)
    → Inv p s
    → s.thread i ≡ idle
    → Inv p (set_thread i (calling c) s)
call-Inv i c p s v e = record {
  reads = v.reads;
  writes = v.writes;
  owner = keeps p v.owner;
  others = λ j away. Outside-update i j (calling c) s.thread (calls c) (λ d. v.others j away);
  log = v.log;
  prefixes = v.prefixes;
}
  where
    keeps : (q : Phase) → Owns q s.thread → Owns q (update s.thread i (calling c))
    keeps free o = tt
    keeps full o = tt
    keeps (busy k d false) o = ground arith
    keeps (busy k d true) o = ground arith

-- The semaphore on which a call waits, and the one to which it posts.
abbrev pub waits : Bool → Semaphore
waits true = sem_write
waits false = sem_read

waits_lem : (c : Call) → (body_of c).waits_on ≡ waits (is_writer (method c))
waits_lem (on_server (write_bytes b)) = refl
waits_lem (on_server write_memory) = refl
waits_lem (on_server read_memory) = refl
waits_lem (on_server (read_bytes n)) = refl
waits_lem (on_client (write_bytes b)) = refl
waits_lem (on_client write_memory) = refl
waits_lem (on_client read_memory) = refl
waits_lem (on_client (read_bytes n)) = refl

pub posts_lem : (c : Call) → (body_of c).posts_to ≡ waits (not (is_writer (method c)))
posts_lem (on_server (write_bytes b)) = refl
posts_lem (on_server write_memory) = refl
posts_lem (on_server read_memory) = refl
posts_lem (on_server (read_bytes n)) = refl
posts_lem (on_client (write_bytes b)) = refl
posts_lem (on_client write_memory) = refl
posts_lem (on_client read_memory) = refl
posts_lem (on_client (read_bytes n)) = refl

-- A thread passes sem_wait only where nobody owns the memory.
entry :
    (n : ℕ) (b : Bool) (p : Phase) (s : Slot)
    → Inv p s
    → value (waits b) s ≡ suc n
    → (n ≡ 0) × (p ≡ (if b then free else full))
entry n true free s v e = let w = v.writes in (omega arith, refl)
entry n true full s v e = let w = v.writes in absurd (omega arith)
entry n true (busy i c d) s v e = let w = v.writes in absurd (omega arith)
entry n false free s v e = let w = v.reads in absurd (omega arith)
entry n false full s v e = let w = v.reads in (omega arith, refl)
entry n false (busy i c d) s v e = let w = v.reads in absurd (omega arith)

enter-Inv :
    (i : ℕ) (c : Call) (b : Bool) (s : Slot)
    → is_writer (method c) ≡ b
    → Inv (if b then free else full) s
    → Inv (busy i c false) (set_thread i (inside c) (set_value (waits b) 0 s))
enter-Inv i c true s w v = record {
  reads = v.reads;
  writes = refl;
  owner = ground arith;
  others = λ j away. Outside-update' j away;
  log = rw w v.log;
  prefixes = v.prefixes;
}
  where
    Outside-update' : (j : ℕ) → j ≢ i → Outside (update s.thread i (inside c) j)
    Outside-update' j d =
        let old : update s.thread i (inside c) j ≡ s.thread j = ground (arith, d) in
        rw old (v.others j tt)
enter-Inv i c false s w v = record {
  reads = refl;
  writes = v.writes;
  owner = ground arith;
  others = λ j away. Outside-update' j away;
  log = rw w v.log;
  prefixes = v.prefixes;
}
  where
    Outside-update' : (j : ℕ) → j ≢ i → Outside (update s.thread i (inside c) j)
    Outside-update' j d =
        let old : update s.thread i (inside c) j ≡ s.thread j = ground (arith, d) in
        rw old (v.others j tt)

wait-Stays :
    (i n : ℕ) (c : Call) (b : Bool) (p : Phase) (s : Slot)
    → is_writer (method c) ≡ b
    → Inv p s
    → s.thread i ≡ calling c
    → value (waits b) s ≡ suc n
    → Stays (set_thread i (inside c) (set_value (waits b) n s))
wait-Stays i n c b p s w v e up =
    let (zero_left, p_is) = entry n b p s v up in
    let v' = subst (λ q. Inv q s) p_is v in (busy i c false, rw zero_left (enter-Inv i c b s w v'))

away-update :
    (i : ℕ) (t : Thread) (f g : ℕ → Thread) (j : ℕ)
    → g ≡ f
    → j ≢ i
    → Outside (f j)
    → Outside (update g i t j)
away-update i t f g j e d o = let old : update g i t j ≡ g j = ground (arith, d) in rw (old, e) o

pub work-Inv :
    (i : ℕ) (c : Call) (s t : Slot)
    → Inv (busy i c false) s
    → Acts c s t
    → Inv (busy i c true) (set_thread i (leaving c) t)
work-Inv i c s t v a = record {
  reads = a.same_readable ∙ v.reads;
  writes = a.same_writable ∙ v.writes;
  owner = ground arith;
  others = λ j d. away-update i (leaving c) s.thread t.thread j a.same_thread d (v.others j d);
  log = a.log_after v.log;
  prefixes = a.prefixes_after v.prefixes;
}

-- Behind sem_post the memory is free again, or holds a message for the next reader.
unfoldable pub left : Bool → Phase
left true = full
left false = free

pub post-Inv :
    (i : ℕ) (c : Call) (b : Bool) (s : Slot)
    → is_writer (method c) ≡ b
    → Inv (busy i c true) s
    → Inv (left b) (set_thread i idle (set_value (waits (not b)) (suc (value (waits (not b)) s)) s))
unfolding left
post-Inv i c true s w v = record {
  reads = ap suc v.reads;
  writes = v.writes;
  owner = tt;
  others = λ j away. Outside-update i j idle s.thread rests (λ d. v.others j d);
  log = rw w at v.log;
  prefixes = v.prefixes;
}
post-Inv i c false s w v = record {
  reads = v.reads;
  writes = ap suc v.writes;
  owner = tt;
  others = λ j away. Outside-update i j idle s.thread rests (λ d. v.others j d);
  log = rw w at v.log;
  prefixes = v.prefixes;
}

Step-Stays : {s t : Slot} → Step s t → Stays s → Stays t
Step-Stays {s} (call i c e) (p, v) = (p, call-Inv i c p s v e)
Step-Stays {s} (wait i n c e up) (p, v) = rw (waits_lem c) (
    wait-Stays i n c (is_writer (method c)) p s refl v e
      (subst (λ k. value k s ≡ suc n) (waits_lem c) up))
Step-Stays {s} (work i c e) (p, v) =
    let v' = subst (λ q. Inv q s) (owner_of i c false p s v e) v in
    (busy i c true, work-Inv i c s (act (body_of c).action s) v' (action-Acts c s))
Step-Stays {s} (post i c e) (p, v) =
    let v' = subst (λ q. Inv q s) (owner_of i c true p s v e) v in
    (left (is_writer (method c)), rw (posts_lem c) (post-Inv i c (is_writer (method c)) s refl v'))

fresh-Inv : (memory : Bytes) → Inv free (fresh memory)
fresh-Inv memory = record {
  reads = refl;
  writes = refl;
  owner = tt;
  others = λ j away. rests;
  log = empty;
  prefixes = no_reads;
}

pub Reach-Stays : {memory : Bytes} {s : Slot} → Reach (fresh memory) s → (p : Phase) × Inv p s
Reach-Stays {memory} here = (free, fresh-Inv memory)
Reach-Stays (next r st) = Step-Stays st (Reach-Stays r)
