-- ===== src/Shm/Progress.antt =====
-- The threads of src/utils/shm.cpp do not block each other for ever.
use libpubsub.Base.{
  Bool, Bytes, List, [], ap, append-nil, append_assoc, arith, false, not, refl, subst, suc, sym,
  true, ℕ, ◌++◌, ◌∙◌, ◌≡◌,
}
use libpubsub.World.{update}
use libpubsub.Shm.{
  Semaphore, write_bytes, write_memory, read_bytes, on_server, read_memory, Call, on_client, method,
  body_of,
}
use libpubsub.Shm.Slot.{
  Thread, idle, calling, inside, leaving, Slot, call, wait, work, post, Reach, here, next, fresh,
  set_thread, set_value, value, act,
}
use libpubsub.Shm.Phase.{Phase, free, full, busy, Inv, is_writer, at}
use libpubsub.Shm.Exclusion.{left, waits, posts_lem, work-Inv, post-Inv, Reach-Stays}
use libpubsub.Shm.Acts.{action-Acts}
use libpubsub.Shm.Delivery.{Mail-order, one_or_none}

Reach-trans : {s t u : Slot} → Reach s t → Reach t u → Reach s u
Reach-trans r here = r
Reach-trans r (next q st) = next (Reach-trans r q) st

-- A run from `s` ends with the memory free and every message seen; a write that was under way may have
-- added its own.
abbrev pub Drains : Slot → Type 0
Drains s =
    (t : Slot) × Reach s t
    × (t.readable ≡ 0)
    × (t.writable ≡ 1)
    × (t.written ≡ t.taken)
    × ((more : List Bytes) × (t.written ≡ s.written ++ more))

Drains-free : (s : Slot) → Inv free s → Drains s
Drains-free s v = (
  s,
  here,
  v.reads,
  v.writes,
  Mail-order v.log ∙ (unfold one_or_none in append-nil s.taken),
  ([], sym (append-nil s.written)),
)

-- A reader takes the message that waits.
Drains-full : (j : ℕ) (s : Slot) → Inv full s → s.thread j ≡ idle → Drains s
Drains-full j s v e =
    let c = on_client read_memory in
    let s1 = set_thread j (calling c) s in
    let s2 = set_thread j (inside c) (record s1 { readable = 0 }) in
    let s3 = set_thread j (leaving c) (act (body_of c).action s2) in
    let s4 = set_thread j idle (record s3 { writable = suc s3.writable }) in
    let r1 : Reach s s1 = next here (call j c e) in
    let r2 : Reach s s2 = next r1 (wait j 0 c (ground arith) v.reads) in
    let r3 : Reach s s3 = next r2 (work j c (ground arith)) in
    let r4 : Reach s s4 = next r3 (post j c (ground arith)) in
    (
      s4,
      r4,
      refl,
      ap suc v.writes,
      Mail-order v.log ∙ (unfold one_or_none in refl),
      ([], sym (append-nil s.written)),
    )

Drains-after :
    (s t : Slot) (rest : List Bytes)
    → Reach s t
    → t.written ≡ s.written ++ rest
    → Drains t
    → Drains s
Drains-after s t rest r e (u, q, a, b, c, (more, f)) =
    (u, Reach-trans r q, a, b, c, (rest ++ more, f ∙ rw e (append_assoc s.written rest more)))

still_idle :
    (i j : ℕ) (c : Call) (done : Bool) (t : Thread) (f : ℕ → Thread)
    → f i ≡ at c done
    → f j ≡ idle
    → update f i t j ≡ idle
still_idle i j c false t f e k = ground arith
still_idle i j c true t f e k = ground arith

Drains-posted :
    (i j : ℕ) (b : Bool) (s : Slot)
    → Inv (left b) (set_thread i idle (set_value (waits (not b)) (suc (value (waits (not b)) s)) s))
    → update s.thread i idle j ≡ idle
    → ((set_value (waits (not b)) (suc (value (waits (not b)) s)) s).written ≡ s.written ++ [])
      × Drains (set_thread i idle (set_value (waits (not b)) (suc (value (waits (not b)) s)) s))
unfolding left
Drains-posted i j true s v e = (sym (append-nil s.written), Drains-full j _ v e)
Drains-posted i j false s v e = (sym (append-nil s.written), Drains-free _ v)

Drains-leaving :
    (i j : ℕ) (c : Call) (s : Slot) → Inv (busy i c true) s → s.thread j ≡ idle → Drains s
Drains-leaving i j c s v e =
    let b = is_writer (method c) in
    let posted = λ (k : Semaphore). set_thread i idle (set_value k (suc (value k s)) s) in
    let t = posted (waits (not b)) in
    let r : Reach s t =
      subst (λ k. Reach s (posted k)) (posts_lem c) (next here (post i c v.owner)) in
    let (same, drains) =
      Drains-posted i j b s (post-Inv i c b s refl v)
        (still_idle i j c true idle s.thread v.owner e) in
    Drains-after s t [] r same drains

act-written :
    (c : Call) (s : Slot)
    → (rest : List Bytes) × ((act (body_of c).action s).written ≡ s.written ++ rest)
act-written (on_server (write_bytes b)) s = (_, refl)
act-written (on_server write_memory) s = (_, refl)
act-written (on_server read_memory) s = ([], sym (append-nil s.written))
act-written (on_server (read_bytes n)) s = ([], sym (append-nil s.written))
act-written (on_client (write_bytes b)) s = (_, refl)
act-written (on_client write_memory) s = (_, refl)
act-written (on_client read_memory) s = ([], sym (append-nil s.written))
act-written (on_client (read_bytes n)) s = ([], sym (append-nil s.written))

Drains-inside :
    (i j : ℕ) (c : Call) (s : Slot) → Inv (busy i c false) s → s.thread j ≡ idle → Drains s
Drains-inside i j c s v e =
    let u = act (body_of c).action s in
    let acts = action-Acts c s in
    let t = set_thread i (leaving c) u in
    let (rest, same) = act-written c s in
    let idle_j : t.thread j ≡ idle =
      ap (λ f. update f i (leaving c) j) acts.same_thread
      ∙ still_idle i j c false (leaving c) s.thread v.owner e in
    Drains-after s t rest (next here (work i c v.owner)) same
      (Drains-leaving i j c t (work-Inv i c s u v acts) idle_j)

-- In every state that the threads can reach, a run from there ends with the memory free for the next
-- write and with every message that was written seen by a read, as long as one thread is outside
-- its calls: it reads what is left. No state is a deadlock.
pub drains :
    {memory : Bytes} {s : Slot} → Reach (fresh memory) s → (j : ℕ) → s.thread j ≡ idle → Drains s
drains {memory} {s} r j e = let (p, v) = Reach-Stays r in by_phase p v
  where
    by_phase : (p : Phase) → Inv p s → Drains s
    by_phase free v = Drains-free s v
    by_phase full v = Drains-full j s v e
    by_phase (busy i c false) v = Drains-inside i j c s v e
    by_phase (busy i c true) v = Drains-leaving i j c s v e
