-- ===== src/Tests/Memory.antt =====
-- Tests of the memory that processes share.
use libpubsub.Base.{Bytes, [], arith, codes, false, length, none, refl, true, ◌∷◌, ◌≡◌}
use libpubsub.World.{fault, thrown}
use libpubsub.Shm.{
  sem_read, sem_write, copy_in, receive, Call, on_server, on_client, write_bytes, read_memory,
}
use libpubsub.Shm.Handle.{Kernel, new_server, new_client}
use libpubsub.Shm.Opening.{opening}
use libpubsub.Shm.Slot.{
  Slot, idle, Reach, here, next, call, wait, work, fresh, calling, inside, leaving, set_thread,
  set_value, act,
}
use libpubsub.Shm.Delivery.{is_inside, mutual_exclusion}
use libpubsub.Shm.Progress.{Drains, drains}

-- A system with no names.
abbrev blank : Kernel
blank = record {
  object = λ n. none;
  contents = λ a. [];
  semaphore = λ n. none;
  count = λ a. 0;
  fresh = 0;
  file = λ n. none;
}

opening_example :
    let (h, k') = new_server true (codes "video") blank in
    (k'.count h.sem_read ≡ 0)
    × (k'.count h.sem_write ≡ 1)
    × (length (k'.contents h.memory) ≡ 4)
    × (new_client false (codes "video") k' ≡ fault (thrown (codes "mmap")))
opening_example = opening true false (codes "video") blank

abbrev two_zeros : Bytes
two_zeros = 0 ∷ 0 ∷ []

abbrev writes : Call
writes = on_server (write_bytes (7 ∷ []))

abbrev reads : Call
reads = on_client read_memory

-- The server begins a write while a client waits to read.
abbrev called : Slot
called = set_thread 1 (calling reads) (set_thread 0 (calling writes) (fresh two_zeros))

abbrev writing : Slot
writing = set_thread 0 (inside writes) (set_value sem_write 0 called)

writing_reached : Reach (fresh two_zeros) writing
writing_reached =
    next (next (next here (call 0 writes refl)) (call 1 reads refl)) (wait 0 0 writes refl refl)

server_inside : is_inside (writing.thread 0) ≡ true
unfolding is_inside
server_inside = refl

mutual_exclusion_example : is_inside (writing.thread 1) ≡ false
mutual_exclusion_example = mutual_exclusion writing_reached 0 1 (omega arith) server_inside

-- The write is done, and the client has read.
abbrev copied : Slot
copied = set_thread 0 (leaving writes) (act (copy_in (7 ∷ [])) writing)

abbrev posted : Slot
posted = set_thread 0 idle (set_value sem_read 1 copied)

abbrev reading : Slot
reading = set_thread 1 (inside reads) (set_value sem_read 0 posted)

abbrev seen : Slot
seen = set_thread 1 (leaving reads) (act receive reading)

copied_reached : Reach (fresh two_zeros) copied
copied_reached = next writing_reached (work 0 writes refl)

drains_example : Drains copied
drains_example = drains copied_reached 2 refl
