-- ===== src/Shm.antt =====
-- The shared-memory transport of src/utils/shm.h and shm.cpp, and its use in src/protocols/shm.h: one
-- memory of a fixed size between processes, with two named semaphores.
pub mod Handle
pub mod Names
pub mod Opening
pub mod Slot
pub mod Phase
pub mod Acts
pub mod Exclusion
pub mod Delivery
pub mod Progress
use libpubsub.Base.{Bytes, ℕ}

-- semRead and semWrite.
pub data Semaphore : Type 0 where
  sem_read sem_write : Semaphore

-- The overloads of `write` and `read`.
pub data Method : Type 0 where
  write_bytes : Bytes → Method
  write_memory read_memory : Method
  read_bytes : ℕ → Method

-- What stands between the two semaphore calls of a method: a memcpy into the memory, nothing, the call of
-- on_receive on the whole memory, or a memcpy out of it.
pub data Action : Type 0 where
  copy_in : Bytes → Action
  nothing receive : Action
  copy_out : ℕ → Action

-- The body of a method: sem_wait, the action, sem_post.
pub record Body : Type 0 where
  pub waits_on : Semaphore
  pub action : Action
  pub posts_to : Semaphore

abbrev body : Semaphore → Action → Semaphore → Body
body waits action posts = record { waits_on = waits; action = action; posts_to = posts }

-- SHMServer::write and SHMServer::read.
abbrev pub server_body : Method → Body
server_body (write_bytes buf) = body sem_write (copy_in buf) sem_read
server_body write_memory = body sem_write nothing sem_read
server_body read_memory = body sem_read receive sem_write
server_body (read_bytes len) = body sem_read (copy_out len) sem_write

-- SHMClient::write and SHMClient::read.
abbrev pub client_body : Method → Body
client_body (write_bytes buf) = body sem_write (copy_in buf) sem_read
client_body write_memory = body sem_write nothing sem_read
client_body read_memory = body sem_read receive sem_write
client_body (read_bytes len) = body sem_read (copy_out len) sem_write

-- A call on one of the two classes.
pub data Call : Type 0 where
  on_server on_client : Method → Call

abbrev pub method : Call → Method
method (on_server m) = m
method (on_client m) = m

abbrev pub body_of : Call → Body
body_of (on_server m) = server_body m
body_of (on_client m) = client_body m
