-- ===== src/Protocols/Pipe.antt =====
-- ServerPipe and ClientPipe of src/protocols/pipe.h and pipe.cpp, and the stubs of src/protocols/rtc.cpp.
-- A parameter says whether open(2) opens the pipe.
use libpubsub.Base.{Bool, Bytes, List, [], codes, drop, if◌then◌else◌, length, ℕ, ℤ, ◌++◌, ◌∷◌}
use libpubsub.World.{Result, ok, fault, thrown}

-- What a pipe does with its file: it writes, its thread reads, or its thread has ended.
pub data Use : Type 0 where
  writing reading ended : Use

pub record Pipe : Type 0 where
  pub filename : Bytes
  pub bufsize : ℕ
  pub use_of : Use

abbrev pub pipe_name : Bytes → Bytes
pipe_name channel = codes "/tmp/" ++ (channel ++ codes ".pub")

-- ServerPipe::ServerPipe. Where the thread of an input cannot open the file it prints that and ends.
unfoldable pub new_server : Bool → Bytes → Bool → ℕ → Result Pipe
new_server opens channel is_input bufsize =
    let made : Use → Pipe =
      λ u. record { filename = pipe_name channel; bufsize = bufsize; use_of = u } in
    if is_input
    then ok (made (if opens then reading else ended))
    else if opens
    then ok (made writing)
    else fault (thrown (codes "Cannot open output file" ++ (b'\n' ∷ [])))

-- ClientPipe::ClientPipe.
unfoldable pub new_client : Bool → Bytes → Bool → ℕ → Result Pipe
new_client opens channel is_input bufsize =
    if opens
    then ok (record {
      filename = pipe_name channel;
      bufsize = bufsize;
      use_of = if is_input then reading else writing;
    })
    else fault (thrown (codes "Cannot open fifo" ++ (b'\n' ∷ [])))

-- What read(2) leaves in the buffer: the bytes read over its start. At the end of the file, and where
-- read fails, these are none.
abbrev pub filled : Bytes → Bytes → Bytes
filled got buf = got ++ drop (length got) buf

-- The loop of the thread, for the bytes of each read and the buffer at its start: what it hands to
-- on_receive, which is the whole buffer each time.
unfoldable pub read_loop : Bytes → List Bytes → List Bytes
read_loop buf [] = []
read_loop buf (got ∷ more) = filled got buf ∷ read_loop (filled got buf) more

-- ServerPipe::send and ClientPipe::send: what the file has of the pipe.
unfoldable pub send : Bytes → List Bytes → List Bytes
send msg sent = sent ++ (msg ∷ [])

-- ClientRTC::ClientRTC and ClientRTC::send.
abbrev pub rtc_client : Bytes → Bool → ℤ → Result Bool
rtc_client channel is_input port = fault (thrown (codes "Not Implemented"))

abbrev pub rtc_send : Bytes → Result Bool
rtc_send msg = fault (thrown (codes "Not Implemented"))
