-- ===== src/Programs/Dump.antt =====
-- pubsub_dump of src/bin, with dump_hosts of src/mesh.cpp and dump_channels of src/channel.cpp: what they
-- print, at a debug level.
use libpubsub.Base.{Bytes, List, [], codes, if◌then◌else◌, refl, suc, zero, ℕ, ◌++◌, ◌∷◌, ◌≡◌}
use libpubsub.Text.Decimal.{show, show_ℕ}
use libpubsub.World.{World, Host, Result, ok, fault, Env, ◌>>=◌}
use libpubsub.World.Kept.{OnOk}
use libpubsub.Channel.{channel_to_string}
use libpubsub.Api.{parse_args}

-- The macro DBG.
unfoldable pub dbg : ℕ → Bytes → Bytes
dbg zero line = []
dbg (suc level) line = line ++ (b'\n' ∷ [])

abbrev pub host_dump : Host → Bytes
host_dump h =
    codes "- "
    ++ (h.ip
        ++ (b':'
            ∷ (show h.port
                ++ ((if h.ready then [] else codes " (not ready) ")
                    ++ (if h.server then codes "(server)" else [])))))

-- The loop of dump_hosts.
unfoldable pub dump_each_host : ℕ → (ℕ → Host) → List ℕ → Bytes
unfolding dbg
dump_each_host level heap [] = []
dump_each_host level heap (h ∷ hs) = dbg level (host_dump (heap h)) ++ dump_each_host level heap hs

pub count : List ℕ → ℕ
count [] = 0
count (h ∷ hs) = suc (count hs)

unfoldable pub dump_hosts : ℕ → World → Bytes
unfolding dbg dump_each_host count
dump_hosts level w =
    dbg level []
    ++ (dbg level (codes "Hosts (" ++ (show_ℕ (count w.hosts) ++ codes ")"))
        ++ (dump_each_host level w.host w.hosts ++ dbg level []))

-- The loop of dump_channels.
unfoldable pub dump_each_channel : ℕ → World → List ℕ → Bytes
unfolding dbg channel_to_string
dump_each_channel level w [] = []
dump_each_channel level w (c ∷ cs) =
    dbg level (codes "  - " ++ channel_to_string c w) ++ dump_each_channel level w cs

abbrev pub rule : Bytes
rule = codes "------------"

unfoldable pub dump_channels : ℕ → World → Bytes
unfolding dbg dump_each_channel
dump_channels level w =
    dbg level (codes "CHANNELS" ++ (b'\n' ∷ rule))
    ++ (dump_each_channel level w w.channels ++ dbg level rule)

-- main of pubsub_dump.cpp, at the debug level of the library: what it prints.
unfoldable pub dump_main : ℕ → Env → List Bytes → World → Result Bytes
unfolding parse_args dump_hosts dump_channels
dump_main level e argv w = do
  w1 ← parse_args e argv w
  ok (dump_hosts level w1 ++ dump_channels level w1)

each_host-silent : (heap : ℕ → Host) (hs : List ℕ) → dump_each_host 0 heap hs ≡ []
unfolding dump_each_host
each_host-silent heap [] = refl
each_host-silent heap (h ∷ hs) = each_host-silent heap hs

each_channel-silent : (w : World) (cs : List ℕ) → dump_each_channel 0 w cs ≡ []
unfolding dump_each_channel
each_channel-silent w [] = refl
each_channel-silent w (c ∷ cs) = each_channel-silent w cs

-- At the debug level that the library starts with, pubsub_dump prints nothing, whatever the process knows.
pub dump_main-silent :
    (e : Env) (argv : List Bytes) (w : World) → OnOk (λ s. s ≡ []) (dump_main 0 e argv w)
unfolding dump_main dump_hosts dump_channels
dump_main-silent e argv w = go (parse_args e argv w)
  where
    go :
        (r : Result World)
        → OnOk (λ s. s ≡ []) (r >>= λ w1. ok (dump_hosts 0 w1 ++ dump_channels 0 w1))
    go (ok w1) = rw (each_host-silent w1.host w1.hosts, each_channel-silent w1 w1.channels)
    go (fault x) = tt
