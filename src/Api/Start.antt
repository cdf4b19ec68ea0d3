-- ===== src/Api/Start.antt =====
-- The start of the library (`init` of src/mesh.cpp): the signaling port and the first hosts of a process.
use libpubsub.Base.{[], arith, codes, pos, refl, some, suc, true, ℕ, ℤ, ◌+◌, ◌∷◌, ◌≡◌}
use libpubsub.Socket.Ports.{find_port, find_port_first}
use libpubsub.World.{World, ok, Env}
use libpubsub.Mesh.{me, me_of, new_loopback}
use libpubsub.Api.{start, init}

-- The process behind the construction of the loopback host.
pub with_loopback : ℕ → ℤ → World → World
unfolding new_loopback
with_loopback port random w =
    new_loopback (pos port) (record w { id = random; signaling_port = pos port })

init_port :
    (e : Env) (random : ℤ) (port : ℕ) (w : World)
    → find_port e.can_bind 12212 (12212 + 64) ≡ some port
    → init e random w ≡ start e port (record w { id = random })
unfolding init
init_port e random port w h = rw (h, init)

loopback_alone :
    (port : ℕ) (random : ℤ) (w : World)
    → w.hosts ≡ []
    → ((with_loopback port random w).hosts ≡ w.next_host ∷ [])
      × ((with_loopback port random w).next_host ≡ suc w.next_host)
      × (((with_loopback port random w).host w.next_host).ip ≡ codes "localhost")
      × (((with_loopback port random w).host w.next_host).port ≡ pos port)
unfolding with_loopback
loopback_alone port random w h = (rw h, refl, ground arith, ground arith)

-- In a process with no host yet and where port 12212 can be bound, `init` returns: the process
-- signals on that port, and its one host, which is `me`, is localhost with that port.
pub init_first :
    (e : Env) (random : ℤ) (w : World)
    → w.hosts ≡ []
    → e.can_bind 12212 ≡ true
    → (w' : World) × (init e random w ≡ ok w')
      × (w'.signaling_port ≡ pos 12212)
      × (w'.hosts ≡ me w' ∷ [])
      × ((w'.host (me w')).ip ≡ codes "localhost")
      × ((w'.host (me w')).port ≡ pos 12212)
unfolding start with_loopback
init_first e random w h b =
    let (own, _, ip, port) = loopback_alone 12212 random w h in
    (
      with_loopback 12212 random w,
      init_port e random 12212 w (find_port_first e.can_bind 12212 64 b),
      refl,
      rw own (unfold me_of in refl),
      rw own (unfold me_of in ip),
      rw own (unfold me_of in port),
    )

-- What `init` leaves: the first host has the port given, the second is localhost with port 12212.
abbrev Seconded : Env → ℤ → World → ℕ → Type 0
Seconded e random w port =
    (w' : World) × (init e random w ≡ ok w')
    × (w'.hosts ≡ w.next_host ∷ suc w.next_host ∷ [])
    × ((w'.host (me w')).port ≡ pos port)
    × ((w'.host (suc w.next_host)).ip ≡ codes "localhost")
    × ((w'.host (suc w.next_host)).port ≡ pos 12212)
