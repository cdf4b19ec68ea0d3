-- ===== src/Server/Binding.antt =====
-- TCPServer::bind and the constructor over a range of ports, of src/utils/Socket.cpp, with the descriptors that
-- the process has left. An attempt that fails behind socket(2) does not close its descriptor.
use libpubsub.Base.{
  Bool, Option, ap, arith, codes, false, if◌then◌else◌, inl, inr, ltb, none, refl, some, suc, true,
  zero, ℕ, ◌+◌, ◌-◌, ◌<◌, ◌∙◌, ◌≡◌, ◌≤◌, ◌⊎◌,
}
use libpubsub.Socket.Ports.{find_port, find_port-lowest}
use libpubsub.World.{Result, ok, fault, thrown}

-- TCPServer::bind of a port: how it ends, and the descriptors that are left then. `can_bind` says
-- whether bind(2) succeeds.
unfoldable pub bind : (ℕ → Bool) → ℕ → ℕ → Result (Unit {0}) × ℕ
bind can_bind port zero = (fault (thrown (codes "ERROR opening socket")), zero)
bind can_bind port (suc n) =
    if can_bind port then (ok tt, n) else (fault (thrown (codes "ERROR on binding")), n)

-- The end of a round: a bound port breaks the loop, and an exception is caught.
abbrev pub round : ℕ → (ℕ → Option ℕ × ℕ) → Result (Unit {0}) × ℕ → Option ℕ × ℕ
round port next (ok u, n) = (some port, n)
round port next (fault x, n) = next n

-- The loop of TCPServer::TCPServer(int, int), over the ports that are left.
unfoldable pub bind_loop : (ℕ → Bool) → ℕ → ℕ → ℕ → Option ℕ × ℕ
unfolding bind
bind_loop can_bind zero port n = (none, n)
bind_loop can_bind (suc ports) port n =
    round port (bind_loop can_bind ports (port + 1)) (bind can_bind port n)

-- TCPServer::TCPServer(int, int); no port is the exception "No free port".
unfoldable pub new_server : (ℕ → Bool) → ℕ → ℕ → ℕ → Option ℕ × ℕ
unfolding bind_loop
new_server can_bind first last n = bind_loop can_bind (last + 1 - first) first n

bind_none : (can_bind : ℕ → Bool) (ports port : ℕ) → bind_loop can_bind ports port 0 ≡ (none, 0)
unfolding bind_loop
bind_none can_bind zero port = refl
bind_none can_bind (suc ports) port = bind_none can_bind ports (port + 1)

bind_loop-busy :
    (can_bind : ℕ → Bool) (ports port n : ℕ)
    → can_bind port ≡ false
    → bind_loop can_bind (suc ports) port (suc n) ≡ bind_loop can_bind ports (port + 1) n
unfolding bind_loop
bind_loop-busy can_bind ports port n e = rw e refl

-- The loop from a port that is `d` below the first one that can be bound.
bind_loop-first :
    (can_bind : ℕ → Bool) (d ports port n : ℕ)
    → d < ports
    → can_bind (port + d) ≡ true
    → ((q : ℕ) → port ≤ q → q < port + d → can_bind q ≡ false)
    → bind_loop can_bind ports port n
      ≡ (if ltb d n then (some (port + d), n - suc d) else (none, 0))
bind_loop-first can_bind d ports port zero l free busy =
    rw (bind_none can_bind ports port) (ground arith)
bind_loop-first can_bind d zero port (suc n) l free busy = absurd (omega (arith, l))
bind_loop-first can_bind zero (suc ports) port (suc n) l free busy =
    let here : can_bind port ≡ true = ground (arith, free) in
    unfold bind_loop in rw here (ground arith)
bind_loop-first can_bind (suc d) (suc ports) port (suc n) l free busy =
    let here : can_bind port ≡ false = busy port (omega arith) (omega arith) in
    let behind : port + 1 + d ≡ port + suc d = omega arith in
    let rest =
      bind_loop-first can_bind d ports (port + 1) n (omega (arith, l)) (rw behind free)
        (λ q lo hi. busy q (omega (arith, lo)) (omega (arith, hi))) in
    bind_loop-busy can_bind ports port n here ∙ (rest ∙ ground (arith, behind))

bind_loop-none :
    (can_bind : ℕ → Bool) (ports port n : ℕ)
    → ((q : ℕ) → port ≤ q → q < port + ports → can_bind q ≡ false)
    → bind_loop can_bind ports port n ≡ (none, n - ports)
bind_loop-none can_bind zero port n busy = unfold bind_loop in ground arith
bind_loop-none can_bind (suc ports) port zero busy =
    bind_none can_bind (suc ports) port ∙ ground arith
bind_loop-none can_bind (suc ports) port (suc n) busy =
    let here : can_bind port ≡ false = busy port (omega arith) (omega arith) in
    let rest =
      bind_loop-none can_bind ports (port + 1) n
        (λ q lo hi. busy q (omega (arith, lo)) (omega (arith, hi))) in
    bind_loop-busy can_bind ports port n here ∙ (rest ∙ ground arith)

-- What the constructor over a range of ports does, against the lowest port that can be bound. If there is
-- one, the constructor takes it where the process has a descriptor for each port of the range up to it,
-- and has then used as many; with fewer descriptors it takes none and has used them all. If there is
-- none, it takes none and has used one descriptor for each port of the range, as far as there are.
pub new_server-find_port :
    (can_bind : ℕ → Bool) (first last n : ℕ)
    → ((p : ℕ) × (find_port can_bind first last ≡ some p)
        × (new_server can_bind first last n
            ≡ (if ltb (p - first) n then (some p, n - suc (p - first)) else (none, 0))))
      ⊎ ((find_port can_bind first last ≡ none)
          × (new_server can_bind first last n ≡ (none, n - (last + 1 - first))))
new_server-find_port can_bind first last n = elim (find_port-lowest can_bind first last) [
  | inl (p, e, free, lo, hi, before) ↦
      let there : first + (p - first) ≡ p = omega (arith, lo) in
      let runs =
        bind_loop-first can_bind (p - first) (last + 1 - first) first n (omega (arith, lo, hi))
          (rw there free) (λ q l h. before q l (omega (arith, h, there))) in
      inl (
        p,
        e,
        unfold new_server in
            runs
            ∙ ap (λ x. if ltb (p - first) n then (some x, n - suc (p - first)) else (none, 0))
                there,
      )
  | inr (e, busy) ↦ inr (
    e,
    unfold new_server in
        bind_loop-none can_bind (last + 1 - first) first n
          (λ q lo hi. busy q lo (omega (arith, hi))),
  )
]
