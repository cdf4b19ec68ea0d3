-- ===== src/Socket/Ports.antt =====
-- TCPServer::TCPServer(int, int) of src/utils/Socket.cpp: the first port of a range that can be bound.
use libpubsub.Base.{
  Bool, Bool-cases, Option, Option-cases, arith, dec_lt, false, if◌then◌else◌, inl, inr, none, some,
  suc, true, zero, ℕ, ◌+◌, ◌-◌, ◌<◌, ◌≡◌, ◌≤◌, ◌⊎◌,
}

-- `can_bind` says whether `bind` succeeds on a port; the loop runs over the ports that are left.
unfoldable pub port_loop : (ℕ → Bool) → ℕ → ℕ → Option ℕ
port_loop can_bind zero port = none
port_loop can_bind (suc left) port =
    let rest = port_loop can_bind left (port + 1) in if can_bind port then some port else rest

-- `none` is the exception "No free port".
unfoldable pub find_port : (ℕ → Bool) → ℕ → ℕ → Option ℕ
unfolding port_loop
find_port can_bind first last = port_loop can_bind (last + 1 - first) first

pub port_loop-some :
    (can_bind : ℕ → Bool) (left port p : ℕ)
    → port_loop can_bind left port ≡ some p
    → (can_bind p ≡ true)
      × (port ≤ p)
      × (p < port + left)
      × ((q : ℕ) → port ≤ q → q < p → can_bind q ≡ false)
unfolding port_loop
port_loop-some can_bind zero port p h = cc
port_loop-some can_bind (suc left) port p h = elim (Bool-cases (can_bind port)) [
  | inl e ↦
      let same : port ≡ p = ground arith in
      (rw (← same) e, omega arith, omega arith, λ q lo hi. absurd (omega arith))
  | inr e ↦
      let (free, lo, hi, before) = port_loop-some can_bind left (port + 1) p (ground arith) in
      (free, omega arith, omega arith, earlier before e)
]
  where
    earlier :
        ((q : ℕ) → port + 1 ≤ q → q < p → can_bind q ≡ false)
        → can_bind port ≡ false
        → (q : ℕ) → port ≤ q
        → q < p
        → can_bind q ≡ false
    earlier before e q lo hi = elim (dec_lt port q) [
      | yes later ↦ before q (omega arith) hi
      | no here ↦ let same : q ≡ port = omega arith in rw same e
    ]

pub port_loop-none :
    (can_bind : ℕ → Bool) (left port q : ℕ)
    → port_loop can_bind left port ≡ none
    → port ≤ q
    → q < port + left
    → can_bind q ≡ false
unfolding port_loop
port_loop-none can_bind zero port q h lo hi = absurd (omega arith)
port_loop-none can_bind (suc left) port q h lo hi = elim (Bool-cases (can_bind port)) [
  | inl e ↦ absurd (ground arith)
  | inr e ↦ elim (dec_lt port q) [
    | yes later ↦
        port_loop-none can_bind left (port + 1) q (ground arith) (omega arith) (omega arith)
    | no here ↦ let same : q ≡ port = omega arith in rw same e
  ]
]

-- A port that the server takes can be bound, lies in the range, and is the lowest such one.
find_port-some :
    (can_bind : ℕ → Bool) (first last p : ℕ)
    → find_port can_bind first last ≡ some p
    → (can_bind p ≡ true)
      × (first ≤ p)
      × (p ≤ last)
      × ((q : ℕ) → first ≤ q → q < p → can_bind q ≡ false)
unfolding find_port
find_port-some can_bind first last p h =
    let (free, lo, hi, before) = port_loop-some can_bind (last + 1 - first) first p h in
    (free, lo, omega arith, before)

-- Where the exception is thrown, no port of the range can be bound.
find_port-none :
    (can_bind : ℕ → Bool) (first last q : ℕ)
    → find_port can_bind first last ≡ none
    → first ≤ q
    → q ≤ last
    → can_bind q ≡ false
unfolding find_port
find_port-none can_bind first last q h lo hi =
    port_loop-none can_bind (last + 1 - first) first q h lo (omega arith)

-- Of a range of ports, the server takes the lowest one that can be bound, which lies in the range, or no
-- port of the range can be bound and it takes none, where the constructor throws.
pub find_port-lowest :
    (can_bind : ℕ → Bool) (first last : ℕ)
    → ((p : ℕ) × (find_port can_bind first last ≡ some p)
        × (can_bind p ≡ true)
        × (first ≤ p)
        × (p ≤ last)
        × ((q : ℕ) → first ≤ q → q < p → can_bind q ≡ false))
      ⊎ ((find_port can_bind first last ≡ none)
          × ((q : ℕ) → first ≤ q → q ≤ last → can_bind q ≡ false))
find_port-lowest can_bind first last = elim (Option-cases (find_port can_bind first last)) [
  | inl e ↦ inr (e, λ q lo hi. find_port-none can_bind first last q e lo hi)
  | inr (p, e) ↦
      let (free, lo, hi, before) = find_port-some can_bind first last p e in
      inl (p, e, free, lo, hi, before)
]

-- A first port that can be bound is taken.
pub find_port_first :
    (can_bind : ℕ → Bool) (first more : ℕ)
    → can_bind first ≡ true
    → find_port can_bind first (first + more) ≡ some first
unfolding find_port
find_port_first can_bind first more h =
    let rounds : first + more + 1 - first ≡ suc more = omega arith in rw (rounds, h, port_loop)

-- The loop ends at a port that can be bound where no earlier one can.
pub port_loop-first :
    (can_bind : ℕ → Bool) (left port p : ℕ)
    → port ≤ p
    → p < port + left
    → can_bind p ≡ true
    → ((q : ℕ) → port ≤ q → q < p → can_bind q ≡ false)
    → port_loop can_bind left port ≡ some p
unfolding port_loop
port_loop-first can_bind zero port p lo hi free before = absurd (omega arith)
port_loop-first can_bind (suc left) port p lo hi free before = elim (dec_lt port p) [
  | yes later ↦ rw (before port (omega arith) later) (
      port_loop-first can_bind left (port + 1) p (omega arith) (omega arith) free
        (λ q l h. before q (omega arith) h))
  | no here ↦ let same : port ≡ p = omega arith in rw (same, free)
]
