-- ===== src/Websocket/Sessions.antt =====
-- What the server of src/utils/websocket.cpp promises to each connection, and that its callbacks keep it.
use libpubsub.Base.{
  Bool, Bool-cases, Bytes, List, Option, [], arith, false, if◌then◌else◌, inl, inr, none, refl,
  some, some_injective, subst, sym, true, ℕ, ◌++◌, ◌<◌, ◌==◌, ◌∙◌, ◌∷◌, ◌≡◌,
}
use libpubsub.Socket.{c_str}
use libpubsub.World.{Result, ok, fault, ◌>>=◌, update}
use libpubsub.Websocket.{
  Peer, Memory, Reason, established, receive, closed, another, create_peer, on_message, delete_peer,
  callback, service, started, run,
}

-- A connection as the application sees it: what its peer has received, if it has one.
pub data Session : Type 0 where
  unknown ended : Session
  live : List Bytes → Session

-- What a callback does to its connection, in the order that libwebsockets documents: a connection is
-- established once, then receives, and is then closed. A message reaches the peer as a C string.
abbrev advance : Reason → Session → Option Session
advance established unknown = some (live [])
advance (receive msg) (live msgs) = some (live (msgs ++ (c_str msg ∷ [])))
advance closed (live msgs) = some ended
advance another session = some session
advance _ _ = none

-- The callbacks of all connections.
unfoldable pub follow : List (Reason × ℕ) → (ℕ → Session) → Option (ℕ → Session)
follow [] view = some view
follow ((reason, ws) ∷ more) view = elim (advance reason (view ws)) [
  | none ↦ none
  | some session ↦ follow more (update view ws session)
]

-- The memory of a connection in a session.
abbrev pub Holds : Memory → ℕ → Session → Type 0
Holds m ws unknown = m.user ws ≡ none
Holds m ws ended = (p : ℕ) × (m.user ws ≡ some p) × (p < m.next_peer) × (m.peer p ≡ none)
Holds m ws (live msgs) =
    (p : ℕ) × (m.user ws ≡ some p)
    × (p < m.next_peer)
    × (m.peer p ≡ some (record { ws = ws; inbox = msgs }))

abbrev pub Shows : Memory → (ℕ → Session) → Type 0
Shows m view = (ws : ℕ) → Holds m ws (view ws)

-- A change to the peer of one connection leaves the sessions of the others.
Holds-others :
    (m : Memory) (ws ws' p : ℕ) (msgs : List Bytes) (o : Option Peer) (session : Session)
    → m.peer p ≡ some (record { ws = ws; inbox = msgs })
    → (ws == ws') ≡ false
    → Holds m ws' session
    → Holds (record m { peer = update m.peer p o }) ws' session
Holds-others m ws ws' p msgs o unknown e other h = h
Holds-others m ws ws' p msgs o ended e other (q, u, l, f) = elim (Bool-cases (p == q)) [
  | inl y ↦ let same : p ≡ q = ground (arith, y) in cc
  | inr x ↦ (q, u, l, rw x f)
]
Holds-others m ws ws' p msgs o (live more) e other (q, u, l, f) = elim (Bool-cases (p == q)) [
  | inl y ↦
      let same : p ≡ q = ground (arith, y) in
      let owner : ws ≡ ws' = cc in ground (arith, owner, other)
  | inr x ↦ (q, u, l, rw x f)
]

Holds-created :
    (m : Memory) (ws ws' : ℕ) (session : Session)
    → (ws == ws') ≡ false
    → Holds m ws' session
    → Holds (create_peer ws m) ws' session
unfolding create_peer
Holds-created m ws ws' unknown other h = rw other h
Holds-created m ws ws' ended other (q, u, l, f) =
    let old : (m.next_peer == q) ≡ false = ground (arith, l) in
    (q, rw other u, omega (arith, l), rw old f)
Holds-created m ws ws' (live msgs) other (q, u, l, f) =
    let old : (m.next_peer == q) ≡ false = ground (arith, l) in
    (q, rw other u, omega (arith, l), rw old f)

-- The sessions of all connections, from that of one and those of the others.
Shows-update :
    (m' : Memory) (ws : ℕ) (view : ℕ → Session) (session : Session)
    → Holds m' ws session
    → ((ws' : ℕ) → (ws == ws') ≡ false → Holds m' ws' (view ws'))
    → Shows m' (update view ws session)
Shows-update m' ws view session own others ws' = elim (Bool-cases (ws == ws')) [
  | inl y ↦
      let same : ws ≡ ws' = ground (arith, y) in rw y (subst (λ x. Holds m' x session) same own)
  | inr x ↦ rw x (others ws' x)
]

-- The callback returns, and afterwards the connection has the session and the others what they had.
abbrev Advances : Reason → ℕ → Memory → (ℕ → Session) → Session → Type 0
Advances reason ws m view session =
    (m' : Memory) × (callback reason ws m ≡ ok m') × Shows m' (update view ws session)

established-Advances :
    (ws : ℕ) (m : Memory) (view : ℕ → Session)
    → Shows m view
    → Advances established ws m view (live [])
unfolding callback
established-Advances ws m view h = (
  create_peer ws m,
  refl,
  Shows-update (create_peer ws m) ws view (live []) own
      (λ ws' other. Holds-created m ws ws' (view ws') other (h ws')),
)
  where
    own : Holds (create_peer ws m) ws (live [])
    own = unfold create_peer in (m.next_peer, ground arith, omega arith, ground arith)

receive-Advances :
    (ws p : ℕ) (msg : Bytes) (msgs : List Bytes) (m : Memory) (view : ℕ → Session)
    → Shows m view
    → m.user ws ≡ some p
    → p < m.next_peer
    → m.peer p ≡ some (record { ws = ws; inbox = msgs })
    → Advances (receive msg) ws m view (live (msgs ++ (c_str msg ∷ [])))
unfolding callback on_message
receive-Advances ws p msg msgs m view h u l e = (
  m',
  rw (u, callback, on_message, e) refl,
  Shows-update m' ws view (live (msgs ++ (c_str msg ∷ []))) (p, u, l, ground arith)
      (λ ws' other. Holds-others m ws ws' p msgs _ (view ws') e other (h ws')),
)
  where
    m' : Memory
    m' = record m {
      peer = update m.peer p (some (record { ws = ws; inbox = msgs ++ (c_str msg ∷ []) }));
    }

closed-Advances :
    (ws p : ℕ) (msgs : List Bytes) (m : Memory) (view : ℕ → Session)
    → Shows m view
    → m.user ws ≡ some p
    → p < m.next_peer
    → m.peer p ≡ some (record { ws = ws; inbox = msgs })
    → Advances closed ws m view ended
unfolding callback delete_peer
closed-Advances ws p msgs m view h u l e = (
  m',
  rw (u, callback, delete_peer, e) refl,
  Shows-update m' ws view ended (p, u, l, ground arith)
      (λ ws' other. Holds-others m ws ws' p msgs none (view ws') e other (h ws')),
)
  where
    m' : Memory
    m' = record m { peer = update m.peer p none }

another-Advances :
    (ws : ℕ) (m : Memory) (view : ℕ → Session) → Shows m view → Advances another ws m view (view ws)
unfolding callback
another-Advances ws m view h =
    (m, refl, Shows-update m ws view (view ws) (h ws) (λ ws' other. h ws'))

callback-Advances :
    (reason : Reason) (ws : ℕ) (m : Memory) (view : ℕ → Session) (old session : Session)
    → Shows m view
    → view ws ≡ old
    → Holds m ws old
    → advance reason old ≡ some session
    → Advances reason ws m view session
callback-Advances established ws m view unknown session h v own a =
    subst (Advances established ws m view) (some_injective a) (established-Advances ws m view h)
callback-Advances established ws m view ended session h v own a = cc
callback-Advances established ws m view (live msgs) session h v own a = cc
callback-Advances (receive msg) ws m view unknown session h v own a = cc
callback-Advances (receive msg) ws m view ended session h v own a = cc
callback-Advances (receive msg) ws m view (live msgs) session h v (p, u, l, e) a =
    subst (Advances (receive msg) ws m view) (some_injective a)
      (receive-Advances ws p msg msgs m view h u l e)
callback-Advances closed ws m view unknown session h v own a = cc
callback-Advances closed ws m view ended session h v own a = cc
callback-Advances closed ws m view (live msgs) session h v (p, u, l, e) a =
    subst (Advances closed ws m view) (some_injective a) (closed-Advances ws p msgs m view h u l e)
callback-Advances another ws m view old session h v own a =
    subst (Advances another ws m view) (v ∙ some_injective a) (another-Advances ws m view h)

service-Shows :
    (events : List (Reason × ℕ)) (m : Memory) (view view' : ℕ → Session)
    → Shows m view
    → follow events view ≡ some view'
    → (m' : Memory) × (service events m ≡ ok m') × Shows m' view'
unfolding service follow
service-Shows [] m view view' h f = (m, refl, subst (Shows m) (some_injective f) h)
service-Shows ((reason, ws) ∷ more) m view view' h f =
    go (advance reason (view ws)) refl f (λ v m'. service-Shows more m' v view')
  where
    go :
        (o : Option Session)
        → advance reason (view ws) ≡ o
        → elim o [ none ↦ none | some session ↦ follow more (update view ws session) ] ≡ some view'
        → ((v : ℕ → Session) (m1 : Memory)
            → Shows m1 v
            → follow more v ≡ some view'
            → (m' : Memory) × (service more m1 ≡ ok m') × Shows m' view')
        → (m' : Memory) × ((callback reason ws m >>= service more) ≡ ok m') × Shows m' view'
    go none a f ih = cc
    go (some session) a f ih =
        let (m1, k, h1) = callback-Advances reason ws m view (view ws) session h refl (h ws) a in
        let (m', ks, h') = ih (update view ws session) m1 h1 f in (m', rw k ks, h')

service-append :
    (events more : List (Reason × ℕ)) (m : Memory)
    → service (events ++ more) m ≡ (service events m >>= service more)
unfolding service
service-append [] more m = refl
service-append ((reason, ws) ∷ events) more m =
    go (callback reason ws m) (service-append events more)
  where
    go :
        (r : Result Memory)
        → ((v : Memory) → service (events ++ more) v ≡ (service events v >>= service more))
        → (r >>= service (events ++ more)) ≡ (r >>= service events >>= service more)
    go (ok v) ih = ih v
    go (fault x) ih = refl

-- The callbacks of the rounds before the one that reads `bQuit` as set.
unfoldable pub served : List (Bool × List (Reason × ℕ)) → List (Reason × ℕ)
served [] = []
served ((quit, events) ∷ rounds) = if quit then [] else events ++ served rounds

run-service :
    (rounds : List (Bool × List (Reason × ℕ))) (m : Memory)
    → run rounds m ≡ service (served rounds) m
unfolding run served
run-service [] m = unfold service in refl
run-service ((true, events) ∷ rounds) m = unfold service in refl
run-service ((false, events) ∷ rounds) m =
    go (service events m) (run-service rounds) ∙ sym (service-append events (served rounds) m)
  where
    go :
        (r : Result Memory)
        → ((v : Memory) → run rounds v ≡ service (served rounds) v)
        → (r >>= run rounds) ≡ (r >>= service (served rounds))
    go (ok v) ih = ih v
    go (fault x) ih = refl

-- Where the callbacks that a server takes before it reads `bQuit` as set come, for each connection, in the
-- order that the library documents (established once, then messages, then closed): the server handles
-- them without using a null pointer or a deleted peer, and then each connection's peer has received
-- exactly the connection's messages, each up to its first NUL, in order, or is deleted if the connection is closed.
pub run-Shows :
    (rounds : List (Bool × List (Reason × ℕ))) (view : ℕ → Session)
    → follow (served rounds) (λ ws. unknown) ≡ some view
    → (m : Memory) × (run rounds started ≡ ok m) × Shows m view
run-Shows rounds view f =
    let (m, k, h) = service-Shows (served rounds) started (λ ws. unknown) view (λ ws. refl) f in
    (m, run-service rounds started ∙ k, h)
