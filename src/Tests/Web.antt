-- ===== src/Tests/Web.antt =====
-- Tests of the websocket server.
use libpubsub.Base.{Bool, List, Option, [], false, none, refl, some, true, ℕ, ◌∷◌, ◌≡◌}
use libpubsub.World.{ok}
use libpubsub.Websocket.{Memory, Reason, established, receive, closed, run, started}
use libpubsub.Websocket.Sessions.{Session, unknown, Shows, follow, served, run-Shows}
use libpubsub.Tests.{news}

-- Two connections, of which one is closed, and the end of the server.
abbrev rounds : List (Bool × List (Reason × ℕ))
rounds =
    (false, (established, 0) ∷ (established, 1) ∷ (receive news, 0) ∷ [])
    ∷ (false, (receive news, 1) ∷ (closed, 0) ∷ (receive news, 1) ∷ [])
    ∷ (true, (established, 2) ∷ [])
    ∷ []

abbrev view_in : Option (ℕ → Session) → ℕ → Session
view_in none = λ ws. unknown
view_in (some view) = view

abbrev seen : ℕ → Session
seen = view_in (follow (served rounds) (λ ws. unknown))

seen_ok : follow (served rounds) (λ ws. unknown) ≡ some seen
unfolding follow served
seen_ok = refl

run-Shows_example : (m : Memory) × (run rounds started ≡ ok m) × Shows m seen
run-Shows_example = run-Shows rounds seen seen_ok
