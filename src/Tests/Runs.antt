-- ===== src/Tests/Runs.antt =====
-- Tests of whole runs of a process.
use libpubsub.Base.{Bytes, List, [], codes, pos, refl, ℕ, ◌∷◌, ◌≡◌}
use libpubsub.World.{World, Result, ok, fault, Env}
use libpubsub.Mesh.{me}
use libpubsub.Channel.Registry.{IsRegistry}
use libpubsub.Api.{init, publish, write_channel, elsewhere}
use libpubsub.Channel.Publisher.{Returns}
use libpubsub.Process.Writes.{run-write_channel-Returns}
use libpubsub.Process.{
  Event, subscriptor_came, host_came, message, publishing, subscribing, went_down, run,
}
use libpubsub.Process.Identity.{run-IsRegistry, publish_again}
use libpubsub.Programs.{Input, publish_main}
use libpubsub.Tests.{easy, bare, pair, news}

abbrev world_in : Result World → World
world_in (ok w) = w
world_in (fault x) = bare

abbrev result_in : Result (ℕ × World) → World
result_in (ok p) = p.1
result_in (fault x) = bare

-- `init` in an empty process.
abbrev started : World
started = world_in (init easy (pos 7) bare)

started_ok : init easy (pos 7) bare ≡ ok started
unfolding init
started_ok = refl

-- A host with a higher number connects, and the application publishes a channel twice.
abbrev events : List (Env × Event)
events =
    (easy, host_came (codes "10.0.0.2") (pos 40000))
    ∷ (easy, message 0 (codes "ID=9|PORT=12213"))
    ∷ (easy, publishing news)
    ∷ (easy, publishing news)
    ∷ []

abbrev ran : World
ran = world_in (run events started)

ran_ok : run events started ≡ ok ran
unfolding init run
ran_ok = refl

run-IsRegistry_example : (me ran ≡ 0) × IsRegistry ran
run-IsRegistry_example =
    run-IsRegistry easy (pos 7) events bare started ran refl refl started_ok ran_ok

-- A remote subscriptor connects to the server of the channel behind that, and the application writes.
abbrev served_events : List (Env × Event)
served_events =
    (easy, publishing news)
    ∷ (easy, subscriptor_came 0 (codes "10.0.0.3") (pos 40001))
    ∷ (easy, subscriptor_came 0 (codes "10.0.0.4") (pos 40002))
    ∷ []

abbrev served : World
served = world_in (run served_events started)

served_ok : run served_events started ≡ ok served
unfolding init run
served_ok = refl

run-write_channel-Returns_example : Returns (write_channel elsewhere news 0 served)
run-write_channel-Returns_example =
    run-write_channel-Returns easy (pos 7) served_events elsewhere news 0 bare started served
      (λ d. refl) (λ d. refl) started_ok served_ok

-- The application publishes in a process that knows another host, which then is lost.
abbrev published : World
published = result_in (publish easy news pair)

published_ok : publish easy news pair ≡ ok (0, published)
unfolding publish
published_ok = refl

abbrev later : List (Env × Event)
later = (easy, went_down 0) ∷ (easy, subscribing news) ∷ []

lost : World
lost = world_in (run later published)

lost_ok : run later published ≡ ok lost
unfolding publish run lost
lost_ok = refl

again : World
again = result_in (publish easy news lost)

again_ok : publish easy news lost ≡ ok (0, again)
unfolding publish run lost again
again_ok = refl

pair-IsRegistry : IsRegistry pair
pair-IsRegistry = (tt, tt)

abbrev answered : ℕ
answered = 0

publish_again_example : (answered ≡ 0) × ((again.channel 0).name ≡ news)
publish_again_example =
    publish_again easy easy news 0 answered later pair published lost again pair-IsRegistry
      published_ok lost_ok again_ok

-- publish -h host news
abbrev dashed : List Bytes
dashed = codes "publish" ∷ codes "-h" ∷ codes "10.0.0.3:12212" ∷ news ∷ []

abbrev lines : Input
lines = ((easy, message 0 (codes "CONNECTED")) ∷ [], news) ∷ ([], news) ∷ []

abbrev copied : World
copied = world_in (publish_main easy dashed lines pair)
