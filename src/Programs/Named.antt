-- ===== src/Programs/Named.antt =====
-- Which channel publish.cpp of src/bin publishes.
use libpubsub.Base.{some, ℕ, ◌≡◌}
use libpubsub.World.{World}
use libpubsub.Mesh.{me}
use libpubsub.Channel
use libpubsub.Process.Moves.{Moves}

-- The process is the publisher of the channel.
abbrev pub Owns : ℕ → World → Type 0
Owns c w = (w.channel c).publisher ≡ some (me w)
