-- ===== src/Edge/Tests/Data.antt =====
-- Two buffered events, one of them with an empty payload, and the configuration of the agent.
use nirantara.Common.{ℕ, Bool, true, false, none, some, List, [], ◌∷◌}
use nirantara.Common.Text.{Bytes, codes}
use nirantara.Edge.Buffer.{Event}
use nirantara.Edge.Postgres.{idle}
use nirantara.Edge.Sqlite.{Row}
use nirantara.Edge.Sync.{Context}
use nirantara.Edge.Tests.Engines.{Tables}

abbrev pub context : Context
context = record { pg_connstr = codes "host=db"; edge_node_id = codes "edge-1"; interval_sec = 2 }

abbrev pub beyond : ℕ → Bytes
beyond id = 0 ∷ []

abbrev pub move : Row
move = record { id = 1; topic = codes "game/d1/m"; payload = codes "e4"; ts = 7; flushed = false }

abbrev pub blank : Row
blank = record { id = 2; topic = codes "game/d1/m"; payload = []; ts = 8; flushed = false }

abbrev pub rows : List Row
rows = move ∷ blank ∷ []

abbrev pub moved : Event
moved = record { id = 1; topic = codes "game/d1/m"; payload = some (codes "e4"); ts = 7 }

abbrev pub blanked : Event
blanked = record { id = 2; topic = codes "game/d1/m"; payload = none; ts = 8 }

abbrev pub tables : Tables
tables = record { table = []; transaction = idle }

abbrev pub memory : ℕ → Bool
memory n = true
