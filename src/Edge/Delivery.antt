-- ===== src/Edge/Delivery.antt =====
-- From the buffer of an agent to the server: what a cycle of the sync thread, `do_sync` of
-- edge/src/sync.c, does to the rows that edge/src/main.c inserts.
pub mod Rows
pub mod Counting
pub mod Flushing
pub mod Cycle
pub mod Arriving
pub mod Overlap
pub mod Steps
pub mod Kept
pub mod Draining
pub mod Drained
pub mod Growth
pub mod Sent
pub mod Found
use nirantara.Common.{ℕ, ◌≡◌, ◌≢◌, true, false, List, [], ◌∷◌, All, if◌then◌else◌, ◌+◌, Bool}
use nirantara.Common.Text.{Bytes}
use nirantara.Edge.Buffer.{event_of}
use nirantara.Edge.Postgres.{GameEvent}
use nirantara.Edge.Sqlite.{Row}
use nirantara.Edge.Sync.{Context}
use nirantara.Edge.Sync.Flush.{IsStored}

-- No two rows share their id, the primary key.
abbrev pub NodupIds : List Row → Type 0
NodupIds [] = Unit
NodupIds (r ∷ rows) = All (λ x. x.id ≢ r.id) rows × NodupIds rows

-- The number of rows that are not flagged.
abbrev pub one_unless : Bool → ℕ
one_unless true = 0
one_unless false = 1

unfoldable pub unflushed : List Row → ℕ
unflushed [] = 0
unflushed (r ∷ rows) = one_unless r.flushed + unflushed rows

-- If the row is flagged, the server has a row with its key.
abbrev pub Delivered : Context → (ℕ → Bytes) → List GameEvent → Row → Type 0
Delivered ctx beyond table r = r.flushed ≡ true → IsStored ctx beyond table (event_of r)
