-- ===== src/Edge/Postgres.antt =====
-- libpq and the cloud server as edge/src/sync.c calls them, and what the code relies on.
use Prim.Native.String.{String}
use nirantara.Common.{
  ◌≡◌, Bool, true, false, ◌&&◌, ◌||◌, Option, List, [], ◌∷◌, ◌++◌, if◌then◌else◌,
}
use nirantara.Common.Text.{Bytes, equal}

-- The five parameters of the upsert. A null payload is SQL's NULL.
pub record GameEvent : Type 0 where
  pub device_id : Bytes
  pub topic : Bytes
  pub payload : Option Bytes
  pub ts : Bytes
  pub edge_node : Bytes

-- The results are `true` for CONNECTION_OK and PGRES_COMMAND_OK.
pub record Postgres : Type 1 where
  pub Server : Type 0
  pub connect : Bytes → Server → Bool × Server
  pub prepare : String → Server → Bool × Server
  pub exec : String → Server → Bool × Server
  pub exec_prepared : String → GameEvent → Server → Bool × Server

abbrev pub upsert_sql : String
upsert_sql =
    "INSERT INTO game_events (device_id, topic, payload, ts, edge_node) VALUES ($1, $2, $3, $4, $5) ON CONFLICT (device_id, topic, ts) DO NOTHING;"

-- Two events are one to the server when they agree on the primary key.
unfoldable pub same_key : GameEvent → GameEvent → Bool
unfolding equal
same_key a b = equal a.device_id b.device_id && (equal a.topic b.topic && equal a.ts b.ts)

unfoldable pub has_key : GameEvent → List GameEvent → Bool
unfolding same_key
has_key e [] = false
has_key e (x ∷ xs) = same_key x e || has_key e xs

-- ON CONFLICT DO NOTHING
unfoldable pub upsert : GameEvent → List GameEvent → List GameEvent
unfolding has_key
upsert e table = if has_key e table then table else table ++ e ∷ []

-- A connection is outside any transaction, inside one that would leave the table as `view` shows,
-- or inside one that an error has aborted, or lost.
pub data Transaction : Type 0 where
  idle failed : Transaction
  active : (view : List GameEvent) → Transaction

-- The documented behaviour of transactions: what is written inside one becomes visible at COMMIT;
-- an error aborts the transaction, every statement up to its end is refused, and COMMIT then rolls
-- back. BEGIN on a connection that is not in a transaction fails only where the connection is lost,
-- and then everything behind it is refused. No other client writes to the table meanwhile.
pub record PostgresLaws (p : Postgres) : Type 0 where
  pub table : p.Server → List GameEvent
  pub transaction : p.Server → Transaction
  pub connect_idle :
      (c : Bytes) (s : p.Server)
      → (table (p.connect c s).1 ≡ table s) × (transaction (p.connect c s).1 ≡ idle)
  pub prepare_idle :
      (sql : String) (s : p.Server)
      → transaction s ≡ idle
      → (table (p.prepare sql s).1 ≡ table s) × (transaction (p.prepare sql s).1 ≡ idle)
  pub begin_active :
      (s : p.Server)
      → transaction s ≡ idle
      → (p.exec "BEGIN" s).0 ≡ true
      → (table (p.exec "BEGIN" s).1 ≡ table s)
        × (transaction (p.exec "BEGIN" s).1 ≡ active (table s))
  pub begin_refused :
      (s : p.Server)
      → transaction s ≡ idle
      → (p.exec "BEGIN" s).0 ≡ false
      → (table (p.exec "BEGIN" s).1 ≡ table s) × (transaction (p.exec "BEGIN" s).1 ≡ failed)
  pub upsert_done :
      (e : GameEvent) (s : p.Server) (view : List GameEvent)
      → transaction s ≡ active view
      → (p.exec_prepared upsert_sql e s).0 ≡ true
      → (table (p.exec_prepared upsert_sql e s).1 ≡ table s)
        × (transaction (p.exec_prepared upsert_sql e s).1 ≡ active (upsert e view))
  pub upsert_aborts :
      (e : GameEvent) (s : p.Server) (view : List GameEvent)
      → transaction s ≡ active view
      → (p.exec_prepared upsert_sql e s).0 ≡ false
      → (table (p.exec_prepared upsert_sql e s).1 ≡ table s)
        × (transaction (p.exec_prepared upsert_sql e s).1 ≡ failed)
  pub upsert_refused :
      (e : GameEvent) (s : p.Server)
      → transaction s ≡ failed
      → ((p.exec_prepared upsert_sql e s).0 ≡ false)
        × (table (p.exec_prepared upsert_sql e s).1 ≡ table s)
        × (transaction (p.exec_prepared upsert_sql e s).1 ≡ failed)
  pub commit_done :
      (s : p.Server) (view : List GameEvent)
      → transaction s ≡ active view
      → (p.exec "COMMIT" s).0 ≡ true
      → table (p.exec "COMMIT" s).1 ≡ view
  pub commit_rolls_back :
      (s : p.Server) → transaction s ≡ failed → table (p.exec "COMMIT" s).1 ≡ table s
