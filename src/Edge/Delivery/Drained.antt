-- ===== src/Edge/Delivery/Drained.antt =====
-- As many cycles as it takes: every buffered event comes to the server.
use Prim.Native.Nat.{min}
use nirantara.Common.{
  ℕ, zero, suc, ◌+◌, ◌*◌, ◌≤◌, ◌≡◌, refl, ◌∙◌, ap, sym, subst, Bool, true, false, List, [], ◌∷◌,
  map, All, arith,
}
use nirantara.Common.Text.{Bytes}
use nirantara.Edge.Buffer.{Event, event_of, Disk, flush_limit, buffer_init}
use nirantara.Edge.Postgres.{Postgres, PostgresLaws, GameEvent}
use nirantara.Edge.Sqlite.{Row, Sqlite, SqliteLaws, IsUnflushed}
use nirantara.Edge.Sync.{Context, sync_open, do_sync, sync_db_path}
use nirantara.Edge.Sync.Flush.{IsStored}
use nirantara.Edge.Delivery.{Delivered, unflushed, one_unless}
use nirantara.Edge.Delivery.Rows.{All-IsRow}
use nirantara.Edge.Delivery.Flushing.{IsSafe}
use nirantara.Edge.Delivery.Cycle.{opened, rows-opened, do_sync_cases, do_sync-Keeps}
use nirantara.Edge.Delivery.Draining.{
  SelectLaws, Works, IsAccepted, calm, selected_rows, sync_open_drains,
}

-- What holds of the events of the rows holds of those of a batch.
All-batch :
    (P : Event → Type 0) (rows batch : List Row)
    → All P (map event_of rows)
    → All (IsUnflushed rows) batch
    → All P (map event_of batch)
All-batch P rows [] all from = tt
All-batch P rows (r ∷ batch) all from = (
  All-IsRow (λ x. P (event_of x)) rows r (rows_of rows all) from.0.0,
  All-batch P rows batch all from.1,
)
  where
    rows_of : (xs : List Row) → All P (map event_of xs) → All (λ x. P (event_of x)) xs
    rows_of [] h = tt
    rows_of (x ∷ xs) h = (h.0, rows_of xs h.1)

-- When no row is left, what is flagged is all there is.
all-IsStored :
    (ctx : Context) (beyond : ℕ → Bytes) (table : List GameEvent) (rows : List Row)
    → unflushed rows ≡ 0
    → All (Delivered ctx beyond table) rows
    → All (IsStored ctx beyond table) (map event_of rows)
unfolding unflushed
all-IsStored ctx beyond table [] none_left h = tt
all-IsStored ctx beyond table (r ∷ rows) none_left h =
    (h.0 (flagged r.flushed (omega arith)), all-IsStored ctx beyond table rows (omega arith) h.1)
  where
    flagged : (b : Bool) → one_unless b ≡ 0 → b ≡ true
    flagged true e = refl
    flagged false e = absurd (omega arith)

module _ (ctx : Context) (beyond : ℕ → Bytes) (p : Postgres) (server : PostgresLaws p) (q : Sqlite)
    (works : Works ctx p q) (sqlite : SqliteLaws q) (selects : SelectLaws q sqlite)
    (has_memory : ℕ → Bool) (memory : (n : ℕ) → has_memory n ≡ true) where
  -- That many rounds of the sync thread.
  pub cycles : ℕ → Disk q → p.Server → Disk q × p.Server
  cycles zero disk s = (disk, s)
  cycles (suc k) disk s =
      let (disk', s') = do_sync ctx beyond p q true has_memory disk s in cycles k disk' s'

  abbrev rows_at : Disk q → List Row
  rows_at disk = sqlite.rows (disk sync_db_path)

  do_sync_opened :
      (disk : Disk q) (s : p.Server)
      → (
        (do_sync ctx beyond p q true has_memory disk s).0 sync_db_path,
        (do_sync ctx beyond p q true has_memory disk s).1,
      )
        ≡ sync_open ctx beyond p q has_memory (opened ctx beyond p server q sqlite disk) s
  unfolding buffer_init
  do_sync_opened disk s =
      do_sync_cases ctx beyond p server q sqlite true has_memory disk s
      ∙ rw (works.opens (disk sync_db_path)) refl

  accepted_batch :
      (disk : Disk q)
      → All (IsAccepted ctx beyond p server) (map event_of (rows_at disk))
      → All (IsAccepted ctx beyond p server) (
          map event_of (
            selected_rows ctx beyond p server q works sqlite selects has_memory memory
              (opened ctx beyond p server q sqlite disk)))
  accepted_batch disk all =
      let db = opened ctx beyond p server q sqlite disk in
      All-batch (IsAccepted ctx beyond p server) (sqlite.rows db) _
        (rw (rows-opened ctx beyond p server q sqlite disk) all)
        (sqlite.select_unflushed flush_limit db)

  do_sync_drains :
      (disk : Disk q) (s : p.Server)
      → IsSafe ctx beyond p server q sqlite (disk sync_db_path) s
      → All (IsAccepted ctx beyond p server) (map event_of (rows_at disk))
      → unflushed (rows_at (do_sync ctx beyond p q true has_memory disk s).0)
          + min flush_limit (unflushed (rows_at disk))
        ≡ unflushed (rows_at disk)
  do_sync_drains disk s h all =
      let db = opened ctx beyond p server q sqlite disk in
      let same = rows-opened ctx beyond p server q sqlite disk in
      let drained =
        sync_open_drains ctx beyond p server q works sqlite selects has_memory memory db s
          (rw same h.nodup) (accepted_batch disk all) in
      let after =
        ap (λ (r : q.Db × p.Server). unflushed (sqlite.rows r.0)) (do_sync_opened disk s) in
      omega (arith, drained, after, ap unflushed same)

  -- While every call succeeds, there is memory, and the server accepts the events: after as many
  -- cycles as there are thousands of rows not flagged, or more, every row is flagged, and the server
  -- has a row with the key of each event that was buffered; if the ids are unique and the server has
  -- the events that were flagged before.
  pub cycles_deliver :
      (k : ℕ) (disk : Disk q) (s : p.Server)
      → IsSafe ctx beyond p server q sqlite (disk sync_db_path) s
      → All (IsAccepted ctx beyond p server) (map event_of (rows_at disk))
      → unflushed (rows_at disk) ≤ k * flush_limit
      → (unflushed (rows_at (cycles k disk s).0) ≡ 0)
        × All (IsStored ctx beyond (server.table (cycles k disk s).1)) (map event_of (rows_at disk))
  unfolding cycles
  cycles_deliver zero disk s h all few =
      let none_left : unflushed (rows_at disk) ≡ 0 = omega arith in
      (none_left, all-IsStored ctx beyond (server.table s) (rows_at disk) none_left h.delivered)
  cycles_deliver (suc k) disk s h all few =
      let (disk', s') = do_sync ctx beyond p q true has_memory disk s in
      let kept = do_sync-Keeps ctx beyond p server q sqlite true has_memory disk s h (
        calm ctx beyond p server q works sqlite selects has_memory memory
          (opened ctx beyond p server q sqlite disk) s (accepted_batch disk all)) in
      let fewer = do_sync_drains disk s h all in
      let (none_left, stored) =
        cycles_deliver k disk' s' kept.safe
          (subst (λ evs. All (IsAccepted ctx beyond p server) evs) (sym kept.same) all)
          (omega (arith, fewer)) in
      (
        none_left,
        subst (λ evs. All (IsStored ctx beyond (server.table (cycles k disk' s').1)) evs) kept.same
            stored,
      )
