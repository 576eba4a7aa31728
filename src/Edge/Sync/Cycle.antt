-- ===== src/Edge/Sync/Cycle.antt =====
-- One cycle of the sync thread: what `pg_flush` leaves in the buffer and on the server, and which
-- database `do_sync` works on.
use nirantara.Common.{
  ℕ, ◌≤◌, ◌<◌, ◌≡◌, ◌≢◌, refl, ◌∙◌, ap, Bool, true, false, none, some, List, [], ◌∷◌, map, length,
  All, arith,
}
use nirantara.Common.Text.{Bytes, equal}
use nirantara.Common.Text.Search.{equal_iff}
use nirantara.Edge.Buffer.{Event, Disk, put, buffer_init, mark_flushed}
use nirantara.Edge.Buffer.Mark.{updated, updated-all, flag, rows-mark_flushed}
use nirantara.Edge.Postgres.{Postgres, PostgresLaws}
use nirantara.Edge.Sqlite.{Sqlite, SqliteLaws, int, update_sql}
use nirantara.Edge.Sync.{Context, pg_upsert, pg_flush, do_sync, sync_db_path}
use nirantara.Edge.Sync.Flush.{
  id_of, IsStored, pg_upsert_stores, pg_upsert_rolls_back, pg_upsert_unreachable,
}

module _ (ctx : Context) (beyond : ℕ → Bytes) (p : Postgres) (q : Sqlite) where
  pub pg_flush_marks :
      (events : List Event) (db : q.Db) (s : p.Server) (ids : List ℕ)
      → (pg_upsert ctx beyond p events s).0 ≡ some ids
      → (pg_flush ctx beyond p q events db s).0 ≡ (mark_flushed q ids db).1
  unfolding pg_flush
  pg_flush_marks events db s ids h = ground arith

  pub pg_flush_server :
      (events : List Event) (db : q.Db) (s : p.Server)
      → (pg_flush ctx beyond p q events db s).1 ≡ (pg_upsert ctx beyond p events s).1
  unfolding pg_flush
  pg_flush_server events db s = refl

  module _ (server : PostgresLaws p) (sqlite : SqliteLaws q) where
    -- The buffer's statements succeed: the UPDATE is prepared, and COMMIT ends well.
    abbrev pub BufferWorks : List ℕ → q.Db → Type 0
    BufferWorks ids db =
        (q.prepare update_sql (q.exec "BEGIN;" db).1 ≡ true) × ((mark_flushed q ids db).0 ≡ true)

    -- A batch that is not empty and that the server acknowledges whole, where COMMIT succeeds on both
    -- sides and the UPDATE can be prepared: the server has a row with the key of every event, and in
    -- the buffer just the rows of the batch whose UPDATE was carried out are flagged in addition.
    pub pg_flush_delivers :
        (events : List Event) (db : q.Db) (s : p.Server) (id : ℕ) (ids : List ℕ)
        → (pg_upsert ctx beyond p events s).0 ≡ some (id ∷ ids)
        → length events ≤ length (id ∷ ids)
        → ((t : p.Server) → (p.exec "COMMIT" t).0 ≡ true)
        → BufferWorks (id ∷ ids) db
        → All (IsStored ctx beyond (server.table (pg_flush ctx beyond p q events db s).1)) events
          × (sqlite.rows (pg_flush ctx beyond p q events db s).0
              ≡ map (flag (updated q sqlite (id ∷ ids) (q.exec "BEGIN;" db).1)) (sqlite.rows db))
          × (id ∷ ids ≡ map id_of events)
    pg_flush_delivers events db s id ids h all commits works =
        let (same, _, stored) =
          pg_upsert_stores ctx beyond p server events s (id ∷ ids) h all commits in
        (
          rw (pg_flush_server events db s) stored,
          ap sqlite.rows (pg_flush_marks events db s (id ∷ ids) h)
              ∙ rows-mark_flushed q sqlite id ids db works.0 works.1,
          same,
        )

    -- A batch of which the server acknowledged some events and refused another, where the buffer's
    -- statements succeed: exactly the rows of those acknowledged are flagged in addition, and the
    -- server's table is as before, without any of them that it did not have.
    pub pg_flush_loses :
        (events : List Event) (db : q.Db) (s : p.Server) (id : ℕ) (ids : List ℕ)
        → (pg_upsert ctx beyond p events s).0 ≡ some (id ∷ ids)
        → length (id ∷ ids) < length events
        → BufferWorks (id ∷ ids) db
        → ((x : ℕ) (d : q.Db) → (q.run update_sql (int x ∷ []) d).0 ≡ true)
        → (server.table (pg_flush ctx beyond p q events db s).1 ≡ server.table s)
          × (sqlite.rows (pg_flush ctx beyond p q events db s).0
              ≡ map (flag (id ∷ ids)) (sqlite.rows db))
    pg_flush_loses events db s id ids h fewer works updates = (
      ap server.table (pg_flush_server events db s)
          ∙ pg_upsert_rolls_back ctx beyond p server events s (id ∷ ids) h fewer,
      ap sqlite.rows (pg_flush_marks events db s (id ∷ ids) h)
          ∙ rows-mark_flushed q sqlite id ids db works.0 works.1
          ∙ ap (λ l. map (flag l) (sqlite.rows db))
              (updated-all q sqlite (id ∷ ids) (q.exec "BEGIN;" db).1 updates),
    )

    -- While the server cannot be reached, or refuses the statement, the buffer and
    -- the server's table are as before.
    pub pg_flush_retries :
        (events : List Event) (db : q.Db) (s : p.Server)
        → (pg_upsert ctx beyond p events s).0 ≡ none
        → ((pg_flush ctx beyond p q events db s).0 ≡ db)
          × (server.table (pg_flush ctx beyond p q events db s).1 ≡ server.table s)
    pg_flush_retries events db s h = (
      unfold pg_flush in ground arith,
      ap server.table (pg_flush_server events db s)
          ∙ pg_upsert_unreachable ctx beyond p server events s h,
    )

  put_other :
      (disk : Disk q) (path other : Bytes) (db : q.Db)
      → path ≢ other
      → put q disk path db other ≡ disk other
  put_other disk path other db h = ground (arith, equal_iff path other)

  -- `do_sync` changes no database but the one at the fixed path, and what it does to the server
  -- depends on that one alone: the events of an agent whose buffer lies elsewhere are never sent.
  pub do_sync_elsewhere :
      (has_array : Bool) (has_memory : ℕ → Bool) (disk disk' : Disk q) (s : p.Server) (path : Bytes)
      → path ≢ sync_db_path
      → disk sync_db_path ≡ disk' sync_db_path
      → ((do_sync ctx beyond p q has_array has_memory disk s).0 path ≡ disk path)
        × ((do_sync ctx beyond p q has_array has_memory disk s).1
            ≡ (do_sync ctx beyond p q has_array has_memory disk' s).1)
  unfolding do_sync buffer_init
  do_sync_elsewhere has_array has_memory disk disk' s path ne same =
      let differs : equal sync_db_path path ≡ false = ground (arith, equal_iff sync_db_path path) in
      (ground arith, ground (arith, equal_iff sync_db_path sync_db_path))
