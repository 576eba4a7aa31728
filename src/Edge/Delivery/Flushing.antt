-- ===== src/Edge/Delivery/Flushing.antt =====
-- `pg_flush` of edge/src/sync.c, while no transaction fails in its middle.
use nirantara.Common.{
  ℕ, ◌≤◌, ◌≡◌, refl, ◌∙◌, ap, subst, Bool, true, inl, inr, some, List, [], ◌∷◌, map, length, All,
  Option-cases, arith,
}
use nirantara.Common.Text.{Bytes}
use nirantara.Edge.Buffer.{Event, event_of, flush_limit, read_unflushed, mark_flushed}
use nirantara.Edge.Buffer.Mark.{contains, flag, updated, rows-mark_flushed, flag-nil}
use nirantara.Edge.Postgres.{Postgres, PostgresLaws, GameEvent, has_key}
use nirantara.Edge.Sqlite.{Row, Sqlite, SqliteLaws, IsUnflushed, int, update_sql}
use nirantara.Edge.Sync.{Context, pg_upsert, pg_flush}
use nirantara.Edge.Sync.Cycle.{BufferWorks, pg_flush_marks, pg_flush_server, pg_flush_retries}
use nirantara.Edge.Sync.Flush.{id_of, IsStored, upserts, has_key-upserts, pg_upsert_stores}
use nirantara.Edge.Delivery.{NodupIds, Delivered}
use nirantara.Edge.Delivery.Rows.{row_id, Delivered-map-flag, NodupIds-map-flag, map-flag-event_of}

contains-updated :
    (q : Sqlite) (laws : SqliteLaws q) (ids : List ℕ) (db : q.Db) (id : ℕ)
    → contains (updated q laws ids db) id ≡ true
    → contains ids id ≡ true
unfolding contains updated
contains-updated q laws [] db id h = h
contains-updated q laws (x ∷ ids) db id h =
    let (fine, db') = q.run update_sql (int x ∷ []) db in
    let rest = contains-updated q laws ids db' id in ground (arith, rest)

pub ids_of_rows : (batch : List Row) → map id_of (map event_of batch) ≡ map row_id batch
unfolding event_of
ids_of_rows [] = refl
ids_of_rows (r ∷ batch) = ap (λ ids. r.id ∷ ids) (ids_of_rows batch)

All-map_events :
    (P : Event → Type 0) (batch : List Row)
    → All P (map event_of batch)
    → All (λ r. P (event_of r)) batch
All-map_events P [] h = tt
All-map_events P (r ∷ batch) h = (h.0, All-map_events P batch h.1)

module _ (ctx : Context) (beyond : ℕ → Bytes) (p : Postgres) (server : PostgresLaws p) (q : Sqlite)
    (sqlite : SqliteLaws q) where
  -- What holds between two cycles: the ids are unique, and what is flagged is at the server.
  pub record IsSafe (db : q.Db) (s : p.Server) : Type 0 where
    pub nodup : NodupIds (sqlite.rows db)
    pub delivered : All (Delivered ctx beyond (server.table s)) (sqlite.rows db)

  -- No transaction fails in its middle: the server acknowledges a batch whole or not at all, and
  -- the COMMITs succeed.
  pub record IsCalm (has_memory : ℕ → Bool) (db : q.Db) (s : p.Server) : Type 0 where
    pub whole :
        (ids : List ℕ)
        → (pg_upsert ctx beyond p (read_unflushed q has_memory flush_limit db).0 s).0 ≡ some ids
        → length (read_unflushed q has_memory flush_limit db).0 ≤ length ids
    pub commits : (t : p.Server) → (p.exec "COMMIT" t).0 ≡ true
    pub marks : (id : ℕ) (ids : List ℕ) → BufferWorks ctx beyond p q server sqlite (id ∷ ids) db

  -- What a step keeps: what is above, and all that is buffered but the flags.
  pub record Keeps (db db' : q.Db) (s' : p.Server) : Type 0 where
    pub safe : IsSafe db' s'
    pub same : map event_of (sqlite.rows db') ≡ map event_of (sqlite.rows db)

  pub Keeps-unchanged :
      (db db' : q.Db) (s s' : p.Server)
      → IsSafe db s
      → sqlite.rows db' ≡ sqlite.rows db
      → server.table s' ≡ server.table s
      → Keeps db db' s'
  Keeps-unchanged db db' s s' h rows table = record {
    safe = record { nodup = rw rows h.nodup; delivered = rw (rows, table) h.delivered };
    same = ap (map event_of) rows;
  }

  Keeps-flag :
      (batch : List Row) (ids : List ℕ) (db db' : q.Db) (s s' : p.Server)
      → IsSafe db s
      → All (IsUnflushed (sqlite.rows db)) batch
      → ((id : ℕ) → contains ids id ≡ true → contains (map row_id batch) id ≡ true)
      → sqlite.rows db' ≡ map (flag ids) (sqlite.rows db)
      → server.table s' ≡ upserts ctx beyond (map event_of batch) (server.table s)
      → All (IsStored ctx beyond (server.table s')) (map event_of batch)
      → Keeps db db' s'
  Keeps-flag batch ids db db' s s' h from within rows table stored =
      let grows : (e : GameEvent)
          → has_key e (server.table s) ≡ true
          → has_key e (server.table s') ≡ true =
        λ e k. rw table (has_key-upserts ctx beyond e (map event_of batch) (server.table s) k) in
      record {
        safe = record {
          nodup = rw rows (NodupIds-map-flag ids (sqlite.rows db) h.nodup);
          delivered = rw rows (
              Delivered-map-flag ctx beyond (sqlite.rows db) batch ids (server.table s)
                (server.table s') h.nodup from within grows
                (All-map_events (IsStored ctx beyond (server.table s')) batch stored) h.delivered);
        };
        same = ap (map event_of) rows ∙ map-flag-event_of ids (sqlite.rows db);
      }

  module _ (batch : List Row) (db : q.Db) (s : p.Server) (h : IsSafe db s)
      (from : All (IsUnflushed (sqlite.rows db)) batch)
      (commits : (t : p.Server) → (p.exec "COMMIT" t).0 ≡ true)
      (marks : (id : ℕ) (ids : List ℕ)
        → BufferWorks ctx beyond p q server sqlite (id ∷ ids) db) where
    Keeps-mark_flushed :
        (ids : List ℕ)
        → (pg_upsert ctx beyond p (map event_of batch) s).0 ≡ some ids
        → length (map event_of batch) ≤ length ids
        → Keeps db (mark_flushed q ids db).1 (pg_upsert ctx beyond p (map event_of batch) s).1
    unfolding mark_flushed
    Keeps-mark_flushed [] e whole =
        let (_, table, stored) =
          pg_upsert_stores ctx beyond p server (map event_of batch) s [] e whole commits in
        Keeps-flag batch [] db db s _ h from (λ id. unfold contains in λ k. cc)
          (flag-nil (sqlite.rows db)) table stored
    Keeps-mark_flushed (id ∷ ids) e whole =
        let all = id ∷ ids in
        let (same, table, stored) =
          pg_upsert_stores ctx beyond p server (map event_of batch) s all e whole commits in
        let (prepared, committed) = marks id ids in
        let db1 = (q.exec "BEGIN;" db).1 in
        Keeps-flag batch (updated q sqlite all db1) db _ s _ h from
          (λ x k.
            subst (λ l. contains l x ≡ true) (same ∙ ids_of_rows batch)
              (contains-updated q sqlite all db1 x k))
          (rows-mark_flushed q sqlite id ids db prepared committed) table stored

    pub pg_flush-Keeps :
        ((ids : List ℕ)
          → (pg_upsert ctx beyond p (map event_of batch) s).0 ≡ some ids
          → length (map event_of batch) ≤ length ids)
        → Keeps db
            (pg_flush ctx beyond p q (map event_of batch) db s).0
            (pg_flush ctx beyond p q (map event_of batch) db s).1
    pg_flush-Keeps whole =
        let events = map event_of batch in
        elim (Option-cases (pg_upsert ctx beyond p events s).0) [
          | inl e ↦
              let (kept, table) = pg_flush_retries ctx beyond p q server sqlite events db s e in
              Keeps-unchanged db _ s _ h (ap sqlite.rows kept) table
          | inr (ids, e) ↦
              let r = Keeps-mark_flushed ids e (whole ids e) in
              rw
                (
                  pg_flush_marks ctx beyond p q events db s ids e,
                  pg_flush_server ctx beyond p q events db s,
                )
                r
        ]
