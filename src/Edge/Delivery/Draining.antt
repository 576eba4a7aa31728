-- ===== src/Edge/Delivery/Draining.antt =====
-- Cycles in which every call succeeds: the buffer drains to the server.
use Prim.Native.Nat.{min}
use nirantara.Common.{
  ℕ, ◌+◌, ◌<◌, ◌≡◌, refl, ◌∙◌, ap, sym, subst, Bool, true, Option, some, List, [], ◌∷◌, map, ◌==◌,
  length, length-map, All, ◌≢◌, if-cases, if◌then◌else◌, arith,
}
use nirantara.Common.Text.{Bytes}
use nirantara.Common.Options.{some_eq}
use nirantara.Edge.Buffer.{Event, event_of, flush_limit, read_unflushed, mark_flushed, init_db}
use nirantara.Edge.Buffer.Mark.{flag, marks, marks-flag, updated, rows-mark_flushed}
use nirantara.Edge.Buffer.Read.{read_unflushed_all}
use nirantara.Edge.Postgres.{Postgres, PostgresLaws, GameEvent, active, upsert, upsert_sql}
use nirantara.Edge.Sqlite.{Row, Sqlite, SqliteLaws, int, update_sql, select_sql}
use nirantara.Edge.Sync.{Context, game_event, upsert_loop, pg_upsert, pg_flush, sync_open}
use nirantara.Edge.Sync.Cycle.{pg_flush_marks}
use nirantara.Edge.Sync.Flush.{id_of}
use nirantara.Edge.Delivery.{NodupIds, unflushed}
use nirantara.Edge.Delivery.Rows.{row_id}
use nirantara.Edge.Delivery.Counting.{unflushed-marks}
use nirantara.Edge.Delivery.Flushing.{IsCalm, ids_of_rows}
use nirantara.Edge.Delivery.Cycle.{sync_open-some}

-- The documented behaviour of the SELECT: as many of the rows as its limit allows, each once.
pub record SelectLaws (q : Sqlite) (laws : SqliteLaws q) : Type 0 where
  pub selected :
      (n : ℕ) (db : q.Db)
      → (q.query select_sql (int n ∷ []) db).1 ≡ true
      → length (q.query select_sql (int n ∷ []) db).0 ≡ min n (unflushed (laws.rows db))
  pub distinct :
      (n : ℕ) (db : q.Db)
      → NodupIds (laws.rows db)
      → NodupIds (q.query select_sql (int n ∷ []) db).0

-- The statements of a cycle succeed.
pub record Works (ctx : Context) (p : Postgres) (q : Sqlite) : Type 0 where
  pub opens : (db : q.Db) → (init_db q db).0 ≡ true
  pub selects : (db : q.Db) → q.prepare select_sql db ≡ true
  pub ends : (db : q.Db) → (q.query select_sql (int flush_limit ∷ []) db).1 ≡ true
  pub prepares_update : (db : q.Db) → q.prepare update_sql db ≡ true
  pub updates : (id : ℕ) (db : q.Db) → (q.run update_sql (int id ∷ []) db).0 ≡ true
  pub commits : (db : q.Db) → (q.exec "COMMIT;" db).0 ≡ true
  pub connects : (s : p.Server) → (p.connect ctx.pg_connstr s).0 ≡ true
  pub prepares : (s : p.Server) → (p.prepare upsert_sql s).0 ≡ true
  pub begins : (s : p.Server) → (p.exec "BEGIN" s).0 ≡ true
  pub server_commits : (s : p.Server) → (p.exec "COMMIT" s).0 ≡ true

module _ (ctx : Context) (beyond : ℕ → Bytes) (p : Postgres) (server : PostgresLaws p) where
  -- The server acknowledges the event in any transaction.
  abbrev pub IsAccepted : Event → Type 0
  IsAccepted ev =
      (s : p.Server) (view : List GameEvent)
      → server.transaction s ≡ active view
      → (p.exec_prepared upsert_sql (game_event ctx beyond ev) s).0 ≡ true

  loop_acknowledges :
      (events : List Event) (s : p.Server) (view : List GameEvent)
      → All IsAccepted events
      → server.transaction s ≡ active view
      → (upsert_loop ctx beyond p events s).0 ≡ map id_of events
  unfolding upsert_loop
  loop_acknowledges [] s view all h = refl
  loop_acknowledges (ev ∷ events) s view all h =
      let e = game_event ctx beyond ev in
      let fine = all.0 s view h in
      let (_, next) = server.upsert_done e s view h fine in
      rw fine (
        ap (λ ids. ev.id ∷ ids)
          (loop_acknowledges events (p.exec_prepared upsert_sql e s).1 (upsert e view) all.1 next))

  module _ (q : Sqlite) (works : Works ctx p q) where
    pg_upsert_acknowledges :
        (events : List Event) (s : p.Server)
        → All IsAccepted events
        → (pg_upsert ctx beyond p events s).0 ≡ some (map id_of events)
    unfolding pg_upsert
    pg_upsert_acknowledges events s all =
        let s1 = (p.connect ctx.pg_connstr s).1 in
        let s2 = (p.prepare upsert_sql s1).1 in
        let (_, i1) = server.connect_idle ctx.pg_connstr s in
        let (_, i2) = server.prepare_idle upsert_sql s1 i1 in
        let (_, a3) = server.begin_active s2 i2 (works.begins s2) in
        rw (works.connects s, works.prepares s1)
          (ap some (loop_acknowledges events (p.exec "BEGIN" s2).1 (server.table s2) all a3))

    module _ (sqlite : SqliteLaws q) (selects : SelectLaws q sqlite) (has_memory : ℕ → Bool)
        (memory : (n : ℕ) → has_memory n ≡ true) where
      abbrev pub selected_rows : q.Db → List Row
      selected_rows db = (q.query select_sql (int flush_limit ∷ []) db).0

      read_selected :
          (db : q.Db)
          → read_unflushed q has_memory flush_limit db
            ≡ (map event_of (selected_rows db), some (length (map event_of (selected_rows db))))
      read_selected db =
          read_unflushed_all q has_memory flush_limit db memory (omega arith) (works.selects db)
            (omega (arith, selects.selected flush_limit db (works.ends db))) (works.ends db)

      updated_all : (ids : List ℕ) (db : q.Db) → updated q sqlite ids db ≡ ids
      unfolding updated
      updated_all [] db = refl
      updated_all (id ∷ ids) db =
          rw (works.updates id db)
            (ap (λ rest. id ∷ rest) (updated_all ids (q.run update_sql (int id ∷ []) db).1))

      mark_works : (id : ℕ) (ids : List ℕ) (db : q.Db) → (mark_flushed q (id ∷ ids) db).0 ≡ true
      unfolding mark_flushed
      mark_works id ids db = works.commits _

      pub calm :
          (db : q.Db) (s : p.Server)
          → All IsAccepted (map event_of (selected_rows db))
          → IsCalm ctx beyond p server q sqlite has_memory db s
      calm db s all =
          let events = map event_of (selected_rows db) in
          record {
            whole = λ ids h.
                let same =
                  some_eq _ _
                    (sym (pg_upsert_acknowledges events s all) ∙ rw (read_selected db) at h) in
                rw (read_selected db) (omega (arith, ap length same, length-map id_of events));
            commits = works.server_commits;
            marks = λ id ids. (works.prepares_update _, mark_works id ids db);
          }

      -- The rows of a batch are flagged by the flush of their events.
      rows-pg_flush :
          (batch : List Row) (db : q.Db) (s : p.Server)
          → 0 < length batch
          → All IsAccepted (map event_of batch)
          → sqlite.rows (pg_flush ctx beyond p q (map event_of batch) db s).0
            ≡ marks (map row_id batch) (sqlite.rows db)
      rows-pg_flush [] db s h all = absurd (omega arith)
      rows-pg_flush (r ∷ batch) db s h all =
          let events = map event_of (r ∷ batch) in
          let ids = map row_id (r ∷ batch) in
          let acknowledged : (pg_upsert ctx beyond p events s).0 ≡ some ids =
            pg_upsert_acknowledges events s all ∙ ap some (ids_of_rows (r ∷ batch)) in
          let db1 = (q.exec "BEGIN;" db).1 in
          ap sqlite.rows (pg_flush_marks ctx beyond p q events db s ids acknowledged)
          ∙ rows-mark_flushed q sqlite r.id (map row_id batch) db (works.prepares_update _)
              (mark_works r.id (map row_id batch) db)
          ∙ ap (λ l. map (flag l) (sqlite.rows db)) (updated_all ids db1)
          ∙ sym (marks-flag ids (sqlite.rows db))

      pub sync_open_drains :
          (db : q.Db) (s : p.Server)
          → NodupIds (sqlite.rows db)
          → All IsAccepted (map event_of (selected_rows db))
          → unflushed (sqlite.rows (sync_open ctx beyond p q has_memory db s).0)
              + min flush_limit (unflushed (sqlite.rows db))
            ≡ unflushed (sqlite.rows db)
      sync_open_drains db s nodup all =
          let batch = selected_rows db in
          let events = map event_of batch in
          let read = read_selected db in
          let count = selects.selected flush_limit db (works.ends db) in
          let size = length-map event_of batch in
          let done : sync_open ctx beyond p q has_memory db s
              ≡ (if length events == 0 then (db, s) else pg_flush ctx beyond p q events db s) =
            sync_open-some ctx beyond p server q sqlite has_memory db s (length events)
              (ap (λ (r : List Event × Option ℕ). r.1) read)
            ∙ ap
                (λ (r : List Event × Option ℕ).
                  if length events == 0 then (db, s) else pg_flush ctx beyond p q r.0 db s)
                read in
          let Drained = λ (r : q.Db × p.Server).
            unflushed (sqlite.rows r.0) + min flush_limit (unflushed (sqlite.rows db))
            ≡ unflushed (sqlite.rows db) in
          subst Drained (sym done) (
            if-cases Drained (length events == 0)
              (λ e.
                let none_left : length events ≡ 0 = ground arith in
                omega (arith, count, size, none_left))
              (λ e.
                let some_left : length events ≢ 0 = ground arith in
                let flagged = rows-pg_flush batch db s (omega (arith, size, some_left)) all in
                let fewer =
                  unflushed-marks batch (sqlite.rows db) nodup
                    (selects.distinct flush_limit db nodup)
                    (sqlite.select_unflushed flush_limit db) in
                rw flagged (omega (arith, count, fewer))))
