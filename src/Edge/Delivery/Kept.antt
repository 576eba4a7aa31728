-- ===== src/Edge/Delivery/Kept.antt =====
-- What becomes of a message that `on_message` of edge/src/main.c accepts.
use nirantara.Common.{
  ℕ, ◌≡◌, refl, ◌∙◌, ap, true, false, inl, inr, none, some, List, [], ◌∷◌, ◌++◌, map, Bool-cases,
  append_assoc,
}
use nirantara.Common.Text.{Bytes, cstr}
use nirantara.Common.{◌⊎◌, ◌-◌, take, length, ltb, if◌then◌else◌}
use nirantara.Edge.Delivery.Rows.{All-IsRow}
use nirantara.Edge.Sync.Flush.{IsStored}
use nirantara.Edge.Agent.{on_message}
use nirantara.Edge.Buffer.{Event, max_topic, event_of, Disk, buffer_event_insert, insert_into}
use nirantara.Edge.Postgres.{Postgres, PostgresLaws}
use nirantara.Edge.Sqlite.{Row, IsRow, Sqlite, SqliteLaws, insert_sql}
use nirantara.Edge.Sync.{Context, sync_db_path}
use nirantara.Edge.Delivery.{Delivered}
use nirantara.Edge.Delivery.Flushing.{IsSafe}
use nirantara.Edge.Delivery.Cycle.{put_self}
use nirantara.Edge.Delivery.Arriving.{InsertLaws, map-append}
use nirantara.Edge.Delivery.Steps.{World, Reach, message, Step-Extends, Reach-Extends}

-- The row of a buffered event.
row_of :
    (rows : List Row) (ev : Event) (front more : List Event)
    → map event_of rows ≡ front ++ (ev ∷ more)
    → (r : Row) × IsRow r rows × (event_of r ≡ ev)
row_of [] ev [] more e = cc
row_of [] ev (x ∷ front) more e = cc
row_of (r ∷ rows) ev [] more e = (r, inl refl, cc)
row_of (r ∷ rows) ev (x ∷ front) more e =
    let (y, m, same) = row_of rows ev front more (cc) in (y, inr m, same)

module _ (ctx : Context) (beyond : ℕ → Bytes) (p : Postgres) (server : PostgresLaws p) (q : Sqlite)
    (sqlite : SqliteLaws q) where
  module _ (inserts : InsertLaws q sqlite) where
    abbrev rows_at : World ctx beyond p server q sqlite → List Row
    rows_at w = sqlite.rows (w.0 sync_db_path)

    accepted_row :
        (topic payload : Bytes) (disk : Disk q)
        → (on_message q (some sync_db_path) topic (some payload) disk).0 ≡ true
        → (r : Row) × (sqlite.rows
              ((on_message q (some sync_db_path) topic (some payload) disk).1 sync_db_path)
            ≡ sqlite.rows (disk sync_db_path) ++ r ∷ [])
          × (r.topic ≡ topic)
          × (r.payload ≡ payload)
    unfolding on_message buffer_event_insert insert_into
    accepted_row topic payload disk h =
        let db = disk sync_db_path in
        elim (Bool-cases (q.prepare insert_sql db)) [
          | inl e ↦
              let (r, rows, _, topic_eq, payload_eq, _) =
                inserts.inserted topic payload db (rw e at h) in
              (r, rw (put_self q disk sync_db_path, e) rows, topic_eq, payload_eq)
          | inr e ↦ cc (rw e at h)
        ]

    pub kept_by_key :
        (w v : World ctx beyond p server q sqlite) (topic payload : Bytes)
        → IsSafe ctx beyond p server q sqlite (w.0 sync_db_path) w.1
        → (on_message q (some sync_db_path) topic (some payload) w.0).0 ≡ true
        → Reach ctx beyond p server q sqlite
            ((on_message q (some sync_db_path) topic (some payload) w.0).1, w.1)
            v
        → (r : Row) × IsRow r (rows_at v)
          × ((event_of r).topic ≡ take (max_topic - 1) (cstr topic))
          × ((event_of r).payload ≡ (if ltb 0 (length payload) then some payload else none))
          × ((r.flushed ≡ false) ⊎ IsStored ctx beyond (server.table v.1) (event_of r))
    unfolding event_of
    kept_by_key w v topic payload h done run =
        let first =
          Step-Extends ctx beyond p server q sqlite inserts (message topic payload w.0 w.1) h in
        let all = Reach-Extends ctx beyond p server q sqlite inserts run first.safe in
        let (new, rows, topic_eq, payload_eq) = accepted_row topic payload w.0 done in
        let front = map event_of (rows_at w) in
        let events : map event_of (rows_at v) ≡ front ++ (event_of new ∷ all.more) =
          all.same
          ∙ ap (λ rs. map event_of rs ++ all.more) rows
          ∙ ap (λ evs. evs ++ all.more) (map-append event_of (rows_at w) (new ∷ []))
          ∙ append_assoc front (event_of new ∷ []) all.more in
        let (r, m, same) = row_of (rows_at v) (event_of new) front all.more events in
        let delivered =
          All-IsRow (Delivered ctx beyond (server.table v.1)) (rows_at v) r all.safe.delivered m in
        (
          r,
          m,
          ap (λ ev. ev.topic) same ∙ rw topic_eq refl,
          ap (λ ev. ev.payload) same ∙ rw payload_eq refl,
          elim (Bool-cases r.flushed) [ inl sent ↦ inr (delivered sent) | inr e ↦ inl e ],
        )
