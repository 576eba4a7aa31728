-- ===== src/Edge/Delivery/Found.antt =====
-- What becomes of a message that `on_message` of edge/src/main.c accepts, at the server.
use nirantara.Common.{
  ℕ, ◌≡◌, ap, sym, subst, ◌∙◌, ◌⊎◌, inl, inr, true, false, Bool-cases, none, some, List, [], ◌∷◌,
  ◌-◌, take, ltb, length, if◌then◌else◌, All, All-append,
}
use nirantara.Common.Text.{Bytes, cstr}
use nirantara.Edge.Agent.{on_message}
use nirantara.Edge.Buffer.{event_of, max_topic}
use nirantara.Edge.Postgres.{Postgres, PostgresLaws, GameEvent, same_key, has_key}
use nirantara.Edge.Sqlite.{Row, IsRow, Sqlite, SqliteLaws}
use nirantara.Edge.Sync.{Context, sync_db_path, game_event}
use nirantara.Edge.Delivery.Arriving.{InsertLaws}
use nirantara.Edge.Delivery.Flushing.{IsSafe}
use nirantara.Edge.Delivery.Growth.{IsSentFor, IsSentFor-after, All-weaken}
use nirantara.Edge.Delivery.Kept.{kept_by_key}
use nirantara.Edge.Delivery.Sent.{IsTerminated, IsCopy, game_event-IsCopy, table-Grows}
use nirantara.Edge.Delivery.Steps.{World, Reach, message, Step-Extends, Reach-Extends}

abbrev pub IsIn : GameEvent → List GameEvent → Type 0
IsIn e [] = ⊥
IsIn e (x ∷ table) = (x ≡ e) ⊎ IsIn e table

module _ (ctx : Context) (beyond : ℕ → Bytes) where
  -- No two of the events have one key, which is the device, the topic and the second.
  abbrev pub HasKeys : List Row → Type 0
  HasKeys rows =
      (r : Row) (r' : Row)
      → IsRow r rows
      → IsRow r' rows
      → same_key (game_event ctx beyond (event_of r)) (game_event ctx beyond (event_of r')) ≡ true
      → event_of r' ≡ event_of r

  -- In a table of what was sent for these rows, the row with the key of one is its own.
  own_row :
      (rows : List Row) (r : Row) (table : List GameEvent)
      → HasKeys rows
      → IsRow r rows
      → All (IsSentFor ctx beyond rows) table
      → has_key (game_event ctx beyond (event_of r)) table ≡ true
      → IsIn (game_event ctx beyond (event_of r)) table
  unfolding has_key
  own_row rows r [] keys m sent h = cc
  own_row rows r (x ∷ table) keys m ((r', m', is), sent) h =
      let e = game_event ctx beyond (event_of r) in
      elim (Bool-cases (same_key x e)) [
        | inl same ↦ inl (
            is
            ∙ ap (game_event ctx beyond)
                (sym (keys r' r m' m (subst (λ y. same_key y e ≡ true) is same))))
        | inr other ↦ inr (own_row rows r table keys m sent (rw other at h))
      ]

  module _ (ends : IsTerminated beyond) (p : Postgres) (server : PostgresLaws p) (q : Sqlite)
      (sqlite : SqliteLaws q) (inserts : InsertLaws q sqlite) where
    abbrev rows_at : World ctx beyond p server q sqlite → List Row
    rows_at w = sqlite.rows (w.0 sync_db_path)

    -- Once `on_message` has accepted a message, its event is in the buffer after any further messages,
    -- cycles and signals, and cycles in which messages arrive once the batch has been read; and it is
    -- not yet flagged, or the server has a copy of it, with its topic, and its payload up to the first
    -- NUL. This is so if in the end no two buffered events have one key (device, topic and second),
    -- since the server keeps only the first of these; while no other client writes to the table,
    -- which at first has only what was sent from this buffer; and if the memory behind each payload
    -- begins with a NUL. The buffer lies at the path of the sync thread, at first its ids are unique
    -- and the server has what is flagged, and in no cycle a transaction fails in its middle.
    pub message_kept :
        (w v : World ctx beyond p server q sqlite) (topic payload : Bytes)
        → IsSafe ctx beyond p server q sqlite (w.0 sync_db_path) w.1
        → All (IsSentFor ctx beyond (rows_at w)) (server.table w.1)
        → (on_message q (some sync_db_path) topic (some payload) w.0).0 ≡ true
        → Reach ctx beyond p server q sqlite
            ((on_message q (some sync_db_path) topic (some payload) w.0).1, w.1)
            v
        → HasKeys (rows_at v)
        → (r : Row) × IsRow r (rows_at v)
          × ((event_of r).topic ≡ take (max_topic - 1) (cstr topic))
          × ((event_of r).payload ≡ (if ltb 0 (length payload) then some payload else none))
          × ((r.flushed ≡ false)
              ⊎ ((x : GameEvent) × IsIn x (server.table v.1) × IsCopy ctx (event_of r) x))
    message_kept w v topic payload h own done run keys =
        let (r, m, topic_eq, payload_eq, kept) =
          kept_by_key ctx beyond p server q sqlite inserts w v topic payload h done run in
        let first =
          Step-Extends ctx beyond p server q sqlite inserts (message topic payload w.0 w.1) h in
        let start : World ctx beyond p server q sqlite =
          ((on_message q (some sync_db_path) topic (some payload) w.0).1, w.1) in
        let all = Reach-Extends ctx beyond p server q sqlite inserts run first.safe in
        let grown = table-Grows ctx beyond p server q sqlite inserts start v first.safe run in
        let Sent = IsSentFor ctx beyond (rows_at v) in
        let old : All Sent (server.table w.1) =
          All-weaken (IsSentFor ctx beyond (rows_at w)) Sent (server.table w.1)
            (λ x s.
              IsSentFor-after ctx beyond (rows_at start) (rows_at v) all.more all.same x
                (IsSentFor-after ctx beyond (rows_at w) (rows_at start) first.more first.same x s))
            own in
        let sent : All Sent (server.table v.1) =
          subst (All Sent) (sym grown.behind)
            (All-append Sent (server.table w.1) grown.new old grown.fine) in
        (
          r,
          m,
          topic_eq,
          payload_eq,
          elim kept [
            | inl unsent ↦ inl unsent
            | inr stored ↦ inr (
              game_event ctx beyond (event_of r),
              own_row (rows_at v) r (server.table v.1) keys m sent stored,
              game_event-IsCopy ctx beyond ends (event_of r),
            )
          ],
        )
