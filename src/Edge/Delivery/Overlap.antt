-- ===== src/Edge/Delivery/Overlap.antt =====
-- A cycle of edge/src/sync.c while messages arrive: `do_sync` reads a batch and sends it, and marks
-- it last, and `on_message` writes to the same buffer on the other connection in between.
use nirantara.Common.{
  ℕ, false, ◌==◌, ◌≡◌, refl, ◌∙◌, ap, Bool, true, some, List, [], ◌∷◌, ◌++◌, map, take, All-take,
}
use nirantara.Common.Text.{Bytes}
use nirantara.Edge.Buffer.{Event, event_of, Disk, put, flush_limit, read_unflushed, buffer_init}
use nirantara.Edge.Buffer.Read.{read_unflushed_copies}
use nirantara.Edge.Postgres.{Postgres, PostgresLaws}
use nirantara.Edge.Sqlite.{Sqlite, SqliteLaws, IsUnflushed, int, select_sql}
use nirantara.Edge.Sync.{Context, pg_flush, do_sync, sync_db_path}
use nirantara.Edge.Sync.Cycle.{BufferWorks}
use nirantara.Edge.Delivery.Arriving.{
  InsertLaws, map-append, IsUnflushed-Adds, Delivered-Adds, arrive, arrive-Adds,
}
use nirantara.Edge.Delivery.Flushing.{IsSafe, IsCalm, Keeps-unchanged, pg_flush-Keeps}
use nirantara.Edge.Delivery.Cycle.{opened, put_self, rows-opened, sync_open-some}

module _ (ctx : Context) (beyond : ℕ → Bytes) (p : Postgres) (q : Sqlite) where
  -- The disk once the batch has been read and these messages have come in.
  abbrev pub disk_during : List (Bytes × Bytes) → Disk q → Disk q
  disk_during messages disk = arrive q messages (buffer_init q sync_db_path disk).1

  -- `do_sync` where it sends a batch, with messages between the read and the flush.
  unfoldable pub overlapped :
      (ℕ → Bool) → List (Bytes × Bytes) → Disk q → p.Server → Disk q × p.Server
  overlapped has_memory messages disk s =
      let opened = (buffer_init q sync_db_path disk).1 sync_db_path in
      let events = (read_unflushed q has_memory flush_limit opened).0 in
      let during = disk_during messages disk in
      let (db, s') = pg_flush ctx beyond p q events (during sync_db_path) s in
      (put q during sync_db_path db, s')

  module _ (server : PostgresLaws p) (sqlite : SqliteLaws q) where
    -- Without messages this is `do_sync`.
    overlapped-nil :
        (has_memory : ℕ → Bool) (disk : Disk q) (s : p.Server) (n : ℕ)
        → (buffer_init q sync_db_path disk).0 ≡ true
        → (read_unflushed q has_memory flush_limit (opened ctx beyond p server q sqlite disk)).1
          ≡ some n
        → (n == 0) ≡ false
        → do_sync ctx beyond p q true has_memory disk s ≡ overlapped has_memory [] disk s
    unfolding do_sync overlapped arrive
    overlapped-nil has_memory disk s n opens count some_read =
        let db = opened ctx beyond p server q sqlite disk in
        rw (opens, sync_open-some ctx beyond p server q sqlite has_memory db s n count, some_read)
          refl

    -- What such a cycle keeps, and what the messages add.
    pub record Overlaps (disk disk' : Disk q) (s' : p.Server) : Type 0 where
      pub safe : IsSafe ctx beyond p server q sqlite (disk' sync_db_path) s'
      pub more : List Event
      pub same :
          map event_of (sqlite.rows (disk' sync_db_path))
          ≡ map event_of (sqlite.rows (disk sync_db_path)) ++ more

    pub overlapped-Overlaps :
        (inserts : InsertLaws q sqlite) (has_memory : ℕ → Bool) (messages : List (Bytes × Bytes))
        (disk : Disk q) (s : p.Server) (n : ℕ)
        → IsSafe ctx beyond p server q sqlite (disk sync_db_path) s
        → IsCalm ctx beyond p server q sqlite has_memory
            (opened ctx beyond p server q sqlite disk)
            s
        → ((id : ℕ) (ids : List ℕ)
            → BufferWorks ctx beyond p q server sqlite
                (id ∷ ids)
                (disk_during messages disk sync_db_path))
        → (read_unflushed q has_memory flush_limit (opened ctx beyond p server q sqlite disk)).1
          ≡ some n
        → Overlaps disk
            (overlapped has_memory messages disk s).0
            (overlapped has_memory messages disk s).1
    unfolding overlapped
    overlapped-Overlaps inserts has_memory messages disk s n h calm marks count =
        let at_path = disk sync_db_path in
        let db0 = opened ctx beyond p server q sqlite disk in
        let during = disk_during messages disk in
        let db1 = during sync_db_path in
        let rows = (q.query select_sql (int flush_limit ∷ []) db0).0 in
        let opens =
          Keeps-unchanged ctx beyond p server q sqlite at_path db0 s s h
            (rows-opened ctx beyond p server q sqlite disk) refl in
        let adds = arrive-Adds q sqlite inserts messages (buffer_init q sync_db_path disk).1 in
        let safe : IsSafe ctx beyond p server q sqlite db1 s = record {
          nodup = adds.nodup opens.safe.nodup;
          delivered =
              Delivered-Adds ctx beyond (server.table s) (sqlite.rows db0) (sqlite.rows db1) adds
                opens.safe.delivered;
        } in
        let (_, _, copies) = read_unflushed_copies q has_memory flush_limit n db0 count in
        let from = IsUnflushed-Adds (sqlite.rows db0) (sqlite.rows db1) (take n rows) adds (
          All-take (IsUnflushed (sqlite.rows db0)) n rows
            (sqlite.select_unflushed flush_limit db0)) in
        let kept =
          pg_flush-Keeps ctx beyond p server q sqlite (take n rows) db1 s safe from calm.commits
            marks (rw copies at calm.whole) in
        let flushed = pg_flush ctx beyond p q (map event_of (take n rows)) db1 s in
        record {
          safe = rw (copies, put_self q during sync_db_path flushed.0) kept.safe;
          more = map event_of adds.added;
          same =
              rw (copies, put_self q during sync_db_path flushed.0) kept.same
              ∙ ap (map event_of) adds.behind
              ∙ map-append event_of (sqlite.rows db0) adds.added
              ∙ ap (λ evs. evs ++ map event_of adds.added) opens.same;
        }
