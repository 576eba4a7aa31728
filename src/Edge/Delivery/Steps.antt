-- ===== src/Edge/Delivery/Steps.antt =====
-- The life of an agent's buffer: messages of `on_message` and cycles of the sync thread, in any
-- order, and at the same time.
use nirantara.Common.{
  ℕ, ◌≡◌, ◌∙◌, ap, sym, Bool, true, false, some, List, [], ◌∷◌, ◌++◌, map, append_assoc, append-nil,
}
use nirantara.Common.Text.{Bytes}
use nirantara.Edge.Sync.Cycle.{BufferWorks}
use nirantara.Edge.Delivery.Arriving.{InsertLaws, on_message_rows, Delivered-Adds, map-append}
use nirantara.Edge.Delivery.Overlap.{disk_during, overlapped, overlapped-Overlaps}
use nirantara.Edge.Buffer.{flush_limit, read_unflushed, buffer_init}
use nirantara.Common.{◌==◌}
use nirantara.Edge.Agent.{on_message, on_signal}
use nirantara.Edge.Buffer.{Event, event_of, Disk}
use nirantara.Edge.Postgres.{Postgres, PostgresLaws}
use nirantara.Edge.Sqlite.{Row, Sqlite, SqliteLaws}
use nirantara.Edge.Sync.{Context, do_sync, sync_db_path}
use nirantara.Edge.Delivery.Flushing.{IsSafe, IsCalm}
use nirantara.Edge.Delivery.Cycle.{opened, do_sync-Keeps}

module _ (ctx : Context) (beyond : ℕ → Bytes) (p : Postgres) (server : PostgresLaws p) (q : Sqlite)
    (sqlite : SqliteLaws q) where
  -- The disk and the server.
  abbrev pub World : Type 0
  World = Disk q × p.Server

  -- A message for the buffer that is open at the path, or a cycle or the flush of a signal, in which
  -- no transaction fails in its middle.
  pub data Step : World → World → Type 0 where
    message :
        (topic payload : Bytes) (disk : Disk q) (s : p.Server)
        → Step (disk, s) ((on_message q (some sync_db_path) topic (some payload) disk).1, s)
    cycle :
        (has_array : Bool) (has_memory : ℕ → Bool) (disk : Disk q) (s : p.Server)
        → IsCalm ctx beyond p server q sqlite has_memory
            (opened ctx beyond p server q sqlite disk)
            s
        → Step (disk, s) (do_sync ctx beyond p q has_array has_memory disk s)
    signal :
        (has_array : Bool) (has_memory : ℕ → Bool) (disk : Disk q) (s : p.Server)
        → IsCalm ctx beyond p server q sqlite has_memory
            (opened ctx beyond p server q sqlite disk)
            s
        → Step
            (disk, s)
            (
              (on_signal ctx beyond p q has_array has_memory disk s).1,
              (on_signal ctx beyond p q has_array has_memory disk s).2,
            )
    -- A cycle that sends a batch, with messages that arrive once it has been read. None comes in
    -- while the rows are marked, which is one transaction.
    overlap :
        (has_memory : ℕ → Bool) (messages : List (Bytes × Bytes)) (disk : Disk q) (s : p.Server)
        (n : ℕ)
        → (buffer_init q sync_db_path disk).0 ≡ true
        → IsCalm ctx beyond p server q sqlite has_memory
            (opened ctx beyond p server q sqlite disk)
            s
        → ((id : ℕ) (ids : List ℕ)
            → BufferWorks ctx beyond p q server sqlite
                (id ∷ ids)
                (disk_during ctx beyond p q messages disk sync_db_path))
        → (read_unflushed q has_memory flush_limit (opened ctx beyond p server q sqlite disk)).1
          ≡ some n
        → (n == 0) ≡ false
        → Step (disk, s) (overlapped ctx beyond p q has_memory messages disk s)

  pub data Reach (w : World) : World → Type 0 where
    here : Reach w w
    later : {v u : World} → Reach w v → Step v u → Reach w u

  module _ (inserts : InsertLaws q sqlite) where
    abbrev rows_of : World → List Row
    rows_of w = sqlite.rows (w.0 sync_db_path)

    -- What a run keeps: the ids are unique, what is flagged is at the server, and the buffer has the
    -- events that it had, and more behind them.
    pub record Extends (w v : World) : Type 0 where
      pub safe : IsSafe ctx beyond p server q sqlite (v.0 sync_db_path) v.1
      pub more : List Event
      pub same : map event_of (rows_of v) ≡ map event_of (rows_of w) ++ more

    pub Step-Extends :
        {w v : World}
        → Step w v
        → IsSafe ctx beyond p server q sqlite (w.0 sync_db_path) w.1
        → Extends w v
    unfolding on_signal
    Step-Extends (message topic payload disk s) h =
        let rows = sqlite.rows (disk sync_db_path) in
        let adds = on_message_rows q sqlite inserts topic payload disk in
        record {
          safe = record {
            nodup = adds.nodup h.nodup;
            delivered = Delivered-Adds ctx beyond (server.table s) rows _ adds h.delivered;
          };
          more = map event_of adds.added;
          same = ap (map event_of) adds.behind ∙ map-append event_of rows adds.added;
        }
    Step-Extends (cycle has_array has_memory disk s calm) h =
        let kept = do_sync-Keeps ctx beyond p server q sqlite has_array has_memory disk s h calm in
        record { safe = kept.safe; more = []; same = kept.same ∙ sym (append-nil _) }
    Step-Extends (signal has_array has_memory disk s calm) h =
        let kept = do_sync-Keeps ctx beyond p server q sqlite has_array has_memory disk s h calm in
        record { safe = kept.safe; more = []; same = kept.same ∙ sym (append-nil _) }
    Step-Extends (overlap has_memory messages disk s n opens calm marks count some_read) h =
        let kept =
          overlapped-Overlaps ctx beyond p q server sqlite inserts has_memory messages disk s n h
            calm marks count in
        record { safe = kept.safe; more = kept.more; same = kept.same }

    pub Reach-Extends :
        {w v : World}
        → Reach w v
        → IsSafe ctx beyond p server q sqlite (w.0 sync_db_path) w.1
        → Extends w v
    Reach-Extends here h = record { safe = h; more = []; same = sym (append-nil _) }
    Reach-Extends (later r step) h =
        let before = Reach-Extends r h in
        let after = Step-Extends step before.safe in
        record {
          safe = after.safe;
          more = before.more ++ after.more;
          same =
              after.same
              ∙ ap (λ evs. evs ++ after.more) before.same
              ∙ append_assoc _ before.more after.more;
        }
