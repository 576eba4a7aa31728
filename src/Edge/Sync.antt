-- ===== src/Edge/Sync.antt =====
-- edge/src/sync.c.
pub mod DeviceId
pub mod Flush
pub mod Cycle
pub mod Thread
use Prim.Native.String.{String}
use nirantara.Common.{
  ℕ, zero, suc, ◌+◌, ◌-◌, ◌≡◌, Bool, true, false, not, ◌&&◌, Option, none, some, List, [], ◌∷◌,
  ◌++◌, ltb, ◌==◌, if◌then◌else◌, length, take,
}
use nirantara.Common.Number.Print.{print}
use nirantara.Common.Text.{Bytes, codes, cstr, strchr}
use nirantara.Edge.Buffer.{Event, flush_limit, buffer_init, read_unflushed, mark_flushed, Disk, put}
use nirantara.Edge.Postgres.{Postgres, GameEvent, upsert_sql}
use nirantara.Edge.Sqlite.{Sqlite}

-- SYNC_DB_PATH, which is BUFFER_DB_PATH
abbrev pub sync_db_path : Bytes
sync_db_path = codes "/var/lib/nirantara/edge.db"

-- `sync_ctx_t`; the flag `stop` belongs to the thread below.
pub record Context : Type 0 where
  pub pg_connstr : Bytes
  pub edge_node_id : Bytes
  pub interval_sec : ℕ

-- `end ? end - p : strlen(p)` bytes from `p` on, where `end` is the next slash.
abbrev pub segment : Bytes → Option (Bytes × Bytes) → Bytes
segment rest none = rest
segment rest (some (front, _)) = front

-- `if (len >= out_len) len = out_len - 1;` and the copy.
abbrev pub fit : ℕ → Bytes → Bytes
fit out_len id = take (if ltb (length id) out_len then length id else out_len - 1) id

abbrev pub device_at : ℕ → Option (Bytes × Bytes) → Bytes
device_at out_len none = take (out_len - 1) (codes "unknown")
device_at out_len (some (_, [])) = []
device_at out_len (some (_, _ ∷ rest)) = fit out_len (segment rest (strchr rest b'/'))

-- `extract_device_id` with room for `out_len` bytes.
unfoldable pub extract_device_id : Bytes → ℕ → Bytes
extract_device_id topic out_len = device_at out_len (strchr topic b'/')

-- The text that libpq reads for a text parameter: it goes on to the first NUL. The payload has
-- none of its own, so `beyond`, the memory behind it, is read as well.
unfoldable pub payload_text : Bytes → Option Bytes → Option Bytes
unfolding cstr
payload_text beyond none = none
payload_text beyond (some payload) = some (cstr (payload ++ beyond))

module _ (ctx : Context) (beyond : ℕ → Bytes) where
  -- `params`, with 64 bytes for the device id.
  unfoldable pub game_event : Event → GameEvent
  unfolding payload_text
  game_event ev = record {
    device_id = extract_device_id ev.topic 64;
    topic = ev.topic;
    payload = payload_text (beyond ev.id) ev.payload;
    ts = print ev.ts;
    edge_node = ctx.edge_node_id;
  }

  module _ (p : Postgres) where
    -- The loop of `pg_flush`: the ids that the server acknowledged, in order.
    unfoldable pub upsert_loop : List Event → p.Server → List ℕ × p.Server
    upsert_loop [] s = ([], s)
    upsert_loop (ev ∷ events) s =
        let (fine, s') = p.exec_prepared upsert_sql (game_event ev) s in
        let (ids, last) = upsert_loop events s' in (if fine then ev.id ∷ ids else ids, last)

    -- The part of `pg_flush` that talks to the server: `none` where it returns -1. The results of
    -- BEGIN and COMMIT are not read.
    unfoldable pub pg_upsert : List Event → p.Server → Option (List ℕ) × p.Server
    unfolding upsert_loop
    pg_upsert events s =
        let (connected, s1) = p.connect ctx.pg_connstr s in
        let (prepared, s2) = p.prepare upsert_sql s1 in
        let (ids, s3) = upsert_loop events (p.exec "BEGIN" s2).1 in
        if not connected
        then (none, s1)
        else if not prepared
        then (none, s2)
        else (some ids, (p.exec "COMMIT" s3).1)

    module _ (q : Sqlite) where
      -- `pg_flush` on the connection to the buffer.
      unfoldable pub pg_flush : List Event → q.Db → p.Server → q.Db × p.Server
      pg_flush events db s =
          let (ids, s') = pg_upsert events s in
          (elim ids [ none ↦ db | some acknowledged ↦ (mark_flushed q acknowledged db).1 ], s')

      -- The steps of `do_sync` once the buffer is open. A count of 0 or -1 is only logged.
      unfoldable pub sync_open : (ℕ → Bool) → q.Db → p.Server → q.Db × p.Server
      unfolding pg_flush
      sync_open has_memory db s =
          let (events, count) = read_unflushed q has_memory flush_limit db in
          elim count [ none ↦ (db, s) | some n ↦ if n == 0 then (db, s) else pg_flush events db s ]

      -- `do_sync`: the buffer is opened at a fixed path. `has_array` is the outcome of `calloc`.
      unfoldable pub do_sync : Bool → (ℕ → Bool) → Disk q → p.Server → Disk q × p.Server
      unfolding sync_open
      do_sync has_array has_memory disk s =
          let (fine, disk') = buffer_init q sync_db_path disk in
          let (db, s') = sync_open has_memory (disk' sync_db_path) s in
          if not (fine && has_array) then (disk', s) else (put q disk' sync_db_path db, s')

-- `sync_flush_now` on a context that may be null.
unfoldable pub sync_flush_now :
    Option Context
    → (ℕ → Bytes)
    → (p : Postgres) (q : Sqlite) → Bool
    → (ℕ → Bool)
    → Disk q
    → p.Server
    → Disk q × p.Server
sync_flush_now none beyond p q has_array has_memory disk s = (disk, s)
sync_flush_now (some ctx) beyond p q has_array has_memory disk s =
    do_sync ctx beyond p q has_array has_memory disk s
