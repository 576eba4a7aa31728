-- ===== src/Edge/Buffer.antt =====
-- edge/src/buffer.c. A `buffer_t` is the path of the database that it has open, if any.
pub mod Read
pub mod Mark
use nirantara.Common.{
  ℕ, zero, suc, ◌+◌, ◌-◌, Bool, true, false, not, ◌&&◌, ◌||◌, Option, none, some, List, [], ◌∷◌,
  ltb, ◌==◌, if◌then◌else◌, length, take,
}
use nirantara.Common.Text.{Bytes, cstr, equal}
use nirantara.Edge.Sqlite.{
  Row, Sqlite, text, blob, int, schema, pragma_wal, insert_sql, select_sql, update_sql,
}

-- BUFFER_MAX_TOPIC and BUFFER_FLUSH_LIMIT
abbrev pub max_topic : ℕ
max_topic = 256

abbrev pub flush_limit : ℕ
flush_limit = 1000

-- `buffer_event_t`; `payload_len` is the length of the payload, or 0 where it is null.
pub record Event : Type 0 where
  pub id : ℕ
  pub topic : Bytes
  pub payload : Option Bytes
  pub ts : ℕ

-- The copy of one row, with the topic cut to the array. An empty blob is a null payload.
unfoldable pub event_of : Row → Event
event_of r = record {
  id = r.id;
  topic = take (max_topic - 1) (cstr r.topic);
  payload = if ltb 0 (length r.payload) then some r.payload else none;
  ts = r.ts;
}

-- The loop over `sqlite3_step`, on the rows to come, with the number already read. `has_memory n`
-- tells whether the n-th `malloc` succeeds; where it fails the loop breaks with the code SQLITE_ROW.
-- The result is the events filled in, and whether the last code was SQLITE_ROW or SQLITE_DONE.
unfoldable pub read_loop : (ℕ → Bool) → ℕ → ℕ → List Row → Bool → List Event × Bool
unfolding event_of
read_loop has_memory max count [] done = ([], done)
read_loop has_memory max count (r ∷ rows) done =
    let (events, fine) = read_loop has_memory max (count + 1) rows done in
    if not (ltb count max)
    then ([], true)
    else if ltb 0 (length r.payload) && not (has_memory count)
    then ([], true)
    else (event_of r ∷ events, fine)

-- `buffer_events_free` on the first `count` events: each payload is freed and set to null.
unfoldable pub events_free : ℕ → List Event → List Event
events_free zero events = events
events_free (suc count) [] = []
events_free (suc count) (ev ∷ events) = record ev { payload = none } ∷ events_free count events

-- The loop makes no round where the count is -1.
abbrev pub rounds : Option ℕ → ℕ
rounds none = 0
rounds (some n) = n

module _ (q : Sqlite) where
  -- The database files, by path.
  abbrev pub Disk : Type 0
  Disk = Bytes → q.Db

  abbrev pub put : Disk → Bytes → q.Db → Disk
  put disk path db other = if equal path other then db else disk other

  -- `exec` with its failure ending the function.
  unfoldable pub init_db : q.Db → Bool × q.Db
  init_db db =
      if not (q.open_db db)
      then (false, db)
      else (let (journal, db') = q.exec pragma_wal db in
          if journal then q.exec schema db' else (false, db'))

  -- `buffer_init` on a `buffer_t` that is not null.
  unfoldable pub buffer_init : Bytes → Disk → Bool × Disk
  unfolding init_db
  buffer_init path disk = let (fine, db) = init_db (disk path) in (fine, put disk path db)

  -- `buffer_close` on what is open.
  abbrev pub buffer_close : Option Bytes → Option Bytes
  buffer_close path = none

  unfoldable pub insert_into : Bytes → Bytes → q.Db → Bool × q.Db
  insert_into topic payload db =
      if q.prepare insert_sql db
      then q.run insert_sql (text topic ∷ blob payload ∷ []) db
      else (false, db)

  -- `buffer_event_insert`; the arguments that are pointers may be null.
  unfoldable pub buffer_event_insert :
      Option Bytes → Option Bytes → Option Bytes → Disk → Bool × Disk
  unfolding insert_into
  buffer_event_insert (some path) (some topic) (some payload) disk =
      let (fine, db) = insert_into topic payload (disk path) in (fine, put disk path db)
  buffer_event_insert _ _ _ disk = (false, disk)

  -- `buffer_events_read_unflushed`: the events filled in, and their number or -1.
  unfoldable pub read_unflushed : (ℕ → Bool) → ℕ → q.Db → List Event × Option ℕ
  unfolding read_loop
  read_unflushed has_memory max db =
      let (rows, done) = q.query select_sql (int max ∷ []) db in
      let (events, fine) = read_loop has_memory max 0 rows done in
      if max == 0 || not (q.prepare select_sql db)
      then ([], none)
      else (events, if fine then some (length events) else none)

  -- The loop of `buffer_events_mark_flushed`: the results of the steps are not read.
  unfoldable pub mark_loop : List ℕ → q.Db → q.Db
  mark_loop [] db = db
  mark_loop (id ∷ ids) db = mark_loop ids (q.run update_sql (int id ∷ []) db).1

  -- `buffer_events_mark_flushed`. A statement that could not be prepared is null, and stepping that
  -- does nothing.
  unfoldable pub mark_flushed : List ℕ → q.Db → Bool × q.Db
  unfolding mark_loop
  mark_flushed [] db = (false, db)
  mark_flushed (id ∷ ids) db =
      let (begun, db') = q.exec "BEGIN;" db in
      q.exec "COMMIT;" (if q.prepare update_sql db' then mark_loop (id ∷ ids) db' else db')
