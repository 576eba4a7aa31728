-- ===== src/Edge/Tests/Reads.antt =====
-- Reading the buffer, the device id of a topic, and the sync thread.
use nirantara.Common.{
  ℕ, ◌≡◌, refl, Bool, true, false, none, some, List, [], ◌∷◌, map, All, leb, arith,
}
use nirantara.Common.Text.{codes}
use nirantara.Edge.Buffer.{
  buffer_close, buffer_event_insert, event_of, events_free, rounds, read_unflushed, mark_flushed,
}
use nirantara.Edge.Buffer.Mark.{flag, updated, mark_flushed_rows}
use nirantara.Edge.Buffer.Read.{free-read_unflushed, read_unflushed_leaks}
use nirantara.Edge.Sync.{extract_device_id}
use nirantara.Edge.Sync.DeviceId.{extract_device_id_segment}
use nirantara.Edge.Sync.Thread.{Action, IsSchedule, sync_thread, sync_thread_ends, interval_of}
use nirantara.Edge.Tests.Engines.{list_sqlite, list_sqlite-laws}
use nirantara.Edge.Tests.Data.{context, rows, memory}

read_two : (read_unflushed (list_sqlite true) memory 9 rows).1 ≡ some 2
unfolding read_unflushed
read_two = refl

mark_flushed_rows_example :
    ((mark_flushed (list_sqlite true) (1 ∷ []) rows).0 ≡ true)
    × ((list_sqlite-laws true).rows (mark_flushed (list_sqlite true) (1 ∷ []) rows).1
        ≡ map
            (flag (updated (list_sqlite true) (list_sqlite-laws true) (1 ∷ []) rows))
            ((list_sqlite-laws true).rows rows))
mark_flushed_rows_example =
    mark_flushed_rows (list_sqlite true) (list_sqlite-laws true) 1 [] rows refl refl

free-read_unflushed_example :
    All
      (λ ev. ev.payload ≡ none)
      (events_free 2 (read_unflushed (list_sqlite true) memory 9 rows).0)
free-read_unflushed_example = free-read_unflushed (list_sqlite true) memory 9 rows 2 read_two

read_unflushed_leaks_example :
    ((read_unflushed (list_sqlite false) memory 9 rows).1 ≡ none)
    × (events_free
          (rounds (read_unflushed (list_sqlite false) memory 9 rows).1)
          (read_unflushed (list_sqlite false) memory 9 rows).0
        ≡ map event_of rows)
read_unflushed_leaks_example =
    read_unflushed_leaks (list_sqlite false) memory 9 rows (λ n. refl) (omega arith) refl
      (omega arith) refl

extract_device_id_segment_example :
    (extract_device_id (codes "game/d1/m") 64 ≡ codes "d1")
    × (extract_device_id (codes "game/d1") 64 ≡ codes "d1")
extract_device_id_segment_example =
    extract_device_id_segment (codes "game") (codes "d1") (codes "m") 64 (omega arith) (omega arith)
      (omega arith)

abbrev stop_after : ℕ → Bool
stop_after k = leb 5 k

sync_thread_ends_example :
    (actions : List Action) × (sync_thread stop_after 6 context ≡ some actions)
    × IsSchedule (interval_of context) actions
sync_thread_ends_example =
    sync_thread_ends stop_after 5 6 context (λ k h. ground arith) (omega arith)

-- What is closed takes no more events.
closed_refuses :
    buffer_event_insert
      (list_sqlite true)
      (buffer_close (list_sqlite true) (some (codes "/x")))
      (some (codes "t"))
      (some (codes "p"))
      (λ path. rows)
    ≡ (false, λ path. rows)
unfolding buffer_event_insert
closed_refuses = refl
