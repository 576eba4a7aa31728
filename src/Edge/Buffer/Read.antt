-- ===== src/Edge/Buffer/Read.antt =====
-- `buffer_events_read_unflushed` and `buffer_events_free`: what is read, and what is freed.
use nirantara.Common.{
  ℕ, ◌+◌, ◌≤◌, ◌<◌, ◌≡◌, refl, Bool, true, false, none, some, List, [], ◌∷◌, map, length, take,
  length-take, subst, All, arith,
}
use nirantara.Common.Text.{cstr}
use nirantara.Edge.Buffer.{
  Event, event_of, max_topic, read_loop, read_unflushed, events_free, rounds,
}
use nirantara.Edge.Sqlite.{Row, Sqlite, select_sql, int}

read_loop_copies :
    (has_memory : ℕ → Bool) (max count : ℕ) (rows : List Row) (done : Bool)
    → count ≤ max
    → ((read_loop has_memory max count rows done).0
        ≡ map event_of (take (length (read_loop has_memory max count rows done).0) rows))
      × (count + length (read_loop has_memory max count rows done).0 ≤ max)
unfolding read_loop
read_loop_copies has_memory max count [] done h = (refl, omega arith)
read_loop_copies has_memory max count (r ∷ rows) done h =
    ground (arith, read_loop_copies has_memory max (count + 1) rows done)

-- With enough memory the loop copies every row up to the limit, and reports the last code.
read_loop_all :
    (has_memory : ℕ → Bool) (max count : ℕ) (rows : List Row) (done : Bool)
    → ((n : ℕ) → has_memory n ≡ true)
    → count + length rows ≤ max
    → read_loop has_memory max count rows done ≡ (map event_of rows, done)
unfolding read_loop
read_loop_all has_memory max count [] done h fits = refl
read_loop_all has_memory max count (r ∷ rows) done h fits =
    ground (arith, h count, read_loop_all has_memory max (count + 1) rows done h)

module _ (q : Sqlite) where
  abbrev rows_of : ℕ → q.Db → List Row
  rows_of max db = (q.query select_sql (int max ∷ []) db).0

  -- Where `read_unflushed` returns a number, it is the number of events filled in, it is within the
  -- limit, and the events are copies of that many first rows of the query.
  pub read_unflushed_copies :
      (has_memory : ℕ → Bool) (max n : ℕ) (db : q.Db)
      → (read_unflushed q has_memory max db).1 ≡ some n
      → (n ≤ max)
        × (length (read_unflushed q has_memory max db).0 ≡ n)
        × ((read_unflushed q has_memory max db).0 ≡ map event_of (take n (rows_of max db)))
  unfolding read_unflushed
  read_unflushed_copies has_memory max n db h = ground (
    arith,
    read_loop_copies has_memory max 0 (rows_of max db) (q.query select_sql (int max ∷ []) db).1,
  )

  -- With enough memory, a statement that prepares and a query that ends with SQLITE_DONE within
  -- its limit, every row of the query is read.
  pub read_unflushed_all :
      (has_memory : ℕ → Bool) (max : ℕ) (db : q.Db)
      → ((n : ℕ) → has_memory n ≡ true)
      → 0 < max
      → q.prepare select_sql db ≡ true
      → length (rows_of max db) ≤ max
      → (q.query select_sql (int max ∷ []) db).1 ≡ true
      → read_unflushed q has_memory max db
        ≡ (map event_of (rows_of max db), some (length (map event_of (rows_of max db))))
  unfolding read_unflushed
  read_unflushed_all has_memory max db h pos prepared fits ended =
      let all = read_loop_all has_memory max 0 (rows_of max db) true h (omega arith) in ground arith

-- A read topic fits its array with the terminator, and is a copy of the row's up to the cut.
length-event_of_topic : (r : Row) → length (event_of r).topic < max_topic
unfolding event_of
length-event_of_topic r = omega (arith, length-take 255 (cstr r.topic))

free-All :
    (events : List Event) → All (λ ev. ev.payload ≡ none) (events_free (length events) events)
unfolding events_free
free-All [] = tt
free-All (ev ∷ events) = (refl, free-All events)

module _ (q : Sqlite) (has_memory : ℕ → Bool) (max : ℕ) (db : q.Db) where
  -- After a read that returns a number, `buffer_events_free` with that number frees every payload.
  pub free-read_unflushed :
      (n : ℕ)
      → (read_unflushed q has_memory max db).1 ≡ some n
      → All (λ ev. ev.payload ≡ none) (events_free n (read_unflushed q has_memory max db).0)
  free-read_unflushed n h =
      let (_, count, _) = read_unflushed_copies q has_memory max n db h in
      subst
        (λ m.
          All (λ (ev : Event). ev.payload ≡ none)
            (events_free m (read_unflushed q has_memory max db).0))
        count (free-All (read_unflushed q has_memory max db).0)

  -- A query that fails after rows within the limit leaks: the result is -1, and the free with that
  -- count leaves the copies of all rows, payloads included.
  pub read_unflushed_leaks :
      ((n : ℕ) → has_memory n ≡ true)
      → 0 < max
      → q.prepare select_sql db ≡ true
      → length (rows_of q max db) ≤ max
      → (q.query select_sql (int max ∷ []) db).1 ≡ false
      → ((read_unflushed q has_memory max db).1 ≡ none)
        × (events_free
              (rounds (read_unflushed q has_memory max db).1)
              (read_unflushed q has_memory max db).0
            ≡ map event_of (rows_of q max db))
  unfolding read_unflushed events_free
  read_unflushed_leaks h pos prepared fits ended =
      let all = read_loop_all has_memory max 0 (rows_of q max db) false h (omega arith) in
      ground arith
