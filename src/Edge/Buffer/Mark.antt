-- ===== src/Edge/Buffer/Mark.antt =====
-- `buffer_events_mark_flushed`: what changes in the table.
use nirantara.Common.{
  ℕ, ◌≡◌, refl, ◌∙◌, ap, Bool, true, false, List, [], ◌∷◌, map, ◌||◌, if◌then◌else◌, ◌==◌,
  Bool-cases, inl, inr, arith,
}
use nirantara.Edge.Buffer.{mark_loop, mark_flushed}
use nirantara.Edge.Sqlite.{Row, Sqlite, SqliteLaws, int, update_sql, mark}

-- One UPDATE after the other.
unfoldable pub marks : List ℕ → List Row → List Row
marks [] rows = rows
marks (id ∷ ids) rows = marks ids (mark id rows)

unfoldable pub contains : List ℕ → ℕ → Bool
contains [] id = false
contains (x ∷ xs) id = id == x || contains xs id

-- The row after an update by each of the ids.
unfoldable pub flag : List ℕ → Row → Row
flag ids r = record r { flushed = r.flushed || contains ids r.id }

mark-flag :
    (id : ℕ) (ids : List ℕ) (rows : List Row)
    → map (flag ids) (mark id rows) ≡ map (flag (id ∷ ids)) rows
unfolding mark flag contains
mark-flag id ids [] = refl
mark-flag id ids (r ∷ rows) = ground (arith, mark-flag id ids rows)

pub flag-nil : (rows : List Row) → rows ≡ map (flag []) rows
unfolding flag contains
flag-nil [] = refl
flag-nil (r ∷ rows) = ground (arith, flag-nil rows)

pub marks-flag : (ids : List ℕ) (rows : List Row) → marks ids rows ≡ map (flag ids) rows
unfolding marks
marks-flag [] rows = flag-nil rows
marks-flag (id ∷ ids) rows = marks-flag ids (mark id rows) ∙ mark-flag id ids rows

module _ (q : Sqlite) (laws : SqliteLaws q) where
  open laws use {rows, rows-begin, rows-commit, rows-update}

  -- The ids whose UPDATE ended with SQLITE_DONE.
  unfoldable pub updated : List ℕ → q.Db → List ℕ
  updated [] db = []
  updated (id ∷ ids) db =
      let (fine, db') = q.run update_sql (int id ∷ []) db in
      let rest = updated ids db' in if fine then id ∷ rest else rest

  rows-mark_loop :
      (ids : List ℕ) (db : q.Db) → rows (mark_loop q ids db) ≡ marks (updated ids db) (rows db)
  unfolding mark_loop updated marks
  rows-mark_loop [] db = refl
  rows-mark_loop (id ∷ ids) db =
      let (fine, db') = q.run update_sql (int id ∷ []) db in
      rows-mark_loop ids db' ∙ elim (Bool-cases fine) [
        | inl e ↦ rw e (ap (marks (updated ids db')) (rows-update id db ∙ rw e))
        | inr e ↦ rw e (ap (marks (updated ids db')) (rows-update id db ∙ rw e))
      ]

  pub rows-mark_flushed :
      (id : ℕ) (ids : List ℕ) (db : q.Db)
      → q.prepare update_sql (q.exec "BEGIN;" db).1 ≡ true
      → (mark_flushed q (id ∷ ids) db).0 ≡ true
      → rows (mark_flushed q (id ∷ ids) db).1
        ≡ map (flag (updated (id ∷ ids) (q.exec "BEGIN;" db).1)) (rows db)
  unfolding mark_flushed
  rows-mark_flushed id ids db prepared committed =
      let db' = (q.exec "BEGIN;" db).1 in
      let all = id ∷ ids in
      rows-commit _ committed
      ∙ rw prepared (
          rows-mark_loop all db'
          ∙ marks-flag (updated all db') _
          ∙ ap (map (flag (updated all db'))) (rows-begin db))

  committed_result :
      (id : ℕ) (ids : List ℕ) (db : q.Db)
      → q.prepare update_sql (q.exec "BEGIN;" db).1 ≡ true
      → (q.exec "COMMIT;" (mark_loop q (id ∷ ids) (q.exec "BEGIN;" db).1)).0 ≡ true
      → (mark_flushed q (id ∷ ids) db).0 ≡ true
  unfolding mark_flushed
  committed_result id ids db prepared committed = rw (mark_flushed, prepared) committed

  -- Where the update can be prepared and the COMMIT behind the updates succeeds, the result is 0, and
  -- the table differs in the flags alone: a row is flagged exactly when it was before or an UPDATE
  -- that succeeded names it.
  pub mark_flushed_rows :
      (id : ℕ) (ids : List ℕ) (db : q.Db)
      → q.prepare update_sql (q.exec "BEGIN;" db).1 ≡ true
      → (q.exec "COMMIT;" (mark_loop q (id ∷ ids) (q.exec "BEGIN;" db).1)).0 ≡ true
      → ((mark_flushed q (id ∷ ids) db).0 ≡ true)
        × (rows (mark_flushed q (id ∷ ids) db).1
            ≡ map (flag (updated (id ∷ ids) (q.exec "BEGIN;" db).1)) (rows db))
  mark_flushed_rows id ids db prepared committed =
      let done = committed_result id ids db prepared committed in
      (done, rows-mark_flushed id ids db prepared done)

  -- Where every UPDATE succeeds, all ids are marked.
  pub updated-all :
      (ids : List ℕ) (db : q.Db)
      → ((id : ℕ) (d : q.Db) → (q.run update_sql (int id ∷ []) d).0 ≡ true)
      → updated ids db ≡ ids
  unfolding updated
  updated-all [] db h = refl
  updated-all (id ∷ ids) db h =
      rw (h id db) (ap (λ l. id ∷ l) (updated-all ids (q.run update_sql (int id ∷ []) db).1 h))
