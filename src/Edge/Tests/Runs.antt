-- ===== src/Edge/Tests/Runs.antt =====
-- The flush of two buffered events.
use nirantara.Common.{
  ◌≡◌, refl, ap, true, false, none, some, [], ◌∷◌, map, length, All, if◌then◌else◌, leb, arith,
}
use nirantara.Common.Text.{codes}
use nirantara.Edge.Buffer.{mark_flushed, Disk}
use nirantara.Edge.Buffer.Mark.{flag, updated}
use nirantara.Edge.Sync.{pg_upsert, game_event, pg_flush, do_sync}
use nirantara.Edge.Sync.Cycle.{pg_flush_delivers, pg_flush_loses, do_sync_elsewhere}
use nirantara.Edge.Sync.Flush.{id_of, IsStored}
use nirantara.Edge.Tests.Engines.{list_sqlite, list_sqlite-laws, list_postgres, list_postgres-laws}
use nirantara.Edge.Tests.Data.{context, beyond, rows, moved, blanked, tables, memory}

pg_upsert-moved :
    (pg_upsert context beyond (list_postgres true) (moved ∷ []) tables).0 ≡ some (1 ∷ [])
unfolding pg_upsert game_event
pg_upsert-moved = refl

pg_upsert_both :
    (pg_upsert context beyond (list_postgres true) (moved ∷ blanked ∷ []) tables).0 ≡ some (1 ∷ [])
unfolding pg_upsert game_event
pg_upsert_both = refl

pg_upsert_down : (pg_upsert context beyond (list_postgres false) (moved ∷ []) tables).0 ≡ none
unfolding pg_upsert game_event
pg_upsert_down = refl

mark_flushed_works : (mark_flushed (list_sqlite true) (1 ∷ []) rows).0 ≡ true
unfolding mark_flushed
mark_flushed_works = refl

pg_flush_delivers_example :
    All
      (IsStored context beyond (
        (list_postgres-laws true).table
          (pg_flush context beyond
            (list_postgres true)
            (list_sqlite true)
            (moved ∷ [])
            rows
            tables).1))
      (moved ∷ [])
    × ((list_sqlite-laws true).rows
          (pg_flush context beyond
            (list_postgres true)
            (list_sqlite true)
            (moved ∷ [])
            rows
            tables).0
        ≡ map
            (flag (updated (list_sqlite true) (list_sqlite-laws true) (1 ∷ []) rows))
            ((list_sqlite-laws true).rows rows))
    × (1 ∷ [] ≡ map id_of (moved ∷ []))
pg_flush_delivers_example =
    pg_flush_delivers context beyond (list_postgres true) (list_sqlite true)
      (list_postgres-laws true) (list_sqlite-laws true) (moved ∷ []) rows tables 1 []
      pg_upsert-moved (omega arith) (λ t. refl) (refl, mark_flushed_works)

pg_flush_loses_example :
    ((list_postgres-laws true).table
        (pg_flush context beyond
          (list_postgres true)
          (list_sqlite true)
          (moved ∷ blanked ∷ [])
          rows
          tables).1
      ≡ (list_postgres-laws true).table tables)
    × ((list_sqlite-laws true).rows
          (pg_flush context beyond
            (list_postgres true)
            (list_sqlite true)
            (moved ∷ blanked ∷ [])
            rows
            tables).0
        ≡ map (flag (1 ∷ [])) ((list_sqlite-laws true).rows rows))
pg_flush_loses_example =
    pg_flush_loses context beyond (list_postgres true) (list_sqlite true) (list_postgres-laws true)
      (list_sqlite-laws true) (moved ∷ blanked ∷ []) rows tables 1 [] pg_upsert_both (omega arith)
      (refl, mark_flushed_works) (λ x d. refl)

abbrev disk : Disk (list_sqlite true)
disk path = rows

abbrev other_disk : Disk (list_sqlite true)
other_disk path = if leb (length path) 2 then [] else rows

do_sync_elsewhere_example :
    ((do_sync context beyond (list_postgres true) (list_sqlite true) true memory disk tables).0
        (codes "/x")
      ≡ disk (codes "/x"))
    × ((do_sync context beyond (list_postgres true) (list_sqlite true) true memory disk tables).1
        ≡ (do_sync context beyond
            (list_postgres true)
            (list_sqlite true)
            true
            memory
            other_disk
            tables).1)
do_sync_elsewhere_example =
    do_sync_elsewhere context beyond (list_postgres true) (list_sqlite true) true memory disk
      other_disk tables (codes "/x") (λ e. omega (arith, ap length e)) refl
