-- ===== src/Edge/Delivery/Cycle.antt =====
-- One `do_sync` of edge/src/sync.c on the buffer at its path, while no transaction fails in its middle.
use nirantara.Common.{
  ℕ, ◌≡◌, refl, ◌∙◌, ap, sym, subst, Bool, inl, inr, none, some, [], ◌∷◌, take, ◌==◌, All-take,
  Bool-cases, Option-cases, if-cases, if◌then◌else◌, ◌&&◌, arith,
}
use nirantara.Common.Text.{Bytes}
use nirantara.Common.Text.Search.{equal_iff}
use nirantara.Edge.Buffer.{Disk, put, flush_limit, read_unflushed, buffer_init, init_db}
use nirantara.Edge.Buffer.Read.{read_unflushed_copies}
use nirantara.Edge.Postgres.{Postgres, PostgresLaws}
use nirantara.Edge.Sqlite.{Sqlite, SqliteLaws, IsUnflushed, pragma_wal, int, select_sql}
use nirantara.Edge.Sync.{Context, pg_flush, sync_open, do_sync, sync_db_path}
use nirantara.Edge.Delivery.Flushing.{IsSafe, IsCalm, Keeps, Keeps-unchanged, pg_flush-Keeps}

pub put_self :
    (q : Sqlite) (disk : Disk q) (path : Bytes) (db : q.Db) → put q disk path db path ≡ db
put_self q disk path db = ground (arith, equal_iff path path)

module _ (ctx : Context) (beyond : ℕ → Bytes) (p : Postgres) (server : PostgresLaws p) (q : Sqlite)
    (sqlite : SqliteLaws q) where
  -- What `Keeps` says of the databases that a step returns.
  abbrev KeepsAll : q.Db → q.Db × p.Server → Type 0
  KeepsAll db r = Keeps ctx beyond p server q sqlite db r.0 r.1

  pub sync_open-none :
      (has_memory : ℕ → Bool) (db : q.Db) (s : p.Server)
      → (read_unflushed q has_memory flush_limit db).1 ≡ none
      → sync_open ctx beyond p q has_memory db s ≡ (db, s)
  unfolding sync_open
  sync_open-none has_memory db s e = ground arith

  pub sync_open-some :
      (has_memory : ℕ → Bool) (db : q.Db) (s : p.Server) (n : ℕ)
      → (read_unflushed q has_memory flush_limit db).1 ≡ some n
      → sync_open ctx beyond p q has_memory db s ≡ (
          if n == 0
          then (db, s)
          else pg_flush ctx beyond p q (read_unflushed q has_memory flush_limit db).0 db s)
  unfolding sync_open
  sync_open-some has_memory db s n e = ground arith

  sync_open-Keeps :
      (has_memory : ℕ → Bool) (db : q.Db) (s : p.Server)
      → IsSafe ctx beyond p server q sqlite db s
      → IsCalm ctx beyond p server q sqlite has_memory db s
      → KeepsAll db (sync_open ctx beyond p q has_memory db s)
  sync_open-Keeps has_memory db s h calm =
      elim (Option-cases (read_unflushed q has_memory flush_limit db).1) [
        | inl e ↦
            rw (sync_open-none has_memory db s e)
              (Keeps-unchanged ctx beyond p server q sqlite db db s s h refl refl)
        | inr (n, e) ↦
            let rows = (q.query select_sql (int flush_limit ∷ []) db).0 in
            let (_, _, copies) = read_unflushed_copies q has_memory flush_limit n db e in
            let from =
              All-take (IsUnflushed (sqlite.rows db)) n rows
                (sqlite.select_unflushed flush_limit db) in
            let kept =
              pg_flush-Keeps ctx beyond p server q sqlite (take n rows) db s h from calm.commits
                calm.marks (rw copies at calm.whole) in
            rw (sync_open-some has_memory db s n e, copies)
              (if-cases (KeepsAll db) (n == 0)
                (λ _. Keeps-unchanged ctx beyond p server q sqlite db db s s h refl refl)
                (λ _. kept))
      ]

  rows-init_db : (db : q.Db) → sqlite.rows (init_db q db).1 ≡ sqlite.rows db
  unfolding init_db
  rows-init_db db =
      ground (arith, sqlite.rows-pragma db, sqlite.rows-schema (q.exec pragma_wal db).1)

  -- The database that `do_sync` reads from.
  abbrev pub opened : Disk q → q.Db
  opened disk = (buffer_init q sync_db_path disk).1 sync_db_path

  pub rows-opened : (disk : Disk q) → sqlite.rows (opened disk) ≡ sqlite.rows (disk sync_db_path)
  unfolding buffer_init
  rows-opened disk =
      ap sqlite.rows (put_self q disk sync_db_path (init_db q (disk sync_db_path)).1)
      ∙ rows-init_db (disk sync_db_path)

  -- `do_sync` works on the database that it opened, or leaves it as it was opened.
  pub do_sync_cases :
      (has_array : Bool) (has_memory : ℕ → Bool) (disk : Disk q) (s : p.Server)
      → (
        (do_sync ctx beyond p q has_array has_memory disk s).0 sync_db_path,
        (do_sync ctx beyond p q has_array has_memory disk s).1,
      )
        ≡ (if (buffer_init q sync_db_path disk).0 && has_array
            then sync_open ctx beyond p q has_memory (opened disk) s
            else (opened disk, s))
  unfolding do_sync
  do_sync_cases has_array has_memory disk s =
      elim (Bool-cases ((buffer_init q sync_db_path disk).0 && has_array)) [
        | inl e ↦ rw (e, put_self q (buffer_init q sync_db_path disk).1 sync_db_path) refl
        | inr e ↦ rw e refl
      ]

  pub do_sync-Keeps :
      (has_array : Bool) (has_memory : ℕ → Bool) (disk : Disk q) (s : p.Server)
      → IsSafe ctx beyond p server q sqlite (disk sync_db_path) s
      → IsCalm ctx beyond p server q sqlite has_memory (opened disk) s
      → Keeps ctx beyond p server q sqlite
          (disk sync_db_path)
          ((do_sync ctx beyond p q has_array has_memory disk s).0 sync_db_path)
          (do_sync ctx beyond p q has_array has_memory disk s).1
  do_sync-Keeps has_array has_memory disk s h calm =
      let at_path = disk sync_db_path in
      let opens =
        Keeps-unchanged ctx beyond p server q sqlite at_path (opened disk) s s h (rows-opened disk)
          refl in
      let synced = sync_open-Keeps has_memory (opened disk) s opens.safe calm in
      let whole : KeepsAll at_path (sync_open ctx beyond p q has_memory (opened disk) s) = record {
        safe = synced.safe;
        same = synced.same ∙ opens.same;
      } in
      subst (KeepsAll at_path) (sym (do_sync_cases has_array has_memory disk s)) (
        if-cases (KeepsAll at_path) ((buffer_init q sync_db_path disk).0 && has_array) (λ _. whole)
          (λ _. opens))
