-- ===== src/Edge/Tests/Engines.antt =====
-- A buffer and a server that behave as documented: the laws can be met.
use Prim.Native.String.{String}
use package.text.Mathlib.Text.{◌==◌}
use nirantara.Common.{
  ℕ, ◌+◌, ◌≡◌, refl, Bool, true, false, inl, inr, Option, none, some, List, [], ◌∷◌, ◌++◌,
  if◌then◌else◌, take, All, All-take, arith,
}
use nirantara.Common.Text.{Bytes}
use nirantara.Edge.Postgres.{
  Postgres, PostgresLaws, GameEvent, Transaction, active, failed, idle, upsert,
}
use nirantara.Edge.Sqlite.{Row, Value, text, blob, int, Sqlite, SqliteLaws, mark, IsUnflushed}

-- An id above those of the rows.
abbrev pub next_id : List Row → ℕ
next_id [] = 1
next_id (r ∷ rows) = r.id + next_id rows

abbrev run_rows : List Value → List Row → Bool × List Row
run_rows (int id ∷ []) rows = (true, mark id rows)
run_rows (text t ∷ blob b ∷ []) rows = (
  true,
  rows ++ record { id = next_id rows; topic = t; payload = b; ts = 0; flushed = false } ∷ [],
)
run_rows _ rows = (false, rows)

abbrev pub keep : Bool → Row → List Row → List Row
keep true r rest = rest
keep false r rest = r ∷ rest

abbrev pub unflushed : List Row → List Row
unflushed [] = []
unflushed (r ∷ rows) = keep r.flushed r (unflushed rows)

abbrev query_rows : Bool → List Value → List Row → List Row × Bool
query_rows done (int n ∷ []) rows = (take n (unflushed rows), done)
query_rows done _ rows = ([], false)

-- `done` tells whether a query ends well.
abbrev pub list_sqlite : Bool → Sqlite
list_sqlite done = record {
  Db = List Row;
  open_db = λ rows. true;
  exec = λ sql rows. (true, rows);
  prepare = λ sql rows. true;
  run = λ sql values rows. run_rows values rows;
  query = λ sql values rows. query_rows done values rows;
}

All-map_weaken :
    (r : Row) (rows xs : List Row) → All (IsUnflushed rows) xs → All (IsUnflushed (r ∷ rows)) xs
All-map_weaken r rows [] h = tt
All-map_weaken r rows (x ∷ xs) h = ((inr h.0.0, h.0.1), All-map_weaken r rows xs h.1)

keep-IsUnflushed :
    (flushed : Bool) (r : Row) (rows xs : List Row)
    → r.flushed ≡ flushed
    → All (IsUnflushed rows) xs
    → All (IsUnflushed (r ∷ rows)) (keep flushed r xs)
keep-IsUnflushed true r rows xs e h = All-map_weaken r rows xs h
keep-IsUnflushed false r rows xs e h = ((inl refl, e), All-map_weaken r rows xs h)

pub unflushed-IsUnflushed : (rows : List Row) → All (IsUnflushed rows) (unflushed rows)
unflushed-IsUnflushed [] = tt
unflushed-IsUnflushed (r ∷ rows) =
    keep-IsUnflushed r.flushed r rows (unflushed rows) refl (unflushed-IsUnflushed rows)

unfoldable pub list_sqlite-laws : (done : Bool) → SqliteLaws (list_sqlite done)
list_sqlite-laws done = record {
  rows = λ rows. rows;
  rows-pragma = λ rows. refl;
  rows-schema = λ rows. refl;
  rows-begin = λ rows. refl;
  rows-commit = λ rows h. refl;
  rows-update = λ id rows. refl;
  select_unflushed =
      λ n rows. All-take (IsUnflushed rows) n (unflushed rows) (unflushed-IsUnflushed rows);
}

abbrev pub Tables : Type 0
Tables = record { table : List GameEvent; transaction : Transaction }

abbrev commit : List GameEvent → Transaction → Tables
commit table (active view) = record { table = view; transaction = idle }
commit table _ = record { table = table; transaction = idle }

abbrev exec_sql : String → Tables → Bool × Tables
exec_sql sql s =
    if sql == "BEGIN"
    then (true, record { table = s.table; transaction = active s.table })
    else (true, commit s.table s.transaction)

-- A null payload violates NOT NULL.
abbrev upsert_into : GameEvent → List GameEvent → Transaction → Option Bytes → Bool × Tables
upsert_into e table (active view) (some b) =
    (true, record { table = table; transaction = active (upsert e view) })
upsert_into e table (active view) none = (false, record { table = table; transaction = failed })
upsert_into e table failed b = (false, record { table = table; transaction = failed })
upsert_into e table idle b = (false, record { table = table; transaction = idle })

-- `up` tells whether the server can be reached.
abbrev pub list_postgres : Bool → Postgres
list_postgres up = record {
  Server = Tables;
  connect = λ c s. (up, record { table = s.table; transaction = idle });
  prepare = λ sql s. (true, s);
  exec = exec_sql;
  exec_prepared = λ sql e s. upsert_into e s.table s.transaction e.payload;
}

module _ (e : GameEvent) (s : Tables) where
  pub upsert_into_done :
      (view : List GameEvent) (b : Option Bytes)
      → s.transaction ≡ active view
      → (upsert_into e s.table s.transaction b).0 ≡ true
      → ((upsert_into e s.table s.transaction b).1.table ≡ s.table)
        × ((upsert_into e s.table s.transaction b).1.transaction ≡ active (upsert e view))
  upsert_into_done view none h t = rw h (cc (rw h at t))
  upsert_into_done view (some b) h t = rw h (refl, refl)

  pub upsert_into_aborts :
      (view : List GameEvent) (b : Option Bytes)
      → s.transaction ≡ active view
      → (upsert_into e s.table s.transaction b).0 ≡ false
      → ((upsert_into e s.table s.transaction b).1.table ≡ s.table)
        × ((upsert_into e s.table s.transaction b).1.transaction ≡ failed)
  upsert_into_aborts view none h t = rw h (refl, refl)
  upsert_into_aborts view (some b) h t = ground arith

  pub upsert_into_refused :
      (b : Option Bytes)
      → s.transaction ≡ failed
      → ((upsert_into e s.table s.transaction b).0 ≡ false)
        × ((upsert_into e s.table s.transaction b).1.table ≡ s.table)
        × ((upsert_into e s.table s.transaction b).1.transaction ≡ failed)
  upsert_into_refused b h = rw h (refl, refl, refl)

unfoldable pub list_postgres-laws : (up : Bool) → PostgresLaws (list_postgres up)
list_postgres-laws up = record {
  table = λ s. s.table;
  transaction = λ s. s.transaction;
  connect_idle = λ c s. (refl, refl);
  prepare_idle = λ sql s h. (refl, h);
  begin_active = λ s h b. (refl, refl);
  begin_refused = λ s h b. cc;
  upsert_done = λ e s view h t. upsert_into_done e s view e.payload h t;
  upsert_aborts = λ e s view h t. upsert_into_aborts e s view e.payload h t;
  upsert_refused = λ e s h. upsert_into_refused e s e.payload h;
  commit_done = λ s view h t. rw h refl;
  commit_rolls_back = λ s h. rw h refl;
}
