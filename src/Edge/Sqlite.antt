-- ===== src/Edge/Sqlite.antt =====
-- The SQLite library as edge/src/buffer.c calls it, and what the code relies on.
use Prim.Native.String.{String}
use nirantara.Common.{ℕ, ◌≡◌, ◌⊎◌, Bool, true, false, List, [], ◌∷◌, ◌==◌, if◌then◌else◌, All}
use nirantara.Common.Text.{Bytes}

-- A row of the table `events`.
pub record Row : Type 0 where
  pub id : ℕ
  pub topic : Bytes
  pub payload : Bytes
  pub ts : ℕ
  pub flushed : Bool

pub data Value : Type 0 where
  text blob : Bytes → Value
  int : ℕ → Value

-- The results are `true` for SQLITE_OK, or for SQLITE_DONE where a statement is stepped. `query`
-- steps a SELECT to its end: the rows, and whether the last step was SQLITE_DONE.
pub record Sqlite : Type 1 where
  pub Db : Type 0
  pub open_db : Db → Bool
  pub exec : String → Db → Bool × Db
  pub prepare : String → Db → Bool
  pub run : String → List Value → Db → Bool × Db
  pub query : String → List Value → Db → List Row × Bool

-- The statements of buffer.c.
abbrev pub schema : String
schema =
    "CREATE TABLE IF NOT EXISTS events (  id       INTEGER PRIMARY KEY AUTOINCREMENT,  topic    TEXT    NOT NULL,  payload  BLOB    NOT NULL,  ts       INTEGER NOT NULL DEFAULT (unixepoch()),  flushed  INTEGER NOT NULL DEFAULT 0);CREATE INDEX IF NOT EXISTS idx_events_flushed ON events(flushed, ts);"

abbrev pub pragma_wal : String
pragma_wal = "PRAGMA journal_mode=WAL;PRAGMA synchronous=NORMAL;PRAGMA foreign_keys=ON;"

abbrev pub insert_sql : String
insert_sql = "INSERT INTO events (topic, payload) VALUES (?, ?);"

abbrev pub select_sql : String
select_sql = "SELECT id, topic, payload, ts FROM events WHERE flushed = 0 ORDER BY ts ASC LIMIT ?;"

abbrev pub update_sql : String
update_sql = "UPDATE events SET flushed = 1 WHERE id = ?;"

-- What UPDATE does to the table.
unfoldable pub mark : ℕ → List Row → List Row
mark id [] = []
mark id (r ∷ rs) = (if r.id == id then record r { flushed = true } else r) ∷ mark id rs

abbrev pub IsRow : Row → List Row → Type 0
IsRow r [] = ⊥
IsRow r (x ∷ xs) = (x ≡ r) ⊎ IsRow r xs

abbrev pub IsUnflushed : List Row → Row → Type 0
IsUnflushed rows r = IsRow r rows × (r.flushed ≡ false)

-- The documented behaviour of the statements, on the rows that the connection sees. A statement
-- that fails changes no row.
pub record SqliteLaws (q : Sqlite) : Type 0 where
  pub rows : q.Db → List Row
  pub rows-pragma : (db : q.Db) → rows (q.exec pragma_wal db).1 ≡ rows db
  pub rows-schema : (db : q.Db) → rows (q.exec schema db).1 ≡ rows db
  pub rows-begin : (db : q.Db) → rows (q.exec "BEGIN;" db).1 ≡ rows db
  pub rows-commit :
      (db : q.Db) → (q.exec "COMMIT;" db).0 ≡ true → rows (q.exec "COMMIT;" db).1 ≡ rows db
  pub rows-update :
      (id : ℕ) (db : q.Db)
      → rows (q.run update_sql (int id ∷ []) db).1
        ≡ (if (q.run update_sql (int id ∷ []) db).0 then mark id (rows db) else rows db)
  pub select_unflushed :
      (n : ℕ) (db : q.Db) → All (IsUnflushed (rows db)) (q.query select_sql (int n ∷ []) db).0
