-- ===== src/Edge/Delivery/Arriving.antt =====
-- What messages add to the buffer of an agent.
use nirantara.Common.{
  ℕ, ◌≡◌, ◌≢◌, refl, ◌∙◌, ap, sym, Bool, true, false, inl, inr, some, List, [], ◌∷◌, ◌++◌, map, All,
  All-append, Bool-cases, if-cases, append_assoc, append-nil,
}
use nirantara.Common.Text.{Bytes}
use nirantara.Edge.Agent.{on_message}
use nirantara.Edge.Buffer.{Disk, buffer_event_insert, insert_into}
use nirantara.Edge.Postgres.{GameEvent}
use nirantara.Edge.Sqlite.{Row, IsRow, IsUnflushed, Sqlite, SqliteLaws, text, blob, insert_sql}
use nirantara.Edge.Sync.{Context, sync_db_path}
use nirantara.Edge.Delivery.{NodupIds, Delivered}
use nirantara.Edge.Delivery.Cycle.{put_self}

-- The documented behaviour of INSERT: a row with the values behind the others, with an id of its
-- own and the default for the flag; or no change.
pub record InsertLaws (q : Sqlite) (laws : SqliteLaws q) : Type 0 where
  pub inserted :
      (topic payload : Bytes) (db : q.Db)
      → (q.run insert_sql (text topic ∷ blob payload ∷ []) db).0 ≡ true
      → (r : Row) × (laws.rows (q.run insert_sql (text topic ∷ blob payload ∷ []) db).1
          ≡ laws.rows db ++ r ∷ [])
        × (r.flushed ≡ false)
        × (r.topic ≡ topic)
        × (r.payload ≡ payload)
        × All (λ x. x.id ≢ r.id) (laws.rows db)
  pub refused :
      (topic payload : Bytes) (db : q.Db)
      → (q.run insert_sql (text topic ∷ blob payload ∷ []) db).0 ≡ false
      → laws.rows (q.run insert_sql (text topic ∷ blob payload ∷ []) db).1 ≡ laws.rows db

NodupIds-append :
    (rows : List Row) (r : Row)
    → NodupIds rows
    → All (λ x. x.id ≢ r.id) rows
    → NodupIds (rows ++ r ∷ [])
NodupIds-append [] r h fresh = (tt, tt)
NodupIds-append (x ∷ rows) r h fresh = (
  All-append (λ y. y.id ≢ x.id) rows (r ∷ []) h.0 ((λ e. fresh.0 (sym e)), tt),
  NodupIds-append rows r h.1 fresh.1,
)

pub map-append {ℓ κ} :
    {A : Type ℓ} {B : Type κ} (f : A → B) (xs ys : List A) → map f (xs ++ ys) ≡ map f xs ++ map f ys
map-append f [] ys = refl
map-append f (x ∷ xs) ys = ap (λ zs. f x ∷ zs) (map-append f xs ys)

-- What a message adds to the rows.
pub record Adds (rows rows' : List Row) : Type 0 where
  pub added : List Row
  pub behind : rows' ≡ rows ++ added
  pub unsent : All (λ r. r.flushed ≡ false) added
  pub nodup : NodupIds rows → NodupIds rows'

Adds-nil : (rows rows' : List Row) → rows' ≡ rows → Adds rows rows'
Adds-nil rows rows' e = record {
  added = [];
  behind = e ∙ sym (append-nil rows);
  unsent = tt;
  nodup = λ h. rw e h;
}

Adds-then : (rows rows1 rows2 : List Row) → Adds rows rows1 → Adds rows1 rows2 → Adds rows rows2
Adds-then rows rows1 rows2 a b = record {
  added = a.added ++ b.added;
  behind = b.behind ∙ ap (λ rs. rs ++ b.added) a.behind ∙ append_assoc rows a.added b.added;
  unsent = All-append (λ r. r.flushed ≡ false) a.added b.added a.unsent b.unsent;
  nodup = λ h. b.nodup (a.nodup h);
}

IsRow-append : (r : Row) (rows added : List Row) → IsRow r rows → IsRow r (rows ++ added)
IsRow-append r [] added m = absurd m
IsRow-append r (x ∷ rows) added (inl e) = inl e
IsRow-append r (x ∷ rows) added (inr m) = inr (IsRow-append r rows added m)

-- A row that is to be sent still is, once messages have come in.
pub IsUnflushed-Adds :
    (rows rows' batch : List Row)
    → Adds rows rows'
    → All (IsUnflushed rows) batch
    → All (IsUnflushed rows') batch
IsUnflushed-Adds rows rows' [] adds h = tt
IsUnflushed-Adds rows rows' (r ∷ batch) adds h = (
  (rw adds.behind (IsRow-append r rows adds.added h.0.0), h.0.1),
  IsUnflushed-Adds rows rows' batch adds h.1,
)

unsent-Delivered :
    (ctx : Context) (beyond : ℕ → Bytes) (table : List GameEvent) (rows : List Row)
    → All (λ r. r.flushed ≡ false) rows
    → All (Delivered ctx beyond table) rows
unsent-Delivered ctx beyond table [] h = tt
unsent-Delivered ctx beyond table (r ∷ rows) h =
    ((λ e. cc), unsent-Delivered ctx beyond table rows h.1)

pub Delivered-Adds :
    (ctx : Context) (beyond : ℕ → Bytes) (table : List GameEvent) (rows rows' : List Row)
    → Adds rows rows'
    → All (Delivered ctx beyond table) rows
    → All (Delivered ctx beyond table) rows'
Delivered-Adds ctx beyond table rows rows' adds h = rw adds.behind (
    All-append (Delivered ctx beyond table) rows adds.added h
      (unsent-Delivered ctx beyond table adds.added adds.unsent))

module _ (q : Sqlite) where
  -- Messages for the buffer that is open at the path: their topics and payloads.
  unfoldable pub arrive : List (Bytes × Bytes) → Disk q → Disk q
  arrive [] disk = disk
  arrive ((topic, payload) ∷ messages) disk =
      arrive messages (on_message q (some sync_db_path) topic (some payload) disk).1

  module _ (sqlite : SqliteLaws q) (inserts : InsertLaws q sqlite) where
    insert_into-Adds :
        (topic payload : Bytes) (db : q.Db)
        → Adds (sqlite.rows db) (sqlite.rows (insert_into q topic payload db).1)
    unfolding insert_into
    insert_into-Adds topic payload db =
        let AddsTo = λ (r : Bool × q.Db). Adds (sqlite.rows db) (sqlite.rows r.1) in
        let ran = q.run insert_sql (text topic ∷ blob payload ∷ []) db in
        if-cases AddsTo (q.prepare insert_sql db)
          (λ _. elim (Bool-cases ran.0) [
            | inl done ↦
                let (r, e, new, _, _, fresh) = inserts.inserted topic payload db done in
                record {
                  added = r ∷ [];
                  behind = e;
                  unsent = (new, tt);
                  nodup = λ h. rw e (NodupIds-append (sqlite.rows db) r h fresh);
                }
            | inr failed ↦ Adds-nil (sqlite.rows db) _ (inserts.refused topic payload db failed)
          ])
          (λ _. Adds-nil (sqlite.rows db) (sqlite.rows db) refl)

    pub on_message_rows :
        (topic payload : Bytes) (disk : Disk q)
        → Adds (sqlite.rows (disk sync_db_path)) (
            sqlite.rows
              ((on_message q (some sync_db_path) topic (some payload) disk).1 sync_db_path))
    unfolding on_message buffer_event_insert
    on_message_rows topic payload disk =
        let db = (insert_into q topic payload (disk sync_db_path)).1 in
        rw (put_self q disk sync_db_path db) (insert_into-Adds topic payload (disk sync_db_path))

    pub arrive-Adds :
        (messages : List (Bytes × Bytes)) (disk : Disk q)
        → Adds (sqlite.rows (disk sync_db_path)) (sqlite.rows (arrive messages disk sync_db_path))
    unfolding arrive
    arrive-Adds [] disk = Adds-nil _ _ refl
    arrive-Adds ((topic, payload) ∷ messages) disk =
        let disk' = (on_message q (some sync_db_path) topic (some payload) disk).1 in
        Adds-then _ _ _ (on_message_rows topic payload disk) (arrive-Adds messages disk')
