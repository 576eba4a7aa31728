-- ===== src/Edge/Delivery/Growth.antt =====
-- What a cycle of the sync thread, in edge/src/sync.c, adds to the server's table.
use nirantara.Common.{
  ℕ, ◌≤◌, true, subst, length, ◌&&◌, ◌≡◌, refl, ◌∙◌, ap, sym, Bool, inl, inr, some, List, [], ◌∷◌,
  ◌++◌, map, take, All, All-append, All-take, Option-cases, append_assoc, append-nil, ◌==◌,
  if-cases,
}
use nirantara.Common.Text.{Bytes}
use nirantara.Edge.Buffer.{Event, event_of, Disk, flush_limit, read_unflushed, buffer_init}
use nirantara.Edge.Buffer.Read.{read_unflushed_copies}
use nirantara.Edge.Postgres.{Postgres, PostgresLaws, GameEvent, upsert, has_key}
use nirantara.Edge.Sqlite.{Row, IsRow, IsUnflushed, Sqlite, SqliteLaws, int, select_sql}
use nirantara.Edge.Sync.{Context, game_event, pg_upsert, sync_open, do_sync, sync_db_path}
use nirantara.Edge.Sync.Cycle.{pg_flush_server}
use nirantara.Edge.Sync.Flush.{upserts, pg_upsert_stores, pg_upsert_unreachable}
use nirantara.Edge.Delivery.Flushing.{IsCalm}
use nirantara.Edge.Delivery.Overlap.{disk_during, overlapped}
use nirantara.Edge.Delivery.Cycle.{
  opened, sync_open-none, sync_open-some, rows-opened, do_sync_cases,
}

-- The table has what it had, and more behind it, all of which is as it should be.
pub record Grows (P : GameEvent → Type 0) (t t' : List GameEvent) : Type 0 where
  pub new : List GameEvent
  pub behind : t' ≡ t ++ new
  pub fine : All P new

Grows-same : (P : GameEvent → Type 0) (t t' : List GameEvent) → t' ≡ t → Grows P t t'
Grows-same P t t' e = record { new = []; behind = e ∙ sym (append-nil t); fine = tt }

pub All-weaken :
    (P Q : GameEvent → Type 0) (xs : List GameEvent)
    → ((x : GameEvent) → P x → Q x)
    → All P xs
    → All Q xs
All-weaken P Q [] weaken h = tt
All-weaken P Q (x ∷ xs) weaken h = (weaken x h.0, All-weaken P Q xs weaken h.1)

pub Grows-weaken :
    (P Q : GameEvent → Type 0) (t t' : List GameEvent)
    → ((x : GameEvent) → P x → Q x)
    → Grows P t t'
    → Grows Q t t'
Grows-weaken P Q t t' weaken g = record {
  new = g.new;
  behind = g.behind;
  fine = All-weaken P Q g.new weaken g.fine;
}

pub Grows-then :
    (P : GameEvent → Type 0) (t t1 t2 : List GameEvent)
    → Grows P t t1
    → Grows P t1 t2
    → Grows P t t2
Grows-then P t t1 t2 a b = record {
  new = a.new ++ b.new;
  behind = b.behind ∙ ap (λ l. l ++ b.new) a.behind ∙ append_assoc t a.new b.new;
  fine = All-append P a.new b.new a.fine b.fine;
}

upsert-Grows :
    (P : GameEvent → Type 0) (e : GameEvent) (t : List GameEvent) → P e → Grows P t (upsert e t)
unfolding upsert
upsert-Grows P e t h =
    if-cases (Grows P t) (has_key e t) (λ _. Grows-same P t t refl)
      (λ _. record { new = e ∷ []; behind = refl; fine = (h, tt) })

-- A later state of the rows, in which events are only added, has a row for each event.
row_after :
    (rows rows' : List Row) (more : List Event)
    → map event_of rows' ≡ map event_of rows ++ more
    → (r : Row) → IsRow r rows
    → (r' : Row) × IsRow r' rows' × (event_of r' ≡ event_of r)
row_after [] rows' more e r m = absurd m
row_after (x ∷ rows) [] more e r m = cc
row_after (x ∷ rows) (y ∷ rows') more e r (inl same) = (y, inl refl, cc)
row_after (x ∷ rows) (y ∷ rows') more e r (inr m) =
    let (r', m', same) = row_after rows rows' more (cc) r m in (r', inr m', same)

module _ (ctx : Context) (beyond : ℕ → Bytes) where
  -- What `pg_flush` sends for one of these rows.
  abbrev pub IsSentFor : List Row → GameEvent → Type 0
  IsSentFor rows x = (r : Row) × IsRow r rows × (x ≡ game_event ctx beyond (event_of r))

  pub IsSentFor-after :
      (rows rows' : List Row) (more : List Event)
      → map event_of rows' ≡ map event_of rows ++ more
      → (x : GameEvent) → IsSentFor rows x
      → IsSentFor rows' x
  IsSentFor-after rows rows' more e x (r, m, sent) =
      let (r', m', same) = row_after rows rows' more e r m in
      (r', m', sent ∙ ap (game_event ctx beyond) (sym same))

  upserts-Grows :
      (rows batch : List Row) (t : List GameEvent)
      → All (IsUnflushed rows) batch
      → Grows (IsSentFor rows) t (upserts ctx beyond (map event_of batch) t)
  unfolding upserts
  upserts-Grows rows [] t h = Grows-same (IsSentFor rows) t t refl
  upserts-Grows rows (r ∷ batch) t h =
      let e = game_event ctx beyond (event_of r) in
      Grows-then (IsSentFor rows) t (upsert e t) _
        (upsert-Grows (IsSentFor rows) e t (r, h.0.0, refl))
        (upserts-Grows rows batch (upsert e t) h.1)

  module _ (p : Postgres) (server : PostgresLaws p) (q : Sqlite) (sqlite : SqliteLaws q) where
    -- The tables before and after, where what comes in is sent for one of these rows.
    abbrev pub GrowsBy : List Row → p.Server → p.Server → Type 0
    GrowsBy rows s s' = Grows (IsSentFor rows) (server.table s) (server.table s')

    pub GrowsBy-same :
        (rows : List Row) (s s' : p.Server) → server.table s' ≡ server.table s → GrowsBy rows s s'
    GrowsBy-same rows s s' e = Grows-same (IsSentFor rows) (server.table s) (server.table s') e

    pg_upsert-Grows :
        (rows batch : List Row) (s : p.Server)
        → All (IsUnflushed rows) batch
        → ((ids : List ℕ)
            → (pg_upsert ctx beyond p (map event_of batch) s).0 ≡ some ids
            → length (map event_of batch) ≤ length ids)
        → ((t : p.Server) → (p.exec "COMMIT" t).0 ≡ true)
        → GrowsBy rows s (pg_upsert ctx beyond p (map event_of batch) s).1
    pg_upsert-Grows rows batch s from whole commits =
        let events = map event_of batch in
        elim (Option-cases (pg_upsert ctx beyond p events s).0) [
          | inl e ↦ GrowsBy-same rows s _ (pg_upsert_unreachable ctx beyond p server events s e)
          | inr (ids, e) ↦
              let (_, table, _) =
                pg_upsert_stores ctx beyond p server events s ids e (whole ids e) commits in
              rw table (upserts-Grows rows batch (server.table s) from)
        ]

    sync_open-Grows :
        (has_memory : ℕ → Bool) (db : q.Db) (s : p.Server)
        → IsCalm ctx beyond p server q sqlite has_memory db s
        → GrowsBy (sqlite.rows db) s (sync_open ctx beyond p q has_memory db s).1
    sync_open-Grows has_memory db s calm =
        elim (Option-cases (read_unflushed q has_memory flush_limit db).1) [
          | inl e ↦
              rw (sync_open-none ctx beyond p server q sqlite has_memory db s e)
                (GrowsBy-same (sqlite.rows db) s s refl)
          | inr (n, e) ↦
              let rows = (q.query select_sql (int flush_limit ∷ []) db).0 in
              let (_, _, copies) = read_unflushed_copies q has_memory flush_limit n db e in
              let from =
                All-take (IsUnflushed (sqlite.rows db)) n rows
                  (sqlite.select_unflushed flush_limit db) in
              let sent =
                pg_upsert-Grows (sqlite.rows db) (take n rows) s from (rw copies at calm.whole)
                  calm.commits in
              rw (sync_open-some ctx beyond p server q sqlite has_memory db s n e, copies)
                (if-cases (λ (r : q.Db × p.Server). GrowsBy (sqlite.rows db) s r.1) (n == 0)
                  (λ _. GrowsBy-same (sqlite.rows db) s s refl)
                  (λ _. rw (pg_flush_server ctx beyond p q (map event_of (take n rows)) db s) sent))
        ]

    pub do_sync-Grows :
        (has_array : Bool) (has_memory : ℕ → Bool) (disk : Disk q) (s : p.Server)
        → IsCalm ctx beyond p server q sqlite has_memory
            (opened ctx beyond p server q sqlite disk)
            s
        → GrowsBy
            (sqlite.rows (disk sync_db_path))
            s
            (do_sync ctx beyond p q has_array has_memory disk s).1
    do_sync-Grows has_array has_memory disk s calm =
        let db = opened ctx beyond p server q sqlite disk in
        let GrowsTo = λ (r : q.Db × p.Server). GrowsBy (sqlite.rows (disk sync_db_path)) s r.1 in
        let sent : GrowsTo (sync_open ctx beyond p q has_memory db s) =
          subst (λ rows. GrowsBy rows s (sync_open ctx beyond p q has_memory db s).1)
            (rows-opened ctx beyond p server q sqlite disk)
            (sync_open-Grows has_memory db s calm) in
        subst GrowsTo (sym (do_sync_cases ctx beyond p server q sqlite has_array has_memory disk s))
          (if-cases GrowsTo ((buffer_init q sync_db_path disk).0 && has_array) (λ _. sent)
            (λ _. GrowsBy-same (sqlite.rows (disk sync_db_path)) s s refl))

    pub overlapped-Grows :
        (has_memory : ℕ → Bool) (messages : List (Bytes × Bytes)) (disk : Disk q) (s : p.Server)
        (n : ℕ)
        → IsCalm ctx beyond p server q sqlite has_memory
            (opened ctx beyond p server q sqlite disk)
            s
        → (read_unflushed q has_memory flush_limit (opened ctx beyond p server q sqlite disk)).1
          ≡ some n
        → GrowsBy
            (sqlite.rows (disk sync_db_path))
            s
            (overlapped ctx beyond p q has_memory messages disk s).1
    unfolding overlapped
    overlapped-Grows has_memory messages disk s n calm count =
        let db = opened ctx beyond p server q sqlite disk in
        let rows = (q.query select_sql (int flush_limit ∷ []) db).0 in
        let (_, _, copies) = read_unflushed_copies q has_memory flush_limit n db count in
        let from =
          All-take (IsUnflushed (sqlite.rows db)) n rows (sqlite.select_unflushed flush_limit db) in
        let sent =
          pg_upsert-Grows (sqlite.rows db) (take n rows) s from (rw copies at calm.whole)
            calm.commits in
        let during = disk_during ctx beyond p q messages disk sync_db_path in
        subst (λ rs. GrowsBy rs s (overlapped ctx beyond p q has_memory messages disk s).1)
          (rows-opened ctx beyond p server q sqlite disk)
          (rw (copies, pg_flush_server ctx beyond p q (map event_of (take n rows)) during s) sent)
