-- ===== src/Edge/Sync/Flush.antt =====
-- The transaction of `pg_flush`: what the server holds afterwards, by what it acknowledged.
use nirantara.Common.{
  ℕ, ◌≤◌, ◌<◌, ◌≡◌, refl, ◌∙◌, ap, sym, true, ◌⊎◌, inl, inr, none, some, List, [], ◌∷◌, ◌++◌, map,
  Bool-cases, length, length-map, All, arith,
}
use nirantara.Common.Text.{Bytes}
use nirantara.Common.Text.Search.{equal_iff}
use nirantara.Edge.Buffer.{Event}
use nirantara.Edge.Postgres.{
  Postgres, PostgresLaws, GameEvent, active, failed, upsert, has_key, same_key, upsert_sql,
}
use nirantara.Edge.Sync.{Context, game_event, upsert_loop, pg_upsert}

abbrev pub id_of : Event → ℕ
id_of ev = ev.id

same_key_refl : (e : GameEvent) → same_key e e ≡ true
unfolding same_key
same_key_refl e =
    ground
      (arith, equal_iff e.device_id e.device_id, equal_iff e.topic e.topic, equal_iff e.ts e.ts)

has_key-append :
    (e x : GameEvent) (t : List GameEvent) → has_key e t ≡ true → has_key e (t ++ x ∷ []) ≡ true
unfolding has_key
has_key-append e x [] h = cc
has_key-append e x (y ∷ t) h = ground (arith, has_key-append e x t)

has_key_last : (e : GameEvent) (t : List GameEvent) → has_key e (t ++ e ∷ []) ≡ true
unfolding has_key
has_key_last e [] = ground (arith, same_key_refl e)
has_key_last e (y ∷ t) = ground (arith, has_key_last e t)

has_key-upsert_self : (e : GameEvent) (t : List GameEvent) → has_key e (upsert e t) ≡ true
unfolding upsert
has_key-upsert_self e t = ground (arith, has_key_last e t)

has_key-upsert :
    (e x : GameEvent) (t : List GameEvent) → has_key e t ≡ true → has_key e (upsert x t) ≡ true
unfolding upsert
has_key-upsert e x t h = ground (arith, has_key-append e x t)

module _ (ctx : Context) (beyond : ℕ → Bytes) where
  -- The table after the upserts of all events.
  unfoldable pub upserts : List Event → List GameEvent → List GameEvent
  upserts [] table = table
  upserts (ev ∷ events) table = upserts events (upsert (game_event ctx beyond ev) table)

  pub has_key-upserts :
      (e : GameEvent) (events : List Event) (t : List GameEvent)
      → has_key e t ≡ true
      → has_key e (upserts events t) ≡ true
  unfolding upserts
  has_key-upserts e [] t h = h
  has_key-upserts e (ev ∷ events) t h =
      has_key-upserts e events _ (has_key-upsert e (game_event ctx beyond ev) t h)

  -- The server has a row with the key of this event.
  abbrev pub IsStored : List GameEvent → Event → Type 0
  IsStored table ev = has_key (game_event ctx beyond ev) table ≡ true

  upserts-IsStored :
      (events : List Event) (t : List GameEvent) → All (IsStored (upserts events t)) events
  unfolding upserts
  upserts-IsStored [] t = tt
  upserts-IsStored (ev ∷ events) t =
      let e = game_event ctx beyond ev in
      (
        has_key-upserts e events (upsert e t) (has_key-upsert_self e t),
        upserts-IsStored events (upsert e t),
      )

  module _ (p : Postgres) (laws : PostgresLaws p) where
    open laws use {
      table, transaction, connect_idle, prepare_idle, begin_active, begin_refused, upsert_done,
      upsert_aborts, upsert_refused, commit_done, commit_rolls_back,
    }

    -- In an aborted transaction nothing is acknowledged and nothing changes.
    loop_failed :
        (events : List Event) (s : p.Server)
        → transaction s ≡ failed
        → ((upsert_loop ctx beyond p events s).0 ≡ [])
          × (table (upsert_loop ctx beyond p events s).1 ≡ table s)
          × (transaction (upsert_loop ctx beyond p events s).1 ≡ failed)
    unfolding upsert_loop
    loop_failed [] s h = (refl, refl, h)
    loop_failed (ev ∷ events) s h =
        let s' = (p.exec_prepared upsert_sql (game_event ctx beyond ev) s).1 in
        ground (arith, upsert_refused (game_event ctx beyond ev) s, loop_failed events s')

    -- All are acknowledged and pending, or some are not and the transaction is aborted.
    loop_cases :
        (events : List Event) (s : p.Server) (view : List GameEvent)
        → transaction s ≡ active view
        → (((upsert_loop ctx beyond p events s).0 ≡ map id_of events)
            × (transaction (upsert_loop ctx beyond p events s).1 ≡ active (upserts events view)))
          ⊎ ((length (upsert_loop ctx beyond p events s).0 < length events)
              × (table (upsert_loop ctx beyond p events s).1 ≡ table s)
              × (transaction (upsert_loop ctx beyond p events s).1 ≡ failed))
    unfolding upsert_loop upserts
    loop_cases [] s view h = inl (refl, h)
    loop_cases (ev ∷ events) s view h =
        let e = game_event ctx beyond ev in
        let s' = (p.exec_prepared upsert_sql e s).1 in
        elim (Bool-cases (p.exec_prepared upsert_sql e s).0) [
          | inl ok ↦ ground (arith, upsert_done e s view, loop_cases events s' (upsert e view))
          | inr refused ↦ ground (arith, upsert_aborts e s view, loop_failed events s')
        ]

    empty_or_not : (events : List Event) → (events ≡ []) ⊎ (0 < length events)
    empty_or_not [] = inl refl
    empty_or_not (ev ∷ events) = inr (omega arith)

    -- The server once BEGIN has been sent.
    abbrev begun : p.Server → p.Server
    begun s = (p.exec "BEGIN" (p.prepare upsert_sql (p.connect ctx.pg_connstr s).1).1).1

    begun_cases :
        (s : p.Server)
        → (table (begun s) ≡ table s)
          × ((transaction (begun s) ≡ active (table s)) ⊎ (transaction (begun s) ≡ failed))
    begun_cases s =
        let s1 = (p.connect ctx.pg_connstr s).1 in
        let s2 = (p.prepare upsert_sql s1).1 in
        let (t1, i1) = connect_idle ctx.pg_connstr s in
        let (t2, i2) = prepare_idle upsert_sql s1 i1 in
        elim (Bool-cases (p.exec "BEGIN" s2).0) [
          | inl ok ↦
              let (t3, a3) = begin_active s2 i2 ok in (t3 ∙ t2 ∙ t1, inl (a3 ∙ ap active (t2 ∙ t1)))
          | inr lost ↦ let (t3, f3) = begin_refused s2 i2 lost in (t3 ∙ t2 ∙ t1, inr f3)
        ]

    -- All are acknowledged and pending behind BEGIN, or nothing of them will be kept.
    begun_loop :
        (events : List Event) (s : p.Server)
        → (((upsert_loop ctx beyond p events (begun s)).0 ≡ map id_of events)
            × (transaction (upsert_loop ctx beyond p events (begun s)).1
                ≡ active (upserts events (table s))))
          ⊎ ((table (upsert_loop ctx beyond p events (begun s)).1 ≡ table s)
              × (transaction (upsert_loop ctx beyond p events (begun s)).1 ≡ failed)
              × ((length (upsert_loop ctx beyond p events (begun s)).0 < length events)
                  ⊎ ((events ≡ []) × ((upsert_loop ctx beyond p events (begun s)).0 ≡ []))))
    begun_loop events s =
        let (same, state) = begun_cases s in
        elim state [
          | inl open_ ↦ elim (loop_cases events (begun s) (table s) open_) [
            | inl pending ↦ inl pending
            | inr (fewer, kept, aborted) ↦ inr (kept ∙ same, aborted, inl fewer)
          ]
          | inr lost ↦
              let (none_, kept, aborted) = loop_failed events (begun s) lost in
              inr (
                kept ∙ same,
                aborted,
                elim (empty_or_not events) [
                  | inl empty ↦ inr (empty, none_)
                  | inr some_ ↦ inl (omega (arith, ap length none_))
                ],
              )
        ]

    stores_nothing :
        (events : List Event) (ids : List ℕ) (t t' : List GameEvent)
        → events ≡ []
        → ids ≡ []
        → t' ≡ t
        → (ids ≡ map id_of events) × (t' ≡ upserts events t) × All (IsStored t') events
    unfolding upserts
    stores_nothing [] ids t t' e none_ same = (none_, same, tt)
    stores_nothing (ev ∷ events) ids t t' e none_ same = cc

    pg_upsert_shape :
        (events : List Event) (s : p.Server) (ids : List ℕ)
        → (pg_upsert ctx beyond p events s).0 ≡ some ids
        → ((upsert_loop ctx beyond p events (begun s)).0 ≡ ids)
          × ((pg_upsert ctx beyond p events s).1
              ≡ (p.exec "COMMIT" (upsert_loop ctx beyond p events (begun s)).1).1)
    unfolding pg_upsert
    pg_upsert_shape events s ids h = ground arith

    -- Where the server acknowledged every event of the batch and accepts COMMIT, its table has been
    -- upserted with them all, and has a row with the key of each.
    pub pg_upsert_stores :
        (events : List Event) (s : p.Server) (ids : List ℕ)
        → (pg_upsert ctx beyond p events s).0 ≡ some ids
        → length events ≤ length ids
        → ((t : p.Server) → (p.exec "COMMIT" t).0 ≡ true)
        → (ids ≡ map id_of events)
          × (table (pg_upsert ctx beyond p events s).1 ≡ upserts events (table s))
          × All (IsStored (table (pg_upsert ctx beyond p events s).1)) events
    pg_upsert_stores events s ids h all commits =
        let (same, after) = pg_upsert_shape events s ids h in
        let t = (upsert_loop ctx beyond p events (begun s)).1 in
        elim (begun_loop events s) [
          | inl (acknowledged, pending) ↦
              let written = ap table after ∙ commit_done t _ pending (commits t) in
              (sym same ∙ acknowledged, written, rw written (upserts-IsStored events (table s)))
          | inr (_, _, inl fewer) ↦ absurd (omega (arith, ap length same))
          | inr (kept, aborted, inr (empty, none_)) ↦
              stores_nothing events ids (table s) _ empty (sym same ∙ none_)
                (ap table after ∙ commit_rolls_back t aborted ∙ kept)
        ]

    -- Where the server refused an event of the batch, nothing of the batch is in its table after
    -- COMMIT, also not the events that it acknowledged before.
    pub pg_upsert_rolls_back :
        (events : List Event) (s : p.Server) (ids : List ℕ)
        → (pg_upsert ctx beyond p events s).0 ≡ some ids
        → length ids < length events
        → table (pg_upsert ctx beyond p events s).1 ≡ table s
    pg_upsert_rolls_back events s ids h fewer =
        let (same, after) = pg_upsert_shape events s ids h in
        let t = (upsert_loop ctx beyond p events (begun s)).1 in
        elim (begun_loop events s) [
          | inl (acknowledged, _) ↦
              absurd (omega (arith, ap length (sym same ∙ acknowledged), length-map id_of events))
          | inr (kept, aborted, _) ↦ ap table after ∙ commit_rolls_back t aborted ∙ kept
        ]

    -- Where the result is -1 the table is as before.
    pub pg_upsert_unreachable :
        (events : List Event) (s : p.Server)
        → (pg_upsert ctx beyond p events s).0 ≡ none
        → table (pg_upsert ctx beyond p events s).1 ≡ table s
    unfolding pg_upsert
    pg_upsert_unreachable events s h =
        let s1 = (p.connect ctx.pg_connstr s).1 in
        ground (arith, connect_idle ctx.pg_connstr s, prepare_idle upsert_sql s1)
