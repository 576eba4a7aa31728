-- ===== src/Edge/Tests/Laws.antt =====
-- The laws of the databases that list their rows.
use Prim.Native.Nat.{min}
use nirantara.Common.{
  ℕ, suc, zero, ◌+◌, ◌<◌, ◌≡◌, ◌≢◌, refl, ◌∙◌, ap, Bool, true, false, some, List, [], ◌∷◌, take,
  length, length-take, All, All-take, arith,
}
use nirantara.Common.Text.{Bytes}
use nirantara.Edge.Buffer.{Event, init_db}
use nirantara.Edge.Delivery.{NodupIds, one_unless}
use nirantara.Edge.Delivery as Delivery
use nirantara.Edge.Delivery.Draining.{SelectLaws, Works, IsAccepted}
use nirantara.Edge.Sync.{game_event, payload_text}
use nirantara.Edge.Delivery.Arriving.{InsertLaws}
use nirantara.Edge.Sqlite.{Row}
use nirantara.Edge.Tests.Engines.{
  keep, unflushed, next_id, list_sqlite, list_sqlite-laws, list_postgres, list_postgres-laws,
}
use nirantara.Edge.Tests.Data.{context, beyond}

length-keep :
    (b : Bool) (r : Row) (rows : List Row) → length (keep b r rows) ≡ one_unless b + length rows
length-keep true r rows = omega arith
length-keep false r rows = omega arith

length-unflushed : (rows : List Row) → length (unflushed rows) ≡ Delivery.unflushed rows
unfolding Delivery.unflushed
length-unflushed [] = refl
length-unflushed (r ∷ rows) =
    omega (arith, length-keep r.flushed r (unflushed rows), length-unflushed rows)

All-keep :
    (P : Row → Type 0) (b : Bool) (r : Row) (rows : List Row)
    → P r
    → All P rows
    → All P (keep b r rows)
All-keep P true r rows h all = all
All-keep P false r rows h all = (h, all)

All-unflushed : (P : Row → Type 0) (rows : List Row) → All P rows → All P (unflushed rows)
All-unflushed P [] h = tt
All-unflushed P (r ∷ rows) h =
    All-keep P r.flushed r (unflushed rows) h.0 (All-unflushed P rows h.1)

NodupIds-keep :
    (b : Bool) (r : Row) (rows : List Row)
    → All (λ x. x.id ≢ r.id) rows
    → NodupIds rows
    → NodupIds (keep b r rows)
NodupIds-keep true r rows h all = all
NodupIds-keep false r rows h all = (h, all)

NodupIds-unflushed : (rows : List Row) → NodupIds rows → NodupIds (unflushed rows)
NodupIds-unflushed [] h = tt
NodupIds-unflushed (r ∷ rows) h =
    NodupIds-keep r.flushed r (unflushed rows) (All-unflushed (λ x. x.id ≢ r.id) rows h.0)
      (NodupIds-unflushed rows h.1)

NodupIds-take : (n : ℕ) (rows : List Row) → NodupIds rows → NodupIds (take n rows)
NodupIds-take zero [] h = tt
NodupIds-take zero (r ∷ rows) h = tt
NodupIds-take (suc n) [] h = tt
NodupIds-take (suc n) (r ∷ rows) h =
    (All-take (λ x. x.id ≢ r.id) n rows h.0, NodupIds-take n rows h.1)

pub selects : SelectLaws (list_sqlite true) (list_sqlite-laws true)
unfolding list_sqlite-laws
selects = record {
  selected = λ n rows h. length-take n (unflushed rows) ∙ ap (min n) (length-unflushed rows);
  distinct = λ n rows h. NodupIds-take n (unflushed rows) (NodupIds-unflushed rows h);
}

next_id_pos : (rows : List Row) → 0 < next_id rows
next_id_pos [] = omega arith
next_id_pos (r ∷ rows) = omega (arith, next_id_pos rows)

fresh : (rows : List Row) (k id : ℕ) → id ≡ k + next_id rows → All (λ x. x.id ≢ id) rows
fresh [] k id h = tt
fresh (r ∷ rows) k id h = (omega (arith, next_id_pos rows), fresh rows (k + r.id) id (omega arith))

pub inserts : InsertLaws (list_sqlite true) (list_sqlite-laws true)
unfolding list_sqlite-laws
inserts = record {
  inserted = λ topic payload rows h.
      (_, refl, refl, refl, refl, fresh rows 0 (next_id rows) (omega arith));
  refused = λ topic payload rows h. cc;
}

pub works : Works context (list_postgres true) (list_sqlite true)
unfolding init_db
works = record {
  opens = λ db. refl;
  selects = λ db. refl;
  ends = λ db. refl;
  prepares_update = λ db. refl;
  updates = λ id db. refl;
  commits = λ db. refl;
  connects = λ s. refl;
  prepares = λ s. refl;
  begins = λ s. refl;
  server_commits = λ s. refl;
}

pub accepted :
    (ev : Event) (b : Bytes)
    → ev.payload ≡ some b
    → IsAccepted context beyond (list_postgres true) (list_postgres-laws true) ev
unfolding game_event payload_text list_postgres-laws
accepted ev b h s view open_ = rw (h, open_) refl
