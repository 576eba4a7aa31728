-- ===== src/Edge/Delivery/Rows.antt =====
-- Rows with unique ids, and what becomes of them when some are flagged.
use nirantara.Common.{
  ℕ, ◌≡◌, ◌≢◌, refl, ◌∙◌, ap, sym, subst, true, inl, inr, List, [], ◌∷◌, map, ◌==◌, All, Bool-cases,
  arith,
}
use nirantara.Common.Text.{Bytes}
use nirantara.Edge.Buffer.{event_of}
use nirantara.Edge.Buffer.Mark.{contains, flag}
use nirantara.Edge.Postgres.{GameEvent, has_key}
use nirantara.Edge.Sqlite.{Row, IsRow, IsUnflushed}
use nirantara.Edge.Sync.{Context}
use nirantara.Edge.Sync.Flush.{IsStored}
use nirantara.Edge.Delivery.{NodupIds, Delivered}

abbrev pub row_id : Row → ℕ
row_id r = r.id

pub All-IsRow : (P : Row → Type 0) (rows : List Row) (r : Row) → All P rows → IsRow r rows → P r
All-IsRow P (x ∷ rows) r h (inl e) = subst P e h.0
All-IsRow P (x ∷ rows) r h (inr m) = All-IsRow P rows r h.1 m
All-IsRow P [] r h m = elim m [ ]

pub IsRow-All : (P : Row → Type 0) (rows : List Row) → ((r : Row) → IsRow r rows → P r) → All P rows
IsRow-All P [] h = tt
IsRow-All P (x ∷ rows) h = (h x (inl refl), IsRow-All P rows (λ r m. h r (inr m)))

-- Two rows with one id are one row.
row_eq :
    (rows : List Row) (r s : Row)
    → NodupIds rows
    → IsRow r rows
    → IsRow s rows
    → r.id ≡ s.id
    → r ≡ s
row_eq (x ∷ rows) r s n (inl e) (inl f) same = sym e ∙ f
row_eq (x ∷ rows) r s n (inl e) (inr m) same =
    absurd (All-IsRow (λ y. y.id ≢ x.id) rows s n.0 m (sym same ∙ ap row_id (sym e)))
row_eq (x ∷ rows) r s n (inr m) (inl f) same =
    absurd (All-IsRow (λ y. y.id ≢ x.id) rows r n.0 m (same ∙ ap row_id (sym f)))
row_eq (x ∷ rows) r s n (inr m) (inr k) same = row_eq rows r s n.1 m k same
row_eq [] r s n m k same = elim m [ ]

-- An id of a list belongs to one of its rows.
contains-IsRow :
    (rows : List Row) (id : ℕ)
    → contains (map row_id rows) id ≡ true
    → (r : Row) × IsRow r rows × (r.id ≡ id)
unfolding contains
contains-IsRow [] id h = cc
contains-IsRow (x ∷ rows) id h = elim (Bool-cases (id == x.id)) [
  | inl e ↦ (x, inl refl, ground arith)
  | inr e ↦ let (r, m, same) = contains-IsRow rows id (rw e at h) in (r, inr m, same)
]

IsRow-map-flag :
    (ids : List ℕ) (rows : List Row) (r : Row)
    → IsRow r (map (flag ids) rows)
    → (x : Row) × IsRow x rows × (flag ids x ≡ r)
IsRow-map-flag ids (x ∷ rows) r (inl e) = (x, inl refl, e)
IsRow-map-flag ids (x ∷ rows) r (inr m) =
    let (y, k, e) = IsRow-map-flag ids rows r m in (y, inr k, e)
IsRow-map-flag ids [] r m = elim m [ ]

pub NodupIds-map-flag :
    (ids : List ℕ) (rows : List Row) → NodupIds rows → NodupIds (map (flag ids) rows)
unfolding flag
NodupIds-map-flag ids [] h = tt
NodupIds-map-flag ids (x ∷ rows) h = (other rows h.0, NodupIds-map-flag ids rows h.1)
  where
    other :
        (xs : List Row)
        → All (λ (y : Row). y.id ≢ x.id) xs
        → All (λ (y : Row). y.id ≢ x.id) (map (flag ids) xs)
    other [] k = tt
    other (y ∷ xs) k = (k.0, other xs k.1)

pub map-flag-event_of :
    (ids : List ℕ) (rows : List Row) → map event_of (map (flag ids) rows) ≡ map event_of rows
unfolding flag event_of
map-flag-event_of ids [] = refl
map-flag-event_of ids (r ∷ rows) = ap (λ evs. event_of r ∷ evs) (map-flag-event_of ids rows)

module _ (ctx : Context) (beyond : ℕ → Bytes) where
  -- Flagging rows whose events are stored keeps the server ahead of the flags.
  pub Delivered-map-flag :
      (rows batch : List Row) (ids : List ℕ) (table table' : List GameEvent)
      → NodupIds rows
      → All (IsUnflushed rows) batch
      → ((id : ℕ) → contains ids id ≡ true → contains (map row_id batch) id ≡ true)
      → ((e : GameEvent) → has_key e table ≡ true → has_key e table' ≡ true)
      → All (λ r. IsStored ctx beyond table' (event_of r)) batch
      → All (Delivered ctx beyond table) rows
      → All (Delivered ctx beyond table') (map (flag ids) rows)
  unfolding flag event_of
  Delivered-map-flag rows batch ids table table' nodup from within grows stored delivered =
      IsRow-All (Delivered ctx beyond table') (map (flag ids) rows) λ r m.
        let (x, k, e) = IsRow-map-flag ids rows r m in
        subst (Delivered ctx beyond table') e (flagged x k)
    where
      flagged : (x : Row) → IsRow x rows → Delivered ctx beyond table' (flag ids x)
      flagged x k h = elim (Bool-cases x.flushed) [
        | inl old ↦ grows _ (All-IsRow (Delivered ctx beyond table) rows x delivered k old)
        | inr new ↦
            let (u, j, same) = contains-IsRow batch x.id (within x.id (rw new at h)) in
            let (unsent, _) = All-IsRow (IsUnflushed rows) batch u from j in
            subst (λ (y : Row). IsStored ctx beyond table' (event_of y))
              (row_eq rows u x nodup unsent k same)
              (All-IsRow (λ (y : Row). IsStored ctx beyond table' (event_of y)) batch u stored j)
      ]
