-- ===== src/Edge/Delivery/Counting.antt =====
-- How many rows are left unflagged when a batch of them is flagged.
use nirantara.Common.{
  ℕ, ◌+◌, ◌≡◌, ◌≢◌, refl, ◌∙◌, ap, subst, true, false, inl, inr, List, [], ◌∷◌, map, ◌==◌, length,
  All, Bool-cases, arith,
}
use nirantara.Edge.Buffer.Mark.{marks}
use nirantara.Edge.Sqlite.{Row, IsRow, IsUnflushed, mark}
use nirantara.Edge.Delivery.{NodupIds, unflushed}
use nirantara.Edge.Delivery.Rows.{row_id, All-IsRow, IsRow-All}

mark_other : (id : ℕ) (rows : List Row) → All (λ x. x.id ≢ id) rows → mark id rows ≡ rows
unfolding mark
mark_other id [] h = refl
mark_other id (x ∷ rows) h =
    let differs : (x.id == id) ≡ false = ground (arith, h.0) in
    rw differs (ap (λ xs. x ∷ xs) (mark_other id rows h.1))

unflushed-mark :
    (rows : List Row) (u : Row)
    → NodupIds rows
    → IsUnflushed rows u
    → unflushed (mark u.id rows) + 1 ≡ unflushed rows
unfolding mark unflushed
unflushed-mark [] u nodup (m, unsent) = elim m [ ]
unflushed-mark (x ∷ rows) u nodup (inl e, unsent) =
    let same : (x.id == u.id) ≡ true = ground (arith, ap row_id e) in
    let open_ : x.flushed ≡ false = ap (λ (r : Row). r.flushed) e ∙ unsent in
    let others : mark u.id rows ≡ rows =
      mark_other u.id rows (subst (λ n. All (λ y. y.id ≢ n) rows) (ap row_id e) nodup.0) in
    rw (same, open_, others) (omega arith)
unflushed-mark (x ∷ rows) u nodup (inr m, unsent) =
    let differs : (x.id == u.id) ≡ false =
      ground (arith, All-IsRow (λ y. y.id ≢ x.id) rows u nodup.0 m) in
    rw differs (omega (arith, unflushed-mark rows u nodup.1 (m, unsent)))

ids_kept :
    (id k : ℕ) (rows : List Row) → All (λ y. y.id ≢ k) rows → All (λ y. y.id ≢ k) (mark id rows)
unfolding mark
ids_kept id k [] h = tt
ids_kept id k (x ∷ rows) h = elim (Bool-cases (x.id == id)) [
  | inl e ↦ rw e (h.0, ids_kept id k rows h.1)
  | inr e ↦ rw e (h.0, ids_kept id k rows h.1)
]

NodupIds-mark : (id : ℕ) (rows : List Row) → NodupIds rows → NodupIds (mark id rows)
unfolding mark
NodupIds-mark id [] h = tt
NodupIds-mark id (x ∷ rows) h =
    let rest : All (λ y. y.id ≢ x.id) (mark id rows) × NodupIds (mark id rows) =
      (ids_kept id x.id rows h.0, NodupIds-mark id rows h.1) in
    elim (Bool-cases (x.id == id)) [ inl e ↦ rw e rest | inr e ↦ rw e rest ]

IsRow-mark :
    (id : ℕ) (rows : List Row) (r : Row) → r.id ≢ id → IsRow r rows → IsRow r (mark id rows)
unfolding mark
IsRow-mark id (x ∷ rows) r differs (inl e) =
    let not_it : (x.id == id) ≡ false = ground (arith, ap row_id e) in rw not_it (inl e)
IsRow-mark id (x ∷ rows) r differs (inr m) = inr (IsRow-mark id rows r differs m)
IsRow-mark id [] r differs m = elim m [ ]

-- Flagging a batch of unflagged rows flags as many as the batch has.
pub unflushed-marks :
    (batch rows : List Row)
    → NodupIds rows
    → NodupIds batch
    → All (IsUnflushed rows) batch
    → unflushed (marks (map row_id batch) rows) + length batch ≡ unflushed rows
unfolding marks
unflushed-marks [] rows nodup distinct from = omega arith
unflushed-marks (u ∷ batch) rows nodup distinct from =
    let rest : All (IsUnflushed (mark u.id rows)) batch =
      IsRow-All (IsUnflushed (mark u.id rows)) batch λ v m.
        let (k, unsent) = All-IsRow (IsUnflushed rows) batch v from.1 m in
        (IsRow-mark u.id rows v (All-IsRow (λ y. y.id ≢ u.id) batch v distinct.0 m) k, unsent) in
    omega (
      arith,
      unflushed-marks batch (mark u.id rows) (NodupIds-mark u.id rows nodup) distinct.1 rest,
      unflushed-mark rows u nodup from.0,
    )
