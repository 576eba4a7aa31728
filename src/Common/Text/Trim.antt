-- ===== src/Common/Text/Trim.antt =====
-- Laws of the loops that trim a text.
use nirantara.Common.Tests.{Bool-cases}
use nirantara.Common.Lists.{length, All}
use nirantara.Common.Text.Defs.{drop_while, drop_while_end, Bytes, equal}
use Prim.Native.Nat.{ℕ, ◌≤◌}
use mathlib.Core.Bool.{Bool, ◌&&◌}
use mathlib.Core.List.{[], ◌∷◌}
use mathlib.Core.Logic.{inl, inr}
use mathlib.Core.Path.{◌≡◌, refl, ap}
use native.Mathlib.Omega.{arith}

-- A text is free of `p` at both ends when neither loop shortens it.
abbrev pub IsTrimmed : (ℕ → Bool) → Bytes → Type 0
IsTrimmed p s = (drop_while p s ≡ s) × (drop_while_end p s ≡ s)

drop_while_end_idem :
    (p : ℕ → Bool) (s : Bytes) → drop_while_end p (drop_while_end p s) ≡ drop_while_end p s
unfolding drop_while_end equal
drop_while_end_idem p [] = refl
drop_while_end_idem p (c ∷ s) = elim (Bool-cases (p c && equal (drop_while_end p s) [])) [
  | inl e ↦ rw e
  | inr e ↦ rw e (rw (drop_while_end_idem p s) (rw e))
]

length-drop_while : (p : ℕ → Bool) (s : Bytes) → length (drop_while p s) ≤ length s
unfolding drop_while
length-drop_while p [] = omega arith
length-drop_while p (c ∷ s) = ground (arith, length-drop_while p s)

drop_while-drop_while_end :
    (p : ℕ → Bool) (s : Bytes)
    → drop_while p s ≡ s
    → drop_while p (drop_while_end p s) ≡ drop_while_end p s
unfolding drop_while drop_while_end equal
drop_while-drop_while_end p [] h = refl
drop_while-drop_while_end p (c ∷ s) h = ground (arith, length-drop_while p s, ap length h)

drop_while_idem : (p : ℕ → Bool) (s : Bytes) → drop_while p (drop_while p s) ≡ drop_while p s
unfolding drop_while
drop_while_idem p [] = refl
drop_while_idem p (c ∷ s) = ground (arith, drop_while_idem p s)

-- Cutting both ends leaves nothing to cut.
pub trim-IsTrimmed : (p : ℕ → Bool) (s : Bytes) → IsTrimmed p (drop_while_end p (drop_while p s))
trim-IsTrimmed p s = (
  drop_while-drop_while_end p (drop_while p s) (drop_while_idem p s),
  drop_while_end_idem p (drop_while p s),
)

module _ {κ} (P : ℕ → Type κ) (p : ℕ → Bool) where
  pub All-drop_while : (s : Bytes) → All P s → All P (drop_while p s)
  unfolding drop_while
  All-drop_while [] h = tt
  All-drop_while (c ∷ s) h = elim (Bool-cases (p c)) [
    | inl e ↦ rw e (All-drop_while s h.1)
    | inr e ↦ rw e h
  ]

  pub All-drop_while_end : (s : Bytes) → All P s → All P (drop_while_end p s)
  unfolding drop_while_end
  All-drop_while_end [] h = tt
  All-drop_while_end (c ∷ s) h = elim (Bool-cases (p c && equal (drop_while_end p s) [])) [
    | inl e ↦ rw e tt
    | inr e ↦ rw e (h.0, All-drop_while_end s h.1)
  ]
