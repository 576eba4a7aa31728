-- ===== src/Common/Text/Search.antt =====
-- Laws of the searches and comparisons of C strings.
use nirantara.Common.Tests.{◌==◌, Bool-cases}
use nirantara.Common.Lists.{length, length-append, All}
use nirantara.Common.Text.Defs.{
  Bytes, cstr, equal, equal_nocase, starts_with, strstr, strchr, before,
}
use Prim.Native.Nat.{ℕ, ◌≤◌}
use mathlib.Core.Bool.{true, false}
use mathlib.Core.List.{[], ◌∷◌, ◌++◌, append-nil}
use mathlib.Core.Logic.{◌≢◌, ◌↔◌, inl, inr}
use mathlib.Core.Option.{Option, none, some}
use mathlib.Core.Path.{◌≡◌, refl, ap}
use native.Mathlib.Omega.{arith}

pub equal_iff : (s t : Bytes) → (equal s t ≡ true) ↔ (s ≡ t)
unfolding equal
equal_iff [] [] = ground arith
equal_iff [] (d ∷ t) = ground arith
equal_iff (c ∷ s) [] = ground arith
equal_iff (c ∷ s) (d ∷ t) = ground (arith, equal_iff s t)

pub equal_nil : (s : Bytes) → 1 ≤ length s → equal s [] ≡ false
unfolding equal
equal_nil [] h = absurd (omega arith)
equal_nil (c ∷ s) h = refl

equal_nocase_refl : (a : Bytes) → equal_nocase a a ≡ true
unfolding equal_nocase
equal_nocase_refl [] = refl
equal_nocase_refl (x ∷ a) = ground (arith, equal_nocase_refl a)

starts_with-append : (p s : Bytes) → starts_with (p ++ s) p ≡ true
unfolding starts_with
starts_with-append [] s = refl
starts_with-append (c ∷ p) s = ground (arith, starts_with-append p s)

-- A string with no NUL is all there is before its terminator.
cstr_id : (s rest : Bytes) → All (λ c. c ≢ 0) s → cstr (s ++ 0 ∷ rest) ≡ s
unfolding cstr
cstr_id [] rest h = refl
cstr_id (c ∷ s) rest h = ground (arith, cstr_id s rest)

pub cstr-All : (s : Bytes) → All (λ c. c ≢ 0) s → cstr s ≡ s
unfolding cstr
cstr-All [] h = refl
cstr-All (c ∷ s) h = ground (arith, cstr-All s)

pub cstr-append : (s t : Bytes) → All (λ c. c ≢ 0) s → cstr (s ++ t) ≡ s ++ cstr t
unfolding cstr
cstr-append [] t h = refl
cstr-append (c ∷ s) t h = ground (arith, cstr-append s t)

pub cstr-no_nul : (s : Bytes) → All (λ c. c ≢ 0) (cstr s)
unfolding cstr
cstr-no_nul [] = tt
cstr-no_nul (c ∷ s) = ground (arith, cstr-no_nul s)

before-eq-some :
    (c : ℕ) (o : Option (Bytes × Bytes)) (front rest : Bytes)
    → before c o ≡ some (front, rest)
    → (f : Bytes) × (o ≡ some (f, rest)) × (front ≡ c ∷ f)
before-eq-some c none front rest h = cc
before-eq-some c (some (f, r)) front rest h = (f, ground arith, ground arith)

-- The result of a search splits the string, and the second part starts with what was sought.
pub strstr_splits :
    (s p front rest : Bytes)
    → strstr s p ≡ some (front, rest)
    → (s ≡ front ++ rest) × (starts_with rest p ≡ true)
unfolding strstr
strstr_splits [] p front rest h = ground arith
strstr_splits (c ∷ s) p front rest h = elim (Bool-cases (starts_with (c ∷ s) p)) [
  | inl e ↦ ground arith
  | inr e ↦
      let (f, found, front_is) = before-eq-some c (strstr s p) front rest (rw e at h) in
      ground (arith, strstr_splits s p f rest found)
]

pub starts_with-length : (s p : Bytes) → starts_with s p ≡ true → length p ≤ length s
unfolding starts_with
starts_with-length s [] h = omega arith
starts_with-length [] (d ∷ p) h = cc
starts_with-length (c ∷ s) (d ∷ p) h = ground (arith, starts_with-length s p)

pub starts_with_more : (s p x : Bytes) → starts_with s p ≡ true → starts_with (s ++ x) p ≡ true
unfolding starts_with
starts_with_more s [] x h = refl
starts_with_more [] (d ∷ p) x h = cc
starts_with_more (c ∷ s) (d ∷ p) x h = ground (arith, starts_with_more s p x)

-- A prefix of the right length decides by itself.
starts_with_fewer : (s p x : Bytes) → length p ≤ length s → starts_with (s ++ x) p ≡ starts_with s p
unfolding starts_with
starts_with_fewer s [] x h = refl
starts_with_fewer [] (d ∷ p) x h = absurd (omega arith)
starts_with_fewer (c ∷ s) (d ∷ p) x h = rw (starts_with_fewer s p x (omega arith))

length-strstr : (s p front rest : Bytes) → strstr s p ≡ some (front, rest) → length p ≤ length s
length-strstr s p front rest h =
    let (splits, starts) = strstr_splits s p front rest h in
    omega (arith, ap length splits, length-append front rest, starts_with-length rest p starts)

-- What is found in a string is found at the same place when the string goes on.
pub strstr-append :
    (s p x front rest : Bytes)
    → strstr s p ≡ some (front, rest)
    → strstr (s ++ x) p ≡ some (front, rest ++ x)
unfolding strstr
strstr-append [] [] [] front rest h = ground arith
strstr-append [] [] (b ∷ x) front rest h = ground (arith, starts_with_more [] [] (b ∷ x))
strstr-append [] (d ∷ p) x front rest h =
    absurd (omega (arith, length-strstr [] (d ∷ p) front rest h))
strstr-append (c ∷ s) p x front rest h = elim (Bool-cases (starts_with (c ∷ s) p)) [
  | inl e ↦ rw (starts_with_more (c ∷ s) p x e) (ground arith)
  | inr e ↦
      let (f, found, front_is) = before-eq-some c (strstr s p) front rest (rw e at h) in
      let long = length-strstr s p f rest found in
      rw (starts_with_fewer (c ∷ s) p x (omega arith), e, strstr-append s p x f rest found)
        (ground arith)
]

-- Behind any text, what is sought is found there or before.
pub strstr-append_some :
    (a p : Bytes)
    → (front : Bytes) × (rest : Bytes) × (strstr (a ++ p) p ≡ some (front, rest))
      × (length front ≤ length a)
unfolding strstr
strstr-append_some [] [] = ([], [], ground arith, omega arith)
strstr-append_some [] (d ∷ p) =
    ([], d ∷ p, ground (arith, starts_with-append (d ∷ p) [], append-nil p), omega arith)
strstr-append_some (c ∷ a) p = elim (Bool-cases (starts_with (c ∷ (a ++ p)) p)) [
  | inl e ↦ ([], c ∷ (a ++ p), ground arith, omega arith)
  | inr e ↦ let (f, r, found, le) = strstr-append_some a p in (c ∷ f, r, rw (e, found), omega arith)
]

pub strchr_splits :
    (s : Bytes) (b : ℕ) (front rest : Bytes)
    → strchr s b ≡ some (front, rest)
    → (tail : Bytes) × (s ≡ front ++ b ∷ tail) × (rest ≡ b ∷ tail) × All (λ c. c ≢ b) front
unfolding strchr
strchr_splits [] b front rest h = cc
strchr_splits (c ∷ s) b front rest h = elim (Bool-cases (c == b)) [
  | inl e ↦ (s, ground arith, ground arith, ground arith)
  | inr e ↦
      let (f, found, front_is) = before-eq-some c (strchr s b) front rest (rw e at h) in
      let (tail, splits, rest_is, lacks) = strchr_splits s b f rest found in
      (tail, ground arith, rest_is, ground arith)
]

pub strchr-none : (s : Bytes) (b : ℕ) → strchr s b ≡ none → All (λ c. c ≢ b) s
unfolding strchr
strchr-none [] b h = tt
strchr-none (c ∷ s) b h = ground (arith, strchr-none s b)

-- The first separator is found behind a text that does not hold it.
pub strchr-append :
    (s : Bytes) (b : ℕ) (tail : Bytes)
    → All (λ c. c ≢ b) s
    → strchr (s ++ b ∷ tail) b ≡ some (s, b ∷ tail)
unfolding strchr
strchr-append [] b tail h = ground arith
strchr-append (c ∷ s) b tail h = ground (arith, strchr-append s b tail)

pub strchr-lacks : (s : Bytes) (b : ℕ) → All (λ c. c ≢ b) s → strchr s b ≡ none
unfolding strchr
strchr-lacks [] b h = refl
strchr-lacks (c ∷ s) b h = ground (arith, strchr-lacks s b)
