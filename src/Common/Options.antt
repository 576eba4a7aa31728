-- ===== src/Common/Options.antt =====
-- Chains of calls of which each may fail.
use mathlib.Core.Bool.{Bool, true, false}
use mathlib.Core.Option.{Option, none, some}
use mathlib.Core.Path.{ap, ◌≡◌, refl}

infixl 5 ◌>>=◌ ◌>>◌
abbrev pub ◌>>=◌ {ℓ κ} : {A : Type ℓ} {B : Type κ} → Option A → (A → Option B) → Option B
none >>= f = none
some a >>= f = f a

abbrev pub guard : Bool → Option (Unit {0})
guard true = some tt
guard false = none

abbrev pub ◌>>◌ {ℓ} : {B : Type ℓ} → Option (Unit {0}) → Option B → Option B
m >> k = m >>= λ _. k

-- Inversion of a chain.
pub >>=-eq-some {ℓ κ} :
    {A : Type ℓ} {B : Type κ} (m : Option A) (f : A → Option B) {b : B}
    → (m >>= f) ≡ some b
    → (a : A) × (m ≡ some a) × (f a ≡ some b)
>>=-eq-some none f h = cc
>>=-eq-some (some a) f h = (a, refl, h)

pub guard-eq-some {κ} :
    {B : Type κ} (t : Bool) (m : Option B) {b : B}
    → (guard t >> m) ≡ some b
    → (t ≡ true) × (m ≡ some b)
guard-eq-some true m h = (refl, h)
guard-eq-some false m h = cc

pub some_eq {ℓ} : {A : Type ℓ} (a b : A) → some a ≡ some b → a ≡ b
some_eq a b h = cc

-- A chain whose first call succeeds.
pub >>=-some {ℓ κ} :
    {A : Type ℓ} {B : Type κ} {m : Option A} (f : A → Option B) {a : A}
    → m ≡ some a
    → (m >>= f) ≡ f a
>>=-some f h = ap (λ o. o >>= f) h

pub guard-true {κ} : {B : Type κ} {t : Bool} {m : Option B} → t ≡ true → (guard t >> m) ≡ m
guard-true {m = m} h = ap (λ b. guard b >> m) h
