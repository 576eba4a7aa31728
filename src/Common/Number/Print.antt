-- ===== src/Common/Number/Print.antt =====
-- Decimal print, and what the scanner makes of it.
use nirantara.Common.{
  ℕ, zero, suc, ◌+◌, ◌/◌, ◌%◌, ◌^◌, ◌<◌, ◌≡◌, refl, true, false, [], ◌∷◌, ◌++◌, ltb, if◌then◌else◌,
  All, arith, append_assoc, append-nil, Bool-cases, inl, inr, ltb→lt, ◌∙◌, ap, All-append,
}
use nirantara.Common.Number.{scan_digits, scan, digits, strtoul, strtoul_of}
use nirantara.Common.Text.{Bytes, is_digit}

abbrev pub IsDigit : ℕ → Type 0
IsDigit c = is_digit c ≡ true

-- The digits of "%zu", the last one first computed; `fuel` bounds their number.
unfoldable pub print_digits : ℕ → ℕ → Bytes
print_digits zero n = (b'0' + n % 10) ∷ []
print_digits (suc fuel) n =
    let more = print_digits fuel (n / 10) ++ (b'0' + n % 10) ∷ [] in
    if ltb n 10 then (b'0' + n % 10) ∷ [] else more

-- A number below 2 ^ 64 has at most 20 digits.
unfoldable pub print : ℕ → Bytes
print = print_digits 19

last_digit : ℕ → Bytes
last_digit n = (b'0' + n % 10) ∷ []

pub print_digits-IsDigit : (fuel n : ℕ) → All IsDigit (print_digits fuel n)
unfolding print_digits
print_digits-IsDigit zero n = ground arith
print_digits-IsDigit (suc fuel) n = elim (Bool-cases (ltb n 10)) [
  | inl e ↦ rw e (ground arith)
  | inr e ↦ rw e (
      All-append IsDigit (print_digits fuel (n / 10)) _ (print_digits-IsDigit fuel (n / 10))
        (ground arith))
]

scan_digits_step :
    (n : ℕ) (rest : Bytes) → scan_digits (n / 10) ((b'0' + n % 10) ∷ rest) ≡ scan_digits n rest
unfolding scan_digits
scan_digits_step n rest = ground arith

scan_digits_first :
    (n : ℕ) (rest : Bytes) → n < 10 → scan_digits 0 ((b'0' + n % 10) ∷ rest) ≡ scan_digits n rest
unfolding scan_digits
scan_digits_first n rest h = ground arith

-- Scanning what was printed leaves the number in the accumulator.
scan_digits-print_digits :
    (fuel n : ℕ) (rest : Bytes)
    → n < 10 ^ suc fuel
    → scan_digits 0 (print_digits fuel n ++ rest) ≡ scan_digits n rest
unfolding print_digits
scan_digits-print_digits zero n rest h = scan_digits_first n rest (omega arith)
scan_digits-print_digits (suc fuel) n rest h = elim (Bool-cases (ltb n 10)) [
  | inl e ↦ rw e (scan_digits_first n rest (ltb→lt n 10 e))
  | inr e ↦ rw e (
      rw append_assoc
        (scan_digits-print_digits fuel (n / 10) _ (omega arith) ∙ scan_digits_step n rest))
]

-- A text that starts with a digit is scanned as such: no white space, no sign.
pub scan_digit :
    (c : ℕ) (s : Bytes)
    → is_digit c ≡ true
    → scan (c ∷ s) ≡ (let (n, rest) = scan_digits 0 (c ∷ s) in digits false n rest)
unfolding scan
scan_digit c s h = ground arith

scan_minus_digit :
    (c : ℕ) (s : Bytes)
    → is_digit c ≡ true
    → scan (b'-' ∷ c ∷ s) ≡ (let (n, rest) = scan_digits 0 (c ∷ s) in digits true n rest)
unfolding scan
scan_minus_digit c s h = ground arith

print_digits_head : (fuel n : ℕ) → (c : ℕ) × (s : Bytes) × (print_digits fuel n ≡ c ∷ s) × IsDigit c
unfolding print_digits
print_digits_head zero n = (b'0' + n % 10, [], refl, ground arith)
print_digits_head (suc fuel) n = elim (Bool-cases (ltb n 10)) [
  | inl e ↦ rw e (b'0' + n % 10, [], refl, ground arith)
  | inr e ↦
      let (c, s, shape, h) = print_digits_head fuel (n / 10) in
      rw (e, shape) (c, s ++ (b'0' + n % 10) ∷ [], refl, h)
]

-- Where a text is all digits that spell `n`, the scanner returns `n` and nothing is left.
pub scan_all :
    (t : Bytes) (c : ℕ) (s : Bytes) (n : ℕ)
    → t ≡ c ∷ s
    → is_digit c ≡ true
    → scan_digits 0 t ≡ (n, [])
    → scan t ≡ digits false n []
scan_all t c s n shape h e =
    rw shape (scan_digit c s h ∙ ap (λ (r : ℕ × Bytes). digits false r.0 r.1) (rw shape at e))

pub scan-print : (n : ℕ) → n < 2 ^ 64 → scan (print n) ≡ digits false n []
unfolding print scan_digits
scan-print n h =
    let (c, s, shape, is) = print_digits_head 19 n in
    scan_all (print_digits 19 n) c s n shape is
      (rw append-nil at (scan_digits-print_digits 19 n [] (omega arith)))

scan_minus :
    (t : Bytes) (c : ℕ) (s : Bytes) (n : ℕ)
    → t ≡ c ∷ s
    → is_digit c ≡ true
    → scan_digits 0 t ≡ (n, [])
    → scan (b'-' ∷ t) ≡ digits true n []
scan_minus t c s n shape h e =
    rw shape (scan_minus_digit c s h ∙ ap (λ (r : ℕ × Bytes). digits true r.0 r.1) (rw shape at e))

-- `strtoul` reads back what "%zu" printed, up to the text's end.
pub strtoul-print :
    (n : ℕ)
    → n < 2 ^ 64
    → strtoul (print n) ≡ record { negative = false; value = n; range_error = false; end = [] }
unfolding strtoul_of
strtoul-print n h = unfold strtoul in rw (scan-print n h) (ground arith)

-- A printed number is not empty, and starts with a digit.
pub print_head : (n : ℕ) → (c : ℕ) × (s : Bytes) × (print n ≡ c ∷ s) × IsDigit c
unfolding print
print_head n = print_digits_head 19 n

-- Behind a minus sign the same digits are read, and the sign is kept.
pub scan_minus-print : (n : ℕ) → n < 2 ^ 64 → scan (b'-' ∷ print n) ≡ digits true n []
unfolding print scan_digits
scan_minus-print n h =
    let (c, s, shape, is) = print_digits_head 19 n in
    scan_minus (print_digits 19 n) c s n shape is
      (rw append-nil at (scan_digits-print_digits 19 n [] (omega arith)))
