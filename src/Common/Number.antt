-- ===== src/Common/Number.antt =====
-- `strtoul` and `strtol` in base ten on a 64-bit machine (glibc), and the digits of "%zu".
pub mod Print
use nirantara.Common.{
  ℕ, ◌+◌, ◌-◌, ◌*◌, ◌%◌, ◌^◌, Bool, true, false, List, [], ◌∷◌, ltb, ◌==◌, if◌then◌else◌,
}
use nirantara.Common.Text.{Bytes, is_digit, is_space, drop_while}

abbrev pub ulong_max : ℕ
ulong_max = 2 ^ 64 - 1

abbrev pub long_max : ℕ
long_max = 2 ^ 63 - 1

-- What a run of digits spells behind `n`, and what stands after it.
unfoldable pub scan_digits : ℕ → Bytes → ℕ × Bytes
scan_digits n [] = (n, [])
scan_digits n (c ∷ s) =
    let rest = scan_digits (n * 10 + (c - b'0')) s in if is_digit c then rest else (n, c ∷ s)

-- `nothing_read` is the case of no digits: the result is 0 and `*endptr` the whole text.
pub data Scanned : Type 0 where
  nothing_read : Scanned
  digits : (negative : Bool) → (magnitude : ℕ) → (rest : Bytes) → Scanned

unfoldable pub scan_unsigned : Bool → Bytes → Scanned
unfolding scan_digits
scan_unsigned negative [] = nothing_read
scan_unsigned negative (c ∷ s) =
    if is_digit c
    then (let (n, rest) = scan_digits 0 (c ∷ s) in digits negative n rest)
    else nothing_read

unfoldable pub scan_sign : Bytes → Scanned
unfolding scan_unsigned
scan_sign [] = nothing_read
scan_sign (c ∷ s) =
    if c == b'-'
    then scan_unsigned true s
    else if c == b'+'
    then scan_unsigned false s
    else scan_unsigned false (c ∷ s)

unfoldable pub scan : Bytes → Scanned
unfolding scan_sign drop_while
scan s = scan_sign (drop_while is_space s)

-- The result of a conversion: the value, `errno == ERANGE`, and the text at `*endptr`.
pub record Converted : Type 0 where
  pub negative : Bool
  pub value : ℕ
  pub range_error : Bool
  pub end : Bytes

-- A minus sign negates in `unsigned long`, as the standard says.
unfoldable pub strtoul_of : Bytes → Scanned → Converted
strtoul_of s nothing_read = record { negative = false; value = 0; range_error = false; end = s }
strtoul_of s (digits negative n rest) =
    if ltb ulong_max n
    then record { negative = false; value = ulong_max; range_error = true; end = rest }
    else record {
      negative = false;
      value = if negative then (2 ^ 64 - n) % 2 ^ 64 else n;
      range_error = false;
      end = rest;
    }

unfoldable pub strtoul : Bytes → Converted
strtoul s = strtoul_of s (scan s)

-- `value` is the magnitude.
unfoldable pub strtol_of : Bytes → Scanned → Converted
strtol_of s nothing_read = record { negative = false; value = 0; range_error = false; end = s }
strtol_of s (digits true n rest) =
    if ltb (2 ^ 63) n
    then record { negative = true; value = 2 ^ 63; range_error = true; end = rest }
    else record { negative = true; value = n; range_error = false; end = rest }
strtol_of s (digits false n rest) =
    if ltb long_max n
    then record { negative = false; value = long_max; range_error = true; end = rest }
    else record { negative = false; value = n; range_error = false; end = rest }

unfoldable pub strtol : Bytes → Converted
strtol s = strtol_of s (scan s)
