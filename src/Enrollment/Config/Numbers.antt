-- ===== src/Enrollment/Config/Numbers.antt =====
-- `parse_u16` and `parse_long` of enrollment/src/config.c on the texts that they accept and refuse.
use nirantara.Common.{
  ℕ, ◌-◌, ◌^◌, ◌≤◌, ◌<◌, ◌≡◌, ◌∙◌, true, false, Option, none, some, [], ◌∷◌, leb, if◌then◌else◌,
  ◌&&◌, arith,
}
use nirantara.Common.Number.{
  long_max, strtoul, strtol, strtoul_of, strtol_of, scan, Scanned, nothing_read, digits,
}
use nirantara.Common.Number.Print.{print, print_head, scan-print, scan_minus-print}
use nirantara.Common.Text.{Bytes, equal}
use nirantara.Enrollment.Config.{parse_u16, parse_u16_of, parse_long, parse_long_of}

parse_u16_cons :
    (t : Bytes) (c : ℕ) (s : Bytes) → t ≡ c ∷ s → parse_u16 (some t) ≡ parse_u16_of (strtoul t)
unfolding parse_u16
parse_u16_cons t c s e = rw e

parse_long_cons :
    (t : Bytes) (c : ℕ) (s : Bytes) → t ≡ c ∷ s → parse_long (some t) ≡ parse_long_of (strtol t)
unfolding parse_long
parse_long_cons t c s e = rw e

-- On the decimal form of any 64-bit number, `parse_u16` returns that number if it is a port from
-- 1 to 65535, and fails otherwise.
pub parse_u16-print :
    (n : ℕ)
    → n < 2 ^ 64
    → parse_u16 (some (print n)) ≡ (if leb 1 n && leb n 65535 then some n else none)
unfolding strtoul strtoul_of parse_u16_of equal
parse_u16-print n h =
    let (c, s, shape, _) = print_head n in
    parse_u16_cons (print n) c s shape ∙ rw (scan-print n h) (ground arith)

-- Whatever the text, a result of `parse_u16` is a port from 1 to 65535.
pub parse_u16_bounds :
    (text : Option Bytes) (n : ℕ) → parse_u16 text ≡ some n → (1 ≤ n) × (n ≤ 65535)
unfolding parse_u16 parse_u16_of
parse_u16_bounds none n h = cc
parse_u16_bounds (some []) n h = cc
parse_u16_bounds (some (c ∷ s)) n h = ground arith

-- A minus sign wraps around in `strtoul`: for every port n the text of -(2^64 - n) is accepted
-- as n.
pub parse_u16_wraps :
    (n : ℕ) → 1 ≤ n → n ≤ 65535 → parse_u16 (some (b'-' ∷ print (2 ^ 64 - n))) ≡ some n
unfolding parse_u16 strtoul strtoul_of parse_u16_of equal
parse_u16_wraps n lo hi = rw (scan_minus-print (2 ^ 64 - n) (omega arith)) (ground arith)

-- On the decimal form of any 64-bit number, `parse_long` returns that number if it is positive and
-- fits a `long`, and fails otherwise.
parse_long-print :
    (n : ℕ)
    → n < 2 ^ 64
    → parse_long (some (print n)) ≡ (if leb 1 n && leb n long_max then some n else none)
unfolding strtol strtol_of parse_long_of equal
parse_long-print n h =
    let (c, s, shape, _) = print_head n in
    parse_long_cons (print n) c s shape ∙ rw (scan-print n h) (ground arith)

strtol_of_fits :
    (t : Bytes) (r : Scanned) → (strtol_of t r).negative ≡ false → (strtol_of t r).value ≤ long_max
unfolding strtol_of
strtol_of_fits t nothing_read h = omega arith
strtol_of_fits t (digits true n rest) h = ground arith
strtol_of_fits t (digits false n rest) h = ground arith

-- Whatever the text, a result of `parse_long` is positive and fits a `long`.
pub parse_long_bounds :
    (text : Option Bytes) (n : ℕ) → parse_long text ≡ some n → (1 ≤ n) × (n ≤ long_max)
unfolding parse_long parse_long_of strtol
parse_long_bounds none n h = cc
parse_long_bounds (some []) n h = cc
parse_long_bounds (some (c ∷ s)) n h = ground (arith, strtol_of_fits (c ∷ s) (scan (c ∷ s)))
