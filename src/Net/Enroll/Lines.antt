-- ===== src/Net/Enroll/Lines.antt =====
-- The server's search for a header, line by line.
use nirantara.Common.{
  ℕ, suc, ◌+◌, ◌-◌, ◌<◌, ◌≡◌, refl, ◌∙◌, ap, sym, Bool, true, false, ◌&&◌, Option, some, [], ◌∷◌,
  ◌++◌, ◌==◌, length, drop, drop-length-append, length-append, append_assoc, All, arith,
}
use nirantara.Common.Number.Print.{print, IsDigit, print_digits, print_digits-IsDigit}
use nirantara.Common.Text.{Bytes, starts_with, strstr, drop_while, drop_while_end}
use nirantara.Enrollment.Http.{crlf, on_line, find_header, header_name_matches, value_of, is_blank}
use nirantara.Enrollment.Http.Headers.{find_header_step, find_header_enough}
use nirantara.Net.Enroll.Headers.{IsLineChar}

-- A line ends at the first CR LF behind it.
strstr-line :
    (line s : Bytes)
    → All IsLineChar line
    → strstr (line ++ (crlf ++ s)) crlf ≡ some (line, crlf ++ s)
unfolding strstr starts_with
strstr-line [] s h = refl
strstr-line (c ∷ line) s h =
    let differs : (c == 13) ≡ false = ground arith in rw (differs, strstr-line line s h.1)

drop_line : (line s : Bytes) → drop (length line + 2) (line ++ (crlf ++ s)) ≡ s
drop_line line s =
    ap (λ t. drop (length line + 2) t) (sym (append_assoc line crlf s))
    ∙ ap (λ n. drop n ((line ++ crlf) ++ s)) (sym (length-append line crlf))
    ∙ drop-length-append (line ++ crlf) s

-- The search with as many rounds as there are bytes.
abbrev pub search_header : Bytes → ℕ → Bytes → Option Bytes
search_header s len name = find_header len s len name

-- A line with another name is passed over.
pub skip_line :
    (line s name : Bytes) (n : ℕ)
    → All IsLineChar line
    → header_name_matches line name ≡ false
    → search_header (line ++ (crlf ++ s)) (length line + 2 + n) name ≡ search_header s n name
skip_line line s name n h other =
    let len = length line + 2 + n in
    let len' : len ≡ suc (length line + 1 + n) = omega arith in
    let left : len - (length line + 2) ≡ n = omega arith in
    ap (λ r. find_header r (line ++ (crlf ++ s)) len name) len'
    ∙ find_header_step (length line + 1 + n) (line ++ (crlf ++ s)) len name line (crlf ++ s)
        (strstr-line line s h) (omega arith)
    ∙ on_line_other line len name _ (omega arith) other
    ∙ ap (λ t. find_header (length line + 1 + n) t (len - (length line + 2)) name)
        (drop_line line s)
    ∙ ap (λ k. find_header (length line + 1 + n) s k name) left
    ∙ find_header_enough (length line + 1 + n) s n name (omega arith)
  where
    on_line_other :
        (line : Bytes) (len : ℕ) (name : Bytes) (more : Bytes → Option Bytes)
        → 0 < len
        → header_name_matches line name ≡ false
        → on_line (some line) len name more ≡ more line
    on_line_other line len name more pos e =
        let some_left : (len == 0) ≡ false = ground arith in unfold on_line in rw (some_left, e)

-- A line with the name gives the value.
pub take_line :
    (line s name : Bytes) (n : ℕ)
    → All IsLineChar line
    → header_name_matches line name ≡ true
    → search_header (line ++ (crlf ++ s)) (length line + suc n) name ≡ some (value_of line name)
take_line line s name n h same =
    let len = length line + suc n in
    let len' : len ≡ suc (length line + n) = omega arith in
    ap (λ r. find_header r (line ++ (crlf ++ s)) len name) len'
    ∙ find_header_step (length line + n) (line ++ (crlf ++ s)) len name line (crlf ++ s)
        (strstr-line line s h) (omega arith)
    ∙ (let some_left : (len == 0) ≡ false = ground arith in unfold on_line in rw (some_left, same))

pub and_false : (b : Bool) → (b && false) ≡ false
and_false true = refl
and_false false = refl

abbrev pub IsInk : ℕ → Type 0
IsInk c = is_blank c ≡ false

drop_while-ink : (s : Bytes) → All IsInk s → drop_while is_blank s ≡ s
unfolding drop_while
drop_while-ink [] h = refl
drop_while-ink (c ∷ s) h = rw (h.0)

drop_while_end-ink : (s : Bytes) → All IsInk s → drop_while_end is_blank s ≡ s
unfolding drop_while_end
drop_while_end-ink [] h = refl
drop_while_end-ink (c ∷ s) h = rw (h.0, drop_while_end-ink s h.1)

-- A value behind a colon and a blank is taken as it is.
pub value-ink :
    (s : Bytes) → All IsInk s → drop_while_end is_blank (drop_while is_blank (b' ' ∷ s)) ≡ s
unfolding drop_while
value-ink s h = ap (drop_while_end is_blank) (drop_while-ink s h) ∙ drop_while_end-ink s h

pub print-IsInk : (n : ℕ) → All IsInk (print n)
unfolding print
print-IsInk n = weaken (print_digits 19 n) (print_digits-IsDigit 19 n)
  where
    weaken : (s : Bytes) → All IsDigit s → All IsInk s
    weaken [] h = tt
    weaken (c ∷ s) h = (ground arith, weaken s h.1)
