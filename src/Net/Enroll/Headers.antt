-- ===== src/Net/Enroll/Headers.antt =====
-- The headers of the server's answer, as the client searches them.
use nirantara.Common.{
  ℕ, ◌≡◌, ◌≢◌, refl, ap, true, false, some, [], ◌∷◌, ◌++◌, ◌==◌, length, All, All-append, arith,
}
use nirantara.Common.Number.Print.{print, print_digits, IsDigit, print_digits-IsDigit}
use nirantara.Common.Text.{Bytes, codes, starts_with, strstr, before}
use nirantara.Enrollment.Http.{crlf, blank_line, response_headers}
use nirantara.Enrollment.Http.Request.{issued}

-- Text of a header line: no NUL, and no CR.
abbrev pub IsLineChar : ℕ → Type 0
IsLineChar c = (c ≢ 0) × (c ≢ 13)

pub print-IsLineChar : (n : ℕ) → All IsLineChar (print n)
unfolding print
print-IsLineChar n = weaken (print_digits 19 n) (print_digits-IsDigit 19 n)
  where
    weaken : (s : Bytes) → All IsDigit s → All IsLineChar s
    weaken [] h = tt
    weaken (c ∷ s) h = (ground arith, weaken s h.1)

-- A blank line is not found inside a line.
pub strstr_past :
    (a s f r : Bytes)
    → All IsLineChar a
    → strstr s blank_line ≡ some (f, r)
    → strstr (a ++ s) blank_line ≡ some (a ++ f, r)
unfolding strstr starts_with
strstr_past [] s f r h e = e
strstr_past (c ∷ a) s f r h e =
    let past = strstr_past a s f r h.1 e in
    let differs : (c == 13) ≡ false = ground arith in rw (differs, past)

-- Nor at the end of a line that another one follows.
pub strstr_past_line :
    (c : ℕ) (s f r : Bytes)
    → c ≢ 13
    → strstr (c ∷ s) blank_line ≡ some (f, r)
    → strstr (crlf ++ c ∷ s) blank_line ≡ some (crlf ++ f, r)
unfolding strstr starts_with
strstr_past_line c s f r h e =
    let differs : (c == 13) ≡ false = ground arith in
    rw differs (ap (λ o. before 13 (before 10 o)) (rw differs at e))

abbrev last_header : Bytes
last_header = codes "Connection: close" ++ blank_line

abbrev length_header : ℕ → Bytes
length_header n = codes "Content-Length: " ++ (print n ++ (crlf ++ last_header))

abbrev type_header : ℕ → Bytes
type_header n =
    codes "Content-Type: " ++ (codes "application/x-pem-file" ++ (crlf ++ length_header n))

strstr-last_header : strstr last_header blank_line ≡ some (codes "Connection: close", blank_line)
unfolding strstr starts_with
strstr-last_header = refl

strstr-length_header :
    (n : ℕ) → (f : Bytes) × (strstr (length_header n) blank_line ≡ some (f, blank_line))
strstr-length_header n =
    let behind = strstr_past_line b'C' _ _ blank_line (omega arith) strstr-last_header in
    let digits =
      strstr_past (print n) (crlf ++ last_header) _ blank_line (print-IsLineChar n) behind in
    (_, strstr_past (codes "Content-Length: ") _ _ blank_line (omega arith) digits)

strstr-type_header :
    (n : ℕ) → (f : Bytes) × (strstr (type_header n) blank_line ≡ some (f, blank_line))
strstr-type_header n =
    let (f, e) = strstr-length_header n in
    let behind = strstr_past_line b'C' _ f blank_line (omega arith) e in
    let kind =
      strstr_past (codes "application/x-pem-file") (crlf ++ length_header n) _ blank_line
        (omega arith) behind in
    (_, strstr_past (codes "Content-Type: ") _ _ blank_line (omega arith) kind)

-- The headers of the answer end at their first blank line.
pub strstr-response_headers :
    (pem : Bytes)
    → (f : Bytes) × (strstr (response_headers (issued pem)) blank_line ≡ some (f, blank_line))
unfolding response_headers
strstr-response_headers pem =
    let n = length pem in
    let (f, e) = strstr-type_header n in
    let behind = strstr_past_line b'C' _ f blank_line (omega arith) e in
    let reason =
      strstr_past (codes " " ++ codes "OK") (crlf ++ type_header n) _ blank_line (omega arith)
        behind in
    let status = strstr_past (print 200) _ _ blank_line (print-IsLineChar 200) reason in
    (_, strstr_past (codes "HTTP/1.1 ") _ _ blank_line (omega arith) status)

abbrev pub HasNoNul : Bytes → Type 0
HasNoNul = All (λ c. c ≢ 0)

pub HasNoNul-print : (n : ℕ) → HasNoNul (print n)
HasNoNul-print n = weaken (print n) (print-IsLineChar n)
  where
    weaken : (s : Bytes) → All IsLineChar s → HasNoNul s
    weaken [] h = tt
    weaken (c ∷ s) h = (h.0.0, weaken s h.1)

pub HasNoNul-append : (s t : Bytes) → HasNoNul s → HasNoNul t → HasNoNul (s ++ t)
HasNoNul-append s t h k = All-append (λ c. c ≢ 0) s t h k

pub response_headers-HasNoNul : (pem : Bytes) → HasNoNul (response_headers (issued pem))
unfolding response_headers
response_headers-HasNoNul pem =
    let n = length pem in
    let digits = HasNoNul-append (print n) (crlf ++ last_header) (HasNoNul-print n) (omega arith) in
    let size =
      HasNoNul-append (codes "Content-Length: ") (print n ++ (crlf ++ last_header)) (omega arith)
        digits in
    let kind =
      HasNoNul-append (codes "Content-Type: application/x-pem-file" ++ crlf) (length_header n)
        (omega arith) size in
    let reason = HasNoNul-append (codes " OK" ++ crlf) (type_header n) (omega arith) kind in
    let status =
      HasNoNul-append (print 200) (codes " OK" ++ (crlf ++ type_header n)) (HasNoNul-print 200)
        reason in
    HasNoNul-append (codes "HTTP/1.1 ") (print 200 ++ (codes " OK" ++ (crlf ++ type_header n)))
      (omega arith) status

print_200 : print 200 ≡ codes "200"
unfolding print print_digits
print_200 = refl

pub status_200 :
    (pem : Bytes) → starts_with (response_headers (issued pem)) (codes "HTTP/1.1 200") ≡ true
unfolding response_headers starts_with
status_200 pem = rw print_200
