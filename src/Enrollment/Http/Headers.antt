-- ===== src/Enrollment/Http/Headers.antt =====
-- The search for a header: what follows the headers does not matter to it.
use nirantara.Common.{
  ℕ, zero, suc, ◌+◌, ◌-◌, ◌≤◌, ◌≡◌, refl, ◌∙◌, ap, sym, subst, Bool, false, Option, none, some, [],
  ◌∷◌, ◌++◌, ltb, length, drop, length-drop, append_assoc, arith,
}
use native.Mathlib.Decide.{dec_lt}
use nirantara.Common.Text.{Bytes, codes, strstr}
use nirantara.Common.Text.Search.{strstr-append, strstr-append_some}
use nirantara.Enrollment.Http.{
  crlf, find_header, copy_header_value, parse_content_length, line_within, on_line, number_of,
  copied,
}

drop-append : (k : ℕ) (a x : Bytes) → k ≤ length a → drop k (a ++ x) ≡ drop k a ++ x
drop-append zero a x h = refl
drop-append (suc k) [] x h = absurd (omega arith)
drop-append (suc k) (c ∷ a) x h = drop-append k a x (omega arith)

on_line_done :
    (o : Option Bytes) (name : Bytes) (more : Bytes → Option Bytes) → on_line o 0 name more ≡ none
unfolding on_line
on_line_done none name more = refl
on_line_done (some line) name more = refl

find_header_done : (rounds : ℕ) (s name : Bytes) → find_header rounds s 0 name ≡ none
unfolding find_header
find_header_done zero s name = refl
find_header_done (suc rounds) s name = on_line_done (line_within 0 (strstr s crlf)) name _

on_line_cong :
    (line : Bytes) (len : ℕ) (name : Bytes) (f g : Bytes → Option Bytes)
    → f line ≡ g line
    → on_line (some line) len name f ≡ on_line (some line) len name g
unfolding on_line
on_line_cong line len name f g h = rw h

on_line_ext :
    (o : Option Bytes) (len : ℕ) (name : Bytes) {f g : Bytes → Option Bytes}
    → ((line : Bytes) → f line ≡ g line)
    → on_line o len name f ≡ on_line o len name g
on_line_ext none len name h = unfold on_line in refl
on_line_ext (some line) len name h = on_line_cong line len name _ _ (h line)

abbrev after : ℕ → Bytes → ℕ → Bytes → Bytes → Option Bytes
after rounds s len name line =
    find_header rounds (drop (length line + 2) s) (len - (length line + 2)) name

pub find_header_step :
    (rounds : ℕ) (s : Bytes) (len : ℕ) (name front rest : Bytes)
    → strstr s crlf ≡ some (front, rest)
    → length front ≤ len
    → find_header (suc rounds) s len name ≡ on_line (some front) len name (after rounds s len name)
unfolding find_header
find_header_step rounds s len name front rest e le =
    let within : ltb len (length front) ≡ false = ground arith in rw (e, within)

-- What follows the headers does not matter to the search behind `k` bytes of them, if it does not
-- matter to a search.
find_header_behind :
    (rounds : ℕ) (a x name : Bytes) (k : ℕ)
    → ((b : Bytes)
        → find_header rounds ((b ++ crlf) ++ x) (length b) name
          ≡ find_header rounds (b ++ crlf) (length b) name)
    → find_header rounds (drop k ((a ++ crlf) ++ x)) (length a - k) name
      ≡ find_header rounds (drop k (a ++ crlf)) (length a - k) name
find_header_behind rounds a x name k ih = elim (dec_lt (length a) k) [
  | yes h ↦
      let end : length a - k ≡ 0 = omega arith in
      rw end (find_header_done rounds _ name ∙ sym (find_header_done rounds _ name))
  | no h ↦
      ap (λ s. find_header rounds s (length a - k) name)
        (ap (drop k) (append_assoc a crlf x)
          ∙ drop-append k a (crlf ++ x) (omega arith)
          ∙ sym (append_assoc (drop k a) crlf x))
      ∙ subst
          (λ n.
            find_header rounds ((drop k a ++ crlf) ++ x) n name
            ≡ find_header rounds (drop k a ++ crlf) n name)
          (length-drop k a) (ih (drop k a))
      ∙ ap (λ s. find_header rounds s (length a - k) name)
          (sym (drop-append k a crlf (omega arith)))
]

find_header-append :
    (rounds : ℕ) (a x name : Bytes)
    → find_header rounds ((a ++ crlf) ++ x) (length a) name
      ≡ find_header rounds (a ++ crlf) (length a) name
find_header-append zero a x name = unfold find_header in refl
find_header-append (suc rounds) a x name =
    let (f, r, e, le) = strstr-append_some a crlf in
    let e' = strstr-append (a ++ crlf) crlf x f r e in
    find_header_step rounds ((a ++ crlf) ++ x) (length a) name f (r ++ x) e' le
    ∙ on_line_cong f (length a) name _ _ (
        find_header_behind rounds a x name (length f + 2) (λ b. find_header-append rounds b x name))
    ∙ sym (find_header_step rounds (a ++ crlf) (length a) name f r e le)

-- What follows the headers does not matter to the content length.
pub parse_content_length-append :
    (has_memory : ℕ → Bool) (a x : Bytes)
    → parse_content_length has_memory ((a ++ crlf) ++ x) (length a)
      ≡ parse_content_length has_memory (a ++ crlf) (length a)
unfolding parse_content_length copy_header_value
parse_content_length-append has_memory a x =
    ap (λ v. number_of has_memory (copied has_memory v))
      (find_header-append (length a) a x (codes "Content-Length"))

find_header_same :
    (r q : ℕ) (s : Bytes) (len : ℕ) (name : Bytes)
    → len ≤ r
    → len ≤ q
    → find_header r s len name ≡ find_header q s len name
unfolding find_header
find_header_same zero q s zero name h g = sym (find_header_done q s name)
find_header_same (suc r) q s zero name h g =
    find_header_done (suc r) s name ∙ sym (find_header_done q s name)
find_header_same (suc r) (suc q) s (suc len) name h g =
    on_line_ext (line_within (suc len) (strstr s crlf)) (suc len) name (λ line.
      find_header_same r q (drop (length line + 2) s) (suc len - (length line + 2)) name
        (omega arith) (omega arith))
find_header_same zero q s (suc len) name h g = absurd (omega arith)
find_header_same (suc r) zero s (suc len) name h g = absurd (omega arith)

-- Each line takes two bytes at least of those before the end of the headers, so that many rounds are
-- enough: with any more the search has the same result.
pub find_header_enough :
    (rounds : ℕ) (s : Bytes) (len : ℕ) (name : Bytes)
    → len ≤ rounds
    → find_header rounds s len name ≡ find_header len s len name
find_header_enough rounds s len name h = find_header_same rounds len s len name h (omega arith)
