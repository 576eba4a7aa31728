-- ===== src/Enrollment/Http.antt =====
-- enrollment/src/http.c: the reading of a request, the answer to it, and its sending.
pub mod Request
pub mod Sending
pub mod Headers
pub mod Inspection
pub mod Chunks
pub mod Answer
use Prim.Native.String.{String}
use nirantara.Common.{
  ℕ, zero, suc, ◌+◌, ◌-◌, Bool, true, false, not, ◌&&◌, ◌||◌, Option, none, some, List, [], ◌∷◌,
  ◌++◌, ltb, leb, ◌==◌, if◌then◌else◌, length, take, drop, concat,
}
use nirantara.Common.Number.{Converted, strtoul}
use nirantara.Common.Number.Print.{print}
use nirantara.Common.Text.{
  Bytes, codes, cstr, equal, equal_nocase, starts_with, strstr, drop_while, drop_while_end,
}
use nirantara.Enrollment.Certificate.{Backend, issue_certificate}
use nirantara.Enrollment.Config.{Config}

-- REQUEST_MAX_BYTES and DEVICE_ID_MAX_BYTES
abbrev pub request_max_bytes : ℕ
request_max_bytes = 65536

abbrev pub device_id_max_bytes : ℕ
device_id_max_bytes = 128

abbrev pub crlf : Bytes
crlf = 13 ∷ 10 ∷ []

abbrev pub blank_line : Bytes
blank_line = crlf ++ crlf

-- What one call of `send` comes to: the number of bytes it takes, EINTR, or another error. It takes
-- no more than it is given.
pub data Sent : Type 0 where
  took : ℕ → Sent
  send_interrupted send_failed : Sent

-- `send_all`: whether it returns 0, and the bytes that were sent. Where the list ends, the next call
-- fails.
unfoldable pub send_all : List Sent → Bytes → Bool × Bytes
send_all _ [] = (true, [])
send_all [] (c ∷ buf) = (false, [])
send_all (send_interrupted ∷ calls) (c ∷ buf) = send_all calls (c ∷ buf)
send_all (send_failed ∷ calls) (c ∷ buf) = (false, [])
send_all (took n ∷ calls) (c ∷ buf) =
    let (fine, sent) = send_all calls (drop n (c ∷ buf)) in
    if n == 0 then (false, []) else (fine, take n (c ∷ buf) ++ sent)

pub record Response : Type 0 where
  pub status : ℕ
  pub reason : Bytes
  pub content_type : Bytes
  pub body : Bytes

unfoldable pub response_headers : Response → Bytes
response_headers r = concat (
    codes "HTTP/1.1 "
    ∷ print r.status
    ∷ codes " "
    ∷ r.reason
    ∷ crlf
    ∷ codes "Content-Type: "
    ∷ r.content_type
    ∷ crlf
    ∷ codes "Content-Length: "
    ∷ print (length r.body)
    ∷ crlf
    ∷ codes "Connection: close"
    ∷ blank_line
    ∷ [])

-- `send_response`, with the calls of `send` for the headers and those for the body.
unfoldable pub send_response : List Sent → List Sent → Response → Bool × Bytes
unfolding response_headers
send_response header_calls body_calls r =
    let (fine, sent) = send_all header_calls (response_headers r) in
    let (fine', sent') = send_all body_calls r.body in
    if not (ltb (length (response_headers r)) 512)
    then (false, [])
    else if not fine
    then (false, sent)
    else (fine', sent ++ sent')

abbrev pub is_blank : ℕ → Bool
is_blank c = c == b' ' || c == 9

-- `line[name_len] == ':'`, on the line as far as its end.
abbrev pub colon_next : Bytes → Bool
colon_next [] = false
colon_next (c ∷ rest) = c == b':'

unfoldable pub header_name_matches : Bytes → Bytes → Bool
unfolding equal_nocase
header_name_matches line name =
    colon_next (drop (length name) line) && equal_nocase (take (length name) line) name

unfoldable pub value_of : Bytes → Bytes → Bytes
value_of line name = drop_while_end is_blank (drop_while is_blank (drop (length name + 1) line))

-- The next line as `strstr` finds it, unless it ends behind the headers.
abbrev pub line_within : ℕ → Option (Bytes × Bytes) → Option Bytes
line_within len none = none
line_within len (some (front, _)) = if ltb len (length front) then none else some front

-- One round of the loop: `more` is what the rounds behind this line find.
unfoldable pub on_line : Option Bytes → ℕ → Bytes → (Bytes → Option Bytes) → Option Bytes
on_line none len name more = none
on_line (some line) len name more =
    if len == 0
    then none
    else if header_name_matches line name
    then some (value_of line name)
    else more line

-- The loop over the lines of `s`, of which `len` bytes stand before the end of the headers.
unfoldable pub find_header : ℕ → Bytes → ℕ → Bytes → Option Bytes
find_header zero s len name = none
find_header (suc rounds) s len name =
    on_line (line_within len (strstr s crlf)) len name
      (λ line. find_header rounds (drop (length line + 2) s) (len - (length line + 2)) name)

module _ (has_memory : ℕ → Bool) where
  abbrev pub copied : Option Bytes → Option Bytes
  copied none = none
  copied (some value) = if has_memory (length value + 1) then some value else none

  -- `copy_header_value` on the string at `headers` and the number of bytes up to `headers_end`; each
  -- round passes a line, so there are at most that many.
  unfoldable pub copy_header_value : Bytes → ℕ → Bytes → Option Bytes
  copy_header_value s len name = copied (find_header len s len name)

  unfoldable pub content_length_of : Converted → Option ℕ
  content_length_of r =
      if r.range_error || not (equal r.end []) || ltb request_max_bytes r.value
      then none
      else some r.value

  abbrev pub number_of : Option Bytes → Option ℕ
  number_of none = none
  number_of (some value) = content_length_of (strtoul value)

  unfoldable pub parse_content_length : Bytes → ℕ → Option ℕ
  unfolding content_length_of
  parse_content_length s len = number_of (copy_header_value s len (codes "Content-Length"))
