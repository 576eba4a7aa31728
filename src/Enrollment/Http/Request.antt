-- ===== src/Enrollment/Http/Request.antt =====
-- `read_request` and `handle_client` of enrollment/src/http.c.
use nirantara.Common.{
  ℕ, ◌+◌, ◌-◌, Bool, true, false, not, ◌&&◌, ◌||◌, Option, none, some, List, [], ◌∷◌, ◌++◌, ltb,
  leb, if◌then◌else◌, length, take, drop,
}
use nirantara.Common.Text.{Bytes, codes, cstr, equal, starts_with, strstr}
use nirantara.Enrollment.Certificate.{Backend, issue_certificate}
use nirantara.Enrollment.Config.{Config}
use nirantara.Enrollment.Http.{
  request_max_bytes, device_id_max_bytes, crlf, blank_line, Response, Sent, send_response,
  copy_header_value, parse_content_length,
}

-- What one call of `recv` comes to: bytes, EINTR, or another error. No bytes mean that the peer has
-- closed the connection.
pub data Received : Type 0 where
  chunk : Bytes → Received
  recv_interrupted recv_failed : Received

-- What the buffer holds: not yet a whole request, with the content length if it is known; a whole
-- request of so many bytes; or headers without a content length.
pub data Progress : Type 0 where
  partial : (content_len : Option ℕ) → Progress
  complete : (request_len : ℕ) → Progress
  malformed : Progress

abbrev pub or_parsed : Option ℕ → Option ℕ → Option ℕ
or_parsed none parsed = parsed
or_parsed (some content_len) parsed = some content_len

abbrev pub measure : ℕ → ℕ → Option ℕ → Progress
measure total header_bytes none = malformed
measure total header_bytes (some content_len) =
    if leb (header_bytes + content_len) total
    then complete (header_bytes + content_len)
    else partial (some content_len)

-- How a request was refused, or the value for the next step.
pub data Step {ℓ} (A : Type ℓ) : Type ℓ where
  stop : Response → Step A
  next : A → Step A

infixl 5 ◌>>=◌ ◌>>◌
unfoldable pub ◌>>=◌ {ℓ κ} : {A : Type ℓ} {B : Type κ} → Step A → (A → Step B) → Step B
stop r >>= f = stop r
next a >>= f = f a

abbrev pub ◌>>◌ {ℓ} : {B : Type ℓ} → Step (Unit {0}) → Step B → Step B
m >> k = m >>= λ _. k

unfoldable pub require : Bool → Response → Step (Unit {0})
require true r = next tt
require false r = stop r

unfoldable pub or_stop {ℓ} : {A : Type ℓ} → Option A → Response → Step A
or_stop none r = stop r
or_stop (some a) r = next a

abbrev pub plain : ℕ → Bytes → Bytes → Response
plain status reason body = record {
  status = status;
  reason = reason;
  content_type = codes "text/plain";
  body = body;
}

abbrev pub bad_request : Bytes → Response
bad_request body = plain 400 (codes "Bad Request") body

abbrev pub not_found : Response
not_found = plain 404 (codes "Not Found") (codes "expected POST /enroll\n")

abbrev pub forbidden : Response
forbidden = plain 403 (codes "Forbidden") (codes "certificate enrollment failed\n")

abbrev pub issued : Bytes → Response
issued cert_pem = record {
  status = 200;
  reason = codes "OK";
  content_type = codes "application/x-pem-file";
  body = cert_pem;
}

abbrev pub response_of : Step Response → Response
response_of (stop r) = r
response_of (next r) = r

-- The bytes before what was found.
abbrev pub length_before : Option (Bytes × Bytes) → Option ℕ
length_before none = none
length_before (some (front, _)) = some (length front)

abbrev pub longer_than : ℕ → Option ℕ → Bool
longer_than n none = false
longer_than n (some len) = leb n len

-- `request_line_is_enroll_post`
unfoldable pub request_line_is_enroll_post : Bytes → Bool
request_line_is_enroll_post request =
    longer_than (length (codes "POST /enroll HTTP/1.1")) (length_before (strstr request crlf))
    && starts_with request (codes "POST /enroll ")

module _ (has_memory : ℕ → Bool) where
  -- What the buffer `buf`, which holds the string `text`, shows once its headers have been sought.
  abbrev pub progress : Bytes → Bytes → Option ℕ → Option ℕ → Progress
  progress buf text known none = partial known
  progress buf text known (some len) =
      measure (length buf) (len + 4) (or_parsed known (parse_content_length has_memory text len))

  -- The body of the loop after a `recv` that brought bytes.
  unfoldable pub inspect : Bytes → Option ℕ → Progress
  unfolding cstr
  inspect buf known = progress buf (cstr buf) known (length_before (strstr (cstr buf) blank_line))

  abbrev pub proceed : Bytes → (Option ℕ → Option Bytes) → Progress → Option Bytes
  proceed buf go (partial known) = go known
  proceed buf go (complete request_len) = some (take request_len buf)
  proceed buf go malformed = none

  -- The loop of `read_request`, with what the buffer holds and the content length if it is known.
  unfoldable pub receive_loop : List Received → Bytes → Option ℕ → Option Bytes
  unfolding inspect equal
  receive_loop [] buf known = none
  receive_loop (recv_interrupted ∷ calls) buf known =
      let rest = receive_loop calls buf known in
      if ltb (length buf) request_max_bytes then rest else none
  receive_loop (recv_failed ∷ calls) buf known = none
  receive_loop (chunk bytes ∷ calls) buf known =
      let buf' = buf ++ take (request_max_bytes - length buf) bytes in
      let read = proceed buf' (λ k. receive_loop calls buf' k) (inspect buf' known) in
      if not (ltb (length buf) request_max_bytes) || equal bytes [] then none else read

  -- `read_request`: the first `request_len` bytes of the buffer.
  unfoldable pub read_request : List Received → Option Bytes
  read_request calls =
      if has_memory (request_max_bytes + 1) then receive_loop calls [] none else none

module _ (b : Backend) (cfg : Config) where
  -- The steps of `handle_client` behind the reading, each with the answer where it fails. `request`
  -- is the string that starts the buffer, and `request_len` the number of its bytes.
  unfoldable pub answer : Bytes → ℕ → Step Response
  answer request request_len = do
    require (request_line_is_enroll_post request) not_found
    len ←
        or_stop (length_before (strstr request blank_line))
          (bad_request (codes "missing Content-Length\n"))
    content_len ←
        or_stop (parse_content_length b.has_memory request len)
          (bad_request (codes "missing Content-Length\n"))
    device_id ←
        or_stop (copy_header_value b.has_memory request len (codes "X-Device-Id"))
          (bad_request (codes "missing or invalid X-Device-Id\n"))
    require (leb (length device_id) device_id_max_bytes)
        (bad_request (codes "missing or invalid X-Device-Id\n"))
    require (leb content_len (request_len - (len + 4)))
        (bad_request (codes "incomplete request body\n"))
    cert_pem ← or_stop (issue_certificate b cfg (some device_id) (drop (len + 4) request)) forbidden
    next (issued cert_pem)

  abbrev pub reply : Option Bytes → Response
  reply none = bad_request (codes "malformed enrollment request\n")
  reply (some request) = response_of (answer (cstr request) (length request))

  -- The response to what was received.
  unfoldable pub respond : List Received → Response
  unfolding cstr
  respond calls = reply (read_request b.has_memory calls)

  -- `handle_client`: the bytes that are sent.
  unfoldable pub handle_client : List Received → List Sent → List Sent → Bytes
  handle_client calls header_calls body_calls =
      (send_response header_calls body_calls (respond calls)).1
