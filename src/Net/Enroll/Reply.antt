-- ===== src/Net/Enroll/Reply.antt =====
-- The client accepts what the server sends with a certificate.
use nirantara.Common.{
  subst, ℕ, ◌-◌, ◌<◌, ◌≡◌, ◌≢◌, ◌∙◌, ap, sym, true, false, inl, inr, List, [], ◌∷◌, ◌++◌, leb,
  length, take, concat, take_all, length-eq-zero, length-append, append_assoc, append-nil, All,
  Bool-cases, leb→le, arith,
}
use nirantara.Common.Text.{Bytes, codes, cstr, strstr}
use nirantara.Common.Text.Search.{equal_nil, cstr-All, strstr-append, starts_with_more}
use nirantara.Enrollment.Http.{Sent, blank_line, response_headers, send_response}
use nirantara.Enrollment.Http.Request.{issued}
use nirantara.Enrollment.Http.Sending.{sent_whole}
use nirantara.Net.Enroll.{
  tcp_connect, enroll_buf_size, accepted, read_all, is_some, begin_certificate, check_reply,
  Connection, enroll_request, request_text,
}
use nirantara.Net.Enroll.Headers.{
  response_headers-HasNoNul, HasNoNul-append, strstr-response_headers, status_200,
}

abbrev pub IsChunk : Bytes → Type 0
IsChunk bytes = 0 < length bytes

-- However the reply is cut, the buffer holds it whole if it fits.
read_all_whole :
    (reads : List Bytes) (buf reply : Bytes)
    → All IsChunk reads
    → buf ++ concat reads ≡ reply
    → length reply < enroll_buf_size
    → read_all reads buf ≡ reply
unfolding read_all
read_all_whole [] buf reply good e h = sym (append-nil buf) ∙ e
read_all_whole (bytes ∷ reads) buf reply good e h =
    let buf' = buf ++ bytes in
    let split : buf' ++ concat reads ≡ reply = append_assoc buf bytes (concat reads) ∙ e in
    let parts = length-append buf' (concat reads) in
    let front = length-append buf bytes in
    let whole : take (enroll_buf_size - length buf - 1) bytes ≡ bytes =
      take_all (enroll_buf_size - length buf - 1) bytes (omega (arith, ap length split)) in
    let rest = read_all_whole reads buf' reply good.1 split h in
    rw (whole, equal_nil bytes good.0)
      (elim (Bool-cases (leb (enroll_buf_size - 1) (length buf'))) [
        | inl full ↦
            let none_left =
              length-eq-zero (concat reads) (omega (arith, ap length split, leb→le _ _ full)) in
            rw full (sym (append-nil buf') ∙ ap (λ t. buf' ++ t) (sym none_left) ∙ split)
        | inr room ↦ rw room rest
      ])

pub check_reply_accepts :
    (cert_out_len : ℕ) (pem : Bytes)
    → is_some (strstr pem begin_certificate) ≡ true
    → length pem < cert_out_len
    → check_reply cert_out_len (response_headers (issued pem) ++ pem) ≡ accepted pem
unfolding check_reply
check_reply_accepts cert_out_len pem marked room =
    let (f, e) = strstr-response_headers pem in
    let found = strstr-append (response_headers (issued pem)) blank_line pem f blank_line e in
    let status =
      starts_with_more (response_headers (issued pem)) (codes "HTTP/1.1 200") pem
        (status_200 pem) in
    rw (status, found, marked) (ground arith)

-- The connection comes about, and takes the request, which fits the buffer.
pub record Carries (c : Connection) (server_ip : Bytes) (port : ℕ) (text : Bytes) : Type 0 where
  pub memory : c.has_memory ≡ true
  pub connected : tcp_connect c server_ip port ≡ true
  pub ssl : c.has_ssl ≡ true
  pub shaken : c.shakes_hands ≡ true
  pub fits : length text < enroll_buf_size
  pub written : c.writes text ≡ true

-- The client checks exactly the reply that arrives, if it fits the buffer and holds no NUL.
pub enroll_request-check_reply :
    (c : Connection) (server_ip : Bytes) (port : ℕ) (csr_pem device_id : Bytes) (cert_out_len : ℕ)
    (reply : Bytes)
    → Carries c server_ip port (request_text server_ip device_id csr_pem)
    → All IsChunk c.reads
    → concat c.reads ≡ reply
    → length reply < enroll_buf_size
    → All (λ ch. ch ≢ 0) reply
    → enroll_request c server_ip port csr_pem device_id cert_out_len
      ≡ check_reply cert_out_len reply
unfolding enroll_request
enroll_request-check_reply c server_ip port csr_pem device_id cert_out_len reply works good arrived
      fits text =
    let read : read_all c.reads [] ≡ reply = read_all_whole c.reads [] reply good arrived fits in
    let small : leb enroll_buf_size (length (request_text server_ip device_id csr_pem)) ≡ false =
      ground (arith, works.fits) in
    rw (works.memory, works.connected, works.ssl, works.shaken, small, works.written)
      (ap (λ t. check_reply cert_out_len (cstr t)) read
        ∙ ap (check_reply cert_out_len) (cstr-All reply text))

-- The client accepts what the server sends with a certificate.
enroll_request_accepts :
    (c : Connection) (server_ip : Bytes) (port : ℕ) (csr_pem device_id : Bytes) (cert_out_len : ℕ)
    (header_calls body_calls : List Sent) (pem : Bytes)
    → Carries c server_ip port (request_text server_ip device_id csr_pem)
    → (send_response header_calls body_calls (issued pem)).0 ≡ true
    → All IsChunk c.reads
    → concat c.reads ≡ (send_response header_calls body_calls (issued pem)).1
    → length (concat c.reads) < enroll_buf_size
    → All (λ ch. ch ≢ 0) pem
    → is_some (strstr pem begin_certificate) ≡ true
    → length pem < cert_out_len
    → enroll_request c server_ip port csr_pem device_id cert_out_len ≡ accepted pem
enroll_request_accepts c server_ip port csr_pem device_id cert_out_len hs bs pem works fine good e
      fits text marked room =
    let arrived = e ∙ sent_whole hs bs (issued pem) fine in
    enroll_request-check_reply c server_ip port csr_pem device_id cert_out_len
      (response_headers (issued pem) ++ pem) works good arrived
      (subst (λ t. length t < enroll_buf_size) arrived fits)
      (HasNoNul-append (response_headers (issued pem)) pem (response_headers-HasNoNul pem) text)
    ∙ check_reply_accepts cert_out_len pem marked room
