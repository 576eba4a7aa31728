-- ===== src/Net/Enroll/Served.antt =====
-- A client's request, from `nr__enroll_request` through the server's `handle_client`.
use nirantara.Common.{
  ℕ, ◌+◌, ◌-◌, ◌≤◌, ◌≡◌, ◌≢◌, refl, ◌∙◌, ap, sym, subst, true, Option, none, some, List, [], ◌++◌,
  length, drop, drop-length-append, length-append, All, le→leb, arith,
}
use nirantara.Common.Text.{Bytes, codes, cstr, starts_with, strstr}
use nirantara.Common.Text.Search.{cstr-All}
use nirantara.Enrollment.Certificate.{Backend, issue_certificate, valid_device_id}
use nirantara.Enrollment.Certificate.DeviceId.{valid_chars}
use nirantara.Enrollment.Config.{Config}
use nirantara.Enrollment.Http.{
  Response, blank_line, request_max_bytes, copy_header_value, parse_content_length,
}
use nirantara.Enrollment.Http.Chunks.{IsGood, joined, read_request_chunks}
use nirantara.Enrollment.Http.Request.{
  Received, respond, reply, answer, issued, forbidden, length_before, response_of,
  request_line_is_enroll_post, require, or_stop, next, ◌>>=◌,
}
use nirantara.Net.Enroll.{request_text}
use nirantara.Net.Enroll.Headers.{IsLineChar, HasNoNul-append}
use nirantara.Net.Enroll.Request.{written, all_left, written-append, length-written, strstr-written}
use nirantara.Net.Enroll.Parsed.{
  IsLineChar-id, text-written, w-HasNoNul, length-w, length_front, device_named, length_parsed,
  written-IsRequest,
}

-- The answer to a request that is understood, by what comes of issuing.
abbrev pub answer_of : Option Bytes → Response
answer_of none = forbidden
answer_of (some cert_pem) = issued cert_pem

module _ (b : Backend) (cfg : Config) (memory : (k : ℕ) → b.has_memory k ≡ true) where
  -- The steps of `answer` where none of them refuses.
  answer_steps :
      (text : Bytes) (total len n : ℕ) (device_id body : Bytes)
      → request_line_is_enroll_post text ≡ true
      → length_before (strstr text blank_line) ≡ some len
      → parse_content_length b.has_memory text len ≡ some n
      → copy_header_value b.has_memory text len (codes "X-Device-Id") ≡ some device_id
      → length device_id ≤ 128
      → n ≤ total - (len + 4)
      → drop (len + 4) text ≡ body
      → response_of (answer b cfg text total)
        ≡ answer_of (issue_certificate b cfg (some device_id) body)
  unfolding answer ◌>>=◌ require or_stop
  answer_steps text total len n device_id body post found parsed named short entire rest =
      rw (post, found, parsed, named, le→leb _ _ short, le→leb _ _ entire, rest)
        (last (issue_certificate b cfg (some device_id) body))
    where
      last :
          (o : Option Bytes)
          → response_of (or_stop o forbidden >>= λ pem. next (issued pem)) ≡ answer_of o
      last none = refl
      last (some pem) = refl

  post :
      (server_ip device_id csr_pem : Bytes)
      → request_line_is_enroll_post
          (written server_ip device_id (length csr_pem) (blank_line ++ csr_pem))
        ≡ true
  unfolding request_line_is_enroll_post strstr starts_with
  post server_ip device_id csr_pem = refl

  answer_written :
      (server_ip device_id csr_pem : Bytes)
      → All IsLineChar server_ip
      → valid_device_id (some device_id) ≡ true
      → length (written server_ip device_id (length csr_pem) (blank_line ++ csr_pem))
        ≤ request_max_bytes
      → response_of (
          answer b cfg
            (written server_ip device_id (length csr_pem) (blank_line ++ csr_pem))
            (length (written server_ip device_id (length csr_pem) (blank_line ++ csr_pem))))
        ≡ answer_of (issue_certificate b cfg (some device_id) csr_pem)
  answer_written server_ip device_id csr_pem plain_ip valid fits =
      let n = length csr_pem in
      let text = written server_ip device_id n (blank_line ++ csr_pem) in
      let (_, short, chars) = (valid_chars device_id).0 valid in
      let (plain_id, ink) = IsLineChar-id device_id chars in
      let (f, e) = strstr-written server_ip device_id n plain_ip plain_id csr_pem in
      let len = length_front server_ip device_id n plain_ip plain_id csr_pem f e in
      let total = length-w server_ip device_id n plain_ip plain_id (blank_line ++ csr_pem) in
      let parsed =
        length_parsed server_ip device_id n plain_ip plain_id b.has_memory memory
          (blank_line ++ csr_pem) (omega arith) in
      let named =
        device_named server_ip device_id n plain_ip plain_id b.has_memory memory
          (blank_line ++ csr_pem) ink in
      let body : drop (all_left server_ip device_id n + 4) text ≡ csr_pem =
        body_left server_ip device_id csr_pem in
      answer_steps text (length text) (all_left server_ip device_id n) n device_id csr_pem
        (post server_ip device_id csr_pem) (ap length_before e ∙ ap some len) parsed named short
        (omega arith) body
    where
      body_left :
          (server_ip device_id csr_pem : Bytes)
          → drop
              (all_left server_ip device_id (length csr_pem) + 4)
              (written server_ip device_id (length csr_pem) (blank_line ++ csr_pem))
            ≡ csr_pem
      body_left server_ip device_id csr_pem =
          let w = written server_ip device_id (length csr_pem) in
          let joined : w blank_line ++ csr_pem ≡ w (blank_line ++ csr_pem) =
            written-append server_ip device_id (length csr_pem) blank_line csr_pem in
          let size : length (w blank_line) ≡ all_left server_ip device_id (length csr_pem) + 4 =
            ap length (sym (written-append server_ip device_id (length csr_pem) [] blank_line))
            ∙ length-append (w []) blank_line
            ∙ ap (λ k. k + 4) (length-written server_ip device_id (length csr_pem)) in
          ap (λ s. drop (all_left server_ip device_id (length csr_pem) + 4) s) (sym joined)
          ∙ ap (λ k. drop k (w blank_line ++ csr_pem)) (sym size)
          ∙ drop-length-append (w blank_line) csr_pem

  -- A request as the client writes it, in any chunks, with any number of interruptions, is answered
  -- with what comes of issuing for exactly the device id and the certificate request that the client
  -- gave: 200 and the certificate, or 403. The device id is a valid one, the server's address holds no
  -- CR and no NUL, the certificate request no NUL, the request fits the server's buffer, and the
  -- server has memory.
  pub respond-request_text :
      (server_ip device_id csr_pem : Bytes) (calls : List Received)
      → All IsLineChar server_ip
      → valid_device_id (some device_id) ≡ true
      → All (λ c. c ≢ 0) csr_pem
      → length (request_text server_ip device_id csr_pem) ≤ request_max_bytes
      → All IsGood calls
      → joined calls ≡ request_text server_ip device_id csr_pem
      → respond b cfg calls ≡ answer_of (issue_certificate b cfg (some device_id) csr_pem)
  unfolding respond
  respond-request_text server_ip device_id csr_pem calls plain_ip valid text_pem fits good e =
      let n = length csr_pem in
      let text = written server_ip device_id n (blank_line ++ csr_pem) in
      let same = text-written server_ip device_id csr_pem in
      let fits' = subst (λ s. length s ≤ request_max_bytes) same fits in
      let (plain_id, _) = IsLineChar-id device_id ((valid_chars device_id).0 valid).2 in
      let (f, found) = strstr-written server_ip device_id n plain_ip plain_id [] in
      let (is, whole) =
        written-IsRequest server_ip device_id n plain_ip plain_id b.has_memory memory csr_pem f refl
          found fits' in
      let read =
        read_request_chunks b.has_memory f csr_pem is calls (memory _) good
          (e ∙ same ∙ sym whole) in
      let string : cstr text ≡ text = cstr-All text (
        w-HasNoNul server_ip device_id n plain_ip plain_id (blank_line ++ csr_pem)
          (HasNoNul-append blank_line csr_pem (omega arith) text_pem)) in
      ap (reply b cfg) (read ∙ ap some whole)
      ∙ ap (λ s. response_of (answer b cfg s (length text))) string
      ∙ answer_written server_ip device_id csr_pem plain_ip valid fits'
