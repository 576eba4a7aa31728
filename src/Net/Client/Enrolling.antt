-- ===== src/Net/Client/Enrolling.antt =====
-- An enrollment from end to end: `nr_enroll` of the client over the connection to the service, which
-- answers in `handle_client`.
use nirantara.Common.{
  ℕ, ◌≤◌, ◌<◌, ◌≡◌, refl, ap, ◌∙◌, true, false, subst, Option, none, some, List, ◌++◌, length,
  concat, All, leb, arith,
}
use nirantara.Common.Number.Print.{print, print_digits}
use nirantara.Common.Text.{Bytes, strstr, starts_with}
use nirantara.Enrollment.Certificate.{Backend, issue_certificate, valid_device_id}
use nirantara.Enrollment.Certificate.Issue.{issue_sound}
use nirantara.Enrollment.Config.{Config}
use nirantara.Enrollment.Http.{Sent, Response, send_response, response_headers}
use nirantara.Enrollment.Http.Chunks.{IsGood, joined}
use nirantara.Enrollment.Http.Request.{Received, respond, handle_client, forbidden, issued}
use nirantara.Net.Enroll.{
  enroll_buf_size, accepted, failed, err_proto, is_some, begin_certificate, Connection, Outcome,
  check_reply, enroll_request, request_text,
}
use nirantara.Net.Enroll.Headers.{IsLineChar, HasNoNul, HasNoNul-append, response_headers-HasNoNul}
use nirantara.Enrollment.Http.Sending.{sent_whole}
use nirantara.Net.Enroll.Reply.{Carries, IsChunk, enroll_request-check_reply, check_reply_accepts}
use nirantara.Net.Enroll.Served.{answer_of, respond-request_text}
use nirantara.Net.Client.{OpenSsl, Objects, ClientContext, set, max_pem_len}
use nirantara.Net.Client.Csr.{enroll_build_csr}
use nirantara.Net.Client.Api.{over, cache_cert, enroll}

-- A text as PEM_write_bio_X509 writes it.
pub record IsCertText (pem : Bytes) : Type 0 where
  pub text : HasNoNul pem
  pub marked : is_some (strstr pem begin_certificate) ≡ true

-- What the client returns of what came of issuing.
abbrev outcome_of : Option Bytes → Outcome
outcome_of none = failed err_proto
outcome_of (some pem) = accepted pem

check_reply_refuses :
    (cert_out_len : ℕ)
    → check_reply cert_out_len (response_headers forbidden ++ forbidden.body) ≡ failed err_proto
unfolding check_reply response_headers starts_with print print_digits
check_reply_refuses cert_out_len = refl

forbidden-HasNoNul : HasNoNul (response_headers forbidden ++ forbidden.body)
unfolding response_headers print print_digits
forbidden-HasNoNul = omega arith

-- The network between a client and the service: the connection carries the request, the calls of
-- `recv` bring it, those of `send` take the whole answer, and those of `SSL_read` bring that.
pub record Relays (b : Backend) (cfg : Config) (c : Connection) (server_ip : Bytes) (port : ℕ)
    (text : Bytes) (calls : List Received) (header_calls body_calls : List Sent) : Type 0 where
  pub carried : Carries c server_ip port text
  pub good : All IsGood calls
  pub received : joined calls ≡ text
  pub sent : (send_response header_calls body_calls (respond b cfg calls)).0 ≡ true
  pub chunks : All IsChunk c.reads
  pub answered : concat c.reads ≡ handle_client b cfg calls header_calls body_calls
  pub fits : length (concat c.reads) < enroll_buf_size

module _ (b : Backend) (cfg : Config) (c : Connection) (server_ip : Bytes) (port : ℕ)
    (csr_pem device_id : Bytes) (cert_out_len : ℕ) (calls : List Received)
    (header_calls body_calls : List Sent)
    (relays : Relays b cfg c server_ip port
      (request_text server_ip device_id csr_pem)
      calls
      header_calls
      body_calls) where
  enroll_request-respond :
      (r : Response)
      → respond b cfg calls ≡ r
      → HasNoNul (response_headers r ++ r.body)
      → enroll_request c server_ip port csr_pem device_id cert_out_len
        ≡ check_reply cert_out_len (response_headers r ++ r.body)
  unfolding handle_client
  enroll_request-respond r responds text =
      let arrived : concat c.reads ≡ response_headers r ++ r.body =
        relays.answered
        ∙ ap (λ t. (send_response header_calls body_calls t).1) responds
        ∙ sent_whole header_calls body_calls r (
            subst (λ t. (send_response header_calls body_calls t).0 ≡ true) responds relays.sent) in
      enroll_request-check_reply c server_ip port csr_pem device_id cert_out_len
        (response_headers r ++ r.body) relays.carried relays.chunks arrived
        (subst (λ t. length t < enroll_buf_size) arrived relays.fits) text

  enroll_request-answer_of :
      (issue : Option Bytes)
      → respond b cfg calls ≡ answer_of issue
      → ((pem : Bytes) → issue ≡ some pem → IsCertText pem × (length pem < cert_out_len))
      → enroll_request c server_ip port csr_pem device_id cert_out_len ≡ outcome_of issue
  enroll_request-answer_of none responds good =
      enroll_request-respond forbidden responds forbidden-HasNoNul
      ∙ check_reply_refuses cert_out_len
  enroll_request-answer_of (some pem) responds good =
      let (is, room) = good pem refl in
      enroll_request-respond (issued pem) responds (
        HasNoNul-append (response_headers (issued pem)) pem (response_headers-HasNoNul pem) is.text)
      ∙ check_reply_accepts cert_out_len pem is.marked room

-- The context behind an enrollment, by what came of issuing.
abbrev cached : {lib : Objects} → Option Bytes → ClientContext lib → ClientContext lib
cached none ctx = ctx
cached (some pem) ctx = record ctx { client_cert_pem = pem }

cache_cert-outcome_of :
    {lib : Objects} (o : OpenSsl lib) (issue : Option Bytes) (ctx : ClientContext lib)
    → ((pem : Bytes) → issue ≡ some pem → length pem < max_pem_len)
    → cache_cert o (outcome_of issue) ctx ≡ (outcome_of issue, cached issue ctx)
cache_cert-outcome_of o none ctx small = refl
cache_cert-outcome_of o (some pem) ctx small =
    let fits : leb max_pem_len (length pem) ≡ false = ground (arith, small pem refl) in rw fits refl

module _ (b : Backend) (cfg : Config) {lib : Objects} (o : OpenSsl lib) where
  -- Over a network that carries the request and the answer, `nr_enroll` of a client with a key, for
  -- a valid device id, returns what comes of issuing at the service for that device id and the
  -- request that the client made: NR_OK with exactly the certificate, which the context then holds,
  -- or NR_ERR_PROTO, and the context is as the request left it. The client does not verify
  -- that the certificate is signed by its CA. The server has memory; its address
  -- holds no CR and no NUL, the certificate request no NUL; certificates in PEM hold no NUL, have
  -- their marker and fit 8192 bytes with a NUL, as the caller's buffer does.
  pub enroll-issue_certificate :
      (c : Connection) (ctx ctx' : ClientContext lib) (device_id csr_pem : Bytes) (cert_out_len : ℕ)
      (calls : List Received) (header_calls body_calls : List Sent)
      → ((k : ℕ) → b.has_memory k ≡ true)
      → ((cert : b.Cert) (pem : Bytes) → b.write_pem cert ≡ some pem → IsCertText pem)
      → ((pem : Bytes)
          → issue_certificate b cfg (some device_id) csr_pem ≡ some pem
          → length pem < max_pem_len)
      → max_pem_len ≤ cert_out_len
      → set ctx.keypair ≡ true
      → enroll_build_csr o ctx device_id max_pem_len ≡ (accepted csr_pem, ctx')
      → All IsLineChar ctx'.cfg.server_ip
      → valid_device_id (some device_id) ≡ true
      → HasNoNul csr_pem
      → Relays b cfg
          (over o ctx' c)
          ctx'.cfg.server_ip
          ctx'.cfg.enroll_port
          (request_text ctx'.cfg.server_ip device_id csr_pem)
          calls
          header_calls
          body_calls
      → enroll o c ctx (some device_id) cert_out_len ≡ (
        outcome_of (issue_certificate b cfg (some device_id) csr_pem),
        cached (issue_certificate b cfg (some device_id) csr_pem) ctx',
      )
  unfolding enroll
  enroll-issue_certificate c ctx ctx' device_id csr_pem cert_out_len calls hs bs memory pem_text
        small room keyed built plain_ip valid text relays =
      let issue = issue_certificate b cfg (some device_id) csr_pem in
      let responds =
        respond-request_text b cfg memory ctx'.cfg.server_ip device_id csr_pem calls plain_ip valid
          text (omega (arith, relays.carried.fits)) relays.good relays.received in
      let returned =
        enroll_request-answer_of b cfg (over o ctx' c) ctx'.cfg.server_ip ctx'.cfg.enroll_port
          csr_pem device_id cert_out_len calls hs bs relays issue responds
          (λ pem h.
            let g = issue_sound b cfg device_id csr_pem pem h in
            (pem_text g.cert pem g.printed, omega (arith, small pem h))) in
      rw (keyed, built)
        (ap (λ r. cache_cert o r ctx') returned ∙ cache_cert-outcome_of o issue ctx' small)
