-- ===== src/Net/Tests/Enrolling.antt =====
-- A device that is enrolled from end to end.
use nirantara.Common.{
  ◌<◌, ◌≡◌, refl, ap, sym, ◌∙◌, subst, Bool, true, some, List, [], ◌∷◌, ◌++◌, length, take, drop,
  arith,
}
use nirantara.Common.Options.{some_eq}
use nirantara.Common.Number.Print.{print, print_digits}
use nirantara.Common.Text.{Bytes, codes, equal, strstr, starts_with}
use nirantara.Enrollment.Certificate.{
  Backend, issue_certificate, build_unsigned_cert, verify_csr, encode_template, valid_device_id,
  assemble_certificate_der, encode_alg_der, encode_signature_bitstring_der, verify_issued_cert,
  der_to_pem, ca_path,
}
use nirantara.Enrollment.Config.{device_allowed}
use nirantara.Enrollment.Http.Request.{
  Received, chunk, recv_interrupted, issued, respond, handle_client,
}
use nirantara.Enrollment.Http.{send_response}
use nirantara.Enrollment.Tests.Issuing.{backend, config}
use nirantara.Net.Client.{ClientContext, max_pem_len, tls1_2_version}
use nirantara.Net.Client.Api.{create, over, enroll}
use nirantara.Net.Client.Csr.{enroll_build_csr, signed_req}
use nirantara.Net.Client.Enrolling.{IsCertText, Relays, enroll-issue_certificate}
use nirantara.Net.Enroll.{accepted, request_text}
use nirantara.Net.Enroll.Served.{answer_of, respond-request_text}
use nirantara.Net.Tests.{pem, calls, reply, connection, sent_reply}
use nirantara.Net.Tests.Client.{objects, openssl}

-- The service with a writer of PEM that knows one certificate.
abbrev pem_backend : Backend
pem_backend = record backend { write_pem = λ cert. some pem }

abbrev context : ClientContext objects
unfolding create
context = record (create openssl) {
  cfg = record {
    server_ip = codes "10.0.0.1";
    mqtt_port = 8883;
    enroll_port = 443;
    keepalive_sec = 30;
    ca_cert_pem = codes "CA";
  };
  ssl_ctx =
      some
        (record { min_version = tls1_2_version; trusted = codes "CA" ∷ []; verifies_peer = true });
  keypair = some 7;
  initialised = true;
}

abbrev requested : ClientContext objects
unfolding create
requested = record context { csr = some (codes "d1") }

built : enroll_build_csr openssl context (codes "d1") 8192 ≡ (accepted (codes "d1"), requested)
unfolding enroll_build_csr signed_req create
built = refl

abbrev text : Bytes
text =
    codes "POST /enroll HTTP/1.1"
    ++ 13 ∷ 10 ∷ codes "Host: 10.0.0.1"
    ++ 13 ∷ 10 ∷ codes "Content-Type: application/x-pem-file"
    ++ 13 ∷ 10 ∷ codes "X-Device-Id: d1"
    ++ 13 ∷ 10 ∷ codes "Content-Length: 2"
    ++ 13 ∷ 10 ∷ codes "Connection: close"
    ++ 13 ∷ 10 ∷ 13 ∷ 10 ∷ codes "d1"

abbrev chunks : List Received
chunks = chunk (take 30 text) ∷ recv_interrupted ∷ chunk (drop 30 text) ∷ []

text_written : request_text (codes "10.0.0.1") (codes "d1") (codes "d1") ≡ text
unfolding request_text print print_digits
text_written = refl

issued_d1 : issue_certificate pem_backend config (some (codes "d1")) (codes "d1") ≡ some pem
unfolding issue_certificate device_allowed equal ca_path verify_csr build_unsigned_cert
    encode_template assemble_certificate_der encode_alg_der encode_signature_bitstring_der
    verify_issued_cert der_to_pem
issued_d1 = refl

responds : respond pem_backend config chunks ≡ answer_of (some pem)
unfolding valid_device_id
responds =
    respond-request_text pem_backend config (λ k. refl) (codes "10.0.0.1") (codes "d1") (codes "d1")
      chunks (omega arith) refl (omega arith) (omega (arith, ap length text_written)) (omega arith)
      (sym text_written)
    ∙ ap answer_of issued_d1

sent_as :
    {A : Type 0} (part : Bool × Bytes → A)
    → respond pem_backend config chunks ≡ issued pem
    → part (send_response calls calls (respond pem_backend config chunks)) ≡ part (true, reply)
sent_as part h = ap (λ r. part (send_response calls calls r)) h ∙ ap part sent_reply

relays :
    Relays pem_backend config
      (over openssl requested connection)
      (codes "10.0.0.1")
      443
      (request_text (codes "10.0.0.1") (codes "d1") (codes "d1"))
      chunks
      calls
      calls
unfolding handle_client create equal
relays = record {
  carried = record {
    memory = refl;
    connected = refl;
    ssl = refl;
    shaken = refl;
    fits = omega (arith, ap length text_written);
    written = refl;
  };
  good = omega arith;
  received = sym text_written;
  sent = sent_as (λ (r : Bool × Bytes). r.0) responds;
  chunks = omega arith;
  answered = sym (sent_as (λ (r : Bool × Bytes). r.1) responds);
  fits = omega arith;
}

is_text : (cert : Bytes) (p : Bytes) → some pem ≡ some p → IsCertText p
unfolding strstr starts_with
is_text cert p h = subst IsCertText (some_eq pem p h) (record { text = omega arith; marked = refl })

fits :
    (p : Bytes)
    → issue_certificate pem_backend config (some (codes "d1")) (codes "d1") ≡ some p
    → length p < max_pem_len
fits p h = subst (λ t. length t < max_pem_len) (some_eq pem p (sym issued_d1 ∙ h)) (omega arith)

enroll-issue_certificate_example :
    enroll openssl connection context (some (codes "d1")) 8192
    ≡ (accepted pem, record requested { client_cert_pem = pem })
unfolding issue_certificate device_allowed equal ca_path verify_csr build_unsigned_cert
    encode_template assemble_certificate_der encode_alg_der encode_signature_bitstring_der
    verify_issued_cert der_to_pem create valid_device_id
enroll-issue_certificate_example =
    enroll-issue_certificate pem_backend config openssl connection context requested (codes "d1")
      (codes "d1") 8192 chunks calls calls (λ k. refl) is_text fits (omega arith) refl built
      (omega arith) refl (omega arith) relays
