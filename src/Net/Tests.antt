-- ===== src/Net/Tests.antt =====
-- A certificate on its way to the client.
mod Client
mod Enrolling
use nirantara.Common.{
  ◌==◌, ◌&&◌, ◌≡◌, refl, ap, sym, length, some, Bool, true, List, [], ◌∷◌, ◌++◌, take, drop, arith,
}
use nirantara.Common.Number.Print.{print, print_digits}
use nirantara.Common.Text.{equal, Bytes, codes, strstr, starts_with}
use nirantara.Enrollment.Http.{Sent, took, send_all, send_response, response_headers}
use nirantara.Enrollment.Http.Request.{issued}
use nirantara.Net.Enroll.{Connection, accepted, enroll_request, request_text}
use nirantara.Enrollment.Certificate.{issue_certificate, valid_device_id}
use nirantara.Enrollment.Http.Request.{chunk, recv_interrupted, Received, respond}
use nirantara.Enrollment.Tests.Issuing.{backend, config}
use nirantara.Net.Enroll.Served.{answer_of, respond-request_text}

abbrev pub pem : Bytes
pem = codes "-----BEGIN CERTIFICATE-----"

abbrev pub calls : List Sent
calls = took 1000 ∷ []

abbrev pub reply : Bytes
reply =
    codes "HTTP/1.1 200 OK"
    ++ 13 ∷ 10 ∷ codes "Content-Type: application/x-pem-file"
    ++ 13 ∷ 10 ∷ codes "Content-Length: 27"
    ++ 13 ∷ 10 ∷ codes "Connection: close"
    ++ 13 ∷ 10 ∷ 13 ∷ 10 ∷ pem

abbrev pub connection : Connection
connection = record {
  has_memory = true;
  has_socket = true;
  is_address = λ ip. true;
  connects = λ ip port. equal ip (codes "10.0.0.1") && (port == 443);
  has_ssl = true;
  shakes_hands = true;
  writes = λ text. true;
  reads = take 20 reply ∷ drop 20 reply ∷ [];
}

pub sent_reply : send_response calls calls (issued pem) ≡ (true, reply)
unfolding send_response send_all response_headers print print_digits
sent_reply = refl

abbrev text : Bytes
text =
    codes "POST /enroll HTTP/1.1"
    ++ 13 ∷ 10 ∷ codes "Host: 10.0.0.1"
    ++ 13 ∷ 10 ∷ codes "Content-Type: application/x-pem-file"
    ++ 13 ∷ 10 ∷ codes "X-Device-Id: d1"
    ++ 13 ∷ 10 ∷ codes "Content-Length: 3"
    ++ 13 ∷ 10 ∷ codes "Connection: close"
    ++ 13 ∷ 10 ∷ 13 ∷ 10 ∷ codes "csr"

abbrev chunks : List Received
chunks = chunk (take 30 text) ∷ recv_interrupted ∷ chunk (drop 30 text) ∷ []

text_written : request_text (codes "10.0.0.1") (codes "d1") (codes "csr") ≡ text
unfolding request_text print print_digits
text_written = refl

respond-request_text_example :
    respond backend config chunks
    ≡ answer_of (issue_certificate backend config (some (codes "d1")) (codes "csr"))
unfolding valid_device_id
respond-request_text_example =
    respond-request_text backend config (λ k. refl) (codes "10.0.0.1") (codes "d1") (codes "csr")
      chunks (omega arith) refl (omega arith) (omega (arith, ap length text_written)) (omega arith)
      (sym text_written)
