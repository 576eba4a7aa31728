-- ===== src/Enrollment/Tests/Serving.antt =====
-- A request for the device d1 in two chunks, and the answer to it.
use nirantara.Common.{ℕ, ◌≡◌, ◌⊎◌, refl, Bool, true, some, List, [], ◌∷◌, ◌++◌, arith}
use nirantara.Common.Text.{
  Bytes, codes, strstr, starts_with, cstr, equal, equal_nocase, drop_while, drop_while_end,
}
use nirantara.Common.Number.{strtoul, strtoul_of, scan}
use nirantara.Enrollment.Certificate.{
  issue_certificate, valid_device_id, ca_path, verify_csr, build_unsigned_cert, encode_template,
  assemble_certificate_der, encode_alg_der, encode_signature_bitstring_der, verify_issued_cert,
  der_to_pem,
}
use nirantara.Enrollment.Config.{device_allowed}
use nirantara.Enrollment.Der.{write_cert_der, write_der_len}
use nirantara.Enrollment.Http.{
  Sent, took, send_interrupted, crlf, find_header, parse_content_length, copy_header_value, on_line,
  header_name_matches, value_of, content_length_of,
}
use nirantara.Enrollment.Http.Answer.{IsRefusal, Served, respond_sound}
use nirantara.Enrollment.Http.Chunks.{read_request_chunks}
use nirantara.Enrollment.Http.Inspection.{IsRequest, request}
use nirantara.Enrollment.Http.Request.{
  Received, chunk, recv_interrupted, read_request, receive_loop, inspect, answer, ◌>>=◌, require,
  or_stop, request_line_is_enroll_post, respond, issued,
}
use nirantara.Enrollment.Tests.Issuing.{backend, config}

abbrev headers : Bytes
headers =
    codes "POST /enroll HTTP/1.1"
    ++ crlf
    ++ codes "X-Device-Id: d1"
    ++ crlf
    ++ codes "Content-Length: 3"

abbrev memory : ℕ → Bool
memory n = true

abbrev calls : List Received
calls =
    chunk (headers ++ crlf) ∷ recv_interrupted ∷ chunk (crlf ++ codes "c") ∷ chunk (codes "sr") ∷ []

headers-IsRequest : IsRequest memory headers (codes "csr")
unfolding parse_content_length copy_header_value find_header on_line strstr header_name_matches
    strtoul strtoul_of scan value_of drop_while_end
headers-IsRequest = record {
  no_nul = omega arith;
  first = refl;
  declared = refl;
  fits = omega arith;
}

read_request_chunks_example :
    read_request memory calls ≡ some (request memory headers (codes "csr"))
read_request_chunks_example =
    read_request_chunks memory headers (codes "csr") headers-IsRequest calls refl (omega arith) refl

respond_sound_example :
    IsRefusal (respond backend config calls)
    ⊎ ((cert_pem : Bytes) × (respond backend config calls ≡ issued cert_pem)
        × Served backend config calls cert_pem)
respond_sound_example = respond_sound backend config calls

abbrev sends : List Sent
sends = took 2 ∷ send_interrupted ∷ took 9 ∷ []

-- The whole way: the certificate is the body of the answer.
respond-issued :
    respond backend config calls ≡ issued (0x30 ∷ 6 ∷ codes "d1" ++ (5 ∷ 3 ∷ codes "d1"))
unfolding respond read_request receive_loop inspect answer ◌>>=◌ require or_stop
    request_line_is_enroll_post strstr starts_with cstr parse_content_length content_length_of
    copy_header_value find_header on_line header_name_matches equal_nocase equal strtoul strtoul_of
    scan value_of drop_while drop_while_end issue_certificate valid_device_id device_allowed ca_path
    verify_csr build_unsigned_cert encode_template assemble_certificate_der encode_alg_der
    encode_signature_bitstring_der verify_issued_cert der_to_pem write_cert_der write_der_len
respond-issued = refl
