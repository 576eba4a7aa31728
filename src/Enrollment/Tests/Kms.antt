-- ===== src/Enrollment/Tests/Kms.antt =====
-- A request to KMS and its reply, with hashes of zero bytes and a base64 code of one text.
use nirantara.Enrollment.Kms.Sign.{append_all}
use nirantara.Common.Text.{equal}
use nirantara.Common.{not}
use nirantara.Common.{
  drop, ℕ, zero, suc, ◌≡◌, ◌+◌, refl, false, All-append, true, subst, sym, some, [], ◌∷◌, ◌++◌,
  length, concat, All, arith,
}
use nirantara.Common.Text.{Bytes, codes, cstr, equal, strstr, strchr, starts_with, drop_while}
use nirantara.Enrollment.Config.{Config, device_allowed}
use nirantara.Enrollment.Certificate.{
  Backend, issue_certificate, build_unsigned_cert, verify_csr, encode_template,
  assemble_certificate_der, encode_alg_der, encode_signature_bitstring_der, verify_issued_cert,
  der_to_pem, ca_path,
}
use nirantara.Enrollment.Der.{write_der_len, write_cert_der}
use nirantara.Common.Number.Print.{print, print_digits}
use nirantara.Enrollment.Kms.{
  Crypto, must_escape, bytes_to_hex, count_escapes, escaped, json_escape, json_get_string,
  string_value, base64_encode, base64_decode, build_json_body,
}
use nirantara.Enrollment.Kms.Authorization.{
  build_authorization, build_signing_key, canonical_headers, signed_headers,
}
use nirantara.Enrollment.Kms.Sign.{
  utc_timestamps, Post, Service, kms_post, write_all, signature_of, sign_sha256_digest,
}
use nirantara.Enrollment.Kms.Json.{member, unescape, json_get_string-json_escape}
use nirantara.Enrollment.Kms.Signature.{Base64Of, zeros}
use nirantara.Enrollment.Kms.Posting.{Exchange, sign_sha256_digest_sound}
use nirantara.Enrollment.Kms.Sizes.{CryptoWorks, HasSizes, sign_sha256_digest_returns}
use nirantara.Enrollment.Kms.Issuing.{issue_certificate-sign_sha256_digest}
use nirantara.Enrollment.Kms.Signing.{IsSigned, kms_post-IsSigned}
use nirantara.Enrollment.Tests.Issuing.{backend, config}

json_get_string-json_escape_example :
    (written : Bytes) × (json_escape (λ n. true) (codes "a\"b") ≡ some written)
    × (length written ≡ 3 + count_escapes (codes "a\"b"))
    × (unescape written ≡ codes "a\"b")
    × (json_get_string
          (λ n. true)
          (member (codes "{") (codes "k") [] (codes " ") written (codes "}"))
          (codes "k")
        ≡ some written)
unfolding strstr starts_with
json_get_string-json_escape_example =
    json_get_string-json_escape (λ n. true) (codes "{") (codes "k") [] (codes " ") (codes "a\"b")
      (codes "}") (omega arith) refl tt (refl, tt) refl

abbrev copies : ℕ → ℕ → Bytes
copies zero c = []
copies (suc n) c = c ∷ copies n c

-- 32 zero bytes, and their base64 code.
abbrev digest : Bytes
digest = copies 32 0

abbrev digest_b64 : Bytes
digest_b64 = copies 43 b'A' ++ codes "="

abbrev crypto : Crypto
crypto = record {
  sha256 = λ bytes. digest;
  hmac = λ key text. some digest;
  encode_block = λ bytes. digest_b64;
  decode_block = λ text. some (copies 33 0);
  has_memory = λ n. true;
}

abbrev response : Bytes
response = member (codes "{") (codes "Signature") [] [] digest_b64 (codes "}")

abbrev service : Service
service = record {
  clock = some (record { year = 2026; month = 1; day = 1; hour = 0; minute = 0; second = 0 });
  has_curl = true;
  appends = λ line. true;
  perform = λ post. some (record { status = 200; chunks = codes "{" ∷ drop 1 response ∷ [] });
}

abbrev kms_config : Config
kms_config = record config {
  aws_region = some (codes "r");
  kms_key_id = some (codes "k");
  aws_access_key_id = some (codes "A");
  aws_secret_access_key = some (codes "S");
  aws_session_token = some (codes "T");
}

abbrev auth : Bytes
auth = concat (
    codes "AWS4-HMAC-SHA256 Credential=A/20260101/r/kms/aws4_request, SignedHeaders="
    ∷ codes "content-type;host;x-amz-date;x-amz-security-token;x-amz-target, Signature="
    ∷ copies 64 b'0'
    ∷ [])

abbrev posted : Post
posted = record {
  url = codes "https://kms.r.amazonaws.com/";
  headers =
      codes "Content-Type: application/x-amz-json-1.1"
      ∷ codes "X-Amz-Target: TrentService.Sign"
      ∷ codes "X-Amz-Date: 20260101T000000Z"
      ∷ (codes "Authorization: " ++ auth)
      ∷ codes "X-Amz-Security-Token: T"
      ∷ [];
  body = concat (
      codes "{\"KeyId\":\"k\",\"Message\":\""
      ∷ digest_b64
      ∷ codes "\",\"MessageType\":\"DIGEST\",\"SigningAlgorithm\":\"ECDSA_SHA_256\"}"
      ∷ []);
}

posted_eq : kms_post crypto service kms_config digest ≡ some posted
unfolding kms_post build_json_body base64_encode json_escape escaped build_authorization
    canonical_headers signed_headers build_signing_key bytes_to_hex utc_timestamps print
    print_digits
posted_eq = refl

copies_plain : (n : ℕ) → All (λ ch. must_escape ch ≡ false) (copies n b'A')
copies_plain zero = tt
copies_plain (suc n) = (refl, copies_plain n)

digest-Base64Of : (bytes : Bytes) → bytes ≡ digest → Base64Of crypto bytes
unfolding zeros
digest-Base64Of bytes e = subst (Base64Of crypto) (sym e) (record {
  long = refl;
  padded = refl;
  plain =
      All-append (λ ch. must_escape ch ≡ false) (copies 43 b'A') (codes "=") (copies_plain 43)
        (refl, tt);
  decoded = refl;
})

works : CryptoWorks crypto
works = record {
  memory = λ n. refl;
  long = λ bytes. refl;
  signs = λ key text. (digest, refl, refl);
}

sizes : HasSizes kms_config
sizes = record {
  region = codes "r";
  key_id = codes "k";
  access_key_id = codes "A";
  secret_key = codes "S";
  in_region = refl;
  with_key = refl;
  of_account = refl;
  with_secret = refl;
  region_fits = omega arith;
  access_key_fits = omega arith;
  secret_fits = omega arith;
  token_fit = omega arith;
}

signed_eq : sign_sha256_digest crypto service kms_config digest ≡ some digest
unfolding sign_sha256_digest kms_post build_json_body base64_encode json_escape escaped
    build_authorization canonical_headers signed_headers build_signing_key bytes_to_hex
    utc_timestamps print print_digits signature_of write_all cstr json_get_string strstr strchr
    starts_with drop_while string_value base64_decode
signed_eq = refl

-- The line for which the call fails is lost, and so are those before it.
lines_lost :
    append_all (λ line. not (equal line (codes "b"))) [] (codes "a" ∷ codes "b" ∷ codes "c" ∷ [])
    ≡ codes "c" ∷ []
unfolding append_all equal
lines_lost = refl

kms_post-IsSigned_example : IsSigned crypto kms_config posted
kms_post-IsSigned_example =
    kms_post-IsSigned crypto service kms_config digest posted (λ line. refl) posted_eq

sign_sha256_digest_sound_example : Exchange crypto service kms_config (codes "k") digest digest
sign_sha256_digest_sound_example =
    sign_sha256_digest_sound crypto service (λ n. refl) kms_config (codes "k") digest digest refl
      (refl, tt) (digest-Base64Of digest refl) (omega arith) (omega arith) signed_eq

stamped : utc_timestamps service.clock ≡ some (codes "20260101", codes "20260101T000000Z")
unfolding utc_timestamps print print_digits
stamped = refl

sign_sha256_digest_returns_example :
    sign_sha256_digest crypto service kms_config digest ≡ some digest
unfolding strstr starts_with cstr
sign_sha256_digest_returns_example =
    sign_sha256_digest_returns crypto works service (codes "20260101") (codes "20260101T000000Z")
      stamped refl (λ line. refl) kms_config digest (codes "{" ∷ drop 1 response ∷ []) (codes "{")
      [] [] (codes "}") digest sizes refl tt tt (digest-Base64Of digest refl) (omega arith)
      (omega arith) (λ post. refl) refl

-- The backend with this service behind it.
abbrev kms_backend : Backend
kms_backend = record backend {
  sha256 = λ bytes. digest;
  kms_sign = sign_sha256_digest crypto service;
}

issued_d1 :
    issue_certificate kms_backend kms_config (some (codes "d1")) (codes "csr")
    ≡ some (0x30 ∷ 36 ∷ codes "d1" ++ (5 ∷ 3 ∷ digest))
unfolding sign_sha256_digest kms_post build_json_body base64_encode json_escape escaped
    build_authorization canonical_headers signed_headers build_signing_key bytes_to_hex
    utc_timestamps print print_digits signature_of write_all cstr json_get_string strstr strchr
    starts_with drop_while string_value base64_decode issue_certificate device_allowed equal ca_path
    verify_csr build_unsigned_cert encode_template assemble_certificate_der encode_alg_der
    encode_signature_bitstring_der verify_issued_cert der_to_pem write_cert_der write_der_len
issued_d1 = refl

issue_certificate-sign_sha256_digest_example :
    (tbs : Bytes) × (alg : Bytes) × (sig : Bytes) × (bit : Bytes) × (cert : kms_backend.Cert)
    × Exchange crypto service kms_config (codes "k") digest sig
    × (kms_backend.encode_bit_string sig ≡ some bit)
    × (kms_backend.read_der (write_cert_der tbs alg bit) ≡ some cert)
    × (kms_backend.write_pem cert ≡ some (0x30 ∷ 36 ∷ codes "d1" ++ (5 ∷ 3 ∷ digest)))
issue_certificate-sign_sha256_digest_example =
    issue_certificate-sign_sha256_digest crypto service (λ n. refl) kms_backend kms_config
      (codes "k") (codes "d1") (codes "csr") (0x30 ∷ 36 ∷ codes "d1" ++ (5 ∷ 3 ∷ digest))
      (λ d. refl) (λ bytes. refl) (λ bytes. digest-Base64Of digest refl) refl (refl, tt) issued_d1
