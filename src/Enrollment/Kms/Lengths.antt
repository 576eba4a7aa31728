-- ===== src/Enrollment/Kms/Lengths.antt =====
-- The lengths of the texts of a request to KMS in kms.c.
use nirantara.Common.{
  ℕ, ◌+◌, ◌*◌, ◌≤◌, ◌≡◌, refl, Option, none, some, List, [], ◌∷◌, length, length-append, concat,
  arith,
}
use nirantara.Common.Text.{Bytes, codes}
use nirantara.Enrollment.Kms.{bytes_to_hex}
use nirantara.Enrollment.Kms.Authorization.{
  canonical_headers, signed_headers, canonical_request, credential_scope, string_to_sign,
  authorization, target_sign, kms_service, newline,
}

abbrev total_of : List Bytes → ℕ
total_of [] = 0
total_of (text ∷ texts) = length text + total_of texts

pub length-concat : (texts : List Bytes) → length (concat texts) ≡ total_of texts
length-concat [] = refl
length-concat (text ∷ texts) = omega (arith, length-append text (concat texts), length-concat texts)

pub length-bytes_to_hex : (bytes : Bytes) → length (bytes_to_hex bytes) ≡ 2 * length bytes
unfolding bytes_to_hex
length-bytes_to_hex [] = refl
length-bytes_to_hex (b ∷ bytes) = omega (arith, length-bytes_to_hex bytes)

abbrev pub token_len : Option Bytes → ℕ
token_len none = 0
token_len (some token) = length token

pub canonical_headers_fit :
    (token : Option Bytes) (host amz_date : Bytes)
    → length (canonical_headers token host amz_date)
      ≤ token_len token + length host + length amz_date + 200
unfolding canonical_headers
canonical_headers_fit none host amz_date = omega (
  arith,
  length-concat (
      codes "content-type:application/x-amz-json-1.1\nhost:"
      ∷ host
      ∷ codes "\nx-amz-date:"
      ∷ amz_date
      ∷ codes "\nx-amz-target:"
      ∷ target_sign
      ∷ newline
      ∷ []),
)
canonical_headers_fit (some token) host amz_date = omega (
  arith,
  length-concat (
      codes "content-type:application/x-amz-json-1.1\nhost:"
      ∷ host
      ∷ codes "\nx-amz-date:"
      ∷ amz_date
      ∷ codes "\nx-amz-security-token:"
      ∷ token
      ∷ codes "\nx-amz-target:"
      ∷ target_sign
      ∷ newline
      ∷ []),
)

pub signed_headers_fit : (token : Option Bytes) → length (signed_headers token) ≤ 70
unfolding signed_headers
signed_headers_fit none = omega arith
signed_headers_fit (some token) = omega arith

pub canonical_request_fits :
    (headers names payload_hash : Bytes)
    → length (canonical_request headers names payload_hash)
      ≤ length headers + length names + length payload_hash + 20
canonical_request_fits headers names payload_hash = omega (
  arith,
  length-concat (codes "POST\n/\n\n" ∷ headers ∷ newline ∷ names ∷ newline ∷ payload_hash ∷ []),
)

pub credential_scope_fits :
    (date region : Bytes) → length (credential_scope date region) ≤ length date + length region + 20
credential_scope_fits date region = omega (
  arith,
  length-concat (date ∷ codes "/" ∷ region ∷ codes "/" ∷ kms_service ∷ codes "/aws4_request" ∷ []),
)

pub string_to_sign_fits :
    (amz_date scope request_hash : Bytes)
    → length (string_to_sign amz_date scope request_hash)
      ≤ length amz_date + length scope + length request_hash + 20
string_to_sign_fits amz_date scope request_hash = omega (
  arith,
  length-concat
      (codes "AWS4-HMAC-SHA256\n" ∷ amz_date ∷ newline ∷ scope ∷ newline ∷ request_hash ∷ []),
)

pub authorization_fits :
    (access_key_id scope names signature_hex : Bytes)
    → length (authorization access_key_id scope names signature_hex)
      ≤ length access_key_id + length scope + length names + length signature_hex + 60
authorization_fits access_key_id scope names signature_hex = omega (
  arith,
  length-concat (
      codes "AWS4-HMAC-SHA256 Credential="
      ∷ access_key_id
      ∷ codes "/"
      ∷ scope
      ∷ codes ", SignedHeaders="
      ∷ names
      ∷ codes ", Signature="
      ∷ signature_hex
      ∷ []),
)
