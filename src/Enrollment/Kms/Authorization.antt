-- ===== src/Enrollment/Kms/Authorization.antt =====
-- `build_signing_key` and `build_authorization` of enrollment/src/kms.c.
use nirantara.Common.{◌==◌, ◌+◌, Option, none, some, [], ◌∷◌, ◌++◌, ltb, length, concat}
use nirantara.Common.Options.{◌>>=◌, ◌>>◌, guard}
use nirantara.Common.Text.{Bytes, codes}
use nirantara.Enrollment.Config.{Config}
use nirantara.Enrollment.Kms.{Crypto, bytes_to_hex, sha256_hex}

-- KMS_TARGET_SIGN and KMS_SERVICE
abbrev pub target_sign : Bytes
target_sign = codes "TrentService.Sign"

abbrev pub kms_service : Bytes
kms_service = codes "kms"

abbrev pub newline : Bytes
newline = codes "\n"

-- `canonical_headers`, by the session token.
unfoldable pub canonical_headers : Option Bytes → Bytes → Bytes → Bytes
canonical_headers (some token) host amz_date = concat (
    codes "content-type:application/x-amz-json-1.1\nhost:"
    ∷ host
    ∷ codes "\nx-amz-date:"
    ∷ amz_date
    ∷ codes "\nx-amz-security-token:"
    ∷ token
    ∷ codes "\nx-amz-target:"
    ∷ target_sign
    ∷ newline
    ∷ [])
canonical_headers none host amz_date = concat (
    codes "content-type:application/x-amz-json-1.1\nhost:"
    ∷ host
    ∷ codes "\nx-amz-date:"
    ∷ amz_date
    ∷ codes "\nx-amz-target:"
    ∷ target_sign
    ∷ newline
    ∷ [])

unfoldable pub signed_headers : Option Bytes → Bytes
signed_headers (some token) = codes "content-type;host;x-amz-date;x-amz-security-token;x-amz-target"
signed_headers none = codes "content-type;host;x-amz-date;x-amz-target"

abbrev pub canonical_request : Bytes → Bytes → Bytes → Bytes
canonical_request headers names payload_hash =
    concat (codes "POST\n/\n\n" ∷ headers ∷ newline ∷ names ∷ newline ∷ payload_hash ∷ [])

abbrev pub credential_scope : Bytes → Bytes → Bytes
credential_scope date region =
    concat (date ∷ codes "/" ∷ region ∷ codes "/" ∷ kms_service ∷ codes "/aws4_request" ∷ [])

abbrev pub string_to_sign : Bytes → Bytes → Bytes → Bytes
string_to_sign amz_date scope request_hash =
    concat (codes "AWS4-HMAC-SHA256\n" ∷ amz_date ∷ newline ∷ scope ∷ newline ∷ request_hash ∷ [])

abbrev pub authorization : Bytes → Bytes → Bytes → Bytes → Bytes
authorization access_key_id scope names signature_hex = concat (
    codes "AWS4-HMAC-SHA256 Credential="
    ∷ access_key_id
    ∷ codes "/"
    ∷ scope
    ∷ codes ", SignedHeaders="
    ∷ names
    ∷ codes ", Signature="
    ∷ signature_hex
    ∷ [])

module _ (c : Crypto) where
  open c use {hmac, has_memory}

  unfoldable pub hmac_sha256 : Bytes → Bytes → Option Bytes
  hmac_sha256 key text = do mac ← hmac key text; guard (length mac == 32); some mac

  -- With 256 bytes for the seed.
  unfoldable pub build_signing_key : Bytes → Bytes → Bytes → Option Bytes
  unfolding hmac_sha256
  build_signing_key secret_key date region = do
    guard (ltb (length (codes "AWS4" ++ secret_key)) 256)
    k_date ← hmac_sha256 (codes "AWS4" ++ secret_key) date
    k_region ← hmac_sha256 k_date region
    k_service ← hmac_sha256 k_region kms_service
    hmac_sha256 k_service (codes "aws4_request")

  -- The guards are the sizes of the arrays. A null pointer where the configuration must have a
  -- string, which a loaded configuration does not hold, gives `none`.
  unfoldable pub build_authorization : Config → Bytes → Bytes → Bytes → Bytes → Option Bytes
  unfolding canonical_headers signed_headers hmac_sha256
  build_authorization cfg host body date amz_date = do
    region ← cfg.aws_region
    secret_key ← cfg.aws_secret_access_key
    access_key_id ← cfg.aws_access_key_id
    let headers = canonical_headers cfg.aws_session_token host amz_date
    let names = signed_headers cfg.aws_session_token
    guard (ltb (length headers) 2048)
    guard (ltb (length names) 128)
    let request = canonical_request headers names (sha256_hex c body)
    guard (ltb (length request) 4096)
    let scope = credential_scope date region
    guard (ltb (length scope) 256)
    let text = string_to_sign amz_date scope (sha256_hex c request)
    guard (ltb (length text) 1024)
    signing_key ← build_signing_key secret_key date region
    signature ← hmac_sha256 signing_key text
    guard
        (has_memory (length (authorization access_key_id scope names (bytes_to_hex signature)) + 1))
    some (authorization access_key_id scope names (bytes_to_hex signature))
