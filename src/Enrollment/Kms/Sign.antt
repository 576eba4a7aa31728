-- ===== src/Enrollment/Kms/Sign.antt =====
-- `nr_kms_sign_sha256_digest` of enrollment/src/kms.c.
use nirantara.Common.{
  not, false, if◌then◌else◌, ◌+◌, ℕ, Bool, true, Option, none, some, List, [], ◌∷◌, ◌++◌, ltb, ◌==◌,
  length, concat,
}
use nirantara.Common.{◌/◌, ◌%◌, not, if◌then◌else◌, false}
use nirantara.Common.Number.Print.{print}
use nirantara.Common.Options.{◌>>=◌, ◌>>◌, guard}
use nirantara.Common.Text.{Bytes, codes, cstr}
use nirantara.Enrollment.Config.{Config}
use nirantara.Enrollment.Kms.{Crypto, json_get_string, base64_decode, build_json_body}
use nirantara.Enrollment.Kms.Authorization.{build_authorization, target_sign}

-- What is given to curl: the address, the header lines and the body.
pub record Post : Type 0 where
  pub url : Bytes
  pub headers : List Bytes
  pub body : Bytes

-- What comes back of a transfer: the status, and the bytes of each call of `curl_write_cb`.
pub record Reply : Type 0 where
  pub status : ℕ
  pub chunks : List Bytes

-- `struct tm`, with the year and the month as `strftime` prints them.
pub record Tm : Type 0 where
  pub year : ℕ
  pub month : ℕ
  pub day : ℕ
  pub hour : ℕ
  pub minute : ℕ
  pub second : ℕ

-- The clock and curl: what `time` and `gmtime_r` come to, `curl_easy_init`, whether
-- `curl_slist_append` succeeds for a line, and `curl_easy_perform`, which is `none` where it fails
-- by itself.
pub record Service : Type 0 where
  pub clock : Option Tm
  pub has_curl : Bool
  pub appends : Bytes → Bool
  pub perform : Post → Option Reply

abbrev pub two_digits : ℕ → Bytes
two_digits n = (b'0' + n / 10 % 10) ∷ (b'0' + n % 10) ∷ []

-- "%Y%m%d"
abbrev pub date_text : Tm → Bytes
date_text tm = print tm.year ++ (two_digits tm.month ++ two_digits tm.day)

-- "%Y%m%dT%H%M%SZ"
abbrev pub amz_date_text : Tm → Bytes
amz_date_text tm =
    date_text tm
    ++ b'T' ∷ (two_digits tm.hour ++ (two_digits tm.minute ++ (two_digits tm.second ++ b'Z' ∷ [])))

-- A text that does not fit its array is refused by `strftime`.
unfoldable pub utc_timestamps : Option Tm → Option (Bytes × Bytes)
utc_timestamps clock = do
  tm ← clock
  guard (length (date_text tm) == 8)
  guard (length (amz_date_text tm) == 16)
  some (date_text tm, amz_date_text tm)

abbrev pub host_of : Bytes → Bytes
host_of region = concat (codes "kms." ∷ region ∷ codes ".amazonaws.com" ∷ [])

abbrev pub url_of : Bytes → Bytes
url_of host = concat (codes "https://" ∷ host ∷ codes "/" ∷ [])

abbrev pub token_header : Option Bytes → List Bytes
token_header none = []
token_header (some token) = (codes "X-Amz-Security-Token: " ++ token) ∷ []

-- The lines in the order of `curl_slist_append`.
abbrev pub header_lines : Bytes → Bytes → Option Bytes → List Bytes
header_lines amz_date auth token =
    codes "Content-Type: application/x-amz-json-1.1"
    ∷ (codes "X-Amz-Target: " ++ target_sign)
    ∷ (codes "X-Amz-Date: " ++ amz_date)
    ∷ (codes "Authorization: " ++ auth)
    ∷ token_header token

-- The calls of `curl_slist_append`, each of which overwrites the list: one that fails returns null,
-- which is the empty list, and the next begins another.
unfoldable pub append_all : (Bytes → Bool) → List Bytes → List Bytes → List Bytes
append_all appends held [] = held
append_all appends held (line ∷ lines) =
    append_all appends (if appends line then held ++ line ∷ [] else []) lines

abbrev pub is_null : List Bytes → Bool
is_null [] = true
is_null (line ∷ lines) = false

-- The array for the token is only used where there is one.
abbrev pub token_fits : Option Bytes → Bool
token_fits none = true
token_fits (some token) = ltb (length (codes "X-Amz-Security-Token: " ++ token)) 2048

-- `buffer_append`
abbrev pub buffer_append : (ℕ → Bool) → Bytes → Bytes → Option Bytes
buffer_append has_memory held chunk = do
  guard (has_memory (length held + length chunk + 1))
  some (held ++ chunk)

-- The calls of `curl_write_cb`; the transfer fails at the first that takes less than it is given.
unfoldable pub write_all : (ℕ → Bool) → Bytes → List Bytes → Option Bytes
write_all has_memory held [] = some held
write_all has_memory held (chunk ∷ chunks) =
    buffer_append has_memory held chunk >>= λ held'. write_all has_memory held' chunks

-- The signature in a response.
unfoldable pub signature_of : Crypto → ℕ → Bytes → Option Bytes
signature_of c status response = do
  guard (status == 200)
  signature_b64 ← json_get_string c.has_memory response (codes "Signature")
  base64_decode c signature_b64

module _ (c : Crypto) (service : Service) where
  open service use {clock, has_curl, appends, perform}

  -- The request: `none` where the function returns before it is sent.
  unfoldable pub kms_post : Config → Bytes → Option Post
  unfolding utc_timestamps append_all
  kms_post cfg digest = do
    region ← cfg.aws_region
    key_id ← cfg.kms_key_id
    guard (ltb (length (host_of region)) 256)
    guard (ltb (length (url_of (host_of region))) 300)
    times ← utc_timestamps clock
    body ← build_json_body c key_id digest
    auth ← build_authorization c cfg (host_of region) body times.0 times.1
    guard has_curl
    guard (ltb (length (codes "X-Amz-Date: " ++ times.1)) 64)
    guard (ltb (length (codes "Authorization: " ++ auth)) 2048)
    guard (token_fits cfg.aws_session_token)
    guard (not (is_null (append_all appends [] (header_lines times.1 auth cfg.aws_session_token))))
    some (record {
      url = url_of (host_of region);
      headers = append_all appends [] (header_lines times.1 auth cfg.aws_session_token);
      body = body;
    })

  unfoldable pub sign_sha256_digest : Config → Bytes → Option Bytes
  unfolding kms_post write_all signature_of cstr
  sign_sha256_digest cfg digest = do
    post ← kms_post cfg digest
    reply ← perform post
    response ← write_all c.has_memory [] reply.chunks
    signature_of c reply.status (cstr response)
