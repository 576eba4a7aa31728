-- ===== src/Enrollment/Kms.antt =====
-- enrollment/src/kms.c: the texts that it writes and reads. The hashes, the base64 blocks and the
-- allocations are parameters; Kms/Authorization and Kms/Sign have the rest of the file.
pub mod Authorization
pub mod Sign
pub mod Hex
pub mod Json
pub mod Signature
pub mod Moment
pub mod Posting
pub mod Issuing
pub mod SigV4
pub mod Texts
pub mod Signing
pub mod Lengths
pub mod Sizes
use nirantara.Common.{
  ℕ, zero, suc, ◌+◌, ◌-◌, ◌*◌, ◌/◌, ◌%◌, ◌^◌, Bool, true, false, not, ◌&&◌, ◌||◌, Option, none,
  some, List, [], ◌∷◌, ◌++◌, ltb, ◌==◌, if◌then◌else◌, length, take, drop, concat,
}
use nirantara.Common.Options.{◌>>=◌, ◌>>◌, guard}
use nirantara.Common.Text.{Bytes, codes, is_space, strstr, strchr, drop_while}

-- What kms.c calls of OpenSSL, and `malloc` of so many bytes.
pub record Crypto : Type 0 where
  pub sha256 : Bytes → Bytes
  -- the 32 bytes of HMAC, or an error
  pub hmac : Bytes → Bytes → Option Bytes
  pub encode_block : Bytes → Bytes
  -- the bytes that EVP_DecodeBlock counts, those of the padding included, or an error
  pub decode_block : Bytes → Option Bytes
  pub has_memory : ℕ → Bool

-- `hex[i]`
abbrev pub char_at : Bytes → ℕ → ℕ
char_at [] i = 0
char_at (c ∷ s) zero = c
char_at (c ∷ s) (suc i) = char_at s i

abbrev pub hex : Bytes
hex = codes "0123456789abcdef"

unfoldable pub bytes_to_hex : Bytes → Bytes
bytes_to_hex [] = []
bytes_to_hex (b ∷ bytes) = char_at hex (b / 2 ^ 4) ∷ char_at hex (b % 16) ∷ bytes_to_hex bytes

abbrev pub must_escape : ℕ → Bool
must_escape c = c == b'"' || c == b'\\'

-- `extra`
unfoldable pub count_escapes : Bytes → ℕ
count_escapes [] = 0
count_escapes (c ∷ input) = (if must_escape c then 1 else 0) + count_escapes input

-- What the second loop of `json_escape` writes.
unfoldable pub escaped : Bytes → Bytes
escaped [] = []
escaped (c ∷ input) =
    let rest = escaped input in if must_escape c then b'\\' ∷ c ∷ rest else c ∷ rest

abbrev pub quoted : Bytes → Bytes
quoted s = b'"' ∷ (s ++ b'"' ∷ [])

abbrev pub in_front : Bytes → Option Bytes → Option Bytes
in_front s none = none
in_front s (some value) = some (s ++ value)

-- The loop of `json_get_string` from `start` on: what stands before the quote that closes the
-- string. A backslash takes the next character with it, unless the text ends there.
unfoldable pub string_value : Bytes → Option Bytes
string_value [] = none
string_value (c ∷ []) = if c == b'"' then some [] else none
string_value (c ∷ d ∷ s) =
    let two = in_front (c ∷ d ∷ []) (string_value s) in
    let one = in_front (c ∷ []) (string_value (d ∷ s)) in
    if c == b'"' then some [] else if c == b'\\' then two else one

abbrev pub opened : Bytes → Option Bytes
opened [] = none
opened (c ∷ s) = if c == b'"' then some s else none

-- The text from the place that a search found.
abbrev pub found : Option (Bytes × Bytes) → Option Bytes
found none = none
found (some (_, rest)) = some rest

module _ (has_memory : ℕ → Bool) where
  unfoldable pub json_escape : Bytes → Option Bytes
  unfolding escaped count_escapes
  json_escape input = do
    guard (has_memory (length input + count_escapes input + 1))
    some (escaped input)

  -- `json_get_string`, with 128 bytes for the quoted key.
  unfoldable pub json_get_string : Bytes → Bytes → Option Bytes
  unfolding strstr strchr drop_while string_value
  json_get_string json key = do
    guard (ltb (length (quoted key)) 128)
    pos ← found (strstr json (quoted key))
    colon ← found (strchr (drop (length (quoted key)) pos) b':')
    start ← opened (drop_while is_space (drop 1 colon))
    value ← string_value start
    guard (has_memory (length value + 1))
    some value

module _ (c : Crypto) where
  open c use {sha256, encode_block, decode_block, has_memory}

  abbrev pub sha256_hex : Bytes → Bytes
  sha256_hex bytes = bytes_to_hex (sha256 bytes)

  unfoldable pub base64_encode : Bytes → Option Bytes
  base64_encode bytes = do
    guard (has_memory (4 * ((length bytes + 2) / 3) + 1))
    some (encode_block bytes)

  -- How many of the last two characters are '='.
  abbrev pub padding : Bytes → ℕ
  padding encoded =
      (if char_at encoded (length encoded - 1) == b'=' then 1 else 0)
      + (if char_at encoded (length encoded - 2) == b'=' then 1 else 0)

  -- `decoded_len - padding` is a `size_t`.
  abbrev pub unpadded : ℕ → ℕ → ℕ
  unpadded decoded_len count = (decoded_len + 2 ^ 64 - count) % 2 ^ 64

  unfoldable pub base64_decode : Bytes → Option Bytes
  base64_decode encoded = do
    guard (not (length encoded == 0 || not (length encoded % 4 == 0)))
    guard (has_memory (length encoded / 4 * 3))
    decoded ← decode_block encoded
    some (take (unpadded (length decoded) (padding encoded)) decoded)

  -- `build_json_body`; the body is allocated with its terminator.
  abbrev pub json_body : Bytes → Bytes → Bytes
  json_body escaped_key_id digest_b64 = concat (
      codes "{\"KeyId\":\""
      ∷ escaped_key_id
      ∷ codes "\",\"Message\":\""
      ∷ digest_b64
      ∷ codes "\",\"MessageType\":\"DIGEST\",\"SigningAlgorithm\":\"ECDSA_SHA_256\"}"
      ∷ [])

  unfoldable pub build_json_body : Bytes → Bytes → Option Bytes
  unfolding base64_encode json_escape
  build_json_body key_id digest = do
    digest_b64 ← base64_encode digest
    escaped_key_id ← json_escape has_memory key_id
    guard (has_memory (length (json_body escaped_key_id digest_b64) + 1))
    some (json_body escaped_key_id digest_b64)
