-- ===== src/Enrollment/Kms/SigV4.antt =====
-- The signing process, version 4, of AWS for any list of headers, and what kms.c gives it.
use nirantara.Common.{
  ◌+◌, ◌≡◌, Bool, true, false, ◌⊎◌, Option, none, some, List, [], ◌∷◌, ◌++◌, ltb, ◌==◌, length,
  if◌then◌else◌, concat, drop, map, ◌&&◌, ◌||◌,
}
use nirantara.Common.Options.{◌>>=◌}
use nirantara.Common.Text.{Bytes, codes, starts_with, to_lower}
use nirantara.Enrollment.Kms.{Crypto, char_at}
use nirantara.Common.{◌/◌, ◌%◌}
use nirantara.Enrollment.Kms.Sign.{Post}

abbrev pub Header : Type 0
Header = Bytes × Bytes

-- The line feed between the parts of what is signed.
abbrev pub newline : Bytes
newline = codes "\n"

-- The texts with `separator` between them.
unfoldable pub join : Bytes → List Bytes → Bytes
join separator [] = []
join separator (text ∷ []) = text
join separator (text ∷ next ∷ texts) =
    concat (text ∷ separator ∷ join separator (next ∷ texts) ∷ [])

-- Two lower-case digits for each byte.
abbrev digits : Bytes
digits = codes "0123456789abcdef"

unfoldable pub hex_text : Bytes → Bytes
hex_text [] = []
hex_text (x ∷ bytes) = char_at digits (x / 16) ∷ char_at digits (x % 16) ∷ hex_text bytes

-- A header as it is signed: `name:value`.
abbrev pub canonical : Header → Bytes
canonical (name, value) = concat (name ∷ codes ":" ∷ value ∷ newline ∷ [])

-- A key is derived from another for each text in turn.
unfoldable pub derive : (Bytes → Bytes → Option Bytes) → Bytes → List Bytes → Option Bytes
derive hmac key [] = some key
derive hmac key (text ∷ texts) = hmac key text >>= λ key'. derive hmac key' texts

-- What is signed: the method, the path, the query, the headers in the order of their names, the body.
pub record Request : Type 0 where
  pub method : Bytes
  pub path : Bytes
  pub query : Bytes
  pub headers : List Header
  pub body : Bytes

pub record Credentials : Type 0 where
  pub access_key_id : Bytes
  pub secret_key : Bytes
  pub region : Bytes
  pub service : Bytes

abbrev pub for_kms : Bytes → Bytes → Bytes → Credentials
for_kms access_key_id secret_key region = record {
  access_key_id = access_key_id;
  secret_key = secret_key;
  region = region;
  service = codes "kms";
}

abbrev pub scope_of : Credentials → Bytes → List Bytes
scope_of who date = date ∷ who.region ∷ who.service ∷ codes "aws4_request" ∷ []

abbrev pub names_of : Request → Bytes
names_of request = join (codes ";") (map (λ (h : Header). h.0) request.headers)

module _ (c : Crypto) where
  open c use {hmac, sha256}

  abbrev pub canonical_text : Request → Bytes
  canonical_text request = join newline (
      request.method
      ∷ request.path
      ∷ request.query
      ∷ concat (map canonical request.headers)
      ∷ names_of request
      ∷ hex_text (sha256 request.body)
      ∷ [])

  abbrev pub signed_text : Credentials → Bytes → Bytes → Request → Bytes
  signed_text who date amz_date request = join newline (
      codes "AWS4-HMAC-SHA256"
      ∷ amz_date
      ∷ join (codes "/") (scope_of who date)
      ∷ hex_text (sha256 (canonical_text request))
      ∷ [])

  -- The value of the Authorization header.
  unfoldable pub sign_request : Credentials → Bytes → Bytes → Request → Option Bytes
  sign_request who date amz_date request = do
    key ← derive hmac (codes "AWS4" ++ who.secret_key) (scope_of who date)
    signature ← hmac key (signed_text who date amz_date request)
    some (
        codes "AWS4-HMAC-SHA256 "
        ++ join (codes ", ") (
            (codes "Credential=" ++ join (codes "/") (who.access_key_id ∷ scope_of who date))
            ∷ (codes "SignedHeaders=" ++ names_of request)
            ∷ (codes "Signature=" ++ hex_text signature)
            ∷ []))

-- The headers that kms.c signs.
abbrev pub token_headers : Option Bytes → List Header
token_headers none = []
token_headers (some token) = (codes "x-amz-security-token", token) ∷ []

abbrev pub headers_of : Option Bytes → Bytes → Bytes → List Header
headers_of token host amz_date =
    (codes "content-type", codes "application/x-amz-json-1.1")
    ∷ (codes "host", host)
    ∷ (codes "x-amz-date", amz_date)
    ∷ (token_headers token ++ (codes "x-amz-target", codes "TrentService.Sign") ∷ [])

abbrev pub post_request : Option Bytes → Bytes → Bytes → Bytes → Request
post_request token host amz_date body = record {
  method = codes "POST";
  path = codes "/";
  query = [];
  headers = headers_of token host amz_date;
  body = body;
}

-- Of two names, which stands first.
unfoldable pub precedes : Bytes → Bytes → Bool
precedes [] [] = false
precedes [] (d ∷ t) = true
precedes (b ∷ s) [] = false
precedes (b ∷ s) (d ∷ t) = ltb b d || (b == d && precedes s t)

-- The process wants the headers in the order of their names, each name once.
unfoldable pub ascending : List Header → Bool
unfolding precedes
ascending [] = true
ascending (h ∷ []) = true
ascending (h ∷ g ∷ headers) = precedes h.0 g.0 && ascending (g ∷ headers)

-- The value of the first line with that name, in lower case.
unfoldable pub value_in : Bytes → List Bytes → Option Bytes
unfolding starts_with
value_in name [] = none
value_in name (line ∷ lines) =
    let rest = value_in name lines in
    if starts_with (map to_lower line) (name ++ codes ": ")
    then some (drop (length name + 2) line)
    else rest

-- The header reaches the server: the host by the address, the others as lines.
abbrev pub Reaches : Post → Header → Type 0
Reaches post (name, value) =
    ((name ≡ codes "host") × (post.url ≡ concat (codes "https://" ∷ value ∷ codes "/" ∷ [])))
    ⊎ (value_in name post.headers ≡ some value)
