-- ===== src/Enrollment/Kms/Texts.antt =====
-- The texts that kms.c puts together against those of the signing process.
use nirantara.Common.{
  ◌/◌, ◌%◌, ◌^◌, ◌==◌, ◌+◌, ◌≡◌, refl, ap, sym, ◌∙◌, Option, none, some, [], ◌∷◌, ◌++◌, ltb, length,
  concat, map, append_assoc, append-nil,
}
use nirantara.Common.Options.{>>=-eq-some, guard-eq-some}
use nirantara.Common.Text.{Bytes, codes}
use nirantara.Enrollment.Config.{Config}
use nirantara.Enrollment.Kms.{Crypto, bytes_to_hex, sha256_hex, char_at, hex}
use nirantara.Enrollment.Kms.Authorization.{
  hmac_sha256, kms_service, newline, canonical_headers, signed_headers, canonical_request,
  credential_scope, string_to_sign, authorization, build_signing_key, build_authorization,
}
use nirantara.Enrollment.Kms.SigV4.{
  hex_text, Request, Credentials, Header, join, canonical, derive, for_kms, scope_of,
  canonical_text, sign_request, headers_of, post_request,
}

-- The table of digits is that of the process.
hex_eq : (bytes : Bytes) → bytes_to_hex bytes ≡ hex_text bytes
unfolding bytes_to_hex hex_text
hex_eq [] = refl
hex_eq (x ∷ bytes) = ap (λ t. char_at hex (x / 2 ^ 4) ∷ char_at hex (x % 16) ∷ t) (hex_eq bytes)

signed_headers_eq :
    (token : Option Bytes) (host amz_date : Bytes)
    → signed_headers token
      ≡ join (codes ";") (map (λ (h : Header). h.0) (headers_of token host amz_date))
unfolding signed_headers join
signed_headers_eq none host amz_date = refl
signed_headers_eq (some token) host amz_date = refl

canonical_headers_eq :
    (token : Option Bytes) (host amz_date : Bytes)
    → canonical_headers token host amz_date
      ≡ concat (map canonical (headers_of token host amz_date))
unfolding canonical_headers
canonical_headers_eq none host amz_date = simp append_assoc
canonical_headers_eq (some token) host amz_date = simp append_assoc

-- The texts of kms.c are those of the process.
module _ (c : Crypto) (token : Option Bytes) (host body date amz_date : Bytes)
    (who : Credentials) where
  abbrev request : Request
  request = post_request token host amz_date body

  canonical_request_eq :
      canonical_request
        (canonical_headers token host amz_date)
        (signed_headers token)
        (sha256_hex c body)
      ≡ canonical_text c request
  unfolding join
  canonical_request_eq =
      rw
        (
          canonical_headers_eq token host amz_date,
          signed_headers_eq token host amz_date,
          hex_eq (c.sha256 body),
        )
        (simp (append_assoc, append-nil))

  scope_eq :
      credential_scope date who.region
      ≡ join (codes "/") (scope_of (for_kms who.access_key_id who.secret_key who.region) date)
  unfolding join
  scope_eq = simp (append_assoc, append-nil)

  credential_eq :
      who.access_key_id ++ (codes "/" ++ credential_scope date who.region)
      ≡ join
          (codes "/")
          (who.access_key_id ∷ scope_of (for_kms who.access_key_id who.secret_key who.region) date)
  unfolding join
  credential_eq = simp (append_assoc, append-nil)

  string_to_sign_eq :
      (scope hash : Bytes)
      → string_to_sign amz_date scope hash
        ≡ join newline (codes "AWS4-HMAC-SHA256" ∷ amz_date ∷ scope ∷ hash ∷ [])
  unfolding join
  string_to_sign_eq scope hash = simp (append_assoc, append-nil)

module _ (c : Crypto) where
  hmac_sha256_eq :
      (key text mac : Bytes) → hmac_sha256 c key text ≡ some mac → c.hmac key text ≡ some mac
  unfolding hmac_sha256
  hmac_sha256_eq key text mac h =
      let (m, made, h1) = >>=-eq-some (c.hmac key text) _ h in
      made ∙ (guard-eq-some (length m == 32) (some m) h1).1

  build_signing_key_eq :
      (secret_key date region key : Bytes)
      → build_signing_key c secret_key date region ≡ some key
      → derive c.hmac
          (codes "AWS4" ++ secret_key)
          (date ∷ region ∷ kms_service ∷ codes "aws4_request" ∷ [])
        ≡ some key
  unfolding build_signing_key derive
  build_signing_key_eq secret_key date region key h =
      let (_, h1) = guard-eq-some (ltb (length (codes "AWS4" ++ secret_key)) 256) _ h in
      let (k1, e1, h2) = >>=-eq-some (hmac_sha256 c (codes "AWS4" ++ secret_key) date) _ h1 in
      let (k2, e2, h3) = >>=-eq-some (hmac_sha256 c k1 region) _ h2 in
      let (k3, e3, h4) = >>=-eq-some (hmac_sha256 c k2 kms_service) _ h3 in
      rw
        (
          hmac_sha256_eq _ _ k1 e1,
          hmac_sha256_eq _ _ k2 e2,
          hmac_sha256_eq _ _ k3 e3,
          hmac_sha256_eq _ _ key h4,
        )
        refl

  abbrev parts : Bytes → Bytes → Bytes → Bytes
  parts credential names signature_hex =
      codes "AWS4-HMAC-SHA256 "
      ++ join (codes ", ") (
          (codes "Credential=" ++ credential)
          ∷ (codes "SignedHeaders=" ++ names)
          ∷ (codes "Signature=" ++ signature_hex)
          ∷ [])

  authorization_eq :
      (access_key_id scope names signature_hex : Bytes)
      → authorization access_key_id scope names signature_hex
        ≡ parts (access_key_id ++ (codes "/" ++ scope)) names signature_hex
  unfolding join
  authorization_eq access_key_id scope names signature_hex = simp (append_assoc, append-nil)

  -- The texts fit together to the value of the process.
  sign_request_eq :
      (token : Option Bytes) (host body date amz_date : Bytes)
      (region secret_key access_key_id key sig : Bytes)
      → build_signing_key c secret_key date region ≡ some key
      → c.hmac key (
          string_to_sign amz_date (credential_scope date region) (
            sha256_hex c (
              canonical_request
                (canonical_headers token host amz_date)
                (signed_headers token)
                (sha256_hex c body))))
        ≡ some sig
      → sign_request c
          (for_kms access_key_id secret_key region)
          date
          amz_date
          (post_request token host amz_date body)
        ≡ some (
            authorization access_key_id
              (credential_scope date region)
              (signed_headers token)
              (bytes_to_hex sig))
  unfolding sign_request
  sign_request_eq token host body date amz_date region secret_key access_key_id key sig derived
        signed =
      let who = for_kms access_key_id secret_key region in
      let scope = credential_scope date region in
      let to_sign =
        string_to_sign_eq c token host body date amz_date who scope (
          sha256_hex c (
            canonical_request (canonical_headers token host amz_date) (signed_headers token)
              (sha256_hex c body)))
        ∙ ap (λ t. join newline (codes "AWS4-HMAC-SHA256" ∷ amz_date ∷ scope ∷ sha256_hex c t ∷ []))
            (canonical_request_eq c token host body date amz_date who)
        ∙ ap
            (λ t. join newline (
              codes "AWS4-HMAC-SHA256"
              ∷ amz_date
              ∷ t
              ∷ sha256_hex c (canonical_text c (post_request token host amz_date body))
              ∷ []))
            (scope_eq c token host body date amz_date who)
        ∙ ap
            (λ t.
              join newline (
                codes "AWS4-HMAC-SHA256"
                ∷ amz_date
                ∷ join (codes "/") (scope_of who date)
                ∷ t
                ∷ []))
            (hex_eq (c.sha256 (canonical_text c (post_request token host amz_date body)))) in
      rw
        (
          build_signing_key_eq secret_key date region key derived,
          ap (c.hmac key) (sym to_sign) ∙ signed,
        )
        (sym (
          ap some (
            authorization_eq access_key_id scope (signed_headers token) (bytes_to_hex sig)
            ∙ ap (λ t. parts t (signed_headers token) (bytes_to_hex sig))
                (credential_eq c token host body date amz_date who)
            ∙ ap
                (λ t.
                  parts (join (codes "/") (access_key_id ∷ scope_of who date)) t (bytes_to_hex sig))
                (signed_headers_eq token host amz_date)
            ∙ ap
                (parts (join (codes "/") (access_key_id ∷ scope_of who date))
                  (join (codes ";") (map (λ (h : Header). h.0) (headers_of token host amz_date))))
                (hex_eq sig))))

  pub build_authorization_eq :
      (cfg : Config) (host body date amz_date auth : Bytes)
      → build_authorization c cfg host body date amz_date ≡ some auth
      → (region : Bytes) × (secret_key : Bytes) × (access_key_id : Bytes) × (cfg.aws_region
          ≡ some region)
        × (cfg.aws_secret_access_key ≡ some secret_key)
        × (cfg.aws_access_key_id ≡ some access_key_id)
        × (sign_request c
              (for_kms access_key_id secret_key region)
              date
              amz_date
              (post_request cfg.aws_session_token host amz_date body)
            ≡ some auth)
  unfolding build_authorization sign_request
  build_authorization_eq cfg host body date amz_date auth h =
      let token = cfg.aws_session_token in
      let headers = canonical_headers token host amz_date in
      let names = signed_headers token in
      let text = canonical_request headers names (sha256_hex c body) in
      let (region, e1, h1) = >>=-eq-some cfg.aws_region _ h in
      let (secret_key, e2, h2) = >>=-eq-some cfg.aws_secret_access_key _ h1 in
      let (access_key_id, e3, h3) = >>=-eq-some cfg.aws_access_key_id _ h2 in
      let scope = credential_scope date region in
      let (_, h4) = guard-eq-some (ltb (length headers) 2048) _ h3 in
      let (_, h5) = guard-eq-some (ltb (length names) 128) _ h4 in
      let (_, h6) = guard-eq-some (ltb (length text) 4096) _ h5 in
      let (_, h7) = guard-eq-some (ltb (length scope) 256) _ h6 in
      let to_sign = string_to_sign amz_date scope (sha256_hex c text) in
      let (_, h8) = guard-eq-some (ltb (length to_sign) 1024) _ h7 in
      let (key, e9, h9) = >>=-eq-some (build_signing_key c secret_key date region) _ h8 in
      let (sig, e10, h10) = >>=-eq-some (hmac_sha256 c key to_sign) _ h9 in
      let value = authorization access_key_id scope names (bytes_to_hex sig) in
      let (_, h11) = guard-eq-some (c.has_memory (length value + 1)) _ h10 in
      (
        region,
        secret_key,
        access_key_id,
        e1,
        e2,
        e3,
        sign_request_eq token host body date amz_date region secret_key access_key_id key sig e9
              (hmac_sha256_eq key to_sign sig e10)
            ∙ h11,
      )
