-- ===== src/Enrollment/Kms/Sizes.antt =====
-- The arrays of kms.c, and requests whose texts have the usual sizes.
use nirantara.Common.Options.{>>=-some, guard-true}
use nirantara.Enrollment.Kms.Signing.{append_all-all}
use nirantara.Enrollment.Kms.Moment.{utc_timestamps-IsMoment}
use nirantara.Enrollment.Kms.Posting.{sign_sha256_digest_accepts}
use nirantara.Enrollment.Kms.Json.{member}
use nirantara.Enrollment.Kms.Signature.{Base64Of}
use nirantara.Common.{
  ap, not, ◌==◌, ◌^◌, ◌≢◌, All, ℕ, ◌≤◌, ◌<◌, ◌≡◌, refl, ◌∙◌, true, Option, none, some, List, [],
  ◌∷◌, ◌++◌, ltb, length, concat, lt→ltb, arith,
}
use nirantara.Common.Text.{cstr, is_space, strstr, Bytes, codes}
use nirantara.Enrollment.Config.{Config}
use nirantara.Enrollment.Kms.{
  escaped, quoted, json_body, Crypto, bytes_to_hex, sha256_hex, build_json_body, base64_encode,
  json_escape,
}
use nirantara.Enrollment.Kms.Authorization.{
  hmac_sha256, canonical_headers, signed_headers, canonical_request, credential_scope,
  string_to_sign, authorization, build_signing_key, build_authorization, kms_service,
}
use nirantara.Enrollment.Kms.Sign.{
  utc_timestamps, sign_sha256_digest, append_all, is_null, header_lines, Post, Service, host_of,
  url_of, token_fits, kms_post,
}
use nirantara.Enrollment.Kms.Lengths.{
  length-concat, length-bytes_to_hex, canonical_headers_fit, signed_headers_fit,
  canonical_request_fits, credential_scope_fits, string_to_sign_fits, authorization_fits, token_len,
}

-- OpenSSL at work: there is memory, and SHA-256 and HMAC give 32 bytes.
pub record CryptoWorks (c : Crypto) : Type 0 where
  pub memory : (n : ℕ) → c.has_memory n ≡ true
  pub long : (bytes : Bytes) → length (c.sha256 bytes) ≡ 32
  pub signs : (key text : Bytes) → (mac : Bytes) × (c.hmac key text ≡ some mac) × (length mac ≡ 32)

-- A configuration with texts of usual sizes.
pub record HasSizes (cfg : Config) : Type 0 where
  pub region : Bytes
  pub key_id : Bytes
  pub access_key_id : Bytes
  pub secret_key : Bytes
  pub in_region : cfg.aws_region ≡ some region
  pub with_key : cfg.kms_key_id ≡ some key_id
  pub of_account : cfg.aws_access_key_id ≡ some access_key_id
  pub with_secret : cfg.aws_secret_access_key ≡ some secret_key
  pub region_fits : length region ≤ 200
  pub access_key_fits : length access_key_id ≤ 1000
  pub secret_fits : length secret_key ≤ 250
  pub token_fit : token_len cfg.aws_session_token ≤ 1500

module _ (c : Crypto) (works : CryptoWorks c) where
  hmac_sha256_made :
      (key text : Bytes) → (mac : Bytes) × (hmac_sha256 c key text ≡ some mac) × (length mac ≡ 32)
  unfolding hmac_sha256
  hmac_sha256_made key text =
      let (mac, made, size) = works.signs key text in
      let whole : (length mac == 32) ≡ true = ground (arith, size) in
      (mac, >>=-some _ made ∙ guard-true whole, size)

  build_signing_key_made :
      (secret_key date region : Bytes)
      → length secret_key ≤ 250
      → (key : Bytes) × (build_signing_key c secret_key date region ≡ some key)
  unfolding build_signing_key
  build_signing_key_made secret_key date region short =
      let fits : ltb (length (codes "AWS4" ++ secret_key)) 256 ≡ true = lt→ltb _ _ (omega arith) in
      let (k1, e1, _) = hmac_sha256_made (codes "AWS4" ++ secret_key) date in
      let (k2, e2, _) = hmac_sha256_made k1 region in
      let (k3, e3, _) = hmac_sha256_made k2 kms_service in
      let (k4, e4, _) = hmac_sha256_made k3 (codes "aws4_request") in (k4, rw (fits, e1, e2, e3) e4)

  length-sha256_hex : (bytes : Bytes) → length (sha256_hex c bytes) ≡ 64
  length-sha256_hex bytes = omega (arith, length-bytes_to_hex (c.sha256 bytes), works.long bytes)

  build_authorization_made :
      (cfg : Config) (s : HasSizes cfg) (host body date amz_date : Bytes)
      → length host ≤ 220
      → length date ≡ 8
      → length amz_date ≡ 16
      → (auth : Bytes) × (build_authorization c cfg host body date amz_date ≡ some auth)
        × (length auth ≤ 2000)
  unfolding build_authorization
  build_authorization_made cfg s host body date amz_date short day time =
      let token = cfg.aws_session_token in
      let headers = canonical_headers token host amz_date in
      let names = signed_headers token in
      let text = canonical_request headers names (sha256_hex c body) in
      let scope = credential_scope date s.region in
      let to_sign = string_to_sign amz_date scope (sha256_hex c text) in
      let l1 = canonical_headers_fit token host amz_date in
      let l2 = signed_headers_fit token in
      let l3 = canonical_request_fits headers names (sha256_hex c body) in
      let l4 = credential_scope_fits date s.region in
      let l5 = string_to_sign_fits amz_date scope (sha256_hex c text) in
      let h1 = length-sha256_hex body in
      let h2 = length-sha256_hex text in
      let g1 : ltb (length headers) 2048 ≡ true = lt→ltb _ _ (omega (arith, s.token_fit)) in
      let g2 : ltb (length names) 128 ≡ true = lt→ltb _ _ (omega arith) in
      let g3 : ltb (length text) 4096 ≡ true = lt→ltb _ _ (omega (arith, s.token_fit)) in
      let g4 : ltb (length scope) 256 ≡ true = lt→ltb _ _ (omega (arith, s.region_fits)) in
      let g5 : ltb (length to_sign) 1024 ≡ true = lt→ltb _ _ (omega (arith, s.region_fits)) in
      let (key, made) = build_signing_key_made s.secret_key date s.region s.secret_fits in
      let (mac, signed, size) = hmac_sha256_made key to_sign in
      let l6 = authorization_fits s.access_key_id scope names (bytes_to_hex mac) in
      let l7 = length-bytes_to_hex mac in
      (
        authorization s.access_key_id scope names (bytes_to_hex mac),
        rw
            (
              s.in_region,
              s.with_secret,
              s.of_account,
              g1,
              g2,
              g3,
              g4,
              g5,
              made,
              signed,
              works.memory _,
            )
            refl,
        omega (arith, s.region_fits, s.access_key_fits),
      )

  build_json_body_made :
      (key_id digest : Bytes) → (body : Bytes) × (build_json_body c key_id digest ≡ some body)
  unfolding build_json_body base64_encode json_escape
  build_json_body_made key_id digest = (
    json_body c (escaped key_id) (c.encode_block digest),
    rw (works.memory _, works.memory _, works.memory _) refl,
  )

  token_made : (token : Option Bytes) → token_len token ≤ 1500 → token_fits token ≡ true
  token_made none h = refl
  token_made (some token) h = lt→ltb _ _ (omega arith)

  module _ (service : Service) (date amz_date : Bytes)
      (at_time : utc_timestamps service.clock ≡ some (date, amz_date))
      (has_curl : service.has_curl ≡ true)
      (appends : (line : Bytes) → service.appends line ≡ true) where
    kms_post_made :
        (cfg : Config)
        → HasSizes cfg
        → (digest : Bytes) → (post : Post) × (kms_post c service cfg digest ≡ some post)
    unfolding kms_post
    kms_post_made cfg s digest =
        let moment = utc_timestamps-IsMoment service.clock date amz_date at_time in
        let host = host_of s.region in
        let host_size = length-concat (codes "kms." ∷ s.region ∷ codes ".amazonaws.com" ∷ []) in
        let url_size = length-concat (codes "https://" ∷ host ∷ codes "/" ∷ []) in
        let g1 : ltb (length host) 256 ≡ true = lt→ltb _ _ (omega (arith, s.region_fits)) in
        let g2 : ltb (length (url_of host)) 300 ≡ true =
          lt→ltb _ _ (omega (arith, s.region_fits)) in
        let (body, written) = build_json_body_made s.key_id digest in
        let (auth, signed, size) =
          build_authorization_made cfg s host body date amz_date (omega (arith, s.region_fits))
            moment.length-date moment.length-amz_date in
        let g3 : ltb (length (codes "X-Amz-Date: " ++ amz_date)) 64 ≡ true =
          lt→ltb _ _ (omega (arith, moment.length-amz_date)) in
        let g4 : ltb (length (codes "Authorization: " ++ auth)) 2048 ≡ true =
          lt→ltb _ _ (omega arith) in
        let lines = header_lines amz_date auth cfg.aws_session_token in
        let g6 : not (is_null (append_all service.appends [] lines)) ≡ true =
          ap (λ l. not (is_null l)) (append_all-all service.appends [] lines appends) in
        let g5 = token_made cfg.aws_session_token s.token_fit in
        (
          record { url = url_of host; headers = append_all service.appends [] lines; body = body },
          >>=-some _ s.in_region
              ∙ >>=-some _ s.with_key
              ∙ guard-true g1
              ∙ guard-true g2
              ∙ >>=-some _ at_time
              ∙ >>=-some _ written
              ∙ >>=-some _ signed
              ∙ guard-true has_curl
              ∙ guard-true g3
              ∙ guard-true g4
              ∙ guard-true g5
              ∙ guard-true g6,
        )

    -- With a configuration whose region has at most 200 bytes, the access key 1000, the secret key 250
    -- and the session token 1500 (or none), while there is memory, the hashes have 32 bytes, curl
    -- starts and appends the headers, and the clock can be read: when KMS answers every request with
    -- the status 200, in any chunks, and an object whose first "Signature" is the base64 code of some
    -- bytes, as OpenSSL documents it, with any white space around it, exactly these bytes are
    -- returned.
    pub sign_sha256_digest_returns :
        (cfg : Config) (digest : Bytes) (chunks : List Bytes) (before gap space rest sig : Bytes)
        → HasSizes cfg
        → strstr (before ++ quoted (codes "Signature")) (quoted (codes "Signature"))
          ≡ some (before, quoted (codes "Signature"))
        → All (λ ch. ch ≢ b':') gap
        → All (λ ch. is_space ch ≡ true) space
        → Base64Of c sig
        → 0 < length sig
        → length sig < 2 ^ 62
        → ((post : Post) → service.perform post ≡ some (record { status = 200; chunks = chunks }))
        → cstr (concat chunks)
          ≡ member before (codes "Signature") gap space (c.encode_block sig) rest
        → sign_sha256_digest c service cfg digest ≡ some sig
    sign_sha256_digest_returns cfg digest chunks before gap space rest sig s first no_colon blank
          laws some_bytes small answers string =
        let (post, made) = kms_post_made cfg s digest in
        sign_sha256_digest_accepts c service works.memory cfg digest post chunks before gap space
          rest sig made first no_colon blank laws some_bytes small (answers post) string
