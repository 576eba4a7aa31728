-- ===== src/Enrollment/Kms/Posting.antt =====
-- What `nr_kms_sign_sha256_digest` posts, and when it returns a signature.
use nirantara.Common.{
  not, List, concat, ℕ, ◌^◌, ◌==◌, ◌<◌, ◌≡◌, ◌≢◌, refl, ap, sym, ◌∙◌, subst, true, false, some, [],
  ◌∷◌, ◌++◌, ltb, length, All, arith,
}
use nirantara.Common.Options.{◌>>=◌, >>=-eq-some, guard-eq-some, some_eq}
use nirantara.Common.Text.{Bytes, codes, cstr, is_space, strstr, starts_with}
use nirantara.Enrollment.Config.{Config}
use nirantara.Enrollment.Kms.{
  Crypto, must_escape, quoted, string_value, json_get_string, base64_decode, json_body,
  build_json_body,
}
use nirantara.Enrollment.Kms.Authorization.{build_authorization}
use nirantara.Enrollment.Kms.Json.{
  escaped_plain, string_value-escaped, member, json_get_string_reads,
}
use nirantara.Enrollment.Kms.Sign.{
  Post, Reply, Service, host_of, url_of, header_lines, append_all, is_null, token_fits,
  utc_timestamps, kms_post, write_all, signature_of, sign_sha256_digest,
}
use nirantara.Enrollment.Kms.Signature.{
  Base64Of, base64_decode_encoded, write_all-concat, signature_of-member, before_message,
  behind_message, behind_key_id, json_body_message, build_json_body_eq,
}

-- The parts of a request that is made.
pub record Made (c : Crypto) (service : Service) (cfg : Config) (digest : Bytes) (post : Post)
    : Type 0 where
  pub region : Bytes
  pub key_id : Bytes
  pub date : Bytes
  pub amz_date : Bytes
  pub auth : Bytes
  pub in_region : cfg.aws_region ≡ some region
  pub with_key : cfg.kms_key_id ≡ some key_id
  pub at_time : utc_timestamps service.clock ≡ some (date, amz_date)
  pub body_built : build_json_body c key_id digest ≡ some post.body
  pub authorized : build_authorization c cfg (host_of region) post.body date amz_date ≡ some auth
  pub sent_to : post.url ≡ url_of (host_of region)
  pub sent_with :
      post.headers
      ≡ append_all service.appends [] (header_lines amz_date auth cfg.aws_session_token)

module _ (c : Crypto) (service : Service) where
  pub kms_post-Made :
      (cfg : Config) (digest : Bytes) (post : Post)
      → kms_post c service cfg digest ≡ some post
      → Made c service cfg digest post
  unfolding kms_post
  kms_post-Made cfg digest post h =
      let (region, e1, h1) = >>=-eq-some cfg.aws_region _ h in
      let (key_id, e2, h2) = >>=-eq-some cfg.kms_key_id _ h1 in
      let (_, h3) = guard-eq-some (ltb (length (host_of region)) 256) _ h2 in
      let (_, h4) = guard-eq-some (ltb (length (url_of (host_of region))) 300) _ h3 in
      let (times, e5, h5) = >>=-eq-some (utc_timestamps service.clock) _ h4 in
      let (body, e6, h6) = >>=-eq-some (build_json_body c key_id digest) _ h5 in
      let (auth, e7, h7) =
        >>=-eq-some (build_authorization c cfg (host_of region) body times.0 times.1) _ h6 in
      let (_, h8) = guard-eq-some service.has_curl _ h7 in
      let (_, h9) = guard-eq-some (ltb (length (codes "X-Amz-Date: " ++ times.1)) 64) _ h8 in
      let (_, h10) = guard-eq-some (ltb (length (codes "Authorization: " ++ auth)) 2048) _ h9 in
      let (_, h11) = guard-eq-some (token_fits cfg.aws_session_token) _ h10 in
      let headers =
        append_all service.appends [] (header_lines times.1 auth cfg.aws_session_token) in
      let (_, h12) = guard-eq-some (not (is_null headers)) _ h11 in
      let is_post = some_eq _ _ h12 in
      record {
        region = region;
        key_id = key_id;
        date = times.0;
        amz_date = times.1;
        auth = auth;
        in_region = e1;
        with_key = e2;
        at_time = e5;
        body_built = e6 ∙ ap (λ (p : Post). some p.body) is_post;
        authorized =
            subst
              (λ (p : Post).
                build_authorization c cfg (host_of region) p.body times.0 times.1 ≡ some auth)
              is_post e7;
        sent_to = sym (ap (λ (p : Post). p.url) is_post);
        sent_with = sym (ap (λ (p : Post). p.headers) is_post);
      }

-- A text that asks for the signature of a digest with a key.
pub record Asks (c : Crypto) (key_id digest body : Bytes) : Type 0 where
  pub message : Bytes
  pub names_key : json_get_string c.has_memory body (codes "KeyId") ≡ some key_id
  pub has_message :
      body ≡ member (before_message key_id) (codes "Message") [] [] message behind_message
  pub is_digest : base64_decode c message ≡ some digest

-- The exchange behind a signature.
pub record Exchange (c : Crypto) (service : Service) (cfg : Config) (key_id digest sig : Bytes)
    : Type 0 where
  pub post : Post
  pub reply : Reply
  pub made : kms_post c service cfg digest ≡ some post
  pub asks : Asks c key_id digest post.body
  pub replied : service.perform post ≡ some reply
  pub ok : reply.status ≡ 200
  pub brings :
      (json_get_string c.has_memory (cstr (concat reply.chunks)) (codes "Signature")
        >>= base64_decode c)
      ≡ some sig

module _ (c : Crypto) (service : Service) (memory : (n : ℕ) → c.has_memory n ≡ true) where
  json_body-Asks :
      (key_id digest : Bytes)
      → All (λ ch. must_escape ch ≡ false) key_id
      → Base64Of c digest
      → 0 < length digest
      → length digest < 2 ^ 62
      → Asks c key_id digest (json_body c key_id (c.encode_block digest))
  unfolding strstr starts_with
  json_body-Asks key_id digest plain laws some_bytes small = record {
    message = c.encode_block digest;
    names_key =
        json_get_string_reads c.has_memory (codes "{") (codes "KeyId") [] [] key_id
          (behind_key_id (c.encode_block digest)) (omega arith) refl tt tt
          (subst (λ t. string_value (t ++ b'"' ∷ (behind_key_id (c.encode_block digest))) ≡ some t)
            (escaped_plain key_id plain)
            (string_value-escaped key_id (behind_key_id (c.encode_block digest))))
          (memory _);
    has_message = json_body_message c memory key_id (c.encode_block digest);
    is_digest = base64_decode_encoded c memory digest laws some_bytes small;
  }

  -- A signature is returned only from a reply with the status 200 to a request that was made, whose
  -- body names the configured key and has the digest as its message, and it is the signature that
  -- stands in this reply; for a key id without quotes and backslashes, while there is memory, and
  -- with the base64 code that OpenSSL documents for the digest.
  pub sign_sha256_digest_sound :
      (cfg : Config) (key_id digest sig : Bytes)
      → cfg.kms_key_id ≡ some key_id
      → All (λ ch. must_escape ch ≡ false) key_id
      → Base64Of c digest
      → 0 < length digest
      → length digest < 2 ^ 62
      → sign_sha256_digest c service cfg digest ≡ some sig
      → Exchange c service cfg key_id digest sig
  unfolding sign_sha256_digest signature_of
  sign_sha256_digest_sound cfg key_id digest sig keyed plain laws some_bytes small h =
      let (post, made, h1) = >>=-eq-some (kms_post c service cfg digest) _ h in
      let (reply, replied, h2) = >>=-eq-some (service.perform post) _ h1 in
      let (response, stored, h3) = >>=-eq-some (write_all c.has_memory [] reply.chunks) _ h2 in
      let (ok, found) = guard-eq-some (reply.status == 200) _ h3 in
      let whole = some_eq _ _ (sym stored ∙ write_all-concat c memory [] reply.chunks) in
      let parts = kms_post-Made c service cfg digest post made in
      let same_key = some_eq _ _ (sym parts.with_key ∙ keyed) in
      let same_body : json_body c key_id (c.encode_block digest) ≡ post.body = some_eq _ _ (
        sym (build_json_body_eq c memory key_id digest plain)
        ∙ ap (λ k. build_json_body c k digest) (sym same_key)
        ∙ parts.body_built) in
      record {
        post = post;
        reply = reply;
        made = made;
        asks =
            subst (Asks c key_id digest) same_body
              (json_body-Asks key_id digest plain laws some_bytes small);
        replied = replied;
        ok = ground arith;
        brings =
            subst
              (λ t.
                (json_get_string c.has_memory (cstr t) (codes "Signature") >>= base64_decode c)
                ≡ some sig)
              whole found;
      }

  -- When the request is made and KMS answers 200, in any chunks, with an object whose first "Signature" is the base64
  -- code of some bytes, with any white space around it, these bytes are returned; while there is
  -- memory, and with the base64 code that OpenSSL documents for them.
  pub sign_sha256_digest_accepts :
      (cfg : Config) (digest : Bytes) (post : Post) (chunks : List Bytes)
      (before gap space rest sig : Bytes)
      → kms_post c service cfg digest ≡ some post
      → strstr (before ++ quoted (codes "Signature")) (quoted (codes "Signature"))
        ≡ some (before, quoted (codes "Signature"))
      → All (λ ch. ch ≢ b':') gap
      → All (λ ch. is_space ch ≡ true) space
      → Base64Of c sig
      → 0 < length sig
      → length sig < 2 ^ 62
      → service.perform post ≡ some (record { status = 200; chunks = chunks })
      → cstr (concat chunks) ≡ member before (codes "Signature") gap space (c.encode_block sig) rest
      → sign_sha256_digest c service cfg digest ≡ some sig
  unfolding sign_sha256_digest
  sign_sha256_digest_accepts cfg digest post chunks before gap space rest sig made first no_colon
        blank laws some_bytes small replied string =
      rw (made, replied, write_all-concat c memory [] chunks, string)
        (signature_of-member c memory before gap space rest sig first no_colon blank laws some_bytes
          small)
