-- ===== src/Enrollment/Kms/Signature.antt =====
-- The request to KMS holds the digest, and its reply the signature.
use nirantara.Common.{
  List, ℕ, zero, suc, ◌+◌, ◌-◌, ◌*◌, ◌/◌, ◌%◌, ◌^◌, ◌==◌, ◌<◌, ◌≡◌, ◌≢◌, refl, ap, sym, ◌∙◌, subst,
  true, false, not, ◌||◌, some, [], ◌∷◌, ◌++◌, append-nil, concat, length, take-length-append,
  append_assoc, length-append, All, arith,
}
use nirantara.Common.Text.{Bytes, codes, is_space, strstr}
use nirantara.Enrollment.Kms.{
  Crypto, must_escape, quoted, string_value, padding, unpadded, base64_encode, base64_decode,
  json_body, build_json_body, json_escape,
}
use nirantara.Enrollment.Kms.Json.{
  escaped_plain, string_value-escaped, member, json_get_string_reads,
}
use nirantara.Enrollment.Kms.Sign.{write_all, signature_of}

unfoldable pub zeros : ℕ → Bytes
zeros zero = []
zeros (suc n) = 0 ∷ zeros n

length-zeros : (n : ℕ) → length (zeros n) ≡ n
unfolding zeros
length-zeros zero = refl
length-zeros (suc n) = ap suc (length-zeros n)

-- What the manual of OpenSSL says of EVP_EncodeBlock and EVP_DecodeBlock, for some bytes: four
-- characters of the base64 alphabet to three bytes, padded by '=', and zero bytes for the padding.
pub record Base64Of (c : Crypto) (bytes : Bytes) : Type 0 where
  pub long : length (c.encode_block bytes) ≡ 4 * ((length bytes + 2) / 3)
  pub padded : padding c (c.encode_block bytes) ≡ (3 - length bytes % 3) % 3
  pub plain : All (λ ch. must_escape ch ≡ false) (c.encode_block bytes)
  pub decoded :
      c.decode_block (c.encode_block bytes) ≡ some (bytes ++ zeros ((3 - length bytes % 3) % 3))

-- The text between the key id and the digest, and what is behind the digest.
abbrev pub before_message : Bytes → Bytes
before_message key_id = codes "{\"KeyId\":\"" ++ (key_id ++ codes "\",")

abbrev pub behind_message : Bytes
behind_message = codes ",\"MessageType\":\"DIGEST\",\"SigningAlgorithm\":\"ECDSA_SHA_256\"}"

abbrev pub behind_key_id : Bytes → Bytes
behind_key_id digest_b64 = codes ",\"Message\":\"" ++ (digest_b64 ++ b'"' ∷ behind_message)

module _ (c : Crypto) (memory : (n : ℕ) → c.has_memory n ≡ true) where
  pub base64_decode_encoded :
      (bytes : Bytes)
      → Base64Of c bytes
      → 0 < length bytes
      → length bytes < 2 ^ 62
      → base64_decode c (c.encode_block bytes) ≡ some bytes
  unfolding base64_decode
  base64_decode_encoded bytes laws some_bytes small =
      let blocks : not
            (length (c.encode_block bytes) == 0 || not (length (c.encode_block bytes) % 4 == 0))
          ≡ true =
        ground (arith, laws.long) in
      let kept : unpadded c (length (bytes ++ zeros ((3 - length bytes % 3) % 3)))
            (padding c (c.encode_block bytes))
          ≡ length bytes =
        omega (
          arith,
          laws.padded,
          length-append bytes (zeros ((3 - length bytes % 3) % 3)),
          length-zeros ((3 - length bytes % 3) % 3),
        ) in
      rw (blocks, memory _, laws.decoded, kept)
        (ap some (take-length-append bytes (zeros ((3 - length bytes % 3) % 3))))

  -- However a response is cut, all of it is kept.
  pub write_all-concat :
      (held : Bytes) (chunks : List Bytes)
      → write_all c.has_memory held chunks ≡ some (held ++ concat chunks)
  unfolding write_all
  write_all-concat held [] = ap some (sym (append-nil held))
  write_all-concat held (chunk ∷ chunks) =
      rw (memory (length held + length chunk + 1)) (
        write_all-concat (held ++ chunk) chunks ∙ ap some (append_assoc held chunk (concat chunks)))

  -- The reply of KMS with the signature of `bytes` in it, at the first "Signature", gives the bytes.
  pub signature_of-member :
      (before gap space rest bytes : Bytes)
      → strstr (before ++ quoted (codes "Signature")) (quoted (codes "Signature"))
        ≡ some (before, quoted (codes "Signature"))
      → All (λ ch. ch ≢ b':') gap
      → All (λ ch. is_space ch ≡ true) space
      → Base64Of c bytes
      → 0 < length bytes
      → length bytes < 2 ^ 62
      → signature_of c 200 (member before (codes "Signature") gap space (c.encode_block bytes) rest)
        ≡ some bytes
  unfolding signature_of
  signature_of-member before gap space rest bytes first no_colon blank laws some_bytes small =
      let plain = escaped_plain (c.encode_block bytes) laws.plain in
      let closed : string_value (c.encode_block bytes ++ b'"' ∷ rest)
          ≡ some (c.encode_block bytes) =
        subst (λ t. string_value (t ++ b'"' ∷ rest) ≡ some t) plain
          (string_value-escaped (c.encode_block bytes) rest) in
      rw
        (json_get_string_reads c.has_memory before (codes "Signature") gap space
          (c.encode_block bytes) rest (omega arith) first no_colon blank closed (memory _))
        (base64_decode_encoded bytes laws some_bytes small)

  pub json_body_message :
      (key_id digest_b64 : Bytes)
      → json_body c key_id digest_b64
        ≡ member (before_message key_id) (codes "Message") [] [] digest_b64 behind_message
  json_body_message key_id digest_b64 = sym (
      ap (λ t. codes "{\"KeyId\":\"" ++ t)
        (append_assoc (key_id ++ codes "\",") (quoted (codes "Message"))
            (b':' ∷ b'"' ∷ (digest_b64 ++ b'"' ∷ behind_message))
          ∙ append_assoc key_id (codes "\",")
              (quoted (codes "Message") ++ b':' ∷ b'"' ∷ (digest_b64 ++ b'"' ∷ behind_message))))

  pub build_json_body_eq :
      (key_id digest : Bytes)
      → All (λ ch. must_escape ch ≡ false) key_id
      → build_json_body c key_id digest ≡ some (json_body c key_id (c.encode_block digest))
  unfolding build_json_body base64_encode json_escape
  build_json_body_eq key_id digest plain =
      rw (memory _, memory _, escaped_plain key_id plain, memory _) refl
