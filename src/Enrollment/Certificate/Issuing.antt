-- ===== src/Enrollment/Certificate/Issuing.antt =====
-- When `nr_enrollment_issue_certificate` returns a certificate.
use nirantara.Common.{
  ℕ, ◌<◌, ◌≡◌, ◌↔◌, ◌∙◌, not, ◌&&◌, ◌==◌, refl, ap, true, some, List, [], ◌∷◌, length, arith,
}
use Prim.Native.String.{String}
use nirantara.Common.Options.{guard, >>=-some, guard-true}
use nirantara.Common.Text.{Bytes}
use nirantara.Enrollment.Config.{Config}
use nirantara.Enrollment.Der.{write_cert_der}
use nirantara.Enrollment.Certificate.{
  Backend, CertCall, ext_conf, add_ext, Template, bio_new, bio_new_mem_buf, load_csr, serial_of,
  set_random_serial, build_subject_name, add_extensions, generate_algorithm_seed_key, subject_of,
  template_of, verify_csr, build_unsigned_cert, encode_template, allocated, encode_alg_der,
  encode_signature_bitstring_der, assemble_certificate_der, verify_issued_cert, der_to_pem,
  issue_certificate, extensions_of_client,
}
use nirantara.Enrollment.Certificate.Issue.{Grounds, template_of-fields_of, issue_sound}

-- OpenSSL at work: there is memory, its calls succeed, it draws random bytes and a throw-away key,
-- and its encodings are not empty.
pub record IsWorking (b : Backend) : Type 0 where
  pub memory : (n : ℕ) → b.has_memory n ≡ true
  pub calls : (call : CertCall b.Name b.Key) → b.succeeds call ≡ true
  pub seed : b.Key
  pub seed_drawn : b.keygen ≡ some seed
  pub tbs_filled :
      (t : Template b.Name b.Key) (tbs : Bytes) → b.encode_tbs t ≡ some tbs → 0 < length tbs
  pub alg_filled : (alg : Bytes) → b.encode_algorithm ≡ some alg → 0 < length alg
  pub bit_filled : (sig bit : Bytes) → b.encode_bit_string sig ≡ some bit → 0 < length bit

module _ (b : Backend) (works : IsWorking b) where
  allocated_made : (der : Bytes) → 0 < length der → allocated b der ≡ some der
  unfolding allocated
  allocated_made der h =
      let room : (not (length der == 0) && b.has_memory (length der)) ≡ true =
        ground (arith, works.memory (length der)) in
      guard-true room

  build_subject_name_made : (id : Bytes) → build_subject_name b id ≡ some (subject_of id)
  unfolding build_subject_name
  build_subject_name_made id =
      guard-true (works.calls _) ∙ guard-true (works.calls _) ∙ guard-true (works.calls _)

  add_extensions_made : (exts : List (String × String)) → add_extensions b exts ≡ some tt
  unfolding add_extensions
  add_extensions_made [] = refl
  add_extensions_made ((nid, value) ∷ exts) =
      rw (works.calls (ext_conf nid value), works.calls (add_ext nid value))
        (add_extensions_made exts)

  generate_made : generate_algorithm_seed_key b ≡ some works.seed
  unfolding generate_algorithm_seed_key
  generate_made =
      guard-true (works.calls _)
      ∙ guard-true (works.calls _)
      ∙ guard-true (works.calls _)
      ∙ works.seed_drawn

  serial_made :
      (bytes : Bytes) → b.random ≡ some bytes → set_random_serial b ≡ some (serial_of bytes)
  unfolding set_random_serial
  serial_made bytes drawn =
      >>=-some _ drawn
      ∙ guard-true (works.calls _)
      ∙ guard-true (works.calls _)
      ∙ guard-true (works.calls _)

  build_made :
      (cfg : Config) (id : Bytes) (ca : b.Cert) (key : b.Key) (serial : Bytes)
      → set_random_serial b ≡ some serial
      → build_unsigned_cert b cfg id ca key ≡ some (template_of b cfg id ca key serial)
  unfolding build_unsigned_cert
  build_made cfg id ca key serial drawn =
      guard-true (works.calls _)
      ∙ guard-true (works.calls _)
      ∙ >>=-some _ drawn
      ∙ guard-true (works.calls _)
      ∙ guard-true (works.calls _)
      ∙ >>=-some _ (build_subject_name_made id)
      ∙ guard-true (works.calls _)
      ∙ guard-true (works.calls _)
      ∙ guard-true (works.calls _)
      ∙ >>=-some _ (add_extensions_made extensions_of_client)
      ∙ >>=-some _ generate_made
      ∙ guard-true (works.calls _)

  module _ (cfg : Config) (id csr_pem pem : Bytes) (g : Grounds b cfg id csr_pem pem) where
    assemble_made : assemble_certificate_der b g.tbs g.sig ≡ some (write_cert_der g.tbs g.alg g.bit)
    unfolding assemble_certificate_der encode_alg_der encode_signature_bitstring_der
    assemble_made =
        >>=-some _
          (>>=-some _ g.alg_encoded ∙ allocated_made g.alg (works.alg_filled g.alg g.alg_encoded))
        ∙ >>=-some _ (
            >>=-some _ g.bit_encoded
            ∙ allocated_made g.bit (works.bit_filled g.sig g.bit g.bit_encoded))
        ∙ guard-true (works.memory _)

    returned : issue_certificate b cfg (some id) csr_pem ≡ some pem
    unfolding issue_certificate load_csr verify_csr encode_template verify_issued_cert der_to_pem
    returned =
        guard-true g.valid
        ∙ guard-true g.allowed
        ∙ >>=-some _ g.ca_read
        ∙ >>=-some _ (guard-true (works.calls bio_new_mem_buf) ∙ g.csr_read)
        ∙ >>=-some _ (>>=-some _ g.key_read ∙ guard-true g.possession)
        ∙ >>=-some _ (
            build_made cfg id g.ca_cert g.key (serial_of g.bytes) (serial_made g.bytes g.drawn)
            ∙ ap some (template_of-fields_of b cfg id g.ca_cert g.key g.bytes ∙ g.filled))
        ∙ >>=-some _ (
            >>=-some _ g.tbs_encoded
            ∙ allocated_made g.tbs (works.tbs_filled g.template g.tbs g.tbs_encoded))
        ∙ >>=-some _ g.signed
        ∙ >>=-some _ assemble_made
        ∙ >>=-some _ (>>=-some _ g.parsed ∙ >>=-some _ g.ca_key_read ∙ ap guard g.verified)
        ∙ >>=-some _ g.parsed
        ∙ guard-true (works.calls bio_new)
        ∙ >>=-some _ g.printed
        ∙ guard-true (works.memory _)

-- While OpenSSL works and there is memory, a certificate is returned exactly when: the device id is
-- valid and allowed, the request verifies with its own key, the fields as they are to be (with a positive
-- serial number from the random bytes, the lifetime in seconds modulo 2 ^ 64, where the product
-- overflows, and the extensions of a client that is no CA) are signed by KMS, and the certificate assembled from them verifies with the key of the CA and is, in PEM,
-- the one returned.
pub issue_certificate_iff :
    (b : Backend) (cfg : Config) (id csr_pem pem : Bytes)
    → IsWorking b
    → (issue_certificate b cfg (some id) csr_pem ≡ some pem) ↔ Grounds b cfg id csr_pem pem
issue_certificate_iff b cfg id csr_pem pem works =
    (issue_sound b cfg id csr_pem pem, returned b works cfg id csr_pem pem)
