-- ===== src/Enrollment/Certificate/Issue.antt =====
-- What stands behind a certificate that `nr_enrollment_issue_certificate` returns.
use nirantara.Common.{List, ◌*◌, ◌≡◌, true, some, ap, sym, ◌∙◌, subst, arith}
use nirantara.Common.Options.{>>=-eq-some, guard-eq-some, some_eq}
use nirantara.Common.Text.{Bytes, codes}
use Prim.Native.Nat.{bit_and}
use nirantara.Common.{ℕ, ◌%◌, ◌^◌, ◌==◌, if◌then◌else◌, refl, [], ◌∷◌}
use nirantara.Enrollment.Config.{Config, device_allowed}
use nirantara.Enrollment.Der.{write_cert_der}
use nirantara.Enrollment.Certificate.{
  Backend, Template, bn_bin2bn, bn_to_asn1, set_serial, x509_new, set_version, set_issuer,
  set_pubkey, set_subject, set_not_before, set_not_after, x509_sign, lifetime_of, bio_new, load_csr,
  set_random_serial, build_subject_name, add_extensions, generate_algorithm_seed_key, subject_of,
  template_of, valid_device_id, verify_csr, serial_of, build_unsigned_cert, encode_template,
  allocated, ca_path, encode_alg_der, encode_signature_bitstring_der, assemble_certificate_der,
  verify_issued_cert, der_to_pem, issue_certificate, extensions_of_client,
}

-- A serial number that is positive: from the first byte without its top bit, or 1 instead of 0.
abbrev pub first_byte : ℕ → ℕ
first_byte x = if bit_and x 127 == 0 then 1 else bit_and x 127

abbrev pub positive : Bytes → Bytes
positive [] = []
positive (x ∷ bytes) = first_byte x ∷ bytes

-- The fields as they are to be: of a client that is no CA, signs and authenticates itself with its
-- key, with the lifetime of the configuration in seconds.
abbrev pub fields_of :
    (b : Backend) → Config → Bytes → b.Cert → b.Key → Bytes → Template b.Name b.Key
fields_of b cfg id ca_cert key bytes = record {
  version = 2;
  serial = positive bytes;
  issuer = b.subject_name ca_cert;
  public_key = key;
  subject = (codes "CN", id) ∷ (codes "O", codes "Nirantara") ∷ [];
  not_before = 0;
  not_after = cfg.cert_ttl_days * 86400 % 2 ^ 64;
  extensions =
      ("basicConstraints", "critical,CA:FALSE")
      ∷ ("keyUsage", "critical,digitalSignature")
      ∷ ("extendedKeyUsage", "clientAuth")
      ∷ ("subjectKeyIdentifier", "hash")
      ∷ ("authorityKeyIdentifier", "keyid:always")
      ∷ [];
}

positive_eq : (bytes : Bytes) → serial_of bytes ≡ positive bytes
unfolding serial_of
positive_eq [] = refl
positive_eq (x ∷ bytes) = refl

pub template_of-fields_of :
    (b : Backend) (cfg : Config) (id : Bytes) (ca : b.Cert) (key : b.Key) (bytes : Bytes)
    → template_of b cfg id ca key (serial_of bytes) ≡ fields_of b cfg id ca key bytes
template_of-fields_of b cfg id ca key bytes =
    let seconds : cfg.cert_ttl_days * 24 * 60 * 60 ≡ cfg.cert_ttl_days * 86400 = omega arith in
    ap (λ s. record (template_of b cfg id ca key (serial_of bytes)) { serial = s })
      (positive_eq bytes)
    ∙ ap (λ t. record (fields_of b cfg id ca key bytes) { not_after = t % 2 ^ 64 }) seconds

pub set_random_serial_eq :
    (b : Backend) (serial : Bytes)
    → set_random_serial b ≡ some serial
    → (bytes : Bytes) × (b.random ≡ some bytes) × (serial_of bytes ≡ serial)
unfolding set_random_serial
set_random_serial_eq b serial h =
    let (bytes, drawn, h1) = >>=-eq-some b.random _ h in
    let (_, h2) = guard-eq-some (b.succeeds bn_bin2bn) _ h1 in
    let (_, h3) = guard-eq-some (b.succeeds bn_to_asn1) _ h2 in
    let (_, h4) = guard-eq-some (b.succeeds (set_serial (serial_of bytes))) _ h3 in
    (bytes, drawn, some_eq _ _ h4)

-- The grounds for a certificate: the request of an allowed device that holds the private key, the
-- fields that were signed, and the signature, checked against the CA.
pub record Grounds (b : Backend) (cfg : Config) (id csr_pem pem : Bytes) : Type 0 where
  pub valid : valid_device_id (some id) ≡ true
  pub allowed : device_allowed cfg id ≡ true
  pub ca_cert : b.Cert
  pub csr : b.Csr
  pub key : b.Key
  pub template : Template b.Name b.Key
  pub tbs : Bytes
  pub sig : Bytes
  pub alg : Bytes
  pub bit : Bytes
  pub cert : b.Cert
  pub ca_key : b.Key
  pub bytes : Bytes
  pub drawn : b.random ≡ some bytes
  pub filled : fields_of b cfg id ca_cert key bytes ≡ template
  pub ca_read : ca_path b cfg.ca_cert_path ≡ some ca_cert
  pub csr_read : b.read_csr csr_pem ≡ some csr
  pub key_read : b.csr_public_key csr ≡ some key
  pub possession : b.csr_verifies csr key ≡ true
  pub tbs_encoded : b.encode_tbs template ≡ some tbs
  pub signed : b.kms_sign cfg (b.sha256 tbs) ≡ some sig
  pub alg_encoded : b.encode_algorithm ≡ some alg
  pub bit_encoded : b.encode_bit_string sig ≡ some bit
  pub parsed : b.read_der (write_cert_der tbs alg bit) ≡ some cert
  pub ca_key_read : b.cert_public_key ca_cert ≡ some ca_key
  pub verified : b.cert_verifies cert ca_key ≡ true
  pub printed : b.write_pem cert ≡ some pem

module _ (b : Backend) where
  allocated_eq : (der e : Bytes) → allocated b der ≡ some e → der ≡ e
  unfolding allocated
  allocated_eq der e h = ground arith

  verify_csr_eq :
      (csr : b.Csr) (key : b.Key)
      → verify_csr b csr ≡ some key
      → (b.csr_public_key csr ≡ some key) × (b.csr_verifies csr key ≡ true)
  unfolding verify_csr
  verify_csr_eq csr key h =
      let (k, read, rest) = >>=-eq-some (b.csr_public_key csr) _ h in
      let (verified, same) = guard-eq-some (b.csr_verifies csr k) (some k) rest in (cc, cc)

  load_csr_eq :
      (csr_pem : Bytes) (csr : b.Csr)
      → load_csr b csr_pem ≡ some csr
      → b.read_csr csr_pem ≡ some csr
  unfolding load_csr
  load_csr_eq csr_pem csr h = (guard-eq-some _ _ h).1

  subject_eq :
      (id : Bytes) (subject : List (Bytes × Bytes))
      → build_subject_name b id ≡ some subject
      → subject_of id ≡ subject
  unfolding build_subject_name
  subject_eq id subject h = ground arith

  build_eq :
      (cfg : Config) (id : Bytes) (ca : b.Cert) (key : b.Key) (t : Template b.Name b.Key)
      → build_unsigned_cert b cfg id ca key ≡ some t
      → (serial : Bytes) × (set_random_serial b ≡ some serial)
        × (template_of b cfg id ca key serial ≡ t)
  unfolding build_unsigned_cert
  build_eq cfg id ca key t h =
      let (_, h1) = guard-eq-some (b.succeeds x509_new) _ h in
      let (_, h2) = guard-eq-some (b.succeeds (set_version 2)) _ h1 in
      let (serial, drawn, h3) = >>=-eq-some (set_random_serial b) _ h2 in
      let (_, h4) = guard-eq-some (b.succeeds (set_issuer (b.subject_name ca))) _ h3 in
      let (_, h5) = guard-eq-some (b.succeeds (set_pubkey key)) _ h4 in
      let (subject, named, h6) = >>=-eq-some (build_subject_name b id) _ h5 in
      let (_, h7) = guard-eq-some (b.succeeds (set_subject subject)) _ h6 in
      let (_, h8) = guard-eq-some (b.succeeds (set_not_before 0)) _ h7 in
      let (_, h9) = guard-eq-some (b.succeeds (set_not_after (lifetime_of b cfg))) _ h8 in
      let (_, _, h10) = >>=-eq-some (add_extensions b extensions_of_client) _ h9 in
      let (seed, _, h11) = >>=-eq-some (generate_algorithm_seed_key b) _ h10 in
      let (_, filled) = guard-eq-some (b.succeeds (x509_sign seed)) _ h11 in
      (
        serial,
        drawn,
        ap (λ s. record (template_of b cfg id ca key serial) { subject = s })
              (subject_eq id subject named)
            ∙ some_eq _ _ filled,
      )

  encode_template_eq :
      (t : Template b.Name b.Key) (tbs : Bytes)
      → encode_template b t ≡ some tbs
      → b.encode_tbs t ≡ some tbs
  unfolding encode_template
  encode_template_eq t tbs h =
      let (d, encoded, rest) = >>=-eq-some (b.encode_tbs t) _ h in
      encoded ∙ (ap some (allocated_eq d tbs rest))

  assemble_eq :
      (tbs sig der : Bytes)
      → assemble_certificate_der b tbs sig ≡ some der
      → (alg : Bytes) × (bit : Bytes) × (b.encode_algorithm ≡ some alg)
        × (b.encode_bit_string sig ≡ some bit)
        × (write_cert_der tbs alg bit ≡ der)
  unfolding assemble_certificate_der encode_alg_der encode_signature_bitstring_der
  assemble_eq tbs sig der h =
      let (alg, ea, rest) = >>=-eq-some (encode_alg_der b) _ h in
      let (alg', ea', sa) = >>=-eq-some b.encode_algorithm _ ea in
      let (bit, eb, last) = >>=-eq-some (encode_signature_bitstring_der b sig) _ rest in
      let (bit', eb', sb) = >>=-eq-some (b.encode_bit_string sig) _ eb in
      let (_, same) = guard-eq-some _ _ last in
      (
        alg,
        bit,
        ea' ∙ (ap some (allocated_eq alg' alg sa)),
        eb' ∙ (ap some (allocated_eq bit' bit sb)),
        some_eq _ _ same,
      )

  verify_issued_eq :
      (der : Bytes) (ca : b.Cert)
      → verify_issued_cert b der ca ≡ some tt
      → (cert : b.Cert) × (key : b.Key) × (b.read_der der ≡ some cert)
        × (b.cert_public_key ca ≡ some key)
        × (b.cert_verifies cert key ≡ true)
  unfolding verify_issued_cert
  verify_issued_eq der ca h =
      let (cert, ec, rest) = >>=-eq-some (b.read_der der) _ h in
      let (key, ek, last) = >>=-eq-some (b.cert_public_key ca) _ rest in
      (cert, key, ec, ek, ground arith)

  der_to_pem_eq :
      (der pem : Bytes)
      → der_to_pem b der ≡ some pem
      → (cert : b.Cert) × (b.read_der der ≡ some cert) × (b.write_pem cert ≡ some pem)
  unfolding der_to_pem
  der_to_pem_eq der pem h =
      let (cert, ec, rest) = >>=-eq-some (b.read_der der) _ h in
      let (_, written) = guard-eq-some (b.succeeds bio_new) _ rest in
      let (p, ep, last) = >>=-eq-some (b.write_pem cert) _ written in
      (cert, ec, rw ep (guard-eq-some _ _ last).1)

  -- A certificate is returned only if the device id is valid and allowed, the request verifies with
  -- its own key, the signed fields carry the device id, that key, the CA's name, a positive
  -- serial number, the configured lifetime in seconds (modulo 2 ^ 64, where the product overflows),
  -- and the extensions of a client that is no CA, KMS signed their digest, and the assembled certificate
  -- verifies with the key of the CA; what is returned is that certificate in PEM.
  pub issue_sound :
      (cfg : Config) (id csr_pem pem : Bytes)
      → issue_certificate b cfg (some id) csr_pem ≡ some pem
      → Grounds b cfg id csr_pem pem
  unfolding issue_certificate
  issue_sound cfg id csr_pem pem h =
      let (valid, h1) = guard-eq-some _ _ h in
      let (allowed, h2) = guard-eq-some _ _ h1 in
      let (ca_cert, ca_read, h3) = >>=-eq-some (ca_path b cfg.ca_cert_path) _ h2 in
      let (csr, csr_read, h4) = >>=-eq-some (load_csr b csr_pem) _ h3 in
      let (key, csr_ok, h5) = >>=-eq-some (verify_csr b csr) _ h4 in
      let (t, built, h6) = >>=-eq-some (build_unsigned_cert b cfg id ca_cert key) _ h5 in
      let (tbs, encoded, h7) = >>=-eq-some (encode_template b t) _ h6 in
      let (sig, signed, h8) = >>=-eq-some (b.kms_sign cfg (b.sha256 tbs)) _ h7 in
      let (der, assembled, h9) = >>=-eq-some (assemble_certificate_der b tbs sig) _ h8 in
      let (u, checked, h10) = >>=-eq-some (verify_issued_cert b der ca_cert) _ h9 in
      let (key_read, possession) = verify_csr_eq csr key csr_ok in
      let (serial, drawn, filled) = build_eq cfg id ca_cert key t built in
      let (bytes, random, is_serial) = set_random_serial_eq b serial drawn in
      let (alg, bit, ea, eb, is_der) = assemble_eq tbs sig der assembled in
      let (cert, ca_key, parsed, ca_key_read, verified) = verify_issued_eq der ca_cert checked in
      let (cert', parsed', printed) = der_to_pem_eq der pem h10 in
      let same = some_eq cert' cert (sym parsed' ∙ parsed) in
      record {
        valid = valid;
        allowed = allowed;
        ca_cert = ca_cert;
        csr = csr;
        key = key;
        template = t;
        tbs = tbs;
        sig = sig;
        alg = alg;
        bit = bit;
        cert = cert;
        ca_key = ca_key;
        bytes = bytes;
        drawn = random;
        filled =
            sym (template_of-fields_of b cfg id ca_cert key bytes)
            ∙ ap (template_of b cfg id ca_cert key) is_serial
            ∙ filled;
        ca_read = ca_read;
        csr_read = load_csr_eq csr_pem csr csr_read;
        key_read = key_read;
        possession = possession;
        tbs_encoded = encode_template_eq t tbs encoded;
        signed = signed;
        alg_encoded = ea;
        bit_encoded = eb;
        parsed = rw is_der parsed;
        ca_key_read = ca_key_read;
        verified = verified;
        printed = subst (λ c. b.write_pem c ≡ some pem) same printed;
      }
