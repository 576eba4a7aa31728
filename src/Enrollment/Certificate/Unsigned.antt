-- ===== src/Enrollment/Certificate/Unsigned.antt =====
-- enrollment/src/enrollment.c: what the service calls of OpenSSL, and the certificate that
-- `build_unsigned_cert` fills in.
use Prim.Native.Nat.{bit_and}
use Prim.Native.String.{String}
use nirantara.Common.{ℕ, ◌*◌, ◌%◌, ◌^◌, Bool, Option, some, List, [], ◌∷◌, ◌==◌, if◌then◌else◌}
use nirantara.Common.Options.{◌>>=◌, ◌>>◌, guard}
use nirantara.Common.Text.{Bytes, codes}
use nirantara.Enrollment.Config.{Config}

-- `set_random_serial` on the 16 bytes of RAND_bytes: the top bit is cleared, so that the number is
-- not negative, and the first byte is not left at zero.
unfoldable pub serial_of : Bytes → Bytes
serial_of [] = []
serial_of (b ∷ bs) = let b' = bit_and b 0x7f in (if b' == 0 then 1 else b') ∷ bs

-- The fields that `build_unsigned_cert` sets, over OpenSSL's types of names and keys. Times are
-- seconds from the moment of issue.
pub record Template (Name Key : Type 0) : Type 0 where
  pub version : ℕ
  pub serial : Bytes
  pub issuer : Name
  pub public_key : Key
  pub subject : List (Bytes × Bytes)
  pub not_before : ℕ
  pub not_after : ℕ
  pub extensions : List (String × String)

-- The calls of OpenSSL that only succeed or fail, with what they set: `X509_new` and its setters, the
-- conversions of the serial number, the entries of a name, the extensions, the steps before
-- `EVP_PKEY_keygen`, `X509_sign` with the throw-away key, and the BIOs.
pub data CertCall (Name Key : Type 0) : Type 0 where
  x509_new bn_bin2bn bn_to_asn1 name_new key_ctx_new keygen_init set_curve bio_new bio_new_mem_buf :
      CertCall Name Key
  set_version set_not_before set_not_after : ℕ → CertCall Name Key
  set_serial : Bytes → CertCall Name Key
  set_issuer : Name → CertCall Name Key
  set_pubkey : Key → CertCall Name Key
  add_entry : Bytes → Bytes → CertCall Name Key
  set_subject : List (Bytes × Bytes) → CertCall Name Key
  ext_conf add_ext : String → String → CertCall Name Key
  x509_sign : Key → CertCall Name Key

-- OpenSSL, the file system and KMS as the service uses them. `none` is a null pointer or an error
-- code. An operation that allocates may fail for want of memory: that is part of its result.
pub record Backend : Type 1 where
  pub Cert : Type 0
  pub Csr : Type 0
  pub Name : Type 0
  pub Key : Type 0
  -- fopen and PEM_read_X509, by the path
  pub read_cert_file : Bytes → Option Cert
  -- BIO_new_mem_buf and PEM_read_bio_X509_REQ
  pub read_csr : Bytes → Option Csr
  pub csr_public_key : Csr → Option Key
  -- X509_REQ_verify is 1
  pub csr_verifies : Csr → Key → Bool
  pub subject_name : Cert → Name
  pub cert_public_key : Cert → Option Key
  -- the 16 bytes of RAND_bytes
  pub random : Option Bytes
  pub succeeds : CertCall Name Key → Bool
  -- EVP_PKEY_keygen
  pub keygen : Option Key
  -- i2d_re_X509_tbs
  pub encode_tbs : Template Name Key → Option Bytes
  pub sha256 : Bytes → Bytes
  -- nr_kms_sign_sha256_digest
  pub kms_sign : Config → Bytes → Option Bytes
  -- i2d_X509_ALGOR of ecdsa-with-SHA256, and i2d_ASN1_BIT_STRING of a signature
  pub encode_algorithm : Option Bytes
  pub encode_bit_string : Bytes → Option Bytes
  -- d2i_X509, X509_verify and PEM_write_bio_X509
  pub read_der : Bytes → Option Cert
  pub cert_verifies : Cert → Key → Bool
  pub write_pem : Cert → Option Bytes
  -- `malloc` of so many bytes
  pub has_memory : ℕ → Bool

abbrev pub extensions_of_client : List (String × String)
extensions_of_client =
    ("basicConstraints", "critical,CA:FALSE")
    ∷ ("keyUsage", "critical,digitalSignature")
    ∷ ("extendedKeyUsage", "clientAuth")
    ∷ ("subjectKeyIdentifier", "hash")
    ∷ ("authorityKeyIdentifier", "keyid:always")
    ∷ []

-- The entries of the name.
abbrev pub subject_of : Bytes → List (Bytes × Bytes)
subject_of device_id = (codes "CN", device_id) ∷ (codes "O", codes "Nirantara") ∷ []

module _ (b : Backend) where
  open b use {
    Cert, Csr, Name, Key, read_cert_file, read_csr, csr_public_key, csr_verifies, subject_name,
    cert_public_key, random, succeeds, keygen, encode_tbs, sha256, kms_sign, encode_algorithm,
    encode_bit_string, read_der, cert_verifies, write_pem, has_memory,
  }

  unfoldable pub build_subject_name : Bytes → Option (List (Bytes × Bytes))
  build_subject_name device_id = do
    guard (succeeds name_new)
    guard (succeeds (add_entry (codes "CN") device_id))
    guard (succeeds (add_entry (codes "O") (codes "Nirantara")))
    some (subject_of device_id)

  -- The serial number that is set.
  unfoldable pub set_random_serial : Option Bytes
  unfolding serial_of
  set_random_serial = do
    bytes ← random
    guard (succeeds bn_bin2bn)
    guard (succeeds bn_to_asn1)
    guard (succeeds (set_serial (serial_of bytes)))
    some (serial_of bytes)

  abbrev pub add_extension : String × String → Option (Unit {0})
  add_extension (nid, value) = do
    guard (succeeds (ext_conf nid value))
    guard (succeeds (add_ext nid value))

  -- The chain of calls of `add_extension`.
  unfoldable pub add_extensions : List (String × String) → Option (Unit {0})
  add_extensions [] = some tt
  add_extensions (ext ∷ exts) = add_extension ext >> add_extensions exts

  unfoldable pub generate_algorithm_seed_key : Option Key
  generate_algorithm_seed_key = do
    guard (succeeds key_ctx_new)
    guard (succeeds keygen_init)
    guard (succeeds set_curve)
    keygen

  -- The 64 bits of `cfg->cert_ttl_days * 24L * 60L * 60L`. For more than 2 ^ 63 the signed product
  -- overflows, which C leaves undefined; it wraps around here.
  abbrev pub lifetime_of : Config → ℕ
  lifetime_of cfg = cfg.cert_ttl_days * 24 * 60 * 60 % 2 ^ 64

  abbrev pub template_of : Config → Bytes → Cert → Key → Bytes → Template Name Key
  template_of cfg device_id ca_cert device_key serial = record {
    version = 2;
    serial = serial;
    issuer = subject_name ca_cert;
    public_key = device_key;
    subject = subject_of device_id;
    not_before = 0;
    not_after = lifetime_of cfg;
    extensions = extensions_of_client;
  }

  unfoldable pub build_unsigned_cert : Config → Bytes → Cert → Key → Option (Template Name Key)
  unfolding set_random_serial build_subject_name add_extensions generate_algorithm_seed_key
  build_unsigned_cert cfg device_id ca_cert device_key = do
    guard (succeeds x509_new)
    guard (succeeds (set_version 2))
    serial ← set_random_serial
    guard (succeeds (set_issuer (subject_name ca_cert)))
    guard (succeeds (set_pubkey device_key))
    subject ← build_subject_name device_id
    guard (succeeds (set_subject subject))
    guard (succeeds (set_not_before 0))
    guard (succeeds (set_not_after (lifetime_of cfg)))
    add_extensions extensions_of_client
    seed_key ← generate_algorithm_seed_key
    guard (succeeds (x509_sign seed_key))
    some (record (template_of cfg device_id ca_cert device_key serial) { subject = subject })
