-- ===== src/Enrollment/Certificate.antt =====
-- enrollment/src/enrollment.c: the check of a device id and `nr_enrollment_issue_certificate`.
pub mod Unsigned
pub mod DeviceId
pub mod Issue
pub mod Issuing
unfoldable pub use Unsigned.*
use Prim.Native.Nat.{bit_and}
use Prim.Native.String.{String}
use nirantara.Common.{
  ℕ, ◌+◌, ◌*◌, ◌%◌, Bool, true, false, not, ◌&&◌, ◌||◌, Option, none, some, List, [], ◌∷◌, ◌++◌,
  ltb, ◌==◌, if◌then◌else◌, length,
}
use nirantara.Common.Options.{◌>>=◌, ◌>>◌, guard}
use nirantara.Common.Text.{Bytes, codes, is_alnum, equal}
use nirantara.Enrollment.Config.{Config, device_allowed}
use nirantara.Enrollment.Der.{write_cert_der}
use nirantara.Enrollment.Certificate.Unsigned.{Backend, Template, build_unsigned_cert}

-- MAX_DEVICE_ID_LEN
abbrev pub max_device_id_len : ℕ
max_device_id_len = 128

abbrev pub is_id_char : ℕ → Bool
is_id_char ch = is_alnum ch || ch == b'-' || ch == b'_' || ch == b'.' || ch == b':'

-- The loop over the characters.
unfoldable pub all_id_chars : Bytes → Bool
all_id_chars [] = true
all_id_chars (ch ∷ id) = is_id_char ch && all_id_chars id

unfoldable pub valid_device_id : Option Bytes → Bool
unfolding all_id_chars
valid_device_id none = false
valid_device_id (some id) =
    if length id == 0 || ltb max_device_id_len (length id) then false else all_id_chars id

module _ (b : Backend) where
  open b use {
    Cert, Csr, Name, Key, read_cert_file, read_csr, csr_public_key, csr_verifies, subject_name,
    cert_public_key, random, succeeds, keygen, encode_tbs, sha256, kms_sign, encode_algorithm,
    encode_bit_string, read_der, cert_verifies, write_pem, has_memory,
  }

  unfoldable pub verify_csr : Csr → Option Key
  verify_csr csr = do key ← csr_public_key csr; guard (csr_verifies csr key); some key

  unfoldable pub load_csr : Bytes → Option Csr
  load_csr csr_pem = do guard (succeeds bio_new_mem_buf); read_csr csr_pem

  -- The encoders give the length, then `malloc`, then the bytes.
  unfoldable pub allocated : Bytes → Option Bytes
  allocated der = do guard (not (length der == 0) && has_memory (length der)); some der

  unfoldable pub encode_alg_der : Option Bytes
  unfolding allocated
  encode_alg_der = do der ← encode_algorithm; allocated der

  unfoldable pub encode_signature_bitstring_der : Bytes → Option Bytes
  unfolding allocated
  encode_signature_bitstring_der sig = do der ← encode_bit_string sig; allocated der

  -- `i2d_re_X509_tbs` for the length, `malloc`, and `i2d_re_X509_tbs` again for the bytes.
  unfoldable pub encode_template : Template Name Key → Option Bytes
  unfolding allocated
  encode_template template = do tbs ← encode_tbs template; allocated tbs

  unfoldable pub assemble_certificate_der : Bytes → Bytes → Option Bytes
  assemble_certificate_der tbs sig = do
    alg ← encode_alg_der
    bit ← encode_signature_bitstring_der sig
    guard (has_memory (length (write_cert_der tbs alg bit)))
    some (write_cert_der tbs alg bit)

  unfoldable pub verify_issued_cert : Bytes → Cert → Option (Unit {0})
  verify_issued_cert der ca_cert = do
    cert ← read_der der
    key ← cert_public_key ca_cert
    guard (cert_verifies cert key)

  unfoldable pub der_to_pem : Bytes → Option Bytes
  der_to_pem der = do
    cert ← read_der der
    guard (succeeds bio_new)
    pem ← write_pem cert
    guard (has_memory (length pem + 1))
    some pem

  unfoldable pub ca_path : Option Bytes → Option Cert
  ca_path none = none
  ca_path (some path) = read_cert_file path

  -- `nr_enrollment_issue_certificate`; `none` is the result -1.
  unfoldable pub issue_certificate : Config → Option Bytes → Bytes → Option Bytes
  unfolding valid_device_id load_csr
  issue_certificate cfg none csr_pem = none
  issue_certificate cfg (some device_id) csr_pem = do
    guard (valid_device_id (some device_id))
    guard (device_allowed cfg device_id)
    ca_cert ← ca_path cfg.ca_cert_path
    csr ← load_csr csr_pem
    key ← verify_csr csr
    template ← build_unsigned_cert b cfg device_id ca_cert key
    tbs ← encode_template template
    sig ← kms_sign cfg (sha256 tbs)
    der ← assemble_certificate_der tbs sig
    verify_issued_cert der ca_cert
    der_to_pem der
