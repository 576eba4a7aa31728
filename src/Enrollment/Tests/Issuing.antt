-- ===== src/Enrollment/Tests/Issuing.antt =====
-- Issuing a certificate with a backend that copies its inputs.
use nirantara.Common.{
  ℕ, subst, ◌<◌, ◌≤◌, ◌≡◌, ◌↔◌, refl, true, some, List, [], ◌∷◌, ◌++◌, All, length, arith,
}
use nirantara.Common.Text.{Bytes, codes, equal}
use nirantara.Enrollment.Config.{Config, zeroed, device_allowed}
use nirantara.Enrollment.Certificate.{
  Backend, valid_device_id, issue_certificate, build_unsigned_cert, verify_csr, encode_template,
  assemble_certificate_der, encode_alg_der, encode_signature_bitstring_der, verify_issued_cert,
  der_to_pem, ca_path,
}
use nirantara.Enrollment.Certificate.DeviceId.{IsIdChar, valid_device_id_iff}
use nirantara.Enrollment.Certificate.Issue.{Grounds, issue_sound}
use nirantara.Enrollment.Certificate.Issuing.{IsWorking, issue_certificate_iff}
use nirantara.Common.Options.{some_eq}
use nirantara.Enrollment.Der.{write_der_len, write_cert_der, cert_der_len}
use nirantara.Enrollment.Der.Assembly.{
  read_sequence, length-write_cert_der, read_sequence-write_cert_der,
}
use nirantara.Enrollment.Der.Length.{read_der_len, read_der_len-write_der_len}

-- The value of the first entry of a name.
abbrev pub name_of : List (Bytes × Bytes) → Bytes
name_of [] = []
name_of ((field, value) ∷ entries) = value

-- A certificate is its bytes, and a key is a number.
abbrev pub backend : Backend
backend = record {
  Cert = Bytes;
  Csr = Bytes;
  Name = Bytes;
  Key = ℕ;
  read_cert_file = λ path. some (codes "CA");
  read_csr = λ pem. some pem;
  csr_public_key = λ csr. some (length csr);
  csr_verifies = λ csr key. true;
  subject_name = λ cert. cert;
  cert_public_key = λ cert. some 1;
  random = some (0x80 ∷ 7 ∷ []);
  succeeds = λ call. true;
  keygen = some 9;
  encode_tbs = λ template. some (name_of template.subject);
  sha256 = λ bytes. bytes;
  kms_sign = λ cfg digest. some digest;
  encode_algorithm = some (5 ∷ []);
  encode_bit_string = λ sig. some (3 ∷ sig);
  read_der = λ der. some der;
  cert_verifies = λ cert key. true;
  write_pem = λ cert. some cert;
  has_memory = λ n. true;
}

abbrev pub config : Config
config = record zeroed {
  ca_cert_path = some (codes "ca.pem");
  allowed_devices = codes "d1" ∷ [];
  cert_ttl_days = 2;
}

issue_d1 :
    issue_certificate backend config (some (codes "d1")) (codes "csr")
    ≡ some (0x30 ∷ 6 ∷ codes "d1" ++ (5 ∷ 3 ∷ codes "d1"))
unfolding issue_certificate device_allowed equal ca_path verify_csr build_unsigned_cert
    encode_template assemble_certificate_der encode_alg_der encode_signature_bitstring_der
    verify_issued_cert der_to_pem write_cert_der write_der_len
issue_d1 = refl

issue_sound_example :
    Grounds backend config
      (codes "d1")
      (codes "csr")
      (0x30 ∷ 6 ∷ codes "d1" ++ (5 ∷ 3 ∷ codes "d1"))
issue_sound_example = issue_sound backend config (codes "d1") (codes "csr") _ issue_d1

-- The same with encodings that are not empty.
abbrev filled : Backend
filled = record backend { encode_tbs = λ template. some (1 ∷ name_of template.subject) }

tbs_filled : (s tbs : Bytes) → some (1 ∷ s) ≡ some tbs → 0 < length tbs
tbs_filled s tbs h = subst (λ t. 0 < length t) (some_eq _ _ h) (omega arith)

filled-IsWorking : IsWorking filled
filled-IsWorking = record {
  memory = λ n. refl;
  calls = λ call. refl;
  seed = 9;
  seed_drawn = refl;
  tbs_filled = λ t. tbs_filled (name_of t.subject);
  alg_filled = λ alg h. subst (λ t. 0 < length t) (some_eq (5 ∷ []) alg h) (omega arith);
  bit_filled = λ sig bit h. subst (λ t. 0 < length t) (some_eq (3 ∷ sig) bit h) (omega arith);
}

issue_certificate_iff_example :
    (issue_certificate filled config (some (codes "d1")) (codes "csr")
      ≡ some (0x30 ∷ 8 ∷ 1 ∷ codes "d1" ++ (5 ∷ 3 ∷ 1 ∷ codes "d1")))
    ↔ Grounds filled config
        (codes "d1")
        (codes "csr")
        (0x30 ∷ 8 ∷ 1 ∷ codes "d1" ++ (5 ∷ 3 ∷ 1 ∷ codes "d1"))
issue_certificate_iff_example =
    issue_certificate_iff filled config (codes "d1") (codes "csr")
      (0x30 ∷ 8 ∷ 1 ∷ codes "d1" ++ (5 ∷ 3 ∷ 1 ∷ codes "d1")) filled-IsWorking

valid_device_id_iff_example :
    (valid_device_id (some (codes "a/b")) ≡ true)
    ↔ ((1 ≤ 3) × (3 ≤ 128) × All IsIdChar (codes "a/b"))
valid_device_id_iff_example = valid_device_id_iff (codes "a/b")

read_der_len-write_der_len_example : read_der_len (write_der_len 300 ++ 9 ∷ []) ≡ some (300, 9 ∷ [])
read_der_len-write_der_len_example = read_der_len-write_der_len 300 (9 ∷ []) (omega arith)

length-write_cert_der_example :
    length (write_cert_der (1 ∷ []) (2 ∷ []) (3 ∷ [])) ≡ cert_der_len (1 ∷ []) (2 ∷ []) (3 ∷ [])
length-write_cert_der_example = length-write_cert_der (1 ∷ []) (2 ∷ []) (3 ∷ [])

read_sequence-write_cert_der_example :
    read_sequence (write_cert_der (1 ∷ []) (2 ∷ []) (3 ∷ [])) ≡ some (1 ∷ 2 ∷ 3 ∷ [])
read_sequence-write_cert_der_example =
    read_sequence-write_cert_der (1 ∷ []) (2 ∷ []) (3 ∷ []) (omega arith)
