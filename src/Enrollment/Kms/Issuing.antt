-- ===== src/Enrollment/Kms/Issuing.antt =====
-- The issuing of certificates with the client of KMS behind it.
use nirantara.Common.{ℕ, ◌≡◌, sym, ◌∙◌, true, false, some, length, All, arith}
use nirantara.Common.Text.{Bytes}
use nirantara.Enrollment.Config.{Config}
use nirantara.Enrollment.Certificate.{Backend, issue_certificate}
use nirantara.Enrollment.Certificate.Issue.{issue_sound}
use nirantara.Enrollment.Der.{write_cert_der}
use nirantara.Enrollment.Kms.{Crypto, must_escape}
use nirantara.Enrollment.Kms.Sign.{Service, sign_sha256_digest}
use nirantara.Enrollment.Kms.Signature.{Base64Of}
use nirantara.Enrollment.Kms.Posting.{Exchange, sign_sha256_digest_sound}

module _ (c : Crypto) (service : Service) (memory : (n : ℕ) → c.has_memory n ≡ true) where
  -- With this client of KMS behind the issuing, a certificate is issued only after such an exchange
  -- for the digest of its signed part, and the certificate holds the signature of the reply; for the
  -- key ids, digests and memory as there, and digests of 32 bytes.
  pub issue_certificate-sign_sha256_digest :
      (b : Backend) (cfg : Config) (key_id id csr_pem pem : Bytes)
      → ((digest : Bytes) → b.kms_sign cfg digest ≡ sign_sha256_digest c service cfg digest)
      → ((bytes : Bytes) → length (b.sha256 bytes) ≡ 32)
      → ((bytes : Bytes) → Base64Of c (b.sha256 bytes))
      → cfg.kms_key_id ≡ some key_id
      → All (λ ch. must_escape ch ≡ false) key_id
      → issue_certificate b cfg (some id) csr_pem ≡ some pem
      → (tbs : Bytes) × (alg : Bytes) × (sig : Bytes) × (bit : Bytes) × (cert : b.Cert) × Exchange c
          service cfg key_id
          (b.sha256 tbs)
          sig
        × (b.encode_bit_string sig ≡ some bit)
        × (b.read_der (write_cert_der tbs alg bit) ≡ some cert)
        × (b.write_pem cert ≡ some pem)
  issue_certificate-sign_sha256_digest b cfg key_id id csr_pem pem signs long laws keyed plain h =
      let g = issue_sound b cfg id csr_pem pem h in
      let exchange =
        sign_sha256_digest_sound c service memory cfg key_id (b.sha256 g.tbs) g.sig keyed plain
          (laws g.tbs) (omega (arith, long g.tbs)) (omega (arith, long g.tbs))
          (sym (signs (b.sha256 g.tbs)) ∙ g.signed) in
      (g.tbs, g.alg, g.sig, g.bit, g.cert, exchange, g.bit_encoded, g.parsed, g.printed)
