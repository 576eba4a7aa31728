-- ===== src/Net/Client.antt =====
-- lib/nirantara-net/: the context of a client (include/nirantara/internal.h), what the library calls
-- of OpenSSL, and src/tls.c and src/keystore.c.
pub mod Csr
pub mod Mqtt
pub mod Api
pub mod Enrolling
use nirantara.Common.{
  ℕ, zero, suc, ◌+◌, ◌-◌, Bool, true, false, not, ◌&&◌, Option, none, some, List, [], ◌∷◌, leb,
  ◌==◌, if◌then◌else◌, length, take,
}
use nirantara.Common.Options.{◌>>=◌, ◌>>◌, guard}
use nirantara.Common.Text.{Bytes, codes}
use nirantara.Net.Enroll.{
  Error, err_param, err_mem, err_tls, err_mqtt, err_enroll, err_keystore, err_io, err_proto,
  Outcome, accepted, failed,
}

-- `nr_config_t`
pub record ClientConfig : Type 0 where
  pub server_ip : Bytes
  pub mqtt_port : ℕ
  pub enroll_port : ℕ
  pub keepalive_sec : ℕ
  pub ca_cert_pem : Bytes

-- NR_MAX_PEM_LEN, NR_MAX_SUBSCRIPTIONS and the size of a topic
abbrev pub max_pem_len : ℕ
max_pem_len = 8192

abbrev pub max_subscriptions : ℕ
max_subscriptions = 16

abbrev pub topic_size : ℕ
topic_size = 256

-- `nr_sub_slot_t`, with the addresses of the callback and of its data.
pub record SubSlot : Type 0 where
  pub topic : Bytes
  pub cb : ℕ
  pub userdata : ℕ
  pub active : Bool

-- The objects of OpenSSL, and the certificate that stands in a PEM text.
pub record Objects : Type 1 where
  pub Key : Type 0
  pub Csr : Type 0
  pub Cert : Type 0
  pub cert_in : Bytes → Option Cert

-- What the library calls of OpenSSL, by what the calls come to: `SSL_CTX_new`,
-- `SSL_CTX_set_min_proto_version`, `BIO_new_mem_buf` and `BIO_new`, `PEM_read_bio_X509`,
-- `X509_STORE_add_cert`; the steps of the generation of a key, `PEM_write_bio_PrivateKey`; and the
-- steps of a request, of which `sign_req` has the common name and the key.
pub record OpenSsl (lib : Objects) : Type 0 where
  pub new_ctx : Bool
  pub sets_min_version : ℕ → Bool
  pub new_bio : Bool
  pub reads_cert : Bool
  pub add_cert : lib.Cert → Bool
  pub new_key_ctx : Bool
  pub keygen_init : Bool
  pub sets_curve : Bool
  pub keygen : Option lib.Key
  pub write_key : lib.Key → Option Bytes
  pub new_req : Bool
  pub add_entry : Bytes → Bytes → Bool
  pub set_pubkey : lib.Key → Bool
  pub sign_req : Bytes → lib.Key → Option lib.Csr
  pub dup_req : lib.Csr → Option lib.Csr
  pub write_req : lib.Csr → Option Bytes

-- What is set of an `SSL_CTX`.
pub record SslCtx (lib : Objects) : Type 0 where
  pub min_version : ℕ
  pub trusted : List lib.Cert
  pub verifies_peer : Bool

-- `struct nr_ctx`
pub record ClientContext (lib : Objects) : Type 0 where
  pub cfg : ClientConfig
  pub ssl_ctx : Option (SslCtx lib)
  pub keypair : Option lib.Key
  pub csr : Option lib.Csr
  pub client_cert_pem : Bytes
  pub has_mosq : Bool
  pub mqtt_connected : Bool
  pub subs : List SubSlot
  pub initialised : Bool

-- A result code, `none` for NR_OK.
abbrev pub Code : Type 0
Code = Option Error

abbrev pub set {ℓ} : {A : Type ℓ} → Option A → Bool
set none = false
set (some _) = true

abbrev pub tls1_2_version : ℕ
tls1_2_version = 0x0303

module _ {lib : Objects} (o : OpenSsl lib) where
  open o use {
    new_ctx, sets_min_version, new_bio, reads_cert, add_cert, new_key_ctx, keygen_init, sets_curve,
    keygen, write_key,
  }

  -- The context that `nr__tls_init_ctx` builds for a CA.
  unfoldable pub pinned_ctx : Bytes → Option (SslCtx lib)
  pinned_ctx ca_cert_pem = do
    guard new_ctx
    guard (sets_min_version tls1_2_version)
    guard new_bio
    guard reads_cert
    ca ← lib.cert_in ca_cert_pem
    guard (add_cert ca)
    some (record { min_version = tls1_2_version; trusted = ca ∷ []; verifies_peer = true })

  abbrev pub keep_ctx : Option (SslCtx lib) → ClientContext lib → Code × ClientContext lib
  keep_ctx none ctx = (some err_tls, ctx)
  keep_ctx (some ssl_ctx) ctx = (none, record ctx { ssl_ctx = some ssl_ctx })

  unfoldable pub tls_init_ctx : ClientContext lib → Code × ClientContext lib
  unfolding pinned_ctx
  tls_init_ctx ctx = keep_ctx (pinned_ctx ctx.cfg.ca_cert_pem) ctx

  abbrev pub tls_free_ctx : ClientContext lib → ClientContext lib
  tls_free_ctx ctx = record ctx { ssl_ctx = none }

  unfoldable pub generated : Option lib.Key
  generated = do guard new_key_ctx; guard keygen_init; guard sets_curve; keygen

  abbrev pub keep_key : Option lib.Key → ClientContext lib → Code × ClientContext lib
  keep_key none ctx = (some err_keystore, ctx)
  keep_key (some key) ctx = (none, record ctx { keypair = some key })

  unfoldable pub keystore_generate_ec : ClientContext lib → Code × ClientContext lib
  unfolding generated
  keystore_generate_ec ctx = keep_key generated ctx

  -- A text for a buffer of that size.
  abbrev pub copied_pem : Error → ℕ → Option Bytes → Outcome
  copied_pem error buf_len none = failed error
  copied_pem error buf_len (some pem) =
      if leb buf_len (length pem) then failed err_mem else accepted pem

  abbrev pub pem_of_key : Option lib.Key → ℕ → Outcome
  pem_of_key none buf_len = failed err_keystore
  pem_of_key (some key) buf_len =
      if not new_bio then failed err_mem else copied_pem err_keystore buf_len (write_key key)

  unfoldable pub keystore_pem_privkey : ClientContext lib → ℕ → Outcome
  keystore_pem_privkey ctx buf_len = pem_of_key ctx.keypair buf_len

  abbrev pub keystore_free : ClientContext lib → ClientContext lib
  keystore_free ctx = record ctx { keypair = none }

unfoldable pub strerror : Code → Bytes
strerror none = codes "Success"
strerror (some err_param) = codes "Invalid parameter"
strerror (some err_mem) = codes "Memory allocation failed"
strerror (some err_tls) = codes "TLS / OpenSSL error"
strerror (some err_mqtt) = codes "MQTT error"
strerror (some err_enroll) = codes "Enrollment failed"
strerror (some err_keystore) = codes "Key generation / serialisation error"
strerror (some err_io) = codes "I/O error"
strerror (some err_proto) = codes "Unexpected server response"
