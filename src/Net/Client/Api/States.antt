-- ===== src/Net/Client/Api/States.antt =====
-- The states that a program brings a client to: what the calls of the library and of its callbacks
-- make of the context and of the temporary files.
use nirantara.Common.{some, [], ◌∷◌, ℕ, ◌<◌, ◌≡◌, ◌≢◌, true, false, Option, none, length, All}
use nirantara.Common.Text.{Bytes}
use nirantara.Net.Enroll.{Connection}
use nirantara.Net.Client.{
  OpenSsl, Objects, ClientConfig, ClientContext, SubSlot, set, max_pem_len, max_subscriptions,
  topic_size, SslCtx, tls1_2_version,
}
use nirantara.Net.Client.Mqtt.{
  Mosquitto, TempFiles, Unlinks, on_connect, on_disconnect, mqtt_disconnect,
}
use nirantara.Net.Client.Api.{
  create, init, generate_keypair, get_csr_pem, enroll, connect, subscribe,
}

-- The context that trusts the certificate in a PEM text alone.
abbrev pub trusting_cert : (lib : Objects) → Option lib.Cert → Option (SslCtx lib)
trusting_cert lib none = none
trusting_cert lib (some ca) =
    some (record { min_version = tls1_2_version; trusted = ca ∷ []; verifies_peer = true })

abbrev pub trusting : (lib : Objects) → Bytes → Option (SslCtx lib)
trusting lib pem = trusting_cert lib (lib.cert_in pem)

pub record State (lib : Objects) : Type 0 where
  pub ctx : ClientContext lib
  pub files : TempFiles

module _ (lib : Objects) where
  -- One call, with what the libraries and the system come to in it. `libmosquitto` only calls back on
  -- a client that there is.
  pub data Step : State lib → State lib → Type 0 where
    init_call :
        (o : OpenSsl lib) (cfg : ClientConfig) {s : State lib}
        → Step s (record s { ctx = (init o cfg s.ctx).1 })
    generate_call :
        (o : OpenSsl lib) {s : State lib} → Step s (record s { ctx = (generate_keypair o s.ctx).1 })
    csr_call :
        (o : OpenSsl lib) (device_id : Option Bytes) (csr_out_len : ℕ) {s : State lib}
        → Step s (record s { ctx = (get_csr_pem o s.ctx device_id csr_out_len).1 })
    enroll_call :
        (o : OpenSsl lib) (c : Connection) (device_id : Option Bytes) (cert_out_len : ℕ)
        {s : State lib}
        → Step s (record s { ctx = (enroll o c s.ctx device_id cert_out_len).1 })
    connect_call :
        (o : OpenSsl lib) (m : Mosquitto) (cert key : Option Bytes) {s : State lib}
        → Step s (record {
          ctx = (connect o m s.ctx cert key s.files).1;
          files = (connect o m s.ctx cert key s.files).2;
        })
    subscribe_call :
        (o : OpenSsl lib) (m : Mosquitto) (topic : Option Bytes) (cb userdata : ℕ) {s : State lib}
        → Step s (record s { ctx = (subscribe o m s.ctx topic cb userdata).1 })
    disconnect_call :
        (o : OpenSsl lib) (unlinks : Unlinks) {s : State lib}
        → Step s (record {
          ctx = (mqtt_disconnect o unlinks s.ctx s.files).0;
          files = (mqtt_disconnect o unlinks s.ctx s.files).1;
        })
    connect_event :
        (o : OpenSsl lib) (rc : ℕ) {s : State lib}
        → s.ctx.has_mosq ≡ true
        → Step s (record s { ctx = on_connect o rc s.ctx })
    disconnect_event :
        (o : OpenSsl lib) (rc : ℕ) {s : State lib}
        → s.ctx.has_mosq ≡ true
        → Step s (record s { ctx = on_disconnect o rc s.ctx })

  -- From `nr_create`, with no temporary files.
  pub data Reachable : State lib → Type 0 where
    created :
        (o : OpenSsl lib)
        → Reachable
            (record { ctx = create o; files = record { cert = none; key = none; ca = none } })
    stepped : {s t : State lib} → Reachable s → Step s t → Reachable t

  -- What holds of a client between two calls.
  pub record IsSound (s : State lib) : Type 0 where
    pub pinned : s.ctx.initialised ≡ true → s.ctx.ssl_ctx ≡ trusting lib s.ctx.cfg.ca_cert_pem
    pub secured : s.ctx.initialised ≡ true → set s.ctx.ssl_ctx ≡ true
    pub has_mqtt_port : s.ctx.initialised ≡ true → 0 < s.ctx.cfg.mqtt_port
    pub has_enroll_port : s.ctx.initialised ≡ true → 0 < s.ctx.cfg.enroll_port
    pub keyed : set s.ctx.keypair ≡ true → s.ctx.initialised ≡ true
    pub requested : set s.ctx.csr ≡ true → set s.ctx.keypair ≡ true
    pub linked : s.ctx.mqtt_connected ≡ true → s.ctx.has_mosq ≡ true
    pub opened : s.ctx.has_mosq ≡ true → s.ctx.initialised ≡ true
    pub slots : length s.ctx.subs ≡ max_subscriptions
    pub callable : All (λ (slot : SubSlot). slot.active ≡ true → slot.cb ≢ 0) s.ctx.subs
    pub topics_fit : All (λ (slot : SubSlot). length slot.topic < topic_size) s.ctx.subs
    pub cert_fits : length s.ctx.client_cert_pem < max_pem_len
    pub no_key_file : s.ctx.has_mosq ≡ false → s.files.key ≡ none
    pub no_cert_file : s.ctx.has_mosq ≡ false → s.files.cert ≡ none
    pub no_ca_file : s.ctx.has_mosq ≡ false → s.files.ca ≡ none
