-- ===== src/Net/Client/Api.antt =====
-- lib/nirantara-net/src/net.c: the functions of the library. A string that may be null is an
-- `Option`; the context and the buffers of the caller are there.
pub mod Slots
pub mod Subscribing
pub mod Dispatch
pub mod States
pub mod Keys
pub mod Broker
pub mod Invariant
pub mod Sessions
use nirantara.Common.{
  ℕ, zero, suc, ◌+◌, ◌-◌, ◌%◌, ◌^◌, Bool, true, false, not, ◌&&◌, ◌||◌, Option, none, some, List,
  [], ◌∷◌, ltb, leb, ◌==◌, if◌then◌else◌, length, take,
}
use nirantara.Common.Text.{Bytes, codes, equal}
use nirantara.Net.Enroll.{
  Error, err_param, err_mem, err_tls, err_mqtt, err_enroll, err_keystore, err_io, err_proto,
  Outcome, accepted, failed, Connection, enroll_request,
}
use nirantara.Net.Client.{
  OpenSsl, Objects, ClientConfig, ClientContext, Code, SubSlot, set, max_pem_len, max_subscriptions,
  topic_size, tls_init_ctx, tls_free_ctx, keystore_generate_ec, keystore_pem_privkey, keystore_free,
}
use nirantara.Net.Client.Csr.{enroll_build_csr}
use nirantara.Net.Client.Mqtt.{
  Mosquitto, TempFiles, Unlinks, mqtt_init, mqtt_connect, mqtt_disconnect, mqtt_free,
}

abbrev pub zeroed_config : ClientConfig
zeroed_config = record {
  server_ip = [];
  mqtt_port = 0;
  enroll_port = 0;
  keepalive_sec = 0;
  ca_cert_pem = [];
}

abbrev pub zeroed_slot : SubSlot
zeroed_slot = record { topic = []; cb = 0; userdata = 0; active = false }

abbrev pub zeroed_slots : ℕ → List SubSlot
zeroed_slots zero = []
zeroed_slots (suc n) = zeroed_slot ∷ zeroed_slots n

abbrev pub or_default : ℕ → ℕ → ℕ
or_default default n = if n == 0 then default else n

-- The configuration with its defaults.
abbrev pub with_defaults : ClientConfig → ClientConfig
with_defaults cfg = record cfg {
  mqtt_port = or_default 8883 cfg.mqtt_port;
  enroll_port = or_default 443 cfg.enroll_port;
  keepalive_sec = or_default 30 cfg.keepalive_sec;
}

-- The first slot that is not active, from the number of the first one.
unfoldable pub free_slot : ℕ → List SubSlot → Option ℕ
free_slot i [] = none
free_slot i (slot ∷ slots) =
    let later = free_slot (i + 1) slots in if not slot.active then some i else later

abbrev pub set_slot : ℕ → SubSlot → List SubSlot → List SubSlot
set_slot i new [] = []
set_slot zero new (slot ∷ slots) = new ∷ slots
set_slot (suc i) new (slot ∷ slots) = slot ∷ set_slot i new slots

-- `snprintf` to the array of the topic.
abbrev pub new_slot : Bytes → ℕ → ℕ → SubSlot
new_slot topic cb userdata = record {
  topic = take (topic_size - 1) topic;
  cb = cb;
  userdata = userdata;
  active = true;
}

abbrev pub deactivated : SubSlot → SubSlot
deactivated slot = record slot { active = false }

module _ {lib : Objects} (o : OpenSsl lib) where
  unfoldable pub create : ClientContext lib
  create = record {
    cfg = zeroed_config;
    ssl_ctx = none;
    keypair = none;
    csr = none;
    client_cert_pem = [];
    has_mosq = false;
    mqtt_connected = false;
    subs = zeroed_slots max_subscriptions;
    initialised = false;
  }

  abbrev pub end_init : Code × ClientContext lib → Code × ClientContext lib
  end_init (some error, ctx) = (some error, ctx)
  end_init (none, ctx) = (none, record ctx { initialised = true })

  unfoldable pub init : ClientConfig → ClientContext lib → Code × ClientContext lib
  unfolding tls_init_ctx equal
  init cfg ctx =
      if ctx.initialised
      then (some err_param, ctx)
      else if equal cfg.server_ip [] || equal cfg.ca_cert_pem []
      then (some err_param, ctx)
      else end_init (tls_init_ctx o (record ctx { cfg = with_defaults cfg }))

  -- What is left in the context, before its memory is freed, and the temporary files.
  unfoldable pub destroy : Unlinks → ClientContext lib → TempFiles → ClientContext lib × TempFiles
  unfolding mqtt_disconnect
  destroy unlinks ctx files =
      let (ctx', files') = mqtt_disconnect o unlinks ctx files in
      (
        record (keystore_free o (tls_free_ctx o (mqtt_free o ctx'))) {
          csr = none;
          client_cert_pem = [];
        },
        files',
      )

  unfoldable pub generate_keypair : ClientContext lib → Code × ClientContext lib
  generate_keypair ctx =
      if not ctx.initialised then (some err_param, ctx) else keystore_generate_ec o ctx

  unfoldable pub get_private_key_pem : ClientContext lib → ℕ → Outcome
  get_private_key_pem ctx buf_len =
      if ltb buf_len max_pem_len
      then failed err_param
      else if not (set ctx.keypair)
      then failed err_keystore
      else keystore_pem_privkey o ctx buf_len

  unfoldable pub get_csr_pem : ClientContext lib → Option Bytes → ℕ → Outcome × ClientContext lib
  get_csr_pem ctx none csr_out_len = (failed err_param, ctx)
  get_csr_pem ctx (some device_id) csr_out_len =
      if not (set ctx.keypair)
      then (failed err_keystore, ctx)
      else enroll_build_csr o ctx device_id csr_out_len

  -- The connection needs the `SSL_CTX` of the context.
  abbrev pub over : ClientContext lib → Connection → Connection
  over ctx c = record c { has_ssl = set ctx.ssl_ctx && c.has_ssl }

  abbrev pub cache_cert : Outcome → ClientContext lib → Outcome × ClientContext lib
  cache_cert (failed error) ctx = (failed error, ctx)
  cache_cert (accepted cert) ctx =
      if leb max_pem_len (length cert)
      then (failed err_mem, ctx)
      else (accepted cert, record ctx { client_cert_pem = cert })

  abbrev pub request_cert :
      Connection → Bytes → ℕ → Outcome × ClientContext lib → Outcome × ClientContext lib
  request_cert c device_id cert_out_len (failed error, ctx) = (failed error, ctx)
  request_cert c device_id cert_out_len (accepted csr_pem, ctx) =
      cache_cert
        (enroll_request (over ctx c) ctx.cfg.server_ip ctx.cfg.enroll_port csr_pem device_id
          cert_out_len)
        ctx

  unfoldable pub enroll :
      Connection → ClientContext lib → Option Bytes → ℕ → Outcome × ClientContext lib
  enroll c ctx none cert_out_len = (failed err_param, ctx)
  enroll c ctx (some device_id) cert_out_len =
      if not (set ctx.keypair)
      then (failed err_keystore, ctx)
      else request_cert c device_id cert_out_len (enroll_build_csr o ctx device_id max_pem_len)

  module _ (m : Mosquitto) where
    abbrev pub connect_mosq :
        Bytes → Bytes → TempFiles → Code × ClientContext lib → Code × ClientContext lib × TempFiles
    connect_mosq cert key files (some error, ctx) = (some error, ctx, files)
    connect_mosq cert key files (none, ctx) = mqtt_connect m o ctx cert key files

    unfoldable pub connect :
        ClientContext lib
        → Option Bytes
        → Option Bytes
        → TempFiles
        → Code × ClientContext lib × TempFiles
    connect ctx none key files = (some err_param, ctx, files)
    connect ctx (some cert) none files = (some err_param, ctx, files)
    connect ctx (some cert) (some key) files =
        if not ctx.initialised
        then (some err_param, ctx, files)
        else connect_mosq cert key files (mqtt_init m o ctx)

    -- `(int)len`, by its 32 bits.
    unfoldable pub publish : ClientContext lib → Option Bytes → Option Bytes → ℕ → Code
    publish ctx none payload qos = some err_param
    publish ctx (some topic) none qos = some err_param
    publish ctx (some topic) (some payload) qos =
        if not ctx.mqtt_connected
        then some err_mqtt
        else if not (m.publish topic payload (length payload % 2 ^ 32) qos)
        then some err_mqtt
        else none

    abbrev pub subscribe_in :
        ClientContext lib → Bytes → ℕ → ℕ → Option ℕ → Code × ClientContext lib
    subscribe_in ctx topic cb userdata none = (some err_param, ctx)
    subscribe_in ctx topic cb userdata (some i) =
        if m.subscribe topic
        then (none, record ctx { subs = set_slot i (new_slot topic cb userdata) ctx.subs })
        else (
          some err_mqtt,
          record ctx { subs = set_slot i (deactivated (new_slot topic cb userdata)) ctx.subs },
        )

    -- `cb` is 0 for a null pointer.
    unfoldable pub subscribe : ClientContext lib → Option Bytes → ℕ → ℕ → Code × ClientContext lib
    unfolding free_slot
    subscribe ctx none cb userdata = (some err_param, ctx)
    subscribe ctx (some topic) cb userdata =
        if cb == 0
        then (some err_param, ctx)
        else if not ctx.mqtt_connected
        then (some err_mqtt, ctx)
        else subscribe_in ctx topic cb userdata (free_slot 0 ctx.subs)
