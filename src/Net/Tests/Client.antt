-- ===== src/Net/Tests/Client.antt =====
-- A session of a client, with libraries that succeed and a broker that answers after three polls.
use nirantara.Common.{ℕ, ◌≡◌, refl, true, false, none, some, List, [], ◌∷◌, leb, length, arith}
use mathlib.Core.List.{Perm}
use nirantara.Common.Text.{Bytes, codes, equal}
use nirantara.Net.Client.{
  OpenSsl, Objects, ClientConfig, SubSlot, pinned_ctx, tls_init_ctx, keystore_generate_ec,
  generated, tls1_2_version,
}
use nirantara.Net.Client.Mqtt.{
  Mosquitto, Message, Call, TempFiles, mqtt_connect, wait_connected, on_message,
}
use nirantara.Net.Client.Api.{
  create, init, generate_keypair, connect, subscribe, destroy, free_slot, new_slot,
}
use nirantara.Net.Client.Api.Slots.{entries}
use nirantara.Net.Client.Api.Subscribing.{Subscribes, subscribe-Subscribes}
use nirantara.Net.Client.Api.Dispatch.{calls_of, on_message-calls_of, on_message-subscribe}
use nirantara.Net.Client.Api.States.{
  State, Reachable, IsSound, init_call, generate_call, connect_call, created, stepped,
}
use nirantara.Net.Client.Api.Invariant.{Reachable-IsSound}
use nirantara.Net.Client.Api.Sessions.{Reachable-trusted, destroy_clears, connect_succeeds}

abbrev pub objects : Objects
objects = record { Key = ℕ; Csr = Bytes; Cert = Bytes; cert_in = λ pem. some pem }

abbrev pub openssl : OpenSsl objects
openssl = record {
  new_ctx = true;
  sets_min_version = λ version. true;
  new_bio = true;
  reads_cert = true;
  add_cert = λ cert. true;
  new_key_ctx = true;
  keygen_init = true;
  sets_curve = true;
  keygen = some 7;
  write_key = λ key. some (codes "KEY");
  new_req = true;
  add_entry = λ field value. true;
  set_pubkey = λ key. true;
  sign_req = λ id key. some id;
  dup_req = λ req. some req;
  write_req = λ req. some req;
}

abbrev mosquitto : Mosquitto
mosquitto = record {
  new = true;
  matches = λ pattern topic. equal pattern topic;
  subscribe = λ topic. true;
  publish = λ topic payload len qos. true;
  opens_cert = true;
  opens_key = true;
  opens_ca = true;
  unlinks = record { cert = true; key = true; ca = true };
  tls_set = λ ca cert key. true;
  tls_opts_set = true;
  connect = λ host port keepalive. true;
  loop_start = true;
  loads = λ i. leb 3 i;
}

abbrev given_config : ClientConfig
given_config = record {
  server_ip = codes "10.0.0.1";
  mqtt_port = 0;
  enroll_port = 0;
  keepalive_sec = 0;
  ca_cert_pem = codes "CA";
}

abbrev no_files : TempFiles
no_files = record { cert = none; key = none; ca = none }

abbrev started : State objects
started = record {
  ctx = (generate_keypair openssl (init openssl given_config (create openssl)).1).1;
  files = no_files;
}

started-Reachable : Reachable objects started
started-Reachable =
    stepped (stepped (created openssl) (init_call openssl given_config)) (generate_call openssl)

abbrev session : State objects
session = record {
  ctx = (connect openssl mosquitto started.ctx (some (codes "C")) (some (codes "K")) no_files).1;
  files = (connect openssl mosquitto started.ctx (some (codes "C")) (some (codes "K")) no_files).2;
}

session-Reachable : Reachable objects session
session-Reachable =
    stepped started-Reachable (connect_call openssl mosquitto (some (codes "C")) (some (codes "K")))

Reachable-IsSound_example : IsSound objects session
Reachable-IsSound_example = Reachable-IsSound objects session session-Reachable

Reachable-trusted_example :
    (ca : Bytes) × (some (started.ctx.cfg.ca_cert_pem) ≡ some ca)
    × (started.ctx.ssl_ctx
        ≡ some (record { min_version = tls1_2_version; trusted = ca ∷ []; verifies_peer = true }))
unfolding init create tls_init_ctx pinned_ctx equal generate_keypair keystore_generate_ec generated
Reachable-trusted_example = Reachable-trusted objects started started-Reachable refl

destroy_clears_example :
    destroy openssl (record { cert = true; key = false; ca = false }) session.ctx session.files ≡ (
      record session.ctx {
        ssl_ctx = none;
        keypair = none;
        csr = none;
        client_cert_pem = [];
        has_mosq = false;
        mqtt_connected = false;
      },
      record { cert = none; key = session.files.key; ca = session.files.ca },
    )
destroy_clears_example =
    destroy_clears openssl session (record { cert = true; key = false; ca = false })
      session-Reachable

started_ready : started.ctx.initialised ≡ true
unfolding init create tls_init_ctx pinned_ctx equal generate_keypair keystore_generate_ec generated
started_ready = refl

session_up : session.ctx.mqtt_connected ≡ true
unfolding init create tls_init_ctx pinned_ctx equal generate_keypair keystore_generate_ec generated
    connect mqtt_connect wait_connected
session_up = refl

connect_succeeds_example :
    ((connect openssl mosquitto started.ctx (some (codes "C")) (some (codes "K")) no_files).0
      ≡ none)
    × (session.ctx.mqtt_connected ≡ true)
    × (session.files.key ≡ none)
    × (session.files.ca ≡ some session.ctx.cfg.ca_cert_pem)
connect_succeeds_example =
    connect_succeeds mosquitto openssl started.ctx (codes "C") (codes "K") no_files 3 started_ready
      refl refl refl refl refl refl (λ i h. ground arith) (omega arith) refl

session-slots : length session.ctx.subs ≡ 16
session-slots = (Reachable-IsSound objects session session-Reachable).slots

subscribe-Subscribes_example :
    Subscribes objects session.ctx.subs
      (new_slot (codes "t") 5 6)
      true
      (subscribe openssl mosquitto session.ctx (some (codes "t")) 5 6)
subscribe-Subscribes_example =
    subscribe-Subscribes openssl mosquitto session.ctx (codes "t") 5 6 session_up (omega arith)
      session-slots

abbrev hello : Message
hello = record { topic = codes "t"; payload = codes "hi" }

-- A callback that leaves the table of subscriptions alone.
abbrev quiet : Call → List SubSlot → List SubSlot
quiet call subs = subs

subscribed : (subscribe openssl mosquitto session.ctx (some (codes "t")) 5 6).0 ≡ none
unfolding init create tls_init_ctx pinned_ctx equal generate_keypair keystore_generate_ec generated
    connect mqtt_connect wait_connected subscribe free_slot
subscribed = refl

on_message-calls_of_example :
    on_message mosquitto quiet hello session.ctx.subs
    ≡ (calls_of mosquitto hello (entries session.ctx.subs), session.ctx.subs)
on_message-calls_of_example =
    on_message-calls_of mosquitto quiet (λ call subs. refl) hello session.ctx.subs session-slots

on_message-subscribe_example :
    Perm
      (on_message mosquitto quiet hello
        (subscribe openssl mosquitto session.ctx (some (codes "t")) 5 6).1.subs).0
      (record { cb = 5; message = hello; userdata = 6 }
        ∷ (on_message mosquitto quiet hello session.ctx.subs).0)
unfolding equal
on_message-subscribe_example =
    on_message-subscribe mosquitto quiet (λ call subs. refl) openssl session.ctx hello (codes "t") 5
      6 session_up (omega arith) session-slots (omega arith) subscribed
