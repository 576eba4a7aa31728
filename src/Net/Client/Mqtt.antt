-- ===== src/Net/Client/Mqtt.antt =====
-- lib/nirantara-net/src/mqtt.c: the callbacks, the temporary files, connecting and disconnecting.
use nirantara.Common.{
  concat, ℕ, zero, suc, ◌+◌, Bool, true, false, not, ◌&&◌, Option, none, some, List, [], ◌∷◌, ◌==◌,
  if◌then◌else◌,
}
use nirantara.Common.Text.{Bytes}
use nirantara.Net.Enroll.{err_mqtt, err_io}
use nirantara.Net.Client.{
  max_subscriptions, OpenSsl, Objects, ClientContext, Code, SubSlot, ClientConfig,
}

-- TMP_CERT_PATH, TMP_KEY_PATH and TMP_CA_PATH.
pub record TempFiles : Type 0 where
  pub cert : Option Bytes
  pub key : Option Bytes
  pub ca : Option Bytes

-- What `unlink` comes to for each of them; one that fails leaves the file.
pub record Unlinks : Type 0 where
  pub cert : Bool
  pub key : Bool
  pub ca : Bool

abbrev pub unlinked : Bool → Option Bytes → Option Bytes
unlinked true file = none
unlinked false file = file

-- What the calls of libmosquitto, `fopen` and `unlink` come to: `mosquitto_new`, `mosquitto_topic_matches_sub`,
-- `mosquitto_subscribe`, `mosquitto_publish` on the topic, the bytes, the 32 bits of the length and
-- the quality of service, `mosquitto_tls_set` on what is in the files of the CA, the certificate and
-- the key, and the rest in the order of the calls. `loads` is what the loop thread has made of
-- `mqtt_connected` at each load.
pub record Mosquitto : Type 0 where
  pub new : Bool
  pub matches : Bytes → Bytes → Bool
  pub subscribe : Bytes → Bool
  pub publish : Bytes → Bytes → ℕ → ℕ → Bool
  pub opens_cert : Bool
  pub opens_key : Bool
  pub opens_ca : Bool
  pub unlinks : Unlinks
  pub tls_set : Option Bytes → Bytes → Bytes → Bool
  pub tls_opts_set : Bool
  pub connect : Bytes → ℕ → ℕ → Bool
  pub loop_start : Bool
  pub loads : ℕ → Bool

pub record Message : Type 0 where
  pub topic : Bytes
  pub payload : Bytes

-- A call of a callback.
pub record Call : Type 0 where
  pub cb : ℕ
  pub message : Message
  pub userdata : ℕ

module _ {lib : Objects} (o : OpenSsl lib) where
  -- With the result code of the connection.
  unfoldable pub on_connect : ℕ → ClientContext lib → ClientContext lib
  on_connect rc ctx = record ctx { mqtt_connected = rc == 0 }

  unfoldable pub on_disconnect : ℕ → ClientContext lib → ClientContext lib
  on_disconnect rc ctx = record ctx { mqtt_connected = false }

abbrev pub call_of : Message → SubSlot → Call
call_of msg slot = record { cb = slot.cb; message = msg; userdata = slot.userdata }

abbrev pub selects : Mosquitto → Message → SubSlot → Bool
selects m msg slot = slot.active && m.matches slot.topic msg.topic

-- What is at an index, if the array reaches so far.
abbrev pub slot_at : ℕ → List SubSlot → Option SubSlot
slot_at i [] = none
slot_at zero (slot ∷ slots) = some slot
slot_at (suc i) (slot ∷ slots) = slot_at i slots

module _ (m : Mosquitto) (invoke : Call → List SubSlot → List SubSlot) where
  -- One round of the loop: the calls, and the slots behind it. The lock is open while the callback
  -- runs, which may change the slots.
  abbrev pub dispatch : Message → Option SubSlot → List SubSlot → List Call × List SubSlot
  dispatch msg none subs = ([], subs)
  dispatch msg (some slot) subs =
      if selects m msg slot
      then (call_of msg slot ∷ [], invoke (call_of msg slot) subs)
      else ([], subs)

  -- The loop from the index `i`, with its rounds.
  unfoldable pub message_loop : Message → ℕ → ℕ → List SubSlot → List Call × List SubSlot
  message_loop msg zero i subs = ([], subs)
  message_loop msg (suc rounds) i subs =
      let (calls, subs') = dispatch msg (slot_at i subs) subs in
      let (calls', subs'') = message_loop msg rounds (i + 1) subs' in
      (concat (calls ∷ calls' ∷ []), subs'')

  unfoldable pub on_message : Message → List SubSlot → List Call × List SubSlot
  unfolding message_loop
  on_message msg subs = message_loop msg max_subscriptions 0 subs

module _ (m : Mosquitto) where
  -- The wait for `on_connect`, from the load `k`; what comes back is the number of the next load.
  unfoldable pub wait_connected : ℕ → ℕ → ℕ
  wait_connected zero k = k
  wait_connected (suc polls) k =
      let later = wait_connected polls (k + 1) in if m.loads k then k + 1 else later

  module _ {lib : Objects} (o : OpenSsl lib) where
    abbrev pub mqtt_init : ClientContext lib → Code × ClientContext lib
    mqtt_init ctx =
        if ctx.has_mosq
        then (none, ctx)
        else if not m.new
        then (some err_mqtt, ctx)
        else (none, record ctx { has_mosq = true })

    -- Whether the calls before the wait succeed.
    abbrev pub starts : ClientConfig → Option Bytes → Bytes → Bytes → Bool
    starts cfg ca cert key =
        m.tls_set ca cert key
        && m.tls_opts_set
        && m.connect cfg.server_ip cfg.mqtt_port cfg.keepalive_sec
        && m.loop_start

    abbrev pub ca_file : ClientConfig → Option Bytes
    ca_file cfg = if m.opens_ca then some cfg.ca_cert_pem else none

    -- The flag at the end of the wait of 50 polls.
    abbrev pub is_connected : Bool
    is_connected = m.loads (wait_connected 50 0)

    abbrev pub written_files : ClientConfig → Bytes → Bytes → TempFiles → TempFiles
    written_files cfg cert key files = record {
      cert = some cert;
      key = unlinked m.unlinks.key (some key);
      ca = if m.opens_ca then some cfg.ca_cert_pem else files.ca;
    }

    unfoldable pub mqtt_connect :
        ClientContext lib → Bytes → Bytes → TempFiles → Code × ClientContext lib × TempFiles
    unfolding wait_connected
    mqtt_connect ctx cert key files =
        if not m.opens_cert
        then (some err_io, ctx, files)
        else if not m.opens_key
        then (some err_io, ctx, record files { cert = unlinked m.unlinks.cert (some cert) })
        else if not (starts ctx.cfg (ca_file ctx.cfg) cert key)
        then (some err_mqtt, ctx, written_files ctx.cfg cert key files)
        else (
          if is_connected then none else some err_mqtt,
          record ctx { mqtt_connected = is_connected },
          written_files ctx.cfg cert key files,
        )

module _ {lib : Objects} (o : OpenSsl lib) where
  unfoldable pub mqtt_disconnect :
      Unlinks → ClientContext lib → TempFiles → ClientContext lib × TempFiles
  mqtt_disconnect unlinks ctx files = if not ctx.has_mosq then (ctx, files) else (
    record ctx { mqtt_connected = false },
    record {
      cert = unlinked unlinks.cert files.cert;
      key = unlinked unlinks.key files.key;
      ca = unlinked unlinks.ca files.ca;
    },
  )

  abbrev pub mqtt_free : ClientContext lib → ClientContext lib
  mqtt_free ctx = record ctx { has_mosq = false }
