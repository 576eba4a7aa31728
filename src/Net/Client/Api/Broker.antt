-- ===== src/Net/Client/Api/Broker.antt =====
-- The calls of MQTT and its callbacks keep a client sound.
use nirantara.Net.Client.Api.Slots.{All-set_slot, length-set_slot}
use nirantara.Common.{
  ◌-◌, length-take, ◌==◌, ℕ, ◌<◌, ◌≡◌, ◌≢◌, refl, true, Option, none, some, length, arith, if-cases,
  not,
}
use nirantara.Common.Text.{Bytes}
use nirantara.Net.Client.{OpenSsl, Objects, ClientContext, Code, SubSlot, topic_size}
use nirantara.Net.Client.Mqtt.{
  ca_file, starts, mqtt_connect, mqtt_init, Mosquitto, TempFiles, Unlinks, on_connect,
  on_disconnect, mqtt_disconnect,
}
use nirantara.Net.Client.Api.{
  deactivated, new_slot, set_slot, free_slot, subscribe_in, connect_mosq, connect, subscribe,
}
use nirantara.Net.Client.Api.States.{State, IsSound}

module _ {lib : Objects} (o : OpenSsl lib) where
  pub on_connect-IsSound :
      (s : State lib) (rc : ℕ)
      → IsSound lib s
      → s.ctx.has_mosq ≡ true
      → IsSound lib (record s { ctx = on_connect o rc s.ctx })
  unfolding on_connect
  on_connect-IsSound s rc h up = ground (arith, up)

  pub on_disconnect-IsSound :
      (s : State lib) (rc : ℕ)
      → IsSound lib s
      → IsSound lib (record s { ctx = on_disconnect o rc s.ctx })
  unfolding on_disconnect
  on_disconnect-IsSound s rc h = ground arith

  pub mqtt_disconnect-IsSound :
      (s : State lib) (unlinks : Unlinks)
      → IsSound lib s
      → IsSound lib (record {
        ctx = (mqtt_disconnect o unlinks s.ctx s.files).0;
        files = (mqtt_disconnect o unlinks s.ctx s.files).1;
      })
  unfolding mqtt_disconnect
  mqtt_disconnect-IsSound s unlinks h =
      if-cases
        (λ (r : ClientContext lib × TempFiles). IsSound lib (record { ctx = r.0; files = r.1 }))
        (not s.ctx.has_mosq) (λ _. h) (λ up. ground (arith, up))

  module _ (m : Mosquitto) where
    abbrev Kept : Code × ClientContext lib × TempFiles → Type 0
    Kept r = IsSound lib (record { ctx = r.1; files = r.2 })

    mqtt_init-IsSound :
        (s : State lib)
        → IsSound lib s
        → s.ctx.initialised ≡ true
        → IsSound lib (record s { ctx = (mqtt_init m o s.ctx).1 })
          × ((mqtt_init m o s.ctx).0 ≡ none → (mqtt_init m o s.ctx).1.has_mosq ≡ true)
    mqtt_init-IsSound s h ready =
        let Inits = λ (r : Code × ClientContext lib).
          IsSound lib (record s { ctx = r.1 }) × (r.0 ≡ none → r.1.has_mosq ≡ true) in
        if-cases Inits s.ctx.has_mosq (λ e. (h, λ _. e))
          (λ _.
            if-cases Inits (not m.new) (λ _. (h, λ e. cc))
              (λ _. (ground (arith, ready), λ _. refl)))

    mqtt_connect-IsSound :
        (s : State lib) (cert key : Bytes)
        → IsSound lib s
        → s.ctx.has_mosq ≡ true
        → Kept (mqtt_connect m o s.ctx cert key s.files)
    unfolding mqtt_connect
    mqtt_connect-IsSound s cert key h up =
        if-cases Kept (not m.opens_cert) (λ _. h)
          (λ _.
            if-cases Kept (not m.opens_key) (λ _. ground (arith, up))
              (λ _.
                if-cases Kept (not (starts m o s.ctx.cfg (ca_file m o s.ctx.cfg) cert key))
                  (λ _. ground (arith, up)) (λ _. ground (arith, up))))

    connect_mosq-IsSound :
        (s : State lib) (cert key : Bytes) (r : Code × ClientContext lib)
        → IsSound lib (record s { ctx = r.1 })
        → (r.0 ≡ none → r.1.has_mosq ≡ true)
        → Kept (connect_mosq o m cert key s.files r)
    connect_mosq-IsSound s cert key (some error, ctx) h up = h
    connect_mosq-IsSound s cert key (none, ctx) h up =
        mqtt_connect-IsSound (record s { ctx = ctx }) cert key h (up refl)

    pub connect-IsSound :
        (s : State lib) (cert key : Option Bytes)
        → IsSound lib s
        → Kept (connect o m s.ctx cert key s.files)
    unfolding connect
    connect-IsSound s none key h = h
    connect-IsSound s (some cert) none h = h
    connect-IsSound s (some cert) (some key) h =
        if-cases Kept (not s.ctx.initialised) (λ _. h)
          (λ e.
            let (kept, up) = mqtt_init-IsSound s h (ground arith) in
            connect_mosq-IsSound s cert key (mqtt_init m o s.ctx) kept up)

    set_slot-IsSound :
        (s : State lib) (k : ℕ) (new : SubSlot)
        → IsSound lib s
        → (new.active ≡ true → new.cb ≢ 0)
        → length new.topic < topic_size
        → IsSound lib (record s { ctx = record s.ctx { subs = set_slot k new s.ctx.subs } })
    set_slot-IsSound s k new h has_cb fits =
        let long = length-set_slot k new s.ctx.subs in
        let with_cb =
          All-set_slot (λ (slot : SubSlot). slot.active ≡ true → slot.cb ≢ 0) k new s.ctx.subs
            h.callable has_cb in
        let short =
          All-set_slot (λ (slot : SubSlot). length slot.topic < topic_size) k new s.ctx.subs
            h.topics_fit fits in
        record {
          pinned = h.pinned;
          secured = h.secured;
          has_mqtt_port = h.has_mqtt_port;
          has_enroll_port = h.has_enroll_port;
          keyed = h.keyed;
          requested = h.requested;
          linked = h.linked;
          opened = h.opened;
          slots = omega (arith, long, h.slots);
          callable = with_cb;
          topics_fit = short;
          cert_fits = h.cert_fits;
          no_key_file = h.no_key_file;
          no_cert_file = h.no_cert_file;
          no_ca_file = h.no_ca_file;
        }

    subscribe_in-IsSound :
        (s : State lib) (topic : Bytes) (cb userdata : ℕ) (free : Option ℕ)
        → IsSound lib s
        → cb ≢ 0
        → IsSound lib (record s { ctx = (subscribe_in o m s.ctx topic cb userdata free).1 })
    subscribe_in-IsSound s topic cb userdata none h given = h
    subscribe_in-IsSound s topic cb userdata (some k) h given =
        let fits = length-take (topic_size - 1) topic in
        if-cases (λ (r : Code × ClientContext lib). IsSound lib (record s { ctx = r.1 }))
          (m.subscribe topic)
          (λ _.
            set_slot-IsSound s k (new_slot topic cb userdata) h (λ _. given) (omega (arith, fits)))
          (λ _.
            set_slot-IsSound s k (deactivated (new_slot topic cb userdata)) h (λ e. cc)
              (omega (arith, fits)))

    pub subscribe-IsSound :
        (s : State lib) (topic : Option Bytes) (cb userdata : ℕ)
        → IsSound lib s
        → IsSound lib (record s { ctx = (subscribe o m s.ctx topic cb userdata).1 })
    unfolding subscribe
    subscribe-IsSound s none cb userdata h = h
    subscribe-IsSound s (some topic) cb userdata h =
        let Keeps = λ (r : Code × ClientContext lib). IsSound lib (record s { ctx = r.1 }) in
        if-cases Keeps (cb == 0) (λ _. h)
          (λ given.
            if-cases Keeps (not s.ctx.mqtt_connected) (λ _. h)
              (λ _.
                subscribe_in-IsSound s topic cb userdata (free_slot 0 s.ctx.subs) h (ground arith)))
