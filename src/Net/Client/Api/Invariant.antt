-- ===== src/Net/Client/Api/Invariant.antt =====
-- Every call keeps a client sound.
use nirantara.Common.{none, arith}
use nirantara.Net.Client.{OpenSsl, Objects}
use nirantara.Net.Client.Api.{create}
use nirantara.Net.Client.Api.States.{
  generate_call, disconnect_call, created, disconnect_event, connect_event, subscribe_call,
  connect_call, enroll_call, csr_call, stepped, init_call, State, Step, Reachable, IsSound,
}
use nirantara.Net.Client.Api.Keys.{
  generate-IsSound, get_csr_pem-IsSound, enroll-IsSound, init-IsSound,
}
use nirantara.Net.Client.Api.Broker.{
  on_connect-IsSound, on_disconnect-IsSound, mqtt_disconnect-IsSound, connect-IsSound,
  subscribe-IsSound,
}

module _ (lib : Objects) where
  step-IsSound : {s t : State lib} → IsSound lib s → Step lib s t → IsSound lib t
  step-IsSound {s} h (init_call o cfg) = init-IsSound o s cfg h
  step-IsSound {s} h (generate_call o) = generate-IsSound o s h
  step-IsSound {s} h (csr_call o device_id csr_out_len) =
      get_csr_pem-IsSound o s device_id csr_out_len h
  step-IsSound {s} h (enroll_call o c device_id cert_out_len) =
      enroll-IsSound o s c device_id cert_out_len h
  step-IsSound {s} h (connect_call o m cert key) = connect-IsSound o m s cert key h
  step-IsSound {s} h (subscribe_call o m topic cb userdata) =
      subscribe-IsSound o m s topic cb userdata h
  step-IsSound {s} h (disconnect_call o unlinks) = mqtt_disconnect-IsSound o s unlinks h
  step-IsSound {s} h (connect_event o rc up) = on_connect-IsSound o s rc h up
  step-IsSound {s} h (disconnect_event o rc up) = on_disconnect-IsSound o s rc h

  created-IsSound :
      (o : OpenSsl lib)
      → IsSound lib
          (record { ctx = create o; files = record { cert = none; key = none; ca = none } })
  unfolding create
  created-IsSound o = ground arith

  -- Whatever a program calls, in whatever order, between two calls an initialised context has the
  -- TLS settings for the configured CA, and its ports; it is initialised where it has a key or a
  -- client of MQTT, has a key where it has a request for a certificate, and a client of MQTT where it
  -- is connected; it has 16 slots with topics that fit and no null callback in use, a certificate
  -- that fits; and there are no temporary files without a client of MQTT.
  pub Reachable-IsSound : (s : State lib) → Reachable lib s → IsSound lib s
  Reachable-IsSound s (created o) = created-IsSound o
  Reachable-IsSound t (stepped {s} r step) = step-IsSound (Reachable-IsSound s r) step
