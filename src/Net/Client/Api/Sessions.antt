-- ===== src/Net/Client/Api/Sessions.antt =====
-- What the invariant of a client gives for a session: its connections, and its end.
use nirantara.Common.{
  Option-cases, if-cases, inr, inl, ◌-◌, ℕ, zero, suc, ◌+◌, ◌≤◌, ◌≡◌, refl, Bool, true, false,
  Option, none, some, [], ◌∷◌, arith, Bool-cases, not, ap, sym, ◌∙◌, subst,
}
use mathlib.Core.Bool.{false≢true}
use nirantara.Common.Options.{some_eq}
use nirantara.Common.Text.{Bytes}
use nirantara.Net.Client.{Code, OpenSsl, Objects, SslCtx, ClientContext, set, tls1_2_version}
use nirantara.Net.Client.Mqtt.{
  Mosquitto, TempFiles, Unlinks, unlinked, starts, ca_file, wait_connected, mqtt_init, mqtt_connect,
  mqtt_disconnect,
}
use nirantara.Net.Client.Api.{connect_mosq, connect, destroy}
use nirantara.Net.Client.Api.States.{State, Reachable, IsSound, trusting, trusting_cert}
use nirantara.Net.Client.Api.Invariant.{Reachable-IsSound}

module _ (lib : Objects) where
  trusting_eq :
      (pem : Bytes) (ssl_ctx : SslCtx lib)
      → trusting lib pem ≡ some ssl_ctx
      → (ca : lib.Cert) × (lib.cert_in pem ≡ some ca)
        × (ssl_ctx
            ≡ record { min_version = tls1_2_version; trusted = ca ∷ []; verifies_peer = true })
  trusting_eq pem ssl_ctx h = elim (Option-cases (lib.cert_in pem)) [
    | inl e ↦ cc (rw e at h)
    | inr (ca, e) ↦ (ca, e, sym (some_eq _ _ (ap (trusting_cert lib) (sym e) ∙ h)))
  ]

  set-some : {A : Type 0} (a : Option A) → set a ≡ true → (x : A) × (a ≡ some x)
  set-some none h = cc
  set-some (some x) h = (x, refl)

  -- Whatever a program called before, where the context has a key, so that an enrollment can be sent,
  -- its TLS context wants version 1.2 at least, verifies the peer, and trusts the CA of the
  -- configuration and no other.
  pub Reachable-trusted :
      (s : State lib)
      → Reachable lib s
      → set s.ctx.keypair ≡ true
      → (ca : lib.Cert) × (lib.cert_in s.ctx.cfg.ca_cert_pem ≡ some ca)
        × (s.ctx.ssl_ctx
            ≡ some
                (record { min_version = tls1_2_version; trusted = ca ∷ []; verifies_peer = true }))
  Reachable-trusted s r keyed =
      let h = Reachable-IsSound lib s r in
      let ready = h.keyed keyed in
      let (ssl_ctx, is_set) = set-some s.ctx.ssl_ctx (h.secured ready) in
      let (ca, read, built) =
        trusting_eq s.ctx.cfg.ca_cert_pem ssl_ctx (sym (h.pinned ready) ∙ is_set) in
      (ca, read, is_set ∙ ap some built)

module _ {lib : Objects} (o : OpenSsl lib) where
  abbrev cleared : ClientContext lib → ClientContext lib
  cleared ctx = record ctx {
    ssl_ctx = none;
    keypair = none;
    csr = none;
    client_cert_pem = [];
    has_mosq = false;
    mqtt_connected = false;
  }

  unlinked-none : (b : Bool) → unlinked b none ≡ none
  unlinked-none true = refl
  unlinked-none false = refl

  none_left :
      (unlinks : Unlinks) (s : State lib)
      → s.ctx.has_mosq ≡ false
      → s.ctx.mqtt_connected ≡ false
      → IsSound lib s
      → destroy o unlinks s.ctx s.files ≡ (
        cleared s.ctx,
        record {
          cert = unlinked unlinks.cert s.files.cert;
          key = unlinked unlinks.key s.files.key;
          ca = unlinked unlinks.ca s.files.ca;
        },
      )
  unfolding destroy mqtt_disconnect
  none_left unlinks s e down h =
      rw
        (
          e,
          down,
          h.no_key_file e,
          h.no_cert_file e,
          h.no_ca_file e,
          unlinked-none unlinks.cert,
          unlinked-none unlinks.key,
          unlinked-none unlinks.ca,
        )
        refl

  -- Whatever a program called before, when `nr_destroy` frees the context nothing is left in it that
  -- OpenSSL, libmosquitto or the device owns; of the temporary files just those are left for which
  -- `unlink` fails.
  pub destroy_clears :
      (s : State lib) (unlinks : Unlinks)
      → Reachable lib s
      → (destroy o unlinks s.ctx s.files ≡ (
        record s.ctx {
          ssl_ctx = none;
          keypair = none;
          csr = none;
          client_cert_pem = [];
          has_mosq = false;
          mqtt_connected = false;
        },
        record {
          cert = unlinked unlinks.cert s.files.cert;
          key = unlinked unlinks.key s.files.key;
          ca = unlinked unlinks.ca s.files.ca;
        },
      ))
  unfolding destroy mqtt_disconnect
  destroy_clears s unlinks r =
      let h = Reachable-IsSound lib s r in
      elim (Bool-cases s.ctx.has_mosq) [
        | inl e ↦ rw e refl
        | inr e ↦
            let down : s.ctx.mqtt_connected ≡ false = ground (arith, h.linked) in
            none_left unlinks s e down h
      ]

module _ (m : Mosquitto) where
  -- While the flag stays set, the wait ends with it set if it is set within its rounds.
  wait_connected_ends :
      ((i : ℕ) → m.loads i ≡ true → m.loads (suc i) ≡ true)
      → (polls k : ℕ) → m.loads (k + polls) ≡ true
      → m.loads (wait_connected m polls k) ≡ true
  unfolding wait_connected
  wait_connected_ends stays zero k h = subst (λ i. m.loads i ≡ true) (omega arith) h
  wait_connected_ends stays (suc polls) k h =
      let rest =
        wait_connected_ends stays polls (k + 1) (subst (λ i. m.loads i ≡ true) (omega arith) h) in
      elim (Bool-cases (m.loads k)) [
        | inl e ↦ rw e (subst (λ i. m.loads i ≡ true) (omega arith) (stays k e))
        | inr e ↦ rw e rest
      ]

  flag_stays :
      ((i : ℕ) → m.loads i ≡ true → m.loads (suc i) ≡ true)
      → (n k : ℕ) → m.loads k ≡ true
      → m.loads (k + n) ≡ true
  flag_stays stays zero k h = subst (λ i. m.loads i ≡ true) (omega arith) h
  flag_stays stays (suc n) k h =
      subst (λ i. m.loads i ≡ true) (omega arith) (flag_stays stays n (suc k) (stays k h))

  abbrev IsUp : {lib : Objects} → Code × ClientContext lib × TempFiles → Type 0
  IsUp r =
      (r.0 ≡ none)
      × (r.1.mqtt_connected ≡ true)
      × (r.2.key ≡ none)
      × (r.2.ca ≡ some r.1.cfg.ca_cert_pem)

  module _ {lib : Objects} (o : OpenSsl lib) (cert key : Bytes) (files : TempFiles)
      (cert_file : m.opens_cert ≡ true) (key_file : m.opens_key ≡ true)
      (ca_opens : m.opens_ca ≡ true) (gone : m.unlinks.key ≡ true)
      (up : m.loads (wait_connected m 50 0) ≡ true) where
    mqtt_connect-IsUp :
        (ctx : ClientContext lib)
        → starts m o ctx.cfg (ca_file m o ctx.cfg) cert key ≡ true
        → IsUp (mqtt_connect m o ctx cert key files)
    unfolding mqtt_connect
    mqtt_connect-IsUp ctx started =
        rw (cert_file, key_file, started, up, gone, ca_opens) (refl, refl, refl, refl)

    connect_mosq-IsUp :
        (ctx : ClientContext lib)
        → m.new ≡ true
        → starts m o ctx.cfg (ca_file m o ctx.cfg) cert key ≡ true
        → IsUp (connect_mosq o m cert key files (mqtt_init m o ctx))
    connect_mosq-IsUp ctx has_new started =
        let Ups = λ (r : Code × ClientContext lib). IsUp (connect_mosq o m cert key files r) in
        if-cases Ups ctx.has_mosq (λ _. mqtt_connect-IsUp ctx started)
          (λ _.
            if-cases Ups (not m.new) (λ e. cc)
              (λ _. mqtt_connect-IsUp (record ctx { has_mosq = true }) started))

  -- An initialised client, for which all three files can be written, the one of the CA included,
  -- `unlink` succeeds for that of the private key, and the calls before the wait succeed with the
  -- file of the CA, comes to be connected, and `nr_connect` returns NR_OK, when the broker has
  -- answered by one of the 50 polls or right behind them and the connection stays; the file of the
  -- private key is then gone, and that of the CA holds the pinned one.
  pub connect_succeeds :
      {lib : Objects} (o : OpenSsl lib) (ctx : ClientContext lib) (cert key : Bytes)
      (files : TempFiles) (k : ℕ)
      → ctx.initialised ≡ true
      → m.new ≡ true
      → m.opens_cert ≡ true
      → m.opens_key ≡ true
      → m.opens_ca ≡ true
      → m.unlinks.key ≡ true
      → starts m o ctx.cfg (some ctx.cfg.ca_cert_pem) cert key ≡ true
      → ((i : ℕ) → m.loads i ≡ true → m.loads (suc i) ≡ true)
      → k ≤ 50
      → m.loads k ≡ true
      → ((connect o m ctx (some cert) (some key) files).0 ≡ none)
        × ((connect o m ctx (some cert) (some key) files).1.mqtt_connected ≡ true)
        × ((connect o m ctx (some cert) (some key) files).2.key ≡ none)
        × ((connect o m ctx (some cert) (some key) files).2.ca
            ≡ some (connect o m ctx (some cert) (some key) files).1.cfg.ca_cert_pem)
  unfolding connect
  connect_succeeds o ctx cert key files k ready has_new cert_file key_file ca_opens gone started
        stays soon answered =
      let last =
        subst (λ i. m.loads i ≡ true) (omega (arith, soon))
          (flag_stays stays (50 - k) k answered) in
      let up = wait_connected_ends stays 50 0 last in
      if-cases IsUp (not ctx.initialised) (λ e. absurd (false≢true (sym (ap not ready) ∙ e)))
        (λ _.
          connect_mosq-IsUp o cert key files cert_file key_file ca_opens gone up ctx has_new
            (rw ca_opens started))
