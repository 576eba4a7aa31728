-- ===== src/Net/Client/Api/Keys.antt =====
-- The calls that make keys, requests and certificates keep a client sound.
use nirantara.Common.{
  ◌||◌, ℕ, ◌≡◌, refl, true, false, Option, none, some, [], length, arith, if-cases, not, leb,
}
use nirantara.Common.{◌∙◌, sym, ap}
use nirantara.Common.Options.{>>=-eq-some, guard-eq-some}
use nirantara.Common.Text.{equal, Bytes}
use nirantara.Net.Enroll.{Connection, Outcome, accepted, failed, enroll_request}
use nirantara.Net.Client.{
  tls1_2_version, keep_ctx, SslCtx, tls_init_ctx, OpenSsl, Objects, ClientConfig, ClientContext,
  Code, set, max_pem_len, pinned_ctx, keep_key, keystore_generate_ec, generated,
}
use nirantara.Net.Client.Csr.{signed_req, keep_csr, enroll_build_csr}
use nirantara.Net.Client.Api.{
  with_defaults, end_init, cache_cert, request_cert, over, init, generate_keypair, get_csr_pem,
  enroll,
}
use nirantara.Net.Client.Api.States.{State, IsSound, trusting, trusting_cert}

module _ {lib : Objects} (o : OpenSsl lib) where
  keep_key-IsSound :
      (s : State lib) (key : Option lib.Key)
      → IsSound lib s
      → s.ctx.initialised ≡ true
      → IsSound lib (record s { ctx = (keep_key o key s.ctx).1 })
  keep_key-IsSound s none h ready = h
  keep_key-IsSound s (some key) h ready = ground (arith, ready)

  pub generate-IsSound :
      (s : State lib)
      → IsSound lib s
      → IsSound lib (record s { ctx = (generate_keypair o s.ctx).1 })
  unfolding generate_keypair keystore_generate_ec
  generate-IsSound s h =
      if-cases (λ (r : Code × ClientContext lib). IsSound lib (record s { ctx = r.1 }))
        (not s.ctx.initialised) (λ _. h) (λ e. keep_key-IsSound s (generated o) h (ground arith))

  -- A request is only kept beside a key.
  keep_csr-IsSound :
      (s : State lib) (len : ℕ) (req : Option lib.Csr)
      → IsSound lib s
      → set s.ctx.keypair ≡ true
      → IsSound lib (record s { ctx = (keep_csr o len req s.ctx).1 })
  keep_csr-IsSound s len none h keyed = h
  keep_csr-IsSound s len (some req) h keyed = ground (arith, keyed)

  pub get_csr_pem-IsSound :
      (s : State lib) (device_id : Option Bytes) (len : ℕ)
      → IsSound lib s
      → IsSound lib (record s { ctx = (get_csr_pem o s.ctx device_id len).1 })
  unfolding get_csr_pem enroll_build_csr
  get_csr_pem-IsSound s none len h = h
  get_csr_pem-IsSound s (some device_id) len h =
      if-cases (λ (r : Outcome × ClientContext lib). IsSound lib (record s { ctx = r.1 }))
        (not (set s.ctx.keypair)) (λ _. h)
        (λ e. keep_csr-IsSound s len (signed_req o s.ctx.keypair device_id) h (ground arith))

  cache_cert-IsSound :
      (s : State lib) (reply : Outcome)
      → IsSound lib s
      → IsSound lib (record s { ctx = (cache_cert o reply s.ctx).1 })
  cache_cert-IsSound s (failed error) h = h
  cache_cert-IsSound s (accepted cert) h =
      if-cases (λ (r : Outcome × ClientContext lib). IsSound lib (record s { ctx = r.1 }))
        (leb max_pem_len (length cert)) (λ _. h) (λ e. ground arith)

  request_cert-IsSound :
      (s : State lib) (c : Connection) (device_id : Bytes) (len : ℕ)
      (r : Outcome × ClientContext lib)
      → IsSound lib (record s { ctx = r.1 })
      → IsSound lib (record s { ctx = (request_cert o c device_id len r).1 })
  request_cert-IsSound s c device_id len (failed error, ctx) h = h
  request_cert-IsSound s c device_id len (accepted csr_pem, ctx) h =
      cache_cert-IsSound (record s { ctx = ctx })
        (enroll_request (over o ctx c) ctx.cfg.server_ip ctx.cfg.enroll_port csr_pem device_id len)
        h

  pub enroll-IsSound :
      (s : State lib) (c : Connection) (device_id : Option Bytes) (len : ℕ)
      → IsSound lib s
      → IsSound lib (record s { ctx = (enroll o c s.ctx device_id len).1 })
  unfolding enroll enroll_build_csr
  enroll-IsSound s c none len h = h
  enroll-IsSound s c (some device_id) len h =
      if-cases (λ (r : Outcome × ClientContext lib). IsSound lib (record s { ctx = r.1 }))
        (not (set s.ctx.keypair)) (λ _. h)
        (λ e.
          request_cert-IsSound s c device_id len
            (keep_csr o max_pem_len (signed_req o s.ctx.keypair device_id) s.ctx)
            (keep_csr-IsSound s max_pem_len (signed_req o s.ctx.keypair device_id) h
              (ground arith)))

  pinned_ctx_eq :
      (pem : Bytes) (ssl_ctx : SslCtx lib)
      → pinned_ctx o pem ≡ some ssl_ctx
      → pinned_ctx o pem ≡ trusting lib pem
  unfolding pinned_ctx
  pinned_ctx_eq pem ssl_ctx h =
      let (_, h1) = guard-eq-some o.new_ctx _ h in
      let (_, h2) = guard-eq-some (o.sets_min_version tls1_2_version) _ h1 in
      let (_, h3) = guard-eq-some o.new_bio _ h2 in
      let (_, h4) = guard-eq-some o.reads_cert _ h3 in
      let (ca, read, h5) = >>=-eq-some (lib.cert_in pem) _ h4 in
      let (_, h6) = guard-eq-some (o.add_cert ca) _ h5 in
      h ∙ sym h6 ∙ ap (trusting_cert lib) (sym read)

  end_init-IsSound :
      (s : State lib) (cfg : ClientConfig) (ssl_ctx : Option (SslCtx lib))
      → IsSound lib s
      → s.ctx.initialised ≡ false
      → ((x : SslCtx lib) → ssl_ctx ≡ some x → ssl_ctx ≡ trusting lib cfg.ca_cert_pem)
      → IsSound lib (record s {
        ctx = (end_init o (keep_ctx o ssl_ctx (record s.ctx { cfg = with_defaults cfg }))).1;
      })
  end_init-IsSound s cfg none h fresh built = ground (arith, fresh)
  end_init-IsSound s cfg (some ssl_ctx) h fresh built = ground (arith, fresh, built ssl_ctx refl)

  pub init-IsSound :
      (s : State lib) (cfg : ClientConfig)
      → IsSound lib s
      → IsSound lib (record s { ctx = (init o cfg s.ctx).1 })
  unfolding init tls_init_ctx
  init-IsSound s cfg h =
      let Keeps = λ (r : Code × ClientContext lib). IsSound lib (record s { ctx = r.1 }) in
      if-cases Keeps s.ctx.initialised (λ _. h)
        (λ fresh.
          if-cases Keeps (equal cfg.server_ip [] || equal cfg.ca_cert_pem []) (λ _. h)
            (λ _.
              end_init-IsSound s cfg (pinned_ctx o cfg.ca_cert_pem) h fresh
                (λ x e. pinned_ctx_eq cfg.ca_cert_pem x e)))
