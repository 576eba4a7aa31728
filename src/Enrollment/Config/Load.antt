-- ===== src/Enrollment/Config/Load.antt =====
-- `nr_enroll_config_load`: what holds of every configuration that it accepts.
use Prim.Native.String.{String}
use nirantara.Common.{
  ◌≤◌, ◌≡◌, ◌≢◌, ◌⊎◌, inl, inr, refl, Bool, true, false, not, Option, none, some, List, [],
  if◌then◌else◌, Bool-cases, Option-cases, arith, length, ap,
}
use nirantara.Common.Number.{long_max}
use nirantara.Common.Text.{Bytes, codes, equal}
use nirantara.Enrollment.Config.{
  Config, Host, Loader, zeroed, dup_env, load, load_listen_host, load_port, load_ttl,
  require_string, load_region, load_session_token, load_allow_any, load_devices, load_allowlist,
  check_devices, ◌>>◌,
}
use nirantara.Enrollment.Config.Allowlist.{devices, add_devices, load_lines_sound}
use nirantara.Enrollment.Config.Numbers.{parse_u16_bounds, parse_long_bounds}

-- The pointer is set, to a string that is not empty.
abbrev pub is_text : Option Bytes → Bool
is_text none = false
is_text (some s) = not (equal s [])

-- The devices of the file that NR_ENROLL_DEVICE_ALLOWLIST names, if it names one.
abbrev pub devices_of_file : Option (List Bytes) → List Bytes
devices_of_file none = []
devices_of_file (some lines) = devices lines

abbrev pub allowlist : Host → List Bytes
allowlist host = elim (host.getenv "NR_ENROLL_DEVICE_ALLOWLIST") [
  | none ↦ []
  | some path ↦ if equal path [] then [] else devices_of_file (host.lines_of path)
]

abbrev pub wants_any : Host → Bool
wants_any host = elim (host.getenv "NR_ENROLL_ALLOW_ANY_DEVICE") [
  | none ↦ false
  | some text ↦ equal text (codes "1")
]

-- What the rest of the service may rely on.
pub record IsLoaded (host : Host) (c : Config) : Type 0 where
  pub host_set : is_text c.listen_host ≡ true
  pub port_min : 1 ≤ c.listen_port
  pub port_max : c.listen_port ≤ 65535
  pub ttl_min : 1 ≤ c.cert_ttl_days
  pub ttl_max : c.cert_ttl_days ≤ long_max
  pub ca_set : is_text c.ca_cert_path ≡ true
  pub key_set : is_text c.kms_key_id ≡ true
  pub region_set : is_text c.aws_region ≡ true
  pub access_key_set : is_text c.aws_access_key_id ≡ true
  pub secret_set : is_text c.aws_secret_access_key ≡ true
  pub any_exact : c.allow_any_device ≡ wants_any host
  pub devices_exact : c.allowed_devices ≡ allowlist host

-- From a configuration that satisfies `P`, a step that goes well leads to one that satisfies `Q`.
record Leads (P : Config → Type 0) (m : Loader) (Q : Config → Type 0) : Type 0 where
  at : (c d : Config) → P c → m c ≡ (true, d) → Q d

Leads-seq :
    {P Q R : Config → Type 0} (m k : Loader) → Leads P m Q → Leads Q k R → Leads P (m >> k) R
Leads-seq {P} {Q} {R} m k lm lk = record { at = λ c e p h. go c e p (m c) refl h }
  where
    go : (c e : Config) → P c → (r : Bool × Config) → m c ≡ r → (m >> k) c ≡ (true, e) → R e
    go c e p (true, d) x h = lk.at d e (lm.at c d p x) (rw x at h)
    go c e p (false, d) x h = cc (rw x at h)

module _ (host : Host) where
  dup_env-is_text :
      (name : String) (s : Bytes) → dup_env host name ≡ some s → is_text (some s) ≡ true
  unfolding dup_env equal
  dup_env-is_text name s h = ground arith

  -- What is known after each step of `load`, one fact more at a time.
  abbrev Stage0 : Config → Type 0
  Stage0 c = c.allowed_devices ≡ []

  abbrev Stage1 : Config → Type 0
  Stage1 c = Stage0 c × (is_text c.listen_host ≡ true)

  abbrev Stage2 : Config → Type 0
  Stage2 c = Stage1 c × (1 ≤ c.listen_port) × (c.listen_port ≤ 65535)

  abbrev Stage3 : Config → Type 0
  Stage3 c = Stage2 c × (1 ≤ c.cert_ttl_days) × (c.cert_ttl_days ≤ long_max)

  abbrev Stage4 : Config → Type 0
  Stage4 c = Stage3 c × (is_text c.ca_cert_path ≡ true)

  abbrev Stage5 : Config → Type 0
  Stage5 c = Stage4 c × (is_text c.kms_key_id ≡ true)

  abbrev Stage6 : Config → Type 0
  Stage6 c = Stage5 c × (is_text c.aws_region ≡ true)

  abbrev Stage7 : Config → Type 0
  Stage7 c = Stage6 c × (is_text c.aws_access_key_id ≡ true)

  abbrev Stage8 : Config → Type 0
  Stage8 c = Stage7 c × (is_text c.aws_secret_access_key ≡ true)

  abbrev Stage9 : Config → Type 0
  Stage9 c = Stage8 c × (c.allow_any_device ≡ wants_any host)

  stage1 : Leads Stage0 (load_listen_host host) Stage1
  unfolding load_listen_host equal
  stage1 = record { at = λ c d p h. ground (arith, dup_env-is_text "NR_ENROLL_LISTEN_HOST") }

  stage2 : Leads Stage1 (load_port host) Stage2
  unfolding load_port
  stage2 = record {
    at = λ c d p h. elim (Option-cases (host.getenv "NR_ENROLL_PORT")) [
      | inl e ↦ ground arith
      | inr (text, e) ↦ ground (arith, parse_u16_bounds (some text) d.listen_port)
    ];
  }

  stage3 : Leads Stage2 (load_ttl host) Stage3
  unfolding load_ttl
  stage3 = record {
    at = λ c d p h. elim (Option-cases (host.getenv "NR_ENROLL_CERT_TTL_DAYS")) [
      | inl e ↦ ground arith
      | inr (text, e) ↦ ground (arith, parse_long_bounds (some text) d.cert_ttl_days)
    ];
  }

  stage4 :
      Leads Stage3
        (require_string host (λ c v. record c { ca_cert_path = v }) "NR_ENROLL_CA_CERT")
        Stage4
  unfolding require_string equal
  stage4 = record { at = λ c d p h. ground arith }

  stage5 :
      Leads Stage4
        (require_string host (λ c v. record c { kms_key_id = v }) "NR_ENROLL_KMS_KEY_ID")
        Stage5
  unfolding require_string equal
  stage5 = record { at = λ c d p h. ground arith }

  stage6 : Leads Stage5 (load_region host) Stage6
  unfolding load_region equal
  stage6 = record { at = λ c d p h. ground arith }

  stage7 :
      Leads Stage6
        (require_string host (λ c v. record c { aws_access_key_id = v }) "AWS_ACCESS_KEY_ID")
        Stage7
  unfolding require_string equal
  stage7 = record { at = λ c d p h. ground arith }

  stage8 :
      Leads Stage7
        (require_string host
          (λ c v. record c { aws_secret_access_key = v })
          "AWS_SECRET_ACCESS_KEY")
        Stage8
  unfolding require_string equal
  stage8 = record { at = λ c d p h. ground arith }

  keep_token : Leads Stage8 (load_session_token host) Stage8
  unfolding load_session_token
  keep_token = record { at = λ c d p h. ground arith }

  stage9 : Leads Stage8 (load_allow_any host) Stage9
  unfolding load_allow_any
  stage9 = record { at = λ c d p h. ground arith }

  load_allowlist_sound :
      (path : Bytes) (c d : Config)
      → load_allowlist host path c ≡ (true, d)
      → d ≡ add_devices c (devices_of_file (host.lines_of path))
  unfolding load_allowlist
  load_allowlist_sound path c d h = elim (Option-cases (host.lines_of path)) [
    | inl e ↦ cc (rw (e, load_allowlist) at h)
    | inr (lines, e) ↦ rw e (load_lines_sound host lines c d (rw (e, load_allowlist) at h))
  ]

  load_devices_sound :
      (c d : Config)
      → c.allowed_devices ≡ []
      → load_devices host c ≡ (true, d)
      → d ≡ record c { allowed_devices = allowlist host }
  unfolding load_devices
  load_devices_sound c d p h = elim (Option-cases (host.getenv "NR_ENROLL_DEVICE_ALLOWLIST")) [
    | inl e ↦ ground arith
    | inr (path, e) ↦ elim (Bool-cases (equal path [])) [
      | inl b ↦ ground arith
      | inr b ↦ ground (arith, load_allowlist_sound path c d)
    ]
  ]

  fields : (c : Config) → Stage9 c → IsLoaded host (record c { allowed_devices = allowlist host })
  fields c p = record {
    host_set = p.0.0.0.0.0.0.0.0.1;
    port_min = p.0.0.0.0.0.0.0.1;
    port_max = p.0.0.0.0.0.0.0.2;
    ttl_min = p.0.0.0.0.0.0.1;
    ttl_max = p.0.0.0.0.0.0.2;
    ca_set = p.0.0.0.0.0.1;
    key_set = p.0.0.0.0.1;
    region_set = p.0.0.0.1;
    access_key_set = p.0.0.1;
    secret_set = p.0.1;
    any_exact = p.1;
    devices_exact = refl;
  }

  stage10 : Leads Stage9 (load_devices host) (IsLoaded host)
  stage10 = record {
    at = λ c d p h. rw (load_devices_sound c d p.0.0.0.0.0.0.0.0.0 h) (fields c p);
  }

  -- Anyone may enroll, or someone is listed.
  abbrev pub HasGate : Config → Type 0
  HasGate c = (c.allow_any_device ≡ true) ⊎ (c.allowed_devices ≢ [])

  last_stage : Leads (IsLoaded host) check_devices (λ c. IsLoaded host c × HasGate c)
  unfolding check_devices
  last_stage = record {
    at = λ c d p h. elim (Bool-cases c.allow_any_device) [
      | inl e ↦ ground arith
      | inr e ↦ (ground arith, inr (λ q. ground (arith, ap length q)))
    ];
  }

  -- A configuration that `load` accepts is well formed: every required text is set, the port and
  -- the lifetime are in range, "any device" is on exactly when the variable is "1", the devices are
  -- those of the file, and there is someone who may enroll.
  pub load-IsLoaded : (c : Config) → load host ≡ (true, c) → IsLoaded host c × HasGate c
  unfolding load
  load-IsLoaded c h =
      (Leads-seq _ _ stage1 (
          Leads-seq _ _ stage2 (
            Leads-seq _ _ stage3 (
              Leads-seq _ _ stage4 (
                Leads-seq _ _ stage5 (
                  Leads-seq _ _ stage6 (
                    Leads-seq _ _ stage7 (
                      Leads-seq _ _ stage8 (
                        Leads-seq _ _ keep_token
                          (Leads-seq _ _ stage9 (Leads-seq _ _ stage10 last_stage))))))))))).at
        zeroed c refl h
