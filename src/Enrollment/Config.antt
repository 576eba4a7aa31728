-- ===== src/Enrollment/Config.antt =====
-- enrollment/src/config.c and enrollment/include/enrollment/config.h.
pub mod Numbers
pub mod Allowlist
pub mod Lines
pub mod Load
use Prim.Native.String.{String}
use nirantara.Common.{
  ℕ, ◌+◌, Bool, true, false, not, ◌&&◌, ◌||◌, Option, none, some, List, [], ◌∷◌, ◌++◌, ltb, ◌==◌,
  if◌then◌else◌, length,
}
use nirantara.Common.Number.{Converted, strtoul, strtol}
use nirantara.Common.Text.{Bytes, codes, cstr, is_space, equal, drop_while, drop_while_end}

-- `nr_enroll_config_t`: a null `char *` is `none`, and `allowed_device_count` is the length of the
-- list.
pub record Config : Type 0 where
  pub listen_host : Option Bytes
  pub listen_port : ℕ
  pub ca_cert_path : Option Bytes
  pub kms_key_id : Option Bytes
  pub aws_region : Option Bytes
  pub aws_access_key_id : Option Bytes
  pub aws_secret_access_key : Option Bytes
  pub aws_session_token : Option Bytes
  pub cert_ttl_days : ℕ
  pub allow_any_device : Bool
  pub allowed_devices : List Bytes

-- `memset(cfg, 0, sizeof(*cfg))`
abbrev pub zeroed : Config
zeroed = record {
  listen_host = none;
  listen_port = 0;
  ca_cert_path = none;
  kms_key_id = none;
  aws_region = none;
  aws_access_key_id = none;
  aws_secret_access_key = none;
  aws_session_token = none;
  cert_ttl_days = 0;
  allow_any_device = false;
  allowed_devices = [];
}

-- What the process finds: `getenv`, the lines that `getline` returns for a file that `fopen` can
-- open, and whether the copies (`strdup`, `realloc`) find memory: for a variable by its name, for
-- the n-th device of the list by n.
pub record Host : Type 0 where
  pub getenv : String → Option Bytes
  pub lines_of : Bytes → Option (List Bytes)
  pub has_memory : String → Bool
  pub has_memory_at : ℕ → Bool

unfoldable pub parse_u16_of : Converted → Option ℕ
parse_u16_of r =
    if r.range_error || not (equal r.end []) || r.value == 0 || ltb 65535 r.value
    then none
    else some r.value

-- `none` is the result -1.
unfoldable pub parse_u16 : Option Bytes → Option ℕ
unfolding parse_u16_of equal
parse_u16 none = none
parse_u16 (some []) = none
parse_u16 (some (c ∷ s)) = parse_u16_of (strtoul (c ∷ s))

-- `parsed <= 0` holds of a negative number and of zero.
unfoldable pub parse_long_of : Converted → Option ℕ
parse_long_of r =
    if r.range_error || not (equal r.end []) || (r.negative || r.value == 0)
    then none
    else some r.value

unfoldable pub parse_long : Option Bytes → Option ℕ
unfolding parse_long_of equal
parse_long none = none
parse_long (some []) = none
parse_long (some (c ∷ s)) = parse_long_of (strtol (c ∷ s))

unfoldable pub trim_line : Bytes → Bytes
unfolding drop_while drop_while_end
trim_line line = drop_while_end is_space (drop_while is_space line)

-- `device_id[0] == '\0' || device_id[0] == '#'`
unfoldable pub is_skipped : Bytes → Bool
is_skipped [] = true
is_skipped (c ∷ s) = c == b'#'

-- A loader step returns whether it went well, and the configuration as it then stands.
abbrev pub Loader : Type 0
Loader = Config → Bool × Config

infixl 5 ◌>>◌
abbrev pub ◌>>◌ : Loader → Loader → Loader
◌>>◌ m k c = let (done, c') = m c in if done then k c' else (false, c')

abbrev pub is_some : Option Bytes → Bool
is_some none = false
is_some (some _) = true

abbrev pub or_else : Option Bytes → Option Bytes → Option Bytes
or_else none other = other
or_else (some v) other = some v

-- `!cfg->allow_any_device && cfg->allowed_device_count == 0` is an error.
unfoldable pub check_devices : Loader
check_devices c = (not (not c.allow_any_device && length c.allowed_devices == 0), c)

module _ (host : Host) where
  unfoldable pub dup_env : String → Option Bytes
  dup_env name = elim (host.getenv name) [
    | none ↦ none
    | some value ↦ if equal value [] || not (host.has_memory name) then none else some value
  ]

  unfoldable pub append_allowed_device : Config → Bytes → Bool × Config
  append_allowed_device c device_id =
      if host.has_memory_at (length c.allowed_devices)
      then (true, record c { allowed_devices = c.allowed_devices ++ device_id ∷ [] })
      else (false, c)

  -- The loop over `getline`: it trims each line, skips blanks and comments, and copies the rest.
  unfoldable pub load_lines : List Bytes → Loader
  unfolding append_allowed_device is_skipped
  load_lines [] c = (true, c)
  load_lines (line ∷ lines) c =
      let device_id = trim_line (cstr line) in
      let append = λ (d : Config). append_allowed_device d device_id in
      let kept = (append >> load_lines lines) c in
      let rest = load_lines lines c in if is_skipped device_id then rest else kept

  unfoldable pub load_allowlist : Bytes → Loader
  unfolding load_lines
  load_allowlist path c = elim (host.lines_of path) [
    | none ↦ (false, c)
    | some lines ↦ load_lines lines c
  ]

  -- `require_string(&cfg->field, name)`, with the field as a setter.
  unfoldable pub require_string : (Config → Option Bytes → Config) → String → Loader
  unfolding dup_env
  require_string set name c = let value = dup_env name in (is_some value, set c value)

  unfoldable pub load_listen_host : Loader
  unfolding dup_env
  load_listen_host c =
      let default =
        if host.has_memory "DEFAULT_LISTEN_HOST" then some (codes "127.0.0.1") else none in
      let value = or_else (dup_env "NR_ENROLL_LISTEN_HOST") default in
      (is_some value, record c { listen_host = value })

  -- A variable that is set must parse; one that is not set leaves the default.
  unfoldable pub load_port : Loader
  load_port c = elim (host.getenv "NR_ENROLL_PORT") [
    | none ↦ (true, record c { listen_port = 8080 })
    | some text ↦ elim (parse_u16 (some text)) [
      | none ↦ (false, record c { listen_port = 8080 })
      | some port ↦ (true, record c { listen_port = port })
    ]
  ]

  unfoldable pub load_ttl : Loader
  load_ttl c = elim (host.getenv "NR_ENROLL_CERT_TTL_DAYS") [
    | none ↦ (true, record c { cert_ttl_days = 365 })
    | some text ↦ elim (parse_long (some text)) [
      | none ↦ (false, record c { cert_ttl_days = 365 })
      | some days ↦ (true, record c { cert_ttl_days = days })
    ]
  ]

  unfoldable pub load_region : Loader
  unfolding dup_env
  load_region c =
      let value = or_else (dup_env "AWS_REGION") (dup_env "AWS_DEFAULT_REGION") in
      (is_some value, record c { aws_region = value })

  unfoldable pub load_session_token : Loader
  unfolding dup_env
  load_session_token c = (true, record c { aws_session_token = dup_env "AWS_SESSION_TOKEN" })

  -- `allow_any_env && strcmp(allow_any_env, "1") == 0`
  unfoldable pub load_allow_any : Loader
  load_allow_any c =
      let flag : Bool = elim (host.getenv "NR_ENROLL_ALLOW_ANY_DEVICE") [
        | none ↦ false
        | some text ↦ equal text (codes "1")
      ] in
      (true, record c { allow_any_device = flag })

  unfoldable pub load_devices : Loader
  unfolding load_allowlist
  load_devices c = elim (host.getenv "NR_ENROLL_DEVICE_ALLOWLIST") [
    | none ↦ (true, c)
    | some path ↦ if equal path [] then (true, c) else load_allowlist path c
  ]

  -- `nr_enroll_config_load`; the first component is `true` for the result 0.
  unfoldable pub load : Bool × Config
  load =
      (do
        load_listen_host
        load_port
        load_ttl
        require_string (λ c v. record c { ca_cert_path = v }) "NR_ENROLL_CA_CERT"
        require_string (λ c v. record c { kms_key_id = v }) "NR_ENROLL_KMS_KEY_ID"
        load_region
        require_string (λ c v. record c { aws_access_key_id = v }) "AWS_ACCESS_KEY_ID"
        require_string (λ c v. record c { aws_secret_access_key = v }) "AWS_SECRET_ACCESS_KEY"
        load_session_token
        load_allow_any
        load_devices
        check_devices)
        zeroed

-- The loop of `nr_enroll_device_allowed`.
unfoldable pub listed : List Bytes → Bytes → Bool
listed [] device_id = false
listed (d ∷ devices) device_id = equal d device_id || listed devices device_id

unfoldable pub device_allowed : Config → Bytes → Bool
unfolding listed
device_allowed c device_id = if c.allow_any_device then true else listed c.allowed_devices device_id

-- `nr_enroll_config_free` ends with `memset(cfg, 0, sizeof(*cfg))`; the memory that it returns is
-- not modelled.
unfoldable pub free : Config → Config
free c = zeroed
