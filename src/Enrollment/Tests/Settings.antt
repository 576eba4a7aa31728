-- ===== src/Enrollment/Tests/Settings.antt =====
-- The configuration of the enrollment service: texts, an allowlist of four lines, an environment.
use package.text.Mathlib.Text.{◌==◌}
use nirantara.Common.{
  ◌^◌, ◌-◌, ◌≡◌, refl, true, false, none, some, List, [], ◌∷◌, if◌then◌else◌, arith,
}
use nirantara.Common.Number.Print.{print}
use nirantara.Common.Text.{Bytes, codes, cstr, equal}
use nirantara.Enrollment.Config.{
  Config, Host, zeroed, parse_u16, load, load_lines, load_listen_host, load_port, load_ttl,
  require_string, load_region, load_session_token, load_allow_any, load_devices, trim_line,
  check_devices,
}
use nirantara.Enrollment.Config.Lines.{Names, load_lines-devices}
use nirantara.Enrollment.Config.Load.{IsLoaded, HasGate, load-IsLoaded}
use nirantara.Enrollment.Config.Numbers.{parse_u16-print, parse_u16_wraps}

abbrev lines : List Bytes
lines = codes "# lab\n" ∷ codes " dev-1 \n" ∷ codes "\n" ∷ codes "dev-2" ∷ []

abbrev pub host : Host
host = record {
  getenv = λ name.
      if name == "NR_ENROLL_PORT"
      then none
      else if name == "NR_ENROLL_CERT_TTL_DAYS"
      then none
      else some (codes "x");
  lines_of = λ path. some lines;
  has_memory = λ name. true;
  has_memory_at = λ n. true;
}

abbrev loaded : Config
loaded = record {
  listen_host = some (codes "x");
  listen_port = 8080;
  ca_cert_path = some (codes "x");
  kms_key_id = some (codes "x");
  aws_region = some (codes "x");
  aws_access_key_id = some (codes "x");
  aws_secret_access_key = some (codes "x");
  aws_session_token = some (codes "x");
  cert_ttl_days = 365;
  allow_any_device = false;
  allowed_devices = codes "dev-1" ∷ codes "dev-2" ∷ [];
}

load-loaded : load host ≡ (true, loaded)
unfolding load load_listen_host equal load_port load_ttl require_string load_region
    load_session_token load_allow_any load_devices trim_line cstr check_devices
load-loaded = refl

load-IsLoaded_example : IsLoaded host loaded × HasGate host loaded
load-IsLoaded_example = load-IsLoaded host loaded load-loaded

load_lines-devices_example :
    (ds : List Bytes) × Names lines ds
    × (load_lines host lines zeroed ≡ (true, record zeroed { allowed_devices = ds }))
load_lines-devices_example = load_lines-devices host lines zeroed (λ n. refl)

parse_u16-print_example : parse_u16 (some (print 8883)) ≡ some 8883
parse_u16-print_example = parse_u16-print 8883 (omega arith)

parse_u16_wraps_example : parse_u16 (some (b'-' ∷ print (2 ^ 64 - 443))) ≡ some 443
parse_u16_wraps_example = parse_u16_wraps 443 (omega arith) (omega arith)
