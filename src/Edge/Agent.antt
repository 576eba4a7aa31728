-- ===== src/Edge/Agent.antt =====
-- edge/src/main.c: the configuration, the callbacks of MQTT, and the run of the agent.
pub mod Release
use nirantara.Common.{
  ℕ, zero, suc, ◌+◌, ◌-◌, ◌%◌, ◌^◌, Bool, true, false, not, ◌&&◌, Option, none, some, List, [], ◌∷◌,
  ◌++◌, ◌==◌, if◌then◌else◌, length, take,
}
use nirantara.Common.Options.{◌>>=◌, ◌>>◌, guard}
use nirantara.Common.Number.{Converted, strtol}
use nirantara.Common.Text.{Bytes, codes, equal}
use nirantara.Edge.Buffer.{Disk, buffer_event_insert}
use nirantara.Edge.Sqlite.{Sqlite}
use nirantara.Edge.Postgres.{Postgres}
use nirantara.Edge.Sync.{Context, sync_db_path, sync_flush_now}
use nirantara.Edge.Sync.Thread.{default_interval}

abbrev pub Env : Type 0
Env = Bytes → Option Bytes

abbrev pub not_empty : Option Bytes → Option Bytes
not_empty none = none
not_empty (some []) = none
not_empty (some (c ∷ s)) = some (c ∷ s)

-- `none` stands for the exit with EXIT_FAILURE.
abbrev pub required_env : Env → Bytes → Option Bytes
required_env env name = not_empty (env name)

abbrev pub or_text : Bytes → Option Bytes → Bytes
or_text default none = default
or_text default (some text) = text

-- The 32 bits of what `atoi` returns in glibc, which cuts the result of `strtol`.
abbrev pub int_bits : Converted → ℕ
int_bits c = (if c.negative then 2 ^ 64 - c.value else c.value) % 2 ^ 32

abbrev pub number_or : ℕ → Option Bytes → ℕ
number_or default none = default
number_or default (some text) = int_bits (strtol text)

abbrev pub port_or : ℕ → Option Bytes → ℕ
port_or default none = default
port_or default (some text) = int_bits (strtol text) % 2 ^ 16

-- The local variables of `main`.
pub record AgentConfig : Type 0 where
  pub pg_connstr : Bytes
  pub mqtt_host : Bytes
  pub mqtt_ca : Bytes
  pub mqtt_cert : Bytes
  pub mqtt_key : Bytes
  pub edge_node_id : Bytes
  pub db_path : Bytes
  pub mqtt_port : ℕ
  pub sync_interval : ℕ

unfoldable pub read_config : Env → Option AgentConfig
read_config env = do
  pg_connstr ← required_env env (codes "NR_PG_CONNSTR")
  mqtt_host ← required_env env (codes "NR_MQTT_HOST")
  mqtt_ca ← required_env env (codes "NR_MQTT_CA")
  mqtt_cert ← required_env env (codes "NR_MQTT_CERT")
  mqtt_key ← required_env env (codes "NR_MQTT_KEY")
  some (record {
    pg_connstr = pg_connstr;
    mqtt_host = mqtt_host;
    mqtt_ca = mqtt_ca;
    mqtt_cert = mqtt_cert;
    mqtt_key = mqtt_key;
    edge_node_id = or_text (codes "edge-mumbai-01") (env (codes "NR_EDGE_NODE_ID"));
    db_path = or_text sync_db_path (env (codes "NR_DB_PATH"));
    mqtt_port = port_or 8883 (env (codes "NR_MQTT_PORT"));
    sync_interval = number_or default_interval (env (codes "NR_SYNC_INTERVAL"));
  })

-- What the sync thread is given, cut to the arrays of `sync_ctx_t`.
abbrev pub sync_context : AgentConfig → Context
sync_context c = record {
  pg_connstr = take 511 c.pg_connstr;
  edge_node_id = take 63 c.edge_node_id;
  interval_sec = c.sync_interval;
}

abbrev pub in_front : ℕ → Option Bytes → Option Bytes
in_front c none = none
in_front c (some front) = some (c ∷ front)

abbrev pub either : Option Bytes → Option Bytes → Option Bytes
either none other = other
either (some front) other = some front

-- `strrchr`: what stands before the last occurrence.
unfoldable pub strrchr : Bytes → ℕ → Option Bytes
strrchr [] b = none
strrchr (c ∷ s) b =
    let later = in_front c (strrchr s b) in either later (if c == b then some [] else none)

-- The directory that `ensure_dir` makes.
unfoldable pub ensure_dir : Bytes → Option Bytes
unfolding strrchr
ensure_dir path = not_empty (strrchr (take 511 path) b'/')

-- `on_connect`: the topic that is subscribed.
unfoldable pub on_connect : Env → ℕ → Option Bytes
on_connect env rc =
    if rc == 0 then some (or_text (codes "game/#") (env (codes "NR_SUBSCRIBE_TOPIC"))) else none

-- `on_message`, with the path of the buffer that is open.
unfoldable pub on_message :
    (q : Sqlite) → Option Bytes → Bytes → Option Bytes → Disk q → Bool × Disk q
on_message q path topic payload disk = buffer_event_insert q path (some topic) payload disk

-- `on_signal`: what `g_running` is set to, and the flush, as one step.
unfoldable pub on_signal :
    Context
    → (ℕ → Bytes)
    → (p : Postgres) (q : Sqlite) → Bool
    → (ℕ → Bool)
    → Disk q
    → p.Server
    → Bool × Disk q × p.Server
unfolding sync_flush_now
on_signal ctx beyond p q has_array has_memory disk s =
    let (disk', s') = sync_flush_now (some ctx) beyond p q has_array has_memory disk s in
    (false, disk', s')

-- What the agent does with what it holds.
pub data Act : Type 0 where
  made_dir : Bytes → Act
  opened_buffer : Bytes → Act
  started_thread : Context → Act
  initialised_library made_client looped reconnected disconnected destroyed_client : Act
  cleaned_library stopped_thread closed_buffer : Act

-- What the calls come to: `sqlite3_open` and the rest of `buffer_init`, `pthread_create`, `mosquitto_new`, `mosquitto_tls_set`,
-- `mosquitto_connect`; what the n-th load of `g_running` returns; and whether the n-th
-- `mosquitto_loop` returns MOSQ_ERR_SUCCESS or MOSQ_ERR_NO_CONN.
pub record System : Type 0 where
  pub env : Env
  pub opens_db : Bytes → Bool
  pub sets_up : Bytes → Bool
  pub starts_thread : Bool
  pub new_client : Bytes → Bool
  pub tls_set : Bytes → Bytes → Bytes → Bool
  pub connect : Bytes → ℕ → Bool
  pub running : ℕ → Bool
  pub loops : ℕ → Bool

module _ (y : System) where
  abbrev pub polled : ℕ → List Act
  polled k = if y.loops k then looped ∷ [] else looped ∷ reconnected ∷ []

  abbrev pub before : List Act → Option (List Act) → Option (List Act)
  before acts none = none
  before acts (some more) = some (acts ++ more)

  -- The main loop from the load `k` on, with fuel for its rounds; `none` means that it ran out.
  unfoldable pub main_loop : ℕ → ℕ → Option (List Act)
  main_loop zero k = none
  main_loop (suc fuel) k =
      let rest = before (polled k) (main_loop fuel (k + 1)) in if y.running k then rest else some []

  -- From the client that was made to `cleanup`.
  unfoldable pub serve : ℕ → AgentConfig → Option (List Act)
  unfolding main_loop
  serve fuel c =
      if not (y.tls_set c.mqtt_ca c.mqtt_cert c.mqtt_key)
      then some []
      else if not (y.connect c.mqtt_host c.mqtt_port)
      then some []
      else main_loop fuel 0

  abbrev pub cleanup : List Act
  cleanup = disconnected ∷ destroyed_client ∷ cleaned_library ∷ stopped_thread ∷ closed_buffer ∷ []

  -- `sync_start` on a context.
  abbrev pub sync_start : Context → Bool
  sync_start ctx = not (equal ctx.pg_connstr []) && y.starts_thread

  abbrev pub finished : Bool → List Act → Option (List Act) → Option (Bool × List Act)
  finished code acts none = none
  finished code acts (some more) = some (code, acts ++ more)

  abbrev pub behind : Option (List Act) → List Act → Option (List Act)
  behind none acts = none
  behind (some front) acts = some (front ++ acts)

  abbrev pub dir_acts : Option Bytes → List Act
  dir_acts none = []
  dir_acts (some path) = made_dir path ∷ []

  -- `main` with its configuration: whether it ends with EXIT_SUCCESS, and what it does.
  unfoldable pub run_agent : ℕ → AgentConfig → Option (Bool × List Act)
  unfolding serve ensure_dir equal
  run_agent fuel c =
      let dir = dir_acts (ensure_dir c.db_path) in
      let opened = opened_buffer c.db_path ∷ [] in
      let threaded = opened ++ (started_thread (sync_context c) ∷ initialised_library ∷ []) in
      if not (y.opens_db c.db_path)
      then some (false, dir)
      else if not (y.sets_up c.db_path)
      then some (false, dir ++ opened)
      else if not (sync_start (sync_context c))
      then some (false, dir ++ (opened ++ (closed_buffer ∷ [])))
      else if not (y.new_client c.edge_node_id)
      then some (false, dir ++ (threaded ++ (stopped_thread ∷ closed_buffer ∷ [])))
      else finished true (dir ++ (threaded ++ (made_client ∷ []))) (behind (serve fuel c) cleanup)

  abbrev pub started : ℕ → Option AgentConfig → Option (Bool × List Act)
  started fuel none = some (false, [])
  started fuel (some c) = run_agent fuel c

  unfoldable pub main : ℕ → Option (Bool × List Act)
  unfolding read_config run_agent
  main fuel = started fuel (read_config y.env)
