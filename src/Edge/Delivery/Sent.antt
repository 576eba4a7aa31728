-- ===== src/Edge/Delivery/Sent.antt =====
-- What the server gets over the steps of an agent: messages, cycles, both at once, and signals.
use nirantara.Common.{
  ℕ, ◌≡◌, refl, ap, sym, subst, ◌∙◌, Option, none, some, List, ◌∷◌, [], ◌++◌, arith,
}
use nirantara.Common.Number.Print.{print}
use nirantara.Edge.Buffer.{Event, event_of}
use nirantara.Common.Text.{Bytes, cstr}
use nirantara.Edge.Agent.{on_signal}
use nirantara.Edge.Postgres.{Postgres, PostgresLaws, GameEvent}
use nirantara.Edge.Sqlite.{Row, IsRow, Sqlite, SqliteLaws}
use nirantara.Edge.Sync.{Context, sync_db_path, game_event, payload_text, extract_device_id}
use nirantara.Edge.Delivery.Flushing.{IsSafe}
use nirantara.Edge.Delivery.Growth.{
  Grows, Grows-weaken, Grows-then, IsSentFor, IsSentFor-after, GrowsBy, GrowsBy-same, do_sync-Grows,
  overlapped-Grows,
}
use nirantara.Edge.Delivery.Arriving.{InsertLaws}
use nirantara.Edge.Delivery.Steps.{
  World, Step, Reach, message, cycle, signal, overlap, here, later, Step-Extends, Reach-Extends,
}

module _ (ctx : Context) (beyond : ℕ → Bytes) (p : Postgres) (server : PostgresLaws p) (q : Sqlite)
    (sqlite : SqliteLaws q) where
  -- The rows of the buffer that is open at the path of the sync thread.
  abbrev rows_of : World ctx beyond p server q sqlite → List Row
  rows_of w = sqlite.rows (w.0 sync_db_path)

  Step-Grows :
      {w v : World ctx beyond p server q sqlite}
      → Step ctx beyond p server q sqlite w v
      → GrowsBy ctx beyond p server q sqlite (rows_of w) w.1 v.1
  unfolding on_signal
  Step-Grows (message topic payload disk s) =
      GrowsBy-same ctx beyond p server q sqlite (sqlite.rows (disk sync_db_path)) s s refl
  Step-Grows (cycle has_array has_memory disk s calm) =
      do_sync-Grows ctx beyond p server q sqlite has_array has_memory disk s calm
  Step-Grows (signal has_array has_memory disk s calm) =
      do_sync-Grows ctx beyond p server q sqlite has_array has_memory disk s calm
  Step-Grows (overlap has_memory messages disk s n opens calm marks count some_read) =
      overlapped-Grows ctx beyond p server q sqlite has_memory messages disk s n calm count

  module _ (inserts : InsertLaws q sqlite) where
    pub table-Grows :
        (w v : World ctx beyond p server q sqlite)
        → IsSafe ctx beyond p server q sqlite (w.0 sync_db_path) w.1
        → Reach ctx beyond p server q sqlite w v
        → Grows (IsSentFor ctx beyond (rows_of v)) (server.table w.1) (server.table v.1)
    table-Grows w v h here = GrowsBy-same ctx beyond p server q sqlite (rows_of w) w.1 w.1 refl
    table-Grows w v h (later {v = mid} run step) =
        let safe = (Reach-Extends ctx beyond p server q sqlite inserts run h).safe in
        let after = Step-Extends ctx beyond p server q sqlite inserts step safe in
        let weaken = IsSentFor-after ctx beyond (rows_of mid) (rows_of v) after.more after.same in
        let Before = IsSentFor ctx beyond (rows_of mid) in
        let After = IsSentFor ctx beyond (rows_of v) in
        Grows-then After (server.table w.1) (server.table mid.1) (server.table v.1)
          (Grows-weaken Before After _ _ weaken (table-Grows w mid h run))
          (Grows-weaken Before After _ _ weaken (Step-Grows step))

-- The memory behind each copy of a payload begins with a NUL, as the code needs it to.
abbrev pub IsTerminated : (ℕ → Bytes) → Type 0
IsTerminated beyond = (id : ℕ) → (rest : Bytes) × (beyond id ≡ 0 ∷ rest)

cstr-terminated : (s rest : Bytes) → cstr (s ++ 0 ∷ rest) ≡ cstr s
unfolding cstr
cstr-terminated [] rest = refl
cstr-terminated (c ∷ s) rest = ground (arith, cstr-terminated s rest)

abbrev pub text_of : Option Bytes → Option Bytes
text_of none = none
text_of (some payload) = some (cstr payload)

-- What the server is to have of an event: its topic, the device in it, its time, the name of the
-- node, and the payload up to its first NUL.
pub record IsCopy (ctx : Context) (ev : Event) (x : GameEvent) : Type 0 where
  pub topic : x.topic ≡ ev.topic
  pub payload : x.payload ≡ text_of ev.payload
  pub device_id : x.device_id ≡ extract_device_id ev.topic 64
  pub ts : x.ts ≡ print ev.ts
  pub edge_node : x.edge_node ≡ ctx.edge_node_id

payload_eq :
    (beyond rest : Bytes) (payload : Option Bytes)
    → beyond ≡ 0 ∷ rest
    → payload_text beyond payload ≡ text_of payload
unfolding payload_text
payload_eq beyond rest none e = refl
payload_eq beyond rest (some payload) e =
    ap (λ b. some (cstr (payload ++ b))) e ∙ ap some (cstr-terminated payload rest)

module _ (ctx : Context) (beyond : ℕ → Bytes) (ends : IsTerminated beyond) where
  pub game_event-IsCopy : (ev : Event) → IsCopy ctx ev (game_event ctx beyond ev)
  unfolding game_event
  game_event-IsCopy ev =
      let (rest, e) = ends ev.id in
      record {
        topic = refl;
        payload = payload_eq (beyond ev.id) rest ev.payload e;
        device_id = refl;
        ts = refl;
        edge_node = refl;
      }

  -- A row of the table that is a copy of a buffered event.
  abbrev pub IsCopied : List Row → GameEvent → Type 0
  IsCopied rows x = (r : Row) × IsRow r rows × IsCopy ctx (event_of r) x

  sent-IsCopied : (rows : List Row) (x : GameEvent) → IsSentFor ctx beyond rows x → IsCopied rows x
  sent-IsCopied rows x (r, m, e) =
      (r, m, subst (IsCopy ctx (event_of r)) (sym e) (game_event-IsCopy (event_of r)))

  module _ (p : Postgres) (server : PostgresLaws p) (q : Sqlite) (sqlite : SqliteLaws q)
      (inserts : InsertLaws q sqlite) where
    -- The agent sends nothing but what is buffered: over any messages, cycles and signals, and cycles
    -- in which messages arrive once the batch has been read, the server's table keeps every row that
    -- it has, and what comes behind them is, row by row, a copy of an event in the buffer: its topic,
    -- device, time and node, and its payload up to the first NUL. This is while no other client
    -- writes to the table, and the memory behind each payload, which the code lets libpq read, begins
    -- with a NUL. The ids in the buffer are unique and the server has what is flagged, at first, and
    -- in no cycle a transaction fails in its middle.
    pub server-Grows :
        (w v : World ctx beyond p server q sqlite)
        → IsSafe ctx beyond p server q sqlite (w.0 sync_db_path) w.1
        → Reach ctx beyond p server q sqlite w v
        → Grows (IsCopied (sqlite.rows (v.0 sync_db_path))) (server.table w.1) (server.table v.1)
    server-Grows w v h run =
        let rows = sqlite.rows (v.0 sync_db_path) in
        Grows-weaken (IsSentFor ctx beyond rows) (IsCopied rows) (server.table w.1)
          (server.table v.1) (sent-IsCopied rows)
          (table-Grows ctx beyond p server q sqlite inserts w v h run)
