-- ===== src/Edge/Tests/Delivery.antt =====
-- Messages and cycles of an agent whose buffer lists its rows.
use nirantara.Common.{◌≡◌, refl, true, false, some, [], ◌∷◌, All, arith}
use nirantara.Common.Text.{codes, cstr, equal}
use nirantara.Common.{◌⊎◌}
use nirantara.Edge.Agent.{on_message}
use nirantara.Edge.Buffer.{Disk, buffer_event_insert, insert_into, buffer_init, event_of, init_db}
use nirantara.Edge.Delivery.{NodupIds, one_unless}
use nirantara.Edge.Delivery as Delivery
use nirantara.Edge.Delivery.Draining.{calm}
use nirantara.Edge.Delivery.Cycle.{opened}
use nirantara.Edge.Delivery.Flushing.{IsSafe, IsCalm}
use nirantara.Edge.Delivery.Drained.{cycles, cycles_deliver}
use nirantara.Edge.Sync.{do_sync, sync_db_path}
use nirantara.Edge.Sync.Flush.{IsStored}
use nirantara.Edge.Delivery.Overlap.{overlapped}
use nirantara.Edge.Delivery.Arriving.{arrive}
use nirantara.Edge.Buffer.{read_unflushed, mark_flushed}
use nirantara.Edge.Delivery.Steps.{overlap, message, cycle, here, later}
use nirantara.Edge.Delivery.Found.{IsIn, HasKeys, message_kept}
use nirantara.Edge.Postgres.{GameEvent}
use nirantara.Edge.Sync.{pg_upsert, game_event}
use nirantara.Edge.Sqlite.{mark}
use nirantara.Common.{inl, inr, sym, ap, ◌∙◌}
use nirantara.Edge.Sqlite.{Row, IsRow}
use nirantara.Edge.Tests.Engines.{
  Tables, list_sqlite, list_sqlite-laws, list_postgres, list_postgres-laws,
}
use nirantara.Edge.Tests.Data.{context, beyond, tables, memory, move}
use nirantara.Edge.Tests.Laws.{selects, inserts, works, accepted}
use nirantara.Edge.Delivery.Growth.{Grows}
use nirantara.Edge.Delivery.Sent.{IsCopy, IsCopied, server-Grows}

abbrev empty_disk : Disk (list_sqlite true)
empty_disk path = []

abbrev after_message : Disk (list_sqlite true) → Disk (list_sqlite true)
after_message disk =
    (on_message (list_sqlite true) (some sync_db_path) (codes "game/d1/m") (some (codes "e4"))
      disk).1

abbrev synced : Disk (list_sqlite true) → Tables → Disk (list_sqlite true) × Tables
synced disk s = do_sync context beyond (list_postgres true) (list_sqlite true) true memory disk s

-- A message, a cycle, and another message.
abbrev world : Disk (list_sqlite true) × Tables
world = synced (after_message empty_disk) tables

is_calm :
    IsCalm context beyond
      (list_postgres true)
      (list_postgres-laws true)
      (list_sqlite true)
      (list_sqlite-laws true)
      memory
      (opened context beyond
        (list_postgres true)
        (list_postgres-laws true)
        (list_sqlite true)
        (list_sqlite-laws true)
        (after_message empty_disk))
      tables
unfolding on_message buffer_event_insert insert_into buffer_init init_db event_of equal
is_calm =
    calm context beyond (list_postgres true) (list_postgres-laws true) (list_sqlite true) works
      (list_sqlite-laws true) selects memory (λ n. refl) _ tables (accepted _ _ refl, tt)

empty-IsSafe :
    IsSafe context beyond
      (list_postgres true)
      (list_postgres-laws true)
      (list_sqlite true)
      (list_sqlite-laws true)
      []
      tables
unfolding list_sqlite-laws
empty-IsSafe = record { nodup = tt; delivered = tt }

one_key : HasKeys context beyond (world.0 sync_db_path)
unfolding on_message buffer_event_insert insert_into buffer_init init_db event_of equal do_sync
    read_unflushed pg_upsert mark_flushed game_event mark
one_key r r' (inl e) (inl e') h = ap event_of (sym e' ∙ e)
one_key r r' (inl e) (inr m) h = absurd m
one_key r r' (inr m) m' h = absurd m

message_kept_example :
    (r : Row) × IsRow r (world.0 sync_db_path)
    × ((event_of r).topic ≡ codes "game/d1/m")
    × ((event_of r).payload ≡ some (codes "e4"))
    × ((r.flushed ≡ false)
        ⊎ ((x : GameEvent) × IsIn x world.1.table × IsCopy context (event_of r) x))
unfolding list_sqlite-laws list_postgres-laws on_message buffer_event_insert insert_into cstr
message_kept_example =
    message_kept context beyond (λ id. ([], refl)) (list_postgres true) (list_postgres-laws true)
      (list_sqlite true) (list_sqlite-laws true) inserts (empty_disk, tables) world
      (codes "game/d1/m") (codes "e4") empty-IsSafe tt refl
      (later here (cycle true memory (after_message empty_disk) tables is_calm)) one_key

-- A message, and a cycle in which another one arrives.
abbrev overlapping : Disk (list_sqlite true) × Tables
overlapping =
    overlapped context beyond (list_postgres true) (list_sqlite true) memory
      ((codes "game/d1/m", codes "e5") ∷ []) (after_message empty_disk) tables

server-Grows_example :
    Grows
      (IsCopied context beyond (λ id. ([], refl)) (overlapping.0 sync_db_path))
      tables.table
      overlapping.1.table
unfolding list_sqlite-laws list_postgres-laws on_message buffer_event_insert insert_into buffer_init
    init_db event_of equal read_unflushed mark_flushed arrive
server-Grows_example =
    server-Grows context beyond (λ id. ([], refl)) (list_postgres true) (list_postgres-laws true)
      (list_sqlite true) (list_sqlite-laws true) inserts (empty_disk, tables) overlapping
      empty-IsSafe
      (later (later here (message (codes "game/d1/m") (codes "e4") empty_disk tables)) (
        overlap memory ((codes "game/d1/m", codes "e5") ∷ []) (after_message empty_disk) tables 1
          refl is_calm (λ id ids. (refl, refl)) refl refl))

abbrev move_disk : Disk (list_sqlite true)
move_disk path = move ∷ []

move-IsSafe :
    IsSafe context beyond
      (list_postgres true)
      (list_postgres-laws true)
      (list_sqlite true)
      (list_sqlite-laws true)
      (move ∷ [])
      tables
unfolding list_sqlite-laws
move-IsSafe = record { nodup = (tt, tt); delivered = ((λ e. cc), tt) }

abbrev drained : Disk (list_sqlite true) × Tables
drained =
    cycles context beyond (list_postgres true) (list_postgres-laws true) (list_sqlite true) works
      (list_sqlite-laws true) selects memory (λ n. refl) 1 move_disk tables

cycles_deliver_example :
    (Delivery.unflushed (drained.0 sync_db_path) ≡ 0)
    × All (IsStored context beyond drained.1.table) (event_of move ∷ [])
unfolding list_sqlite-laws list_postgres-laws event_of Delivery.unflushed
cycles_deliver_example =
    cycles_deliver context beyond (list_postgres true) (list_postgres-laws true) (list_sqlite true)
      works (list_sqlite-laws true) selects memory (λ n. refl) 1 move_disk tables move-IsSafe
      (accepted (event_of move) (codes "e4") refl, tt) (omega arith)
