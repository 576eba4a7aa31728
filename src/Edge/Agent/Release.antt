-- ===== src/Edge/Agent/Release.antt =====
-- What the agent holds is let go at its end, in an order in which nothing is used that is gone.
use nirantara.Common.{◌≡◌, ◌⊎◌, Bool, true, false, not, ◌&&◌, Option, some, List, [], ◌∷◌}
use nirantara.Common.Options.{◌>>=◌, ◌>>◌, guard}
use nirantara.Common.Text.{Bytes}
use nirantara.Edge.Agent.{
  Act, initialised_library, cleaned_library, made_dir, opened_buffer, started_thread, made_client,
  looped, reconnected, disconnected, destroyed_client, stopped_thread, closed_buffer, System,
}

pub record Held : Type 0 where
  pub buffer : Bool
  pub library : Bool
  pub thread : Bool
  pub client : Bool

abbrev pub nothing : Held
nothing = record { buffer = false; library = false; thread = false; client = false }

-- What is held after an act, if it uses nothing that is not there: a client needs the library, and
-- the buffer, since its messages go there, and the buffer is closed when neither a client nor the thread is left.
abbrev pub after : Act → Held → Option Held
after (made_dir path) h = some h
after (opened_buffer path) h = guard (not h.buffer) >> some (record h { buffer = true })
after (started_thread ctx) h = guard (not h.thread) >> some (record h { thread = true })
after made_client h =
    guard (h.buffer && h.library && not h.client) >> some (record h { client = true })
after initialised_library h = guard (not h.library) >> some (record h { library = true })
after cleaned_library h = guard (h.library && not h.client) >> some (record h { library = false })
after looped h = guard h.client >> some h
after reconnected h = guard h.client >> some h
after disconnected h = guard h.client >> some h
after destroyed_client h = guard h.client >> some (record h { client = false })
after stopped_thread h = guard h.thread >> some (record h { thread = false })
after closed_buffer h =
    guard (h.buffer && not h.client && not h.thread) >> some (record h { buffer = false })

unfoldable pub after_all : List Act → Held → Option Held
after_all [] h = some h
after_all (act ∷ acts) h = after act h >>= λ h'. after_all acts h'

abbrev all_held : Held
all_held = record { buffer = true; library = true; thread = true; client = true }

module _ (y : System) where
  -- What is left is nothing, or after a failure the database that SQLite opened but `buffer_init`
  -- could not set up, or the library where `mosquitto_new` failed.
  abbrev pub Leaves : Bool → Option Held → Type 0
  Leaves code left =
      (left ≡ some nothing)
      ⊎ ((code ≡ false)
          × (left ≡ some (record nothing { buffer = true }))
          × ((path : Bytes) × (y.opens_db path ≡ true) × (y.sets_up path ≡ false)))
      ⊎ ((code ≡ false)
          × (left ≡ some (record nothing { library = true }))
          × ((name : Bytes) × (y.new_client name ≡ false)))

  abbrev Releases : Option (Bool × List Act) → Type 0
  Releases r =
      (code : Bool) × (acts : List Act) × (r ≡ some (code, acts))
      × Leaves code (after_all acts nothing)
