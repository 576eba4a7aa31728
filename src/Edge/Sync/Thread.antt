-- ===== src/Edge/Sync/Thread.antt =====
-- `sync_thread_fn` of edge/src/sync.c: the waiting, the cycles and the final flush.
use nirantara.Common.{
  ℕ, zero, suc, ◌+◌, ◌≤◌, ◌<◌, ◌≡◌, refl, ap, sym, ◌∙◌, Bool, true, false, inl, inr, Option, none,
  some, List, [], ◌∷◌, ◌++◌, if◌then◌else◌, ltb, Bool-cases, append_assoc, arith,
}
use mathlib.Core.Bool.{false≢true}
use native.Mathlib.Decide.{dec_lt}
use nirantara.Edge.Sync.{Context}

-- What the thread does: `sleep(1)` and `do_sync(ctx)`.
pub data Action : Type 0 where
  sleep sync : Action

abbrev pub default_interval : ℕ
default_interval = 600

abbrev pub interval_of : Context → ℕ
interval_of ctx = if ltb 0 ctx.interval_sec then ctx.interval_sec else default_interval

-- What `atomic_load(&ctx->stop)` returns, by the number of the load.
module _ (stop : ℕ → Bool) where
  -- The inner loop on the rounds that are left, from the `load`-th load on: its actions, whether it
  -- was left by `goto done`, and the next load.
  unfoldable pub wait : ℕ → ℕ → List Action × Bool × ℕ
  wait zero load = ([], false, load)
  wait (suc rounds) load =
      let (actions, stopped, next) = wait rounds (load + 1) in
      if stop load then ([], true, load + 1) else (sleep ∷ actions, stopped, next)

  -- The outer loop, with fuel for its rounds; `none` means that the fuel ran out.
  unfoldable pub run : ℕ → ℕ → ℕ → Option (List Action)
  unfolding wait
  run zero interval load = none
  run (suc fuel) interval load =
      let (actions, stopped, next) = wait interval (load + 1) in
      let rest : Option (List Action) = elim (run fuel interval next) [
        | none ↦ none
        | some more ↦ some (actions ++ sync ∷ more)
      ] in
      if stop load then some (sync ∷ []) else if stopped then some (actions ++ sync ∷ []) else rest

-- `sync_thread_fn`
unfoldable pub sync_thread : (ℕ → Bool) → ℕ → Context → Option (List Action)
unfolding run
sync_thread stop fuel ctx = run stop fuel (interval_of ctx) 0

abbrev pub replicate : ℕ → Action → List Action
replicate zero a = []
replicate (suc n) a = a ∷ replicate n a

-- `count` whole cycles, each a full interval of sleeps and a sync.
abbrev pub cycles : ℕ → ℕ → List Action
cycles interval zero = []
cycles interval (suc count) = replicate interval sleep ++ sync ∷ cycles interval count

-- The thread runs whole cycles, then at most one interval of further sleeps, then a last sync.
abbrev pub IsSchedule : ℕ → List Action → Type 0
IsSchedule interval actions =
    (count : ℕ) × (left : ℕ) × (left ≤ interval)
    × (actions ≡ cycles interval count ++ (replicate left sleep ++ sync ∷ []))

-- One more whole cycle in front of a schedule.
cycle_more :
    (interval count left n : ℕ) (waited more : List Action)
    → waited ≡ replicate n sleep
    → n ≡ interval
    → more ≡ cycles interval count ++ (replicate left sleep ++ sync ∷ [])
    → waited ++ sync ∷ more ≡ cycles interval (suc count) ++ (replicate left sleep ++ sync ∷ [])
cycle_more interval count left n waited more w e m =
    rw (w, e, m) (sym (append_assoc (replicate interval sleep) (sync ∷ cycles interval count) _))

module _ (stop : ℕ → Bool) where
  -- The inner loop sleeps in every round it makes, and makes all of them unless it is stopped.
  wait_sleeps :
      (rounds load : ℕ)
      → (n : ℕ) × (n ≤ rounds)
        × ((wait stop rounds load).0 ≡ replicate n sleep)
        × ((wait stop rounds load).1 ≡ false → n ≡ rounds)
        × (load ≤ (wait stop rounds load).2)
  unfolding wait
  wait_sleeps zero load = (0, omega arith, refl, (λ h. refl), omega arith)
  wait_sleeps (suc rounds) load = elim (Bool-cases (stop load)) [
    | inl e ↦ rw e (0, omega arith, refl, (λ h. cc), omega arith)
    | inr e ↦
        let (n, le, same, full, later) = wait_sleeps rounds (load + 1) in
        rw e (suc n, omega arith, ap (◌∷◌ sleep) same, (λ h. ap suc (full h)), omega arith)
  ]

  run-IsSchedule :
      (limit : ℕ)
      → ((k : ℕ) → limit ≤ k → stop k ≡ true)
      → (fuel interval load : ℕ) → limit < fuel + load
      → 0 < fuel
      → (actions : List Action) × (run stop fuel interval load ≡ some actions)
        × IsSchedule interval actions
  unfolding run
  run-IsSchedule limit stops zero interval load enough pos = elim pos [ ]
  run-IsSchedule limit stops (suc fuel) interval load enough pos = elim (Bool-cases (stop load)) [
    | inl e ↦ (sync ∷ [], rw e, (0, 0, omega arith, refl))
    | inr e ↦
        let (n, le, same, full, later) = wait_sleeps interval (load + 1) in
        let early : load < limit = elim (dec_lt load limit) [
          | yes h ↦ h
          | no h ↦ absurd (false≢true (sym e ∙ stops load (omega arith)))
        ] in
        elim (Bool-cases (wait stop interval (load + 1)).1) [
          | inl left_early ↦ (
            (wait stop interval (load + 1)).0 ++ sync ∷ [],
            rw (e, left_early),
            (0, n, le, ap (λ a. a ++ sync ∷ []) same),
          )
          | inr whole ↦
              let next = (wait stop interval (load + 1)).2 in
              let (more, runs, (count, left, fits, shape)) =
                run-IsSchedule limit stops fuel interval next (omega arith) (omega arith) in
              (
                (wait stop interval (load + 1)).0 ++ sync ∷ more,
                rw (e, whole, runs),
                (
                  suc count,
                  left,
                  fits,
                  cycle_more interval count left n _ more same (full whole) shape,
                ),
              )
        ]
  ]

-- The thread ends, whatever it is told in between, once `stop` stays set: with more fuel than loads
-- of `stop` up to then it has made whole cycles of one interval and one sync, at most one interval
-- of sleeps after the last of them, and a final sync.
pub sync_thread_ends :
    (stop : ℕ → Bool) (limit fuel : ℕ) (ctx : Context)
    → ((k : ℕ) → limit ≤ k → stop k ≡ true)
    → limit < fuel
    → (actions : List Action) × (sync_thread stop fuel ctx ≡ some actions)
      × IsSchedule (interval_of ctx) actions
unfolding sync_thread
sync_thread_ends stop limit fuel ctx stops enough =
    run-IsSchedule stop limit stops fuel (interval_of ctx) 0 (omega arith) (omega arith)
