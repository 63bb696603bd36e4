-- ===== src/Controller/Settled.antt =====
-- cmd/blackstart/controller_runtime.go: in every state that the goroutines reach from a first load, a
-- queued entry has a run that waits, and a running entry has one that runs.
use blackstart.Prelude.{
  ℕ, String, ◌||◌, Option, none, some, List, [], ◌∷◌, contains, length, ltb, ◌*◌, ◌≡◌, inl, inr,
  refl, ap, subst, arith, Bool-cases,
}
use blackstart.Prelude.Dict.{Dict}
use blackstart.Controller.Scheduler.{
  ScheduledSource, Entry, Run, run_key, replace_from_workflows, due_workflows, mark_running,
  mark_done, mark_queue_full,
}
use blackstart.Controller.Dispatch.{
  Stage, received, started, ended, Controller, Action, tick, dispatch, refresh, receive, start,
  finish, release, worker_at, move_to, retry_delay, dispatch_next, when_free, receive_next,
  start_at, finish_at, release_at, dispatch_one, step, Reachable, at_start, after, delete_key,
}
use blackstart.Controller.Flags.{
  has_run, at, is_received, is_started, has_run-append, at-move_to, at-move_to_self, at-retire,
  update-AllAbout,
}
use blackstart.Controller.Owned.{
  AllAbout-mono, due_workflows-AllAbout, replace_from_workflows-AllAbout, waiting, running, IsOwned,
}

-- The entries of the first load.
abbrev pub first_load : ℕ → List ScheduledSource → Dict Entry
first_load now wfs = replace_from_workflows now wfs []

module _ (max_parallel : ℕ) where
  abbrev Keeps : Option Controller → Type 0
  Keeps none = Unit
  Keeps (some d) = IsOwned d

  -- A run that the dispatcher drops leaves its entry not queued.
  dropped-IsOwned :
      (now : ℕ) (run : Run) (rest : List Run) (keys : List String) (c : Controller)
      → c.due ≡ run ∷ rest
      → IsOwned c
      → IsOwned (record c {
        entries = mark_queue_full now retry_delay run.entry c.entries;
        active_keys = keys;
        due = rest;
      })
  unfolding mark_queue_full
  dropped-IsOwned now run rest keys c same owned =
      update-AllAbout (waiting c) (running c)
        (λ id. has_run id rest || (has_run id c.queue || at is_received id c.workers)) (running c)
        run.entry _ c.entries (λ e about. ((λ h. cc), about.1))
        (λ id other. ((λ h. ground (arith, ap (has_run id) same, other, h)), (λ h. h))) owned

  dispatch_one-IsOwned :
      (now : ℕ) (run : Run) (rest : List Run) (c : Controller)
      → c.due ≡ run ∷ rest
      → IsOwned c
      → IsOwned (dispatch_one max_parallel now run rest c)
  unfolding dispatch_one
  dispatch_one-IsOwned now run rest c same owned =
      elim (Bool-cases (contains c.active_keys (run_key run))) [
        | inl active ↦ rw active (dropped-IsOwned now run rest c.active_keys c same owned)
        | inr idle ↦ rw idle (elim (Bool-cases (ltb (length c.queue) (max_parallel * 4))) [
          | inl room ↦ rw room (
              AllAbout-mono (waiting c) (running c) _ (running c) c.entries
                (λ id. (
                  (λ h. ground (arith, ap (has_run id) same, has_run-append id c.queue run, h)),
                  (λ h. h),
                ))
                owned)
          | inr full ↦ rw full (
              dropped-IsOwned now run rest (delete_key (run_key run) (run_key run ∷ c.active_keys))
                c same owned)
        ])
      ]

  dispatch_next-Keeps :
      (now : ℕ) (runs : List Run) (c : Controller)
      → c.due ≡ runs
      → IsOwned c
      → Keeps (dispatch_next max_parallel now runs c)
  dispatch_next-Keeps now [] c same owned = tt
  dispatch_next-Keeps now (run ∷ rest) c same owned = dispatch_one-IsOwned now run rest c same owned

  tick-Keeps :
      (now : ℕ) (runs : List Run) (c : Controller)
      → c.due ≡ runs
      → IsOwned c
      → Keeps (
          when_free max_parallel runs (record c {
            entries = (due_workflows now c.entries).1;
            due = (due_workflows now c.entries).0;
          }))
  tick-Keeps now [] c same owned =
      due_workflows-AllAbout now (λ id. has_run id c.queue || at is_received id c.workers)
        (running c) c.entries
        (AllAbout-mono (waiting c) (running c) _ (running c) c.entries
          (λ id. ((λ h. ground (arith, ap (has_run id) same, h)), (λ h. h))) owned)
  tick-Keeps now (run ∷ rest) c same owned = tt

  refresh-Keeps :
      (now : ℕ) (wfs : List ScheduledSource) (runs : List Run) (c : Controller)
      → IsOwned c
      → Keeps (
          when_free max_parallel runs
            (record c { entries = replace_from_workflows now wfs c.entries }))
  refresh-Keeps now wfs [] c owned =
      replace_from_workflows-AllAbout (waiting c) (running c) now wfs c.entries owned
  refresh-Keeps now wfs (run ∷ rest) c owned = tt

  receive_next-Keeps :
      (runs : List Run) (c : Controller)
      → c.queue ≡ runs
      → IsOwned c
      → Keeps (receive_next max_parallel runs c)
  receive_next-Keeps [] c same owned = tt
  receive_next-Keeps (run ∷ rest) c same owned =
      elim (Bool-cases (ltb (length c.workers) max_parallel)) [
        | inl idle ↦ rw idle (
            AllAbout-mono (waiting c) (running c) _ _ c.entries
              (λ id. ((λ h. ground (arith, ap (has_run id) same, h)), (λ h. h))) owned)
        | inr all_busy ↦ rw all_busy tt
      ]

  start_at-Keeps :
      (i : ℕ) (o : Option (Run × Stage)) (c : Controller)
      → worker_at i c.workers ≡ o
      → IsOwned c
      → Keeps (start_at max_parallel i o c)
  unfolding mark_running
  start_at-Keeps i none c found owned = tt
  start_at-Keeps i (some (run, received)) c found owned =
      let d = record c { workers = move_to i started c.workers } in
      update-AllAbout (waiting c) (running c) (waiting d) (running d) run.entry _ c.entries
        (λ e about. (
          (λ h. cc),
          (λ h. at-move_to_self is_started i started c.workers (run, received) found refl),
        ))
        (λ id other. (
          (λ h. rw (at-move_to is_received id i started c.workers (run, received) found other) h),
          (λ h. rw (at-move_to is_started id i started c.workers (run, received) found other) h),
        ))
        owned
  start_at-Keeps i (some (run, started)) c found owned = tt
  start_at-Keeps i (some (run, ended)) c found owned = tt

  finish_at-Keeps :
      (now i : ℕ) (o : Option (Run × Stage)) (c : Controller)
      → worker_at i c.workers ≡ o
      → IsOwned c
      → Keeps (finish_at max_parallel now i o c)
  unfolding mark_done
  finish_at-Keeps now i none c found owned = tt
  finish_at-Keeps now i (some (run, received)) c found owned = tt
  finish_at-Keeps now i (some (run, started)) c found owned =
      let d = record c { workers = move_to i ended c.workers } in
      update-AllAbout (waiting c) (running c) (waiting d) (running d) run.entry _ c.entries
        (λ e about. ((λ h. cc), (λ h. cc)))
        (λ id other. (
          (λ h. rw (at-move_to is_received id i ended c.workers (run, started) found other) h),
          (λ h. rw (at-move_to is_started id i ended c.workers (run, started) found other) h),
        ))
        owned
  finish_at-Keeps now i (some (run, ended)) c found owned = tt

  release_at-Keeps :
      (i : ℕ) (o : Option (Run × Stage)) (c : Controller)
      → worker_at i c.workers ≡ o
      → IsOwned c
      → Keeps (release_at max_parallel i o c)
  release_at-Keeps i none c found owned = tt
  release_at-Keeps i (some (run, received)) c found owned = tt
  release_at-Keeps i (some (run, started)) c found owned = tt
  release_at-Keeps i (some (run, ended)) c found owned =
      AllAbout-mono (waiting c) (running c) _ _ c.entries
        (λ id. (
          (λ h. rw (at-retire is_received id i c.workers (run, ended) found refl) h),
          (λ h. rw (at-retire is_started id i c.workers (run, ended) found refl) h),
        ))
        owned

  step-Keeps : (action : Action) (c : Controller) → IsOwned c → Keeps (step max_parallel action c)
  unfolding step
  step-Keeps (tick now) c owned = tick-Keeps now c.due c refl owned
  step-Keeps (dispatch now) c owned = dispatch_next-Keeps now c.due c refl owned
  step-Keeps (refresh now wfs) c owned = refresh-Keeps now wfs c.due c owned
  step-Keeps receive c owned = receive_next-Keeps c.queue c refl owned
  step-Keeps (start i) c owned = start_at-Keeps i (worker_at i c.workers) c refl owned
  step-Keeps (finish now i) c owned = finish_at-Keeps now i (worker_at i c.workers) c refl owned
  step-Keeps (release i) c owned = release_at-Keeps i (worker_at i c.workers) c refl owned

  pub Reachable-IsOwned :
      (now : ℕ) (wfs : List ScheduledSource) (c : Controller)
      → Reachable max_parallel (first_load now wfs) c
      → IsOwned c
  Reachable-IsOwned now wfs c at_start = replace_from_workflows-AllAbout _ _ now wfs [] tt
  Reachable-IsOwned now wfs d (after action c d' reached stepped) =
      subst Keeps stepped (step-Keeps action c (Reachable-IsOwned now wfs c reached))
