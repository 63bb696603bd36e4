-- ===== src/Controller/Drains.antt =====
-- cmd/blackstart/controller_runtime.go: the work that is due, queued or with a worker comes to its end, and leaves nothing active.
use blackstart.Prelude.{
  ℕ, ◌≤◌, ◌<◌, Bool, true, false, Option, none, some, List, [], ◌∷◌, contains, length, ltb, ◌≡◌,
  inl, inr, refl, ap, subst, if_true, ◌∙◌, arith, ◌⊎◌, String, All, false≢true,
}
use blackstart.Prelude.Dict.{Dict}
use blackstart.Controller.Scheduler.{ScheduledSource, Entry, Run}
use blackstart.Controller.Dispatch.{
  Stage, received, started, ended, Controller, Action, dispatch, receive, start, finish, release,
  worker_at, dispatch_next, receive_next, start_at, finish_at, release_at, step, Reachable,
}
use blackstart.Controller.Counts.{copies, busy}
use blackstart.Controller.Flags.{has_run, at, is_received, is_started, AllAbout}
use blackstart.Controller.Owned.{AllAbout-mono, waiting, running}
use blackstart.Controller.Settled.{first_load, Reachable-IsOwned}
use blackstart.Controller.Exclusive.{Reachable-IsSound}
use blackstart.Controller.Steps.{all_steps, pending, is_work, Fewer, step-Fewer}

module _ (max_parallel : ℕ) where
  -- A step of work that can be taken.
  abbrev pub CanWork : Controller → Type 0
  CanWork c =
      (action : Action) × (is_work action ≡ true)
      × ((d : Controller) × (step max_parallel action c ≡ some d))

  worker-CanWork :
      (c : Controller) (ws : List (Run × Stage)) (w : Run × Stage) → c.workers ≡ w ∷ ws → CanWork c
  unfolding step
  worker-CanWork c ws (run, received) same =
      (start 0, refl, (_, ap (λ v. start_at max_parallel 0 (worker_at 0 v) c) same))
  worker-CanWork c ws (run, started) same =
      (finish 0 0, refl, (_, ap (λ v. finish_at max_parallel 0 0 (worker_at 0 v) c) same))
  worker-CanWork c ws (run, ended) same =
      (release 0, refl, (_, ap (λ v. release_at max_parallel 0 (worker_at 0 v) c) same))

  queue-CanWork :
      (c : Controller) (run : Run) (rest : List Run)
      → 1 ≤ max_parallel
      → c.workers ≡ []
      → c.queue ≡ run ∷ rest
      → CanWork c
  unfolding step
  queue-CanWork c run rest some_worker idle same = (
    receive,
    refl,
    (
      record c { queue = rest; workers = (run, received) ∷ c.workers },
      ap (λ runs. receive_next max_parallel runs c) same
          ∙ if_true {b = ltb (length c.workers) max_parallel} (λ (o : Option Controller). o) _ none
              (ground (arith, ap length idle)),
    ),
  )

  can_work :
      (c : Controller) (due queue : List Run) (ws : List (Run × Stage))
      → 1 ≤ max_parallel
      → c.due ≡ due
      → c.queue ≡ queue
      → c.workers ≡ ws
      → (pending c ≡ 0) ⊎ CanWork c
  unfolding step all_steps
  can_work c due queue (w ∷ ws) h d q busy = inr (worker-CanWork c ws w busy)
  can_work c (run ∷ due) queue [] h d q busy =
      inr (dispatch 0, refl, (_, ap (λ runs. dispatch_next max_parallel 0 runs c) d))
  can_work c [] (run ∷ queue) [] h d q idle = inr (queue-CanWork c run queue h idle q)
  can_work c [] [] [] h d q idle = inl (omega (arith, ap length d, ap length q, ap all_steps idle))

  -- No key is active, and no entry is queued or running.
  abbrev pub IsIdle : Controller → Type 0
  IsIdle c =
      ((a : String) → contains c.active_keys a ≡ false)
      × All (λ named. (named.1.queued ≡ false) × (named.1.running ≡ false)) c.entries

  no_flags :
      (entries : Dict Entry)
      → AllAbout (λ id. false) (λ id. false) entries
      → All (λ named. (named.1.queued ≡ false) × (named.1.running ≡ false)) entries
  no_flags [] about = tt
  no_flags ((id, e) ∷ rest) about =
      ((unset e.queued about.0.0, unset e.running about.0.1), no_flags rest about.1)
    where
      unset : (b : Bool) → (b ≡ true → false ≡ true) → b ≡ false
      unset true h = absurd (false≢true (h refl))
      unset false h = refl

  -- Where no steps are left there is no run.
  nothing_left :
      (c : Controller) (due queue : List Run) (ws : List (Run × Stage))
      → c.due ≡ due
      → c.queue ≡ queue
      → c.workers ≡ ws
      → pending c ≡ 0
      → (c.due ≡ []) × (c.queue ≡ []) × (c.workers ≡ [])
  unfolding all_steps
  nothing_left c [] [] [] d q busy none_left = (d, q, busy)
  nothing_left c (run ∷ due) queue ws d q busy none_left =
      absurd (omega (arith, ap length d, none_left))
  nothing_left c [] (run ∷ queue) ws d q busy none_left =
      absurd (omega (arith, ap length q, none_left))
  nothing_left c [] [] ((run, received) ∷ ws) d q busy none_left =
      absurd (omega (arith, ap all_steps busy, none_left))
  nothing_left c [] [] ((run, started) ∷ ws) d q busy none_left =
      absurd (omega (arith, ap all_steps busy, none_left))
  nothing_left c [] [] ((run, ended) ∷ ws) d q busy none_left =
      absurd (omega (arith, ap all_steps busy, none_left))

  settled :
      (now : ℕ) (wfs : List ScheduledSource) (c : Controller)
      → Reachable max_parallel (first_load now wfs) c
      → pending c ≡ 0
      → IsIdle c
  settled now wfs c reached none_left =
      let (d, q, busy_none) = nothing_left c c.due c.queue c.workers refl refl refl none_left in
      let sound = Reachable-IsSound max_parallel (first_load now wfs) c reached in
      (
        (λ a. ground (arith, sound.guarded a, ap (copies a) q, ap (busy a) busy_none)),
        no_flags c.entries (
            AllAbout-mono (waiting c) (running c) (λ id. false) (λ id. false) c.entries
              (λ id. (
                (λ h. ground (
                  arith,
                  ap (has_run id) d,
                  ap (has_run id) q,
                  ap (at is_received id) busy_none,
                  h,
                )),
                (λ h. ground (arith, ap (at is_started id) busy_none, h)),
              ))
              (Reachable-IsOwned max_parallel now wfs c reached)),
      )

  -- In every state that the goroutines reach from a first load, when there is a worker: either no run
  -- is due, queued or with a worker, and then no key is active and no entry is queued or running, so
  -- that each can become due again; or a step of the dispatcher's loop or of a worker can be taken.
  -- Each such step leaves fewer steps to take, so without new ticks and refreshes the first comes to
  -- hold. A run that the dispatcher drops, since its key is active or the queue is full, ends there.
  pub step-Drains :
      (now : ℕ) (wfs : List ScheduledSource) (c : Controller)
      → 1 ≤ max_parallel
      → Reachable max_parallel (first_load now wfs) c
      → (((pending c ≡ 0) × IsIdle c) ⊎ CanWork c)
        × ((action : Action) (d : Controller)
            → is_work action ≡ true
            → step max_parallel action c ≡ some d
            → pending d < pending c)
  step-Drains now wfs c some_worker reached = (
    elim (can_work c c.due c.queue c.workers some_worker refl refl refl) [
      | inl none_left ↦ inl (none_left, settled now wfs c reached none_left)
      | inr work ↦ inr work
    ],
    (λ action d work stepped.
        subst (Fewer max_parallel c) stepped (step-Fewer max_parallel action c work)),
  )
