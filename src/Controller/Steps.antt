-- ===== src/Controller/Steps.antt =====
-- cmd/blackstart/controller_runtime.go: how many steps the work that is due, queued or with a worker
-- has left to take.
use blackstart.Prelude.{
  ℕ, zero, suc, ◌+◌, ◌*◌, ◌<◌, Bool, true, false, Option, none, some, List, [], ◌∷◌, contains,
  length, ltb, ◌≡◌, inl, inr, refl, ap, arith, Bool-cases,
}
use blackstart.Controller.Scheduler.{Run, run_key}
use blackstart.Controller.Dispatch.{
  Stage, received, started, ended, Controller, Action, tick, dispatch, refresh, receive, start,
  finish, release, worker_at, move_to, retire, dispatch_next, receive_next, start_at, finish_at,
  release_at, dispatch_one, step,
}
use blackstart.Controller.Counts.{length-append_one}

-- The steps that a worker has left to take.
abbrev steps_left : Stage → ℕ
steps_left received = 3
steps_left started = 2
steps_left ended = 1

unfoldable pub all_steps : List (Run × Stage) → ℕ
all_steps [] = 0
all_steps ((run, stage) ∷ ws) = steps_left stage + all_steps ws

-- At most so many steps are left for the runs that are due, queued or with a worker.
abbrev pub pending : Controller → ℕ
pending c = length c.due * 5 + length c.queue * 4 + all_steps c.workers

-- The steps of the dispatcher's loop and of the workers, as opposed to those of the tickers.
abbrev pub is_work : Action → Bool
is_work (tick now) = false
is_work (refresh now wfs) = false
is_work _ = true

same_steps : (v w : Run × Stage) → some v ≡ some w → steps_left v.1 ≡ steps_left w.1
same_steps v w h = ap left h
  where
    left : Option (Run × Stage) → ℕ
    left none = 0
    left (some u) = steps_left u.1

all_steps-move_to :
    (i : ℕ) (s : Stage) (ws : List (Run × Stage)) (w : Run × Stage)
    → worker_at i ws ≡ some w
    → all_steps (move_to i s ws) + steps_left w.1 ≡ all_steps ws + steps_left s
unfolding all_steps move_to
all_steps-move_to i s [] w h = cc
all_steps-move_to zero s ((run, old) ∷ ws) w h = omega (arith, same_steps (run, old) w h)
all_steps-move_to (suc i) s ((run, old) ∷ ws) w h =
    let later = all_steps-move_to i s ws w h in omega arith

all_steps-retire :
    (i : ℕ) (ws : List (Run × Stage)) (w : Run × Stage)
    → worker_at i ws ≡ some w
    → all_steps (retire i ws) + steps_left w.1 ≡ all_steps ws
unfolding all_steps retire
all_steps-retire i [] w h = cc
all_steps-retire zero ((run, old) ∷ ws) w h = omega (arith, same_steps (run, old) w h)
all_steps-retire (suc i) ((run, old) ∷ ws) w h =
    let later = all_steps-retire i ws w h in omega arith

module _ (max_parallel : ℕ) where
  -- The state that a step leads to, where there is one, has fewer steps left.
  abbrev pub Fewer : Controller → Option Controller → Type 0
  Fewer c none = Unit
  Fewer c (some d) = pending d < pending c

  dispatch_next-Fewer :
      (now : ℕ) (runs : List Run) (c : Controller)
      → c.due ≡ runs
      → Fewer c (dispatch_next max_parallel now runs c)
  unfolding dispatch_one
  dispatch_next-Fewer now [] c same = tt
  dispatch_next-Fewer now (run ∷ rest) c same =
      let size = ap length same in
      elim (Bool-cases (contains c.active_keys (run_key run))) [
        | inl active ↦ rw active (omega arith)
        | inr idle ↦ rw idle (elim (Bool-cases (ltb (length c.queue) (max_parallel * 4))) [
          | inl room ↦ rw room (omega (arith, length-append_one c.queue run))
          | inr full ↦ rw full (omega arith)
        ])
      ]

  receive_next-Fewer :
      (runs : List Run) (c : Controller)
      → c.queue ≡ runs
      → Fewer c (receive_next max_parallel runs c)
  unfolding all_steps
  receive_next-Fewer [] c same = tt
  receive_next-Fewer (run ∷ rest) c same =
      let size = ap length same in
      elim (Bool-cases (ltb (length c.workers) max_parallel)) [
        | inl idle ↦ rw idle (omega arith)
        | inr all_busy ↦ rw all_busy tt
      ]

  start_at-Fewer :
      (i : ℕ) (o : Option (Run × Stage)) (c : Controller)
      → worker_at i c.workers ≡ o
      → Fewer c (start_at max_parallel i o c)
  start_at-Fewer i none c found = tt
  start_at-Fewer i (some (run, received)) c found =
      omega (arith, all_steps-move_to i started c.workers (run, received) found)
  start_at-Fewer i (some (run, started)) c found = tt
  start_at-Fewer i (some (run, ended)) c found = tt

  finish_at-Fewer :
      (now i : ℕ) (o : Option (Run × Stage)) (c : Controller)
      → worker_at i c.workers ≡ o
      → Fewer c (finish_at max_parallel now i o c)
  finish_at-Fewer now i none c found = tt
  finish_at-Fewer now i (some (run, received)) c found = tt
  finish_at-Fewer now i (some (run, started)) c found =
      omega (arith, all_steps-move_to i ended c.workers (run, started) found)
  finish_at-Fewer now i (some (run, ended)) c found = tt

  release_at-Fewer :
      (i : ℕ) (o : Option (Run × Stage)) (c : Controller)
      → worker_at i c.workers ≡ o
      → Fewer c (release_at max_parallel i o c)
  release_at-Fewer i none c found = tt
  release_at-Fewer i (some (run, received)) c found = tt
  release_at-Fewer i (some (run, started)) c found = tt
  release_at-Fewer i (some (run, ended)) c found =
      omega (arith, all_steps-retire i c.workers (run, ended) found)

  pub step-Fewer :
      (action : Action) (c : Controller)
      → is_work action ≡ true
      → Fewer c (step max_parallel action c)
  unfolding step
  step-Fewer (tick now) c h = cc
  step-Fewer (dispatch now) c h = dispatch_next-Fewer now c.due c refl
  step-Fewer (refresh now wfs) c h = cc
  step-Fewer receive c h = receive_next-Fewer c.queue c refl
  step-Fewer (start i) c h = start_at-Fewer i (worker_at i c.workers) c refl
  step-Fewer (finish now i) c h = finish_at-Fewer now i (worker_at i c.workers) c refl
  step-Fewer (release i) c h = release_at-Fewer i (worker_at i c.workers) c refl
