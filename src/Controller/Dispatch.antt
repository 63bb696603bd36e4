-- ===== src/Controller/Dispatch.antt =====
-- cmd/blackstart/controller_runtime.go: `runWorkflowsControllerInK8s` after its start, as the steps
-- that its goroutines take: the loop of the dispatcher and the workers. What happens outside is in
-- the actions: the time, and the workflows that the cluster has.
use blackstart.Prelude.{
  ℕ, zero, suc, ◌*◌, String, Option, none, some, List, [], ◌∷◌, ◌++◌, contains, length, ltb, ◌==◌,
  if◌then◌else◌, ◌≡◌,
}
use blackstart.Prelude.Dict.{Dict}
use blackstart.Controller.Scheduler.{
  ScheduledSource, Entry, Run, run_key, replace_from_workflows, due_workflows, mark_running,
  mark_done, mark_queue_full,
}

-- Where a worker is in its round: it has received a run, is running it, or is about to release it.
pub data Stage : Type 0 where
  received started ended : Stage

pub record Controller : Type 0 where
  pub entries : Dict Entry
  -- `activeKeys`
  pub active_keys : List String
  pub queue : List Run
  -- the workers that are busy
  pub workers : List (Run × Stage)
  -- the runs that the dispatcher has yet to go over
  pub due : List Run

-- One step of a goroutine.
pub data Action : Type 0 where
  -- the dispatch ticker: `dueWorkflows`
  tick : ℕ → Action
  -- one round of the dispatcher's loop over `due`
  dispatch : ℕ → Action
  -- a refresh, for a signal or for the resync ticker
  refresh : ℕ → List ScheduledSource → Action
  -- an idle worker receives from the queue
  receive : Action
  -- the worker at a position: `markRunning`, `markDone`, `releaseActive`
  start : ℕ → Action
  finish : ℕ → ℕ → Action
  release : ℕ → Action

-- activeKeys.Delete
unfoldable pub delete_key : String → List String → List String
delete_key key [] = []
delete_key key (k ∷ ks) = let rest = delete_key key ks in if k == key then rest else k ∷ rest

abbrev pub worker_at : ℕ → List (Run × Stage) → Option (Run × Stage)
worker_at i [] = none
worker_at zero (w ∷ ws) = some w
worker_at (suc i) (w ∷ ws) = worker_at i ws

-- The worker at a position moves to another stage.
unfoldable pub move_to : ℕ → Stage → List (Run × Stage) → List (Run × Stage)
move_to i stage [] = []
move_to zero stage ((run, old) ∷ ws) = (run, stage) ∷ ws
move_to (suc i) stage (w ∷ ws) = w ∷ move_to i stage ws

-- The worker at a position ends its round.
unfoldable pub retire : ℕ → List (Run × Stage) → List (Run × Stage)
retire i [] = []
retire zero (w ∷ ws) = ws
retire (suc i) (w ∷ ws) = w ∷ retire i ws

-- controllerQueueRetryDelay
abbrev pub retry_delay : ℕ
retry_delay = 1000000000

module _ (max_parallel : ℕ) where
  -- One round of the loop over `due`: `LoadOrStore`, and the send to the queue with its default.
  unfoldable pub dispatch_one : ℕ → Run → List Run → Controller → Controller
  dispatch_one now run rest c =
      if contains c.active_keys (run_key run)
      then record c { entries = mark_queue_full now retry_delay run.entry c.entries; due = rest }
      else if ltb (length c.queue) (max_parallel * 4)
      then record c {
        active_keys = run_key run ∷ c.active_keys;
        queue = c.queue ++ run ∷ [];
        due = rest;
      }
      else record c {
        entries = mark_queue_full now retry_delay run.entry c.entries;
        active_keys = delete_key (run_key run) (run_key run ∷ c.active_keys);
        due = rest;
      }

  abbrev pub dispatch_next : ℕ → List Run → Controller → Option Controller
  dispatch_next now [] c = none
  dispatch_next now (run ∷ rest) c = some (dispatch_one now run rest c)

  -- The dispatcher takes another event when its loop over `due` is over.
  abbrev pub when_free : List Run → Controller → Option Controller
  when_free [] c = some c
  when_free (run ∷ rest) c = none

  abbrev pub receive_next : List Run → Controller → Option Controller
  receive_next [] c = none
  receive_next (run ∷ rest) c =
      if ltb (length c.workers) max_parallel
      then some (record c { queue = rest; workers = (run, received) ∷ c.workers })
      else none

  abbrev pub start_at : ℕ → Option (Run × Stage) → Controller → Option Controller
  start_at i (some (run, received)) c = some (record c {
    entries = mark_running run.entry c.entries;
    workers = move_to i started c.workers;
  })
  start_at i _ c = none

  abbrev pub finish_at : ℕ → ℕ → Option (Run × Stage) → Controller → Option Controller
  finish_at now i (some (run, started)) c = some (record c {
    entries = mark_done now run.entry c.entries;
    workers = move_to i ended c.workers;
  })
  finish_at now i _ c = none

  abbrev pub release_at : ℕ → Option (Run × Stage) → Controller → Option Controller
  release_at i (some (run, ended)) c = some (record c {
    active_keys = delete_key (run_key run) c.active_keys;
    workers = retire i c.workers;
  })
  release_at i _ c = none

  -- What a step does; `none` where the goroutine cannot take it.
  unfoldable pub step : Action → Controller → Option Controller
  unfolding dispatch_one
  step (tick now) c =
      let (runs, entries) = due_workflows now c.entries in
      when_free c.due (record c { entries = entries; due = runs })
  step (dispatch now) c = dispatch_next now c.due c
  step (refresh now wfs) c =
      when_free c.due (record c { entries = replace_from_workflows now wfs c.entries })
  step receive c = receive_next c.queue c
  step (start i) c = start_at i (worker_at i c.workers) c
  step (finish now i) c = finish_at now i (worker_at i c.workers) c
  step (release i) c = release_at i (worker_at i c.workers) c

  -- The controller when its loops begin, with the entries of the first load.
  abbrev pub initial : Dict Entry → Controller
  initial entries = record {
    entries = entries;
    active_keys = [];
    queue = [];
    workers = [];
    due = [];
  }

  -- The states that the goroutines reach, in any order of their steps.
  pub data Reachable (entries : Dict Entry) : Controller → Type 0 where
    at_start : Reachable entries (initial entries)
    after :
        (action : Action) (c d : Controller)
        → Reachable entries c
        → step action c ≡ some d
        → Reachable entries d
