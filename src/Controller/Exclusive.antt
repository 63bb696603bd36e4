-- ===== src/Controller/Exclusive.antt =====
-- cmd/blackstart/controller_runtime.go: in every state that the goroutines reach, a key is queued or
-- run at most once, and the queue and the workers keep their bounds.
use blackstart.Prelude.{
  ℕ, ◌+◌, ◌*◌, ◌≤◌, String, true, Option, none, some, List, [], ◌∷◌, contains, length, ltb, ◌≡◌,
  inl, inr, refl, subst, arith, eq_iff, Bool-cases,
}
use blackstart.Prelude.Dict.{Dict}
use blackstart.Controller.Scheduler.{Entry, Run, run_key}
use blackstart.Controller.Dispatch.{
  Stage, received, started, ended, Controller, Action, tick, dispatch, refresh, receive, start,
  finish, release, worker_at, move_to, dispatch_next, when_free, receive_next, start_at, finish_at,
  release_at, dispatch_one, step, Reachable, at_start, after,
}
use blackstart.Controller.Counts.{
  copies, busy, member, copies-append, length-append_one, contains-delete_key, busy-move_to,
  length-move_to, busy-retire, length-retire,
}

module _ (max_parallel : ℕ) where
  pub record IsSound (c : Controller) : Type 0 where
    pub guarded : (a : String) → copies a c.queue + busy a c.workers ≡ member a c.active_keys
    queue_bound : length c.queue ≤ max_parallel * 4
    worker_bound : length c.workers ≤ max_parallel

  -- The state that a step leads to, where there is one, is sound.
  abbrev Keeps : Option Controller → Type 0
  Keeps none = Unit
  Keeps (some d) = IsSound d

  dispatch_one-IsSound :
      (now : ℕ) (run : Run) (rest : List Run) (c : Controller)
      → IsSound c
      → IsSound (dispatch_one max_parallel now run rest c)
  unfolding dispatch_one
  dispatch_one-IsSound now run rest c sound =
      elim (Bool-cases (contains c.active_keys (run_key run))) [
        | inl active ↦ rw active (record {
          guarded = sound.guarded;
          queue_bound = sound.queue_bound;
          worker_bound = sound.worker_bound;
        })
        | inr idle ↦ rw idle (elim (Bool-cases (ltb (length c.queue) (max_parallel * 4))) [
          | inl room ↦ rw room (record {
            guarded = λ a.
                ground
                  (arith, sound.guarded a, copies-append a c.queue run, eq_iff (run_key run) a);
            queue_bound = ground (arith, length-append_one c.queue run);
            worker_bound = sound.worker_bound;
          })
          | inr full ↦ rw full (record {
            guarded = λ a. ground (
              arith,
              sound.guarded a,
              contains-delete_key (run_key run) a (run_key run ∷ c.active_keys),
              eq_iff (run_key run) a,
            );
            queue_bound = sound.queue_bound;
            worker_bound = sound.worker_bound;
          })
        ])
      ]

  dispatch_next-Keeps :
      (now : ℕ) (runs : List Run) (c : Controller)
      → IsSound c
      → Keeps (dispatch_next max_parallel now runs c)
  dispatch_next-Keeps now [] c sound = tt
  dispatch_next-Keeps now (run ∷ rest) c sound = dispatch_one-IsSound now run rest c sound

  when_free-Keeps :
      (runs : List Run) (c : Controller) → IsSound c → Keeps (when_free max_parallel runs c)
  when_free-Keeps [] c sound = sound
  when_free-Keeps (run ∷ rest) c sound = tt

  receive_next-Keeps :
      (runs : List Run) (c : Controller)
      → c.queue ≡ runs
      → IsSound c
      → Keeps (receive_next max_parallel runs c)
  receive_next-Keeps [] c same sound = tt
  receive_next-Keeps (run ∷ rest) c same sound =
      elim (Bool-cases (ltb (length c.workers) max_parallel)) [
        | inl idle ↦ rw idle (record {
          guarded = λ a. ground (arith, rw same at (sound.guarded a));
          queue_bound = ground (arith, rw same at sound.queue_bound);
          worker_bound = ground arith;
        })
        | inr all_busy ↦ rw all_busy tt
      ]

  -- A worker that moves to another stage changes no count.
  moved-IsSound :
      (i : ℕ) (s : Stage) (entries : Dict Entry) (c : Controller)
      → IsSound c
      → IsSound (record c { entries = entries; workers = move_to i s c.workers })
  moved-IsSound i s entries c sound = record {
    guarded = λ a. rw (busy-move_to a i s c.workers) (sound.guarded a);
    queue_bound = sound.queue_bound;
    worker_bound = rw (length-move_to i s c.workers) sound.worker_bound;
  }

  start_at-Keeps :
      (i : ℕ) (o : Option (Run × Stage)) (c : Controller)
      → IsSound c
      → Keeps (start_at max_parallel i o c)
  start_at-Keeps i none c sound = tt
  start_at-Keeps i (some (run, received)) c sound = moved-IsSound i started _ c sound
  start_at-Keeps i (some (run, started)) c sound = tt
  start_at-Keeps i (some (run, ended)) c sound = tt

  finish_at-Keeps :
      (now i : ℕ) (o : Option (Run × Stage)) (c : Controller)
      → IsSound c
      → Keeps (finish_at max_parallel now i o c)
  finish_at-Keeps now i none c sound = tt
  finish_at-Keeps now i (some (run, received)) c sound = tt
  finish_at-Keeps now i (some (run, started)) c sound = moved-IsSound i ended _ c sound
  finish_at-Keeps now i (some (run, ended)) c sound = tt

  release_at-Keeps :
      (i : ℕ) (o : Option (Run × Stage)) (c : Controller)
      → worker_at i c.workers ≡ o
      → IsSound c
      → Keeps (release_at max_parallel i o c)
  release_at-Keeps i none c found sound = tt
  release_at-Keeps i (some (run, received)) c found sound = tt
  release_at-Keeps i (some (run, started)) c found sound = tt
  release_at-Keeps i (some (run, ended)) c found sound = record {
    guarded = λ a. ground (
      arith,
      sound.guarded a,
      busy-retire a i c.workers (run, ended) found,
      contains-delete_key (run_key run) a c.active_keys,
      eq_iff (run_key run) a,
    );
    queue_bound = sound.queue_bound;
    worker_bound = omega (arith, length-retire i c.workers, sound.worker_bound);
  }

  same_counts-IsSound :
      (entries : Dict Entry) (due : List Run) (c : Controller)
      → IsSound c
      → IsSound (record c { entries = entries; due = due })
  same_counts-IsSound entries due c sound = record {
    guarded = sound.guarded;
    queue_bound = sound.queue_bound;
    worker_bound = sound.worker_bound;
  }

  step-Keeps : (action : Action) (c : Controller) → IsSound c → Keeps (step max_parallel action c)
  unfolding step
  step-Keeps (tick now) c sound = when_free-Keeps c.due _ (same_counts-IsSound _ _ c sound)
  step-Keeps (dispatch now) c sound = dispatch_next-Keeps now c.due c sound
  step-Keeps (refresh now wfs) c sound =
      when_free-Keeps c.due _ (same_counts-IsSound _ c.due c sound)
  step-Keeps receive c sound = receive_next-Keeps c.queue c refl sound
  step-Keeps (start i) c sound = start_at-Keeps i (worker_at i c.workers) c sound
  step-Keeps (finish now i) c sound = finish_at-Keeps now i (worker_at i c.workers) c sound
  step-Keeps (release i) c sound = release_at-Keeps i (worker_at i c.workers) c refl sound

  pub Reachable-IsSound :
      (entries : Dict Entry) (c : Controller) → Reachable max_parallel entries c → IsSound c
  Reachable-IsSound entries c at_start = record {
    guarded = λ a. omega arith;
    queue_bound = omega arith;
    worker_bound = omega arith;
  }
  Reachable-IsSound entries d (after action c d' reached stepped) =
      subst Keeps stepped (step-Keeps action c (Reachable-IsSound entries c reached))

  -- In every state that the dispatcher and the workers reach, in any order of their steps and
  -- whatever the cluster has, a key has at most one run that is queued or with a worker, a key with
  -- such a run is an active key, the queue has at most four runs for each worker, and at most
  -- `max_parallel` workers are busy.
  pub Reachable-IsExclusive :
      (entries : Dict Entry) (c : Controller)
      → Reachable max_parallel entries c
      → ((a : String) → copies a c.queue + busy a c.workers ≤ 1)
        × ((a : String) → 1 ≤ copies a c.queue + busy a c.workers → contains c.active_keys a ≡ true)
        × (length c.queue ≤ max_parallel * 4)
        × (length c.workers ≤ max_parallel)
  Reachable-IsExclusive entries c reached =
      let sound = Reachable-IsSound entries c reached in
      (
        (λ a. ground (arith, sound.guarded a)),
        (λ a some_run. ground (arith, sound.guarded a)),
        sound.queue_bound,
        sound.worker_bound,
      )
