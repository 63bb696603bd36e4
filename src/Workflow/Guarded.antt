-- ===== src/Workflow/Guarded.antt =====
-- The execution loop of workflow.go starts an operation only when all that it lists in `DependsOn`
-- have been completed, and completes the sorted ids from the front.
use blackstart.Prelude.{
  String, true, ◌≡◌, refl, ap, ◌∙◌, Option, none, some, List, [], ◌∷◌, ◌++◌, arith, contains, ◌||◌,
  contains-append,
}
use blackstart.Prelude.Dict
use blackstart.Prelude.Dict.{Dict}
use blackstart.Operation.{Operation}
use blackstart.Graph.Reach.{Edges, IsOrderedAfter}
use blackstart.Module.{Error}
use blackstart.Module.Registry.{Registry}
use blackstart.Workflow.{WorkflowResult}
use blackstart.Workflow.Prepare.{Tables}
use blackstart.Workflow.Run.{
  LogLine, checking, check_failed, check_passed, setting, set_failed, set_passed, Execution,
  proceed, run_found, run_operation, run_all, one_more,
}
use blackstart.Workflow.Log.{
  OneRun, not_started, failed_check, kept, failed_set, changed, Logs, run_operation-Logs,
}

-- The operations that a log shows as completed, in order.
abbrev pub finished : List LogLine → List String
finished [] = []
finished (check_passed id ∷ ls) = id ∷ finished ls
finished (set_passed id ∷ ls) = id ∷ finished ls
finished (_ ∷ ls) = finished ls

-- Each check of a log stands after the completion of all that its operation depends on; `seen` has
-- been completed before.
abbrev pub IsGuardedAfter : Edges → List String → List LogLine → Type 0
IsGuardedAfter e seen [] = Unit
IsGuardedAfter e seen (checking id ∷ ls) =
    ((d : String) → e id d ≡ true → contains seen d ≡ true) × IsGuardedAfter e seen ls
IsGuardedAfter e seen (check_passed id ∷ ls) = IsGuardedAfter e (id ∷ seen) ls
IsGuardedAfter e seen (set_passed id ∷ ls) = IsGuardedAfter e (id ∷ seen) ls
IsGuardedAfter e seen (_ ∷ ls) = IsGuardedAfter e seen ls

abbrev pub IsGuarded : Edges → List LogLine → Type 0
IsGuarded e log = IsGuardedAfter e [] log

module _ (e : Edges) where
  IsGuardedAfter-OneRun :
      {id : String} {failed : Option Error} {lines : List LogLine} (seen : List String)
      → OneRun id failed lines
      → ((d : String) → e id d ≡ true → contains seen d ≡ true)
      → IsGuardedAfter e seen lines
  IsGuardedAfter-OneRun seen not_started deps = tt
  IsGuardedAfter-OneRun seen failed_check deps = (deps, tt)
  IsGuardedAfter-OneRun seen kept deps = (deps, tt)
  IsGuardedAfter-OneRun seen failed_set deps = (deps, tt)
  IsGuardedAfter-OneRun seen changed deps = (deps, tt)

  IsGuardedAfter-append :
      {id : String} {failed : Option Error} {lines : List LogLine} (seen : List String)
      (log : List LogLine)
      → IsGuardedAfter e seen log
      → OneRun id failed lines
      → ((d : String) → e id d ≡ true → (contains seen d || contains (finished log) d) ≡ true)
      → IsGuardedAfter e seen (log ++ lines)
  IsGuardedAfter-append seen [] g run deps =
      IsGuardedAfter-OneRun seen run (λ d h. ground (arith, deps d h))
  IsGuardedAfter-append seen (checking x ∷ ls) g run deps =
      (g.0, IsGuardedAfter-append seen ls g.1 run deps)
  IsGuardedAfter-append seen (check_passed x ∷ ls) g run deps =
      IsGuardedAfter-append (x ∷ seen) ls g run (λ d h. ground (arith, deps d h))
  IsGuardedAfter-append seen (set_passed x ∷ ls) g run deps =
      IsGuardedAfter-append (x ∷ seen) ls g run (λ d h. ground (arith, deps d h))
  IsGuardedAfter-append seen (check_failed x ∷ ls) g run deps =
      IsGuardedAfter-append seen ls g run deps
  IsGuardedAfter-append seen (setting x ∷ ls) g run deps = IsGuardedAfter-append seen ls g run deps
  IsGuardedAfter-append seen (set_failed x ∷ ls) g run deps =
      IsGuardedAfter-append seen ls g run deps

pub finished-append : (xs ys : List LogLine) → finished (xs ++ ys) ≡ finished xs ++ finished ys
finished-append [] ys = refl
finished-append (checking x ∷ ls) ys = finished-append ls ys
finished-append (check_passed x ∷ ls) ys = ap (λ l. x ∷ l) (finished-append ls ys)
finished-append (set_passed x ∷ ls) ys = ap (λ l. x ∷ l) (finished-append ls ys)
finished-append (check_failed x ∷ ls) ys = finished-append ls ys
finished-append (setting x ∷ ls) ys = finished-append ls ys
finished-append (set_failed x ∷ ls) ys = finished-append ls ys

-- A completed run adds its id to what is finished, and a failed one adds nothing.
abbrev pub completes : String → Option Error → List String
completes id none = id ∷ []
completes id (some e) = []

pub finished-OneRun :
    {id : String} {failed : Option Error} {lines : List LogLine}
    → OneRun id failed lines
    → finished lines ≡ completes id failed
finished-OneRun not_started = refl
finished-OneRun failed_check = refl
finished-OneRun kept = refl
finished-OneRun failed_set = refl
finished-OneRun changed = refl

-- The map `operations` has each operation under its own id.
abbrev pub IsKeyed : {World : Type 0} → Tables World → Type 0
IsKeyed t = (id : String) (op : Operation) → Dict.lookup id t.operations ≡ some op → op.id ≡ id

module _ {World : Type 0} (e : Edges) (r : Registry World) (t : Tables World)
    (keyed : IsKeyed t) where
  -- What the loop keeps: `seen` are the ids that it is done with.
  record Ready (seen : List String) (st : Execution World) : Type 0 where
    guarded : IsGuarded e st.log
    done : finished st.log ≡ seen

  abbrev Loop : Type 0
  Loop = WorkflowResult → Execution World → WorkflowResult × Execution World

  -- The loop from `id` on keeps the log guarded, if what comes after `id` does.
  proceed-IsGuarded :
      (op : Operation) (seen : List String) (res : WorkflowResult) (next : Loop)
      (st : Execution World) (out : Option Error × Execution World)
      → Ready seen st
      → ((d : String) → e op.id d ≡ true → contains seen d ≡ true)
      → Logs op.id st out
      → ((res : WorkflowResult) (st : Execution World)
          → Ready (seen ++ op.id ∷ []) st
          → IsGuarded e (next res st).1.log)
      → IsGuarded e (proceed op res next out).1.log
  proceed-IsGuarded op seen res next st (some x, st') ready deps (lines, extends, run) later =
      rw extends
        (IsGuardedAfter-append e [] st.log ready.guarded run (λ d h. rw ready.done (deps d h)))
  proceed-IsGuarded op seen res next st (none, st') ready deps (lines, extends, run) later =
      later (one_more op res) st' (record {
        guarded =
            rw extends (
              IsGuardedAfter-append e [] st.log ready.guarded run
                (λ d h. rw ready.done (deps d h)));
        done = rw extends (finished-append st.log lines ∙ cc (ready.done, finished-OneRun run));
      })

  run_found-IsGuarded :
      (id : String) (seen : List String) (res : WorkflowResult) (next : Loop)
      (found : Option Operation) (st : Execution World)
      → ((op : Operation) → found ≡ some op → op.id ≡ id)
      → Ready seen st
      → ((d : String) → e id d ≡ true → contains seen d ≡ true)
      → ((res : WorkflowResult) (st : Execution World)
          → Ready (seen ++ id ∷ []) st
          → IsGuarded e (next res st).1.log)
      → IsGuarded e (run_found r t id res next found st).1.log
  run_found-IsGuarded id seen res next none st same ready deps later = ready.guarded
  run_found-IsGuarded id seen res next (some op) st same ready deps later =
      proceed-IsGuarded op seen res next st (run_operation r t op st) ready
        (λ d h. deps d (rw (← same op refl) h)) (run_operation-Logs r t op st)
        (λ res st ready'. later res st (rw (← same op refl) ready'))

  pub run_all-IsGuarded :
      (before rest seen : List String) (res : WorkflowResult) (st : Execution World)
      → IsOrderedAfter e before rest
      → ((d : String) → contains before d ≡ true → contains seen d ≡ true)
      → IsGuarded e st.log
      → finished st.log ≡ seen
      → IsGuarded e (run_all r t rest res st).1.log
  unfolding run_all
  run_all-IsGuarded before [] seen res st ordered sub g f = g
  run_all-IsGuarded before (id ∷ rest) seen res st ordered sub g f =
      run_found-IsGuarded id seen res (run_all r t rest) (Dict.lookup id t.operations) st (keyed id)
        (record { guarded = g; done = f }) (λ d h. sub d (ordered.0 d h))
        (λ res st ready.
          run_all-IsGuarded (id ∷ before) rest (seen ++ id ∷ []) res st ordered.2
            (λ d h. ground (arith, contains-append seen (id ∷ []) d, sub d)) ready.guarded
            ready.done)
