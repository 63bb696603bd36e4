-- ===== src/Workflow/Log.antt =====
-- What the execution phase of workflow.go logs: the lines of one operation, and of all of them.
use blackstart.Prelude.{
  String, Bool, true, false, ◌≡◌, refl, sym, ◌∙◌, Option, none, some, List, [], ◌∷◌, ◌++◌,
}
use mathlib.Core.List.{append_assoc, append-nil}
use blackstart.Prelude.Dict
use blackstart.Operation.{Operation}
use blackstart.Module.{ModuleContext, Resolver, Module, Error, Result, ok, err}
use blackstart.Module.Registry.{Registry}
use blackstart.Module.Context.{new_module_context}
use blackstart.Workflow.Prepare.{Tables}
use blackstart.Workflow.Run.{
  LogLine, checking, check_failed, check_passed, setting, set_failed, set_passed, Execution,
  after_set, after_check, execute_with_module, run_operation, store, write, with_module,
  after_setup, after_context,
}

-- How the run of one operation ends, and what it has logged.
pub data OneRun (id : String) : Option Error → List LogLine → Type 0 where
  not_started : {e : Error} → OneRun id (some e) []
  failed_check : {e : Error} → OneRun id (some e) (checking id ∷ check_failed id ∷ [])
  kept : OneRun id none (checking id ∷ check_passed id ∷ [])
  failed_set : {e : Error} → OneRun id (some e) (checking id ∷ setting id ∷ set_failed id ∷ [])
  changed : OneRun id none (checking id ∷ setting id ∷ set_passed id ∷ [])

module _ {World : Type 0} where
  -- From `st`, the run ends with an error or none, and with the log extended.
  abbrev pub Logs : String → Execution World → Option Error × Execution World → Type 0
  Logs id st (failed, st') =
      (lines : List LogLine) × (st'.log ≡ st.log ++ lines) × OneRun id failed lines

  after_check-Logs :
      (m : Module World) (id : String) (res : Resolver) (r : Result Bool × ModuleContext × World)
      (st : Execution World)
      → Logs id st (after_check m id res r (write (checking id) st))
  after_check-Logs m id res (err e, mctx, w) st = (_, append_assoc st.log _ _, failed_check)
  after_check-Logs m id res (ok true, mctx, w) st = (_, append_assoc st.log _ _, kept)
  after_check-Logs m id res (ok false, mctx, w) st = set_lines (m.set res mctx w)
    where
      set_lines :
          (r : Option Error × ModuleContext × World)
          → Logs id st
              (after_set id r (write (setting id) (store id mctx w (write (checking id) st))))
      set_lines (none, mctx', w') = (_, simp append_assoc, changed)
      set_lines (some e, mctx', w') = (_, simp append_assoc, failed_set)

  execute_with_module-Logs :
      (m : Module World) (id : String) (res : Resolver) (mctx : ModuleContext)
      (st : Execution World)
      → Logs id st (execute_with_module m id res mctx st)
  unfolding execute_with_module
  execute_with_module-Logs m id res mctx st =
      after_check-Logs m id res (m.check res mctx st.world) st

  nothing :
      (id : String) (e : Error) (st st' : Execution World)
      → st'.log ≡ st.log
      → Logs id st (some e, st')
  nothing id e st st' h = ([], h ∙ sym (append-nil st.log), not_started)

  with_module-Logs :
      (m : Option (Module World)) (op : Operation) (mctx : ModuleContext) (st : Execution World)
      → Logs op.id st (with_module m op mctx st)
  with_module-Logs none op mctx st = nothing op.id _ st st refl
  with_module-Logs (some m) op mctx st = execute_with_module-Logs m op.id _ mctx st

  after_setup-Logs :
      (t : Tables World) (op : Operation) (c : Result ModuleContext) (st : Execution World)
      → Logs op.id st (after_setup t op c st)
  after_setup-Logs t op (err e) st = nothing op.id _ st st refl
  after_setup-Logs t op (ok mctx) st =
      with_module-Logs (Dict.lookup op.id t.modules) op mctx (store op.id mctx st.world st)

  after_context-Logs :
      (t : Tables World) (op : Operation) (c : Option ModuleContext) (st : Execution World)
      → Logs op.id st (after_context t op c st)
  after_context-Logs t op none st = nothing op.id _ st st refl
  after_context-Logs t op (some mctx) st = after_setup-Logs t op _ (store op.id mctx st.world st)

  -- Every run of an operation ends in one of the ways of `OneRun`.
  pub run_operation-Logs :
      (r : Registry World) (t : Tables World) (op : Operation) (st : Execution World)
      → Logs op.id st (run_operation r t op st)
  unfolding run_operation
  run_operation-Logs r t op st = after_context-Logs t op (new_module_context r op) st
