-- ===== src/Workflow/Run.antt =====
-- workflow.go: the execution phase of `execute`; operation.go: `executeWithModule`.
use blackstart.Prelude.{
  suc, String, Bool, true, false, Option, none, some, List, [], ◌∷◌, ◌++◌, contains, if◌then◌else◌,
}
use blackstart.Prelude.Dict
use blackstart.Prelude.Dict.{Dict}
use blackstart.Operation.{Operation, Input, is_static, dependency_id, output_key}
use blackstart.Module.{
  ModuleContext, Resolver, Module, Error, no_module, not_a_declared_dependency,
  not_in_workflow_context, context_not_found, setup_failed, panic, Result, ok, err,
}
use blackstart.Module.Registry.{Registry}
use blackstart.Module.Context.{new_module_context, set_input, get_output}
use blackstart.Workflow.{WorkflowResult}
use blackstart.Workflow.Prepare.{Tables}

-- The lines that `executeWithModule` logs.
pub data LogLine : Type 0 where
  checking : String → LogLine
  check_failed : String → LogLine
  check_passed : String → LogLine
  setting : String → LogLine
  set_failed : String → LogLine
  set_passed : String → LogLine

-- The contexts of the operations (`we.opCtxs`), the outside, and the log.
pub record Execution (World : Type 0) : Type 0 where
  pub op_ctxs : Dict ModuleContext
  pub world : World
  pub log : List LogLine

-- The closure `resolver` of `execute`, for an operation that declares `allowed`.
unfoldable pub resolver : Dict ModuleContext → String → List String → Resolver
resolver ctxs self allowed id key =
    if contains allowed id
    then elim (Dict.lookup id ctxs) [
      | none ↦ err (not_in_workflow_context id)
      | some c ↦ get_output c key
    ]
    else err (not_a_declared_dependency id self)

-- setupOperationContext, over `op.Inputs`. The own context stands in `we.opCtxs` already.
unfoldable pub setup_operation_context :
    Dict Input → String → ModuleContext → Dict ModuleContext → Result ModuleContext
setup_operation_context [] self mctx ctxs = ok mctx
setup_operation_context ((k, i) ∷ rest) self mctx ctxs =
    if is_static i
    then setup_operation_context rest self mctx ctxs
    else elim (Dict.lookup (dependency_id i) ctxs) [
      | none ↦ err (context_not_found (dependency_id i))
      | some dep ↦ elim (get_output dep (output_key i)) [
        | err e ↦ err e
        | ok v ↦
            let mctx' = set_input k v mctx in
            setup_operation_context rest self mctx' (Dict.insert self mctx' ctxs)
      ]
    ]

-- result.Op = op; result.CompletedOperations += 1
abbrev pub one_more : Operation → WorkflowResult → WorkflowResult
one_more op res = record res { op = some op; completed_operations = suc res.completed_operations }

module _ {World : Type 0} where
  abbrev pub write : LogLine → Execution World → Execution World
  write l st = record st { log = st.log ++ l ∷ [] }

  -- What a call of a module leaves: its context, which `we.opCtxs` shares, and the outside.
  abbrev pub store : String → ModuleContext → World → Execution World → Execution World
  store id mctx w st = record st { op_ctxs = Dict.insert id mctx st.op_ctxs; world = w }

  abbrev pub after_set :
      String
      → Option Error × ModuleContext × World
      → Execution World
      → Option Error × Execution World
  after_set id (none, mctx, w) st = (none, write (set_passed id) (store id mctx w st))
  after_set id (some e, mctx, w) st = (some e, write (set_failed id) (store id mctx w st))

  abbrev pub after_check :
      Module World
      → String
      → Resolver
      → Result Bool × ModuleContext × World
      → Execution World
      → Option Error × Execution World
  after_check m id res (err e, mctx, w) st = (some e, write (check_failed id) (store id mctx w st))
  after_check m id res (ok true, mctx, w) st = (none, write (check_passed id) (store id mctx w st))
  after_check m id res (ok false, mctx, w) st =
      after_set id (m.set res mctx w) (write (setting id) (store id mctx w st))

  -- executeWithModule
  unfoldable pub execute_with_module :
      Module World
      → String
      → Resolver
      → ModuleContext
      → Execution World
      → Option Error × Execution World
  execute_with_module m id res mctx st =
      after_check m id res (m.check res mctx st.world) (write (checking id) st)

  abbrev pub with_module :
      Option (Module World)
      → Operation
      → ModuleContext
      → Execution World
      → Option Error × Execution World
  with_module none op mctx st = (some (no_module op.id), st)
  with_module (some m) op mctx st =
      execute_with_module m op.id (resolver st.op_ctxs op.id op.depends_on) mctx st

  abbrev pub after_setup :
      Tables World
      → Operation
      → Result ModuleContext
      → Execution World
      → Option Error × Execution World
  after_setup t op (err e) st = (some (setup_failed e), st)
  after_setup t op (ok mctx) st =
      with_module (Dict.lookup op.id t.modules) op mctx (store op.id mctx st.world st)

  -- One round of the execution loop, once the context of the operation is there.
  abbrev pub run_in_context :
      Tables World → Operation → ModuleContext → Execution World → Option Error × Execution World
  run_in_context t op mctx st =
      let st' = store op.id mctx st.world st in
      after_setup t op (setup_operation_context op.inputs op.id mctx st'.op_ctxs) st'

  abbrev pub after_context :
      Tables World
      → Operation
      → Option ModuleContext
      → Execution World
      → Option Error × Execution World
  after_context t op none st = (some (panic op.id), st)
  after_context t op (some mctx) st = run_in_context t op mctx st

  unfoldable pub run_operation :
      Registry World → Tables World → Operation → Execution World → Option Error × Execution World
  unfolding execute_with_module setup_operation_context
  run_operation r t op st = after_context t op (new_module_context r op) st

  -- How the loop goes on after one operation; `next` is the rest of the loop.
  abbrev pub proceed :
      Operation
      → WorkflowResult
      → (WorkflowResult → Execution World → WorkflowResult × Execution World)
      → Option Error × Execution World
      → WorkflowResult × Execution World
  proceed op res next (some e, st) = (record res { op = some op; err = some e }, st)
  proceed op res next (none, st) = next (one_more op res) st

  abbrev pub run_found :
      Registry World
      → Tables World
      → String
      → WorkflowResult
      → (WorkflowResult → Execution World → WorkflowResult × Execution World)
      → Option Operation
      → Execution World
      → WorkflowResult × Execution World
  run_found r t id res next none st = (record res { op = none; err = some (panic id) }, st)
  run_found r t id res next (some op) st = proceed op res next (run_operation r t op st)

  -- The execution loop, over the sorted ids.
  unfoldable pub run_all :
      Registry World
      → Tables World
      → List String
      → WorkflowResult
      → Execution World
      → WorkflowResult × Execution World
  unfolding run_operation
  run_all r t [] res st = (res, st)
  run_all r t (id ∷ rest) res st =
      run_found r t id res (run_all r t rest) (Dict.lookup id t.operations) st
