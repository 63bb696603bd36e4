-- ===== src/Workflow/Execute.antt =====
-- workflow.go: `execute`, its deferred clean-up, and `closeWorkflowModules`.
use Prim.Native.Nat.{Ordering}
use Prim.Native.String.{compare}
use blackstart.Prelude.{
  ℕ, String, Bool, true, false, Option, none, some, List, [], ◌∷◌, map, length, if◌then◌else◌,
}
use blackstart.Prelude.Dict
use blackstart.Prelude.Dict.{Dict}
use blackstart.Values.{GoType}
use blackstart.Operation.{Operation}
use blackstart.Graph.{Sorting, sorted, no_fuel, opo_sort}
use blackstart.Graph
use blackstart.Module.{Module, Error, duplicate_operation, operation_cycle, cleanup_failed, panic}
use blackstart.Module.Registry.{Registry}
use blackstart.Workflow.{Phase, WorkflowResult}
use blackstart.Workflow.Prepare.{
  Tables, Stage, go, stop, no_tables, setup_each, instantiate, check_all, validate_all,
}
use blackstart.Workflow.Run.{Execution, run_all}
use blackstart.Workflow.Checks.{find_duplicate_operation_id}

-- sort.Strings, as an insertion sort by bytes
abbrev pub string_leb : String → String → Bool
string_leb a b = elim (compare a b) [ Ordering.gt ↦ false | _ ↦ true ]

unfoldable pub insert_sorted : String → List String → List String
insert_sorted a [] = a ∷ []
insert_sorted a (x ∷ xs) = if string_leb a x then a ∷ x ∷ xs else x ∷ insert_sorted a xs

unfoldable pub sort_strings : List String → List String
unfolding insert_sorted
sort_strings [] = []
sort_strings (x ∷ xs) = insert_sorted x (sort_strings xs)

-- Where a run gets its modules, what types implement, and the order that a map is gone over in.
pub record Host (World : Type 0) : Type 0 where
  pub registry : Registry World
  pub implements : GoType → String → Bool
  pub range_order : Dict Operation → Dict Operation

abbrev pub close_error : List String → Option Error
close_error [] = none
close_error (id ∷ errs) = some (cleanup_failed (id ∷ errs))

abbrev pub result_at : Phase → Option Operation → Option Error → ℕ → WorkflowResult
result_at phase op e total = record {
  phase = phase;
  op = op;
  err = e;
  total_operations = total;
  completed_operations = 0;
}

module _ {World : Type 0} where
  -- The loop of `closeWorkflowModules`: the ids whose module failed to close.
  unfoldable pub close_each : Dict (Module World) → List String → World → List String × World
  close_each ms [] w = ([], w)
  close_each ms (id ∷ rest) w = elim (Dict.lookup id ms) [
    | none ↦ close_each ms rest w
    | some m ↦ elim m.close [
      | none ↦ close_each ms rest w
      | some close ↦
          let (e, w') = close w in
          let (errs, w'') = close_each ms rest w' in
          elim e [ none ↦ (errs, w'') | some _ ↦ (id ∷ errs, w'') ]
    ]
  ]

  -- closeWorkflowModules
  unfoldable pub close_workflow_modules : Dict (Module World) → World → Option Error × World
  unfolding close_each sort_strings
  close_workflow_modules ms w =
      let (errs, w') = close_each ms (sort_strings (map (λ p. p.0) ms)) w in (close_error errs, w')

  abbrev pub after_validation :
      Host World
      → ℕ
      → Tables World
      → List String
      → Execution World
      → Stage (Option Operation)
      → WorkflowResult × Execution World
  after_validation h total t order st (stop op e) = (result_at Phase.validate op (some e) total, st)
  after_validation h total t order st (go last) =
      run_all h.registry t order (result_at Phase.execute last none total) st

  abbrev pub after_checks :
      Host World
      → ℕ
      → Tables World
      → List String
      → Execution World
      → Stage (Unit {0})
      → WorkflowResult × Execution World
  after_checks h total t order st (stop op e) = (result_at Phase.validate op (some e) total, st)
  after_checks h total t order st (go _) =
      after_validation h total t order st (validate_all t.modules (h.range_order t.operations) none)

  -- From the sort on: the validation phase and the execution phase.
  abbrev pub after_sort :
      Host World → ℕ → Tables World → Execution World → Sorting → WorkflowResult × Execution World
  after_sort h total t st (Graph.operation_cycle d) =
      (result_at Phase.setup none (some (operation_cycle d)) total, st)
  after_sort h total t st no_fuel = (result_at Phase.setup none (some (panic "")) total, st)
  after_sort h total t st (sorted order) =
      after_checks h total t order st (check_all h.implements t order)

  abbrev pub after_instantiate :
      Host World
      → List Operation
      → Execution World
      → Tables World
      → Stage (Unit {0})
      → WorkflowResult × Execution World
  after_instantiate h ops st t (stop op e) = (result_at Phase.setup op (some e) (length ops), st)
  after_instantiate h ops st t (go _) = after_sort h (length ops) t st (opo_sort ops)

  -- The deferred function. It sets `result.Err` after `return result` has copied the result out of
  -- the unnamed result variable, so the caller gets the result as it was before.
  abbrev pub close_after :
      Tables World → WorkflowResult × Execution World → WorkflowResult × Execution World
  close_after t (res, st) =
      let (close_err, w) = close_workflow_modules t.modules st.world in
      (res, record st { world = w })

  abbrev pub execute_set_up :
      Host World
      → List Operation
      → Execution World
      → Tables World × Stage (Unit {0})
      → WorkflowResult × Execution World
  execute_set_up h ops st (t, made) = close_after t (after_instantiate h ops st t made)

  abbrev pub after_duplicates :
      Host World
      → List Operation
      → Execution World
      → Option Operation
      → WorkflowResult × Execution World
  after_duplicates h ops st (some o) =
      (result_at Phase.setup (some o) (some (duplicate_operation o.id)) 0, st)
  after_duplicates h ops st none =
      let ops' = setup_each ops in execute_set_up h ops' st (instantiate h.registry ops' no_tables)

  -- (we *workflowExecution) execute
  unfoldable pub execute :
      Host World → List Operation → Execution World → WorkflowResult × Execution World
  unfolding find_duplicate_operation_id setup_each instantiate check_all validate_all run_all
  execute h ops st = after_duplicates h ops st (find_duplicate_operation_id ops)
