-- ===== src/Workflow/Samples.antt =====
-- Runs of small workflows, and the theorems about runs there.
use Prim.Native.Nat.{ℕ}
use blackstart.Prelude.{
  suc, String, true, false, ◌≡◌, ◌↔◌, refl, none, some, List, [], ◌∷◌, IsDistinct, ◌≢◌, All, Bool,
}
use blackstart.Prelude.Dict
use blackstart.Values.{GoType, Value}
use blackstart.Values.Reflect.{matches_any_type, contains_exact_type}
use blackstart.Operation.{Operation, Input, is_static, dependency_id, output_key, input_from_value}
use blackstart.Graph.{
  ids, sorted, deps_of, add_dep, visit_deps, dfs, visit_ops, topo_sort, add_deps, add_ops, graph_of,
  opo_sort,
}
use blackstart.Graph.Correct.{declares}
use blackstart.Module.{
  supported_types, Module, ModuleInfo, module_error, context_not_found, setup_failed, ok,
}
use blackstart.Module.Registry.{new_module}
use blackstart.Module.Context.{new_module_context, set_input, get_output, output}
use blackstart.Workflow.Run.{checking, check_passed, setting, set_passed, Execution}
use blackstart.Workflow.Checks.{find_duplicate_operation_id, check_inputs_outputs}
use blackstart.Workflow.Conforms.{ConformsAt, check_inputs_outputs-Conforms}
use blackstart.Workflow.Execute.{Host, close_workflow_modules, execute}
use blackstart.Workflow.Guarded.{finished, IsGuarded}
use blackstart.Workflow.Progress.{Progress}
use blackstart.Workflow.Outcome.{execute-IsGuarded, execute-Progress, execute_success}
use blackstart.Workflow.Duplicates.{
  Repeats, find_duplicate_operation_id-eq-none, find_duplicate_operation_id-Repeats,
}

-- A module that is always as wanted and gives the output `out`; it fails to close.
abbrev producer : Module ℕ
producer = record {
  info = record {
    id = "producer";
    name = "";
    inputs = [];
    outputs = ("out", record { description = ""; type = some GoType.string }) ∷ [];
  };
  validate = λ op. none;
  check = λ res mc w. (ok true, (output "out" (Value.string "v") mc).1, w);
  set = λ res mc w. (none, mc, w);
  close = some (λ w. (some (module_error 1), w));
}

-- A module that has to be set, and counts in the outside how often it was.
abbrev consumer : Module ℕ
consumer = record {
  info = record {
    id = "consumer";
    name = "";
    inputs =
        (
          "in",
          record {
            description = "";
            type = some GoType.string;
            types = [];
            required = true;
            default = Value.nil;
          },
        )
        ∷ [];
    outputs = [];
  };
  validate = λ op. none;
  check = λ res mc w. (ok false, mc, w);
  set = λ res mc w. (none, mc, suc w);
  close = none;
}

abbrev host : Host ℕ
host = record {
  registry = ("producer", some producer) ∷ ("consumer", some consumer) ∷ [];
  implements = λ t name. false;
  range_order = λ m. m;
}

abbrev op : String → String → List String → Dict.Dict Input → Operation
op module_id id depends_on inputs = record {
  module_id = module_id;
  id = id;
  name = "";
  description = "";
  depends_on = depends_on;
  inputs = inputs;
  does_not_exist = false;
  tainted = false;
}

abbrev from_a : Dict.Dict Input
from_a =
    (
      "in",
      record {
        any_value = Value.nil;
        dependency_output_value = some (record { operation_id = "a"; output = "out" });
      },
    )
    ∷ []

abbrev declared : List Operation
declared = op "consumer" "b" ("a" ∷ []) from_a ∷ op "producer" "a" [] [] ∷ []

abbrev implicit : List Operation
implicit = op "consumer" "b" [] from_a ∷ op "producer" "a" [] [] ∷ []

abbrev fresh : Execution ℕ
fresh = record { op_ctxs = []; world = 0; log = [] }

program : Unit {0}
unfolding execute opo_sort graph_of add_ops add_deps add_dep deps_of topo_sort visit_ops dfs
    visit_deps Dict.lookup Dict.insert new_module supported_types check_inputs_outputs
    matches_any_type contains_exact_type new_module_context set_input get_output output is_static
    dependency_id output_key input_from_value close_workflow_modules
program = tt

execute-declared :
    (execute host declared fresh).1.log
    ≡ checking "a" ∷ check_passed "a" ∷ checking "b" ∷ setting "b" ∷ set_passed "b" ∷ []
unfolding program
execute-declared = refl

-- The producer fails to close, and the result has no error all the same.
execute-declared_result :
    ((execute host declared fresh).0.err ≡ none)
    × ((close_workflow_modules (("a", producer) ∷ []) 0).0 ≢ none)
unfolding program
execute-declared_result = (refl, λ h. cc)

-- The input from `a` makes no dependency, so `b` runs first and fails.
execute-implicit : (execute host implicit fresh).0.err ≡ some (setup_failed (context_not_found "a"))
unfolding program
execute-implicit = refl

opo_sort-declared : opo_sort declared ≡ sorted ("a" ∷ "b" ∷ [])
unfolding program
opo_sort-declared = refl

execute-IsGuarded_example : IsGuarded (declares declared) (execute host declared fresh).1.log
execute-IsGuarded_example = execute-IsGuarded host declared fresh refl

execute-Progress_example :
    Progress []
      ("a" ∷ "b" ∷ [])
      0
      (execute host declared fresh).0
      (execute host declared fresh).1.log
execute-Progress_example =
    execute-Progress host declared fresh ("a" ∷ "b" ∷ []) opo_sort-declared refl

execute_success_example :
    IsDistinct (ids declared)
    × ((order : List String) × (opo_sort declared ≡ sorted order)
        × (finished (execute host declared fresh).1.log ≡ order))
    × ((execute host declared fresh).0.completed_operations ≡ 2)
    × ((execute host declared fresh).0.total_operations ≡ 2)
execute_success_example = execute_success host declared fresh refl (execute-declared_result.0)

find_duplicate_operation_id-eq-none_example :
    (find_duplicate_operation_id declared ≡ none) ↔ IsDistinct (ids declared)
find_duplicate_operation_id-eq-none_example = find_duplicate_operation_id-eq-none declared

abbrev doubled : List Operation
doubled = op "producer" "a" [] [] ∷ op "consumer" "a" [] from_a ∷ []

find_duplicate_operation_id-Repeats_example : Repeats doubled (op "consumer" "a" [] from_a)
unfolding find_duplicate_operation_id
find_duplicate_operation_id-Repeats_example =
    find_duplicate_operation_id-Repeats doubled (op "consumer" "a" [] from_a) refl

abbrev infos : Dict.Dict ModuleInfo
infos = ("b", consumer.info) ∷ ("a", producer.info) ∷ []

abbrev nothing_implements : GoType → String → Bool
nothing_implements t name = false

check_inputs_outputs-Conforms_example :
    (check_inputs_outputs nothing_implements
          (op "consumer" "b" [] from_a)
          consumer.info.inputs
          infos
        ≡ ok tt
      → All
          (ConformsAt nothing_implements (op "consumer" "b" [] from_a) infos)
          consumer.info.inputs)
    × (All (ConformsAt nothing_implements (op "consumer" "b" [] from_a) infos) consumer.info.inputs
        → check_inputs_outputs nothing_implements
            (op "consumer" "b" [] from_a)
            consumer.info.inputs
            infos
          ≡ ok tt)
check_inputs_outputs-Conforms_example =
    check_inputs_outputs-Conforms nothing_implements (op "consumer" "b" [] from_a) infos
      consumer.info.inputs
