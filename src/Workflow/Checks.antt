-- ===== src/Workflow/Checks.antt =====
-- workflow.go: `findDuplicateOperationID` and `checkInputsOutputs`.
use blackstart.Prelude.{String, Bool, Option, none, some, List, [], ◌∷◌, contains, if◌then◌else◌}
use blackstart.Prelude.Dict
use blackstart.Prelude.Dict.{Dict}
use blackstart.Values.{GoType}
use blackstart.Values.Reflect.{matches_any_type, contains_exact_type}
use blackstart.Operation.{Operation, Input, is_static, dependency_id, output_key}
use blackstart.Module.{
  InputValue, OutputValue, ModuleInfo, supported_types, missing_required_input, not_assignable,
  dependency_not_found, output_not_found, type_mismatch, Result, ok, err, ◌>>=◌,
}

-- The loop of `findDuplicateOperationID`, with the ids that it has seen.
unfoldable pub duplicate_from : List String → List Operation → Option Operation
duplicate_from seen [] = none
duplicate_from seen (o ∷ os) =
    if contains seen o.id then some o else duplicate_from (o.id ∷ seen) os

-- findDuplicateOperationID
unfoldable pub find_duplicate_operation_id : List Operation → Option Operation
unfolding duplicate_from
find_duplicate_operation_id ops = duplicate_from [] ops

module _ (implements : GoType → String → Bool) where
  unfoldable pub check_static : Operation → String → InputValue → Input → Result (Unit {0})
  check_static op name param i =
      if matches_any_type implements i.any_value (supported_types param)
      then ok tt
      else err (not_assignable name op.id)

  -- The checks of an output that is used as an input: the operation is there, it has the output, and
  -- the output has a supported type.
  abbrev pub check_output :
      Operation → String → InputValue → Input → Option OutputValue → Result (Unit {0})
  check_output op name param i none =
      err (output_not_found (output_key i) (dependency_id i) name op.id)
  check_output op name param i (some out) =
      if contains_exact_type out.type (supported_types param)
      then ok tt
      else err (type_mismatch name op.id (dependency_id i))

  abbrev pub check_source :
      Operation → String → InputValue → Input → Option ModuleInfo → Result (Unit {0})
  check_source op name param i none = err (dependency_not_found (dependency_id i) name op.id)
  check_source op name param i (some info) =
      check_output op name param i (Dict.lookup (output_key i) info.outputs)

  unfoldable pub check_dependency :
      Operation → String → InputValue → Input → Dict ModuleInfo → Result (Unit {0})
  check_dependency op name param i infos =
      check_source op name param i (Dict.lookup (dependency_id i) infos)

  abbrev pub check_found :
      Operation → String → InputValue → Dict ModuleInfo → Option Input → Result (Unit {0})
  check_found op name param infos none =
      if param.required then err (missing_required_input name op.id) else ok tt
  check_found op name param infos (some i) =
      if is_static i then check_static op name param i else check_dependency op name param i infos

  -- One round of the loop of `checkInputsOutputs`.
  unfoldable pub check_input : Operation → String → InputValue → Dict ModuleInfo → Result (Unit {0})
  unfolding check_static check_dependency
  check_input op name param infos = check_found op name param infos (Dict.lookup name op.inputs)

  -- checkInputsOutputs, over `info.Inputs`
  unfoldable pub check_inputs_outputs :
      Operation → Dict InputValue → Dict ModuleInfo → Result (Unit {0})
  unfolding check_input
  check_inputs_outputs op [] infos = ok tt
  check_inputs_outputs op ((name, param) ∷ rest) infos =
      check_input op name param infos >>= λ _. check_inputs_outputs op rest infos
