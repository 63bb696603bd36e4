-- ===== src/Workflow/Conforms.antt =====
-- workflow.go: what `checkInputsOutputs` accepts, described on its own.
use blackstart.Prelude.{
  String, Bool, true, false, Option, none, some, [], ◌∷◌, All, ◌≡◌, refl, sym, ap, ◌∙◌, if_true,
  if_false, Bool-cases, inl, inr,
}
use blackstart.Prelude.Dict
use blackstart.Prelude.Dict.{Dict}
use blackstart.Values.{GoType}
use blackstart.Values.Reflect.{matches_any_type, contains_exact_type}
use blackstart.Operation.{Operation, Input, is_static, dependency_id, output_key}
use blackstart.Module.{InputValue, OutputValue, ModuleInfo, supported_types, Result, ok, ◌>>=◌}
use blackstart.Module.Results.{bind-ok, if-ok, if-ok_then}
use blackstart.Workflow.Checks.{
  check_static, check_output, check_source, check_found, check_dependency, check_input,
  check_inputs_outputs,
}

module _ (implements : GoType → String → Bool) (op : Operation) (infos : Dict ModuleInfo) where
  -- An input that a parameter of the module can take: it is left out where it may be, it is a value of a
  -- supported type, or it is an output, of a supported type, of an operation in the workflow.
  pub data Conforms (name : String) (param : InputValue) : Type 0 where
    omitted : Dict.lookup name op.inputs ≡ none → param.required ≡ false → Conforms name param
    of_value :
        (i : Input)
        → Dict.lookup name op.inputs ≡ some i
        → is_static i ≡ true
        → matches_any_type implements i.any_value (supported_types param) ≡ true
        → Conforms name param
    of_output :
        (i : Input) (info : ModuleInfo) (out : OutputValue)
        → Dict.lookup name op.inputs ≡ some i
        → is_static i ≡ false
        → Dict.lookup (dependency_id i) infos ≡ some info
        → Dict.lookup (output_key i) info.outputs ≡ some out
        → contains_exact_type out.type (supported_types param) ≡ true
        → Conforms name param

  -- What an input was found to be, and what follows from its check.
  output-Conforms :
      (name : String) (param : InputValue) (i : Input) (info : ModuleInfo)
      → Dict.lookup name op.inputs ≡ some i
      → is_static i ≡ false
      → Dict.lookup (dependency_id i) infos ≡ some info
      → (o : Option OutputValue) → Dict.lookup (output_key i) info.outputs ≡ o
      → check_output implements op name param i o ≡ ok tt
      → Conforms name param
  output-Conforms name param i info given dynamic source none same h = cc
  output-Conforms name param i info given dynamic source (some out) same h =
      of_output i info out given dynamic source same
        ((if-ok_then (contains_exact_type out.type (supported_types param)) _ (ok tt) tt h).0)

  source-Conforms :
      (name : String) (param : InputValue) (i : Input)
      → Dict.lookup name op.inputs ≡ some i
      → is_static i ≡ false
      → (o : Option ModuleInfo) → Dict.lookup (dependency_id i) infos ≡ o
      → check_source implements op name param i o ≡ ok tt
      → Conforms name param
  source-Conforms name param i given dynamic none same h = cc
  source-Conforms name param i given dynamic (some info) same h =
      output-Conforms name param i info given dynamic same (Dict.lookup (output_key i) info.outputs)
        refl h

  found-Conforms :
      (name : String) (param : InputValue) (o : Option Input)
      → Dict.lookup name op.inputs ≡ o
      → check_found implements op name param infos o ≡ ok tt
      → Conforms name param
  unfolding check_static check_dependency
  found-Conforms name param none same h = omitted same (if-ok param.required _ (ok tt) tt h).0
  found-Conforms name param (some i) same h = elim (Bool-cases (is_static i)) [
    | inl constant ↦ of_value i same constant (
        (if-ok_then (matches_any_type implements i.any_value (supported_types param)) _ (ok tt) tt
          (sym (if_true (λ (r : Result (Unit {0})). r) _ _ constant) ∙ h)).0)
    | inr dynamic ↦
        source-Conforms name param i same dynamic (Dict.lookup (dependency_id i) infos) refl
          (sym (if_false (λ (r : Result (Unit {0})). r) _ _ dynamic) ∙ h)
  ]

  Conforms-check_input :
      (name : String) (param : InputValue)
      → Conforms name param
      → check_input implements op name param infos ≡ ok tt
  unfolding check_input check_static check_dependency
  Conforms-check_input name param (omitted none_given optional) =
      ap (check_found implements op name param infos) none_given
      ∙ if_false (λ (r : Result (Unit {0})). r) _ _ optional
  Conforms-check_input name param (of_value i given constant fits) =
      ap (check_found implements op name param infos) given
      ∙ if_true (λ (r : Result (Unit {0})). r) _ _ constant
      ∙ if_true (λ (r : Result (Unit {0})). r) _ _ fits
  Conforms-check_input name param (of_output i info out given dynamic source has_output fits) =
      ap (check_found implements op name param infos) given
      ∙ if_false (λ (r : Result (Unit {0})). r) _ _ dynamic
      ∙ ap (check_source implements op name param i) source
      ∙ ap (check_output implements op name param i) has_output
      ∙ if_true (λ (r : Result (Unit {0})). r) _ _ fits

  abbrev pub ConformsAt : String × InputValue → Type 0
  ConformsAt (name, param) = Conforms name param

  check_inputs_outputs_sound :
      (inputs : Dict InputValue)
      → check_inputs_outputs implements op inputs infos ≡ ok tt
      → All ConformsAt inputs
  unfolding check_inputs_outputs check_input
  check_inputs_outputs_sound [] h = tt
  check_inputs_outputs_sound ((name, param) ∷ rest) h =
      let (u, first, later) =
        bind-ok (check_input implements op name param infos)
          (λ _. check_inputs_outputs implements op rest infos) tt h in
      (
        found-Conforms name param (Dict.lookup name op.inputs) refl first,
        check_inputs_outputs_sound rest later,
      )

  check_inputs_outputs_complete :
      (inputs : Dict InputValue)
      → All ConformsAt inputs
      → check_inputs_outputs implements op inputs infos ≡ ok tt
  unfolding check_inputs_outputs
  check_inputs_outputs_complete [] h = refl
  check_inputs_outputs_complete ((name, param) ∷ rest) h =
      ap (λ r. r >>= λ _. check_inputs_outputs implements op rest infos)
        (Conforms-check_input name param h.0)
      ∙ check_inputs_outputs_complete rest h.1

  -- `checkInputsOutputs` accepts an operation exactly if each parameter of its module is served: it is
  -- left out and not required, or it is a value that matches a supported type, or it is the output of an
  -- operation whose module declares that output with exactly a supported type.
  pub check_inputs_outputs-Conforms :
      (inputs : Dict InputValue)
      → (check_inputs_outputs implements op inputs infos ≡ ok tt → All ConformsAt inputs)
        × (All ConformsAt inputs → check_inputs_outputs implements op inputs infos ≡ ok tt)
  check_inputs_outputs-Conforms inputs =
      (check_inputs_outputs_sound inputs, check_inputs_outputs_complete inputs)
