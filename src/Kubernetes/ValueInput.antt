-- ===== src/Kubernetes/ValueInput.antt =====
-- modules/kubernetes/value_input.go and the update policies of modules/kubernetes/kubernetes.go.
use blackstart.Prelude.{String, Bool, true, false, Option, none, some, [], ◌∷◌, ◌==◌, if◌then◌else◌}
use blackstart.Prelude.Dict.{Dict, lookup}
use blackstart.Text.{trim_space}
use blackstart.Values.{Value, nil}
use blackstart.Inputs.{string_target, input_as, context_input_as}
use blackstart.Operation.{Input}
use blackstart.Module.{
  Error, Result, ok, err, ModuleContext, input_does_not_exist, invalid_input, must_be_provided,
  unknown_policy, must_not_be_null,
}
use blackstart.Module.Context.{input}

pub data Policy : Type 0 where
  overwrite preserve preserve_any fail : Policy

-- updatePolicies
abbrev pub update_policies : Dict Policy
update_policies =
    ("overwrite", overwrite)
    ∷ ("preserve", preserve)
    ∷ ("preserve_any", preserve_any)
    ∷ ("fail", fail)
    ∷ []

abbrev pub known_policy : String → Option Policy → Result Policy
known_policy name none = err (unknown_policy name)
known_policy name (some p) = ok p

abbrev pub or_default : String → String
or_default name = if name == "" then "preserve_any" else name

-- An input that cannot be read as a text counts as the default.
abbrev policy_text : Result String → String
policy_text (err e) = "preserve_any"
policy_text (ok s) = trim_space s

-- contextUpdatePolicy
unfoldable pub context_update_policy : ModuleContext → Result Policy
unfolding context_input_as
context_update_policy ctx =
    let name =
      or_default (policy_text (context_input_as string_target ctx "update_policy" false)) in
    known_policy name (lookup name update_policies)

abbrev pub is_null : Value → Bool
is_null nil = true
is_null _ = false

abbrev named_value : Result String → Result (Option String)
named_value (err e) = err (invalid_input "value" e)
named_value (ok s) = ok (some s)

abbrev found_value : Result Input → Result (Option String)
found_value (err (input_does_not_exist key)) = ok none
found_value (err e) = err e
found_value (ok i) =
    if is_null i.any_value
    then err (must_not_be_null "value")
    else named_value (input_as string_target i false)

-- contextOptionalValue; `none` where the value is omitted
unfoldable pub context_optional_value : ModuleContext → Result (Option String)
unfolding input_as
context_optional_value ctx = found_value (input ctx "value")

-- requireValueInput
unfoldable pub require_value_input : Policy → Option String → Option Error
require_value_input policy (some v) = none
require_value_input preserve_any none = none
require_value_input policy none = some (must_be_provided "value")
