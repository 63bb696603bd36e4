-- ===== src/Kubernetes/Validate.antt =====
-- modules/kubernetes/configmap_value.go and modules/kubernetes/secret_value.go: `Validate`, with what it
-- uses of modules/kubernetes/value_input.go.
use blackstart.Prelude.{String, true, false, Option, none, some, ◌==◌, if◌then◌else◌}
use blackstart.Prelude.Dict.{lookup, has}
use blackstart.Text.{trim_space}
use blackstart.Inputs.{string_target, input_as}
use blackstart.Inputs.Static.{both_none, error_of}
use blackstart.Operation.{Operation, Input, is_static}
use blackstart.Module.{
  Error, Result, ok, err, ◌>>=◌, invalid_input, must_be_provided, must_not_be_null,
  must_not_be_empty,
}
use blackstart.Kubernetes.ValueInput.{
  Policy, preserve_any, update_policies, known_policy, or_default, is_null,
}
use blackstart.Kubernetes.ConfigMapValue.{Kind, input_name}

abbrev policy_of : String → Result Policy
policy_of name = known_policy name (lookup name update_policies)

abbrev static_policy : Result String → Result (Option Policy)
static_policy (err e) = err (invalid_input "update_policy" e)
static_policy (ok value) = policy_of (or_default (trim_space value)) >>= λ policy. ok (some policy)

abbrev policy_input : Option Input → Result (Option Policy)
policy_input none = ok (some preserve_any)
policy_input (some i) =
    if is_static i then static_policy (input_as string_target i false) else ok none

-- operationUpdatePolicy; `none` where the policy is not known yet
unfoldable pub operation_update_policy : Operation → Result (Option Policy)
unfolding input_as
operation_update_policy op = policy_input (lookup "update_policy" op.inputs)

abbrev needs_value : Option Policy → Option Error
needs_value none = none
needs_value (some preserve_any) = none
needs_value (some policy) = some (must_be_provided "value")

abbrev invalid : {A : Type 0} → String → Result A → Option Error
invalid key (err e) = some (invalid_input key e)
invalid key (ok a) = none

abbrev value_input : Option Policy → Option Input → Option Error
value_input policy none = needs_value policy
value_input policy (some i) =
    if is_static i
    then (if is_null i.any_value
        then some (must_not_be_null "value")
        else invalid "value" (input_as string_target i false))
    else none

-- validateValueInput
unfoldable pub validate_value_input : Operation → Option Policy → Option Error
unfolding input_as
validate_value_input op policy = value_input policy (lookup "value" op.inputs)

abbrev key_text : Result String → Option Error
key_text (err e) = some (invalid_input "key" e)
key_text (ok key) = if key == "" then some (must_not_be_empty "key") else none

abbrev key_input : Option Input → Option Error
key_input none = some (must_be_provided "key")
key_input (some i) = if is_static i then key_text (input_as string_target i true) else none

-- `Validate` of both modules
unfoldable pub validate_value : Kind → Operation → Option Error
unfolding operation_update_policy validate_value_input
validate_value kind op = both_none (key_input (lookup "key" op.inputs)) (
    if has (input_name kind) op.inputs
    then error_of (operation_update_policy op >>= λ policy. ok (validate_value_input op policy))
    else some (must_be_provided (input_name kind)))
