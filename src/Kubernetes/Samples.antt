-- ===== src/Kubernetes/Samples.antt =====
-- Tests of the modules `kubernetes_configmap_value` and `kubernetes_secret_value`, and the theorems at a concrete operation.
use blackstart.Prelude.{String, true, false, none, some, [], ◌∷◌, ◌≡◌, ◌≢◌, refl}
use blackstart.Prelude.Dict.{Dict, has, lookup}
use blackstart.Text.{trim_space}
use blackstart.Values.{GoType, Value}
use blackstart.Inputs
use blackstart.Operation.{is_static, input_from_value}
use blackstart.Module.{ok, ModuleContext}
use blackstart.Module.Context.{output}
use blackstart.Kubernetes.ValueInput
use blackstart.Kubernetes.ValueInput.{Policy, overwrite, preserve}
use blackstart.Kubernetes.ConfigMapValue.{
  config_map, Update, CheckInputs, read_check, read_set, check_value, check_config_map_value,
  set_value, set_config_map_value,
}
use blackstart.Kubernetes.Policy.{MayOverwrite, check_value-MayOverwrite}
use blackstart.Kubernetes.Written.{Echoes, set_value-check, set_value-others}

abbrev context_with : String → String → ModuleContext
context_with policy value = record {
  input_values =
      ("configmap", input_from_value (Value.opaque (GoType.pointer (GoType.named "configMap")) 1))
      ∷ ("key", input_from_value (Value.string "mode"))
      ∷ ("value", input_from_value (Value.string value))
      ∷ ("update_policy", input_from_value (Value.string policy))
      ∷ [];
  output_values = [];
  dne = false;
  tainted = false;
}

abbrev overwriting : ModuleContext
overwriting = context_with "overwrite" "fast"

abbrev overwriting_inputs : CheckInputs
overwriting_inputs = record { key = "mode"; policy = overwrite; desired = some "fast" }

abbrev old_entries : Dict String
old_entries = ("mode", "slow") ∷ ("region", "eu") ∷ []

old_entries-lookup : lookup "mode" old_entries ≡ some "slow"
unfolding lookup
old_entries-lookup = refl

overwriting_read : read_check config_map overwriting ≡ ok overwriting_inputs
unfolding read_check lookup input_from_value Inputs.context_input_as is_static Inputs.coerce_string
    ValueInput.context_optional_value ValueInput.context_update_policy trim_space
    ValueInput.require_value_input
overwriting_read = refl

overwriting_set_inputs : read_set config_map overwriting ≡ ok ("mode", some "fast")
unfolding read_set lookup input_from_value Inputs.context_input_as is_static Inputs.coerce_string
    ValueInput.context_optional_value
overwriting_set_inputs = refl

-- An `Update` that succeeds; the state of the cluster is the data.
abbrev save_all : Update (Dict String)
save_all entries w = (none, (entries, entries))

save_all-Echoes : Echoes save_all
save_all-Echoes entries w success other = refl

overwriting_set : (set_config_map_value save_all overwriting old_entries []).failure ≡ none
unfolding set_value lookup input_from_value Inputs.context_input_as is_static Inputs.coerce_string
    ValueInput.context_optional_value output
overwriting_set = refl

overwriting_check : (check_config_map_value overwriting old_entries).0 ≡ ok false
unfolding check_value lookup input_from_value Inputs.context_input_as is_static Inputs.coerce_string
    ValueInput.context_optional_value ValueInput.context_update_policy trim_space
    ValueInput.require_value_input
overwriting_check = refl

-- With the policy `preserve`, an empty value is set again and again.
preserving_nothing :
    (check_config_map_value (context_with "preserve" "") (("mode", "") ∷ [])).0 ≡ ok false
unfolding check_value lookup input_from_value Inputs.context_input_as is_static Inputs.coerce_string
    ValueInput.context_optional_value ValueInput.context_update_policy trim_space
    ValueInput.require_value_input
preserving_nothing = refl

nothing_written : has "value" overwriting.output_values ≡ false
unfolding lookup
nothing_written = refl

not_preserve : overwrite ≢ preserve
not_preserve h = cc

set_value-check_example :
    (check_config_map_value overwriting
      (set_config_map_value save_all overwriting old_entries []).data_after).0
    ≡ ok true
set_value-check_example =
    set_value-check save_all save_all-Echoes config_map overwriting old_entries []
      overwriting_inputs overwriting_read refl nothing_written (λ same. absurd (not_preserve same))
      overwriting_set

check_value-MayOverwrite_example : MayOverwrite overwriting_inputs "slow" overwrite
check_value-MayOverwrite_example =
    check_value-MayOverwrite config_map overwriting old_entries overwriting_inputs "slow"
      overwriting_read refl refl old_entries-lookup overwriting_check

set_value-others_example :
    lookup "region" (set_config_map_value save_all overwriting old_entries []).data_after
    ≡ lookup "region" old_entries
set_value-others_example =
    set_value-others save_all save_all-Echoes config_map overwriting old_entries [] "mode"
      (some "fast") "region" overwriting_set_inputs refl overwriting_set
