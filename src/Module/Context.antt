-- ===== src/Module/Context.antt =====
-- module.go: `moduleContext` and its methods.
use blackstart.Prelude.{
  String, Bool, true, false, Option, none, some, [], ◌∷◌, if◌then◌else◌, not, ◌||◌,
}
use blackstart.Prelude.Dict
use blackstart.Prelude.Dict.{Dict, has}
use blackstart.Values.{Value}
use blackstart.Operation.{Operation, Input, is_static, input_from_value}
use blackstart.Module.{
  InputValue, ModuleInfo, ModuleContext, Error, output_does_not_exist, output_already_exists,
  input_does_not_exist, Result, ok, err,
}
use blackstart.Module.Registry.{Registry}

abbrev is_nil : Value → Bool
is_nil Value.nil = true
is_nil _ = false

-- The first loop of `newModuleContext`: the static inputs.
unfoldable pub static_inputs : Dict Input → Dict Input → Dict Input
static_inputs [] iv = iv
static_inputs ((k, v) ∷ rest) iv =
    static_inputs rest (if is_static v then Dict.insert k v iv else iv)

-- Its second loop: the defaults of inputs that are not set.
unfoldable pub add_defaults : Dict InputValue → Dict Input → Dict Input
add_defaults [] iv = iv
add_defaults ((name, param) ∷ rest) iv = add_defaults rest (
    if has name iv
    then iv
    else if not (is_nil param.default) || not param.required
    then Dict.insert name (input_from_value param.default) iv
    else iv)

unfoldable pub context_of : ModuleInfo → Operation → ModuleContext
unfolding static_inputs add_defaults
context_of info op = record {
  input_values = add_defaults info.inputs (static_inputs op.inputs []);
  output_values = [];
  dne = op.does_not_exist;
  tainted = op.tainted;
}

-- newModuleContext; `none` is a panic
unfoldable pub new_module_context : {W : Type 0} → Registry W → Operation → Option ModuleContext
unfolding context_of
new_module_context r op = elim (Dict.lookup op.module_id r) [
  | none ↦ none
  | some made ↦ elim made [ none ↦ none | some m ↦ some (context_of m.info op) ]
]

-- setInput
unfoldable pub set_input : String → Value → ModuleContext → ModuleContext
set_input key value mc = record mc {
  input_values = Dict.insert key (input_from_value value) mc.input_values;
}

-- getOutput
unfoldable pub get_output : ModuleContext → String → Result Value
get_output mc key = elim (Dict.lookup key mc.output_values) [
  | none ↦ err (output_does_not_exist key)
  | some v ↦ ok v
]

-- Output; the context comes back with what was written
unfoldable pub output : String → Value → ModuleContext → Option Error × ModuleContext
output key value mc =
    if has key mc.output_values
    then (some (output_already_exists key), mc)
    else (none, record mc { output_values = Dict.insert key value mc.output_values })

-- Input
unfoldable pub input : ModuleContext → String → Result Input
input mc key = elim (Dict.lookup key mc.input_values) [
  | none ↦ err (input_does_not_exist key)
  | some v ↦ ok v
]
