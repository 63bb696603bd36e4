-- ===== src/Kubernetes/ConfigMapValue.antt =====
-- modules/kubernetes/configmap_value.go and modules/kubernetes/secret_value.go: `Check` and `Set`, which
-- are the same in both but for the object that holds the values. Its data is the state: the code reads
-- the same from a nil map as from an empty one. `Update` is a parameter. A value of a secret, which the
-- code converts to bytes and back, is a text like one of a config map.
use blackstart.Prelude.{
  String, Bool, true, false, not, Option, none, some, [], ◌∷◌, ◌==◌, if◌then◌else◌,
}
use blackstart.Prelude.Dict.{Dict, lookup, insert, has}
use blackstart.Values.{GoType, Value}
use blackstart.Values.Reflect.{same_type}
use blackstart.Inputs.{string_target, context_input_as}
use blackstart.Module.{
  Error, Result, ok, err, ◌>>=◌, ModuleContext, not_of_type, must_be_provided, value_changed,
}
use blackstart.Module.Context.{input, output}
use blackstart.Kubernetes.ValueInput.{
  Policy, overwrite, preserve, preserve_any, fail, context_update_policy, context_optional_value,
  require_value_input,
}

-- The object that holds the values: a config map, or a secret.
pub data Kind : Type 0 where
  config_map secret : Kind

abbrev pub input_name : Kind → String
input_name config_map = "configmap"
input_name secret = "secret"

abbrev type_name : Kind → String
type_name config_map = "configMap"
type_name secret = "secret"

abbrev is_of_kind : Kind → Value → Bool
is_of_kind kind (Value.opaque t n) = same_type t (GoType.pointer (GoType.named (type_name kind)))
is_of_kind kind _ = false

unfoldable pub holder_input : Kind → ModuleContext → Result Unit
unfolding input
holder_input kind ctx = input ctx (input_name kind) >>= λ i.
    if is_of_kind kind i.any_value then ok tt else err not_of_type

-- What `Check` and `Set` read before they look at the config map.
pub record CheckInputs : Type 0 where
  pub key : String
  pub policy : Policy
  pub desired : Option String

abbrev pub required : Option Error → Result CheckInputs → Result CheckInputs
required none r = r
required (some e) r = err e

unfoldable pub read_check : Kind → ModuleContext → Result CheckInputs
unfolding holder_input
read_check kind ctx = holder_input kind ctx >>= λ found.
    context_input_as string_target ctx "key" true >>= λ key. context_update_policy ctx >>= λ policy.
    context_optional_value ctx >>= λ desired.
    required (require_value_input policy desired)
      (ok (record { key = key; policy = policy; desired = desired }))

unfoldable pub read_set : Kind → ModuleContext → Result (String × Option String)
unfolding holder_input
read_set kind ctx = holder_input kind ctx >>= λ found.
    context_input_as string_target ctx "key" true >>= λ key.
    context_optional_value ctx >>= λ desired. ok (key, desired)

-- `desiredValue`, which is empty where the value is omitted
abbrev pub desired_text : Option String → String
desired_text none = ""
desired_text (some v) = v

abbrev pub answered : Option Error × ModuleContext → Result Bool × ModuleContext
answered (none, ctx) = (ok true, ctx)
answered (some e, ctx) = (err e, ctx)

-- return true, outputConfigMapValue(ctx, value), of which an error is what counts
unfoldable pub passes : String → ModuleContext → Result Bool × ModuleContext
passes v ctx = answered (output "value" (Value.string v) ctx)

-- The switch of `Check` on the policy.
unfoldable pub compare_value :
    CheckInputs → String → ModuleContext → Policy → Result Bool × ModuleContext
unfolding passes
compare_value i actual ctx overwrite =
    if actual == desired_text i.desired then passes actual ctx else (ok false, ctx)
compare_value i actual ctx preserve = if actual == "" then (ok false, ctx) else passes actual ctx
compare_value i actual ctx preserve_any = passes actual ctx
compare_value i actual ctx fail =
    if actual == desired_text i.desired then passes actual ctx else (err (value_changed i.key), ctx)

unfoldable pub check_present :
    CheckInputs → Option String → ModuleContext → Result Bool × ModuleContext
unfolding compare_value
check_present i none ctx = (ok false, ctx)
check_present i (some actual) ctx = compare_value i actual ctx i.policy

unfoldable pub check_read :
    Dict String → ModuleContext → Result CheckInputs → Result Bool × ModuleContext
unfolding check_present
check_read entries ctx (err e) = (err e, ctx)
check_read entries ctx (ok i) =
    if ctx.tainted
    then (ok false, ctx)
    else if ctx.dne
    then (ok (not (has i.key entries)), ctx)
    else check_present i (lookup i.key entries) ctx

-- `Check` of both modules
unfoldable pub check_value : Kind → ModuleContext → Dict String → Result Bool × ModuleContext
unfolding read_check check_read
check_value kind ctx entries = check_read entries ctx (read_check kind ctx)

-- (c *configMapValueModule) Check and (s *secretValueModule) Check
abbrev pub check_config_map_value : ModuleContext → Dict String → Result Bool × ModuleContext
check_config_map_value = check_value config_map

abbrev pub check_secret_value : ModuleContext → Dict String → Result Bool × ModuleContext
check_secret_value = check_value secret

-- delete(cm.Data, key)
unfoldable pub delete_entry : String → Dict String → Dict String
delete_entry key [] = []
delete_entry key (entry ∷ rest) =
    let others = delete_entry key rest in if entry.0 == key then others else entry ∷ others

-- What a call of `Set` leaves: its error, the config map's data, and the state of the cluster.
pub record Written (World : Type 0) : Type 0 where
  pub failure : Option Error
  pub data_after : Dict String
  pub context_after : ModuleContext
  pub world_after : World

-- `Update`, of the object's data: its error, the data of the object that the client returns, with which
-- the code replaces its own also after an error, and the state of the cluster.
abbrev pub Update : Type 0 → Type 0
Update World = Dict String → World → Option Error × (Dict String × World)

module _ {World : Type 0} (save : Update World) where
  abbrev saved : ModuleContext → Option Error × (Dict String × World) → Written World
  saved ctx (failure, (entries, w)) = record {
    failure = failure;
    data_after = entries;
    context_after = ctx;
    world_after = w;
  }

  abbrev emitted : Dict String × World → Option Error × ModuleContext → Written World
  emitted left (failure, ctx) = saved ctx (failure, left)

  abbrev pub saved_then_emitted :
      ModuleContext → String → Option Error × (Dict String × World) → Written World
  saved_then_emitted ctx v (some e, left) = saved ctx (some e, left)
  saved_then_emitted ctx v (none, left) = emitted left (output "value" (Value.string v) ctx)

  unfoldable pub write_value :
      ModuleContext → Dict String → World → String → Option String → Written World
  write_value ctx entries w key none = saved ctx (some (must_be_provided "value"), (entries, w))
  write_value ctx entries w key (some v) = saved_then_emitted ctx v (save (insert key v entries) w)

  unfoldable pub remove_value : ModuleContext → Dict String → World → String → Written World
  unfolding delete_entry
  remove_value ctx entries w key =
      if has key entries
      then saved ctx (save (delete_entry key entries) w)
      else saved ctx (none, (entries, w))

  unfoldable pub set_read :
      ModuleContext → Dict String → World → Result (String × Option String) → Written World
  unfolding write_value remove_value
  set_read ctx entries w (err e) = saved ctx (some e, (entries, w))
  set_read ctx entries w (ok (key, desired)) =
      if ctx.dne then remove_value ctx entries w key else write_value ctx entries w key desired

  -- `Set` of both modules
  unfoldable pub set_value : Kind → ModuleContext → Dict String → World → Written World
  unfolding read_set set_read
  set_value kind ctx entries w = set_read ctx entries w (read_set kind ctx)

  -- (c *configMapValueModule) Set and (s *secretValueModule) Set
  abbrev pub set_config_map_value : ModuleContext → Dict String → World → Written World
  set_config_map_value = set_value config_map

  abbrev pub set_secret_value : ModuleContext → Dict String → World → Written World
  set_secret_value = set_value secret
