-- ===== src/Inputs/Static.antt =====
-- What the modules for databases share in their `Validate`: checks of the inputs that are static.
use blackstart.Prelude.{
  String, Bool, true, false, ◌&&◌, Option, none, some, List, [], ◌∷◌, ◌==◌, if◌then◌else◌,
}
use blackstart.Prelude.Dict.{has}
use blackstart.Text.{trim_space}
use blackstart.Values.{Value, nil}
use blackstart.Inputs.{Target, strings_target, input_as}
use blackstart.Operation.{Operation, Input, is_static}
use blackstart.Module.{Error, Result, ok, err, missing_parameter, invalid_parameter}

-- An input of `Validate` that is absent or not static counts as the given value.
abbrev pub static_or : {A : Type 0} → Target A → A → String → Option Input → Result A
static_or t absent key none = ok absent
static_or t absent key (some i) =
    if is_static i
    then elim (input_as t i false) [ err e ↦ err (invalid_parameter key e) | ok a ↦ ok a ]
    else ok absent

-- A loop that returns the first error of its rounds.
unfoldable pub first_error : {A : Type 0} → (A → Option Error) → List A → Option Error
first_error f [] = none
first_error f (x ∷ xs) = elim (f x) [ some e ↦ some e | none ↦ first_error f xs ]

abbrev pub parameter_error : String → Option Error → Option Error
parameter_error key none = none
parameter_error key (some e) = some (invalid_parameter key e)

-- The checks of `Validate` on a required list: the roles and the permissions.
abbrev pub validate_required : String → (String → Option Error) → Option Input → Option Error
validate_required key check none = none
validate_required key check (some i) =
    if is_static i
    then elim (input_as strings_target i true) [
      | err e ↦ some (invalid_parameter key e)
      | ok values ↦ first_error (λ v. parameter_error key (check v)) values
    ]
    else none

abbrev pub validate_optional : String → (String → Option Error) → Option Input → Option Error
validate_optional key check none = none
validate_optional key check (some i) =
    if is_static i
    then elim (input_as strings_target i false) [
      | err e ↦ some (invalid_parameter key e)
      | ok values ↦ first_error (λ v. if trim_space v == "" then none else check v) values
    ]
    else none

abbrev pub both_none : Option Error → Option Error → Option Error
both_none none second = second
both_none (some e) second = some e

abbrev pub error_of : Result (Option Error) → Option Error
error_of (err e) = some e
error_of (ok r) = r

abbrev pub is_nil : Value → Bool
is_nil nil = true
is_nil _ = false

abbrev pub missing_connection : Option Input → Bool
missing_connection none = false
missing_connection (some i) = is_static i && is_nil i.any_value

unfoldable pub missing_key : Operation → List String → Option Error
missing_key op [] = none
missing_key op (key ∷ keys) =
    if has key op.inputs then missing_key op keys else some (missing_parameter key)
