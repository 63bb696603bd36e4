-- ===== src/Mysql/Validate.antt =====
-- modules/mysql/grant.go: `Validate` of the module `mysql_grant`.
use blackstart.Prelude.{
  String, Bool, true, false, not, ◌&&◌, Option, none, some, [], ◌∷◌, ◌==◌, if◌then◌else◌,
}
use blackstart.Prelude.Dict.{lookup}
use blackstart.Text.{trim_space}
use blackstart.Inputs.{string_target, strings_target, bool_target, input_as}
use blackstart.Inputs.Static.{
  static_or, first_error, parameter_error, both_none, error_of, missing_connection, missing_key,
}
use blackstart.Operation.{Operation, Input, is_static}
use blackstart.Module.{
  Error, Result, ok, err, ◌>>=◌, missing_parameter, invalid_parameter, not_supported, must_be_empty,
  empty_value,
}
use blackstart.Mysql.Account.{parse_account, quote_identifier}
use blackstart.Mysql.Grant.{Scope, on_database, on_table, string_to_scope, normalize_permission}

-- The validators that keep the error of another function and forget its result:
-- validateMySQLRole, validateGrantIdentifier and validateGrantPermission
abbrev error_in : {A : Type 0} → Result A → Option Error
error_in (err e) = some e
error_in (ok a) = none

unfoldable pub validate_role : String → Option Error
validate_role value = error_in (parse_account value)

unfoldable pub validate_identifier : String → Option Error
validate_identifier value = error_in (quote_identifier value)

unfoldable pub validate_permission : Scope → String → Option Error
validate_permission sc value = error_in (normalize_permission sc value)

-- One round of the loop of `validateStaticStringListInput`.
abbrev list_value : String → Bool → (String → Option Error) → String → Option Error
list_value key required validate value =
    let trimmed = trim_space value in
    if trimmed == ""
    then if required then some (invalid_parameter key (empty_value "value")) else none
    else parameter_error key (validate trimmed)

-- validateStaticStringListInput
abbrev pub validate_list : String → Bool → (String → Option Error) → Option Input → Option Error
validate_list key required validate none = none
validate_list key required validate (some i) =
    if is_static i
    then elim (input_as strings_target i required) [
      | err e ↦ some (invalid_parameter key e)
      | ok values ↦ first_error (list_value key required validate) values
    ]
    else none

abbrev scope_parameter : Result Scope → Result Scope
scope_parameter (err e) = err (invalid_parameter "scope" e)
scope_parameter (ok sc) = ok sc

-- staticGrantScope
unfoldable pub static_scope : Operation → Result Scope
static_scope op = static_or string_target "" "scope" (lookup "scope" op.inputs) >>= λ value.
    scope_parameter (string_to_scope value)

abbrev is_table : Scope → Bool
is_table on_database = false
is_table on_table = true

-- The last check of `Validate`: with `all`, every static resource is blank.
abbrev must_be_blank : Bool → Option Input → Option Error
must_be_blank true (some i) =
    if is_static i
    then elim (input_as strings_target i false) [
      | err e ↦ some (invalid_parameter "resource" e)
      | ok values ↦
          first_error
            (λ v.
              if trim_space v == ""
              then none
              else some (invalid_parameter "resource" (must_be_empty "resource")))
            values
    ]
    else none
must_be_blank _ _ = none

-- `Validate` once the scope and the flag are known.
unfoldable pub validate_values : Operation → Scope → Bool → Option Error
unfolding first_error input_as validate_role validate_identifier validate_permission
validate_values op sc all =
    if all && not (is_table sc)
    then some (invalid_parameter "all" (not_supported "all"))
    else both_none (validate_list "role" true validate_role (lookup "role" op.inputs)) (
        both_none
          (validate_list "permission" true (validate_permission sc) (lookup "permission" op.inputs))
          (both_none (validate_list "schema" false validate_identifier (lookup "schema" op.inputs))
            (both_none
              (validate_list "resource" false validate_identifier (lookup "resource" op.inputs))
              (must_be_blank all (lookup "resource" op.inputs)))))

-- (g *grantModule) Validate
unfoldable pub validate_grant : Operation → Option Error
unfolding validate_values missing_key static_scope
validate_grant op = both_none (missing_key op ("role" ∷ "permission" ∷ "connection" ∷ [])) (
    if missing_connection (lookup "connection" op.inputs)
    then some (missing_parameter "connection")
    else error_of (
        static_scope op >>= λ sc.
        static_or bool_target false "all" (lookup "all" op.inputs) >>= λ all.
        ok (validate_values op sc all)))
