-- ===== src/Postgres/Validate.antt =====
-- modules/postgres/grant.go: `Validate` of the module `postgres_grant`.
use blackstart.Prelude.{
  String, Bool, true, false, not, ◌&&◌, Option, none, some, [], ◌∷◌, if◌then◌else◌,
}
use blackstart.Prelude.Dict.{lookup}
use blackstart.Inputs.{string_target, bool_target, input_as}
use blackstart.Operation.{Operation}
use blackstart.Module.{
  Error, Result, ok, err, ◌>>=◌, missing_parameter, invalid_parameter, not_supported, must_be_empty,
}
use blackstart.Postgres.Identifier.{validate_quoted_identifier}
use blackstart.Postgres.Grant.{
  Scope, on_instance, on_schema, on_table, on_sequence, on_function, on_procedure, on_routine,
  on_database, string_to_scope, supports_with_grant_option, supports_all, validate_role,
  validate_permission, validate_resource,
}
use blackstart.Postgres.Targets.{scope_value}
use blackstart.Inputs.Static.{
  static_or, first_error, parameter_error, validate_required, validate_optional, both_none,
  error_of, missing_connection, missing_key,
}

-- A scope that names its resource without a schema.
unfoldable pub is_named_scope : Scope → Bool
is_named_scope on_instance = false
is_named_scope on_schema = false
is_named_scope on_table = false
is_named_scope on_sequence = false
is_named_scope on_function = false
is_named_scope on_procedure = false
is_named_scope on_routine = false
is_named_scope on_database = false
is_named_scope _ = true

-- One round of the last loop of `Validate`, for the schemas and for the resources.
unfoldable pub validate_schema_value : Scope → String → Option Error
unfolding is_named_scope
validate_schema_value sc v =
    if is_named_scope sc
    then some (invalid_parameter "schema" (not_supported "schema"))
    else parameter_error "schema" (validate_quoted_identifier v)

unfoldable pub validate_resource_value : Scope → Bool → String → Option Error
validate_resource_value sc all v = elim (validate_resource sc v) [
  | some e ↦ some (invalid_parameter "resource" e)
  | none ↦ if all then some (invalid_parameter "resource" (must_be_empty "resource")) else none
]

-- `Validate` once the scope and the flags are known.
unfoldable pub validate_values : Operation → Scope → Bool → Bool → Option Error
unfolding first_error validate_schema_value validate_resource_value input_as
validate_values op sc all option =
    if option && not (supports_with_grant_option sc)
    then some (invalid_parameter "with_grant_option" (not_supported "with_grant_option"))
    else if all && not (supports_all sc)
    then some (invalid_parameter "all" (not_supported "all"))
    else both_none (validate_required "role" validate_role (lookup "role" op.inputs)) (
        both_none
          (validate_required "permission" (validate_permission sc) (lookup "permission" op.inputs))
          (both_none
            (validate_optional "schema" (validate_schema_value sc) (lookup "schema" op.inputs))
            (validate_optional "resource" (validate_resource_value sc all)
              (lookup "resource" op.inputs))))

abbrev scope_parameter : Result Scope → Result Scope
scope_parameter (err e) = err (invalid_parameter "scope" e)
scope_parameter (ok sc) = ok sc

-- (g *grantModule) Validate
unfoldable pub validate_grant : Operation → Option Error
unfolding validate_values missing_key
validate_grant op = both_none (missing_key op ("role" ∷ "permission" ∷ "connection" ∷ [])) (
    if missing_connection (lookup "connection" op.inputs)
    then some (missing_parameter "connection")
    else error_of (
        static_or string_target "" "scope" (lookup "scope" op.inputs) >>= λ value.
        scope_parameter (string_to_scope (scope_value value)) >>= λ sc.
        static_or bool_target false "all" (lookup "all" op.inputs) >>= λ all.
        static_or bool_target false "with_grant_option" (lookup "with_grant_option" op.inputs)
        >>= λ option. ok (validate_values op sc all option)))
