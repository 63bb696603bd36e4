-- ===== src/DefaultPrivileges/Validate.antt =====
-- modules/postgres/default_privileges.go: `Validate` of the module.
use blackstart.Prelude.{
  String, Bool, true, false, not, ◌&&◌, Option, none, some, [], ◌∷◌, ◌==◌, if◌then◌else◌,
}
use blackstart.Prelude.Dict.{lookup}
use blackstart.Text.{trim_space}
use blackstart.Inputs.{string_target, bool_target, input_as}
use blackstart.Inputs.Static.{
  static_or, first_error, parameter_error, validate_required, validate_optional, both_none,
  error_of, missing_connection, missing_key,
}
use blackstart.Operation.{Operation, Input, is_static}
use blackstart.Module.{
  Error, Result, ok, err, ◌>>=◌, missing_parameter, invalid_parameter, not_supported,
  only_when_existing, only_when_removing,
}
use blackstart.Postgres.Identifier.{validate_quoted_identifier}
use blackstart.DefaultPrivileges.Scope.{
  Scope, tables, schema_supported, parse_scope, normalize_revoke_mode, permission_token,
  validate_permission, validate_grantee,
}

abbrev scope_parameter : Result Scope → Result Scope
scope_parameter (err e) = err (invalid_parameter "scope" e)
scope_parameter (ok sc) = ok sc

-- The scope of `Validate`; an input that is not static leaves TABLE.
abbrev static_scope : Option Input → Result Scope
static_scope none = ok tables
static_scope (some i) =
    if is_static i
    then elim (input_as string_target i true) [
      | err e ↦ err (invalid_parameter "scope" e)
      | ok raw ↦ scope_parameter (parse_scope raw)
    ]
    else ok tables

abbrev validate_schema_value : Scope → String → Option Error
validate_schema_value sc v =
    if not (schema_supported sc)
    then some (invalid_parameter "schema" (not_supported "schema"))
    else parameter_error "schema" (validate_quoted_identifier (trim_space v))

abbrev option_error : Bool → Result Bool → Option Error
option_error dne (err e) = some e
option_error dne (ok option) =
    if dne && option
    then some (invalid_parameter "with_grant_option" (only_when_existing "with_grant_option"))
    else none

abbrev mode_error : Bool → String → Result String → Option Error
mode_error dne raw (err e) = some (invalid_parameter "revoke_mode" e)
mode_error dne raw (ok mode) =
    if not dne && not (trim_space raw == "") && not (mode == "RESTRICT")
    then some (invalid_parameter "revoke_mode" (only_when_removing "revoke_mode"))
    else none

-- An absent mode has no error, as an empty one has none.
abbrev validate_mode : Bool → Result String → Option Error
validate_mode dne (err e) = some e
validate_mode dne (ok raw) = mode_error dne raw (normalize_revoke_mode raw)

-- `Validate` once the scope is known.
unfoldable pub validate_values : Operation → Scope → Option Error
unfolding first_error input_as
validate_values op sc =
    both_none
      (validate_required "role" (λ v. validate_grantee (trim_space v)) (lookup "role" op.inputs))
      (both_none
        (validate_required "permission" (λ v. validate_permission sc (permission_token v))
          (lookup "permission" op.inputs))
        (both_none
          (option_error op.does_not_exist (
            static_or bool_target false "with_grant_option" (lookup "with_grant_option" op.inputs)))
          (both_none
            (validate_optional "for_role"
              (λ v. parameter_error "for_role" (validate_quoted_identifier (trim_space v)))
              (lookup "for_role" op.inputs))
            (both_none
              (validate_optional "schema" (validate_schema_value sc) (lookup "schema" op.inputs))
              (validate_mode op.does_not_exist
                (static_or string_target "" "revoke_mode" (lookup "revoke_mode" op.inputs)))))))

-- (m *defaultPrivilegesModule) Validate
unfoldable pub validate_default_privileges : Operation → Option Error
unfolding validate_values missing_key
validate_default_privileges op =
    both_none (missing_key op ("connection" ∷ "role" ∷ "permission" ∷ "scope" ∷ [])) (
      if missing_connection (lookup "connection" op.inputs)
      then some (missing_parameter "connection")
      else error_of (static_scope (lookup "scope" op.inputs) >>= λ sc. ok (validate_values op sc)))
