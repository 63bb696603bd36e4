-- ===== src/Postgres/Targets.antt =====
-- modules/postgres/grant.go: from the inputs of an operation to the list of its grants.
use blackstart.Prelude.{
  String, Bool, true, false, not, ◌&&◌, Option, none, some, List, [], ◌∷◌, ◌==◌, if◌then◌else◌,
}
use blackstart.Text.{trim_space}
use blackstart.Inputs.{string_target, strings_target, bool_target, input_as, context_input_as}
use blackstart.Operation.{Input, is_static}
use blackstart.Module.{
  Error, Result, ok, err, ◌>>=◌, ModuleContext, input_does_not_exist, not_supported, invalid_input,
}
use blackstart.Module.Loops.{each, unless_error}
use blackstart.Module.Context.{input}
use blackstart.Postgres.Identifier.{validate_quoted_identifier}
use blackstart.Postgres.Grant.{
  Scope, scope_name, string_to_scope, Grant, supports_with_grant_option, supports_all,
  normalize_permission, validate_principal, validate_resource,
}
use blackstart.Postgres.Dimensions.{normalize_required, normalize_optional, normalize_scope_targets}

abbrev pub found_list : Result Input → Result (Option (List String))
found_list (err (input_does_not_exist key)) = ok none
found_list (err e) = err e
found_list (ok i) =
    if is_static i
    then (input_as strings_target i false >>= λ values. ok (some values))
    else ok (some [])

-- readOptionalStringListInput; `none` where the input is absent
unfoldable pub read_optional_list : ModuleContext → String → Result (Option (List String))
unfolding input input_as
read_optional_list ctx key = found_list (input ctx key)

abbrev pub dimension : String → Result (Option (List String)) → Result (List String)
dimension key (err e) = err (invalid_input key e)
dimension key (ok none) = ok ("" ∷ [])
dimension key (ok (some values)) = ok (normalize_optional values)

-- What the four loops of `expandGrantsFromContext` run over, and the fields that stay.
pub record Expansion : Type 0 where
  pub scope : Scope
  pub roles : List String
  pub permissions : List String
  pub schemas : List String
  pub resources : List String
  pub all : Bool
  pub with_grant_option : Bool

abbrev pub check_schema : String → Option Error
check_schema s = if s == "" then none else validate_quoted_identifier s

abbrev pub check_resource : Scope → String → Option Error
check_resource sc r = if r == "" then none else validate_resource sc r

abbrev pub target_of : Expansion → String → String → String → String → Grant
target_of e role permission schema resource = record {
  role = role;
  permission = normalize_permission e.scope permission;
  schema = schema;
  resource = resource;
  scope = scope_name e.scope;
  all = e.all;
  with_grant_option = e.with_grant_option;
}

-- The body of the innermost loop.
unfoldable pub expand_resource : Expansion → String → String → String → String → Result (List Grant)
expand_resource e role permission schema resource =
    unless_error (check_resource e.scope resource)
      (ok (target_of e role permission schema resource ∷ []))

unfoldable pub expand_schema : Expansion → String → String → String → Result (List Grant)
unfolding expand_resource
expand_schema e role permission schema =
    unless_error (check_schema schema) (each (expand_resource e role permission schema) e.resources)

unfoldable pub expand_permission : Expansion → String → String → Result (List Grant)
unfolding expand_schema
expand_permission e role permission =
    unless_error (validate_principal e.scope role permission)
      (each (expand_schema e role permission) e.schemas)

unfoldable pub expand_role : Expansion → String → Result (List Grant)
unfolding expand_permission
expand_role e role = each (expand_permission e role) e.permissions

unfoldable pub expand_all : Expansion → Result (List Grant)
unfolding expand_role
expand_all e = each (expand_role e) e.roles

unfoldable pub scope_value : String → String
scope_value s = if trim_space s == "" then "instance" else s

-- The checks after the scope and the two flags are read.
unfoldable pub expansion_of :
    List String → List String → List String → List String → Scope → Bool → Bool → Result Expansion
expansion_of roles permissions schemas resources sc all option =
    if all && not (supports_all sc)
    then err (not_supported "all")
    else (normalize_scope_targets sc schemas resources all >>= λ dims.
        if option && not (supports_with_grant_option sc)
        then err (not_supported "with_grant_option")
        else ok (record {
          scope = sc;
          roles = roles;
          permissions = permissions;
          schemas = dims.0;
          resources = dims.1;
          all = all;
          with_grant_option = option;
        }))

-- `expandGrantsFromContext` up to its loops
unfoldable pub read_expansion : ModuleContext → Result Expansion
unfolding expansion_of context_input_as
read_expansion ctx = context_input_as strings_target ctx "role" true >>= λ roles_raw.
    normalize_required roles_raw "role" >>= λ roles.
    context_input_as strings_target ctx "permission" true >>= λ permissions_raw.
    normalize_required permissions_raw "permission" >>= λ permissions.
    dimension "schema" (read_optional_list ctx "schema") >>= λ schemas.
    dimension "resource" (read_optional_list ctx "resource") >>= λ resources.
    context_input_as string_target ctx "scope" false >>= λ value.
    string_to_scope (scope_value value) >>= λ sc.
    context_input_as bool_target ctx "all" false >>= λ all.
    context_input_as bool_target ctx "with_grant_option" false >>= λ option.
    expansion_of roles permissions schemas resources sc all option

-- expandGrantsFromContext
unfoldable pub expand_grants : ModuleContext → Result (List Grant)
unfolding read_expansion expand_all
expand_grants ctx = read_expansion ctx >>= expand_all
