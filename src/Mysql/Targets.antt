-- ===== src/Mysql/Targets.antt =====
-- modules/mysql/grant.go: from the inputs of an operation to the list of its grants. The package has
-- `normalizeRequiredStringList` and `normalizeOptionalStringList` word for word as
-- modules/postgres/grant.go has them.
use blackstart.Prelude.{String, Bool, true, false, List, [], ◌∷◌, if◌then◌else◌}
use blackstart.Inputs.{string_target, strings_target, bool_target, context_input_as}
use blackstart.Module.{Result, ok, err, ◌>>=◌, ModuleContext, must_be_provided}
use blackstart.Module.Loops.{each}
use blackstart.Postgres.Dimensions.{
  normalize_required, normalize_optional, is_unset, Dimensions, database_targets,
}
use blackstart.Mysql.Grant.{
  Scope, on_database, on_table, Grant, string_to_scope, normalize_permission,
}

-- contextStringList for a required input, and for an optional one
unfoldable pub required_list : ModuleContext → String → Result (List String)
required_list ctx key =
    context_input_as strings_target ctx key true >>= λ values. normalize_required values key

unfoldable pub optional_list : ModuleContext → String → Result (List String)
optional_list ctx key =
    context_input_as strings_target ctx key false >>= λ values. ok (normalize_optional values)

unfoldable pub table_targets : List String → List String → Bool → Result Dimensions
table_targets schemas resources all =
    if is_unset schemas
    then err (must_be_provided "schema")
    else if all
    then ok (schemas, "" ∷ [])
    else if is_unset resources
    then err (must_be_provided "resource")
    else ok (schemas, resources)

-- normalizeScopeTargets
unfoldable pub normalize_scope_targets :
    Scope → List String → List String → Bool → Result Dimensions
unfolding table_targets
normalize_scope_targets on_database schemas resources all = database_targets resources
normalize_scope_targets on_table schemas resources all = table_targets schemas resources all

-- What the four loops of `expandGrantsFromContext` run over, and the fields that stay.
pub record Expansion : Type 0 where
  pub scope : Scope
  pub roles : List String
  pub permissions : List String
  pub schemas : List String
  pub resources : List String
  pub all : Bool
  pub with_grant_option : Bool

abbrev pub target_of : Expansion → String → String → String → String → Grant
target_of e role permission schema resource = record {
  role = role;
  permission = permission;
  schema = schema;
  resource = resource;
  scope = e.scope;
  all = e.all;
  with_grant_option = e.with_grant_option;
}

unfoldable pub expand_schema : Expansion → String → String → String → Result (List Grant)
expand_schema e role permission schema =
    each (λ resource. ok (target_of e role permission schema resource ∷ [])) e.resources

unfoldable pub expand_permission : Expansion → String → String → Result (List Grant)
unfolding expand_schema
expand_permission e role permission = normalize_permission e.scope permission >>= λ normalized.
    each (expand_schema e role normalized) e.schemas

unfoldable pub expand_all : Expansion → Result (List Grant)
unfolding expand_permission
expand_all e = each (λ role. each (expand_permission e role) e.permissions) e.roles

-- `expandGrantsFromContext` up to its loops
unfoldable pub read_expansion : ModuleContext → Result Expansion
unfolding required_list optional_list normalize_scope_targets
read_expansion ctx = required_list ctx "role" >>= λ roles.
    required_list ctx "permission" >>= λ permissions. optional_list ctx "schema" >>= λ schemas.
    optional_list ctx "resource" >>= λ resources.
    context_input_as string_target ctx "scope" false >>= λ value. string_to_scope value >>= λ sc.
    context_input_as bool_target ctx "all" false >>= λ all.
    context_input_as bool_target ctx "with_grant_option" false >>= λ option.
    normalize_scope_targets sc schemas resources all >>= λ dims. ok (record {
      scope = sc;
      roles = roles;
      permissions = permissions;
      schemas = dims.0;
      resources = dims.1;
      all = all;
      with_grant_option = option;
    })

-- expandGrantsFromContext
unfoldable pub expand_grants : ModuleContext → Result (List Grant)
unfolding read_expansion expand_all
expand_grants ctx = read_expansion ctx >>= expand_all
