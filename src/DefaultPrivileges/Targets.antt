-- ===== src/DefaultPrivileges/Targets.antt =====
-- modules/postgres/default_privileges.go: `expandTargets`. Where the code trims and normalizes the
-- strings of an input in place, the lists here are new ones: what it puts there reads the same again.
use blackstart.Prelude.{
  String, Bool, true, false, not, ◌&&◌, Option, none, some, List, [], ◌∷◌, ◌==◌, if◌then◌else◌,
}
use blackstart.Text.{trim_space, equal_fold}
use blackstart.Values.{Value}
use blackstart.Inputs.{string_target, strings_target, bool_target, context_input_as}
use blackstart.Module.{
  Error, Result, ok, err, ◌>>=◌, ModuleContext, empty_value, invalid_parameter, not_supported,
  query_error, only_when_existing, only_when_removing,
}
use blackstart.Module.Loops.{each, unless_error, concat_map}
use blackstart.Inputs.Static.{first_error, parameter_error}
use blackstart.Postgres.Identifier.{validate_quoted_identifier}
use blackstart.Postgres.Dimensions.{normalize_optional, is_unset}
use blackstart.DefaultPrivileges.Scope.{
  Scope, schema_supported, parse_scope, normalize_revoke_mode, permission_token,
  validate_permission, expand_check_permissions, validate_grantee,
}
use blackstart.DefaultPrivileges.Catalog.{Catalog}

-- type defaultPrivilegeTarget struct
pub record Target : Type 0 where
  pub scope : Scope
  pub owner_role : String
  pub schema : String
  pub grantee : String
  pub permission : String
  pub check_permissions : List String
  pub with_grant_option : Bool
  pub revoke_mode : String

-- One round of the loop over the grantees, and of the one over the permissions.
abbrev pub grantee_value : String → Result (List String)
grantee_value v =
    let grantee = trim_space v in
    if grantee == ""
    then err (empty_value "role")
    else unless_error (parameter_error "role" (validate_grantee grantee)) (ok (grantee ∷ []))

abbrev pub permission_value : Scope → String → Result (List String)
permission_value sc v =
    let permission = permission_token v in
    if permission == ""
    then err (empty_value "permission")
    else unless_error (validate_permission sc permission) (ok (permission ∷ []))

-- One round of the loop over the schemas.
abbrev pub check_schema : Scope → String → Option Error
check_schema sc schema =
    if schema == ""
    then none
    else if not (schema_supported sc)
    then some (not_supported "schema")
    else parameter_error "schema" (validate_quoted_identifier schema)

abbrev pub reads_as : {A : Type 0} → String → Result A → Result A
reads_as key (err e) = err (invalid_parameter key e)
reads_as key (ok a) = ok a

-- What `expandTargets` knows when it comes to the owners.
pub record Request : Type 0 where
  pub scope : Scope
  pub with_grant_option : Bool
  pub revoke_mode : String
  pub grantees : List String
  pub permissions : List String
  pub owners : List String

-- `expandTargets` once the scope and the flags are known, up to the owners.
unfoldable pub read_lists : ModuleContext → Scope → Bool → String → Result Request
read_lists ctx sc option mode = context_input_as strings_target ctx "role" true >>= λ roles.
    each grantee_value roles >>= λ grantees.
    context_input_as strings_target ctx "permission" true >>= λ values.
    each (permission_value sc) values >>= λ permissions.
    reads_as "for_role" (context_input_as strings_target ctx "for_role" false) >>= λ owners.
    ok (record {
      scope = sc;
      with_grant_option = option;
      revoke_mode = mode;
      grantees = grantees;
      permissions = permissions;
      owners = normalize_optional owners;
    })

-- The first part of `expandTargets`.
unfoldable pub read_request : ModuleContext → Result Request
unfolding read_lists
read_request ctx = context_input_as string_target ctx "scope" true >>= λ raw.
    parse_scope raw >>= λ sc.
    context_input_as bool_target ctx "with_grant_option" false >>= λ option.
    if ctx.dne && option
    then err (only_when_existing "with_grant_option")
    else context_input_as string_target ctx "revoke_mode" false >>= λ mode_raw.
        normalize_revoke_mode mode_raw >>= λ mode.
        if not ctx.dne && not (trim_space mode_raw == "") && not (equal_fold mode_raw "RESTRICT")
        then err (only_when_removing "revoke_mode")
        else read_lists ctx sc option mode

-- What the four loops of `expandTargets` run over, and the fields that stay.
pub record Expansion : Type 0 where
  pub request : Request
  pub owner_roles : List String
  pub schemas : List String

abbrev pub target_of : Request → String → String → String → String → Target
target_of r owner schema grantee permission = record {
  scope = r.scope;
  owner_role = owner;
  schema = schema;
  grantee = grantee;
  permission = permission;
  check_permissions = expand_check_permissions r.scope permission;
  with_grant_option = r.with_grant_option;
  revoke_mode = r.revoke_mode;
}

-- `expandTargets` between the resolution of the owners and its loops.
unfoldable pub read_expansion : ModuleContext → Request → List String → Result Expansion
unfolding first_error
read_expansion ctx r owners =
    unless_error
      (first_error (λ o. parameter_error "for_role" (validate_quoted_identifier o)) owners)
      (reads_as "schema" (context_input_as strings_target ctx "schema" false) >>= λ values.
        let schemas = normalize_optional values in
        unless_error (first_error (check_schema r.scope) schemas)
          (ok (record { request = r; owner_roles = owners; schemas = schemas })))

-- The loops: one target for each owner, schema, grantee and permission, in that order.
unfoldable pub expand_all : Expansion → List Target
expand_all e =
    concat_map
      (λ owner.
        concat_map
          (λ schema.
            concat_map
              (λ grantee.
                concat_map (λ permission. target_of e.request owner schema grantee permission ∷ [])
                  e.request.permissions)
              e.request.grantees)
          e.schemas)
      e.owner_roles

-- resolveCurrentRole, where no owner is given
abbrev pub current_owner : {World : Type 0} → Result String × World → Result (List String) × World
current_owner (err e, w) = (err (query_error e), w)
current_owner (ok role, w) = (ok (role ∷ []), w)

-- `expandTargets` once the owners are known, or not.
abbrev pub with_owners :
    {World : Type 0}
    → ModuleContext
    → Request
    → Result (List String) × World
    → Result (List Target) × World
with_owners ctx r (err e, w) = (err e, w)
with_owners ctx r (ok owners, w) = ((read_expansion ctx r owners >>= λ e. ok (expand_all e)), w)

module _ {World : Type 0} (db : Catalog World) (conn : Value) where
  abbrev pub resolve_owners : List String → World → Result (List String) × World
  resolve_owners owners w =
      if is_unset owners then current_owner (db.current_user conn w) else (ok owners, w)

  -- `expandTargets` from the owners on, if it comes that far.
  abbrev pub expand_request : ModuleContext → Result Request → World → Result (List Target) × World
  expand_request ctx (err e) w = (err e, w)
  expand_request ctx (ok r) w = with_owners ctx r (resolve_owners r.owners w)

  -- (m *defaultPrivilegesModule) expandTargets
  unfoldable pub expand_targets : ModuleContext → World → Result (List Target) × World
  unfolding read_request read_expansion expand_all
  expand_targets ctx w = expand_request ctx (read_request ctx) w
