-- ===== src/Postgres/Grant.antt =====
-- modules/postgres/grant.go: scopes, permissions and the record of a grant.
use blackstart.Prelude.{
  ℕ, String, Bool, true, false, not, Option, none, some, List, [], ◌∷◌, contains, ◌==◌,
  if◌then◌else◌,
}
use Prim.Native.String
use blackstart.Text.{◌=ℕ◌, to_upper, trim_space, contains_char, parse_uint32}
use blackstart.Module.{
  Error, Result, ok, err, invalid_scope, invalid_role, invalid_permission, invalid_large_object,
}
use blackstart.Postgres.Identifier.{validate_quoted_identifier}

pub data Scope : Type 0 where
  on_instance on_schema on_table on_sequence on_function on_procedure on_routine : Scope
  on_database on_domain on_fdw on_foreign_server on_language on_large_object : Scope
  on_parameter on_tablespace on_type : Scope

abbrev pub scope_name : Scope → String
scope_name on_instance = "INSTANCE"
scope_name on_schema = "SCHEMA"
scope_name on_table = "TABLE"
scope_name on_sequence = "SEQUENCE"
scope_name on_function = "FUNCTION"
scope_name on_procedure = "PROCEDURE"
scope_name on_routine = "ROUTINE"
scope_name on_database = "DATABASE"
scope_name on_domain = "DOMAIN"
scope_name on_fdw = "FDW"
scope_name on_foreign_server = "FOREIGN_SERVER"
scope_name on_language = "LANGUAGE"
scope_name on_large_object = "LARGE_OBJECT"
scope_name on_parameter = "PARAMETER"
scope_name on_tablespace = "TABLESPACE"
scope_name on_type = "TYPE"

abbrev pub scopes_list : List Scope
scopes_list =
    on_instance ∷ on_schema ∷ on_table ∷ on_sequence ∷ on_function ∷ on_procedure ∷ on_routine
    ∷ on_database ∷ on_domain ∷ on_fdw ∷ on_foreign_server ∷ on_language ∷ on_large_object
    ∷ on_parameter ∷ on_tablespace ∷ on_type ∷ []

unfoldable pub find_scope : String → List Scope → Result Scope
find_scope s [] = err (invalid_scope s)
find_scope s (sc ∷ rest) = if s == scope_name sc then ok sc else find_scope s rest

-- stringToScope
unfoldable pub string_to_scope : String → Result Scope
unfolding find_scope
string_to_scope s = find_scope (to_upper s) scopes_list

-- The lists `grant…Permissions`, by scope; the permission at INSTANCE is the name of a role.
abbrev pub grant_permissions : Scope → List String
grant_permissions on_instance = []
grant_permissions on_schema = "CREATE" ∷ "USAGE" ∷ "ALL" ∷ []
grant_permissions on_table =
    "SELECT" ∷ "INSERT" ∷ "UPDATE" ∷ "DELETE" ∷ "TRUNCATE" ∷ "REFERENCES" ∷ "TRIGGER" ∷ "MAINTAIN"
    ∷ "ALL" ∷ []
grant_permissions on_sequence = "USAGE" ∷ "SELECT" ∷ "UPDATE" ∷ "ALL" ∷ []
grant_permissions on_function = "EXECUTE" ∷ "ALL" ∷ []
grant_permissions on_procedure = "EXECUTE" ∷ "ALL" ∷ []
grant_permissions on_routine = "EXECUTE" ∷ "ALL" ∷ []
grant_permissions on_database = "CREATE" ∷ "CONNECT" ∷ "TEMPORARY" ∷ "TEMP" ∷ "ALL" ∷ []
grant_permissions on_domain = "USAGE" ∷ "ALL" ∷ []
grant_permissions on_fdw = "USAGE" ∷ "ALL" ∷ []
grant_permissions on_foreign_server = "USAGE" ∷ "ALL" ∷ []
grant_permissions on_language = "USAGE" ∷ "ALL" ∷ []
grant_permissions on_large_object = "SELECT" ∷ "UPDATE" ∷ "ALL" ∷ []
grant_permissions on_parameter = "SET" ∷ "ALTER SYSTEM" ∷ "ALL" ∷ []
grant_permissions on_tablespace = "CREATE" ∷ "ALL" ∷ []
grant_permissions on_type = "USAGE" ∷ "ALL" ∷ []

-- type grant struct
pub record Grant : Type 0 where
  pub role : String
  pub permission : String
  pub schema : String
  pub resource : String
  pub scope : String
  pub all : Bool
  pub with_grant_option : Bool

abbrev pub is_instance : Scope → Bool
is_instance on_instance = true
is_instance _ = false

abbrev pub is_large_object : Scope → Bool
is_large_object on_large_object = true
is_large_object _ = false

-- supportsWithGrantOption
unfoldable pub supports_with_grant_option : Scope → Bool
supports_with_grant_option sc = not (is_instance sc)

-- The scopes at which `all` is admitted.
unfoldable pub supports_all : Scope → Bool
supports_all on_table = true
supports_all on_sequence = true
supports_all on_function = true
supports_all on_procedure = true
supports_all on_routine = true
supports_all _ = false

-- normalizeGrantPermissionToken
unfoldable pub normalize_permission : Scope → String → String
normalize_permission sc permission =
    let trimmed = trim_space permission in
    let perm = to_upper trimmed in
    if is_instance sc then trimmed else if perm == "ALL PRIVILEGES" then "ALL" else perm

-- validateGrantRole
unfoldable pub validate_role : String → Option Error
validate_role name = elim (validate_quoted_identifier name) [
  | none ↦ none
  | some e ↦ some (invalid_role name e)
]

-- The switch of `validateGrantPermission`, on the normalized permission.
unfoldable pub validate_token : Scope → String → Option Error
validate_token on_instance perm = elim (validate_quoted_identifier perm) [
  | none ↦ none
  | some e ↦ some (invalid_permission perm)
]
validate_token sc perm =
    if contains (grant_permissions sc) perm then none else some (invalid_permission perm)

-- validateGrantPermission
unfoldable pub validate_permission : Scope → String → Option Error
unfolding validate_token
validate_permission sc permission =
    if contains_char 44 permission
    then some (invalid_permission permission)
    else validate_token sc (normalize_permission sc permission)

-- validateGrantPrincipalAndPermission
unfoldable pub validate_principal : Scope → String → String → Option Error
unfolding validate_role validate_permission
validate_principal sc name permission = elim (validate_role name) [
  | some e ↦ some e
  | none ↦ validate_permission sc permission
]

abbrev pub validate_loid : Option ℕ → Option Error
validate_loid none = some invalid_large_object
validate_loid (some n) = if n =ℕ 0 then some invalid_large_object else none

-- validateGrantResource
unfoldable pub validate_resource : Scope → String → Option Error
validate_resource sc resource =
    if trim_space resource == ""
    then none
    else if is_large_object sc
    then validate_loid (parse_uint32 resource)
    else validate_quoted_identifier resource

-- checkPermissionToken
unfoldable pub check_permission_token : String → Bool → String
check_permission_token permission true = Prim.Native.String.◌++◌ permission " WITH GRANT OPTION"
check_permission_token permission false = permission
