-- ===== src/DefaultPrivileges/Scope.antt =====
-- modules/postgres/default_privileges.go: the object classes, their permissions, and the validation
-- of single values.
use Prim.Native.String.{◌++◌ as ◌append◌}
use blackstart.Prelude.{
  String, Bool, true, false, Option, none, some, List, [], ◌∷◌, contains, ◌==◌, if◌then◌else◌,
}
use blackstart.Text.{to_upper, trim_space, contains_char, replace_char, rune, equal_fold}
use blackstart.Module.{Error, Result, ok, err, invalid_scope, invalid_permission, not_supported}
use blackstart.Postgres.Identifier.{validate_quoted_identifier}

-- type defaultPrivilegeScope
pub data Scope : Type 0 where
  tables sequences functions routines types schemas large_objects : Scope

-- defaultPrivilegeScopeSpecs, field by field
abbrev pub acl_object_type : Scope → String
acl_object_type tables = "r"
acl_object_type sequences = "S"
acl_object_type functions = "f"
acl_object_type routines = "f"
acl_object_type types = "T"
acl_object_type schemas = "n"
acl_object_type large_objects = "L"

abbrev pub sql_object_name : Scope → String
sql_object_name tables = "TABLES"
sql_object_name sequences = "SEQUENCES"
sql_object_name functions = "FUNCTIONS"
sql_object_name routines = "ROUTINES"
sql_object_name types = "TYPES"
sql_object_name schemas = "SCHEMAS"
sql_object_name large_objects = "LARGE OBJECTS"

abbrev pub permissions_of : Scope → List String
permissions_of tables =
    "SELECT" ∷ "INSERT" ∷ "UPDATE" ∷ "DELETE" ∷ "TRUNCATE" ∷ "REFERENCES" ∷ "TRIGGER" ∷ "MAINTAIN"
    ∷ "ALL" ∷ []
permissions_of sequences = "USAGE" ∷ "SELECT" ∷ "UPDATE" ∷ "ALL" ∷ []
permissions_of functions = "EXECUTE" ∷ "ALL" ∷ []
permissions_of routines = "EXECUTE" ∷ "ALL" ∷ []
permissions_of types = "USAGE" ∷ "ALL" ∷ []
permissions_of schemas = "USAGE" ∷ "CREATE" ∷ "ALL" ∷ []
permissions_of large_objects = "SELECT" ∷ "UPDATE" ∷ "ALL" ∷ []

abbrev pub schema_supported : Scope → Bool
schema_supported schemas = false
schema_supported large_objects = false
schema_supported _ = true

-- The plurals that `parseDefaultPrivilegeScope` replaces, and the scopes by their names.
abbrev plurals : List (String × String)
plurals =
    ("TABLES", "TABLE")
    ∷ ("SEQUENCES", "SEQUENCE")
    ∷ ("FUNCTIONS", "FUNCTION")
    ∷ ("ROUTINES", "ROUTINE")
    ∷ ("TYPES", "TYPE")
    ∷ ("SCHEMAS", "SCHEMA")
    ∷ ("LARGE_OBJECTS", "LARGE_OBJECT")
    ∷ []

abbrev scope_names : List (String × Scope)
scope_names =
    ("TABLE", tables)
    ∷ ("SEQUENCE", sequences)
    ∷ ("FUNCTION", functions)
    ∷ ("ROUTINE", routines)
    ∷ ("TYPE", types)
    ∷ ("SCHEMA", schemas)
    ∷ ("LARGE_OBJECT", large_objects)
    ∷ []

abbrev singular : List (String × String) → String → String
singular [] name = name
singular ((many, one) ∷ rest) name = if name == many then one else singular rest name

abbrev scope_named : String → List (String × Scope) → String → Result Scope
scope_named value [] name = err (invalid_scope value)
scope_named value ((n, sc) ∷ rest) name = if name == n then ok sc else scope_named value rest name

-- parseDefaultPrivilegeScope
unfoldable pub parse_scope : String → Result Scope
parse_scope value =
    scope_named value scope_names
      (singular plurals (replace_char 32 (rune 95) (to_upper (trim_space value))))

-- normalizeRevokeMode
unfoldable pub normalize_revoke_mode : String → Result String
normalize_revoke_mode value =
    let behavior = to_upper (trim_space value) in
    if behavior == ""
    then ok "RESTRICT"
    else if behavior == "RESTRICT"
    then ok behavior
    else if behavior == "CASCADE"
    then ok behavior
    else err (not_supported "revoke_mode")

-- normalizeDefaultPrivilegePermissionToken
unfoldable pub permission_token : String → String
permission_token permission =
    let perm = to_upper (trim_space permission) in if perm == "ALL PRIVILEGES" then "ALL" else perm

-- validateDefaultPrivilegePermission
unfoldable pub validate_permission : Scope → String → Option Error
validate_permission sc permission =
    let perm = permission_token permission in
    if contains_char 44 perm
    then some (invalid_permission permission)
    else if contains (permissions_of sc) perm
    then none
    else some (invalid_permission permission)

-- The loop of `expandDefaultPrivilegeCheckPermissions`.
unfoldable pub without_all : List String → List String
without_all [] = []
without_all (p ∷ ps) = let rest = without_all ps in if p == "ALL" then rest else p ∷ rest

-- expandDefaultPrivilegeCheckPermissions
unfoldable pub expand_check_permissions : Scope → String → List String
unfolding without_all
expand_check_permissions sc permission =
    if permission_token permission == "ALL"
    then without_all (permissions_of sc)
    else permission_token permission ∷ []

abbrev pub is_public : String → Bool
is_public role = equal_fold (trim_space role) "PUBLIC"

-- validateDefaultPrivilegeGrantee
unfoldable pub validate_grantee : String → Option Error
validate_grantee role = if is_public role then none else validate_quoted_identifier role

-- quoteRoleOrPublic
unfoldable pub quote_role_or_public : String → String
quote_role_or_public role = if is_public role then "PUBLIC" else "\"" append (role append "\"")
