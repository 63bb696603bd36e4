-- ===== src/Mysql/Grant.antt =====
-- modules/mysql/grant.go: scopes, permissions and the record of a grant.
use blackstart.Prelude.{String, Bool, List, [], ◌∷◌, contains, ◌==◌, if◌then◌else◌}
use blackstart.Text.{to_upper, trim_space, join_fields}
use blackstart.Module.{Result, ok, err, invalid_scope, invalid_permission, empty_value}

pub data Scope : Type 0 where
  on_database on_table : Scope

-- grantDatabasePermissions and grantTablePermissions
abbrev pub grant_permissions : Scope → List String
grant_permissions on_database =
    "SELECT" ∷ "INSERT" ∷ "UPDATE" ∷ "DELETE" ∷ "CREATE" ∷ "DROP" ∷ "REFERENCES" ∷ "INDEX" ∷ "ALTER"
    ∷ "CREATE VIEW" ∷ "SHOW VIEW" ∷ "TRIGGER" ∷ "EVENT" ∷ "EXECUTE" ∷ "ALL" ∷ []
grant_permissions on_table =
    "SELECT" ∷ "INSERT" ∷ "UPDATE" ∷ "DELETE" ∷ "CREATE" ∷ "DROP" ∷ "REFERENCES" ∷ "INDEX" ∷ "ALTER"
    ∷ "CREATE VIEW" ∷ "SHOW VIEW" ∷ "TRIGGER" ∷ "ALL" ∷ []

-- type grant struct
pub record Grant : Type 0 where
  pub role : String
  pub permission : String
  pub schema : String
  pub resource : String
  pub scope : Scope
  pub all : Bool
  pub with_grant_option : Bool

-- stringToScope
unfoldable pub string_to_scope : String → Result Scope
string_to_scope input =
    let normalized = to_upper (trim_space input) in
    if normalized == ""
    then ok on_database
    else if normalized == "DATABASE"
    then ok on_database
    else if normalized == "TABLE"
    then ok on_table
    else err (invalid_scope input)

-- normalizeGrantPermission
unfoldable pub normalize_permission : Scope → String → Result String
normalize_permission sc permission =
    let normalized = to_upper (join_fields permission) in
    if normalized == ""
    then err (empty_value "permission")
    else if contains (grant_permissions sc) normalized
    then ok normalized
    else err (invalid_permission permission)
