-- ===== src/DefaultPrivileges/Catalog.antt =====
-- modules/postgres/default_privileges.go: the database, as a parameter of the model, and the query of
-- `defaultPrivilegeExists` on the tables of PostgreSQL's catalog that it reads.
use blackstart.Prelude.{
  leb, ℕ, String, Bool, true, false, not, ◌&&◌, ◌||◌, Option, none, some, List, [], ◌∷◌, ◌==◌,
}
use blackstart.Values.{Value}
use blackstart.Module.{Error, Result}

-- What `aclexplode` makes of `defaclacl`.
pub record AclItem : Type 0 where
  pub grantee : ℕ
  pub privilege_type : String
  pub is_grantable : Bool

-- A row of pg_default_acl; `none` is NULL.
pub record DefaultAcl : Type 0 where
  pub role : ℕ
  pub object_type : String
  pub namespace : Option ℕ
  pub acl : List AclItem

-- The tables: pg_default_acl, and the numbers in pg_roles and pg_namespace by name.
pub record Tables : Type 0 where
  pub default_acls : List DefaultAcl
  pub role_number : String → Option ℕ
  pub schema_number : String → Option ℕ

-- The parameters of the query.
pub record AclQuery : Type 0 where
  pub owner_role : String
  pub object_class : String
  pub schema_name : String
  pub grantee_oid : ℕ
  pub privilege : String
  pub require_grant_option : Bool

abbrev same_oid : ℕ → ℕ → Bool
same_oid m n = leb m n && leb n m

-- `=` of SQL, as the condition of a query: NULL is equal to nothing.
abbrev pub equal_numbers : Option ℕ → Option ℕ → Bool
equal_numbers (some m) (some n) = same_oid m n
equal_numbers _ _ = false

abbrev pub is_null : Option ℕ → Bool
is_null none = true
is_null (some n) = false

-- The argument of `bool_or`.
abbrev item_holds : AclQuery → AclItem → Bool
item_holds q item =
    same_oid item.grantee q.grantee_oid
    && (item.privilege_type == q.privilege)
    && (not q.require_grant_option || item.is_grantable)

unfoldable pub some_item_holds : AclQuery → List AclItem → Bool
some_item_holds q [] = false
some_item_holds q (item ∷ items) = item_holds q item || some_item_holds q items

-- The condition on the schema: none is given and the namespace is NULL, or it has that name.
abbrev pub in_schema : Tables → AclQuery → Option ℕ → Bool
in_schema tables q namespace =
    ((q.schema_name == "") && is_null namespace)
    || equal_numbers namespace (tables.schema_number q.schema_name)

-- The WHERE clause.
abbrev pub row_selected : Tables → AclQuery → DefaultAcl → Bool
row_selected tables q row =
    equal_numbers (some row.role) (tables.role_number q.owner_role)
    && (row.object_type == q.object_class)
    && in_schema tables q row.namespace

unfoldable pub some_row_holds : Tables → AclQuery → List DefaultAcl → Bool
unfolding some_item_holds
some_row_holds tables q [] = false
some_row_holds tables q (row ∷ rows) =
    (row_selected tables q row && some_item_holds q row.acl) || some_row_holds tables q rows

-- The answer to the query; `bool_or` of no row is NULL, which `COALESCE` makes false.
abbrev pub acl_holds : Tables → AclQuery → Bool
acl_holds tables q = some_row_holds tables q tables.default_acls

-- The database: `SELECT current_user`, the number of a role in pg_roles, the tables that the query
-- finds, and the execution of a statement.
pub record Catalog (World : Type 0) : Type 0 where
  pub current_user : Value → World → Result String × World
  pub role_oid : Value → String → World → Result ℕ × World
  pub tables : Value → World → Result Tables × World
  pub exec : Value → String → World → Option Error × World
