-- ===== src/DefaultPrivileges/NoSchema.antt =====
-- modules/postgres/default_privileges.go: the query of `defaultPrivilegeExists` for the privileges of
-- no schema.
use blackstart.Prelude.{
  ℕ, String, Bool, true, false, ◌&&◌, ◌||◌, Option, none, some, List, [], ◌∷◌, ◌==◌, All, ◌≡◌, refl,
  ap, ◌∙◌,
}
use blackstart.Text.{all_of}
use blackstart.Values.{Value}
use blackstart.Module.{ok, ModuleContext}
use blackstart.Sql.{setup_connection}
use blackstart.DefaultPrivileges.Catalog.{
  DefaultAcl, Tables, AclQuery, is_null, in_schema, equal_numbers, row_selected, some_item_holds,
  some_row_holds, acl_holds, Catalog,
}
use blackstart.DefaultPrivileges.Targets.{Target, expand_targets}
use blackstart.DefaultPrivileges.Methods.{acl_query, check_default_privileges}
use blackstart.DefaultPrivileges.Applied.{number_of, as_wanted, check_default_privileges-as_wanted}

-- As PostgreSQL keeps pg_default_acl: the namespace of an entry is never NULL.
abbrev pub HasNamespaces : Tables → Type 0
HasNamespaces tables = All (λ row. is_null row.namespace ≡ false) tables.default_acls

neither : (a b : Bool) → a ≡ false → b ≡ false → (a || b) ≡ false
neither true b h k = cc
neither false b h k = k

and_false : (a b : Bool) → b ≡ false → (a && b) ≡ false
and_false true b h = h
and_false false b h = refl

and_false_left : (a b : Bool) → a ≡ false → (a && b) ≡ false
and_false_left true b h = cc
and_false_left false b h = refl

in_schema-false :
    (tables : Tables) (q : AclQuery) (namespace : Option ℕ)
    → is_null namespace ≡ false
    → tables.schema_number q.schema_name ≡ none
    → in_schema tables q namespace ≡ false
in_schema-false tables q none given unknown = cc
in_schema-false tables q (some n) given unknown =
    rw unknown (neither _ false (and_false _ false refl) refl)

row_selected-false :
    (tables : Tables) (q : AclQuery) (row : DefaultAcl)
    → is_null row.namespace ≡ false
    → tables.schema_number q.schema_name ≡ none
    → row_selected tables q row ≡ false
row_selected-false tables q row given unknown =
    and_false
      (equal_numbers (some row.role) (tables.role_number q.owner_role)
        && (row.object_type == q.object_class))
      _ (in_schema-false tables q row.namespace given unknown)

some_row_holds-false :
    (tables : Tables) (q : AclQuery) (rows : List DefaultAcl)
    → All (λ row. is_null row.namespace ≡ false) rows
    → tables.schema_number q.schema_name ≡ none
    → some_row_holds tables q rows ≡ false
unfolding some_row_holds
some_row_holds-false tables q [] given unknown = refl
some_row_holds-false tables q (row ∷ rows) given unknown =
    neither _ _
      (and_false_left _ (some_item_holds q row.acl)
        (row_selected-false tables q row given.0 unknown))
      (some_row_holds-false tables q rows given.1 unknown)

as_wanted-false :
    (oid : String → ℕ) (tables : Tables) (t : Target) (p : String) (ps : List String)
    → HasNamespaces tables
    → tables.schema_number "" ≡ none
    → t.schema ≡ ""
    → t.check_permissions ≡ p ∷ ps
    → as_wanted oid (acl_holds tables) false t ≡ false
as_wanted-false oid tables t p ps given unnamed none_given asks =
    ap (all_of (λ r. acl_holds tables (acl_query t r (number_of oid t.grantee)))) asks
    ∙ and_false_left _ _ (
        some_row_holds-false tables (acl_query t p (number_of oid t.grantee)) tables.default_acls
          given (ap tables.schema_number none_given ∙ unnamed))

module _ {World : Type 0} (db : Catalog World) (conn : Value) (oid : String → ℕ) (tables : Tables)
    (has_oid : (g : String) (w : World) → db.role_oid conn g w ≡ (ok (oid g), w))
    (answers : (w : World) → db.tables conn w ≡ (ok tables, w)) where
  -- When there is a connection, the inputs expand to targets, every role has a number, and the tables
  -- can be read and do not change, have no namespace that is NULL and no schema with an empty name,
  -- then for privileges that must exist, of which the first target is for no schema and asks for a
  -- permission, `Check` answers no, whatever entries the tables have.
  pub check_default_privileges-no_schema :
      (ctx : ModuleContext) (t : Target) (ts : List Target) (p : String) (ps : List String)
      (w w' : World)
      → setup_connection ctx ≡ ok conn
      → expand_targets db conn ctx w ≡ (ok (t ∷ ts), w')
      → HasNamespaces tables
      → tables.schema_number "" ≡ none
      → ctx.dne ≡ false
      → t.schema ≡ ""
      → t.check_permissions ≡ p ∷ ps
      → check_default_privileges db ctx w ≡ (ok false, w')
  check_default_privileges-no_schema ctx t ts p ps w w' connected expanded given unnamed wanted
        none_given asks =
      check_default_privileges-as_wanted db conn oid tables has_oid answers ctx (t ∷ ts) w w'
        connected expanded
      ∙ ap (λ d. (ok (all_of (as_wanted oid (acl_holds tables) d) (t ∷ ts)), w')) wanted
      ∙ ap (λ b. (ok b, w'))
          (and_false_left _ _ (as_wanted-false oid tables t p ps given unnamed none_given asks))
