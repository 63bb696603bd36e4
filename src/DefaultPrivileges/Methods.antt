-- ===== src/DefaultPrivileges/Methods.antt =====
-- modules/postgres/default_privileges.go: `Check` and `Set` of the module.
use blackstart.Prelude.{ℕ, String, Bool, true, false, List, [], ◌∷◌, ◌==◌, if◌then◌else◌}
use blackstart.Values.{Value}
use blackstart.Module.{Result, ok, err, ModuleContext, query_error, invalid_parameter}
use blackstart.Sql.{setup_connection, executed}
use blackstart.DefaultPrivileges.Scope.{acl_object_type}
use blackstart.DefaultPrivileges.Catalog.{AclQuery, Tables, some_row_holds, acl_holds, Catalog}
use blackstart.DefaultPrivileges.Targets.{Target, expand_targets}
use blackstart.DefaultPrivileges.Statement.{build_statement}

abbrev pub acl_query : Target → String → ℕ → AclQuery
acl_query t permission oid = record {
  owner_role = t.owner_role;
  object_class = acl_object_type t.scope;
  schema_name = t.schema;
  grantee_oid = oid;
  privilege = permission;
  require_grant_option = t.with_grant_option;
}

-- The query of `defaultPrivilegeExists`.
abbrev pub asked : {World : Type 0} → AclQuery → Result Tables × World → Result Bool × World
asked q (err e, w) = (err (query_error e), w)
asked q (ok tables, w) = (ok (acl_holds tables q), w)

-- What `defaultPrivilegeExists` does once it has the number of the grantee, or not.
abbrev pub with_oid :
    {World : Type 0} → Result ℕ × World → (ℕ → World → Result Bool × World) → Result Bool × World
with_oid (err e, w) ask = (err (query_error e), w)
with_oid (ok oid, w) ask = ask oid w

-- What the inner loop of `Check` does with an answer.
abbrev pub compared :
    {World : Type 0}
    → Bool
    → Result Bool × World
    → (World → Result Bool × World)
    → Result Bool × World
compared dne (err e, w) rest = (err e, w)
compared true (ok true, w) rest = (ok false, w)
compared true (ok false, w) rest = rest w
compared false (ok true, w) rest = rest w
compared false (ok false, w) rest = (ok false, w)

-- What the outer loop does when the permissions of a target are as wanted, or not.
abbrev pub next_target :
    {World : Type 0} → Result Bool × World → (World → Result Bool × World) → Result Bool × World
next_target (err e, w) rest = (err e, w)
next_target (ok false, w) rest = (ok false, w)
next_target (ok true, w) rest = rest w

abbrev pub with_expanded :
    {A World : Type 0}
    → Result (List Target) × World
    → (List Target → World → Result A × World)
    → Result A × World
with_expanded (err e, w) run = (err e, w)
with_expanded (ok ts, w) run = run ts w

-- The method `setup`, with which `Check` and `Set` begin.
abbrev pub with_connection :
    {A World : Type 0} → Result Value → World → (Value → Result A × World) → Result A × World
with_connection (err e) w run = (err (invalid_parameter "connection" e), w)
with_connection (ok conn) w run = run conn

module _ {World : Type 0} (db : Catalog World) where
  abbrev pub grantee_oid : Value → String → World → Result ℕ × World
  grantee_oid conn grantee w = if grantee == "PUBLIC" then (ok 0, w) else db.role_oid conn grantee w

  -- defaultPrivilegeExists, with the arguments that `Check` gives it
  unfoldable pub privilege_exists : Value → Target → String → World → Result Bool × World
  unfolding some_row_holds
  privilege_exists conn t permission w =
      with_oid (grantee_oid conn t.grantee w)
        (λ oid w'. asked (acl_query t permission oid) (db.tables conn w'))

  -- The loop of `Check` over the permissions of one target.
  unfoldable pub check_permissions :
      Bool → Value → Target → List String → World → Result Bool × World
  unfolding privilege_exists
  check_permissions dne conn t [] w = (ok true, w)
  check_permissions dne conn t (p ∷ ps) w =
      compared dne (privilege_exists conn t p w) (λ w'. check_permissions dne conn t ps w')

  -- The loop of `Check` over the targets.
  unfoldable pub check_targets : Bool → Value → List Target → World → Result Bool × World
  unfolding check_permissions
  check_targets dne conn [] w = (ok true, w)
  check_targets dne conn (t ∷ ts) w =
      next_target (check_permissions dne conn t t.check_permissions w)
        (λ w'. check_targets dne conn ts w')

  -- The loop of `Set`.
  unfoldable pub set_targets : Bool → Value → List Target → World → Result Unit × World
  set_targets dne conn [] w = (ok tt, w)
  set_targets dne conn (t ∷ ts) w =
      executed (db.exec conn (build_statement t dne) w) (λ w'. set_targets dne conn ts w')

  -- `setup`, then `expandTargets`
  abbrev pub expanded :
      {A : Type 0}
      → ModuleContext
      → World
      → (Value → List Target → World → Result A × World)
      → Result A × World
  expanded ctx w run =
      with_connection (setup_connection ctx) w
        (λ conn. with_expanded (expand_targets db conn ctx w) (run conn))

  -- (m *defaultPrivilegesModule) Check
  unfoldable pub check_default_privileges : ModuleContext → World → Result Bool × World
  unfolding check_targets
  check_default_privileges ctx w = expanded ctx w (λ conn ts w'. check_targets ctx.dne conn ts w')

  -- (m *defaultPrivilegesModule) Set
  unfoldable pub set_default_privileges : ModuleContext → World → Result Unit × World
  unfolding set_targets
  set_default_privileges ctx w = expanded ctx w (λ conn ts w'. set_targets ctx.dne conn ts w')
