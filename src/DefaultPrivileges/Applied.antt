-- ===== src/DefaultPrivileges/Applied.antt =====
-- modules/postgres/default_privileges.go: what `Set` executes, and what `Check` answers.
use Prim.Native.String.{◌++◌ as ◌append◌}
use blackstart.Prelude.{
  subst, sym, ℕ, String, Bool, true, false, not, ◌&&◌, List, [], ◌∷◌, map, ◌==◌, ◌≡◌, refl, ap, ◌∙◌,
  if◌then◌else◌, if_true, if_false,
}
use blackstart.Text.{all_of, trim_space, equal_fold}
use blackstart.Values.{Value}
use blackstart.Module.{Error, Result, ok, err, ModuleContext, query_error}
use blackstart.Sql.{setup_connection, Runs, finished, executed-Runs}
use blackstart.DefaultPrivileges.Scope.{is_public, quote_role_or_public, sql_object_name}
use blackstart.DefaultPrivileges.Catalog.{AclQuery, Tables, acl_holds, Catalog}
use blackstart.DefaultPrivileges.Targets.{Target, expand_targets}
use blackstart.DefaultPrivileges.Statement.{build_statement, grant_statement, revoke_statement}
use blackstart.DefaultPrivileges.Methods.{
  asked, acl_query, compared, with_connection, with_expanded, next_target, with_oid, grantee_oid,
  privilege_exists, check_permissions, check_targets, check_default_privileges, set_targets,
  set_default_privileges,
}

-- The statement that a target needs.
abbrev pub wanted_statement : Bool → Target → String
wanted_statement dne t =
    ("ALTER DEFAULT PRIVILEGES FOR ROLE \""
      append (t.owner_role
          append ("\""
              append (if t.schema == ""
                  then ""
                  else " IN SCHEMA \"" append (t.schema append "\"")))))
    append ((if dne then " REVOKE " else " GRANT ")
        append ((if t.permission == "ALL" then "ALL PRIVILEGES" else t.permission)
            append (" ON "
                append (sql_object_name t.scope
                    append ((if dne then " FROM " else " TO ")
                        append (quote_role_or_public t.grantee
                            append (if dne
                                then " " append (t.revoke_mode append ";")
                                else (if t.with_grant_option then " WITH GRANT OPTION" else "")
                                  append ";")))))))

build_statement-wanted : (dne : Bool) (t : Target) → build_statement t dne ≡ wanted_statement dne t
unfolding build_statement
build_statement-wanted true t = refl
build_statement-wanted false t = refl

module _ {World : Type 0} (db : Catalog World) (conn : Value) where
  set_targets-Runs :
      (dne : Bool) (ts : List Target) (w : World)
      → Runs (db.exec conn) (map (wanted_statement dne) ts) w (set_targets db dne conn ts w)
  unfolding set_targets
  set_targets-Runs dne [] w = finished w
  set_targets-Runs dne (t ∷ ts) w = rw (build_statement-wanted dne t) (
      executed-Runs (db.exec conn) (wanted_statement dne t) (map (wanted_statement dne) ts) w _
        (set_targets db dne conn ts) refl (set_targets-Runs dne ts))

  -- When there is a connection and the inputs expand to a list of targets, `Set` runs one statement
  -- for each of them, in their order: GRANT ... TO, with the grant option where it is wanted, or
  -- REVOKE ... FROM with the revoke mode where the privileges must not exist. It runs all of them
  -- without an error, or up to the first that fails, with its error and without running another.
  pub set_default_privileges-Runs :
      (ctx : ModuleContext) (ts : List Target) (w w' : World)
      → setup_connection ctx ≡ ok conn
      → expand_targets db conn ctx w ≡ (ok ts, w')
      → Runs (db.exec conn) (map (wanted_statement ctx.dne) ts) w' (set_default_privileges db ctx w)
  unfolding set_default_privileges
  set_default_privileges-Runs ctx ts w w' connected expanded =
      subst (Runs (db.exec conn) (map (wanted_statement ctx.dne) ts) w')
        (sym (
          ap (λ c. with_connection c w run) connected
          ∙ ap (λ r. with_expanded r (set_targets db ctx.dne conn)) expanded))
        (set_targets-Runs ctx.dne ts w')
    where
      run : Value → Result Unit × World
      run c = with_expanded (expand_targets db c ctx w) (set_targets db ctx.dne c)

-- The number of a grantee, by the numbers of the roles.
abbrev pub number_of : (String → ℕ) → String → ℕ
number_of oid grantee = if grantee == "PUBLIC" then 0 else oid grantee

module _ (oid : String → ℕ) (holds : AclQuery → Bool) (dne : Bool) where
  -- The query answers yes to every permission that is asked for the target, or no where the
  -- privileges must not exist.
  abbrev pub as_wanted : Target → Bool
  as_wanted t =
      all_of
        (λ p.
          let found = holds (acl_query t p (number_of oid t.grantee)) in
          if dne then not found else found)
        t.check_permissions

module _ {World : Type 0} (db : Catalog World) (conn : Value) (oid : String → ℕ) (tables : Tables)
    (has_oid : (g : String) (w : World) → db.role_oid conn g w ≡ (ok (oid g), w))
    (answers : (w : World) → db.tables conn w ≡ (ok tables, w)) where
  abbrev holds : AclQuery → Bool
  holds = acl_holds tables

  grantee_oid-eq : (g : String) (w : World) → grantee_oid db conn g w ≡ (ok (number_of oid g), w)
  grantee_oid-eq g w = go (g == "PUBLIC")
    where
      go :
          (b : Bool)
          → ◌≡◌ {A = Result ℕ × World}
              (if b then (ok 0, w) else db.role_oid conn g w)
              (ok (if b then 0 else oid g), w)
      go true = refl
      go false = has_oid g w

  privilege_exists-eq :
      (t : Target) (p : String) (w : World)
      → privilege_exists db conn t p w ≡ (ok (holds (acl_query t p (number_of oid t.grantee))), w)
  unfolding privilege_exists
  privilege_exists-eq t p w =
      ap (λ r. with_oid r (λ n w'. asked (acl_query t p n) (db.tables conn w')))
        (grantee_oid-eq t.grantee w)
      ∙ rw (answers w) refl

  compared-eq :
      (dne found : Bool) (w : World) (rest : World → Result Bool × World) (b : Bool)
      → rest w ≡ (ok b, w)
      → compared dne (ok found, w) rest ≡ (ok ((if dne then not found else found) && b), w)
  compared-eq true true w rest b h = refl
  compared-eq true false w rest b h = h
  compared-eq false true w rest b h = h
  compared-eq false false w rest b h = refl

  check_permissions-eq :
      (dne : Bool) (t : Target) (ps : List String) (w : World)
      → check_permissions db dne conn t ps w ≡ (
        ok (
            all_of
              (λ p.
                let found = holds (acl_query t p (number_of oid t.grantee)) in
                if dne then not found else found)
              ps),
        w,
      )
  unfolding check_permissions
  check_permissions-eq dne t [] w = refl
  check_permissions-eq dne t (p ∷ ps) w =
      ap (λ r. compared dne r (check_permissions db dne conn t ps)) (privilege_exists-eq t p w)
      ∙ compared-eq dne _ w (check_permissions db dne conn t ps) _ (check_permissions-eq dne t ps w)

  next_target-eq :
      (found : Bool) (w : World) (rest : World → Result Bool × World) (b : Bool)
      → rest w ≡ (ok b, w)
      → next_target (ok found, w) rest ≡ (ok (found && b), w)
  next_target-eq true w rest b h = h
  next_target-eq false w rest b h = refl

  check_targets-eq :
      (dne : Bool) (ts : List Target) (w : World)
      → check_targets db dne conn ts w ≡ (ok (all_of (as_wanted oid holds dne) ts), w)
  unfolding check_targets
  check_targets-eq dne [] w = refl
  check_targets-eq dne (t ∷ ts) w =
      ap (λ r. next_target r (check_targets db dne conn ts))
        (check_permissions-eq dne t t.check_permissions w)
      ∙ next_target-eq (as_wanted oid holds dne t) w (check_targets db dne conn ts) _
          (check_targets-eq dne ts w)

  -- When there is a connection, the inputs expand to a list of targets, every role has a number, and
  -- the tables can be read and do not change, `Check` answers, and answers yes exactly if the query
  -- on the tables answers yes to every concrete permission of every target (no, where the privileges
  -- must not exist).
  pub check_default_privileges-as_wanted :
      (ctx : ModuleContext) (ts : List Target) (w w' : World)
      → setup_connection ctx ≡ ok conn
      → expand_targets db conn ctx w ≡ (ok ts, w')
      → check_default_privileges db ctx w
        ≡ (ok (all_of (as_wanted oid (acl_holds tables) ctx.dne) ts), w')
  unfolding check_default_privileges
  check_default_privileges-as_wanted ctx ts w w' connected expanded =
      ap (λ c. with_connection c w run) connected
      ∙ ap (λ r. with_expanded r (check_targets db ctx.dne conn)) expanded
      ∙ check_targets-eq ctx.dne ts w'
    where
      run : Value → Result Bool × World
      run c = with_expanded (expand_targets db c ctx w) (check_targets db ctx.dne c)

module _ {World : Type 0} (db : Catalog World) (conn : Value) where
  public_statement :
      (dne : Bool) (t : Target)
      → is_public t.grantee ≡ true
      → build_statement t dne ≡ build_statement (record t { grantee = "PUBLIC" }) dne
  unfolding build_statement quote_role_or_public equal_fold trim_space
  public_statement true t h = ap (revoke_statement t) (if_true (λ (u : String). u) _ _ h)
  public_statement false t h = ap (grant_statement t) (if_true (λ (u : String). u) _ _ h)

  fails :
      (dne : Bool) (e : Error) (w : World) (f g : World → Result Bool × World)
      → next_target (compared dne (err e, w) f) g ≡ (err e, w)
  fails true e w f g = refl
  fails false e w f g = refl

  -- A grantee that is PUBLIC in another spelling, such as `public`: the statement of `Set` is the one
  -- for PUBLIC, but when there is no role of that name, `Check` fails at this target with the error of
  -- the database, if it has something to ask about the target.
  pub check_targets-spelling :
      (dne : Bool) (t : Target) (p : String) (ps : List String) (ts : List Target) (e : Error)
      (w w' : World)
      → is_public t.grantee ≡ true
      → (t.grantee == "PUBLIC") ≡ false
      → t.check_permissions ≡ p ∷ ps
      → db.role_oid conn t.grantee w ≡ (err e, w')
      → (build_statement t dne ≡ build_statement (record t { grantee = "PUBLIC" }) dne)
        × (check_targets db dne conn (t ∷ ts) w ≡ (err (query_error e), w'))
  unfolding build_statement quote_role_or_public check_targets check_permissions privilege_exists
  check_targets-spelling dne t p ps ts e w w' public other asks missing = (
    public_statement dne t public,
    ap (λ qs. next_target (check_permissions db dne conn t qs w) (check_targets db dne conn ts))
          asks
        ∙ ap
            (λ r.
              next_target
                (compared dne
                  (with_oid r (λ oid w''. asked (acl_query t p oid) (db.tables conn w'')))
                  (check_permissions db dne conn t ps))
                (check_targets db dne conn ts))
            (if_false (λ (u : Result ℕ × World). u) _ _ other ∙ missing)
        ∙ fails dne (query_error e) w' (check_permissions db dne conn t ps)
            (check_targets db dne conn ts),
  )
