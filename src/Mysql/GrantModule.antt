-- ===== src/Mysql/GrantModule.antt =====
-- modules/mysql/grant.go: `Check` and `Set` of the module `mysql_grant`.
use blackstart.Prelude.{String, Bool, true, false, List, [], ◌∷◌, if◌then◌else◌}
use blackstart.Values.{Value}
use blackstart.Module.{Result, ok, err, ModuleContext, query_error, module_error}
use blackstart.Sql.{
  Answer, yes, no, invalid_value, failed, Database, setup_connection, executed, given, with_targets,
}
use blackstart.Mysql.Grant.{Grant}
use blackstart.Mysql.Targets.{expand_grants}
use blackstart.Mysql.Statement.{Query, grant, revoke, render_change, get_grant_exists_queries}

-- What the inner loop of `Check` does with an answer. An error code of another database is an error.
abbrev pub answered :
    {World : Type 0} → Bool → Answer × World → (World → Result Bool × World) → Result Bool × World
answered dne (failed e, w) rest = (err (query_error e), w)
answered dne (invalid_value, w) rest = (err (query_error (module_error 0)), w)
answered true (yes, w) rest = (ok false, w)
answered true (no, w) rest = rest w
answered false (yes, w) rest = rest w
answered false (no, w) rest = (ok false, w)

-- What the outer loop does when the queries of a target have been answered as wanted, or not.
abbrev pub next_target :
    {World : Type 0} → Result Bool × World → (World → Result Bool × World) → Result Bool × World
next_target (err e, w) rest = (err e, w)
next_target (ok false, w) rest = (ok false, w)
next_target (ok true, w) rest = rest w

abbrev pub statement_for : Bool → Grant → Result String
statement_for dne g = if dne then render_change revoke g else render_change grant g

-- A statement that cannot be made ends the loop of `Set`.
abbrev pub with_text :
    {World : Type 0} → Result String → World → (String → Result Unit × World) → Result Unit × World
with_text (err e) w run = (err e, w)
with_text (ok statement) w run = run statement

module _ {World : Type 0} (db : Database Query World) where
  -- The loop of `Check` over the queries of one target; the answer is whether all are as wanted.
  unfoldable pub ask_all : Bool → Value → List (Query × List String) → World → Result Bool × World
  ask_all dne conn [] w = (ok true, w)
  ask_all dne conn ((q, params) ∷ qs) w =
      answered dne (db.query conn q params w) (λ w'. ask_all dne conn qs w')

  -- The loop of `Check` over the targets.
  unfoldable pub check_targets : Bool → Value → List Grant → World → Result Bool × World
  unfolding ask_all
  check_targets dne conn [] w = (ok true, w)
  check_targets dne conn (g ∷ gs) w =
      next_target (given (get_grant_exists_queries g) w (λ qs. ask_all dne conn qs w))
        (λ w'. check_targets dne conn gs w')

  -- The loop of `Set` over the targets.
  unfoldable pub set_targets : Bool → Value → List Grant → World → Result Unit × World
  set_targets dne conn [] w = (ok tt, w)
  set_targets dne conn (g ∷ gs) w =
      with_text (statement_for dne g) w
        (λ statement. executed (db.exec conn statement w) (λ w'. set_targets dne conn gs w'))

  -- (g *grantModule) Check
  unfoldable pub check_grant : ModuleContext → World → Result Bool × World
  unfolding check_targets
  check_grant ctx w =
      with_targets (setup_connection ctx) (expand_grants ctx) w
        (λ conn gs. check_targets ctx.dne conn gs w)

  -- (g *grantModule) Set
  unfoldable pub set_grant : ModuleContext → World → Result Unit × World
  unfolding set_targets
  set_grant ctx w =
      with_targets (setup_connection ctx) (expand_grants ctx) w
        (λ conn gs. set_targets ctx.dne conn gs w)
