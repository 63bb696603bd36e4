-- ===== src/Postgres/GrantModule.antt =====
-- modules/postgres/grant.go: the module `postgres_grant`: `Check` and `Set`. The database
-- is a parameter: what it answers to a query, and what it does with a statement.
use blackstart.Prelude.{String, Bool, true, false, List, [], ◌∷◌, if◌then◌else◌}
use blackstart.Values.{Value}
use blackstart.Module.{Result, ok, err, ModuleContext, query_error}
use blackstart.Sql.{
  Answer, yes, no, invalid_value, failed, Database, setup_connection, executed, given, with_targets,
}
use blackstart.Postgres.Grant.{Grant}
use blackstart.Postgres.Targets.{expand_grants}
use blackstart.Postgres.Statement.{get_grant_set_query, get_grant_revoke_query}
use blackstart.Postgres.QueryText.{Query}
use blackstart.Postgres.ExistsQuery.{get_grant_exists_queries}

-- What the loop of `Check` over queries does with an answer.
abbrev pub asked :
    {World : Type 0} → Answer × World → (World → Result Bool × World) → Result Bool × World
asked (yes, w) rest = rest w
asked (invalid_value, w) rest = rest w
asked (no, w) rest = (ok false, w)
asked (failed e, w) rest = (err (query_error e), w)

-- What the loop of `Check` over targets does with `exists`; `dne` is `ctx.DoesNotExist()`.
abbrev pub checked :
    {World : Type 0}
    → Bool
    → Result Bool × World
    → (World → Result Bool × World)
    → Result Bool × World
checked dne (err e, w) rest = (err e, w)
checked true (ok true, w) rest = (ok false, w)
checked true (ok false, w) rest = rest w
checked false (ok true, w) rest = rest w
checked false (ok false, w) rest = (ok false, w)

-- The statement that `Set` executes for a target.
abbrev pub statement_for : Bool → Grant → Result String
statement_for dne g = if dne then get_grant_revoke_query g else get_grant_set_query g

module _ {World : Type 0} (db : Database Query World) where
  -- The loop of `Check` over the queries of one target; the answer is `exists`.
  unfoldable pub ask_all : Value → List (Query × List String) → World → Result Bool × World
  ask_all conn [] w = (ok true, w)
  ask_all conn ((q, params) ∷ qs) w = asked (db.query conn q params w) (λ w'. ask_all conn qs w')

  -- The loop of `Check` over the targets.
  unfoldable pub check_targets : Bool → Value → List Grant → World → Result Bool × World
  unfolding ask_all
  check_targets dne conn [] w = (ok true, w)
  check_targets dne conn (g ∷ gs) w =
      checked dne (given (get_grant_exists_queries g) w (λ qs. ask_all conn qs w))
        (λ w'. check_targets dne conn gs w')

  -- The loop of `Set` over the targets.
  unfoldable pub set_targets : Bool → Value → List Grant → World → Result Unit × World
  set_targets dne conn [] w = (ok tt, w)
  set_targets dne conn (g ∷ gs) w =
      given (statement_for dne g) w
        (λ statement. executed (db.exec conn statement w) (λ w'. set_targets dne conn gs w'))

  -- (g *grantModule) Check
  unfoldable pub check_grant : ModuleContext → World → Result Bool × World
  unfolding check_targets
  check_grant ctx w =
      with_targets (setup_connection ctx) (expand_grants ctx) w
        (λ conn gs. check_targets ctx.dne conn gs w)

  -- (g *grantModule) Set
  unfoldable pub set_grant : ModuleContext → World → Result Unit × World
  unfolding set_targets
  set_grant ctx w =
      with_targets (setup_connection ctx) (expand_grants ctx) w
        (λ conn gs. set_targets ctx.dne conn gs w)
