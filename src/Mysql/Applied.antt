-- ===== src/Mysql/Applied.antt =====
-- modules/mysql/grant.go: what `Set` executes, and when `Check` answers yes.
use blackstart.Prelude.{
  String, Bool, true, false, not, ◌&&◌, Option, none, some, List, [], ◌∷◌, if◌then◌else◌, All, ◌≡◌,
  refl,
}
use blackstart.Text.{all_of}
use blackstart.Values.{Value}
use blackstart.Module.{Error, Result, ok, err, ModuleContext, query_error}
use blackstart.Sql.{Answer, yes, no, Database, setup_connection, executed}
use blackstart.Mysql.Account.{Account, parse_account}
use blackstart.Mysql.Grant.{Grant}
use blackstart.Mysql.Targets.{expand_grants}
use blackstart.Mysql.Statement.{
  Query, get_grant_exists_queries, grant_check_permissions, queries_for,
}
use blackstart.Mysql.Made.{IsStatement, HasNoStatement, Made, statement_for-Made}
use blackstart.Mysql.GrantModule.{
  answered, next_target, with_text, statement_for, ask_all, check_targets, check_grant, set_targets,
  set_grant,
}

module _ {World : Type 0} (db : Database Query World) (conn : Value) (dne : Bool) where
  -- How the statements for grants run, one after the other: until there is none left, or a grant has
  -- no statement, or one fails; its error is the result, and the statements after it do not run.
  pub data RunsGrants : List Grant → World → Result Unit × World → Type 0 where
    finished : (w : World) → RunsGrants [] w (ok tt, w)
    unmade_at :
        (g : Grant) (gs : List Grant) (e : Error) (w : World)
        → HasNoStatement g e
        → RunsGrants (g ∷ gs) w (err e, w)
    failed_at :
        (g : Grant) (gs : List Grant) (s : String) (e : Error) (w w' : World)
        → IsStatement dne g s
        → db.exec conn s w ≡ (some e, w')
        → RunsGrants (g ∷ gs) w (err (query_error e), w')
    followed :
        (g : Grant) (gs : List Grant) (s : String) (w w' : World) (r : Result Unit × World)
        → IsStatement dne g s
        → db.exec conn s w ≡ (none, w')
        → RunsGrants gs w' r
        → RunsGrants (g ∷ gs) w r

  executed-RunsGrants :
      (g : Grant) (gs : List Grant) (s : String) (w : World) (r : Option Error × World)
      (rest : World → Result Unit × World)
      → IsStatement dne g s
      → db.exec conn s w ≡ r
      → ((w' : World) → RunsGrants gs w' (rest w'))
      → RunsGrants (g ∷ gs) w (executed r rest)
  executed-RunsGrants g gs s w (some e, w') rest made same later = failed_at g gs s e w w' made same
  executed-RunsGrants g gs s w (none, w') rest made same later =
      followed g gs s w w' (rest w') made same (later w')

  with_text-RunsGrants :
      (g : Grant) (gs : List Grant) (made : Result String) (w : World)
      (rest : World → Result Unit × World)
      → Made dne g made
      → ((w' : World) → RunsGrants gs w' (rest w'))
      → RunsGrants (g ∷ gs) w (with_text made w (λ s. executed (db.exec conn s w) rest))
  with_text-RunsGrants g gs (err e) w rest unmade later = unmade_at g gs e w unmade
  with_text-RunsGrants g gs (ok s) w rest made later =
      executed-RunsGrants g gs s w (db.exec conn s w) rest made refl later

  set_targets-RunsGrants :
      (gs : List Grant) (w : World) → RunsGrants gs w (set_targets db dne conn gs w)
  unfolding set_targets
  set_targets-RunsGrants [] w = finished w
  set_targets-RunsGrants (g ∷ gs) w =
      with_text-RunsGrants g gs (statement_for dne g) w (set_targets db dne conn gs)
        (statement_for-Made dne g) (set_targets-RunsGrants gs)

module _ {World : Type 0} (db : Database Query World) (conn : Value) where
  -- When there is a connection and the inputs expand to a list of grants, `Set` runs one statement
  -- for each of them, in their order: GRANT ... TO, with the grant option where it is wanted, or
  -- REVOKE ... FROM where the grants must not exist. It runs all of them without an error, or stops
  -- at the first that fails or that cannot be made, with its error and without running another.
  pub set_grant-RunsGrants :
      (ctx : ModuleContext) (gs : List Grant) (w : World)
      → setup_connection ctx ≡ ok conn
      → expand_grants ctx ≡ ok gs
      → RunsGrants db conn ctx.dne gs w (set_grant db ctx w)
  unfolding set_grant
  set_grant-RunsGrants ctx gs w connected expanded =
      rw (connected, set_grant) (rw expanded (set_targets-RunsGrants db conn ctx.dne gs w))

abbrev pub reply : Bool → Answer
reply true = yes
reply false = no

-- An account that MySQL can be asked about.
abbrev pub HasAccount : Grant → Type 0
HasAccount g = (a : Account) × (parse_account g.role ≡ ok a)

module _ (answer : Query → List String → Bool) (dne : Bool) where
  abbrev wanted_answers : List (Query × List String) → Bool
  wanted_answers [] = true
  wanted_answers ((q, params) ∷ qs) =
      (if dne then not (answer q params) else answer q params) && wanted_answers qs

  -- Every query of the grant has the answer that `Check` wants: yes, or no where it must not exist.
  abbrev pub as_wanted : Grant → Bool
  as_wanted g = elim (get_grant_exists_queries g) [ err e ↦ false | ok qs ↦ wanted_answers qs ]

module _ {World : Type 0} (db : Database Query World) (conn : Value) (dne : Bool)
    (answer : Query → List String → Bool)
    (answers : (q : Query) (params : List String) (w : World)
      → db.query conn q params w ≡ (reply (answer q params), w)) where
  answered-reply :
      (a : Bool) (w : World) (rest : World → Result Bool × World) (b : Bool)
      → rest w ≡ (ok b, w)
      → answered dne (reply a, w) rest ≡ (ok ((if dne then not a else a) && b), w)
  answered-reply = go dne
    where
      go :
          (d a : Bool) (w : World) (rest : World → Result Bool × World) (b : Bool)
          → rest w ≡ (ok b, w)
          → answered d (reply a, w) rest ≡ (ok ((if d then not a else a) && b), w)
      go true true w rest b h = refl
      go true false w rest b h = h
      go false true w rest b h = h
      go false false w rest b h = refl

  ask_all-eq :
      (qs : List (Query × List String)) (w : World)
      → ask_all db dne conn qs w ≡ (ok (wanted_answers answer dne qs), w)
  unfolding ask_all
  ask_all-eq [] w = refl
  ask_all-eq ((q, params) ∷ qs) w =
      rw (answers q params w, ask_all)
        (answered-reply (answer q params) w (ask_all db dne conn qs) (wanted_answers answer dne qs)
          (ask_all-eq qs w))

  next_target-eq :
      (found : Bool) (w : World) (rest : World → Result Bool × World) (b : Bool)
      → rest w ≡ (ok b, w)
      → next_target (ok found, w) rest ≡ (ok (found && b), w)
  next_target-eq true w rest b h = h
  next_target-eq false w rest b h = refl

  check_targets-eq :
      (gs : List Grant) (w : World)
      → All HasAccount gs
      → check_targets db dne conn gs w ≡ (ok (all_of (as_wanted answer dne) gs), w)
  unfolding check_targets get_grant_exists_queries
  check_targets-eq [] w accounts = refl
  check_targets-eq (g ∷ gs) w accounts =
      let (a, parsed) = accounts.0 in
      rw (parsed, get_grant_exists_queries, as_wanted)
        (rw (ask_all-eq (queries_for g a (grant_check_permissions g)) w) (
          next_target-eq _ w (check_targets db dne conn gs) (all_of (as_wanted answer dne) gs)
            (check_targets-eq gs w accounts.1)))

  -- When there is a connection, the inputs expand to grants whose roles are accounts, and the
  -- database answers its queries without failing and without changing, `Check` answers, and answers
  -- yes exactly if every query of every grant is answered with yes (with no, where the grants must
  -- not exist).
  pub check_grant-as_wanted :
      (ctx : ModuleContext) (gs : List Grant) (w : World)
      → ctx.dne ≡ dne
      → setup_connection ctx ≡ ok conn
      → expand_grants ctx ≡ ok gs
      → All HasAccount gs
      → check_grant db ctx w ≡ (ok (all_of (as_wanted answer dne) gs), w)
  unfolding check_grant
  check_grant-as_wanted ctx gs w is_dne connected expanded accounts =
      rw (connected, check_grant) (rw expanded (rw is_dne (check_targets-eq gs w accounts)))
