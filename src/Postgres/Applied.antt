-- ===== src/Postgres/Applied.antt =====
-- modules/postgres/grant.go: what `Set` executes, and when `Check` answers yes.
use blackstart.Prelude.{
  String, Bool, true, false, not, ◌&&◌, Option, none, some, List, [], ◌∷◌, map, All, ◌≡◌, refl,
  if◌then◌else◌,
}
use blackstart.Text.{all_of}
use blackstart.Values.{Value}
use blackstart.Module.{Result, ok, err, ModuleContext}
use blackstart.Postgres.Grant.{Scope, Grant}
use blackstart.Postgres.Targets.{expand_grants}
use blackstart.Postgres.QueryText.{Query}
use blackstart.Postgres.ExistsQuery.{get_grant_exists_queries}
use blackstart.Sql.{
  Answer, yes, no, invalid_value, Database, setup_connection, Runs, finished, executed-Runs,
}
use blackstart.Postgres.GrantModule.{
  asked, checked, ask_all, check_targets, check_grant, set_targets, set_grant,
}
use blackstart.Postgres.Valid.{IsTarget}
use blackstart.Postgres.Expanded.{expand_grants-IsTarget}
use blackstart.Postgres.Given.{statement, statement_for-statement, get_grant_exists_queries-given}

module _ {World : Type 0} (db : Database Query World) (conn : Value) where
  set_targets-Runs :
      (dne : Bool) (sc : Scope) (gs : List Grant) (w : World)
      → All (IsTarget sc) gs
      → Runs (db.exec conn) (map (statement dne sc) gs) w (set_targets db dne conn gs w)
  unfolding set_targets
  set_targets-Runs dne sc [] w valid = finished w
  set_targets-Runs dne sc (g ∷ gs) w valid =
      rw (statement_for-statement sc g valid.0 dne, set_targets)
        (executed-Runs (db.exec conn) (statement dne sc g) (map (statement dne sc) gs) w _
          (set_targets db dne conn gs) refl (λ w'. set_targets-Runs dne sc gs w' valid.1))

  -- When there is a connection and the inputs expand to a list of grants, `Set` runs one statement
  -- for each of them, in their order, REVOKE where the grants must not exist and GRANT otherwise: all
  -- of them without an error, or up to the first that fails, with its error and without running
  -- another. It never stops because a statement cannot be made.
  pub set_grant-Runs :
      (ctx : ModuleContext) (gs : List Grant) (w : World)
      → setup_connection ctx ≡ ok conn
      → expand_grants ctx ≡ ok gs
      → (sc : Scope) × Runs (db.exec conn) (map (statement ctx.dne sc) gs) w (set_grant db ctx w)
  unfolding set_grant
  set_grant-Runs ctx gs w connected expanded =
      let (sc, valid) = expand_grants-IsTarget ctx gs expanded in
      (sc, rw (connected, set_grant) (rw expanded (set_targets-Runs ctx.dne sc gs w valid)))

-- What a database answers that does not fail; `none` is SQLSTATE 22023.
abbrev pub reply : Option Bool → Answer
reply none = invalid_value
reply (some true) = yes
reply (some false) = no

abbrev pub is_not_no : Option Bool → Bool
is_not_no (some false) = false
is_not_no _ = true

module _ (answer : Query → List String → Option Bool) where
  abbrev pub all_hold : List (Query × List String) → Bool
  all_hold [] = true
  all_hold ((q, params) ∷ qs) = is_not_no (answer q params) && all_hold qs

  -- No query of the grant is answered with no.
  abbrev pub held : Grant → Bool
  held g = elim (get_grant_exists_queries g) [ err e ↦ false | ok qs ↦ all_hold qs ]

  -- What `Check` wants of a grant.
  abbrev pub as_wanted : Bool → Grant → Bool
  as_wanted dne g = if dne then not (held g) else held g

module _ {World : Type 0} (db : Database Query World) (conn : Value)
    (answer : Query → List String → Option Bool)
    (answers : (q : Query) (params : List String) (w : World)
      → db.query conn q params w ≡ (reply (answer q params), w)) where
  asked-reply :
      (o : Option Bool) (w : World) (rest : World → Result Bool × World) (b : Bool)
      → rest w ≡ (ok b, w)
      → asked (reply o, w) rest ≡ (ok (is_not_no o && b), w)
  asked-reply none w rest b h = h
  asked-reply (some true) w rest b h = h
  asked-reply (some false) w rest b h = refl

  ask_all-eq :
      (qs : List (Query × List String)) (w : World)
      → ask_all db conn qs w ≡ (ok (all_hold answer qs), w)
  unfolding ask_all
  ask_all-eq [] w = refl
  ask_all-eq ((q, params) ∷ qs) w =
      rw (answers q params w, ask_all)
        (asked-reply (answer q params) w (ask_all db conn qs) (all_hold answer qs)
          (ask_all-eq qs w))

  checked-found :
      (dne found : Bool) (w : World) (rest : World → Result Bool × World) (b : Bool)
      → rest w ≡ (ok b, w)
      → checked dne (ok found, w) rest ≡ (ok ((if dne then not found else found) && b), w)
  checked-found true true w rest b h = refl
  checked-found true false w rest b h = h
  checked-found false true w rest b h = h
  checked-found false false w rest b h = refl

  check_targets-eq :
      (dne : Bool) (sc : Scope) (gs : List Grant) (w : World)
      → All (IsTarget sc) gs
      → check_targets db dne conn gs w ≡ (ok (all_of (as_wanted answer dne) gs), w)
  unfolding check_targets
  check_targets-eq dne sc [] w valid = refl
  check_targets-eq dne sc (g ∷ gs) w valid =
      let (qs, made) = get_grant_exists_queries-given sc g valid.0 in
      rw (made, check_targets, held)
        (rw (ask_all-eq qs w) (
          checked-found dne (all_hold answer qs) w (check_targets db dne conn gs)
            (all_of (as_wanted answer dne) gs) (check_targets-eq dne sc gs w valid.1)))

  -- When there is a connection, the inputs expand to a list of grants, and the database answers its
  -- queries without failing and without changing, `Check` answers, and answers yes exactly if every
  -- grant of the list is held (no grant of it, where they must not exist). A grant is held if none
  -- of its queries is answered with no; an answer with SQLSTATE 22023 counts for it.
  pub check_grant-eq :
      (ctx : ModuleContext) (gs : List Grant) (w : World)
      → setup_connection ctx ≡ ok conn
      → expand_grants ctx ≡ ok gs
      → check_grant db ctx w ≡ (ok (all_of (as_wanted answer ctx.dne) gs), w)
  unfolding check_grant
  check_grant-eq ctx gs w connected expanded =
      let (sc, valid) = expand_grants-IsTarget ctx gs expanded in
      rw (connected, check_grant) (rw expanded (check_targets-eq ctx.dne sc gs w valid))
