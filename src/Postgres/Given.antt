-- ===== src/Postgres/Given.antt =====
-- modules/postgres/grant.go: for a grant that passed the validation, the statements and the queries
-- are always made.
use blackstart.Prelude.{
  String, Bool, true, false, List, [], ◌∷◌, contains, All, ◌==◌, inl, inr, ◌≡◌, refl, subst,
  or-cases, Bool-cases, eq_iff, if◌then◌else◌,
}
use blackstart.Text.{to_upper, trim_space}
use blackstart.Module.{ok}
use blackstart.Postgres.Grant.{
  Scope, on_instance, on_schema, on_table, on_sequence, on_function, on_procedure, on_routine,
  on_database, on_domain, on_fdw, on_foreign_server, on_language, on_large_object, on_parameter,
  on_tablespace, on_type, scope_name, Grant, grant_permissions, normalize_permission,
  string_to_scope,
}
use blackstart.Postgres.Template.{set_template, revoke_template}
use blackstart.Postgres.GrantModule.{statement_for}
use blackstart.Postgres.Statement.{
  apply_with_grant_option, execute, normalized, admitted, set_query_at, get_grant_set_query,
  revoke_query_at, get_grant_revoke_query,
}
use blackstart.Postgres.QueryText.{Query}
use blackstart.Postgres.QueryParams.{is_all, exists_query_at}
use blackstart.Postgres.ExistsQuery.{
  single_query, grant_all_permissions, get_grant_exists_query, queries_for, all_queries,
  exists_queries_at, get_grant_exists_queries,
}
use blackstart.Postgres.Valid.{IsTarget, IsPermission}

-- The name of a scope is read back as the scope.
pub string_to_scope-scope_name : (sc : Scope) → string_to_scope (scope_name sc) ≡ ok sc
unfolding string_to_scope to_upper
string_to_scope-scope_name on_instance = refl
string_to_scope-scope_name on_schema = refl
string_to_scope-scope_name on_table = refl
string_to_scope-scope_name on_sequence = refl
string_to_scope-scope_name on_function = refl
string_to_scope-scope_name on_procedure = refl
string_to_scope-scope_name on_routine = refl
string_to_scope-scope_name on_database = refl
string_to_scope-scope_name on_domain = refl
string_to_scope-scope_name on_fdw = refl
string_to_scope-scope_name on_foreign_server = refl
string_to_scope-scope_name on_language = refl
string_to_scope-scope_name on_large_object = refl
string_to_scope-scope_name on_parameter = refl
string_to_scope-scope_name on_tablespace = refl
string_to_scope-scope_name on_type = refl

All-contains :
    (P : String → Type 0) (xs : List String) → All P xs → (a : String) → contains xs a ≡ true → P a
All-contains P [] h a m = cc
All-contains P (x ∷ xs) h a m = elim (or-cases (x == a) (contains xs a) m) [
  | inl same ↦ subst P ((eq_iff x a).0 same) h.0
  | inr later ↦ All-contains P xs h.1 a later
]

-- Each permission of a scope is in its normal form.
permissions-IsNormal :
    (sc : Scope) → All (λ p. admitted sc (normalize_permission sc p) ≡ true) (grant_permissions sc)
unfolding admitted normalize_permission trim_space to_upper
permissions-IsNormal on_instance = tt
permissions-IsNormal on_schema = (refl, (refl, (refl, tt)))
permissions-IsNormal on_table =
    (refl, (refl, (refl, (refl, (refl, (refl, (refl, (refl, (refl, tt)))))))))
permissions-IsNormal on_sequence = (refl, (refl, (refl, (refl, tt))))
permissions-IsNormal on_function = (refl, (refl, tt))
permissions-IsNormal on_procedure = (refl, (refl, tt))
permissions-IsNormal on_routine = (refl, (refl, tt))
permissions-IsNormal on_database = (refl, (refl, (refl, (refl, (refl, tt)))))
permissions-IsNormal on_domain = (refl, (refl, tt))
permissions-IsNormal on_fdw = (refl, (refl, tt))
permissions-IsNormal on_foreign_server = (refl, (refl, tt))
permissions-IsNormal on_language = (refl, (refl, tt))
permissions-IsNormal on_large_object = (refl, (refl, (refl, tt)))
permissions-IsNormal on_parameter = (refl, (refl, (refl, tt)))
permissions-IsNormal on_tablespace = (refl, (refl, tt))
permissions-IsNormal on_type = (refl, (refl, tt))

permission-admitted :
    (sc : Scope) (p : String) → IsPermission sc p → admitted sc (normalize_permission sc p) ≡ true
unfolding admitted
permission-admitted on_instance p valid = refl
permission-admitted sc p valid =
    All-contains (λ q. admitted sc (normalize_permission sc q) ≡ true) (grant_permissions sc)
      (permissions-IsNormal sc) p valid

abbrev pub set_statement : Scope → Grant → String
set_statement sc g =
    apply_with_grant_option (execute (set_template sc g.all) (normalized sc g)) g.with_grant_option

abbrev pub revoke_statement : Scope → Grant → String
revoke_statement sc g = execute (revoke_template sc g.all) (normalized sc g)

-- The statement of a valid grant: REVOKE where it must not exist, GRANT otherwise.
abbrev pub statement : Bool → Scope → Grant → String
statement dne sc g = if dne then revoke_statement sc g else set_statement sc g

module _ (sc : Scope) (g : Grant) (target : IsTarget sc g) where
  scope-read : string_to_scope g.scope ≡ ok sc
  scope-read = rw target.at_scope (string_to_scope-scope_name sc)

  -- GRANT is rendered for every valid grant.
  get_grant_set_query-statement : get_grant_set_query g ≡ ok (set_statement sc g)
  unfolding get_grant_set_query set_query_at
  get_grant_set_query-statement =
      rw scope-read (rw (permission-admitted sc g.permission target.permission_valid) refl)

  -- REVOKE is rendered for every valid grant.
  get_grant_revoke_query-statement : get_grant_revoke_query g ≡ ok (revoke_statement sc g)
  unfolding get_grant_revoke_query revoke_query_at
  get_grant_revoke_query-statement =
      rw scope-read (rw (permission-admitted sc g.permission target.permission_valid) refl)

  pub statement_for-statement : (dne : Bool) → statement_for dne g ≡ ok (statement dne sc g)
  statement_for-statement true = get_grant_revoke_query-statement
  statement_for-statement false = get_grant_set_query-statement

  query-given :
      (p : String)
      → (q : Query × List String) × (get_grant_exists_query (record g { permission = p }) ≡ ok q)
  unfolding get_grant_exists_query
  query-given p = (exists_query_at (record g { permission = p }) sc, rw scope-read refl)

  queries_for-given :
      (ps : List String) → (qs : List (Query × List String)) × (queries_for g ps ≡ ok qs)
  unfolding queries_for
  queries_for-given [] = ([], refl)
  queries_for-given (p ∷ ps) =
      let (q, asked) = query-given p in
      let (qs, rest) = queries_for-given ps in (q ∷ qs, rw asked (rw rest refl))

  single_query-given : (qs : List (Query × List String)) × (single_query g ≡ ok qs)
  unfolding get_grant_exists_query
  single_query-given = (exists_query_at g sc ∷ [], rw scope-read refl)

  all_queries-given :
      (ps : List String) → (qs : List (Query × List String)) × (all_queries g ps ≡ ok qs)
  unfolding all_queries
  all_queries-given [] = single_query-given
  all_queries-given (p ∷ ps) = queries_for-given (p ∷ ps)

  exists_queries_at-given : (qs : List (Query × List String)) × (exists_queries_at g sc ≡ ok qs)
  unfolding exists_queries_at
  exists_queries_at-given = elim (Bool-cases (is_all sc g)) [
    | inl all ↦ rw all (all_queries-given (grant_all_permissions sc))
    | inr one ↦ rw one single_query-given
  ]

  -- The queries of a valid grant are always made.
  pub get_grant_exists_queries-given :
      (qs : List (Query × List String)) × (get_grant_exists_queries g ≡ ok qs)
  unfolding get_grant_exists_queries
  get_grant_exists_queries-given = rw scope-read exists_queries_at-given
