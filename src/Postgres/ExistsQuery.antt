-- ===== src/Postgres/ExistsQuery.antt =====
-- modules/postgres/grant.go: the queries that ask the database whether a grant is held.
use blackstart.Prelude.{String, List, [], ◌∷◌, if◌then◌else◌}
use blackstart.Module.{Result, ok, ◌>>=◌}
use blackstart.Postgres.Grant.{
  Scope, on_instance, on_database, on_schema, on_table, on_sequence, on_function, on_procedure,
  on_routine, on_domain, on_fdw, on_foreign_server, on_language, on_large_object, on_parameter,
  on_tablespace, on_type, Grant, string_to_scope,
}
use blackstart.Postgres.QueryText.{Query}
use blackstart.Postgres.QueryParams.{is_all, exists_query_at}

-- getGrantExistsQuery
unfoldable pub get_grant_exists_query : Grant → Result (Query × List String)
unfolding exists_query_at
get_grant_exists_query g = string_to_scope g.scope >>= λ sc. ok (exists_query_at g sc)

-- grantAllPermissions
unfoldable pub grant_all_permissions : Scope → List String
grant_all_permissions on_instance = []
grant_all_permissions on_database = "CREATE" ∷ "CONNECT" ∷ "TEMPORARY" ∷ []
grant_all_permissions on_schema = "CREATE" ∷ "USAGE" ∷ []
grant_all_permissions on_table =
    "SELECT" ∷ "INSERT" ∷ "UPDATE" ∷ "DELETE" ∷ "TRUNCATE" ∷ "REFERENCES" ∷ "TRIGGER" ∷ "MAINTAIN"
    ∷ []
grant_all_permissions on_sequence = "USAGE" ∷ "SELECT" ∷ "UPDATE" ∷ []
grant_all_permissions on_function = "EXECUTE" ∷ []
grant_all_permissions on_procedure = "EXECUTE" ∷ []
grant_all_permissions on_routine = "EXECUTE" ∷ []
grant_all_permissions on_domain = "USAGE" ∷ []
grant_all_permissions on_fdw = "USAGE" ∷ []
grant_all_permissions on_foreign_server = "USAGE" ∷ []
grant_all_permissions on_language = "USAGE" ∷ []
grant_all_permissions on_type = "USAGE" ∷ []
grant_all_permissions on_large_object = "SELECT" ∷ "UPDATE" ∷ []
grant_all_permissions on_parameter = "SET" ∷ "ALTER SYSTEM" ∷ []
grant_all_permissions on_tablespace = "CREATE" ∷ []

-- The loop of `getGrantExistsQueries` over what ALL stands for.
unfoldable pub queries_for : Grant → List String → Result (List (Query × List String))
unfolding get_grant_exists_query
queries_for g [] = ok []
queries_for g (p ∷ ps) = get_grant_exists_query (record g { permission = p }) >>= λ q.
    queries_for g ps >>= λ qs. ok (q ∷ qs)

abbrev pub single_query : Grant → Result (List (Query × List String))
single_query g = get_grant_exists_query g >>= λ q. ok (q ∷ [])

unfoldable pub all_queries : Grant → List String → Result (List (Query × List String))
unfolding queries_for
all_queries g [] = single_query g
all_queries g (p ∷ ps) = queries_for g (p ∷ ps)

unfoldable pub exists_queries_at : Grant → Scope → Result (List (Query × List String))
unfolding grant_all_permissions all_queries
exists_queries_at g sc =
    if is_all sc g then all_queries g (grant_all_permissions sc) else single_query g

-- getGrantExistsQueries
unfoldable pub get_grant_exists_queries : Grant → Result (List (Query × List String))
unfolding exists_queries_at
get_grant_exists_queries g = string_to_scope g.scope >>= exists_queries_at g
