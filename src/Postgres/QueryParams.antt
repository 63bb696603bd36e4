-- ===== src/Postgres/QueryParams.antt =====
-- modules/postgres/grant.go: the query and its parameters that ask for one permission, by scope.
use blackstart.Prelude.{String, Bool, List, [], ◌∷◌, map, ◌==◌, if◌then◌else◌}
use blackstart.Postgres.Grant.{
  Scope, on_instance, on_database, on_schema, on_table, on_sequence, on_function, on_procedure,
  on_routine, on_domain, on_fdw, on_foreign_server, on_language, on_large_object, on_parameter,
  on_tablespace, on_type, Grant, normalize_permission, check_permission_token,
}
use blackstart.Postgres.QueryText.{
  Query, get_grant_instance_query, get_grant_database_query, get_grant_database_all_query,
  get_grant_schema_query, get_grant_schema_all_query, get_grant_table_query,
  get_grant_table_all_query, get_grant_all_tables_in_schema_query, get_grant_sequence_query,
  get_grant_sequence_all_query, get_grant_all_sequences_in_schema_query,
  get_grant_all_sequences_in_schema_all_query, get_grant_function_query,
  get_grant_all_functions_in_schema_query, get_grant_all_functions_in_schema_all_query,
  get_grant_procedure_query, get_grant_all_procedures_in_schema_query,
  get_grant_all_procedures_in_schema_all_query, get_grant_routine_query,
  get_grant_all_routines_in_schema_query, get_grant_all_routines_in_schema_all_query,
  get_grant_domain_query, get_grant_domain_all_query, get_grant_fdw_query, get_grant_fdw_all_query,
  get_grant_foreign_server_query, get_grant_foreign_server_all_query, get_grant_language_query,
  get_grant_language_all_query, get_grant_large_object_query, get_grant_large_object_all_query,
  get_grant_parameter_query, get_grant_parameter_all_query, get_grant_tablespace_query,
  get_grant_tablespace_all_query, get_grant_type_query, get_grant_type_all_query,
  get_grant_all_tables_in_schema_all_query,
}

-- normalizeGrantPermissionToken(grantScope, target.Permission) == "ALL"
abbrev pub is_all : Scope → Grant → Bool
is_all sc g = normalize_permission sc g.permission == "ALL"

-- The permission as the last parameter of most queries.
abbrev token : Scope → Grant → String
token sc g = check_permission_token (normalize_permission sc g.permission) g.with_grant_option

unfoldable pub database_query : Grant → Query × List String
database_query g =
    let o = g.with_grant_option in
    if is_all on_database g
    then (
      get_grant_database_all_query,
      g.role
          ∷ g.resource
          ∷ check_permission_token "CREATE" o
          ∷ check_permission_token "CONNECT" o
          ∷ check_permission_token "TEMPORARY" o
          ∷ [],
    )
    else (
      get_grant_database_query,
      g.role
          ∷ normalize_permission on_database (check_permission_token g.permission o)
          ∷ g.resource
          ∷ [],
    )

unfoldable pub schema_query : Grant → Query × List String
schema_query g =
    let o = g.with_grant_option in
    if is_all on_schema g
    then (
      get_grant_schema_all_query,
      g.role
          ∷ g.resource
          ∷ check_permission_token "CREATE" o
          ∷ check_permission_token "USAGE" o
          ∷ [],
    )
    else (
      get_grant_schema_query,
      normalize_permission on_schema (check_permission_token g.permission o)
          ∷ g.role
          ∷ g.resource
          ∷ [],
    )

unfoldable pub tables_query : Grant → Query × List String
tables_query g =
    let o = g.with_grant_option in
    if is_all on_table g
    then (
      get_grant_all_tables_in_schema_all_query,
      g.role
          ∷ g.schema
          ∷ check_permission_token "SELECT" o
          ∷ check_permission_token "INSERT" o
          ∷ check_permission_token "UPDATE" o
          ∷ check_permission_token "DELETE" o
          ∷ check_permission_token "TRUNCATE" o
          ∷ check_permission_token "REFERENCES" o
          ∷ check_permission_token "TRIGGER" o
          ∷ check_permission_token "MAINTAIN" o
          ∷ [],
    )
    else (get_grant_all_tables_in_schema_query, g.role ∷ g.schema ∷ token on_table g ∷ [])

unfoldable pub table_query : Grant → Query × List String
unfolding tables_query
table_query g =
    let o = g.with_grant_option in
    if g.all
    then tables_query g
    else if is_all on_table g
    then (
      get_grant_table_all_query,
      g.role
          ∷ g.schema
          ∷ g.resource
          ∷ check_permission_token "SELECT" o
          ∷ check_permission_token "INSERT" o
          ∷ check_permission_token "UPDATE" o
          ∷ check_permission_token "DELETE" o
          ∷ check_permission_token "TRUNCATE" o
          ∷ check_permission_token "REFERENCES" o
          ∷ check_permission_token "TRIGGER" o
          ∷ check_permission_token "MAINTAIN" o
          ∷ [],
    )
    else (
      get_grant_table_query,
      normalize_permission on_table (check_permission_token g.permission o)
          ∷ g.role
          ∷ g.resource
          ∷ g.schema
          ∷ [],
    )

unfoldable pub sequences_query : Grant → Query × List String
sequences_query g =
    let o = g.with_grant_option in
    if is_all on_sequence g
    then (
      get_grant_all_sequences_in_schema_all_query,
      g.role
          ∷ g.schema
          ∷ check_permission_token "USAGE" o
          ∷ check_permission_token "SELECT" o
          ∷ check_permission_token "UPDATE" o
          ∷ [],
    )
    else (get_grant_all_sequences_in_schema_query, g.role ∷ g.schema ∷ token on_sequence g ∷ [])

unfoldable pub sequence_query : Grant → Query × List String
unfolding sequences_query
sequence_query g =
    let o = g.with_grant_option in
    if g.all
    then sequences_query g
    else if is_all on_sequence g
    then (
      get_grant_sequence_all_query,
      g.role
          ∷ g.schema
          ∷ g.resource
          ∷ check_permission_token "USAGE" o
          ∷ check_permission_token "SELECT" o
          ∷ check_permission_token "UPDATE" o
          ∷ [],
    )
    else (get_grant_sequence_query, token on_sequence g ∷ g.role ∷ g.resource ∷ g.schema ∷ [])

-- The case of FUNCTION, PROCEDURE and ROUTINE, by the three queries of the scope.
unfoldable pub routine_query : Scope → Query → Query → Query → Grant → Query × List String
routine_query sc all_of_all all_of_one single g =
    if g.all
    then (if is_all sc g
        then (
          all_of_all,
          g.role ∷ g.schema ∷ check_permission_token "EXECUTE" g.with_grant_option ∷ [],
        )
        else (all_of_one, g.role ∷ g.schema ∷ token sc g ∷ []))
    else (single, g.role ∷ g.resource ∷ g.schema ∷ token sc g ∷ [])

-- The case of the scopes that name their resource alone; `every` is what ALL stands for.
unfoldable pub named_query : Scope → Query → Query → List String → Grant → Query × List String
named_query sc all_query single every g =
    if is_all sc g
    then (
      all_query,
      g.role ∷ g.resource ∷ map (λ p. check_permission_token p g.with_grant_option) every,
    )
    else (single, g.role ∷ g.resource ∷ token sc g ∷ [])

-- The switch of `getGrantExistsQuery`.
unfoldable pub exists_query_at : Grant → Scope → Query × List String
unfolding database_query schema_query table_query sequence_query routine_query named_query
exists_query_at g on_instance =
    (get_grant_instance_query, normalize_permission on_instance g.permission ∷ g.role ∷ [])
exists_query_at g on_database = database_query g
exists_query_at g on_schema = schema_query g
exists_query_at g on_table = table_query g
exists_query_at g on_sequence = sequence_query g
exists_query_at g on_function =
    routine_query on_function get_grant_all_functions_in_schema_all_query
      get_grant_all_functions_in_schema_query get_grant_function_query g
exists_query_at g on_procedure =
    routine_query on_procedure get_grant_all_procedures_in_schema_all_query
      get_grant_all_procedures_in_schema_query get_grant_procedure_query g
exists_query_at g on_routine =
    routine_query on_routine get_grant_all_routines_in_schema_all_query
      get_grant_all_routines_in_schema_query get_grant_routine_query g
exists_query_at g on_domain =
    named_query on_domain get_grant_domain_all_query get_grant_domain_query ("USAGE" ∷ []) g
exists_query_at g on_fdw =
    named_query on_fdw get_grant_fdw_all_query get_grant_fdw_query ("USAGE" ∷ []) g
exists_query_at g on_foreign_server =
    named_query on_foreign_server get_grant_foreign_server_all_query get_grant_foreign_server_query
      ("USAGE" ∷ []) g
exists_query_at g on_language =
    named_query on_language get_grant_language_all_query get_grant_language_query ("USAGE" ∷ []) g
exists_query_at g on_large_object =
    named_query on_large_object get_grant_large_object_all_query get_grant_large_object_query
      ("SELECT" ∷ "UPDATE" ∷ []) g
exists_query_at g on_parameter =
    named_query on_parameter get_grant_parameter_all_query get_grant_parameter_query
      ("SET" ∷ "ALTER SYSTEM" ∷ []) g
exists_query_at g on_tablespace =
    named_query on_tablespace get_grant_tablespace_all_query get_grant_tablespace_query
      ("CREATE" ∷ []) g
exists_query_at g on_type =
    named_query on_type get_grant_type_all_query get_grant_type_query ("USAGE" ∷ []) g
