-- ===== src/Postgres/QueryText.antt =====
-- modules/postgres/queries.go: the queries of the module, by the names of their constants. What a
-- query asks is the database's to say.

pub data Query : Type 0 where
  get_grant_instance_query get_grant_database_query get_grant_database_all_query : Query
  get_grant_schema_query get_grant_schema_all_query get_grant_table_query : Query
  get_grant_table_all_query get_grant_all_tables_in_schema_query get_grant_sequence_query : Query
  get_grant_sequence_all_query get_grant_all_sequences_in_schema_query : Query
  get_grant_all_sequences_in_schema_all_query get_grant_function_query : Query
  get_grant_all_functions_in_schema_query get_grant_all_functions_in_schema_all_query : Query
  get_grant_procedure_query get_grant_all_procedures_in_schema_query : Query
  get_grant_all_procedures_in_schema_all_query get_grant_routine_query : Query
  get_grant_all_routines_in_schema_query get_grant_all_routines_in_schema_all_query : Query
  get_grant_domain_query get_grant_domain_all_query get_grant_fdw_query : Query
  get_grant_fdw_all_query get_grant_foreign_server_query get_grant_foreign_server_all_query : Query
  get_grant_language_query get_grant_language_all_query get_grant_large_object_query : Query
  get_grant_large_object_all_query get_grant_parameter_query get_grant_parameter_all_query : Query
  get_grant_tablespace_query get_grant_tablespace_all_query get_grant_type_query : Query
  get_grant_type_all_query get_grant_all_tables_in_schema_all_query : Query
