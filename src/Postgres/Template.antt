-- ===== src/Postgres/Template.antt =====
-- modules/postgres/queries.go: the templates of the statements GRANT and REVOKE.
use blackstart.Prelude.{String, Bool, true, false}
use blackstart.Postgres.Grant.{
  Scope, on_instance, on_database, on_schema, on_table, on_sequence, on_function, on_procedure,
  on_routine, on_domain, on_fdw, on_foreign_server, on_language, on_large_object, on_parameter,
  on_tablespace, on_type,
}

-- The templates `setGrant…Template`, by scope and `All`.
abbrev pub set_template : Scope → Bool → String
set_template on_instance _ = "GRANT \"{{.Permission}}\" TO \"{{.Role}}\";"
set_template on_database _ = "GRANT {{.Permission}} ON DATABASE \"{{.Resource}}\" TO \"{{.Role}}\";"
set_template on_schema _ = "GRANT {{.Permission}} ON SCHEMA \"{{.Resource}}\" TO \"{{.Role}}\";"
set_template on_table true =
    "GRANT {{.Permission}} ON ALL TABLES IN SCHEMA \"{{.Schema}}\" TO \"{{.Role}}\";"
set_template on_table false =
    "GRANT {{.Permission}} ON TABLE \"{{.Schema}}\".\"{{.Resource}}\" TO \"{{.Role}}\";"
set_template on_sequence true =
    "GRANT {{.Permission}} ON ALL SEQUENCES IN SCHEMA \"{{.Schema}}\" TO \"{{.Role}}\";"
set_template on_sequence false =
    "GRANT {{.Permission}} ON SEQUENCE \"{{.Schema}}\".\"{{.Resource}}\" TO \"{{.Role}}\";"
set_template on_function true =
    "GRANT {{.Permission}} ON ALL FUNCTIONS IN SCHEMA \"{{.Schema}}\" TO \"{{.Role}}\";"
set_template on_function false =
    "GRANT {{.Permission}} ON FUNCTION \"{{.Schema}}\".{{.Resource}} TO \"{{.Role}}\";"
set_template on_procedure true =
    "GRANT {{.Permission}} ON ALL PROCEDURES IN SCHEMA \"{{.Schema}}\" TO \"{{.Role}}\";"
set_template on_procedure false =
    "GRANT {{.Permission}} ON PROCEDURE \"{{.Schema}}\".{{.Resource}} TO \"{{.Role}}\";"
set_template on_routine true =
    "GRANT {{.Permission}} ON ALL ROUTINES IN SCHEMA \"{{.Schema}}\" TO \"{{.Role}}\";"
set_template on_routine false =
    "GRANT {{.Permission}} ON ROUTINE \"{{.Schema}}\".{{.Resource}} TO \"{{.Role}}\";"
set_template on_domain _ = "GRANT {{.Permission}} ON DOMAIN \"{{.Resource}}\" TO \"{{.Role}}\";"
set_template on_fdw _ =
    "GRANT {{.Permission}} ON FOREIGN DATA WRAPPER \"{{.Resource}}\" TO \"{{.Role}}\";"
set_template on_foreign_server _ =
    "GRANT {{.Permission}} ON FOREIGN SERVER \"{{.Resource}}\" TO \"{{.Role}}\";"
set_template on_language _ = "GRANT {{.Permission}} ON LANGUAGE \"{{.Resource}}\" TO \"{{.Role}}\";"
set_template on_large_object _ =
    "GRANT {{.Permission}} ON LARGE OBJECT {{.Resource}} TO \"{{.Role}}\";"
set_template on_parameter _ =
    "GRANT {{.Permission}} ON PARAMETER \"{{.Resource}}\" TO \"{{.Role}}\";"
set_template on_tablespace _ =
    "GRANT {{.Permission}} ON TABLESPACE \"{{.Resource}}\" TO \"{{.Role}}\";"
set_template on_type _ = "GRANT {{.Permission}} ON TYPE \"{{.Resource}}\" TO \"{{.Role}}\";"

-- The templates `setRevoke…Template`, by scope and `All`.
abbrev pub revoke_template : Scope → Bool → String
revoke_template on_instance _ = "REVOKE \"{{.Permission}}\" FROM \"{{.Role}}\";"
revoke_template on_database _ =
    "REVOKE {{.Permission}} ON DATABASE \"{{.Resource}}\" FROM \"{{.Role}}\";"
revoke_template on_schema _ =
    "REVOKE {{.Permission}} ON SCHEMA \"{{.Resource}}\" FROM \"{{.Role}}\";"
revoke_template on_table true =
    "REVOKE {{.Permission}} ON ALL TABLES IN SCHEMA \"{{.Schema}}\" FROM \"{{.Role}}\";"
revoke_template on_table false =
    "REVOKE {{.Permission}} ON TABLE \"{{.Schema}}\".\"{{.Resource}}\" FROM \"{{.Role}}\";"
revoke_template on_sequence true =
    "REVOKE {{.Permission}} ON ALL SEQUENCES IN SCHEMA \"{{.Schema}}\" FROM \"{{.Role}}\";"
revoke_template on_sequence false =
    "REVOKE {{.Permission}} ON SEQUENCE \"{{.Schema}}\".\"{{.Resource}}\" FROM \"{{.Role}}\";"
revoke_template on_function true =
    "REVOKE {{.Permission}} ON ALL FUNCTIONS IN SCHEMA \"{{.Schema}}\" FROM \"{{.Role}}\";"
revoke_template on_function false =
    "REVOKE {{.Permission}} ON FUNCTION \"{{.Schema}}\".{{.Resource}} FROM \"{{.Role}}\";"
revoke_template on_procedure true =
    "REVOKE {{.Permission}} ON ALL PROCEDURES IN SCHEMA \"{{.Schema}}\" FROM \"{{.Role}}\";"
revoke_template on_procedure false =
    "REVOKE {{.Permission}} ON PROCEDURE \"{{.Schema}}\".{{.Resource}} FROM \"{{.Role}}\";"
revoke_template on_routine true =
    "REVOKE {{.Permission}} ON ALL ROUTINES IN SCHEMA \"{{.Schema}}\" FROM \"{{.Role}}\";"
revoke_template on_routine false =
    "REVOKE {{.Permission}} ON ROUTINE \"{{.Schema}}\".{{.Resource}} FROM \"{{.Role}}\";"
revoke_template on_domain _ =
    "REVOKE {{.Permission}} ON DOMAIN \"{{.Resource}}\" FROM \"{{.Role}}\";"
revoke_template on_fdw _ =
    "REVOKE {{.Permission}} ON FOREIGN DATA WRAPPER \"{{.Resource}}\" FROM \"{{.Role}}\";"
revoke_template on_foreign_server _ =
    "REVOKE {{.Permission}} ON FOREIGN SERVER \"{{.Resource}}\" FROM \"{{.Role}}\";"
revoke_template on_language _ =
    "REVOKE {{.Permission}} ON LANGUAGE \"{{.Resource}}\" FROM \"{{.Role}}\";"
revoke_template on_large_object _ =
    "REVOKE {{.Permission}} ON LARGE OBJECT {{.Resource}} FROM \"{{.Role}}\";"
revoke_template on_parameter _ =
    "REVOKE {{.Permission}} ON PARAMETER \"{{.Resource}}\" FROM \"{{.Role}}\";"
revoke_template on_tablespace _ =
    "REVOKE {{.Permission}} ON TABLESPACE \"{{.Resource}}\" FROM \"{{.Role}}\";"
revoke_template on_type _ = "REVOKE {{.Permission}} ON TYPE \"{{.Resource}}\" FROM \"{{.Role}}\";"
