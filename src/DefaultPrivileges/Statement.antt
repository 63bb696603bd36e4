-- ===== src/DefaultPrivileges/Statement.antt =====
-- modules/postgres/default_privileges.go: the statement for a target.
use Prim.Native.String.{◌++◌ as ◌append◌}
use blackstart.Prelude.{String, Bool, true, false, ◌==◌, if◌then◌else◌}
use blackstart.DefaultPrivileges.Scope.{sql_object_name, quote_role_or_public}
use blackstart.DefaultPrivileges.Targets.{Target}

abbrev statement_prefix : Target → String
statement_prefix t =
    "ALTER DEFAULT PRIVILEGES FOR ROLE \""
    append (t.owner_role
        append ("\""
            append (if t.schema == "" then "" else " IN SCHEMA \"" append (t.schema append "\""))))

abbrev statement_permission : String → String
statement_permission p = if p == "ALL" then "ALL PRIVILEGES" else p

abbrev pub grant_statement : Target → String → String
grant_statement t grantee =
    statement_prefix t
    append (" GRANT "
        append (statement_permission t.permission
            append (" ON "
                append (sql_object_name t.scope
                    append (" TO "
                        append (grantee
                            append ((if t.with_grant_option then " WITH GRANT OPTION" else "")
                                append ";")))))))

abbrev pub revoke_statement : Target → String → String
revoke_statement t grantee =
    statement_prefix t
    append (" REVOKE "
        append (statement_permission t.permission
            append (" ON "
                append (sql_object_name t.scope
                    append (" FROM "
                        append (grantee append (" " append (t.revoke_mode append ";"))))))))

-- buildAlterDefaultPrivilegesSQL
unfoldable pub build_statement : Target → Bool → String
unfolding quote_role_or_public
build_statement t true = revoke_statement t (quote_role_or_public t.grantee)
build_statement t false = grant_statement t (quote_role_or_public t.grantee)
