-- ===== src/Mysql/Statement.antt =====
-- modules/mysql/queries.go: the statements that give and take away a grant, and the queries that ask
-- whether one is held.
use Prim.Native.String.{◌++◌ as ◌append◌}
use blackstart.Prelude.{String, Bool, true, List, [], ◌∷◌, ◌==◌, if◌then◌else◌}
use blackstart.Module.{Result, ok, ◌>>=◌}
use blackstart.Mysql.Account.{Account, parse_account, account_sql, quote_identifier}
use blackstart.Mysql.Grant.{Scope, on_database, on_table, Grant, grant_permissions}

abbrev table_object : Grant → String → Result String
table_object g db =
    if g.all
    then ok (db append ".*")
    else (quote_identifier g.resource >>= λ table. ok (db append ("." append table)))

unfoldable pub object_at : Grant → Scope → Result String
object_at g on_database = quote_identifier g.resource >>= λ db. ok (db append ".*")
object_at g on_table = quote_identifier g.schema >>= table_object g

-- grantObjectSQL
unfoldable pub grant_object_sql : Grant → Result String
unfolding object_at
grant_object_sql g = object_at g g.scope

-- The two uses of `renderGrantChangeSQL`: renderGrantSQL and renderRevokeSQL.
pub data Verb : Type 0 where
  grant revoke : Verb

abbrev verb_text : Verb → String
verb_text grant = "GRANT"
verb_text revoke = "REVOKE"

abbrev account_keyword : Verb → String
account_keyword grant = "TO"
account_keyword revoke = "FROM"

abbrev option_text : Verb → Bool → String
option_text grant true = " WITH GRANT OPTION"
option_text _ _ = ""

-- The text of a statement, from its parts; an option that is not there adds nothing.
abbrev pub change_text : Verb → String → String → String → Bool → String
change_text verb permission object account option =
    verb_text verb
    append (" "
        append (permission
            append (" ON "
                append (object
                    append (" "
                        append (account_keyword verb
                            append (" " append (account append option_text verb option))))))))

-- renderGrantChangeSQL
unfoldable pub render_change : Verb → Grant → Result String
unfolding grant_object_sql
render_change verb g = parse_account g.role >>= λ account. grant_object_sql g >>= λ object.
    ok (change_text verb g.permission object (account_sql account) g.with_grant_option)

-- The queries, by the names of their constants.
pub data Query : Type 0 where
  get_database_grant_query get_table_grant_query get_all_tables_grant_query : Query

-- privilegesWithoutAll
unfoldable pub privileges_without_all : List String → List String
privileges_without_all [] = []
privileges_without_all (p ∷ ps) =
    let rest = privileges_without_all ps in if p == "ALL" then rest else p ∷ rest

-- grantCheckPermissions
unfoldable pub grant_check_permissions : Grant → List String
unfolding privileges_without_all
grant_check_permissions g =
    if g.permission == "ALL"
    then privileges_without_all (grant_permissions g.scope)
    else g.permission ∷ []

unfoldable pub exists_query_at : Grant → String → String → String → Scope → Query × List String
exists_query_at g account permission grantable on_database =
    (get_database_grant_query, account ∷ g.resource ∷ permission ∷ grantable ∷ [])
exists_query_at g account permission grantable on_table =
    if g.all
    then (
      get_all_tables_grant_query,
      g.schema ∷ account ∷ permission ∷ grantable ∷ account ∷ permission ∷ grantable ∷ [],
    )
    else (
      get_table_grant_query,
      account ∷ g.schema ∷ g.resource ∷ permission ∷ grantable ∷ account ∷ g.schema ∷ permission
          ∷ grantable ∷ [],
    )

-- getGrantExistsQueryForPermission; `InformationSchema` writes an account as `SQL` does
unfoldable pub exists_query_for : Grant → Account → String → String → Query × List String
unfolding exists_query_at
exists_query_for g account permission grantable =
    exists_query_at g (account_sql account) permission grantable g.scope

unfoldable pub queries_for : Grant → Account → List String → List (Query × List String)
unfolding exists_query_for
queries_for g account [] = []
queries_for g account (p ∷ ps) =
    exists_query_for g account p (if g.with_grant_option then "YES" else "NO")
    ∷ queries_for g account ps

-- getGrantExistsQueries
unfoldable pub get_grant_exists_queries : Grant → Result (List (Query × List String))
unfolding queries_for grant_check_permissions
get_grant_exists_queries g =
    parse_account g.role >>= λ account. ok (queries_for g account (grant_check_permissions g))
