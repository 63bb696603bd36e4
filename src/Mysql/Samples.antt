-- ===== src/Mysql/Samples.antt =====
-- Tests of the module `mysql_grant`, and its theorems at a concrete operation.
use blackstart.Prelude.{String, Bool, false, none, some, List, [], ◌∷◌, All, ◌≡◌, refl, ◌==◌}
use blackstart.Text
use blackstart.Text.{all_of}
use blackstart.Values.{GoType, Value}
use blackstart.Inputs
use blackstart.Operation.{is_static, input_from_value}
use blackstart.Module.{ok, err, invalid_identifier, ModuleContext}
use blackstart.Module.Loops.{each}
use blackstart.Module.Context.{input}
use blackstart.Prelude.Dict.{lookup}
use blackstart.Sql.{Database, setup_connection}
use blackstart.Postgres.Dimensions
use blackstart.Mysql.Account
use blackstart.Mysql.Account.{Account, account_sql, parse_account}
use blackstart.Mysql.Grant
use blackstart.Mysql.Grant.{Scope, on_table, Grant}
use blackstart.Mysql.Targets
use blackstart.Mysql.Targets.{Expansion, expand_grants, read_expansion}
use blackstart.Mysql.Statement
use blackstart.Mysql.Statement.{Query}
use blackstart.Mysql.GrantModule.{set_targets, set_grant, check_grant}
use blackstart.Mysql.Literal.{read_account, read_account-account_sql}
use blackstart.Mysql.Expanded.{product, IsAllowed, expand_grants-product-IsAllowed}
use blackstart.Mysql.Applied.{
  RunsGrants, set_grant-RunsGrants, reply, as_wanted, HasAccount, check_grant-as_wanted,
}

abbrev tricky : Account
tricky = record { user = "o'\\brien"; host = "%" }

sample_sql : account_sql tricky ≡ "'o''\\\\brien'@'%'"
unfolding account_sql Account.escape_string Text.double_char
sample_sql = refl

read_account-account_sql_example : read_account (account_sql tricky) ≡ some tricky
read_account-account_sql_example = read_account-account_sql tricky

abbrev connection : Value
connection = Value.opaque (GoType.pointer (GoType.named "sql.DB")) 7

abbrev context_with : List String → ModuleContext
context_with resources = record {
  input_values =
      ("connection", input_from_value connection)
      ∷ ("role", input_from_value (Value.string "app@db"))
      ∷ ("permission", input_from_value (Value.string "create  view"))
      ∷ ("scope", input_from_value (Value.string "table"))
      ∷ ("schema", input_from_value (Value.string " shop "))
      ∷ ("resource", input_from_value (Value.strings resources))
      ∷ [];
  output_values = [];
  dne = false;
  tainted = false;
}

abbrev sample_context : ModuleContext
sample_context = context_with ("orders" ∷ "or`ders" ∷ [])

abbrev grant_on : String → Grant
grant_on resource = record {
  role = "app@db";
  permission = "CREATE VIEW";
  schema = "shop";
  resource = resource;
  scope = on_table;
  all = false;
  with_grant_option = false;
}

abbrev sample_grants : List Grant
sample_grants = grant_on "orders" ∷ grant_on "or`ders" ∷ []

sample_expanded : expand_grants sample_context ≡ ok sample_grants
unfolding expand_grants input lookup is_static input_from_value Inputs.coerce_strings
    Inputs.non_empty Dimensions.normalize_required Text.trim_space Inputs.coerce_string
    Grant.string_to_scope Text.to_upper Inputs.coerce_bool Targets.normalize_scope_targets
    Dimensions.normalize_optional Inputs.context_input_as Targets.expand_all Targets.required_list
    Targets.optional_list read_expansion Grant.normalize_permission Text.join_fields each
    Targets.table_targets Targets.expand_permission Targets.expand_schema
sample_expanded = refl

sample_connected : setup_connection sample_context ≡ ok connection
unfolding setup_connection input lookup is_static input_from_value
sample_connected = refl

expand_grants-product-IsAllowed_example :
    (e : Expansion) × (read_expansion sample_context ≡ ok e)
    × (sample_grants ≡ product e)
    × All (IsAllowed e) sample_grants
expand_grants-product-IsAllowed_example =
    expand_grants-product-IsAllowed sample_context sample_grants sample_expanded

-- A database whose state is the list of statements that it has run.
abbrev log_database : (Query → List String → Bool) → Database Query (List String)
log_database answer = record {
  query = λ conn q params log. (reply (answer q params), log);
  exec = λ conn s log. (none, s ∷ log);
}

abbrev holds_for_orders : Query → List String → Bool
holds_for_orders q (account ∷ schema ∷ table ∷ rest) = table == "orders"
holds_for_orders q _ = false

-- The second identifier cannot be quoted: one statement has run when the error is found.
sample_set :
    set_targets (log_database holds_for_orders) false connection sample_grants []
    ≡ (err invalid_identifier, "GRANT CREATE VIEW ON `shop`.`orders` TO 'app'@'db'" ∷ [])
unfolding set_targets Statement.render_change Account.parse_account Account.account_of
    Account.validate_account_part Text.trim_space Text.contains_char Text.split_char
    Statement.grant_object_sql Account.quote_identifier Account.account_sql Account.escape_string
    Text.double_char
sample_set = refl

set_grant-RunsGrants_example :
    RunsGrants
      (log_database holds_for_orders)
      connection
      false
      sample_grants
      []
      (set_grant (log_database holds_for_orders) sample_context [])
set_grant-RunsGrants_example =
    set_grant-RunsGrants (log_database holds_for_orders) connection sample_context sample_grants []
      sample_connected sample_expanded

sample_account : parse_account "app@db" ≡ ok (record { user = "app"; host = "db" })
unfolding parse_account Account.account_of Account.validate_account_part Text.trim_space
    Text.contains_char Text.split_char
sample_account = refl

sample_accounts : All HasAccount sample_grants
sample_accounts = ((_, sample_account), ((_, sample_account), tt))

check_grant-as_wanted_example :
    check_grant (log_database holds_for_orders) sample_context []
    ≡ (ok (all_of (as_wanted holds_for_orders false) sample_grants), [])
check_grant-as_wanted_example =
    check_grant-as_wanted (log_database holds_for_orders) connection false holds_for_orders
      (λ q params w. refl) sample_context sample_grants [] refl sample_connected sample_expanded
      sample_accounts
