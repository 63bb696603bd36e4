-- ===== src/Postgres/Samples.antt =====
-- Tests of the module `postgres_grant`, and its theorems at a concrete operation.
use blackstart.Prelude.{
  String, Bool, true, false, Option, none, some, List, [], ◌∷◌, map, All, ◌≡◌, refl, ◌==◌,
}
use blackstart.Text
use blackstart.Text.{all_of}
use blackstart.Values.{GoType, Value}
use blackstart.Inputs
use blackstart.Operation.{is_static, input_from_value}
use blackstart.Module.{ok, ModuleContext}
use blackstart.Module.Loops.{each}
use blackstart.Module.Context.{input}
use blackstart.Prelude.Dict.{lookup}
use blackstart.Postgres.Identifier.{validate_quoted_identifier}
use blackstart.Postgres.Grant
use blackstart.Postgres.Grant.{Scope, Grant}
use blackstart.Postgres.Dimensions
use blackstart.Postgres.Targets
use blackstart.Postgres.Targets.{Expansion, expand_grants, read_expansion}
use blackstart.Postgres.Statement.{get_grant_set_query}
use blackstart.Postgres.QueryText.{Query}
use blackstart.Sql.{Database, setup_connection, Runs}
use blackstart.Postgres.GrantModule.{set_grant, check_grant}
use blackstart.Postgres.Valid.{IsTarget}
use blackstart.Postgres.Expanded.{product, expand_grants-IsTarget, expand_grants-product}
use blackstart.Postgres.Given.{statement}
use blackstart.Postgres.Applied.{set_grant-Runs, reply, as_wanted, check_grant-eq}

abbrev connection : Value
connection = Value.opaque (GoType.pointer (GoType.named "sql.DB")) 7

abbrev sample_context : ModuleContext
sample_context = record {
  input_values =
      ("connection", input_from_value connection)
      ∷ ("role", input_from_value (Value.strings ("app" ∷ " reporting " ∷ [])))
      ∷ ("permission", input_from_value (Value.string "select"))
      ∷ ("scope", input_from_value (Value.string "table"))
      ∷ ("resource", input_from_value (Value.string "orders"))
      ∷ ("with_grant_option", input_from_value (Value.bool true))
      ∷ [];
  output_values = [];
  dne = false;
  tainted = false;
}

abbrev grant_for : String → Grant
grant_for role = record {
  role = role;
  permission = "SELECT";
  schema = "public";
  resource = "orders";
  scope = "TABLE";
  all = false;
  with_grant_option = true;
}

abbrev sample_grants : List Grant
sample_grants = grant_for "app" ∷ grant_for "reporting" ∷ []

sample_expanded : expand_grants sample_context ≡ ok sample_grants
unfolding expand_grants input lookup is_static input_from_value Inputs.coerce_strings
    Inputs.non_empty Dimensions.normalize_required Text.trim_space Targets.read_optional_list
    Inputs.coerce_string Grant.string_to_scope Text.to_upper Targets.scope_value Inputs.coerce_bool
    Dimensions.normalize_scope_targets Dimensions.normalize_optional
    Grant.supports_with_grant_option Inputs.context_input_as Targets.expansion_of Targets.expand_all
    Grant.validate_principal Grant.supports_all read_expansion validate_quoted_identifier
    Grant.validate_resource Grant.normalize_permission Text.contains_char each
sample_expanded = refl

sample_connected : setup_connection sample_context ≡ ok connection
unfolding setup_connection input lookup is_static input_from_value
sample_connected = refl

sample_statement :
    get_grant_set_query (grant_for "app")
    ≡ ok "GRANT SELECT ON TABLE \"public\".\"orders\" TO \"app\" WITH GRANT OPTION;"
unfolding get_grant_set_query Grant.string_to_scope Text.to_upper Grant.normalize_permission
    Text.trim_space Text.trim_suffix_char
sample_statement = refl

expand_grants-IsTarget_example : (sc : Scope) × All (IsTarget sc) sample_grants
expand_grants-IsTarget_example = expand_grants-IsTarget sample_context sample_grants sample_expanded

expand_grants-product_example :
    (e : Expansion) × (read_expansion sample_context ≡ ok e) × (sample_grants ≡ product e)
expand_grants-product_example = expand_grants-product sample_context sample_grants sample_expanded

-- A database whose state is the list of statements that it has run.
abbrev log_database : (Query → List String → Option Bool) → Database Query (List String)
log_database answer = record {
  query = λ conn q params log. (reply (answer q params), log);
  exec = λ conn s log. (none, s ∷ log);
}

abbrev holds_for_app : Query → List String → Option Bool
holds_for_app q [] = none
holds_for_app q (p ∷ []) = some false
holds_for_app q (p ∷ role ∷ rest) = some (role == "app")

set_grant-Runs_example :
    (sc : Scope) × Runs
      ((log_database holds_for_app).exec connection)
      (map (statement false sc) sample_grants)
      []
      (set_grant (log_database holds_for_app) sample_context [])
set_grant-Runs_example =
    set_grant-Runs (log_database holds_for_app) connection sample_context sample_grants []
      sample_connected sample_expanded

check_grant-eq_example :
    check_grant (log_database holds_for_app) sample_context []
    ≡ (ok (all_of (as_wanted holds_for_app false) sample_grants), [])
check_grant-eq_example =
    check_grant-eq (log_database holds_for_app) connection holds_for_app (λ q params w. refl)
      sample_context sample_grants [] sample_connected sample_expanded
