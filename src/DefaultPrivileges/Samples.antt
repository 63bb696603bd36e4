-- ===== src/DefaultPrivileges/Samples.antt =====
-- Tests of the module `postgres_default_privileges`, and its theorems at a concrete operation.
use blackstart.Prelude.{
  String, true, false, none, some, if◌then◌else◌, List, [], ◌∷◌, map, All, ◌≡◌, refl, ◌==◌,
}
use blackstart.Text
use blackstart.Text.{all_of}
use blackstart.Values.{GoType, Value}
use blackstart.Inputs
use blackstart.Inputs.Static
use blackstart.Operation.{Input, is_static, input_from_value}
use blackstart.Module.{ok, err, query_error, module_error, ModuleContext}
use blackstart.Module.Loops.{each}
use blackstart.Module.Context.{input}
use blackstart.Prelude.Dict.{Dict, lookup}
use blackstart.Sql.{setup_connection, Runs}
use blackstart.Postgres.Identifier.{validate_quoted_identifier}
use blackstart.Postgres.Dimensions
use blackstart.DefaultPrivileges.Scope
use blackstart.DefaultPrivileges.Scope.{tables}
use blackstart.DefaultPrivileges.Catalog.{Tables, acl_holds, some_row_holds, Catalog}
use blackstart.DefaultPrivileges.Targets
use blackstart.DefaultPrivileges.Targets.{Target, expand_targets}
use blackstart.DefaultPrivileges.Statement.{build_statement}
use blackstart.DefaultPrivileges.Methods.{
  check_targets, check_default_privileges, set_default_privileges,
}
use blackstart.DefaultPrivileges.Expanded.{IsTarget, expand_targets-IsTarget}
use blackstart.DefaultPrivileges.NoSchema.{check_default_privileges-no_schema}
use blackstart.DefaultPrivileges.Applied.{
  wanted_statement, set_default_privileges-Runs, as_wanted, check_default_privileges-as_wanted,
  check_targets-spelling,
}

abbrev connection : Value
connection = Value.opaque (GoType.pointer (GoType.named "sql.DB")) 7

abbrev context_with : Dict Input → ModuleContext
context_with schema = record {
  input_values =
      ("connection", input_from_value connection)
      ∷ ("role", input_from_value (Value.string "public"))
      ∷ ("permission", input_from_value (Value.string "select"))
      ∷ ("scope", input_from_value (Value.string "tables"))
      ∷ schema;
  output_values = [];
  dne = false;
  tainted = false;
}

abbrev sample_context : ModuleContext
sample_context = context_with (("schema", input_from_value (Value.string " shop ")) ∷ [])

abbrev no_schema_context : ModuleContext
no_schema_context = context_with []

abbrev sample_target : Target
sample_target = record {
  scope = tables;
  owner_role = "owner";
  schema = "shop";
  grantee = "public";
  permission = "SELECT";
  check_permissions = "SELECT" ∷ [];
  with_grant_option = false;
  revoke_mode = "RESTRICT";
}

abbrev no_schema_target : Target
no_schema_target = record sample_target { schema = "" }

-- Tables with a privilege of every role on the tables in the schema `shop`, and one on those in no
-- schema, for which PostgreSQL keeps a zero.
abbrev sample_tables : Tables
sample_tables = record {
  default_acls =
      record {
        role = 5;
        object_type = "r";
        namespace = some 3;
        acl = record { grantee = 10; privilege_type = "SELECT"; is_grantable = false } ∷ [];
      }
      ∷ record {
        role = 5;
        object_type = "r";
        namespace = some 0;
        acl = record { grantee = 10; privilege_type = "SELECT"; is_grantable = false } ∷ [];
      }
      ∷ [];
  role_number = λ name. if name == "owner" then some 5 else none;
  schema_number = λ name. if name == "shop" then some 3 else none;
}

-- A database whose state is the list of statements that it has run.
abbrev sample_catalog : Catalog (List String)
sample_catalog = record {
  current_user = λ conn log. (ok "owner", log);
  role_oid = λ conn g log. (ok 10, log);
  tables = λ conn log. (ok sample_tables, log);
  exec = λ conn s log. (none, s ∷ log);
}

sample_expanded :
    expand_targets sample_catalog connection sample_context [] ≡ (ok (sample_target ∷ []), [])
unfolding expand_targets input lookup is_static input_from_value Inputs.coerce_strings
    Inputs.non_empty Text.trim_space Inputs.coerce_string Text.to_upper Inputs.coerce_bool
    Dimensions.normalize_optional Inputs.context_input_as Targets.read_request Targets.read_lists
    Targets.read_expansion Scope.parse_scope Text.replace_char Scope.normalize_revoke_mode each
    Scope.validate_grantee Text.equal_fold Scope.permission_token Scope.validate_permission
    Text.contains_char validate_quoted_identifier Static.first_error Targets.expand_all
    Scope.expand_check_permissions
sample_expanded = refl

no_schema_expanded :
    expand_targets sample_catalog connection no_schema_context [] ≡ (ok (no_schema_target ∷ []), [])
unfolding expand_targets input lookup is_static input_from_value Inputs.coerce_strings
    Inputs.non_empty Text.trim_space Inputs.coerce_string Text.to_upper Inputs.coerce_bool
    Dimensions.normalize_optional Inputs.context_input_as Targets.read_request Targets.read_lists
    Targets.read_expansion Scope.parse_scope Text.replace_char Scope.normalize_revoke_mode each
    Scope.validate_grantee Text.equal_fold Scope.permission_token Scope.validate_permission
    Text.contains_char validate_quoted_identifier Static.first_error Targets.expand_all
    Scope.expand_check_permissions
no_schema_expanded = refl

sample_connected : setup_connection sample_context ≡ ok connection
unfolding setup_connection input lookup is_static input_from_value
sample_connected = refl

no_schema_connected : setup_connection no_schema_context ≡ ok connection
unfolding setup_connection input lookup is_static input_from_value
no_schema_connected = refl

sample_statement :
    build_statement sample_target false
    ≡ "ALTER DEFAULT PRIVILEGES FOR ROLE \"owner\" IN SCHEMA \"shop\" GRANT SELECT ON TABLES TO PUBLIC;"
unfolding build_statement Scope.quote_role_or_public Text.equal_fold Text.trim_space
sample_statement = refl

expand_targets-IsTarget_example : All IsTarget (sample_target ∷ [])
expand_targets-IsTarget_example =
    expand_targets-IsTarget sample_catalog connection sample_context (sample_target ∷ []) [] []
      sample_expanded

set_default_privileges-Runs_example :
    Runs
      (sample_catalog.exec connection)
      (map (wanted_statement false) (sample_target ∷ []))
      []
      (set_default_privileges sample_catalog sample_context [])
set_default_privileges-Runs_example =
    set_default_privileges-Runs sample_catalog connection sample_context (sample_target ∷ []) [] []
      sample_connected sample_expanded

sample_held : as_wanted (λ g. 10) (acl_holds sample_tables) false sample_target ≡ true
unfolding some_row_holds
sample_held = refl

check_default_privileges-as_wanted_example :
    check_default_privileges sample_catalog sample_context []
    ≡ (ok (all_of (as_wanted (λ g. 10) (acl_holds sample_tables) false) (sample_target ∷ [])), [])
check_default_privileges-as_wanted_example =
    check_default_privileges-as_wanted sample_catalog connection (λ g. 10) sample_tables
      (λ g w. refl) (λ w. refl) sample_context (sample_target ∷ []) [] [] sample_connected
      sample_expanded

check_default_privileges-no_schema_example :
    check_default_privileges sample_catalog no_schema_context [] ≡ (ok false, [])
check_default_privileges-no_schema_example =
    check_default_privileges-no_schema sample_catalog connection (λ g. 10) sample_tables
      (λ g w. refl) (λ w. refl) no_schema_context no_schema_target [] "SELECT" [] [] []
      no_schema_connected no_schema_expanded (refl, (refl, tt)) refl refl refl refl

-- A database that has no roles.
abbrev no_roles : Catalog (List String)
no_roles = record {
  current_user = λ conn log. (ok "owner", log);
  role_oid = λ conn g log. (err (module_error 1), log);
  tables = λ conn log. (ok sample_tables, log);
  exec = λ conn s log. (none, s ∷ log);
}

sample_spelling : Scope.is_public "public" ≡ true
unfolding Text.equal_fold Text.trim_space
sample_spelling = refl

check_targets-spelling_example :
    (build_statement sample_target false
      ≡ build_statement (record sample_target { grantee = "PUBLIC" }) false)
    × (check_targets no_roles false connection (sample_target ∷ []) []
        ≡ (err (query_error (module_error 1)), []))
check_targets-spelling_example =
    check_targets-spelling no_roles connection false sample_target "SELECT" [] [] (module_error 1)
      [] [] sample_spelling refl refl refl
