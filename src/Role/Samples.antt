-- ===== src/Role/Samples.antt =====
-- Tests of the module `postgres_role`, and its theorems at a concrete operation.
use blackstart.Prelude.{String, List, true, false, none, some, [], ◌∷◌, ◌≡◌, refl, ◌==◌}
use blackstart.Values.{GoType, Value}
use blackstart.Inputs
use blackstart.Operation.{is_static, input_from_value}
use blackstart.Module.{ok, err, ModuleContext}
use blackstart.Module.Context.{input}
use blackstart.Prelude.Dict.{lookup}
use blackstart.Postgres.Identifier.{validate_quoted_identifier}
use blackstart.Role.Statement.{Role, create, update, change_text}
use blackstart.Role.Methods
use blackstart.Role.Methods.{
  RoleModule, RoleDatabase, new_postgres_role, create_target_role, nil_pointer, check_role,
  set_role,
}
use blackstart.Role.Settled.{new_postgres_role-panic}

abbrev connection : Value
connection = Value.opaque (GoType.pointer (GoType.named "sql.DB")) 7

abbrev sample_context : ModuleContext
sample_context = record {
  input_values =
      ("connection", input_from_value connection)
      ∷ ("name", input_from_value (Value.string "app"))
      ∷ ("create_db", input_from_value (Value.bool true))
      ∷ [];
  output_values = [];
  dne = false;
  tainted = false;
}

abbrev app : Role
app = record {
  name = "app";
  create_db = true;
  create_role = false;
  inherit = true;
  login = true;
  replication = false;
}

sample_text :
    change_text create app
    ≡ "CREATE ROLE \"app\" WITH LOGIN INHERIT CREATEDB NOCREATEROLE NOREPLICATION ;"
unfolding change_text
sample_text = refl

sample_target :
    (r : RoleModule) → create_target_role r sample_context ≡ ok (record r { target = some app })
unfolding create_target_role input lookup is_static input_from_value Methods.read_target
    Inputs.coerce_string Inputs.coerce_bool Inputs.context_input_as Inputs.input_as
    validate_quoted_identifier
sample_target r = refl

-- A server with the one role `app`, whose state is the list of statements that it has run.
abbrev small_server : RoleDatabase (List String)
small_server = record {
  role_exists = λ conn name log. (ok (name == "app"), log);
  role_has_options = λ conn role log. (ok true, log);
  exec = λ conn s log. (none, s ∷ log);
}

-- With its fields filled in, the module would change the role.
sample_set :
    set_role small_server
      (record { does_not_exist = some false; db = some connection; target = some app })
      []
    ≡ (ok tt, change_text update app ∷ [])
unfolding set_role Methods.check_role_exists Methods.change_role
sample_set = refl

new_postgres_role-panic_example :
    (check_role small_server new_postgres_role sample_context [] ≡ (err nil_pointer, []))
    × (set_role small_server new_postgres_role [] ≡ (err nil_pointer, []))
new_postgres_role-panic_example =
    new_postgres_role-panic small_server sample_context [] _ (sample_target new_postgres_role)
