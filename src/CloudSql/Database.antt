-- ===== src/CloudSql/Database.antt =====
-- modules/google/cloudsql/database.go: the module `google_cloudsql_database`.
use Prim.Native.String.{◌++◌ as ◌append◌}
use blackstart.Prelude.{
  ℕ, String, Bool, true, false, not, ◌||◌, Option, none, some, [], ◌∷◌, ◌==◌, if◌then◌else◌,
}
use blackstart.Prelude.Dict.{lookup}
use blackstart.Text.{trim_space}
use blackstart.Values
use blackstart.Inputs.{string_target, input_as, context_input_as}
use blackstart.Inputs.Static.{both_none, missing_key}
use blackstart.Operation.{Operation, Input, is_static}
use blackstart.Module.{
  Error, Result, ok, err, ◌>>=◌, ModuleContext, empty_value, invalid_input, query_error,
  not_supported, not_supported_engine,
}
use blackstart.Module.Context.{output}
use blackstart.CloudSql.Names.{Engine, postgres, mysql, unknown, instance_engine}
use blackstart.CloudSql.Admin.{
  Google, Instance, ◌then_do◌, call, call_service, succeeded, current_project,
}

-- What the service answers to the question for a database; the status 404 is `absent`.
pub data Found : Type 0 where
  there absent : Found
  failed : Error → Found

-- The fields that the module sets in sqladmin.Database.
pub record NewDatabase : Type 0 where
  pub name : String
  pub project : String
  pub instance_name : String
  pub charset : String
  pub collation : String

-- The calls for databases.
pub record Databases (World : Type 0) : Type 0 where
  pub get_database : String → String → String → World → Found × World
  pub insert_database : String → String → NewDatabase → World → Result (Option ℕ) × World
  pub delete_database : String → String → String → World → Result (Option ℕ) × World

-- type database struct, with what the module keeps of its `connectionConfig`
pub record DatabaseConfig : Type 0 where
  pub project : String
  pub instance_name : String
  pub database : String
  pub region : String
  pub charset : String
  pub collation : String
  pub engine : Engine
  pub database_version : String
  pub identifier : String

abbrev pub filled_input : ModuleContext → String → Result String
filled_input ctx key = context_input_as string_target ctx key true >>= λ value.
    if value == "" then err (empty_value key) else ok value

-- The parts of `setup` before and after the project.
abbrev pub read_names : ModuleContext → Result (String × String × String)
read_names ctx = filled_input ctx "instance" >>= λ instance_name.
    filled_input ctx "database" >>= λ database.
    context_input_as string_target ctx "project" false >>= λ project.
    ok (instance_name, database, project)

abbrev pub read_options : ModuleContext → String × String × String → String → Result DatabaseConfig
read_options ctx (instance_name, database, given) project =
    context_input_as string_target ctx "region" false >>= λ region.
    context_input_as string_target ctx "charset" false >>= λ charset.
    context_input_as string_target ctx "collation" false >>= λ collation. ok (record {
      project = project;
      instance_name = instance_name;
      database = database;
      region = region;
      charset = charset;
      collation = collation;
      engine = unknown;
      database_version = "";
      identifier = "";
    })

abbrev pub has_text : String → Bool
has_text s = not (trim_space s == "")

-- The switch of `setup` on the engine.
abbrev pub supported : DatabaseConfig → Engine → Result DatabaseConfig
supported t postgres =
    if has_text t.charset || has_text t.collation then err (not_supported "charset") else ok t
supported t mysql = ok t
supported t _ = err not_supported_engine

abbrev pub of_instance : DatabaseConfig → Instance → DatabaseConfig
of_instance t i = record t {
  engine = instance_engine i.database_version;
  database_version = i.database_version;
  region = i.region;
  identifier = t.project append (":" append (i.region append (":" append t.instance_name)));
}

abbrev pub exists_of : {World : Type 0} → Found × World → Result Bool × World
exists_of (there, w) = (ok true, w)
exists_of (absent, w) = (ok false, w)
exists_of (failed e, w) = (err (query_error e), w)

abbrev pub new_database : DatabaseConfig → NewDatabase
new_database t = record {
  name = t.database;
  project = t.project;
  instance_name = t.instance_name;
  charset = if has_text t.charset then t.charset else "";
  collation = if has_text t.collation then t.collation else "";
}

abbrev emission : Option Error → Result Unit
emission none = ok tt
emission (some e) = err e

abbrev pub emit_database :
    {World : Type 0}
    → DatabaseConfig
    → ModuleContext
    → World
    → Result Unit × (ModuleContext × World)
emit_database t ctx w =
    let (e, ctx') = output "database" (Values.Value.string t.database) ctx in
    (emission e, (ctx', w))

abbrev pub in_context :
    {A World : Type 0} → ModuleContext → Result A × World → Result A × (ModuleContext × World)
in_context ctx (r, w) = (r, (ctx, w))

-- `Check` once it knows whether the database exists.
abbrev pub answer_database :
    {World : Type 0}
    → DatabaseConfig
    → Bool
    → Bool
    → ModuleContext
    → World
    → Result Bool × (ModuleContext × World)
answer_database t true exists ctx w = (ok (not exists), (ctx, w))
answer_database t false false ctx w = (ok false, (ctx, w))
answer_database t false true ctx w = emit_database t ctx w then_do λ _ s. (ok true, s)

module _ {World : Type 0} (google : Google World) (databases : Databases World) where
  abbrev pub project_of : String → World → Result String × World
  project_of given w = if given == "" then current_project google w else (ok given, w)

  -- (d *database) setup
  unfoldable pub setup_database : ModuleContext → World → Result DatabaseConfig × World
  unfolding current_project instance_engine
  setup_database ctx w = (read_names ctx, w) then_do λ names w1.
      project_of names.2 w1 then_do λ project w2.
      (read_options ctx names project, w2) then_do λ t w3.
      call_service (google.new_sql_admin_service w3) then_do λ _ w4.
      call (google.get_instance t.project t.instance_name w4) then_do λ i w5.
      (supported (of_instance t i) (instance_engine i.database_version), w5)

  -- (d *database) databaseExists
  unfoldable pub database_exists : DatabaseConfig → World → Result Bool × World
  database_exists t w = exists_of (databases.get_database t.project t.instance_name t.database w)

  -- (d *database) createDatabase
  unfoldable pub create_database : DatabaseConfig → World → Result Unit × World
  create_database t w =
      succeeded (databases.insert_database t.project t.instance_name (new_database t) w)

  -- (d *database) deleteDatabase
  unfoldable pub delete_database : DatabaseConfig → World → Result Unit × World
  delete_database t w = succeeded (databases.delete_database t.project t.instance_name t.database w)

  -- (d *database) Check
  unfoldable pub check_database : ModuleContext → World → Result Bool × (ModuleContext × World)
  unfolding setup_database database_exists output
  check_database ctx w = in_context ctx (setup_database ctx w) then_do λ t s1.
      in_context ctx (database_exists t s1.1) then_do λ exists s2.
      answer_database t ctx.dne exists ctx s2.1

  abbrev pub change_database :
      DatabaseConfig → Bool → ModuleContext → World → Result Unit × (ModuleContext × World)
  change_database t true ctx w = in_context ctx (delete_database t w)
  change_database t false ctx w =
      in_context ctx (create_database t w) then_do λ _ s. emit_database t ctx s.1

  -- (d *database) Set
  unfoldable pub set_database : ModuleContext → World → Result Unit × (ModuleContext × World)
  unfolding setup_database create_database delete_database output
  set_database ctx w =
      in_context ctx (setup_database ctx w) then_do λ t s. change_database t ctx.dne ctx s.1

abbrev text_error : String → Result String → Option Error
text_error key (err e) = some (invalid_input key e)
text_error key (ok value) = if value == "" then some (empty_value key) else none

abbrev optional_error : String → Result String → Option Error
optional_error key (err e) = some (invalid_input key e)
optional_error key (ok value) = none

-- validateStaticStringInput, for an input that is there
abbrev pub validate_static_string : String → Option Input → Option Error
validate_static_string key none = none
validate_static_string key (some i) =
    if is_static i then text_error key (input_as string_target i true) else none

-- validateOptionalStaticStringInput
abbrev pub validate_optional_static_string : String → Option Input → Option Error
validate_optional_static_string key none = none
validate_optional_static_string key (some i) =
    if is_static i then optional_error key (input_as string_target i false) else none

-- (d *database) Validate
unfoldable pub validate_database : Operation → Option Error
unfolding missing_key input_as
validate_database op = both_none (missing_key op ("instance" ∷ "database" ∷ [])) (
    both_none (validate_static_string "instance" (lookup "instance" op.inputs)) (
      both_none (validate_static_string "database" (lookup "database" op.inputs)) (
        both_none (validate_optional_static_string "charset" (lookup "charset" op.inputs))
          (validate_optional_static_string "collation" (lookup "collation" op.inputs)))))
