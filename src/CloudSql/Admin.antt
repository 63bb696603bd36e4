-- ===== src/CloudSql/Admin.antt =====
-- modules/google/cloudsql and modules/google/cloud: what the code asks of Google Cloud, as a parameter,
-- and the configuration of a connection.
use Prim.Native.String.{◌++◌ as ◌append◌}
use blackstart.Prelude.{
  ℕ, String, Bool, true, false, not, ◌&&◌, ◌||◌, Option, none, some, List, [], ◌∷◌, leb, ltb, ◌==◌,
  if◌then◌else◌,
}
use blackstart.Text.{equal_fold}
use blackstart.Inputs.{string_target, context_input_as}
use blackstart.Module.{
  Error, Result, ok, err, ◌>>=◌, ModuleContext, empty_value, query_error, not_found,
  not_supported_engine, iam_not_enabled, empty_response, bad_status,
}
use blackstart.CloudSql.Names.{
  Engine, mysql, sqlserver, unknown, instance_engine, mysql_iam_user_supported,
}
use blackstart.CloudSql.Users.{CloudUser}

-- A flag of an instance, and what the code reads of sqladmin.DatabaseInstance; nil settings and nil
-- flags are `none`.
pub record DatabaseFlag : Type 0 where
  pub name : String
  pub value : String

pub record Instance : Type 0 where
  pub database_version : String
  pub region : String
  pub flags : Option (List (Option DatabaseFlag))

-- Google Cloud: the project of the environment, the default credentials by the project that they name,
-- the Cloud SQL Admin service, and its calls. An insertion or deletion answers with a status code, or
-- with nothing.
pub record Google (World : Type 0) : Type 0 where
  pub project_env : String
  pub default_credentials : World → Result String × World
  pub new_sql_admin_service : World → Option Error × World
  pub get_instance : String → String → World → Result Instance × World
  pub list_users : String → String → World → Result (List CloudUser) × World
  pub insert_user : String → String → CloudUser → World → Result (Option ℕ) × World
  pub delete_user : String → String → String → Option String → World → Result (Option ℕ) × World

-- The next step of a function that may have returned an error.
infixl 4 ◌then_do◌
abbrev pub ◌then_do◌ :
    {A B World : Type 0} → Result A × World → (A → World → Result B × World) → Result B × World
(err e, w) then_do next = (err e, w)
(ok a, w) then_do next = next a w

-- A call whose error is wrapped.
abbrev pub call : {A World : Type 0} → Result A × World → Result A × World
call (err e, w) = (err (query_error e), w)
call (ok a, w) = (ok a, w)

abbrev pub call_service : {World : Type 0} → Option Error × World → Result Unit × World
call_service (some e, w) = (err (query_error e), w)
call_service (none, w) = (ok tt, w)

-- The checks of a response in `createUser` and `deleteUser`.
abbrev pub is_success : Option ℕ → Result Unit
is_success none = err empty_response
is_success (some status) =
    if ltb status 200 || leb 300 status then err (bad_status status) else ok tt

abbrev pub succeeded : {World : Type 0} → Result (Option ℕ) × World → Result Unit × World
succeeded (err e, w) = (err e, w)
succeeded (ok response, w) = (is_success response, w)

-- ProjectIdFromCredentials
abbrev pub project_id_from_credentials : String → Result String
project_id_from_credentials project =
    if project == "" then err (not_found "project") else ok project

-- type connectionConfig struct; `database` and `creds` are not used by the modelled methods
pub record ConnectionConfig : Type 0 where
  pub instance_name : String
  pub project : String
  pub region : String
  pub engine : Engine
  pub database_version : String
  pub user : String
  pub password : String
  pub user_type : String
  pub identifier : String

abbrev flag_enables : Option DatabaseFlag → Bool
flag_enables none = false
flag_enables (some flag) =
    (equal_fold flag.name "cloudsql.iam_authentication"
      || equal_fold flag.name "cloudsql_iam_authentication")
    && equal_fold flag.value "on"

unfoldable pub some_flag_enables : List (Option DatabaseFlag) → Bool
some_flag_enables [] = false
some_flag_enables (f ∷ fs) = flag_enables f || some_flag_enables fs

-- instanceIamAuthenticationEnabled
unfoldable pub instance_iam_authentication_enabled : Instance → Bool
unfolding some_flag_enables
instance_iam_authentication_enabled i = elim i.flags [
  | none ↦ false
  | some flags ↦ some_flag_enables flags
]

abbrev password_input : ModuleContext → String → Result String
password_input ctx user_type =
    if user_type == "BUILT_IN" then context_input_as string_target ctx "password" true else ok ""

abbrev or_empty : Result String → String
or_empty (err e) = ""
or_empty (ok s) = s

-- The part of `createTargetConnectionConfig` before the project.
unfoldable pub read_config : ModuleContext → Result ConnectionConfig
read_config ctx = context_input_as string_target ctx "user" true >>= λ user.
    if user == ""
    then err (empty_value "user")
    else context_input_as string_target ctx "user_type" true >>= λ user_type.
        password_input ctx user_type >>= λ password.
        context_input_as string_target ctx "instance" true >>= λ instance_name.
        if instance_name == ""
        then err (empty_value "instance")
        else ok (record {
          instance_name = instance_name;
          project = or_empty (context_input_as string_target ctx "project" false);
          region = or_empty (context_input_as string_target ctx "region" false);
          engine = unknown;
          database_version = "";
          user = user;
          password = password;
          user_type = user_type;
          identifier = "";
        })

-- The fields that `setup` takes from the instance.
abbrev pub with_instance : ConnectionConfig → Instance → ConnectionConfig
with_instance t i = record t {
  engine = instance_engine i.database_version;
  database_version = i.database_version;
  region = i.region;
  identifier = t.project append (":" append (i.region append (":" append t.instance_name)));
}

abbrev has_users : Engine → Bool
has_users sqlserver = false
has_users unknown = false
has_users _ = true

abbrev version_supported : Engine → String → Bool
version_supported mysql version = mysql_iam_user_supported version
version_supported _ version = true

-- The checks of `setup`.
unfoldable pub check_instance : ConnectionConfig → Instance → Result ConnectionConfig
unfolding instance_engine mysql_iam_user_supported instance_iam_authentication_enabled
check_instance t i =
    if not (has_users (instance_engine i.database_version))
    then err not_supported_engine
    else if not (version_supported (instance_engine i.database_version) i.database_version)
    then err not_supported_engine
    else if not (instance_iam_authentication_enabled i)
    then err iam_not_enabled
    else ok (with_instance t i)

module _ {World : Type 0} (google : Google World) where
  -- CurrentProject
  unfoldable pub current_project : World → Result String × World
  current_project w =
      if google.project_env == ""
      then (google.default_credentials w then_do λ project w'.
          (project_id_from_credentials project, w'))
      else (ok google.project_env, w)

  -- createTargetConnectionConfig
  unfoldable pub create_target_connection_config :
      ModuleContext → World → Result ConnectionConfig × World
  unfolding read_config current_project
  create_target_connection_config ctx w = (read_config ctx, w) then_do λ t w1.
      if t.project == ""
      then (current_project w1 then_do λ project w2. (ok (record t { project = project }), w2))
      else (ok t, w1)

  -- (c *user) setup
  unfoldable pub setup : ModuleContext → World → Result ConnectionConfig × World
  unfolding create_target_connection_config check_instance
  setup ctx w = create_target_connection_config ctx w then_do λ t w1.
      call_service (google.new_sql_admin_service w1) then_do λ _ w2.
      call (google.get_instance t.project t.instance_name w2) then_do λ i w3.
      (check_instance t i, w3)
