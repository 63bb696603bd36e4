-- ===== src/CloudSql/Samples.antt =====
-- Tests of the module `google_cloudsql_user`, and its theorems at concrete inputs.
use Prim.Native.Char.{Char}
use blackstart.Prelude.{
  ℕ, suc, String, true, false, none, some, List, [], ◌∷◌, ◌≡◌, refl, ◌==◌, Bool, zero,
}
use blackstart.Text
use blackstart.Text.{trim_space, has_suffix, contains_char}
use blackstart.Values.{Value}
use blackstart.Inputs
use blackstart.Operation.{is_static, input_from_value}
use blackstart.Module.{ok, ModuleContext}
use blackstart.Module.Context
use blackstart.Module.Context.{input}
use blackstart.Prelude.Dict.{lookup, has}
use blackstart.Prelude.Dict
use blackstart.CloudSql.Names
use blackstart.CloudSql.Names.{
  Engine, postgres, mysql, mysql_iam_user, mysql_iam_user_supported, normalize_service_account,
}
use blackstart.CloudSql.Users
use blackstart.CloudSql.Users.{
  CloudUser, has_user, cloud_sql_user_exists, cloud_sql_user_is_correct,
  validate_mysql_user_collision,
}
use blackstart.CloudSql.Admin
use blackstart.CloudSql.Admin.{Google, ConnectionConfig, Instance}
use blackstart.CloudSql.Methods
use blackstart.CloudSql.Methods.{
  is_as_wanted, user_of, create_user, insert_user, delete_user, check_user,
}
use blackstart.CloudSql.Laws.{is_as_wanted-exclusive, validate_mysql_user_collision-agree}
use blackstart.CloudSql.Database
use blackstart.CloudSql.Database.{
  Found, there, absent, Databases, DatabaseConfig, setup_database, check_database, set_database,
}
use blackstart.CloudSql.Ready.{IsReady, setup_database-IsReady}
use blackstart.CloudSql.Identity.{IsCut, mysql_iam_user-IsCut, normalize_service_account-has_suffix}

abbrev same : Char → Char
same c = c

sample_version : mysql_iam_user_supported " mysql_5_7" ≡ true
unfolding mysql_iam_user_supported Names.mysql_version_numbers Text.split_char Text.to_upper
    trim_space Text.atoi
sample_version = refl

old_version : mysql_iam_user_supported "MYSQL_5_6" ≡ false
unfolding mysql_iam_user_supported Names.mysql_version_numbers Text.split_char Text.to_upper
    trim_space Text.atoi
old_version = refl

abbrev full_name : String
full_name = "app@proj.iam.gserviceaccount.com"

sample_name : normalize_service_account full_name "" ≡ ok "app@proj.iam"
unfolding normalize_service_account trim_space has_suffix Text.trim_suffix
sample_name = refl

normalize_service_account-has_suffix_example : has_suffix ".iam" "app@proj.iam" ≡ true
normalize_service_account-has_suffix_example =
    normalize_service_account-has_suffix full_name "" "app@proj.iam" sample_name

sample_local : mysql_iam_user same " app@proj.iam " ≡ ok "app"
unfolding mysql_iam_user trim_space Names.to_lower Text.before_char
sample_local = refl

mysql_iam_user-IsCut_example :
    IsCut 64 (trim_space " app@proj.iam ") "app" × (("app" == "") ≡ false)
mysql_iam_user-IsCut_example = mysql_iam_user-IsCut same " app@proj.iam " "app" sample_local

abbrev config : Engine → ConnectionConfig
config engine = record {
  instance_name = "main";
  project = "proj";
  region = "r";
  engine = engine;
  database_version = "";
  user = full_name;
  password = "";
  user_type = "CLOUD_IAM_SERVICE_ACCOUNT";
  identifier = "";
}

abbrev user_named : String → CloudUser
user_named name = record {
  name = name;
  type = "CLOUD_IAM_SERVICE_ACCOUNT";
  host = "";
  password = "";
}

abbrev listed : List CloudUser
listed = user_named "app@proj.iam" ∷ user_named "app" ∷ []

sample_wanted : is_as_wanted same false (config postgres) (user_named "app@proj.iam") listed ≡ true
unfolding is_as_wanted cloud_sql_user_is_correct Users.type_is
sample_wanted = refl

is_as_wanted-exclusive_example :
    is_as_wanted same true (config postgres) (user_named "app@proj.iam") listed ≡ false
is_as_wanted-exclusive_example =
    is_as_wanted-exclusive same (config postgres) (user_named "app@proj.iam") listed refl
      sample_wanted

sample_collision :
    validate_mysql_user_collision same listed "app@proj.iam" "CLOUD_IAM_SERVICE_ACCOUNT" mysql
    ≡ none
unfolding validate_mysql_user_collision mysql_iam_user trim_space Names.to_lower Text.before_char
    Users.collision_in
sample_collision = refl

validate_mysql_user_collision-agree_example :
    cloud_sql_user_is_correct same listed "app@proj.iam" "CLOUD_IAM_SERVICE_ACCOUNT" mysql
    ≡ cloud_sql_user_exists same listed "app@proj.iam" mysql
validate_mysql_user_collision-agree_example =
    validate_mysql_user_collision-agree same listed "app@proj.iam" "CLOUD_IAM_SERVICE_ACCOUNT" refl
      sample_collision

-- Google Cloud with one instance, whose state counts the calls that change it.
abbrev small_cloud : Google ℕ
small_cloud = record {
  project_env = "proj";
  default_credentials = λ w. (ok "proj", w);
  new_sql_admin_service = λ w. (none, w);
  get_instance = λ project name w. (
    ok (record {
      database_version = "POSTGRES_16";
      region = "r";
      flags = some (some (record { name = "cloudsql.iam_authentication"; value = "On" }) ∷ []);
    }),
    w,
  );
  list_users = λ project name w. (ok listed, w);
  insert_user = λ project name u w. (ok (some 200), suc w);
  delete_user = λ project name u host w. (ok (some 200), suc w);
}

-- The service account is given by its full address, and the list has it under the name that the code
-- makes of it.
sample_user : user_of (config postgres) ≡ ok (user_named "app@proj.iam")
unfolding user_of normalize_service_account has_suffix Text.trim_suffix trim_space
sample_user = refl

sample_there : has_user listed "app@proj.iam" ≡ true
unfolding has_user
sample_there = refl

-- `createUser` makes one change: it inserts the user without deleting the one that is there.
sample_create :
    create_user same small_cloud (config postgres) (user_named "app@proj.iam") 0 ≡ (ok tt, 1)
unfolding create_user validate_mysql_user_collision cloud_sql_user_exists has_user
    Methods.replace_user insert_user delete_user
sample_create = refl

abbrev sample_context : ModuleContext
sample_context = record {
  input_values =
      ("instance", input_from_value (Value.string "main"))
      ∷ ("user", input_from_value (Value.string full_name))
      ∷ ("user_type", input_from_value (Value.string "CLOUD_IAM_SERVICE_ACCOUNT"))
      ∷ [];
  output_values = [];
  dne = false;
  tainted = false;
}

-- `Check` finds the user and gives out its name.
sample_check : check_user same small_cloud sample_context 0 ≡ (
  ok true,
  (record sample_context { output_values = ("user", Value.string "app@proj.iam") ∷ [] }, 0),
)
unfolding check_user Admin.setup Admin.create_target_connection_config Admin.read_config input
    lookup is_static input_from_value Inputs.context_input_as Inputs.coerce_string
    Admin.current_project Admin.check_instance Names.instance_engine Names.mysql_iam_user_supported
    Admin.instance_iam_authentication_enabled Text.equal_fold Methods.user_of
    normalize_service_account has_suffix Text.trim_suffix trim_space validate_mysql_user_collision
    is_as_wanted cloud_sql_user_is_correct Users.type_is Methods.database_username Context.output
    Text.to_upper Text.has_prefix Dict.insert
sample_check = refl

abbrev there_in : ℕ → Bool
there_in zero = false
there_in (suc n) = true

abbrev found_if : Bool → Found
found_if true = there
found_if false = absent

-- A service for one database, whose state is the number of databases.
abbrev small_databases : Databases ℕ
small_databases = record {
  get_database = λ project name database w. (found_if (there_in w), w);
  insert_database = λ project name d w. (ok (some 200), 1);
  delete_database = λ project name database w. (ok (some 200), 0);
}

abbrev database_context : ModuleContext
database_context = record {
  input_values =
      ("instance", input_from_value (Value.string "main"))
      ∷ ("database", input_from_value (Value.string "app"))
      ∷ [];
  output_values = [];
  dne = false;
  tainted = false;
}

abbrev database_config : DatabaseConfig
database_config = record {
  project = "proj";
  instance_name = "main";
  database = "app";
  region = "r";
  charset = "";
  collation = "";
  engine = postgres;
  database_version = "POSTGRES_16";
  identifier = "proj:r:main";
}

sample_setup :
    (w : ℕ)
    → setup_database small_cloud small_databases database_context w ≡ (ok database_config, w)
unfolding setup_database input lookup is_static input_from_value Inputs.context_input_as
    Inputs.coerce_string Admin.current_project Names.instance_engine Text.to_upper Text.has_prefix
    trim_space
sample_setup w = refl

-- A new database is given out, and `Check` finds it.
sample_database : (set_database small_cloud small_databases database_context 0).0 ≡ ok tt
unfolding set_database setup_database input lookup is_static input_from_value
    Inputs.context_input_as Inputs.coerce_string Admin.current_project Names.instance_engine
    Text.to_upper Text.has_prefix trim_space Database.create_database Context.output Dict.insert
sample_database = refl

setup_database-IsReady_example : IsReady database_config
setup_database-IsReady_example =
    setup_database-IsReady small_cloud small_databases database_context database_config 0 0
      (sample_setup 0)
