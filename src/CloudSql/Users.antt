-- ===== src/CloudSql/Users.antt =====
-- modules/google/cloudsql/user.go: what the module reads from the list of users of an instance.
use Prim.Native.Char.{Char}
use blackstart.Prelude.{
  String, Bool, true, false, not, ◌&&◌, ◌||◌, Option, none, some, List, [], ◌∷◌, ◌==◌,
  if◌then◌else◌,
}
use blackstart.Module.{Error, Result, ok, err, user_collision}
use blackstart.CloudSql.Names.{Engine, mysql, mysql_iam_user}

-- The fields of sqladmin.User that the module reads and writes.
pub record CloudUser : Type 0 where
  pub name : String
  pub type : String
  pub host : String
  pub password : String

abbrev pub is_mysql : Engine → Bool
is_mysql mysql = true
is_mysql _ = false

-- The loops of the functions below: the first user of a name, and whether there is one.
unfoldable pub type_is : List CloudUser → String → String → Bool
type_is [] name user_type = false
type_is (u ∷ us) name user_type =
    if u.name == name then u.type == user_type else type_is us name user_type

unfoldable pub has_user : List CloudUser → String → Bool
has_user [] name = false
has_user (u ∷ us) name = if u.name == name then true else has_user us name

unfoldable pub collision_in : List CloudUser → String → String → Option Error
collision_in [] name user_type = none
collision_in (u ∷ us) name user_type =
    if (u.name == name) && not (u.type == user_type)
    then some (user_collision name (if u.type == "" then "BUILT_IN" else u.type))
    else collision_in us name user_type

module _ (lower_other : Char → Char) where
  abbrev pub is_named : List CloudUser → String → Result String → Bool
  is_named users user_type (err e) = false
  is_named users user_type (ok name) = type_is users name user_type

  -- cloudSqlUserIsCorrect
  unfoldable pub cloud_sql_user_is_correct : List CloudUser → String → String → Engine → Bool
  unfolding type_is mysql_iam_user
  cloud_sql_user_is_correct users target_user user_type engine =
      if user_type == "BUILT_IN"
      then type_is users target_user ""
      else if is_mysql engine
      then is_named users user_type (mysql_iam_user lower_other target_user)
      else type_is users target_user user_type

  abbrev pub or_itself : String → Result String → String
  or_itself name (err e) = name
  or_itself name (ok local) = local

  -- cloudSqlUserExists, for a list that is there
  unfoldable pub cloud_sql_user_exists : List CloudUser → String → Engine → Bool
  unfolding has_user mysql_iam_user
  cloud_sql_user_exists users target_user engine = has_user users (
      if is_mysql engine
      then or_itself target_user (mysql_iam_user lower_other target_user)
      else target_user)

  abbrev pub collision_of : List CloudUser → String → Result String → Option Error
  collision_of users user_type (err e) = some e
  collision_of users user_type (ok name) = collision_in users name user_type

  -- validateMySQLUserCollision, for a list that is there
  unfoldable pub validate_mysql_user_collision :
      List CloudUser → String → String → Engine → Option Error
  unfolding collision_in mysql_iam_user
  validate_mysql_user_collision users target_user user_type engine =
      if not (is_mysql engine) || user_type == "BUILT_IN"
      then none
      else collision_of users user_type (mysql_iam_user lower_other target_user)
