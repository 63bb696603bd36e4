-- ===== src/CloudSql/Methods.antt =====
-- modules/google/cloudsql/user.go: the methods of the module `google_cloudsql_user`.
use Prim.Native.Char.{Char}
use blackstart.Prelude.{
  String, Bool, true, false, not, ◌&&◌, Option, none, some, List, [], ◌∷◌, ◌==◌, if◌then◌else◌,
}
use blackstart.Prelude.Dict.{lookup}
use blackstart.Text.{to_upper}
use blackstart.Values
use blackstart.Inputs.{string_target, input_as}
use blackstart.Inputs.Static.{both_none, missing_key}
use blackstart.Operation.{Operation, Input, is_static}
use blackstart.Module.{
  Error, Result, ok, err, ◌>>=◌, ModuleContext, invalid_input, invalid_user_type,
}
use blackstart.Module.Context.{output}
use blackstart.CloudSql.Names.{normalize_service_account, mysql_iam_user}
use blackstart.CloudSql.Users.{
  CloudUser, is_mysql, cloud_sql_user_is_correct, cloud_sql_user_exists,
  validate_mysql_user_collision,
}
use blackstart.CloudSql.Admin.{Google, ◌then_do◌, call, succeeded, ConnectionConfig, setup}

abbrev type_error : Result String → Option Error
type_error (err e) = some (invalid_input "user_type" e)
type_error (ok value) =
    if to_upper value == "CLOUD_IAM_USER"
    then none
    else if to_upper value == "CLOUD_IAM_SERVICE_ACCOUNT"
    then none
    else some (invalid_user_type (to_upper value))

abbrev type_input : Option Input → Option Error
type_input none = none
type_input (some i) = if is_static i then type_error (input_as string_target i true) else none

-- (c *user) Validate
unfoldable pub validate_user : Operation → Option Error
unfolding missing_key input_as
validate_user op =
    both_none (missing_key op ("instance" ∷ "user" ∷ "user_type" ∷ []))
      (type_input (lookup "user_type" op.inputs))

abbrev sql_user : ConnectionConfig → String → CloudUser
sql_user t username = record {
  name = username;
  type = t.user_type;
  host = if t.user_type == "BUILT_IN" && is_mysql t.engine then "%" else "";
  password = if t.user_type == "BUILT_IN" then t.password else "";
}

-- (c *user) user, for a target that is set up
unfoldable pub user_of : ConnectionConfig → Result CloudUser
unfolding normalize_service_account
user_of t =
    if t.user_type == "CLOUD_IAM_SERVICE_ACCOUNT" && not (is_mysql t.engine)
    then (normalize_service_account t.user t.project >>= λ username. ok (sql_user t username))
    else ok (sql_user t t.user)

abbrev error_result : Option Error → Result Unit
error_result none = ok tt
error_result (some e) = err e

-- What `Output` does, in the state that the methods pass on: the context and the world.
abbrev emit :
    {World : Type 0} → String → ModuleContext × World → Result Unit × (ModuleContext × World)
emit name (ctx, w) =
    let (e, ctx') = output "user" (Values.Value.string name) ctx in (error_result e, (ctx', w))

-- A step that leaves the context alone.
abbrev pub in_world :
    {A World : Type 0} → ModuleContext → Result A × World → Result A × (ModuleContext × World)
in_world ctx (r, w) = (r, (ctx, w))

abbrev pub unless_collision :
    {World : Type 0} → Option Error → World → (World → Result Unit × World) → Result Unit × World
unless_collision (some e) w next = (err e, w)
unless_collision none w next = next w

module _ (lower_other : Char → Char) where
  -- (c *user) databaseUsername, for a target that is set up
  unfoldable pub database_username : ConnectionConfig → String → Result String
  unfolding mysql_iam_user
  database_username t iam_identity =
      if is_mysql t.engine && not (t.user_type == "BUILT_IN")
      then mysql_iam_user lower_other iam_identity
      else ok iam_identity

  -- The answer of `Check`, from the list of users.
  unfoldable pub is_as_wanted : Bool → ConnectionConfig → CloudUser → List CloudUser → Bool
  unfolding cloud_sql_user_exists cloud_sql_user_is_correct
  is_as_wanted dne t u users =
      if dne
      then not (cloud_sql_user_exists lower_other users u.name t.engine)
      else cloud_sql_user_is_correct lower_other users u.name t.user_type t.engine

  module _ {World : Type 0} (google : Google World) where
    -- (c *user) deleteUser
    unfoldable pub delete_user : ConnectionConfig → CloudUser → World → Result Unit × World
    delete_user t u w = succeeded (
        google.delete_user t.project t.instance_name u.name
          (if is_mysql t.engine && t.user_type == "BUILT_IN" then some u.host else none) w)

    -- The last part of `createUser`.
    unfoldable pub insert_user : ConnectionConfig → CloudUser → World → Result Unit × World
    insert_user t u w = succeeded (google.insert_user t.project t.instance_name u w)

    -- `createUser` once it knows whether the user exists
    abbrev pub delete_first : Bool → ConnectionConfig → CloudUser → World → Result Unit × World
    delete_first true t u w = delete_user t u w then_do λ _ w'. insert_user t u w'
    delete_first false t u w = insert_user t u w

    -- `createUser` with the list of users
    unfoldable pub replace_user :
        ConnectionConfig → CloudUser → List CloudUser → World → Result Unit × World
    unfolding delete_user insert_user validate_mysql_user_collision cloud_sql_user_exists
    replace_user t u users w =
        unless_collision
          (validate_mysql_user_collision lower_other users u.name t.user_type t.engine) w
          (delete_first (cloud_sql_user_exists lower_other users t.user t.engine) t u)

    -- (c *user) createUser
    unfoldable pub create_user : ConnectionConfig → CloudUser → World → Result Unit × World
    unfolding replace_user
    create_user t u w =
        google.list_users t.project t.instance_name w then_do λ users w1. replace_user t u users w1

    abbrev check_listed :
        ConnectionConfig
        → List CloudUser
        → ModuleContext
        → World
        → Result Bool × (ModuleContext × World)
    check_listed t users ctx w = in_world ctx (user_of t, w) then_do λ u s1.
        (
          error_result
              (validate_mysql_user_collision lower_other users u.name t.user_type t.engine),
          s1,
        )
        then_do λ _ s2.
            if is_as_wanted ctx.dne t u users && not ctx.dne
            then ((database_username t u.name, s2) then_do λ name s3.
                emit name s3 then_do λ _ s4. (ok true, s4))
            else (ok (is_as_wanted ctx.dne t u users), s2)

    -- (c *user) Check
    unfoldable pub check_user : ModuleContext → World → Result Bool × (ModuleContext × World)
    unfolding setup is_as_wanted user_of database_username output
    check_user ctx w = in_world ctx (setup google ctx w) then_do λ t s1.
        in_world ctx (call (google.list_users t.project t.instance_name s1.1)) then_do λ users s2.
        if ctx.tainted then (ok false, s2) else check_listed t users ctx s2.1

    -- The last part of `Set`.
    unfoldable pub apply_user :
        Bool → Bool → ConnectionConfig → CloudUser → World → Result Unit × World
    unfolding create_user delete_user
    apply_user dne tainted t u w =
        if dne
        then delete_user t u w
        else create_user t u (if tainted then (delete_user t u w).1 else w)

    -- (c *user) Set
    unfoldable pub set_user : ModuleContext → World → Result Unit × (ModuleContext × World)
    unfolding setup user_of database_username output apply_user
    set_user ctx w = in_world ctx (setup google ctx w) then_do λ t s1.
        (user_of t, s1) then_do λ u s2. (database_username t u.name, s2) then_do λ name s3.
        emit name s3 then_do λ _ s4. in_world s4.0 (apply_user ctx.dne ctx.tainted t u s4.1)
