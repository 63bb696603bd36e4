-- ===== src/Role/Methods.antt =====
-- modules/postgres/role.go: the methods of the module. They have value receivers: each works on a copy
-- of the module.
use blackstart.Prelude.{String, Bool, true, false, not, ◌&&◌, Option, none, some, if◌then◌else◌}
use blackstart.Prelude.Dict.{lookup}
use blackstart.Values.{Value}
use blackstart.Inputs.{string_target, bool_target, input_as, context_input_as}
use blackstart.Operation.{Operation, Input, is_static}
use blackstart.Module.{
  Error, Result, ok, err, ◌>>=◌, ModuleContext, input_does_not_exist, invalid_input, query_error,
  missing_parameter, invalid_parameter, panic,
}
use blackstart.Module.Context.{input}
use blackstart.Module.Loops.{unless_error}
use blackstart.Inputs.Static.{parameter_error}
use blackstart.Postgres.Identifier.{validate_quoted_identifier}
use blackstart.Role.Statement.{Role, Change, create, update, drop, change_text}

-- type roleModule struct; of the operation the methods read only `DoesNotExist`
pub record RoleModule : Type 0 where
  pub does_not_exist : Option Bool
  pub db : Option Value
  pub target : Option Role

-- NewPostgresRole
abbrev pub new_postgres_role : RoleModule
new_postgres_role = record { does_not_exist = none; db = none; target = none }

-- The database: getRoleQuery, getRoleWithOptionsQuery, and the execution of a statement.
pub record RoleDatabase (World : Type 0) : Type 0 where
  pub role_exists : Value → String → World → Result Bool × World
  pub role_has_options : Value → Role → World → Result Bool × World
  pub exec : Value → String → World → Option Error × World

-- A round of the loop over the options in `createTargetRole`.
abbrev pub option_of : String → Bool → Result Input → Result Bool
option_of key default (err (input_does_not_exist k)) = ok default
option_of key default (err e) = err e
option_of key default (ok i) = elim (input_as bool_target i false) [
  | err e ↦ err (invalid_input key e)
  | ok v ↦ ok v
]

abbrev invalid_name : Option Error → Option Error
invalid_name none = none
invalid_name (some e) = some (invalid_input "name" e)

-- The target that `createTargetRole` makes.
unfoldable pub read_target : ModuleContext → Result Role
read_target ctx = context_input_as string_target ctx "name" true >>= λ name.
    unless_error (invalid_name (validate_quoted_identifier name)) (
      option_of "login" true (input ctx "login") >>= λ login.
      option_of "inherit" true (input ctx "inherit") >>= λ inherit.
      option_of "create_db" false (input ctx "create_db") >>= λ create_db.
      option_of "create_role" false (input ctx "create_role") >>= λ create_role.
      option_of "replication" false (input ctx "replication") >>= λ replication. ok (record {
        name = name;
        create_db = create_db;
        create_role = create_role;
        inherit = inherit;
        login = login;
        replication = replication;
      }))

-- createTargetRole; the result is its own copy of the module, which its caller does not have
unfoldable pub create_target_role : RoleModule → ModuleContext → Result RoleModule
unfolding read_target
create_target_role r ctx = read_target ctx >>= λ role. ok (record r { target = some role })

abbrev pub nil_pointer : Error
nil_pointer = panic "invalid memory address or nil pointer dereference"

-- The use of a pointer.
abbrev pub through :
    {A B World : Type 0} → Option A → World → (A → Result B × World) → Result B × World
through none w use_it = (err nil_pointer, w)
through (some a) w use_it = use_it a

abbrev pub found : {World : Type 0} → Result Bool × World → Result Bool × World
found (err e, w) = (err (query_error e), w)
found (ok b, w) = (ok b, w)

abbrev pub ran : {World : Type 0} → Option Error × World → Result Unit × World
ran (some e, w) = (err (query_error e), w)
ran (none, w) = (ok tt, w)

-- What `Check` and `Set` do with the answer of `checkRoleExists`.
abbrev pub and_then :
    {A World : Type 0} → Result Bool × World → (Bool → World → Result A × World) → Result A × World
and_then (err e, w) next = (err e, w)
and_then (ok b, w) next = next b w

abbrev pub change_for : Bool → Bool → Change
change_for dne exists = if dne && exists then drop else if not exists then create else update

module _ {World : Type 0} (server : RoleDatabase World) where
  unfoldable pub check_role_exists : RoleModule → World → Result Bool × World
  check_role_exists r w =
      through r.target w (λ role. through r.db w (λ db. found (server.role_exists db role.name w)))

  unfoldable pub check_role_correct_options : RoleModule → World → Result Bool × World
  check_role_correct_options r w =
      through r.target w (λ role. through r.db w (λ db. found (server.role_has_options db role w)))

  -- createRole, updateRole and dropRole; a nil target has no field that the template can read
  unfoldable pub change_role : Change → RoleModule → World → Result Unit × World
  unfolding change_text
  change_role change r w =
      through r.target w
        (λ role. through r.db w (λ db. ran (server.exec db (change_text change role) w)))

  abbrev pub answer : RoleModule → Bool → World → Result Bool × World
  answer r exists w =
      through r.does_not_exist w
        (λ dne. if dne then (ok (not exists), w) else check_role_correct_options r w)

  abbrev pub checked_with : RoleModule → Result RoleModule → World → Result Bool × World
  checked_with r (err e) w = (err e, w)
  checked_with r (ok copy) w = and_then (check_role_exists r w) (answer r)

  -- (r roleModule) Check: the target that `createTargetRole` has put into its copy is lost
  unfoldable pub check_role : RoleModule → ModuleContext → World → Result Bool × World
  unfolding create_target_role check_role_exists check_role_correct_options
  check_role r ctx w = checked_with r (create_target_role r ctx) w

  -- (r roleModule) Set
  unfoldable pub set_role : RoleModule → World → Result Unit × World
  unfolding check_role_exists change_role
  set_role r w =
      and_then (check_role_exists r w)
        (λ exists w'. through r.does_not_exist w' (λ dne. change_role (change_for dne exists) r w'))

abbrev name_error : Result String → Option Error
name_error (err e) = some (invalid_parameter "name" e)
name_error (ok value) = parameter_error "name" (validate_quoted_identifier value)

abbrev name_input : Option Input → Option Error
name_input none = some (missing_parameter "name")
name_input (some i) = if is_static i then name_error (input_as string_target i true) else none

-- (r roleModule) Validate
unfoldable pub validate_role : Operation → Option Error
unfolding input_as
validate_role op = name_input (lookup "name" op.inputs)
