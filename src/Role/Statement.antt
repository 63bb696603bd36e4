-- ===== src/Role/Statement.antt =====
-- modules/postgres/role.go and the templates of modules/postgres/queries.go that it executes.
use Prim.Native.String.{◌++◌ as ◌append◌}
use blackstart.Prelude.{String, Bool, if◌then◌else◌}

-- type role struct
pub record Role : Type 0 where
  pub name : String
  pub create_db : Bool
  pub create_role : Bool
  pub inherit : Bool
  pub login : Bool
  pub replication : Bool

-- The template actions of setRoleCreateTemplate and setRoleUpdateTemplate, which differ only in the
-- verb.
abbrev options_text : Role → String
options_text r =
    (if r.login then "LOGIN " else "NOLOGIN ")
    append ((if r.inherit then "INHERIT " else "NOINHERIT ")
        append ((if r.create_db then "CREATEDB " else "NOCREATEDB ")
            append ((if r.create_role then "CREATEROLE " else "NOCREATEROLE ")
                append ((if r.replication then "REPLICATION " else "NOREPLICATION ") append ";"))))

-- The three templates.
pub data Change : Type 0 where
  create update drop : Change

unfoldable pub change_text : Change → Role → String
change_text create r = "CREATE ROLE \"" append (r.name append ("\" WITH " append options_text r))
change_text update r = "ALTER ROLE \"" append (r.name append ("\" WITH " append options_text r))
change_text drop r = "DROP ROLE \"" append (r.name append "\";")
