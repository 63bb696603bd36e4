-- ===== src/Mysql/Made.antt =====
-- modules/mysql/queries.go: the statement for a grant, written out, and that the code makes it.
use Prim.Native.String.{◌++◌ as ◌append◌}
use blackstart.Prelude.{◌⊎◌, inl, inr, String, Bool, true, false, if◌then◌else◌, ◌≡◌, refl}
use blackstart.Module.{Error, Result, ok, err}
use blackstart.Mysql.Account.{Account, parse_account, account_sql}
use blackstart.Mysql.Grant.{Grant}
use blackstart.Mysql.Statement.{grant, revoke, change_text, render_change, grant_object_sql}
use blackstart.Mysql.GrantModule.{statement_for}

-- The statement for a grant, from the account and the object as SQL writes them.
abbrev wanted_statement : Bool → Grant → String → String → String
wanted_statement true g account object =
    "REVOKE"
    append (" "
        append (g.permission
            append (" ON "
                append (object
                    append (" " append ("FROM" append (" " append (account append ""))))))))
wanted_statement false g account object =
    "GRANT"
    append (" "
        append (g.permission
            append (" ON "
                append (object
                    append (" "
                        append ("TO"
                            append (" "
                                append (account
                                    append (if g.with_grant_option
                                        then " WITH GRANT OPTION"
                                        else "")))))))))

-- A statement is the one for a grant, whose account can be parsed and whose object can be named.
abbrev pub IsStatement : Bool → Grant → String → Type 0
IsStatement dne g s =
    (a : Account) × (object : String) × (parse_account g.role ≡ ok a)
    × (grant_object_sql g ≡ ok object)
    × (s ≡ wanted_statement dne g (account_sql a) object)

-- There is no statement for a grant: its account cannot be parsed, or its object cannot be named.
abbrev pub HasNoStatement : Grant → Error → Type 0
HasNoStatement g e = (parse_account g.role ≡ err e) ⊎ (grant_object_sql g ≡ err e)

change_text-wanted :
    (dne : Bool) (g : Grant) (account object : String)
    → change_text (if dne then revoke else grant) g.permission object account g.with_grant_option
      ≡ wanted_statement dne g account object
change_text-wanted true g account object = refl
change_text-wanted false g account object = option g.with_grant_option
  where
    option :
        (b : Bool)
        → change_text grant g.permission object account b
          ≡ wanted_statement false (record g { with_grant_option = b }) account object
    option true = refl
    option false = refl

-- What is made for a grant: its statement, or the error for which there is none.
abbrev pub Made : Bool → Grant → Result String → Type 0
Made dne g (ok s) = IsStatement dne g s
Made dne g (err e) = HasNoStatement g e

render_change-Made :
    (dne : Bool) (g : Grant) (a : Result Account) (o : Result String)
    → parse_account g.role ≡ a
    → grant_object_sql g ≡ o
    → Made dne g (render_change (if dne then revoke else grant) g)
unfolding render_change
render_change-Made dne g (err e) o parsed named = rw parsed (inl parsed)
render_change-Made dne g (ok a) (err e) parsed named = rw parsed (rw named (inr named))
render_change-Made dne g (ok a) (ok object) parsed named =
    rw parsed (rw named (a, object, parsed, named, change_text-wanted dne g (account_sql a) object))

pub statement_for-Made : (dne : Bool) (g : Grant) → Made dne g (statement_for dne g)
statement_for-Made true g = render_change-Made true g _ _ refl refl
statement_for-Made false g = render_change-Made false g _ _ refl refl
