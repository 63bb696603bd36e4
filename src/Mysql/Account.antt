-- ===== src/Mysql/Account.antt =====
-- modules/mysql/queries.go: accounts, and the quoting of accounts and identifiers.
use Prim.Native.Char.{Char, code}
use Prim.Native.String.{◌++◌ as ◌append◌}
use blackstart.Prelude.{
  String, Bool, not, ◌&&◌, Option, none, some, List, [], ◌∷◌, leb, ◌==◌, if◌then◌else◌,
}
use blackstart.Text.{◌=ℕ◌, all_char, contains_char, trim_space, split_char, double_char}
use blackstart.Module.{Error, Result, ok, err, invalid_account, invalid_identifier}

-- type mysqlAccount struct
pub record Account : Type 0 where
  pub user : String
  pub host : String

-- validateMySQLAccountPart
unfoldable pub validate_account_part : String → String → Option Error
validate_account_part value field =
    if trim_space value == ""
    then some (invalid_account field)
    else if all_char (λ c. leb 32 (code c)) value
    then none
    else some (invalid_account field)

unfoldable pub account_of : String → String → Result Account
unfolding validate_account_part
account_of user host = elim (validate_account_part user "user") [
  | some e ↦ err e
  | none ↦ elim (validate_account_part host "host") [
    | some e ↦ err e
    | none ↦ ok (record { user = user; host = host })
  ]
]

abbrev account_of_parts : List String → Result Account
account_of_parts (user ∷ host ∷ []) = account_of (trim_space user) (trim_space host)
account_of_parts _ = err (invalid_account "user@host")

-- parseMySQLAccount
unfoldable pub parse_account : String → Result Account
unfolding account_of
parse_account input =
    let trimmed = trim_space input in
    if trimmed == ""
    then err (invalid_account "account")
    else if contains_char 64 trimmed
    then account_of_parts (split_char 64 trimmed)
    else account_of trimmed "%"

-- escapeMySQLString
unfoldable pub escape_string : String → String
escape_string value = double_char 39 (double_char 92 value)

-- (a *mysqlAccount) SQL
unfoldable pub account_sql : Account → String
unfolding escape_string
account_sql a =
    "'" append (escape_string a.user append ("'@'" append (escape_string a.host append "'")))

abbrev pub is_identifier_char : Char → Bool
is_identifier_char c = not (code c =ℕ 96) && leb 32 (code c)

-- quoteIdentifier
unfoldable pub quote_identifier : String → Result String
quote_identifier value =
    let trimmed = trim_space value in
    if trimmed == ""
    then err invalid_identifier
    else if all_char is_identifier_char trimmed
    then ok ("`" append (trimmed append "`"))
    else err invalid_identifier
