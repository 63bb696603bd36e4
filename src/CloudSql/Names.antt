-- ===== src/CloudSql/Names.antt =====
-- modules/google/cloudsql/cloudsql.go and user.go: names of users, engines and versions.
use Prim.Native.Char.{Char, code}
use Prim.Native.String.{◌++◌ as ◌append◌}
use blackstart.Prelude.{
  ℕ, String, Bool, false, ◌&&◌, ◌||◌, Option, none, some, List, ◌∷◌, leb, ltb, ◌==◌, if◌then◌else◌,
  ◌+◌,
}
use blackstart.Text.{
  ◌=ℕ◌, rune, to_upper, trim_space, contains_char, split_char, has_prefix, has_suffix, trim_suffix,
  before_char, Signed, plus, minus, atoi,
}
use blackstart.Module.{Result, ok, err, empty_value, invalid_account}

-- The values of `engine`.
pub data Engine : Type 0 where
  postgres mysql sqlserver unknown : Engine

-- instanceEngine
unfoldable pub instance_engine : String → Engine
instance_engine database_version =
    let version = to_upper (trim_space database_version) in
    if has_prefix "POSTGRES" version
    then postgres
    else if has_prefix "MYSQL" version
    then mysql
    else if has_prefix "SQLSERVER" version
    then sqlserver
    else unknown

abbrev both : Option Signed → Option Signed → Option (Signed × Signed)
both (some a) (some b) = some (a, b)
both _ _ = none

abbrev version_of : List String → Option (Signed × Signed)
version_of (name ∷ major ∷ minor ∷ rest) =
    if name == "MYSQL" then both (atoi major) (atoi minor) else none
version_of _ = none

-- mysqlVersionNumbers; its errors are not told apart by its callers
unfoldable pub mysql_version_numbers : String → Option (Signed × Signed)
mysql_version_numbers database_version =
    version_of (split_char 95 (to_upper (trim_space database_version)))

abbrev at_least : ℕ → Signed → Bool
at_least n (plus m) = leb n m
at_least n (minus m) = n =ℕ 0 && m =ℕ 0

abbrev equals : ℕ → Signed → Bool
equals n (plus m) = m =ℕ n
equals n (minus m) = n =ℕ 0 && m =ℕ 0

-- mysqlIamUserSupported
unfoldable pub mysql_iam_user_supported : String → Bool
unfolding mysql_version_numbers
mysql_iam_user_supported database_version = elim (mysql_version_numbers database_version) [
  | none ↦ false
  | some (major, minor) ↦ at_least 6 major || (equals 5 major && at_least 7 minor)
]

-- mysqlManagedInstanceSupported
unfoldable pub mysql_managed_instance_supported : String → Bool
unfolding mysql_version_numbers
mysql_managed_instance_supported database_version = elim (mysql_version_numbers database_version) [
  | none ↦ false
  | some (major, minor) ↦ at_least 8 major
]

-- normalizeCloudSQLServiceAccountUsername
unfoldable pub normalize_service_account : String → String → Result String
normalize_service_account username project =
    let trimmed = trim_space username in
    if trimmed == ""
    then err (empty_value "user")
    else if has_suffix ".iam.gserviceaccount.com" trimmed
    then ok (trim_suffix ".gserviceaccount.com" trimmed)
    else if has_suffix ".iam" trimmed && contains_char 64 trimmed
    then ok trimmed
    else if contains_char 64 trimmed
    then err (invalid_account "user")
    else if trim_space project == ""
    then err (empty_value "project")
    else ok (trimmed append ("@" append (project append ".iam")))

-- The lower case of the characters outside of ASCII stands in Unicode's tables.
module _ (lower_other : Char → Char) where
  -- unicode.ToLower
  abbrev lower_char : Char → Char
  lower_char c =
      if leb 65 (code c) && leb (code c) 90
      then rune (code c + 32)
      else if ltb (code c) 128
      then c
      else lower_other c

  -- strings.ToLower
  unfoldable pub to_lower : String → String
  unfolding rune
  to_lower String.[] = String.[]
  to_lower (String.◌∷◌ c s) = String.◌∷◌ (lower_char c) (to_lower s)

  abbrev pub local_name : Option String → Result String
  local_name none = err (invalid_account "user")
  local_name (some name) = if name == "" then err (invalid_account "user") else ok name

  -- mysqlIamUser
  unfoldable pub mysql_iam_user : String → Result String
  unfolding to_lower
  mysql_iam_user iam_identity =
      let identity = trim_space iam_identity in
      if identity == ""
      then err (empty_value "user")
      else if identity == to_lower identity
      then local_name (before_char 64 identity)
      else err (invalid_account "user")
