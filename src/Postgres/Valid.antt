-- ===== src/Postgres/Valid.antt =====
-- modules/postgres/grant.go: what the validation of roles, permissions, schemas and resources lets
-- pass.
use blackstart.Prelude.{
  ℕ, String, Bool, true, false, Option, none, some, contains, ◌≡◌, ◌≢◌, ◌⊎◌, inl, inr, ◌==◌,
  if◌then◌else◌, String-cases, refl, arith, Option-cases,
}
use blackstart.Text.{trim_space, parse_uint32}
use blackstart.Module.{Error, invalid_permission}
use blackstart.Postgres.Identifier.{
  IsIdentifier, validate_quoted_identifier, validate_quoted_identifier-IsIdentifier,
}
use blackstart.Postgres.Grant.{
  Scope, on_instance, on_large_object, scope_name, Grant, grant_permissions, supports_all,
  supports_with_grant_option, normalize_permission, validate_role, validate_token,
  validate_permission, validate_principal, validate_resource, validate_loid,
}
use blackstart.Postgres.Targets.{check_schema, check_resource}

-- What a permission of a grant may be at a scope.
abbrev pub IsPermission : Scope → String → Type 0
IsPermission on_instance p = IsIdentifier p
IsPermission sc p = contains (grant_permissions sc) p ≡ true

-- What a resource may be: the number of a large object, or a name.
abbrev pub IsResource : Scope → String → Type 0
IsResource on_large_object r = (n : ℕ) × (parse_uint32 r ≡ some n) × (n ≢ 0)
IsResource sc r = IsIdentifier r

-- A grant that the module may render into a statement at the scope.
pub record IsTarget (sc : Scope) (g : Grant) : Type 0 where
  pub at_scope : g.scope ≡ scope_name sc
  pub role_valid : IsIdentifier g.role
  pub permission_valid : IsPermission sc g.permission
  pub schema_valid : (g.schema ≡ "") ⊎ IsIdentifier g.schema
  pub resource_valid : (trim_space g.resource ≡ "") ⊎ IsResource sc g.resource
  pub all_valid : g.all ≡ true → supports_all sc ≡ true
  pub option_valid : g.with_grant_option ≡ true → supports_with_grant_option sc ≡ true

trim_space_empty : trim_space "" ≡ ""
unfolding trim_space
trim_space_empty = refl

pub passed : (b : Bool) (e : Error) → (if b then none else some e) ≡ none → b ≡ true
passed true e h = refl
passed false e h = cc

validate_role-IsIdentifier : (r : String) → validate_role r ≡ none → IsIdentifier r
unfolding validate_role
validate_role-IsIdentifier r h = elim (Option-cases (validate_quoted_identifier r)) [
  | inl valid ↦ validate_quoted_identifier-IsIdentifier r valid
  | inr (_, bad) ↦ cc
]

validate_token-IsPermission :
    (sc : Scope) (p : String) → validate_token sc p ≡ none → IsPermission sc p
unfolding validate_token
validate_token-IsPermission on_instance p h = elim (Option-cases (validate_quoted_identifier p)) [
  | inl valid ↦ validate_quoted_identifier-IsIdentifier p valid
  | inr (_, bad) ↦ cc
]
validate_token-IsPermission sc p h =
    passed (contains (grant_permissions sc) p) (invalid_permission p) h

pub validate_principal-valid :
    (sc : Scope) (r p : String)
    → validate_principal sc r p ≡ none
    → IsIdentifier r × IsPermission sc (normalize_permission sc p)
unfolding validate_principal validate_permission
validate_principal-valid sc r p h = elim (Option-cases (validate_role r)) [
  | inl valid ↦ (
    validate_role-IsIdentifier r valid,
    validate_token-IsPermission sc (normalize_permission sc p) (ground arith),
  )
  | inr (_, bad) ↦ cc
]

named_resource-valid :
    (r : String)
    → (if trim_space r == "" then none else validate_quoted_identifier r) ≡ none
    → (trim_space r ≡ "") ⊎ IsIdentifier r
named_resource-valid r h = elim (String-cases (trim_space r) "") [
  | inl blank ↦ inl blank
  | inr filled ↦ inr (validate_quoted_identifier-IsIdentifier r (ground arith))
]

loid-valid : (o : Option ℕ) → validate_loid o ≡ none → (n : ℕ) × (o ≡ some n) × (n ≢ 0)
loid-valid none h = cc
loid-valid (some n) h = (n, refl, ground arith)

validate_resource-IsResource :
    (sc : Scope) (r : String)
    → validate_resource sc r ≡ none
    → (trim_space r ≡ "") ⊎ IsResource sc r
unfolding validate_resource
validate_resource-IsResource on_large_object r h = elim (String-cases (trim_space r) "") [
  | inl blank ↦ inl blank
  | inr filled ↦ inr (loid-valid (parse_uint32 r) (ground arith))
]
validate_resource-IsResource sc r h = named_resource-valid r h

pub check_schema-valid : (s : String) → check_schema s ≡ none → (s ≡ "") ⊎ IsIdentifier s
check_schema-valid s h = elim (String-cases s "") [
  | inl blank ↦ inl blank
  | inr filled ↦ inr (validate_quoted_identifier-IsIdentifier s (ground arith))
]

pub check_resource-valid :
    (sc : Scope) (r : String) → check_resource sc r ≡ none → (trim_space r ≡ "") ⊎ IsResource sc r
check_resource-valid sc r h = elim (String-cases r "") [
  | inl blank ↦ inl (rw blank trim_space_empty)
  | inr filled ↦ validate_resource-IsResource sc r (ground arith)
]
