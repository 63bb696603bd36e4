-- ===== src/Postgres/Dimensions.antt =====
-- modules/postgres/grant.go: the normalization of the lists of roles, permissions, schemas and
-- resources.
use blackstart.Prelude.{String, Bool, true, false, not, ◌&&◌, List, [], ◌∷◌, ◌==◌, if◌then◌else◌}
use blackstart.Text.{trim_space}
use blackstart.Module.{
  Result, ok, err, ◌>>=◌, empty_value, must_not_be_empty, must_be_provided, must_be_empty,
  must_match, not_supported,
}
use blackstart.Postgres.Grant.{
  Scope, on_instance, on_database, on_schema, on_table, on_sequence, on_function, on_procedure,
  on_routine,
}

-- The loop of `normalizeRequiredStringList`.
unfoldable pub trim_required : List String → String → Result (List String)
trim_required [] field = ok []
trim_required (v ∷ vs) field =
    if trim_space v == ""
    then err (empty_value field)
    else (trim_required vs field >>= λ out. ok (trim_space v ∷ out))

abbrev pub refuse_empty : String → List String → Result (List String)
refuse_empty field [] = err (must_not_be_empty field)
refuse_empty field (v ∷ vs) = ok (v ∷ vs)

-- normalizeRequiredStringList
unfoldable pub normalize_required : List String → String → Result (List String)
unfolding trim_required
normalize_required values field = trim_required values field >>= refuse_empty field

-- The loop of `normalizeOptionalStringList`.
unfoldable pub trim_optional : List String → List String
trim_optional [] = []
trim_optional (v ∷ vs) =
    let rest = trim_optional vs in if trim_space v == "" then rest else trim_space v ∷ rest

abbrev pub or_marker : List String → List String
or_marker [] = "" ∷ []
or_marker (v ∷ vs) = v ∷ vs

-- normalizeOptionalStringList
unfoldable pub normalize_optional : List String → List String
unfolding trim_optional
normalize_optional values = or_marker (trim_optional values)

-- len(values) == 1 && values[0] == ""
abbrev pub is_unset : List String → Bool
is_unset (v ∷ []) = v == ""
is_unset _ = false

-- len(values) > 1 || (len(values) == 1 && values[0] != "")
abbrev pub is_given : List String → Bool
is_given [] = false
is_given (v ∷ []) = not (v == "")
is_given (v ∷ w ∷ vs) = true

abbrev pub same_names : List String → List String → Bool
same_names [] [] = true
same_names (v ∷ vs) (w ∷ ws) = v == w && same_names vs ws
same_names _ _ = false

abbrev pub Dimensions : Type 0
Dimensions = List String × List String

unfoldable pub database_targets : List String → Result Dimensions
database_targets resources =
    if is_unset resources then err (must_be_provided "resource") else ok ("" ∷ [], resources)

unfoldable pub schema_targets : List String → List String → Result Dimensions
schema_targets schemas resources =
    if is_given schemas
    then (if is_given resources
        then (if same_names schemas resources
            then ok ("" ∷ [], resources)
            else err (must_match "schema" "resource"))
        else ok ("" ∷ [], schemas))
    else database_targets resources

-- The part that tables, sequences and routines share, once the schemas are known.
unfoldable pub object_targets : List String → List String → Bool → Result Dimensions
object_targets schemas resources all =
    if all
    then if is_given resources then err (must_be_empty "resource") else ok (schemas, "" ∷ [])
    else if is_unset resources
    then err (must_be_provided "resource")
    else ok (schemas, resources)

unfoldable pub default_public : List String → List String
default_public schemas = if is_unset schemas then "public" ∷ [] else schemas

unfoldable pub routine_targets : List String → List String → Bool → Result Dimensions
unfolding object_targets
routine_targets schemas resources all =
    if is_unset schemas
    then err (must_be_provided "schema")
    else object_targets schemas resources all

unfoldable pub named_targets : List String → List String → Result Dimensions
named_targets schemas resources =
    if is_unset resources
    then err (must_be_provided "resource")
    else if is_given schemas
    then err (not_supported "schema")
    else ok ("" ∷ [], resources)

-- normalizeScopeTargets
unfoldable pub normalize_scope_targets :
    Scope → List String → List String → Bool → Result Dimensions
unfolding database_targets schema_targets object_targets default_public routine_targets
    named_targets
normalize_scope_targets on_instance schemas resources all = ok ("" ∷ [], "" ∷ [])
normalize_scope_targets on_database schemas resources all = database_targets resources
normalize_scope_targets on_schema schemas resources all = schema_targets schemas resources
normalize_scope_targets on_table schemas resources all =
    object_targets (default_public schemas) resources all
normalize_scope_targets on_sequence schemas resources all =
    object_targets (default_public schemas) resources all
normalize_scope_targets on_function schemas resources all = routine_targets schemas resources all
normalize_scope_targets on_procedure schemas resources all = routine_targets schemas resources all
normalize_scope_targets on_routine schemas resources all = routine_targets schemas resources all
normalize_scope_targets _ schemas resources all = named_targets schemas resources
