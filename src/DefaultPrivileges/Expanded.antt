-- ===== src/DefaultPrivileges/Expanded.antt =====
-- modules/postgres/default_privileges.go: what `expandTargets` promises of its targets.
use blackstart.Prelude.{
  String, Bool, true, false, not, ◌&&◌, Option, none, some, List, [], ◌∷◌, All, contains, ◌==◌, ◌≡◌,
  refl, if◌then◌else◌, ◌⊎◌, inl, inr, subst, ap, Bool-cases, eq_iff, arith,
}
use blackstart.Text.{trim_space, contains_char, equal_fold}
use blackstart.Values.{Value}
use blackstart.Inputs.{string_target, strings_target, bool_target, context_input_as}
use blackstart.Module.{Error, Result, ok, err, ModuleContext, not_supported}
use blackstart.Module.Results.{ok-inj, bind-ok, if-ok}
use blackstart.Module.Loops.{each, each-All, unless_error-ok, concat_map-All}
use blackstart.Inputs.Static.{first_error, parameter_error}
use blackstart.Postgres.Identifier.{
  validate_quoted_identifier, IsIdentifier, validate_quoted_identifier-IsIdentifier,
}
use blackstart.Postgres.Dimensions.{normalize_optional}
use blackstart.DefaultPrivileges.Scope.{
  Scope, parse_scope, normalize_revoke_mode, tables, sequences, functions, routines, types, schemas,
  large_objects, permissions_of, schema_supported, permission_token, validate_permission,
  without_all, expand_check_permissions, is_public, validate_grantee,
}
use blackstart.DefaultPrivileges.Catalog.{Catalog}
use blackstart.DefaultPrivileges.Targets.{
  Target, grantee_value, permission_value, check_schema, Request, read_lists, read_request,
  Expansion, target_of, reads_as, read_expansion, expand_all, with_owners, resolve_owners,
  expand_request, expand_targets,
}

-- A permission that pg_default_acl can hold for the scope.
abbrev pub IsConcrete : Scope → String → Type 0
IsConcrete sc p = (contains (permissions_of sc) p ≡ true) × ((p == "ALL") ≡ false)

abbrev pub IsGrantee : String → Type 0
IsGrantee g = (is_public g ≡ true) ⊎ IsIdentifier g

abbrev pub IsSchema : Scope → String → Type 0
IsSchema sc s = (s ≡ "") ⊎ (IsIdentifier s × (schema_supported sc ≡ true))

abbrev pub IsPermission : Scope → String → Type 0
IsPermission sc p = contains (permissions_of sc) (permission_token p) ≡ true

-- What may be written into a statement, and asked of the catalog.
pub record IsTarget (t : Target) : Type 0 where
  pub owner_valid : IsIdentifier t.owner_role
  pub schema_valid : IsSchema t.scope t.schema
  pub grantee_valid : IsGrantee t.grantee
  pub permission_valid : IsPermission t.scope t.permission
  pub checks_valid : All (IsConcrete t.scope) t.check_permissions

parameter_error-none : (key : String) (o : Option Error) → parameter_error key o ≡ none → o ≡ none
parameter_error-none key none h = refl
parameter_error-none key (some e) h = cc

if_some-none :
    (b : Bool) (e : Error) (o : Option Error)
    → (if b then some e else o) ≡ none
    → (b ≡ false) × (o ≡ none)
if_some-none true e o h = cc
if_some-none false e o h = (refl, h)

if_none-none : (b : Bool) (e : Error) → (if b then none else some e) ≡ none → b ≡ true
if_none-none true e h = refl
if_none-none false e h = cc

first_error-step :
    (P : Type 0) (o : Option Error) (rest : Option Error)
    → (rest ≡ none → P)
    → elim o [ some e ↦ some e | none ↦ rest ] ≡ none
    → (o ≡ none) × P
first_error-step P none rest later h = (refl, later h)
first_error-step P (some e) rest later h = cc

first_error-All :
    {A : Type 0} (f : A → Option Error) (xs : List A)
    → first_error f xs ≡ none
    → All (λ x. f x ≡ none) xs
unfolding first_error
first_error-All f [] h = tt
first_error-All f (x ∷ xs) h =
    first_error-step (All (λ y. f y ≡ none) xs) (f x) (first_error f xs) (first_error-All f xs) h

All-map :
    {A : Type 0} (P Q : A → Type 0) → ((x : A) → P x → Q x) → (xs : List A) → All P xs → All Q xs
All-map P Q f [] h = tt
All-map P Q f (x ∷ xs) h = (f x h.0, All-map P Q f xs h.1)

grantee_value-IsGrantee :
    (v : String) (gs : List String) → grantee_value v ≡ ok gs → All IsGrantee gs
unfolding validate_grantee
grantee_value-IsGrantee v gs h =
    let (filled, rest) = if-ok (trim_space v == "") _ _ gs h in
    let (valid, made) =
      unless_error-ok (parameter_error "role" (validate_grantee (trim_space v))) _ gs rest in
    subst (All IsGrantee) (ok-inj made)
      (checked (is_public (trim_space v)) refl (parameter_error-none "role" _ valid), tt)
  where
    checked :
        (b : Bool)
        → is_public (trim_space v) ≡ b
        → (if b then none else validate_quoted_identifier (trim_space v)) ≡ none
        → IsGrantee (trim_space v)
    checked true same h' = inl same
    checked false same h' = inr (validate_quoted_identifier-IsIdentifier (trim_space v) h')

permission_value-IsPermission :
    (sc : Scope) (v : String) (ps : List String)
    → permission_value sc v ≡ ok ps
    → All (IsPermission sc) ps
unfolding validate_permission
permission_value-IsPermission sc v ps h =
    let (filled, rest) = if-ok (permission_token v == "") _ _ ps h in
    let (valid, made) = unless_error-ok (validate_permission sc (permission_token v)) _ ps rest in
    subst (All (IsPermission sc)) (ok-inj made) (
      if_none-none _ _
          (if_some-none (contains_char 44 (permission_token (permission_token v))) _ _ valid).1,
      tt,
    )

check_schema-IsSchema : (sc : Scope) (s : String) → check_schema sc s ≡ none → IsSchema sc s
check_schema-IsSchema sc s h = elim (Bool-cases (s == "")) [
  | inl empty ↦ inl ((eq_iff s "").0 empty)
  | inr filled ↦
      let (supported, valid) = if_some-none (not (schema_supported sc)) _ _ (
        subst
          (λ b.
            (if b
              then none
              else if not (schema_supported sc)
              then some (not_supported "schema")
              else parameter_error "schema" (validate_quoted_identifier s))
            ≡ none)
          filled h) in
      inr (
        validate_quoted_identifier-IsIdentifier s (parameter_error-none "schema" _ valid),
        ground arith,
      )
]

without_all-IsConcrete : (sc : Scope) → All (IsConcrete sc) (without_all (permissions_of sc))
unfolding without_all
without_all-IsConcrete tables = (
  (refl, refl),
  (
    (refl, refl),
    (
      (refl, refl),
      ((refl, refl), ((refl, refl), ((refl, refl), ((refl, refl), ((refl, refl), tt))))),
    ),
  ),
)
without_all-IsConcrete sequences = ((refl, refl), ((refl, refl), ((refl, refl), tt)))
without_all-IsConcrete functions = ((refl, refl), tt)
without_all-IsConcrete routines = ((refl, refl), tt)
without_all-IsConcrete types = ((refl, refl), tt)
without_all-IsConcrete schemas = ((refl, refl), ((refl, refl), tt))
without_all-IsConcrete large_objects = ((refl, refl), ((refl, refl), tt))

expand_check_permissions-IsConcrete :
    (sc : Scope) (p : String)
    → IsPermission sc p
    → All (IsConcrete sc) (expand_check_permissions sc p)
unfolding expand_check_permissions
expand_check_permissions-IsConcrete sc p h = elim (Bool-cases (permission_token p == "ALL")) [
  | inl all ↦ rw all (without_all-IsConcrete sc)
  | inr concrete ↦ rw concrete ((h, concrete), tt)
]

-- A request whose lists have passed the checks.
abbrev IsRequest : Request → Type 0
IsRequest r = All IsGrantee r.grantees × All (IsPermission r.scope) r.permissions

read_lists-IsRequest :
    (ctx : ModuleContext) (sc : Scope) (option : Bool) (mode : String) (r : Request)
    → read_lists ctx sc option mode ≡ ok r
    → IsRequest r
unfolding read_lists
read_lists-IsRequest ctx sc option mode r h =
    let (roles, read, h1) = bind-ok (context_input_as strings_target ctx "role" true) _ r h in
    let (grantees, valid, h2) = bind-ok (each grantee_value roles) _ r h1 in
    let (values, found, h3) =
      bind-ok (context_input_as strings_target ctx "permission" true) _ r h2 in
    let (permissions, allowed, h4) = bind-ok (each (permission_value sc) values) _ r h3 in
    let (owners, given, made) =
      bind-ok (reads_as "for_role" (context_input_as strings_target ctx "for_role" false)) _ r h4 in
    subst IsRequest (ok-inj made) (
      each-All grantee_value IsGrantee grantee_value-IsGrantee roles grantees valid,
      each-All (permission_value sc) (IsPermission sc) (permission_value-IsPermission sc) values
          permissions allowed,
    )

read_request-IsRequest : (ctx : ModuleContext) (r : Request) → read_request ctx ≡ ok r → IsRequest r
unfolding read_request
read_request-IsRequest ctx r h =
    let (raw, read, h1) = bind-ok (context_input_as string_target ctx "scope" true) _ r h in
    let (sc, parsed, h2) = bind-ok (parse_scope raw) _ r h1 in
    let (option, found, h3) =
      bind-ok (context_input_as bool_target ctx "with_grant_option" false) _ r h2 in
    let (making, h4) = if-ok (ctx.dne && option) _ _ r h3 in
    let (mode_raw, given, h5) =
      bind-ok (context_input_as string_target ctx "revoke_mode" false) _ r h4 in
    let (mode, normal, h6) = bind-ok (normalize_revoke_mode mode_raw) _ r h5 in
    let (removing, rest) =
      if-ok (not ctx.dne && not (trim_space mode_raw == "") && not (equal_fold mode_raw "RESTRICT"))
        _ _ r h6 in
    read_lists-IsRequest ctx sc option mode r rest

-- An expansion whose owners and schemas have passed the checks too.
abbrev IsExpansion : Expansion → Type 0
IsExpansion e =
    IsRequest e.request
    × (All IsIdentifier e.owner_roles × All (IsSchema e.request.scope) e.schemas)

read_expansion-IsExpansion :
    (ctx : ModuleContext) (r : Request) (owners : List String) (e : Expansion)
    → IsRequest r
    → read_expansion ctx r owners ≡ ok e
    → IsExpansion e
unfolding read_expansion
read_expansion-IsExpansion ctx r owners e valid h =
    let (owners_ok, h1) =
      unless_error-ok
        (first_error (λ o. parameter_error "for_role" (validate_quoted_identifier o)) owners) _ e
        h in
    let (values, read, h2) =
      bind-ok (reads_as "schema" (context_input_as strings_target ctx "schema" false)) _ e h1 in
    let (schemas_ok, made) =
      unless_error-ok (first_error (check_schema r.scope) (normalize_optional values)) _ e h2 in
    subst IsExpansion (ok-inj made) (
      valid,
      (
        All-map _ IsIdentifier
            (λ o h'.
              validate_quoted_identifier-IsIdentifier o (parameter_error-none "for_role" _ h'))
            owners (first_error-All _ owners owners_ok),
        All-map _ (IsSchema r.scope) (check_schema-IsSchema r.scope) (normalize_optional values)
            (first_error-All _ (normalize_optional values) schemas_ok),
      ),
    )

expand_all-IsTarget : (e : Expansion) → IsExpansion e → All IsTarget (expand_all e)
unfolding expand_all
expand_all-IsTarget e valid =
    let r = e.request in
    concat_map-All IsIdentifier IsTarget _
      (λ o owner.
        concat_map-All (IsSchema r.scope) IsTarget _
          (λ s schema.
            concat_map-All IsGrantee IsTarget _
              (λ g grantee.
                concat_map-All (IsPermission r.scope) IsTarget
                  (λ p. target_of e.request o s g p ∷ [])
                  (λ p permission. (
                    record {
                      owner_valid = owner;
                      schema_valid = schema;
                      grantee_valid = grantee;
                      permission_valid = permission;
                      checks_valid = expand_check_permissions-IsConcrete r.scope p permission;
                    },
                    tt,
                  ))
                  r.permissions valid.0.1)
              r.grantees valid.0.0)
          e.schemas valid.1.1)
      e.owner_roles valid.1.0

module _ {World : Type 0} (db : Catalog World) (conn : Value) where
  with_owners-IsTarget :
      (ctx : ModuleContext) (r : Request) (o : Result (List String) × World) (ts : List Target)
      (w : World)
      → IsRequest r
      → with_owners ctx r o ≡ (ok ts, w)
      → All IsTarget ts
  with_owners-IsTarget ctx r (err e, w') ts w valid h = cc
  with_owners-IsTarget ctx r (ok owners, w') ts w valid h =
      let (e, read, made) =
        bind-ok (read_expansion ctx r owners) (λ e. ok (expand_all e)) ts (ap (λ p. p.0) h) in
      subst (All IsTarget) (ok-inj made)
        (expand_all-IsTarget e (read_expansion-IsExpansion ctx r owners e valid read))

  -- Every target that the inputs expand to has passed the validation: its owner is an identifier, also
  -- where the database named it; its schema is empty, or an identifier at a scope that has schemas; its
  -- grantee is PUBLIC in some spelling or an identifier; its permission is one of the scope; and what
  -- `Check` asks for are permissions of the scope other than ALL, which the catalog does not hold.
  pub expand_targets-IsTarget :
      (ctx : ModuleContext) (ts : List Target) (w w' : World)
      → expand_targets db conn ctx w ≡ (ok ts, w')
      → All IsTarget ts
  unfolding expand_targets
  expand_targets-IsTarget ctx ts w w' = go (read_request ctx) refl
    where
      go :
          (q : Result Request)
          → read_request ctx ≡ q
          → expand_request db conn ctx q w ≡ (ok ts, w')
          → All IsTarget ts
      go (err e) same h = cc
      go (ok r) same h =
          with_owners-IsTarget ctx r (resolve_owners db conn r.owners w) ts w'
            (read_request-IsRequest ctx r same) h
