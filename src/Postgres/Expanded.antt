-- ===== src/Postgres/Expanded.antt =====
-- modules/postgres/grant.go: what `expandGrantsFromContext` returns is the product of the lists, and
-- every grant in it has passed the validation.
use blackstart.Prelude.{
  String, Bool, true, false, none, List, [], ◌∷◌, All, ◌≡◌, ◌&&◌, not, refl, sym, subst, arith,
}
use blackstart.Module.{ModuleContext, ok}
use blackstart.Module.Results.{ok-inj, bind-ok, if-ok, Always, bind-Always}
use blackstart.Postgres.Grant.{
  Scope, Grant, supports_all, supports_with_grant_option, validate_principal, string_to_scope,
}
use blackstart.Inputs.{string_target, strings_target, bool_target, context_input_as}
use blackstart.Postgres.Dimensions.{normalize_scope_targets, normalize_required}
use blackstart.Postgres.Targets.{
  Expansion, target_of, check_schema, check_resource, expand_resource, expand_schema,
  expand_permission, expand_role, expand_all, expand_grants, read_expansion, expansion_of,
  dimension, read_optional_list, scope_value,
}
use blackstart.Module.Loops.{each-All, each-concat_map, concat_map, unless_error-ok}
use blackstart.Postgres.Valid.{
  IsTarget, validate_principal-valid, check_schema-valid, check_resource-valid,
}

-- The grants of an expansion: one for each role, permission, schema and resource, in that order.
abbrev pub product : Expansion → List Grant
product e =
    concat_map
      (λ r.
        concat_map
          (λ p. concat_map (λ s. concat_map (λ t. target_of e r p s t ∷ []) e.resources) e.schemas)
          e.permissions)
      e.roles

module _ (e : Expansion) where
  expand_resource-eq :
      (r p s t : String) (gs : List Grant)
      → expand_resource e r p s t ≡ ok gs
      → gs ≡ target_of e r p s t ∷ []
  unfolding expand_resource
  expand_resource-eq r p s t gs h =
      sym
        (ok-inj (unless_error-ok (check_resource e.scope t) (ok (target_of e r p s t ∷ [])) gs h).1)

  expand_all-eq : (gs : List Grant) → expand_all e ≡ ok gs → gs ≡ product e
  unfolding expand_all expand_role expand_permission expand_schema
  expand_all-eq gs =
      each-concat_map _ _
        (λ r.
          each-concat_map _ _
            (λ p xs hp.
              each-concat_map _ _
                (λ s ys hs.
                  each-concat_map _ _ (expand_resource-eq r p s) e.resources ys
                    (unless_error-ok _ _ ys hs).1)
                e.schemas xs (unless_error-ok _ _ xs hp).1)
            e.permissions)
        e.roles gs

-- An expansion whose flags the scope admits.
abbrev IsAdmitted : Expansion → Type 0
IsAdmitted e =
    (e.all ≡ true → supports_all e.scope ≡ true)
    × (e.with_grant_option ≡ true → supports_with_grant_option e.scope ≡ true)

module _ (e : Expansion) (admitted : IsAdmitted e) where
  expand_resource-IsTarget :
      (r p s t : String)
      → validate_principal e.scope r p ≡ none
      → check_schema s ≡ none
      → (gs : List Grant) → expand_resource e r p s t ≡ ok gs
      → All (IsTarget e.scope) gs
  unfolding expand_resource
  expand_resource-IsTarget r p s t principal schema gs h =
      let (resource, made) =
        unless_error-ok (check_resource e.scope t) (ok (target_of e r p s t ∷ [])) gs h in
      let (role, permission) = validate_principal-valid e.scope r p principal in
      subst (All (IsTarget e.scope)) (ok-inj made) (
        record {
          at_scope = refl;
          role_valid = role;
          permission_valid = permission;
          schema_valid = check_schema-valid s schema;
          resource_valid = check_resource-valid e.scope t resource;
          all_valid = admitted.0;
          option_valid = admitted.1;
        },
        tt,
      )

  expand_all-IsTarget : (gs : List Grant) → expand_all e ≡ ok gs → All (IsTarget e.scope) gs
  unfolding expand_all expand_role expand_permission expand_schema
  expand_all-IsTarget gs =
      let T = IsTarget e.scope in
      each-All _ T
        (λ r.
          each-All _ T
            (λ p xs hp.
              each-All _ T
                (λ s ys hs.
                  each-All _ T
                    (λ t.
                      expand_resource-IsTarget r p s t (unless_error-ok _ _ xs hp).0
                        (unless_error-ok _ _ ys hs).0)
                    e.resources ys (unless_error-ok _ _ ys hs).1)
                e.schemas xs (unless_error-ok _ _ xs hp).1)
            e.permissions)
        e.roles gs

expansion_of-IsAdmitted :
    (roles permissions schemas resources : List String) (sc : Scope) (all option : Bool)
    (e : Expansion)
    → expansion_of roles permissions schemas resources sc all option ≡ ok e
    → IsAdmitted e
unfolding expansion_of
expansion_of-IsAdmitted roles permissions schemas resources sc all option e h =
    let (all_ok, made) = if-ok (all && not (supports_all sc)) _ _ e h in
    let (dims, normalized, rest) =
      bind-ok (normalize_scope_targets sc schemas resources all) _ e made in
    let (option_ok, given) = if-ok (option && not (supports_with_grant_option sc)) _ _ e rest in
    subst IsAdmitted (ok-inj given) ((λ is_all. ground arith), (λ with_option. ground arith))

read_expansion-IsAdmitted : (ctx : ModuleContext) → Always IsAdmitted (read_expansion ctx)
unfolding read_expansion
read_expansion-IsAdmitted ctx =
    bind-Always IsAdmitted (context_input_as strings_target ctx "role" true) _ (λ roles_raw.
      bind-Always IsAdmitted (normalize_required roles_raw "role") _ (λ roles.
        bind-Always IsAdmitted (context_input_as strings_target ctx "permission" true) _
          (λ permissions_raw.
            bind-Always IsAdmitted (normalize_required permissions_raw "permission") _
              (λ permissions.
                bind-Always IsAdmitted (dimension "schema" (read_optional_list ctx "schema")) _
                  (λ schemas.
                    bind-Always IsAdmitted
                      (dimension "resource" (read_optional_list ctx "resource")) _
                      (λ resources.
                        bind-Always IsAdmitted (context_input_as string_target ctx "scope" false) _
                          (λ value.
                            bind-Always IsAdmitted (string_to_scope (scope_value value)) _ (λ sc.
                              bind-Always IsAdmitted (context_input_as bool_target ctx "all" false)
                                _
                                (λ all.
                                  bind-Always IsAdmitted
                                    (context_input_as bool_target ctx "with_grant_option" false) _
                                    (λ option.
                                      expansion_of-IsAdmitted roles permissions schemas resources sc
                                        all option))))))))))

-- When the inputs expand to a list of grants, all at one scope, every grant in it is valid: its role
-- is an identifier (not empty, at most 63 bytes, without `"` and control characters), its permission
-- is one of the scope's (at INSTANCE an identifier), its schema is empty or an identifier, its
-- resource is blank, an identifier or (at LARGE_OBJECT) a positive number, and its flags are ones the
-- scope supports.
pub expand_grants-IsTarget :
    (ctx : ModuleContext) (gs : List Grant)
    → expand_grants ctx ≡ ok gs
    → (sc : Scope) × All (IsTarget sc) gs
unfolding expand_grants
expand_grants-IsTarget ctx gs h =
    let (e, read, expanded) = bind-ok (read_expansion ctx) expand_all gs h in
    (e.scope, expand_all-IsTarget e (read_expansion-IsAdmitted ctx e read) gs expanded)

-- When the inputs expand to a list of grants, that list is the product of the lists that were read:
-- one grant for each role, permission, schema and resource, in that order of nesting, with the
-- permission in its normal form.
pub expand_grants-product :
    (ctx : ModuleContext) (gs : List Grant)
    → expand_grants ctx ≡ ok gs
    → (e : Expansion) × (read_expansion ctx ≡ ok e) × (gs ≡ product e)
unfolding expand_grants
expand_grants-product ctx gs h =
    let (e, read, expanded) = bind-ok (read_expansion ctx) expand_all gs h in
    (e, read, expand_all-eq e gs expanded)
