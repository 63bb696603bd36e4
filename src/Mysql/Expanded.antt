-- ===== src/Mysql/Expanded.antt =====
-- modules/mysql/grant.go: what `expandGrantsFromContext` returns.
use blackstart.Prelude.{
  String, true, ◌==◌, List, [], ◌∷◌, All, contains, ◌≡◌, refl, sym, subst, ap, ◌∙◌,
}
use blackstart.Text.{to_upper, join_fields}
use blackstart.Module.{ModuleContext, ok}
use blackstart.Module.Results.{ok-inj, bind-ok, if-ok, if-ok_then}
use blackstart.Module.Loops.{each-All, each-concat_map, concat_map}
use blackstart.Mysql.Grant.{Scope, Grant, grant_permissions, normalize_permission}
use blackstart.Mysql.Targets.{
  Expansion, target_of, expand_schema, expand_permission, expand_all, read_expansion, expand_grants,
}

abbrev normal : String → String
normal permission = to_upper (join_fields permission)

-- The grants of an expansion: one for each role, permission, schema and resource, in that order.
abbrev pub product : Expansion → List Grant
product e =
    concat_map
      (λ r.
        concat_map
          (λ p.
            concat_map (λ s. concat_map (λ t. target_of e r (normal p) s t ∷ []) e.resources)
              e.schemas)
          e.permissions)
      e.roles

-- A grant at the scope of the expansion, of a permission that the scope has.
abbrev pub IsAllowed : Expansion → Grant → Type 0
IsAllowed e g = (g.scope ≡ e.scope) × (contains (grant_permissions e.scope) g.permission ≡ true)

normalize_permission-ok :
    (sc : Scope) (p n : String)
    → normalize_permission sc p ≡ ok n
    → (n ≡ normal p) × (contains (grant_permissions sc) n ≡ true)
unfolding normalize_permission
normalize_permission-ok sc p n h =
    let (filled, rest) = if-ok (normal p == "") _ _ n h in
    let (allowed, made) = if-ok_then (contains (grant_permissions sc) (normal p)) _ _ n rest in
    let same = ok-inj made in
    (sym same, subst (λ m. contains (grant_permissions sc) m ≡ true) same allowed)

module _ (e : Expansion) where
  expand_schema-eq :
      (r n s : String) (gs : List Grant)
      → expand_schema e r n s ≡ ok gs
      → gs ≡ concat_map (λ t. target_of e r n s t ∷ []) e.resources
  unfolding expand_schema
  expand_schema-eq r n s = each-concat_map _ _ (λ t ys h. sym (ok-inj h)) e.resources

  expand_permission-eq :
      (r p : String) (gs : List Grant)
      → expand_permission e r p ≡ ok gs
      → gs
        ≡ concat_map
            (λ s. concat_map (λ t. target_of e r (normal p) s t ∷ []) e.resources)
            e.schemas
  unfolding expand_permission
  expand_permission-eq r p gs h =
      let (n, made, rest) = bind-ok (normalize_permission e.scope p) _ gs h in
      each-concat_map (expand_schema e r n) _
        (λ s ys hs.
          expand_schema-eq r n s ys hs
          ∙ ap (λ m. concat_map (λ t. target_of e r m s t ∷ []) e.resources)
              (normalize_permission-ok e.scope p n made).0)
        e.schemas gs rest

  expand_all-product : (gs : List Grant) → expand_all e ≡ ok gs → gs ≡ product e
  unfolding expand_all
  expand_all-product gs =
      each-concat_map _ _ (λ r. each-concat_map _ _ (expand_permission-eq r) e.permissions) e.roles
        gs

  expand_permission-IsAllowed :
      (r p : String) (gs : List Grant) → expand_permission e r p ≡ ok gs → All (IsAllowed e) gs
  unfolding expand_permission expand_schema
  expand_permission-IsAllowed r p gs h =
      let (n, made, rest) = bind-ok (normalize_permission e.scope p) _ gs h in
      let allowed = (normalize_permission-ok e.scope p n made).1 in
      each-All (expand_schema e r n) (IsAllowed e)
        (λ s.
          each-All _ (IsAllowed e)
            (λ t zs ht. subst (All (IsAllowed e)) (ok-inj ht) ((refl, allowed), tt)) e.resources)
        e.schemas gs rest

  expand_all-IsAllowed : (gs : List Grant) → expand_all e ≡ ok gs → All (IsAllowed e) gs
  unfolding expand_all
  expand_all-IsAllowed =
      each-All _ (IsAllowed e)
        (λ r. each-All _ (IsAllowed e) (expand_permission-IsAllowed r) e.permissions) e.roles

-- When the inputs expand to a list of grants, that list is the product of the lists that were read,
-- one grant for each role, permission, schema and resource in that order of nesting, with the
-- permission in capitals and with single spaces; and each grant stands at the scope that was read,
-- with a permission that this scope has.
pub expand_grants-product-IsAllowed :
    (ctx : ModuleContext) (gs : List Grant)
    → expand_grants ctx ≡ ok gs
    → (e : Expansion) × (read_expansion ctx ≡ ok e) × (gs ≡ product e) × All (IsAllowed e) gs
unfolding expand_grants
expand_grants-product-IsAllowed ctx gs h =
    let (e, read, expanded) = bind-ok (read_expansion ctx) expand_all gs h in
    (e, read, expand_all-product e gs expanded, expand_all-IsAllowed e gs expanded)
