-- ===== src/Workflow/Tables.antt =====
-- What the set-up of `execute` in workflow.go leaves in its maps.
use blackstart.Prelude.{
  String, Bool, true, ◌≡◌, refl, ap, Option, none, some, List, [], ◌∷◌, arith, contains,
  contains-head, eq_iff, String-cases, inl, inr,
}
use blackstart.Prelude.Dict
use blackstart.Prelude.Dict.{Dict, has, lookup-insert}
use blackstart.Values.{GoType}
use blackstart.Operation.{Operation}
use blackstart.Graph.{ids}
use blackstart.Module.{Module, ModuleInfo, Result, ok, err}
use blackstart.Module.Registry.{Registry, new_module}
use blackstart.Workflow.Prepare.{
  Tables, Stage, go, stop, no_tables, add_module, after_module, instantiate, check_one, check_all,
  setup_each, ◌>>=◌,
}
use blackstart.Workflow.Guarded.{IsKeyed}

pub setup_each-id : (ops : List Operation) → setup_each ops ≡ ops
unfolding setup_each
setup_each-id [] = refl
setup_each-id (o ∷ os) = ap (λ l. o ∷ l) (setup_each-id os)

abbrev Making : Type 0 → Type 0
Making World = Tables World → Tables World × Stage (Unit {0})

>>=-go :
    {A B : Type 0} (s : Stage A) (f : A → Stage B) (b : B)
    → (s >>= f) ≡ go b
    → (a : A) × (s ≡ go a) × (f a ≡ go b)
>>=-go (go a) f b h = (a, refl, h)
>>=-go (stop op e) f b h = cc

module _ {World : Type 0} where
  add_module-IsKeyed :
      (o : Operation) (m : Module World) (t : Tables World) → IsKeyed t → IsKeyed (add_module o m t)
  add_module-IsKeyed o m t keyed id op h =
      ground (arith, lookup-insert o.id id o t.operations, keyed id op, eq_iff o.id id)

  after_module-IsKeyed :
      (next : Making World) (o : Operation) (t : Tables World) (made : Result (Module World))
      → IsKeyed t
      → ((t : Tables World) → IsKeyed t → IsKeyed (next t).0)
      → IsKeyed (after_module next o t made).0
  after_module-IsKeyed next o t (err e) keyed later = keyed
  after_module-IsKeyed next o t (ok m) keyed later =
      later (add_module o m t) (add_module-IsKeyed o m t keyed)

  pub instantiate-IsKeyed :
      (r : Registry World) (ops : List Operation) (t : Tables World)
      → IsKeyed t
      → IsKeyed (instantiate r ops t).0
  unfolding instantiate
  instantiate-IsKeyed r [] t keyed = keyed
  instantiate-IsKeyed r (o ∷ os) t keyed =
      after_module-IsKeyed (instantiate r os) o t (new_module r o) keyed (instantiate-IsKeyed r os)

  -- The map `moduleInfo` holds only ids of operations.
  abbrev HasOnly : List String → Tables World → Type 0
  HasOnly names t = (id : String) → has id t.module_info ≡ true → contains names id ≡ true

  after_module-HasOnly :
      (names : List String) (next : Making World) (o : Operation) (t : Tables World)
      (made : Result (Module World))
      → HasOnly names t
      → contains names o.id ≡ true
      → ((t : Tables World) → HasOnly names t → HasOnly names (next t).0)
      → HasOnly names (after_module next o t made).0
  after_module-HasOnly names next o t (err e) only m later = only
  after_module-HasOnly names next o t (ok m) only mem later =
      later (add_module o m t) (λ id h.
        ground (arith, lookup-insert o.id id m.info t.module_info, only id, eq_iff o.id id))

  instantiate-HasOnly :
      (names : List String) (r : Registry World) (ops : List Operation) (t : Tables World)
      → HasOnly names t
      → ((id : String) → contains (ids ops) id ≡ true → contains names id ≡ true)
      → HasOnly names (instantiate r ops t).0
  unfolding instantiate
  instantiate-HasOnly names r [] t only sub = only
  instantiate-HasOnly names r (o ∷ os) t only sub =
      after_module-HasOnly names (instantiate r os) o t (new_module r o) only
        (sub o.id (contains-head o.id (ids os)))
        (λ t' only'. instantiate-HasOnly names r os t' only' (λ id h. sub id (ground arith)))

  pub module_info-in_ids :
      (r : Registry World) (ops : List Operation) (id : String)
      → has id (instantiate r ops no_tables).0.module_info ≡ true
      → contains (ids ops) id ≡ true
  unfolding Dict.lookup
  module_info-in_ids r ops = instantiate-HasOnly (ids ops) r ops no_tables (λ id h. cc) (λ id h. h)

  check_one-has :
      (imp : GoType → String → Bool) (t : Tables World) (id : String) (info : Option ModuleInfo)
      (op : Option Operation) (u : Unit {0})
      → check_one imp t id info op ≡ go u
      → (i : ModuleInfo) × (info ≡ some i)
  check_one-has imp t id none op u h = cc
  check_one-has imp t id (some i) op u h = (i, refl)

  -- Where all checks pass, every sorted id has its module's info.
  pub check_all-has :
      (imp : GoType → String → Bool) (t : Tables World) (order : List String) (u : Unit {0})
      → check_all imp t order ≡ go u
      → (id : String) → contains order id ≡ true
      → has id t.module_info ≡ true
  unfolding check_all
  check_all-has imp t [] u h id m = cc
  check_all-has imp t (x ∷ xs) u h id m =
      let (v, first, others) = >>=-go (check_one imp t x _ _) (λ _. check_all imp t xs) u h in
      elim (String-cases x id) [
        | inl same ↦
            let (i, found) = check_one-has imp t x _ _ v first in ground (arith, eq_iff x id, found)
        | inr other ↦ check_all-has imp t xs u others id (ground (arith, other))
      ]
