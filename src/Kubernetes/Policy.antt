-- ===== src/Kubernetes/Policy.antt =====
-- modules/kubernetes/configmap_value.go and modules/kubernetes/secret_value.go: what the update policies protect.
use blackstart.Prelude.{
  if_false, String, Bool, true, false, Option, none, some, ◌==◌, ◌≡◌, ◌≢◌, inl, inr, refl, sym, ap,
  subst, ◌∙◌, arith, eq_iff, eq_refl, Bool-cases, String-cases, false≢true,
}
use blackstart.Prelude.Dict.{Dict, lookup, has}
use blackstart.Values.{Value}
use blackstart.Module.{Error, Result, ok, err, ModuleContext}
use blackstart.Module.Results.{ok-inj}
use blackstart.Module.Context.{output}
use blackstart.Kubernetes.ValueInput.{Policy, overwrite, preserve, preserve_any, fail}
use blackstart.Kubernetes.ConfigMapValue.{
  Kind, CheckInputs, read_check, desired_text, answered, passes, compare_value, check_present,
  check_read, check_value,
}

abbrev pub answer_of : Result Bool × ModuleContext → Result Bool
answer_of r = r.0

passes-true :
    (v : String) (ctx : ModuleContext)
    → has "value" ctx.output_values ≡ false
    → (passes v ctx).0 ≡ ok true
unfolding passes output
passes-true v ctx fresh = rw fresh refl

err-not_false : {e : Error} → err e ≢ ok false
err-not_false h = cc

answered-not_false : (r : Option Error × ModuleContext) → (answered r).0 ≢ ok false
answered-not_false (none, ctx) h = false≢true (sym (ok-inj h))
answered-not_false (some e, ctx) h = cc

passes-not_false : (v : String) (ctx : ModuleContext) → (passes v ctx).0 ≢ ok false
unfolding passes
passes-not_false v ctx h = answered-not_false (output "value" (Value.string v) ctx) h

-- The only values that a check may let `Set` overwrite.
abbrev pub MayOverwrite : CheckInputs → String → Policy → Type 0
MayOverwrite i actual overwrite = actual ≢ desired_text i.desired
MayOverwrite i actual preserve = actual ≡ ""
MayOverwrite i actual preserve_any = ⊥
MayOverwrite i actual fail = ⊥

compare_value-MayOverwrite :
    (i : CheckInputs) (actual : String) (ctx : ModuleContext) (p : Policy)
    → (compare_value i actual ctx p).0 ≡ ok false
    → MayOverwrite i actual p
unfolding compare_value
compare_value-MayOverwrite i actual ctx overwrite h =
    elim (Bool-cases (actual == desired_text i.desired)) [
      | inl same ↦ absurd (passes-not_false actual ctx (rw same at h))
      | inr other ↦ ground (arith, eq_iff actual (desired_text i.desired))
    ]
compare_value-MayOverwrite i actual ctx preserve h = elim (String-cases actual "") [
  | inl blank ↦ blank
  | inr filled ↦ absurd (passes-not_false actual ctx (rw filled at h))
]
compare_value-MayOverwrite i actual ctx preserve_any h = passes-not_false actual ctx h
compare_value-MayOverwrite i actual ctx fail h =
    elim (Bool-cases (actual == desired_text i.desired)) [
      | inl same ↦ passes-not_false actual ctx (rw same at h)
      | inr other ↦ err-not_false (rw other at h)
    ]

pub compare_value-passes :
    (i : CheckInputs) (v : String) (ctx : ModuleContext) (p : Policy)
    → i.desired ≡ some v
    → has "value" ctx.output_values ≡ false
    → (p ≡ preserve → desired_text i.desired ≢ "")
    → (compare_value i v ctx p).0 ≡ ok true
unfolding compare_value
compare_value-passes i v ctx overwrite given fresh filled =
    rw given (rw (eq_refl v) (passes-true v ctx fresh))
compare_value-passes i v ctx preserve given fresh filled = elim (String-cases v "") [
  | inl blank ↦ absurd (filled refl (ap desired_text given ∙ blank))
  | inr full ↦ rw full (passes-true v ctx fresh)
]
compare_value-passes i v ctx preserve_any given fresh filled = passes-true v ctx fresh
compare_value-passes i v ctx fail given fresh filled =
    rw given (rw (eq_refl v) (passes-true v ctx fresh))

-- When `Check` can read its inputs, the key has a value and the operation is neither tainted nor one
-- that must not exist, then `Check` answers no without an error, and so lets `Set` run, only if the
-- policy is `overwrite` and the value differs from the wanted one, or the policy is `preserve` and
-- the value is empty.
pub check_value-MayOverwrite :
    (kind : Kind) (ctx : ModuleContext) (entries : Dict String) (i : CheckInputs) (actual : String)
    → read_check kind ctx ≡ ok i
    → ctx.tainted ≡ false
    → ctx.dne ≡ false
    → lookup i.key entries ≡ some actual
    → (check_value kind ctx entries).0 ≡ ok false
    → MayOverwrite i actual i.policy
unfolding check_value check_read check_present
check_value-MayOverwrite kind ctx entries i actual read untainted wanted there answer =
    compare_value-MayOverwrite i actual ctx i.policy (
      sym (ap (λ o. (check_present i o ctx).0) there)
      ∙ (sym (if_false answer_of _ _ wanted)
          ∙ (sym (if_false answer_of _ _ untainted)
              ∙ subst (λ r. (check_read entries ctx r).0 ≡ ok false) read answer)))
