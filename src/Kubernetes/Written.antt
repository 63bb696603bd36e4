-- ===== src/Kubernetes/Written.antt =====
-- modules/kubernetes/configmap_value.go and modules/kubernetes/secret_value.go: what `Set` sends and
-- leaves, and that `Check` passes after it.
use blackstart.Prelude.{
  if_true, if_false, Bool, String, true, false, not, Option, none, some, [], ◌∷◌, ◌==◌,
  if◌then◌else◌, ◌≡◌, ◌≢◌, inl, inr, refl, sym, ap, subst, ◌∙◌, arith, eq_iff, Bool-cases,
}
use blackstart.Prelude.Dict.{Dict, lookup, insert, has, lookup-insert, lookup-insert_self}
use blackstart.Inputs.{string_target, context_input_as}
use blackstart.Module.{Error, Result, ok, ModuleContext}
use blackstart.Module.Results.{ok-inj, bind-ok}
use blackstart.Kubernetes.ValueInput.{
  preserve, context_update_policy, context_optional_value, require_value_input,
}
use blackstart.Kubernetes.ConfigMapValue.{
  Kind, holder_input, Update, CheckInputs, required, read_check, read_set, desired_text,
  check_present, check_read, check_value, delete_entry, Written, saved_then_emitted, write_value,
  remove_value, set_read, set_value,
}
use blackstart.Kubernetes.Policy.{answer_of, compare_value-passes}

required-ok :
    (o : Option Error) (r : Result CheckInputs) (i : CheckInputs) → required o r ≡ ok i → r ≡ ok i
required-ok none r i h = h
required-ok (some e) r i h = cc

-- What `Check` has read is what `Set` reads.
read_set-read_check :
    (kind : Kind) (ctx : ModuleContext) (i : CheckInputs)
    → read_check kind ctx ≡ ok i
    → read_set kind ctx ≡ ok (i.key, i.desired)
unfolding read_check read_set
read_set-read_check kind ctx i h =
    let (found, c, h1) = bind-ok (holder_input kind ctx) _ i h in
    let (key, k, h2) = bind-ok (context_input_as string_target ctx "key" true) _ i h1 in
    let (policy, p, h3) = bind-ok (context_update_policy ctx) _ i h2 in
    let (desired, d, h4) = bind-ok (context_optional_value ctx) _ i h3 in
    let same = ok-inj (required-ok (require_value_input policy desired) _ i h4) in
    rw c (rw k (rw d (ap (λ j. ok (j.key, j.desired)) same)))

delete_entry-has :
    (key : String) (entries : Dict String) → has key (delete_entry key entries) ≡ false
unfolding delete_entry lookup
delete_entry-has key [] = refl
delete_entry-has key (entry ∷ rest) = ground (arith, delete_entry-has key rest)

lookup-delete_entry :
    (key other : String) (entries : Dict String)
    → (key == other) ≡ false
    → lookup other (delete_entry key entries) ≡ lookup other entries
unfolding delete_entry lookup
lookup-delete_entry key other [] ne = refl
lookup-delete_entry key other (entry ∷ rest) ne = ground (
  arith,
  lookup-delete_entry key other rest,
  eq_iff entry.0 key,
  eq_iff entry.0 other,
  eq_iff key other,
)

-- What Kubernetes documents of an update: the object that it returns without an error is the one that
-- it has stored, which has the values that were sent.
abbrev pub Echoes : {World : Type 0} → Update World → Type 0
Echoes {World} save =
    (entries : Dict String) (w : World)
    → (save entries w).0 ≡ none
    → (other : String) → lookup other (save entries w).1.0 ≡ lookup other entries

has-cong : (key : String) (a b : Dict String) → lookup key a ≡ lookup key b → has key a ≡ has key b
has-cong key a b same = ap is_some same
  where
    is_some : Option String → Bool
    is_some none = false
    is_some (some v) = true

module _ {World : Type 0} (save : Update World) (echoes : Echoes save) where
  set_read-eq :
      (kind : Kind) (ctx : ModuleContext) (entries : Dict String) (w : World) (i : CheckInputs)
      → read_check kind ctx ≡ ok i
      → set_value save kind ctx entries w ≡ (
          if ctx.dne
          then remove_value save ctx entries w i.key
          else write_value save ctx entries w i.key i.desired)
  unfolding set_value set_read
  set_read-eq kind ctx entries w i read = rw (read_set-read_check kind ctx i read) refl

  saved_then_emitted-data :
      (ctx : ModuleContext) (v : String) (r : Option Error × (Dict String × World))
      → (saved_then_emitted save ctx v r).failure ≡ none
      → (r.0 ≡ none) × ((saved_then_emitted save ctx v r).data_after ≡ r.1.0)
  saved_then_emitted-data ctx v (some e, left) h = cc
  saved_then_emitted-data ctx v (none, left) h = (refl, refl)

  -- What a `Set` without an error leaves, where it writes a value.
  write_value-data :
      (ctx : ModuleContext) (entries : Dict String) (w : World) (key : String) (o : Option String)
      → (write_value save ctx entries w key o).failure ≡ none
      → (v : String) × (o ≡ some v)
        × ((other : String)
            → lookup other (write_value save ctx entries w key o).data_after
              ≡ lookup other (insert key v entries))
  unfolding write_value
  write_value-data ctx entries w key none h = cc
  write_value-data ctx entries w key (some v) h =
      let (success, left) = saved_then_emitted-data ctx v (save (insert key v entries) w) h in
      (v, refl, λ other. ap (lookup other) left ∙ echoes (insert key v entries) w success other)

  -- What a `Set` without an error leaves, where it removes a value.
  remove_value-data :
      (ctx : ModuleContext) (entries : Dict String) (w : World) (key : String)
      → (remove_value save ctx entries w key).failure ≡ none
      → (has key (remove_value save ctx entries w key).data_after ≡ false)
        × ((other : String)
            → (key == other) ≡ false
            → lookup other (remove_value save ctx entries w key).data_after ≡ lookup other entries)
  unfolding remove_value
  remove_value-data ctx entries w key h = elim (Bool-cases (has key entries)) [
    | inl there ↦
        let sent =
          echoes (delete_entry key entries) w
            (sym (if_true (λ (u : Written World). u.failure) _ _ there) ∙ h) in
        let left = if_true {b = has key entries} (λ (u : Written World). u.data_after) _ _ there in
        (
          has-cong key _ (delete_entry key entries) (ap (lookup key) left ∙ sent key)
              ∙ delete_entry-has key entries,
          λ other ne.
              ap (lookup other) left ∙ sent other ∙ lookup-delete_entry key other entries ne,
        )
    | inr absent ↦
        let left =
          if_false {b = has key entries} (λ (u : Written World). u.data_after) _ _ absent in
        (has-cong key _ entries (ap (lookup key) left) ∙ absent, λ other ne. ap (lookup other) left)
  ]

  -- When `Check` can read its inputs, the operation is not tainted, its `value` is not written yet,
  -- it does not preserve with an empty value, and `Set` ends without an error, then `Check` passes on
  -- the data that `Set` leaves, which is what the client has returned. An update without an error
  -- returns the values that it was sent.
  pub set_value-check :
      (kind : Kind) (ctx : ModuleContext) (entries : Dict String) (w : World) (i : CheckInputs)
      → read_check kind ctx ≡ ok i
      → ctx.tainted ≡ false
      → has "value" ctx.output_values ≡ false
      → (i.policy ≡ preserve → desired_text i.desired ≢ "")
      → (set_value save kind ctx entries w).failure ≡ none
      → (check_value kind ctx (set_value save kind ctx entries w).data_after).0 ≡ ok true
  unfolding check_value check_read check_present
  set_value-check kind ctx entries w i read untainted fresh filled success =
      let left = (set_value save kind ctx entries w).data_after in
      subst (λ r. (check_read left ctx r).0 ≡ ok true) (sym read)
        (if_false answer_of _ _ untainted ∙ elim (Bool-cases ctx.dne) [
          | inl gone ↦
              if_true answer_of _ _ gone
              ∙ ap (λ b. ok (not b))
                  (ap (λ (u : Written World). has i.key u.data_after)
                      (set_read-eq kind ctx entries w i read
                        ∙ if_true (λ (u : Written World). u) _ _ gone)
                    ∙ (remove_value-data ctx entries w i.key (
                        ap (λ (u : Written World). u.failure)
                          (sym (
                            set_read-eq kind ctx entries w i read
                            ∙ if_true (λ (u : Written World). u) _ _ gone))
                        ∙ success)).0)
          | inr wanted ↦
              let what =
                set_read-eq kind ctx entries w i read
                ∙ if_false (λ (u : Written World). u) _ _ wanted in
              let (v, given, written) =
                write_value-data ctx entries w i.key i.desired
                  (ap (λ (u : Written World). u.failure) (sym what) ∙ success) in
              if_false answer_of _ _ wanted
              ∙ (ap (λ o. (check_present i o ctx).0)
                    (ap (λ (u : Written World). lookup i.key u.data_after) what ∙ written i.key)
                  ∙ (ap (λ o. (check_present i o ctx).0) (lookup-insert_self i.key v entries)
                      ∙ compare_value-passes i v ctx i.policy given fresh filled))
        ])

  -- When `Set` has read its key and ends without an error, it leaves the values under all other keys
  -- as they were, also where it removes a value. An update without an error returns the values that
  -- it was sent.
  pub set_value-others :
      (kind : Kind) (ctx : ModuleContext) (entries : Dict String) (w : World) (key : String)
      (o : Option String) (other : String)
      → read_set kind ctx ≡ ok (key, o)
      → (key == other) ≡ false
      → (set_value save kind ctx entries w).failure ≡ none
      → lookup other (set_value save kind ctx entries w).data_after ≡ lookup other entries
  unfolding set_value set_read
  set_value-others kind ctx entries w key o other read ne =
      subst
        (λ r.
          (set_read save ctx entries w r).failure ≡ none
          → lookup other (set_read save ctx entries w r).data_after ≡ lookup other entries)
        (sym read)
        (λ success. elim (Bool-cases ctx.dne) [
          | inl gone ↦
              if_true (λ (u : Written World). lookup other u.data_after) _ _ gone
              ∙ (remove_value-data ctx entries w key
                    (sym (if_true (λ (u : Written World). u.failure) _ _ gone) ∙ success)).1
                  other ne
          | inr wanted ↦
              let (v, given, written) =
                write_value-data ctx entries w key o
                  (sym (if_false (λ (u : Written World). u.failure) _ _ wanted) ∙ success) in
              if_false (λ (u : Written World). lookup other u.data_after) _ _ wanted
              ∙ (written other ∙ ground (arith, lookup-insert key other v entries))
        ])
