-- ===== src/Workflow/Duplicates.antt =====
-- What `findDuplicateOperationID` of workflow.go finds.
use blackstart.Prelude.{
  String, true, false, ◌≡◌, refl, ap, none, some, List, [], ◌∷◌, ◌++◌, arith, contains,
  contains-head, IsDistinct, ◌↔◌, ◌||◌, eq_iff, Bool-cases, inl, inr,
}
use blackstart.Operation.{Operation}
use blackstart.Graph.{ids}
use blackstart.Workflow.Checks.{duplicate_from, find_duplicate_operation_id}

-- The ids are new, and none of them comes twice.
abbrev IsFresh : List String → List String → Type 0
IsFresh seen [] = Unit
IsFresh seen (x ∷ xs) = (contains seen x ≡ false) × IsFresh (x ∷ seen) xs

IsFresh-apart :
    (seen xs : List String) (a : String)
    → IsFresh seen xs
    → contains seen a ≡ true
    → contains xs a ≡ false
IsFresh-apart seen [] a f m = refl
IsFresh-apart seen (x ∷ xs) a f m = ground (arith, IsFresh-apart (x ∷ seen) xs a f.1, eq_iff x a)

IsDistinct-IsFresh : (seen xs : List String) → IsFresh seen xs → IsDistinct xs
IsDistinct-IsFresh seen [] f = tt
IsDistinct-IsFresh seen (x ∷ xs) f =
    (IsFresh-apart (x ∷ seen) xs x f.1 (contains-head x seen), IsDistinct-IsFresh (x ∷ seen) xs f.1)

IsFresh-IsDistinct :
    (seen xs : List String)
    → IsDistinct xs
    → ((a : String) → contains xs a ≡ true → contains seen a ≡ false)
    → IsFresh seen xs
IsFresh-IsDistinct seen [] d apart = tt
IsFresh-IsDistinct seen (x ∷ xs) d apart = (
  apart x (contains-head x xs),
  IsFresh-IsDistinct (x ∷ seen) xs d.1 (λ a m. ground (arith, apart a, d.0, eq_iff x a)),
)

duplicate_from-IsFresh :
    (seen : List String) (ops : List Operation)
    → duplicate_from seen ops ≡ none
    → IsFresh seen (ids ops)
unfolding duplicate_from
duplicate_from-IsFresh seen [] h = tt
duplicate_from-IsFresh seen (o ∷ os) h =
    (ground arith, duplicate_from-IsFresh (o.id ∷ seen) os (ground arith))

duplicate_from-none :
    (seen : List String) (ops : List Operation)
    → IsFresh seen (ids ops)
    → duplicate_from seen ops ≡ none
unfolding duplicate_from
duplicate_from-none seen [] f = refl
duplicate_from-none seen (o ∷ os) f = rw f.0 (duplicate_from-none (o.id ∷ seen) os f.1)

-- No duplicate is found exactly when no two operations have the same id.
pub find_duplicate_operation_id-eq-none :
    (ops : List Operation) → (find_duplicate_operation_id ops ≡ none) ↔ IsDistinct (ids ops)
unfolding find_duplicate_operation_id
find_duplicate_operation_id-eq-none ops = (
  λ h. IsDistinct-IsFresh [] (ids ops) (duplicate_from-IsFresh [] ops h),
  λ d. duplicate_from-none [] ops (IsFresh-IsDistinct [] (ids ops) d (λ a m. refl)),
)

-- The operation that is found repeats the id of one before it, and up to it the ids are distinct.
pub record Repeats (ops : List Operation) (o : Operation) : Type 0 where
  pub before : List Operation
  pub after : List Operation
  pub splits : ops ≡ before ++ o ∷ after
  pub distinct : IsDistinct (ids before)
  pub repeated : contains (ids before) o.id ≡ true

duplicate_from-some :
    (seen : List String) (ops : List Operation) (o : Operation)
    → duplicate_from seen ops ≡ some o
    → (before : List Operation) × (after : List Operation) × (ops ≡ before ++ o ∷ after)
      × IsFresh seen (ids before)
      × ((contains seen o.id || contains (ids before) o.id) ≡ true)
unfolding duplicate_from
duplicate_from-some seen [] o h = cc
duplicate_from-some seen (x ∷ xs) o h = elim (Bool-cases (contains seen x.id)) [
  | inl old ↦ ([], xs, ground arith, tt, ground arith)
  | inr new ↦
      let (before, after, splits, fresh, repeated) =
        duplicate_from-some (x.id ∷ seen) xs o (ground (arith, new)) in
      (x ∷ before, after, ap (λ l. x ∷ l) splits, (new, fresh), ground (arith, repeated))
]

-- If a duplicate is found, it repeats the id of an operation before it, and the ids of the
-- operations before it are distinct: it is the first one.
pub find_duplicate_operation_id-Repeats :
    (ops : List Operation) (o : Operation)
    → find_duplicate_operation_id ops ≡ some o
    → Repeats ops o
unfolding find_duplicate_operation_id
find_duplicate_operation_id-Repeats ops o h =
    let (before, after, splits, fresh, repeated) = duplicate_from-some [] ops o h in
    record {
      before = before;
      after = after;
      splits = splits;
      distinct = IsDistinct-IsFresh [] (ids before) fresh;
      repeated = repeated;
    }
