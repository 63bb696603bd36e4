-- ===== src/Workflow/Outcome.antt =====
-- What a run of `execute` in workflow.go promises, from its first check to its result.
use blackstart.Prelude.{
  String, ◌≡◌, refl, sym, ap, ◌∙◌, Option, none, some, List, [], arith, length, IsDistinct,
  length-le_of_subset, inl, length-map,
}
use mathlib.Core.Path.{subst}
use mathlib.Core.List.{append-nil}
use blackstart.Prelude.Dict
use blackstart.Operation.{Operation}
use blackstart.Graph
use blackstart.Graph.{ids, Sorting, sorted, no_fuel, opo_sort}
use blackstart.Graph.Reach.{IsOrderedAfter-IsDistinct}
use blackstart.Graph.Correct.{declares}
use blackstart.Graph.Order.{opo_sort-IsOrdered, opo_sort_complete}
use blackstart.Module.{Error}
use blackstart.Workflow.{Phase, WorkflowResult}
use blackstart.Workflow.Checks.{find_duplicate_operation_id}
use blackstart.Workflow.Prepare.{Tables, Stage, go, stop, no_tables, instantiate, check_all}
use blackstart.Workflow.Run.{Execution, run_all}
use blackstart.Workflow.Execute.{
  Host, result_at, close_after, after_validation, after_checks, after_sort, after_instantiate,
  after_duplicates, execute,
}
use blackstart.Workflow.Guarded.{finished, IsGuarded, IsKeyed, run_all-IsGuarded}
use blackstart.Workflow.Progress.{Progress, run_all-Progress, run_all-total}
use blackstart.Workflow.Tables.{
  setup_each-id, instantiate-IsKeyed, module_info-in_ids, check_all-has,
}
use blackstart.Workflow.Duplicates.{find_duplicate_operation_id-eq-none}

-- What the run leaves, by the way it went: stopped before any operation was run, or with the
-- execution loop over the sorted ids.
data Ran {World : Type 0} (h : Host World) (ops : List Operation) (st : Execution World)
    (out : WorkflowResult × Execution World) : Type 0 where
  stopped :
      out.1.log ≡ st.log
      → out.0.completed_operations ≡ 0
      → ((e : Error) × (out.0.err ≡ some e))
      → Ran h ops st out
  looped :
      (order : List String) (res : WorkflowResult) (t : Tables World) (u : Unit {0})
      → find_duplicate_operation_id ops ≡ none
      → opo_sort ops ≡ sorted order
      → t ≡ (instantiate h.registry ops no_tables).0
      → check_all h.implements t order ≡ go u
      → res.err ≡ none
      → res.completed_operations ≡ 0
      → res.total_operations ≡ length ops
      → out.0 ≡ (run_all h.registry t order res st).0
      → out.1.log ≡ (run_all h.registry t order res st).1.log
      → Ran h ops st out

module _ {World : Type 0} (h : Host World) (ops : List Operation) (st : Execution World)
    (new : find_duplicate_operation_id ops ≡ none) where
  abbrev made : Tables World
  made = (instantiate h.registry ops no_tables).0

  after_validation-Ran :
      (order : List String) (u : Unit {0}) (s : Stage (Option Operation))
      → opo_sort ops ≡ sorted order
      → check_all h.implements made order ≡ go u
      → Ran h ops st (after_validation h (length ops) made order st s)
  after_validation-Ran order u (stop op e) o c = stopped refl refl (e, refl)
  after_validation-Ran order u (go last) o c =
      looped order (result_at Phase.execute last none (length ops)) made u new o refl c refl refl
        refl refl refl

  after_checks-Ran :
      (order : List String) (s : Stage (Unit {0}))
      → opo_sort ops ≡ sorted order
      → check_all h.implements made order ≡ s
      → Ran h ops st (after_checks h (length ops) made order st s)
  after_checks-Ran order (stop op e) o c = stopped refl refl (e, refl)
  after_checks-Ran order (go u) o c = after_validation-Ran order u _ o c

  after_sort-Ran :
      (s : Sorting) → opo_sort ops ≡ s → Ran h ops st (after_sort h (length ops) made st s)
  after_sort-Ran (Graph.operation_cycle d) o = stopped refl refl (_, refl)
  after_sort-Ran no_fuel o = stopped refl refl (_, refl)
  after_sort-Ran (sorted order) o = after_checks-Ran order _ o refl

  after_instantiate-Ran : (s : Stage (Unit {0})) → Ran h ops st (after_instantiate h ops st made s)
  after_instantiate-Ran (stop op e) = stopped refl refl (e, refl)
  after_instantiate-Ran (go _) = after_sort-Ran (opo_sort ops) refl

  close_after-Ran :
      (t : Tables World) (out : WorkflowResult × Execution World)
      → Ran h ops st out
      → Ran h ops st (close_after t out)
  close_after-Ran t out (stopped a b c) = stopped a b c
  close_after-Ran t out (looped order res t' u a b c d e f g i j) =
      looped order res t' u a b c d e f g i j

execute-Ran :
    {World : Type 0} (h : Host World) (ops : List Operation) (st : Execution World)
    → Ran h ops st (execute h ops st)
unfolding execute
execute-Ran h ops st = cases (find_duplicate_operation_id ops) refl
  where
    cases :
        (d : Option Operation)
        → find_duplicate_operation_id ops ≡ d
        → Ran h ops st (after_duplicates h ops st d)
    cases (some o) e = stopped refl refl (_, refl)
    cases none e =
        let (t, s) = instantiate h.registry ops no_tables in
        rw setup_each-id (
          close_after-Ran h ops st e t (after_instantiate h ops st t s)
            (after_instantiate-Ran h ops st e s))

IsKeyed-none : (World : Type 0) → IsKeyed (no_tables {World = World})
unfolding Dict.lookup
IsKeyed-none World id op h = cc

module _ {World : Type 0} (h : Host World) (ops : List Operation) (st : Execution World) where
  -- Whatever the modules do, an operation is checked only after all the operations that it lists
  -- in `DependsOn` have been completed in the same run.
  pub execute-IsGuarded : st.log ≡ [] → IsGuarded (declares ops) (execute h ops st).1.log
  execute-IsGuarded empty = elim (execute-Ran h ops st) [
    | stopped same _ _ ↦ rw (same, empty) tt
    | looped order res t u _ o is_made _ _ _ _ _ log ↦ rw log (
        run_all-IsGuarded (declares ops) h.registry t
          (rw is_made (instantiate-IsKeyed h.registry ops no_tables (IsKeyed-none World))) [] order
          [] res st (opo_sort-IsOrdered ops order o) (λ d m. m) (rw empty tt) (rw empty))
  ]

  -- The operations that a run completes are a prefix of the sorted order, completed in that order
  -- and counted by the result; all of them, if the result has no error.
  pub execute-Progress :
      (order : List String)
      → opo_sort ops ≡ sorted order
      → st.log ≡ []
      → Progress [] order 0 (execute h ops st).0 (execute h ops st).1.log
  execute-Progress order o empty = elim (execute-Ran h ops st) [
    | stopped same count (e, failed) ↦ record {
      taken = [];
      left = order;
      splits = refl;
      finishes = rw (same, empty);
      counts = omega (arith, count);
      all_taken = λ f. cc;
    }
    | looped order' res t u _ o' is_made _ fine count _ out log ↦
        let same : order' ≡ order = cc (o, o') in
        let p =
          run_all-Progress h.registry t
            (rw is_made (instantiate-IsKeyed h.registry ops no_tables (IsKeyed-none World))) order'
            [] res st fine (rw empty) in
        rw (← same, out, log)
          (subst
            (λ c.
              Progress [] order' c (run_all h.registry t order' res st).0
                (run_all h.registry t order' res st).1.log)
            count p)
  ]

  -- The order has as many ids as there are operations, if the checks find all of them.
  length-order :
      (order : List String) (u : Unit {0})
      → IsDistinct (ids ops)
      → opo_sort ops ≡ sorted order
      → check_all h.implements (instantiate h.registry ops no_tables).0 order ≡ go u
      → length order ≡ length ops
  length-order order u distinct o checked = omega (
    arith,
    length-map (λ (o : Operation). o.id) ops,
    length-le_of_subset order (ids ops)
        (IsOrderedAfter-IsDistinct (declares ops) [] order (opo_sort-IsOrdered ops order o))
        (λ a m. module_info-in_ids h.registry ops a (check_all-has _ _ order u checked a m)),
    length-le_of_subset (ids ops) order distinct
        (λ a m. (opo_sort_complete ops order a o).1 (inl m)),
  )

  -- A result with no error means that the ids are distinct, that they could be sorted, and that
  -- every operation was completed, once each and in the sorted order: the counts of the result are
  -- equal, and are the number of operations.
  pub execute_success :
      st.log ≡ []
      → (execute h ops st).0.err ≡ none
      → IsDistinct (ids ops)
        × ((order : List String) × (opo_sort ops ≡ sorted order)
            × (finished (execute h ops st).1.log ≡ order))
        × ((execute h ops st).0.completed_operations ≡ length ops)
        × ((execute h ops st).0.total_operations ≡ length ops)
  execute_success empty good = elim (execute-Ran h ops st) [
    | stopped same count (e, failed) ↦ cc
    | looped order res t u new o is_made checked fine count total out log ↦
        let distinct = (find_duplicate_operation_id-eq-none ops).0 new in
        let p = execute-Progress order o empty in
        let all : p.taken ≡ order = sym (p.splits ∙ rw (p.all_taken good) (append-nil p.taken)) in
        (
          distinct,
          (order, o, p.finishes ∙ all),
          omega (
            arith,
            p.counts,
            ap length all,
            length-order order u distinct o (rw is_made at checked),
          ),
          rw out (run_all-total h.registry t order res st ∙ total),
        )
  ]
