-- ===== src/Graph/Order.antt =====
-- What `opoSort` of workflow.go promises: an order of the operations, or a true cycle.
use blackstart.Prelude.{String, true, ◌≡◌, ◌↔◌, refl, ◌⊎◌, inl, inr, List, contains}
use blackstart.Operation.{Operation}
use blackstart.Graph.{ids, Sorting, sorted, operation_cycle, no_fuel, opo_sort}
use blackstart.Graph.Reach.{
  Depends, IsOrdered, IsClosed-Depends, IsOrdered-IsClosed, IsOrdered-acyclic,
}
use blackstart.Graph.Correct.{Reached, IsCorrect, declares, opo_sort-IsCorrect}

sorted-IsCorrect :
    (ops : List Operation) (order : List String)
    → opo_sort ops ≡ sorted order
    → IsCorrect (declares ops) (ids ops) (sorted order)
sorted-IsCorrect ops order h = rw h at (opo_sort-IsCorrect ops)

cycle-IsCorrect :
    (ops : List Operation) (d : String)
    → opo_sort ops ≡ operation_cycle d
    → IsCorrect (declares ops) (ids ops) (operation_cycle d)
cycle-IsCorrect ops d h = rw h at (opo_sort-IsCorrect ops)

-- A successful sort lists every name once, and each name after all the names that its operation
-- lists in `DependsOn`.
pub opo_sort-IsOrdered :
    (ops : List Operation) (order : List String)
    → opo_sort ops ≡ sorted order
    → IsOrdered (declares ops) order
opo_sort-IsOrdered ops order h = (sorted-IsCorrect ops order h).0

Reached-in_order :
    (ops : List Operation) (order : List String) (x : String)
    → opo_sort ops ≡ sorted order
    → Reached (declares ops) (ids ops) x
    → contains order x ≡ true
Reached-in_order ops order x h (inl m) = (sorted-IsCorrect ops order h).1 x m
Reached-in_order ops order x h (inr (o, m, r)) =
    let c = sorted-IsCorrect ops order h in
    IsClosed-Depends (declares ops) (contains order) (IsOrdered-IsClosed (declares ops) order c.0) r
      (c.1 o m)

-- A successful sort holds exactly the ids of the operations and the names that they depend on, in
-- one step or more.
pub opo_sort_complete :
    (ops : List Operation) (order : List String) (x : String)
    → opo_sort ops ≡ sorted order
    → (contains order x ≡ true) ↔ Reached (declares ops) (ids ops) x
opo_sort_complete ops order x h =
    (λ m. (sorted-IsCorrect ops order h).2 x m, Reached-in_order ops order x h)

-- If the sort reports a cycle at `d`, then `d` is reached from the operations and depends on itself.
pub opo_sort_cycle :
    (ops : List Operation) (d : String)
    → opo_sort ops ≡ operation_cycle d
    → Reached (declares ops) (ids ops) d × Depends (declares ops) d d
opo_sort_cycle ops d h = cycle-IsCorrect ops d h

-- Of every list of operations the sort makes an order or reports a cycle: its fuel is enough.
pub opo_sort_total :
    (ops : List Operation)
    → ((order : List String) × (opo_sort ops ≡ sorted order))
      ⊎ ((d : String) × (opo_sort ops ≡ operation_cycle d))
opo_sort_total ops = cases (opo_sort ops) refl (opo_sort-IsCorrect ops)
  where
    cases :
        (s : Sorting)
        → opo_sort ops ≡ s
        → IsCorrect (declares ops) (ids ops) s
        → ((order : List String) × (opo_sort ops ≡ sorted order))
          ⊎ ((d : String) × (opo_sort ops ≡ operation_cycle d))
    cases (sorted order) e c = inl (order, e)
    cases (operation_cycle d) e c = inr (d, e)
    cases no_fuel e c = elim c [ ]

-- If some name that is reached from the operations depends on itself, the sort reports a cycle.
pub opo_sort_refuses :
    (ops : List Operation) (x : String)
    → Reached (declares ops) (ids ops) x
    → Depends (declares ops) x x
    → (d : String) × (opo_sort ops ≡ operation_cycle d)
opo_sort_refuses ops x m r = elim (opo_sort_total ops) [
  | inl (order, h) ↦ absurd (
      IsOrdered-acyclic (declares ops) order x (opo_sort-IsOrdered ops order h)
        (Reached-in_order ops order x h m) r)
  | inr found ↦ found
]
