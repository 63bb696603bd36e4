-- ===== src/Graph/Samples.antt =====
-- The sort on small inputs, and its theorems there.
use blackstart.Prelude.{String, true, false, ◌≡◌, ◌↔◌, refl, ◌⊎◌, inl, List, [], ◌∷◌, contains}
use blackstart.Operation.{Operation}
use blackstart.Graph.{
  ids, sorted, operation_cycle, deps_of, add_dep, visit_deps, dfs, visit_ops, topo_sort, add_deps,
  add_ops, graph_of, opo_sort,
}
use blackstart.Graph.Reach.{Depends, direct, through, IsOrdered}
use blackstart.Graph.Correct.{Reached, declares}
use blackstart.Graph.Order.{
  opo_sort-IsOrdered, opo_sort_complete, opo_sort_cycle, opo_sort_refuses, opo_sort_total,
}
use blackstart.Prelude.Dict

abbrev op : String → List String → Operation
op id depends_on = record {
  module_id = "mock";
  id = id;
  name = "";
  description = "";
  depends_on = depends_on;
  inputs = [];
  does_not_exist = false;
  tainted = false;
}

program : Unit {0}
unfolding opo_sort graph_of add_ops add_deps add_dep deps_of topo_sort visit_ops dfs visit_deps
    Dict.lookup Dict.insert
program = tt

abbrev diamond : List Operation
diamond =
    op "test3" ("test1" ∷ "test2" ∷ [])
    ∷ op "test1" ("test0" ∷ [])
    ∷ op "test2" ("test0" ∷ [])
    ∷ op "test0" []
    ∷ []

abbrev diamond_order : List String
diamond_order = "test0" ∷ "test1" ∷ "test2" ∷ "test3" ∷ []

opo_sort-diamond : opo_sort diamond ≡ sorted diamond_order
unfolding program
opo_sort-diamond = refl

abbrev looped : List Operation
looped = op "a" ("b" ∷ []) ∷ op "b" ("c" ∷ []) ∷ op "c" ("b" ∷ []) ∷ []

opo_sort-looped : opo_sort looped ≡ operation_cycle "b"
unfolding program
opo_sort-looped = refl

opo_sort-IsOrdered_example : IsOrdered (declares diamond) diamond_order
opo_sort-IsOrdered_example = opo_sort-IsOrdered diamond diamond_order opo_sort-diamond

opo_sort_complete_example :
    (contains diamond_order "test2" ≡ true) ↔ Reached (declares diamond) (ids diamond) "test2"
opo_sort_complete_example = opo_sort_complete diamond diamond_order "test2" opo_sort-diamond

opo_sort_cycle_example :
    Reached (declares looped) (ids looped) "b" × Depends (declares looped) "b" "b"
opo_sort_cycle_example = opo_sort_cycle looped "b" opo_sort-looped

opo_sort_total_example :
    ((order : List String) × (opo_sort looped ≡ sorted order))
    ⊎ ((d : String) × (opo_sort looped ≡ operation_cycle d))
opo_sort_total_example = opo_sort_total looped

opo_sort_refuses_example : (d : String) × (opo_sort looped ≡ operation_cycle d)
opo_sort_refuses_example =
    opo_sort_refuses looped "c" (inl refl) (through {b = "b"} refl (direct refl))
