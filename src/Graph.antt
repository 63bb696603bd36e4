-- ===== src/Graph.antt =====
-- workflow.go: `dependencyGraph`, its depth-first search and the topological sort.
pub mod Reach
mod Walks
mod Traversal
pub mod Correct
pub mod Order
mod Samples
use blackstart.Prelude.{
  ℕ, zero, suc, String, Bool, true, false, none, some, List, [], ◌∷◌, ◌++◌, map, length, ◌==◌,
  if◌then◌else◌,
}
use blackstart.Prelude.Dict
use blackstart.Prelude.Dict.{Dict}
use blackstart.Operation.{Operation}

-- type dependencyGraph struct
pub record DependencyGraph : Type 0 where
  pub deps : Dict (List String)
  pub ops : List String

-- g.deps[opId]; a missing key reads as a nil slice
unfoldable pub deps_of : DependencyGraph → String → List String
deps_of g op = elim (Dict.lookup op g.deps) [ none ↦ [] | some ds ↦ ds ]

-- (g *dependencyGraph) addDep
unfoldable pub add_dep : DependencyGraph → String → String → DependencyGraph
unfolding deps_of
add_dep g from to = record g { deps = Dict.insert from (deps_of g from ++ to ∷ []) g.deps }

-- The two maps and the slice that the search mutates. The maps are only ever read by key.
pub record Walk : Type 0 where
  pub visited : String → Bool
  pub recursion_stack : String → Bool
  pub order : List String

abbrev pub update : (String → Bool) → String → Bool → String → Bool
update f k b j = if k == j then b else f j

-- `cycle d` is the error "cycle involving d"; `exhausted` would be a lack of fuel
pub data Search : Type 0 where
  done : Walk → Search
  cycle : String → Search
  exhausted : Search

abbrev pub and_then : Search → (Walk → Search) → Search
and_then (done w) f = f w
and_then (cycle d) f = cycle d
and_then exhausted f = exhausted

abbrev pub enter : String → Walk → Walk
enter op w = record w {
  visited = update w.visited op true;
  recursion_stack = update w.recursion_stack op true;
}

abbrev pub leave : String → Walk → Walk
leave op w = record w {
  recursion_stack = update w.recursion_stack op false;
  order = w.order ++ op ∷ [];
}

-- The loop over `g.deps[opId]` in `dfs`; `go` is the recursive call.
unfoldable pub visit_deps : (String → Walk → Search) → List String → Walk → Search
visit_deps go [] w = done w
visit_deps go (d ∷ ds) w = elim (w.recursion_stack d) [
  | true ↦ cycle d
  | false ↦ elim (w.visited d) [
    | true ↦ visit_deps go ds w
    | false ↦ and_then (go d w) (visit_deps go ds)
  ]
]

-- (g *dependencyGraph) dfs
unfoldable pub dfs : DependencyGraph → ℕ → String → Walk → Search
dfs g zero op w = exhausted
dfs g (suc fuel) op w =
    and_then (visit_deps (dfs g fuel) (deps_of g op) (enter op w)) (λ w'. done (leave op w'))

-- The loop of `topoSort`.
unfoldable pub visit_ops : (String → Walk → Search) → List String → Walk → Search
visit_ops go [] w = done w
visit_ops go (o ∷ os) w = elim (w.visited o) [
  | true ↦ visit_ops go os w
  | false ↦ and_then (go o w) (visit_ops go os)
]

abbrev pub start : Walk
start = record { visited = λ _. false; recursion_stack = λ _. false; order = [] }

-- Every name that the graph mentions; a level of recursion for each is enough fuel.
abbrev pub targets : Dict (List String) → List String
targets [] = []
targets ((k, ds) ∷ m) = ds ++ targets m

abbrev pub nodes : DependencyGraph → List String
nodes g = g.ops ++ targets g.deps

-- What `topoSort` returns: the order, or the error that wraps `ErrOperationCycle`.
pub data Sorting : Type 0 where
  sorted : List String → Sorting
  operation_cycle : String → Sorting
  no_fuel : Sorting

abbrev pub sorting : Search → Sorting
sorting (done w) = sorted w.order
sorting (cycle d) = operation_cycle d
sorting exhausted = no_fuel

-- (g *dependencyGraph) topoSort
unfoldable pub topo_sort : DependencyGraph → Sorting
topo_sort g = sorting (visit_ops (dfs g (length (nodes g))) g.ops start)

-- The loops of `opoSort`: the ids in order, and an edge for each entry of `DependsOn`.
abbrev pub ids : List Operation → List String
ids ops = map (λ o. o.id) ops

unfoldable pub add_deps : DependencyGraph → String → List String → DependencyGraph
add_deps g from [] = g
add_deps g from (d ∷ ds) = add_deps (add_dep g from d) from ds

unfoldable pub add_ops : DependencyGraph → List Operation → DependencyGraph
add_ops g [] = g
add_ops g (o ∷ os) = add_ops (add_deps g o.id o.depends_on) os

unfoldable pub graph_of : List Operation → DependencyGraph
graph_of ops = add_ops (record { deps = []; ops = ids ops }) ops

-- opoSort
unfoldable pub opo_sort : List Operation → Sorting
opo_sort ops = topo_sort (graph_of ops)
