-- ===== src/Graph/Correct.antt =====
-- The outcome of the search as an outcome of `topoSort` and `opoSort` of workflow.go.
use blackstart.Prelude.{
  String, true, false, ◌≡◌, refl, ◌∙◌, ◌⊎◌, inl, inr, some, List, [], ◌∷◌, ◌++◌, ◌||◌, ◌&&◌, ◌==◌,
  eq_iff, arith, contains, contains-append, length, String-cases, Option-cases,
}
use mathlib.Core.Path.{fun_ext, subst₂}
use blackstart.Prelude.Dict
use blackstart.Prelude.Dict.{Dict, lookup-insert}
use blackstart.Operation.{Operation}
use blackstart.Graph.{
  DependencyGraph, deps_of, add_dep, Search, done, cycle, exhausted, start, targets, nodes, Sorting,
  sorted, operation_cycle, no_fuel, topo_sort, dfs, visit_ops, ids, add_deps, add_ops, graph_of,
  opo_sort, sorting,
}
use blackstart.Graph.Reach.{
  Edges, edges, Edge, Depends, direct, Depends-snoc, IsOrdered, unvisited-le-length,
}
use blackstart.Graph.Walks.{Inv, Fine}
use blackstart.Graph.Traversal.{visit_ops-Fine}

-- `x` is one of the operations `ops`, or one of them depends on it.
abbrev pub Reached : Edges → List String → String → Type 0
Reached e ops x = (contains ops x ≡ true) ⊎ ((o : String) × (contains ops o ≡ true) × Depends e o x)

Reached-step :
    (e : Edges) (ops : List String) (a b : String)
    → Reached e ops a
    → e a b ≡ true
    → Reached e ops b
Reached-step e ops a b (inl m) h = inr (a, m, direct h)
Reached-step e ops a b (inr (o, m, r)) h = inr (o, m, Depends-snoc r h)

lookup-targets :
    (m : Dict (List String)) (a b : String) (ds : List String)
    → Dict.lookup a m ≡ some ds
    → contains ds b ≡ true
    → contains (targets m) b ≡ true
unfolding Dict.lookup
lookup-targets [] a b ds l h = cc
lookup-targets ((k, es) ∷ m) a b ds l h = elim (String-cases k a) [
  | inl same ↦ ground (arith, contains-append es (targets m) b, eq_iff k a)
  | inr other ↦
      ground (arith, contains-append es (targets m) b, lookup-targets m a b ds (rw other at l) h)
]

Edge-in_nodes : (g : DependencyGraph) (a b : String) → Edge g a b → contains (nodes g) b ≡ true
unfolding deps_of
Edge-in_nodes g a b h = elim (Option-cases (Dict.lookup a g.deps)) [
  | inl missing ↦ ground arith
  | inr (ds, found) ↦
      ground (arith, contains-append g.ops (targets g.deps) b, lookup-targets g.deps a b ds found)
]

start-Inv : (g : DependencyGraph) (R : String → Type 0) → Inv g R start
start-Inv g R = record {
  covered = λ x h. cc;
  stack_visited = λ x h. cc;
  order_visited = λ x h. cc;
  apart = λ x h. cc;
  ordered = tt;
  reached = λ x h. cc;
}

search-Fine :
    (g : DependencyGraph)
    → Fine g
        (Reached (edges g) g.ops)
        start
        (λ w. (o : String) → contains g.ops o ≡ true → contains w.order o ≡ true)
        (visit_ops (dfs g (length (nodes g))) g.ops start)
search-Fine g =
    visit_ops-Fine g (Reached (edges g) g.ops) (nodes g) (Reached-step (edges g) g.ops)
      (λ a b m h. Edge-in_nodes g a b h) (length (nodes g)) g.ops start
      (start-Inv g (Reached (edges g) g.ops))
      (λ o m. (inl m, ground (arith, contains-append g.ops (targets g.deps) o))) (λ x. refl)
      (unvisited-le-length (nodes g) _)

-- What a result of the sort must be, for edges `e` and the operations `ops`.
abbrev pub IsCorrect : Edges → List String → Sorting → Type 0
IsCorrect e ops (sorted order) =
    IsOrdered e order
    × ((o : String) → contains ops o ≡ true → contains order o ≡ true)
    × ((x : String) → contains order x ≡ true → Reached e ops x)
IsCorrect e ops (operation_cycle d) = Reached e ops d × Depends e d d
IsCorrect e ops no_fuel = ⊥

sorting-IsCorrect :
    (g : DependencyGraph) (s : Search)
    → Fine g
        (Reached (edges g) g.ops)
        start
        (λ w. (o : String) → contains g.ops o ≡ true → contains w.order o ≡ true)
        s
    → IsCorrect (edges g) g.ops (sorting s)
sorting-IsCorrect g (done w) (i, _, p) = (i.ordered, p, λ x m. i.reached x (i.order_visited x m))
sorting-IsCorrect g (cycle d) h = h
sorting-IsCorrect g exhausted h = h

topo_sort-IsCorrect : (g : DependencyGraph) → IsCorrect (edges g) g.ops (topo_sort g)
unfolding topo_sort
topo_sort-IsCorrect g = sorting-IsCorrect g _ (search-Fine g)

-- An operation with id `a` lists `b` in its `DependsOn`.
abbrev pub declares : List Operation → Edges
declares [] a b = false
declares (o ∷ os) a b = (o.id == a && contains o.depends_on b) || declares os a b

edges-add_dep :
    (g : DependencyGraph) (from to a b : String)
    → edges (add_dep g from to) a b ≡ (edges g a b || (from == a && to == b))
unfolding add_dep deps_of
edges-add_dep g from to a b = ground (
  arith,
  lookup-insert from a (deps_of g from ++ to ∷ []) g.deps,
  contains-append (deps_of g from) (to ∷ []) b,
  eq_iff from a,
)

edges-add_deps :
    (g : DependencyGraph) (from : String) (ds : List String) (a b : String)
    → edges (add_deps g from ds) a b ≡ (edges g a b || (from == a && contains ds b))
unfolding add_deps
edges-add_deps g from [] a b = ground arith
edges-add_deps g from (d ∷ ds) a b =
    ground (arith, edges-add_deps (add_dep g from d) from ds a b, edges-add_dep g from d a b)

edges-add_ops :
    (g : DependencyGraph) (os : List Operation) (a b : String)
    → edges (add_ops g os) a b ≡ (edges g a b || declares os a b)
unfolding add_ops
edges-add_ops g [] a b = ground arith
edges-add_ops g (o ∷ os) a b = ground (
  arith,
  edges-add_ops (add_deps g o.id o.depends_on) os a b,
  edges-add_deps g o.id o.depends_on a b,
)

ops-add_deps :
    (g : DependencyGraph) (from : String) (ds : List String) → (add_deps g from ds).ops ≡ g.ops
unfolding add_deps add_dep
ops-add_deps g from [] = refl
ops-add_deps g from (d ∷ ds) = ops-add_deps (add_dep g from d) from ds

ops-add_ops : (g : DependencyGraph) (os : List Operation) → (add_ops g os).ops ≡ g.ops
unfolding add_ops
ops-add_ops g [] = refl
ops-add_ops g (o ∷ os) =
    ops-add_ops (add_deps g o.id o.depends_on) os ∙ ops-add_deps g o.id o.depends_on

edges-graph_of : (ops : List Operation) → edges (graph_of ops) ≡ declares ops
unfolding graph_of deps_of Dict.lookup
edges-graph_of ops = fun_ext λ a. fun_ext λ b. edges-add_ops _ ops a b

ops-graph_of : (ops : List Operation) → (graph_of ops).ops ≡ ids ops
unfolding graph_of
ops-graph_of ops = ops-add_ops _ ops

pub opo_sort-IsCorrect : (ops : List Operation) → IsCorrect (declares ops) (ids ops) (opo_sort ops)
unfolding opo_sort
opo_sort-IsCorrect ops =
    subst₂ (λ e os. IsCorrect e os (topo_sort (graph_of ops))) (edges-graph_of ops)
      (ops-graph_of ops) (topo_sort-IsCorrect (graph_of ops))
