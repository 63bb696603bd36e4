-- ===== src/Graph/Walks.antt =====
-- The invariant of the depth-first search of workflow.go: what `dfs` keeps, and what it returns.
use blackstart.Prelude.{
  String, true, false, ◌≡◌, refl, ◌∙◌, ◌⊎◌, inl, inr, [], ◌∷◌, eq_iff, arith, contains,
  contains-append, Bool-cases, String-cases,
}
use blackstart.Graph.{DependencyGraph, Walk, Search, done, cycle, exhausted, and_then, enter, leave}
use blackstart.Graph.Reach.{edges, Edge, Depends, IsOrdered, IsOrderedAfter-snoc}

module _ (g : DependencyGraph) (R : String → Type 0) where
  -- `R` holds of the names that the search may reach.
  pub record Inv (w : Walk) : Type 0 where
    pub covered :
        (x : String)
        → w.visited x ≡ true
        → (w.recursion_stack x ≡ true) ⊎ (contains w.order x ≡ true)
    pub stack_visited : (x : String) → w.recursion_stack x ≡ true → w.visited x ≡ true
    pub order_visited : (x : String) → contains w.order x ≡ true → w.visited x ≡ true
    pub apart : (x : String) → contains w.order x ≡ true → w.recursion_stack x ≡ false
    pub ordered : IsOrdered (edges g) w.order
    pub reached : (x : String) → w.visited x ≡ true → R x

-- The search goes on from `w` to `w'`.
pub record Extends (w w' : Walk) : Type 0 where
  pub same_stack : (x : String) → w'.recursion_stack x ≡ w.recursion_stack x
  pub grows : (x : String) → w.visited x ≡ true → w'.visited x ≡ true
  pub keeps : (x : String) → contains w.order x ≡ true → contains w'.order x ≡ true

pub Extends-refl : (w : Walk) → Extends w w
Extends-refl w = record { same_stack = λ x. refl; grows = λ x h. h; keeps = λ x h. h }

pub Extends-trans : {u v w : Walk} → Extends u v → Extends v w → Extends u w
Extends-trans a b = record {
  same_stack = λ x. b.same_stack x ∙ a.same_stack x;
  grows = λ x h. b.grows x (a.grows x h);
  keeps = λ x h. b.keeps x (a.keeps x h);
}

-- A search from `w` ends well: in a state where `P` holds too, or at a true cycle.
abbrev pub Fine :
    (g : DependencyGraph) (R : String → Type 0) → Walk → (Walk → Type 0) → Search → Type 0
Fine g R w P (done w') = Inv g R w' × Extends w w' × P w'
Fine g R w P (cycle d) = R d × Depends (edges g) d d
Fine g R w P exhausted = ⊥

module _ (g : DependencyGraph) (R : String → Type 0) where
  pub Fine-and_then :
      (w : Walk) (P Q : Walk → Type 0) (r : Search) (f : Walk → Search)
      → Fine g R w P r
      → ((w' : Walk) → Inv g R w' → Extends w w' → P w' → Fine g R w' Q (f w'))
      → Fine g R w Q (and_then r f)
  Fine-and_then w P Q (done w') f (i, e, p) k = widen (f w') (k w' i e p)
    where
      widen : (r : Search) → Fine g R w' Q r → Fine g R w Q r
      widen (done w'') (i', e', q) = (i', Extends-trans e e', q)
      widen (cycle d) h = h
      widen exhausted h = h
  Fine-and_then w P Q (cycle d) f h k = h
  Fine-and_then w P Q exhausted f h k = elim h [ ]

  pub enter-Inv :
      (op : String) (w : Walk) → Inv g R w → R op → w.visited op ≡ false → Inv g R (enter op w)
  enter-Inv op w inv r new = record {
    covered = λ x h. ground (arith, inv.covered x);
    stack_visited = λ x h. ground (arith, inv.stack_visited x);
    order_visited = λ x h. ground (arith, inv.order_visited x);
    apart = λ x h. ground (arith, inv.apart x, inv.order_visited x, eq_iff op x);
    ordered = inv.ordered;
    reached = λ x h. elim (String-cases op x) [
      | inl e ↦ rw (← e) r
      | inr ne ↦ inv.reached x (ground (arith, ne))
    ];
  }

  pub leave-Inv :
      (op : String) (w : Walk)
      → Inv g R w
      → w.recursion_stack op ≡ true
      → ((d : String) → Edge g op d → contains w.order d ≡ true)
      → Inv g R (leave op w)
  leave-Inv op w inv top deps = record {
    covered = λ x h. ground (arith, inv.covered x, contains-append w.order (op ∷ []) x);
    stack_visited = λ x h. ground (arith, inv.stack_visited x);
    order_visited = λ x h. ground (
      arith,
      inv.order_visited x,
      inv.stack_visited x,
      contains-append w.order (op ∷ []) x,
      eq_iff op x,
    );
    apart = λ x h. ground (arith, inv.apart x, contains-append w.order (op ∷ []) x, eq_iff op x);
    ordered =
        IsOrderedAfter-snoc (edges g) [] w.order op inv.ordered deps
          (ground (arith, inv.apart op, Bool-cases (contains w.order op)));
    reached = inv.reached;
  }
