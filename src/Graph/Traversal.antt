-- ===== src/Graph/Traversal.antt =====
-- `dfs`, its loop over the dependencies, and the loop of `topoSort` all keep the invariant, find
-- true cycles only, and never lack fuel.
use blackstart.Prelude.{
  ℕ, zero, suc, ◌≤◌, String, true, false, ◌≡◌, sym, ◌∙◌, ◌⊎◌, inl, inr, List, [], ◌∷◌, eq_iff,
  arith, contains, contains-append, contains-head, Bool-cases, String-cases,
}
use blackstart.Graph.{
  DependencyGraph, deps_of, Walk, Search, done, cycle, exhausted, and_then, enter, leave,
  visit_deps, dfs, visit_ops,
}
use blackstart.Graph.Reach.{
  edges, Edge, Depends, direct, Depends-snoc, unvisited, unvisited-update, unvisited_mono,
}
use blackstart.Graph.Walks.{
  Inv, Extends, Extends-refl, Extends-trans, Fine, Fine-and_then, enter-Inv, leave-Inv,
}

-- What a call `go d` must give; `n` bounds the names in `all` that are not visited.
abbrev pub Goes :
    (g : DependencyGraph) (R : String → Type 0) (all : List String) (n : ℕ)
    → (String → Walk → Search)
    → Type 0
Goes g R all n go =
    (d : String) (w : Walk)
    → Inv g R w
    → R d
    → contains all d ≡ true
    → w.visited d ≡ false
    → ((x : String) → w.recursion_stack x ≡ true → Depends (edges g) x d)
    → unvisited all w.visited ≤ n
    → Fine g R w (λ w'. contains w'.order d ≡ true) (go d w)

module _ (go : String → Walk → Search) (d : String) (ds : List String) (w : Walk) where
  visit_deps-stacked : w.recursion_stack d ≡ true → visit_deps go (d ∷ ds) w ≡ cycle d
  unfolding visit_deps
  visit_deps-stacked e = rw (e, visit_deps)

  visit_deps-seen :
      w.recursion_stack d ≡ false
      → w.visited d ≡ true
      → visit_deps go (d ∷ ds) w ≡ visit_deps go ds w
  unfolding visit_deps
  visit_deps-seen e s = ground arith

  visit_deps-new :
      w.recursion_stack d ≡ false
      → w.visited d ≡ false
      → visit_deps go (d ∷ ds) w ≡ and_then (go d w) (visit_deps go ds)
  unfolding visit_deps
  visit_deps-new e s = ground arith

module _ (g : DependencyGraph) (R : String → Type 0) (all : List String)
    (step : (a b : String) → R a → Edge g a b → R b)
    (closed : (a b : String) → contains all a ≡ true → Edge g a b → contains all b ≡ true) where
  -- The names of `ds` are in the order.
  abbrev Placed : List String → Walk → Type 0
  Placed ds w = (d : String) → contains ds d ≡ true → contains w.order d ≡ true

  Placed-cons :
      (d : String) (ds : List String) (w w' : Walk)
      → Extends w w'
      → contains w.order d ≡ true
      → Placed ds w'
      → Placed (d ∷ ds) w'
  Placed-cons d ds w w' e h p x m = elim (String-cases d x) [
    | inl same ↦ rw (← same) (e.keeps d h)
    | inr other ↦ p x (ground (arith, other))
  ]

  Fine-cons :
      (d : String) (ds : List String) (w w' : Walk) (s : Search)
      → Extends w w'
      → contains w.order d ≡ true
      → Fine g R w' (Placed ds) s
      → Fine g R w' (Placed (d ∷ ds)) s
  Fine-cons d ds w w' (done w'') e h (i, e', p) =
      (i, e', Placed-cons d ds w w'' (Extends-trans e e') h p)
  Fine-cons d ds w w' (cycle c) e h f = f
  Fine-cons d ds w w' exhausted e h f = f

  visit_deps-Fine :
      (n : ℕ) (go : String → Walk → Search)
      → Goes g R all n go
      → (op : String) (ds : List String) (w : Walk) → Inv g R w
      → R op
      → contains all op ≡ true
      → ((d : String) → contains ds d ≡ true → Edge g op d)
      → ((x : String) → w.recursion_stack x ≡ true → (x ≡ op) ⊎ Depends (edges g) x op)
      → unvisited all w.visited ≤ n
      → Fine g R w (Placed ds) (visit_deps go ds w)
  visit_deps-Fine n go goes op [] w inv r m es stack fuel =
      unfold visit_deps in (inv, Extends-refl w, λ d h. cc)
  visit_deps-Fine n go goes op (d ∷ ds) w inv r m es stack fuel =
      elim (Bool-cases (w.recursion_stack d)) [
        | inl on ↦ rw (visit_deps-stacked go d ds w on) (step op d r edge, path_to d edge d on)
        | inr off ↦ elim (Bool-cases (w.visited d)) [
          | inl seen ↦ rw (visit_deps-seen go d ds w off seen) (
              Fine-cons d ds w w (visit_deps go ds w) (Extends-refl w)
                (ground (arith, inv.covered d))
                (visit_deps-Fine n go goes op ds w inv r m later stack fuel))
          | inr new ↦ rw (visit_deps-new go d ds w off new) (
              Fine-and_then g R w (λ w'. contains w'.order d ≡ true) (Placed (d ∷ ds)) (go d w)
                (visit_deps go ds)
                (goes d w inv (step op d r edge) (closed op d m edge) new (path_to d edge) fuel)
                (λ w' i e p. Fine-cons d ds w' w' (visit_deps go ds w') (Extends-refl w') p (
                  visit_deps-Fine n go goes op ds w' i r m later
                    (λ x h. stack x (sym (e.same_stack x) ∙ h))
                    (omega (arith, unvisited_mono all w.visited w'.visited e.grows)))))
        ]
      ]
    where
      edge : Edge g op d
      edge = es d (contains-head d ds)

      path_to :
          (d : String)
          → Edge g op d
          → (x : String) → w.recursion_stack x ≡ true
          → Depends (edges g) x d
      path_to d edge x on = elim (stack x on) [
        | inl same ↦ rw same (direct edge)
        | inr path ↦ Depends-snoc path edge
      ]

      later : (x : String) → contains ds x ≡ true → Edge g op x
      later x h = es x (ground arith)

  -- From `enter` to `leave` the stack is back where it was.
  Extends-leave :
      (op : String) (w w' : Walk)
      → Inv g R w
      → w.visited op ≡ false
      → Extends (enter op w) w'
      → Extends w (leave op w')
  Extends-leave op w w' inv new e = record {
    same_stack = λ x. ground (arith, inv.stack_visited x, e.same_stack x, eq_iff op x);
    grows = λ x h. ground (arith, e.grows x);
    keeps = λ x h. ground (arith, e.keeps x, contains-append w'.order (op ∷ []) x);
  }

  Fine-leave :
      (op : String) (w : Walk) (s : Search)
      → Inv g R w
      → w.visited op ≡ false
      → Fine g R (enter op w) (Placed (deps_of g op)) s
      → Fine g R w (λ w'. contains w'.order op ≡ true) (and_then s (λ w'. done (leave op w')))
  Fine-leave op w (done w') inv new (i, e, p) = (
    leave-Inv g R op w' i (ground (arith, e.same_stack op, eq_iff op op)) p,
    Extends-leave op w w' inv new e,
    ground (arith, contains-append w'.order (op ∷ []) op, eq_iff op op),
  )
  Fine-leave op w (cycle c) inv new f = f
  Fine-leave op w exhausted inv new f = f

  entered_stack :
      (op : String) (w : Walk)
      → ((x : String) → w.recursion_stack x ≡ true → Depends (edges g) x op)
      → (x : String) → (enter op w).recursion_stack x ≡ true
      → (x ≡ op) ⊎ Depends (edges g) x op
  entered_stack op w stack x h = elim (String-cases op x) [
    | inl same ↦ inl (sym same)
    | inr other ↦ inr (stack x (ground (arith, other)))
  ]

  pub Goes-dfs : (n : ℕ) → Goes g R all n (dfs g n)
  unfolding dfs
  Goes-dfs zero d w inv r m new stack fuel =
      absurd (omega (arith, unvisited-update all w.visited d m new))
  Goes-dfs (suc n) op w inv r m new stack fuel =
      Fine-leave op w (visit_deps (dfs g n) (deps_of g op) (enter op w)) inv new (
        visit_deps-Fine n (dfs g n) (Goes-dfs n) op (deps_of g op) (enter op w)
          (enter-Inv g R op w inv r new) r m (λ d h. h) (entered_stack op w stack)
          (omega (arith, unvisited-update all w.visited op m new)))

  pub visit_ops-Fine :
      (n : ℕ) (os : List String) (w : Walk)
      → Inv g R w
      → ((o : String) → contains os o ≡ true → R o × (contains all o ≡ true))
      → ((x : String) → w.recursion_stack x ≡ false)
      → unvisited all w.visited ≤ n
      → Fine g R w (Placed os) (visit_ops (dfs g n) os w)
  unfolding visit_ops
  visit_ops-Fine n [] w inv roots empty fuel = (inv, Extends-refl w, λ d h. cc)
  visit_ops-Fine n (o ∷ os) w inv roots empty fuel = elim (Bool-cases (w.visited o)) [
    | inl seen ↦
        rw (seen, visit_ops)
          (Fine-cons o os w w (visit_ops (dfs g n) os w) (Extends-refl w)
            (ground (arith, inv.covered o, empty o)) (visit_ops-Fine n os w inv later empty fuel))
    | inr new ↦
        rw (new, visit_ops)
          (Fine-and_then g R w (λ w'. contains w'.order o ≡ true) (Placed (o ∷ os)) (dfs g n o w)
            (visit_ops (dfs g n) os)
            (Goes-dfs n o w inv (roots o (contains-head o os)).0 (roots o (contains-head o os)).1
              new (λ x h. cc (empty x, h)) fuel)
            (λ w' i e p. Fine-cons o os w' w' (visit_ops (dfs g n) os w') (Extends-refl w') p (
              visit_ops-Fine n os w' i later (λ x. e.same_stack x ∙ empty x)
                (omega (arith, unvisited_mono all w.visited w'.visited e.grows)))))
  ]
    where
      later : (x : String) → contains os x ≡ true → R x × (contains all x ≡ true)
      later x h = roots x (ground arith)
