-- ===== src/Graph/Reach.antt =====
-- What the sort is about: paths in a `dependencyGraph`, and orders that respect its edges.
use blackstart.Prelude.{
  ℕ, suc, ◌≤◌, ◌<◌, String, Bool, true, false, ◌≡◌, inl, inr, List, [], ◌∷◌, ◌++◌, ◌||◌, eq_iff,
  arith, contains, contains-head, IsDistinct, refl, String-cases, if◌then◌else◌, length,
}
use blackstart.Graph.{DependencyGraph, deps_of, update}

-- A test for edges: `e a b` says that `b` is listed among the dependencies of `a`.
abbrev pub Edges : Type 0
Edges = String → String → Bool

abbrev pub edges : DependencyGraph → Edges
edges g a b = contains (deps_of g a) b

abbrev pub Edge : DependencyGraph → String → String → Type 0
Edge g a b = edges g a b ≡ true

-- `a` depends on `b`, in one step or more.
pub data Depends (e : Edges) : String → String → Type 0 where
  direct : {a b : String} → e a b ≡ true → Depends e a b
  through : {a b c : String} → e a b ≡ true → Depends e b c → Depends e a c

module _ {e : Edges} where
  pub Depends-snoc : {a b c : String} → Depends e a b → e b c ≡ true → Depends e a c
  Depends-snoc (direct h) f = through h (direct f)
  Depends-snoc (through h r) f = through h (Depends-snoc r f)

-- Each name comes once, and after all of its dependencies; `seen` is what came before.
abbrev pub IsOrderedAfter : Edges → List String → List String → Type 0
IsOrderedAfter e seen [] = Unit
IsOrderedAfter e seen (x ∷ xs) =
    ((d : String) → e x d ≡ true → contains seen d ≡ true)
    × (contains seen x ≡ false)
    × IsOrderedAfter e (x ∷ seen) xs

abbrev pub IsOrdered : Edges → List String → Type 0
IsOrdered e xs = IsOrderedAfter e [] xs

pub IsOrderedAfter-snoc :
    (e : Edges) (seen xs : List String) (a : String)
    → IsOrderedAfter e seen xs
    → ((d : String) → e a d ≡ true → (contains seen d || contains xs d) ≡ true)
    → (contains seen a || contains xs a) ≡ false
    → IsOrderedAfter e seen (xs ++ a ∷ [])
IsOrderedAfter-snoc e seen [] a o deps new = (λ d h. ground (arith, deps d h), ground arith, tt)
IsOrderedAfter-snoc e seen (x ∷ xs) a o deps new = (
  o.0,
  o.1,
  IsOrderedAfter-snoc e (x ∷ seen) xs a o.2 (λ d h. ground (arith, deps d h)) (ground arith),
)

-- In an ordered list no name depends on a later one, so none depends on itself.
module _ (e : Edges) where
  IsOrderedAfter-edge :
      (seen xs : List String) (a b : String)
      → IsOrderedAfter e seen xs
      → contains xs a ≡ true
      → e a b ≡ true
      → (contains seen b || contains xs b) ≡ true
  IsOrderedAfter-edge seen [] a b o m h = cc
  IsOrderedAfter-edge seen (x ∷ xs) a b o m h = elim (String-cases x a) [
    | inl same ↦ ground (arith, o.0 b (rw same h))
    | inr other ↦
        ground (arith, IsOrderedAfter-edge (x ∷ seen) xs a b o.2 (ground (arith, other)) h)
  ]

  -- A set that has the dependencies of its members has all that they depend on.
  abbrev pub IsClosed : (String → Bool) → Type 0
  IsClosed f = (a b : String) → f a ≡ true → e a b ≡ true → f b ≡ true

  pub IsClosed-Depends :
      (f : String → Bool) {a b : String} → IsClosed f → Depends e a b → f a ≡ true → f b ≡ true
  IsClosed-Depends f {a} {b} c (direct h) m = c a b m h
  IsClosed-Depends f {a} c (through {b = k} h r) m = IsClosed-Depends f c r (c a k m h)

  before_first :
      (seen : List String) (x : String)
      → IsClosed (contains seen)
      → ((d : String) → e x d ≡ true → contains seen d ≡ true)
      → Depends e x x
      → contains seen x ≡ true
  before_first seen x c deps (direct h) = deps x h
  before_first seen x c deps (through {b = k} h r) = IsClosed-Depends (contains seen) c r (deps k h)

  IsOrderedAfter-acyclic :
      (seen xs : List String) (a : String)
      → IsOrderedAfter e seen xs
      → IsClosed (contains seen)
      → contains xs a ≡ true
      → ¬ Depends e a a
  IsOrderedAfter-acyclic seen [] a o c m r = cc
  IsOrderedAfter-acyclic seen (x ∷ xs) a o c m r = elim (String-cases x a) [
    | inl same ↦ cc (o.1, before_first seen x c o.0 (rw same r))
    | inr other ↦
        IsOrderedAfter-acyclic (x ∷ seen) xs a o.2
          (λ p q mp h. elim (String-cases x p) [
            | inl same ↦ ground (arith, o.0 q (rw same h))
            | inr ne ↦ ground (arith, c p q (ground (arith, ne)) h)
          ])
          (ground (arith, other)) r
  ]

  pub IsOrdered-IsClosed : (xs : List String) → IsOrdered e xs → IsClosed (contains xs)
  IsOrdered-IsClosed xs o a b m h = IsOrderedAfter-edge [] xs a b o m h

  pub IsOrdered-acyclic :
      (xs : List String) (a : String) → IsOrdered e xs → contains xs a ≡ true → ¬ Depends e a a
  IsOrdered-acyclic xs a o m = IsOrderedAfter-acyclic [] xs a o (λ p q h. cc) m

IsOrderedAfter-apart :
    (e : Edges) (seen xs : List String) (a : String)
    → IsOrderedAfter e seen xs
    → contains seen a ≡ true
    → contains xs a ≡ false
IsOrderedAfter-apart e seen [] a o m = refl
IsOrderedAfter-apart e seen (x ∷ xs) a o m =
    ground (arith, o.1, IsOrderedAfter-apart e (x ∷ seen) xs a o.2, eq_iff x a)

pub IsOrderedAfter-IsDistinct :
    (e : Edges) (seen xs : List String) → IsOrderedAfter e seen xs → IsDistinct xs
IsOrderedAfter-IsDistinct e seen [] o = tt
IsOrderedAfter-IsDistinct e seen (x ∷ xs) o = (
  IsOrderedAfter-apart e (x ∷ seen) xs x o.2 (contains-head x seen),
  IsOrderedAfter-IsDistinct e (x ∷ seen) xs o.2,
)

-- How many of the names have not been visited: the measure of the search.
unfoldable pub unvisited : List String → (String → Bool) → ℕ
unvisited [] f = 0
unvisited (x ∷ xs) f = let rest = unvisited xs f in if f x then rest else suc rest

pub unvisited_mono :
    (xs : List String) (f h : String → Bool)
    → ((x : String) → f x ≡ true → h x ≡ true)
    → unvisited xs h ≤ unvisited xs f
unfolding unvisited
unvisited_mono [] f h mono = omega arith
unvisited_mono (x ∷ xs) f h mono = ground (arith, mono x, unvisited_mono xs f h mono)

update-grows : (f : String → Bool) (k x : String) → f x ≡ true → update f k true x ≡ true
update-grows f k x h = ground arith

pub unvisited-update :
    (xs : List String) (f : String → Bool) (k : String)
    → contains xs k ≡ true
    → f k ≡ false
    → unvisited xs (update f k true) < unvisited xs f
unfolding unvisited
unvisited-update [] f k m h = cc
unvisited-update (x ∷ xs) f k m h = elim (String-cases x k) [
  | inl e ↦ ground (arith, e, eq_iff k x, unvisited_mono xs f (update f k true) (update-grows f k))
  | inr ne ↦ ground (arith, ne, eq_iff k x, eq_iff x k, unvisited-update xs f k)
]

pub unvisited-le-length : (xs : List String) (f : String → Bool) → unvisited xs f ≤ length xs
unfolding unvisited
unvisited-le-length [] f = omega arith
unvisited-le-length (x ∷ xs) f = ground (arith, unvisited-le-length xs f)
