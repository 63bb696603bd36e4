-- ===== src/Controller/Namespaces.antt =====
-- cmd/blackstart/controller_runtime.go: `parseNamespaces`.
use blackstart.Prelude.{
  if_true, if_false, subst, sym, not, ◌&&◌, false≢true, ap, ◌∙◌, String, true, false, ◌||◌, List,
  [], ◌∷◌, ◌++◌, contains, contains-append, IsDistinct, ◌==◌, if◌then◌else◌, ◌≡◌, ◌≢◌, inl, inr,
  refl, arith, eq_iff, Bool-cases, String-cases,
}
use blackstart.Text.{trim_space, split_char}

-- One round of the loop over the parts; `namespaces` and `seen` hold the same names.
unfoldable pub add_name : String → List String → List String
add_name ns seen = if ns == "" then seen else if contains seen ns then seen else seen ++ ns ∷ []

unfoldable pub collect : List String → List String → List String
unfolding add_name
collect [] seen = seen
collect (part ∷ parts) seen = collect parts (add_name (trim_space part) seen)

abbrev or_all : List String → List String
or_all [] = "" ∷ []
or_all (ns ∷ rest) = ns ∷ rest

-- parseNamespaces, on config.KubeNamespace; the empty name stands for every namespace
unfoldable pub parse_namespaces : String → List String
unfolding collect
parse_namespaces kube_namespace =
    let raw = trim_space kube_namespace in
    if raw == "" then "" ∷ [] else or_all (collect (split_char 44 raw) [])

-- The parts between commas, trimmed, without the blank ones.
abbrev pub named_parts : List String → List String
named_parts [] = []
named_parts (part ∷ parts) =
    let rest = named_parts parts in if trim_space part == "" then rest else trim_space part ∷ rest

IsDistinct-append :
    (xs : List String) (a : String)
    → IsDistinct xs
    → contains xs a ≡ false
    → IsDistinct (xs ++ a ∷ [])
IsDistinct-append [] a distinct new = (refl, tt)
IsDistinct-append (x ∷ xs) a distinct new = (
  ground (arith, contains-append xs (a ∷ []) x, distinct.0, eq_iff a x, eq_iff x a),
  IsDistinct-append xs a distinct.1 (ground arith),
)

add_name-IsDistinct :
    (ns : String) (seen : List String) → IsDistinct seen → IsDistinct (add_name ns seen)
unfolding add_name
add_name-IsDistinct ns seen distinct = elim (Bool-cases (ns == "")) [
  | inl blank ↦ subst IsDistinct (sym (if_true (λ ns. ns) _ _ blank)) distinct
  | inr named ↦
      subst IsDistinct (sym (if_false (λ ns. ns) _ _ named)) (elim (Bool-cases (contains seen ns)) [
        | inl old ↦ subst IsDistinct (sym (if_true (λ ns. ns) _ _ old)) distinct
        | inr new ↦
            subst IsDistinct (sym (if_false (λ ns. ns) _ _ new))
              (IsDistinct-append seen ns distinct new)
      ])
]

collect-IsDistinct : (parts seen : List String) → IsDistinct seen → IsDistinct (collect parts seen)
unfolding collect
collect-IsDistinct [] seen distinct = distinct
collect-IsDistinct (part ∷ parts) seen distinct =
    collect-IsDistinct parts (add_name (trim_space part) seen)
      (add_name-IsDistinct (trim_space part) seen distinct)

contains-add_name :
    (ns : String) (seen : List String) (a : String)
    → contains (add_name ns seen) a ≡ (contains seen a || (not (ns == "") && ns == a))
unfolding add_name
contains-add_name ns seen a = elim (Bool-cases (ns == "")) [
  | inl blank ↦ ground arith
  | inr named ↦ elim (Bool-cases (contains seen ns)) [
    | inl old ↦ ground (arith, eq_iff ns a)
    | inr new ↦ ground (arith, contains-append seen (ns ∷ []) a)
  ]
]

contains-collect :
    (parts seen : List String) (a : String)
    → contains (collect parts seen) a ≡ (contains seen a || contains (named_parts parts) a)
unfolding collect
contains-collect [] seen a = ground arith
contains-collect (part ∷ parts) seen a = ground (
  arith,
  contains-collect parts (add_name (trim_space part) seen) a,
  contains-add_name (trim_space part) seen a,
)

or_all-eq : (ns : List String) → ns ≢ [] → or_all ns ≡ ns
or_all-eq [] filled = absurd (filled refl)
or_all-eq (n ∷ ns) filled = refl

or_all-IsDistinct : (ns : List String) → IsDistinct ns → IsDistinct (or_all ns) × (or_all ns ≢ [])
or_all-IsDistinct [] distinct = ((refl, tt), λ h. cc)
or_all-IsDistinct (n ∷ ns) distinct = (distinct, λ h. cc)

-- There is always a namespace, and none comes twice.
pub parse_namespaces-IsDistinct :
    (s : String) → IsDistinct (parse_namespaces s) × (parse_namespaces s ≢ [])
unfolding parse_namespaces
parse_namespaces-IsDistinct s =
    let parts = split_char 44 (trim_space s) in
    elim (Bool-cases (trim_space s == "")) [
      | inl blank ↦
          subst (λ ns. IsDistinct ns × (ns ≢ [])) (sym (if_true (λ ns. ns) _ _ blank))
            ((refl, tt), λ h. cc)
      | inr named ↦
          subst (λ ns. IsDistinct ns × (ns ≢ [])) (sym (if_false (λ ns. ns) _ _ named))
            (or_all-IsDistinct (collect parts []) (collect-IsDistinct parts [] tt))
    ]

collect-filled :
    (parts : List String) (b : String)
    → contains (named_parts parts) b ≡ true
    → collect parts [] ≢ []
collect-filled parts b some_part none_left =
    false≢true
      (sym (ap (λ ns. contains ns b) none_left) ∙ (contains-collect parts [] b ∙ some_part))

setting-filled :
    (s b : String)
    → contains (named_parts (split_char 44 (trim_space s))) b ≡ true
    → (trim_space s == "") ≡ false
unfolding split_char trim_space
setting-filled s b some_part = elim (String-cases (trim_space s) "") [
  | inl blank ↦
      absurd (
        false≢true (subst (λ t. contains (named_parts (split_char 44 t)) b ≡ true) blank some_part))
  | inr named ↦ named
]

-- When some part of the setting between commas is not blank, the namespaces are exactly the trimmed
-- parts that are not blank.
pub contains-parse_namespaces :
    (s a b : String)
    → contains (named_parts (split_char 44 (trim_space s))) b ≡ true
    → contains (parse_namespaces s) a ≡ contains (named_parts (split_char 44 (trim_space s))) a
unfolding parse_namespaces
contains-parse_namespaces s a b some_part =
    let parts = split_char 44 (trim_space s) in
    if_false (λ ns. contains ns a) _ _ (setting-filled s b some_part)
    ∙ (ap (λ ns. contains ns a) (or_all-eq (collect parts []) (collect-filled parts b some_part))
        ∙ contains-collect parts [] a)
