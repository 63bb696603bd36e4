-- ===== src/Values/Reflect.antt =====
-- The parts of package reflect that workflow.go uses, on the types of the modules, and the type
-- tests of workflow.go. `implements` stands for the method sets of types from other packages.
use blackstart.Prelude.{
  String, Bool, true, false, not, ◌&&◌, ◌||◌, Option, none, some, List, [], ◌∷◌, ◌==◌,
  if◌then◌else◌,
}
use blackstart.Values.{GoType, Value, Values, end, item}

-- t == u for two reflect.Type values
abbrev pub same_type : GoType → GoType → Bool
same_type GoType.bool GoType.bool = true
same_type GoType.int GoType.int = true
same_type GoType.int64 GoType.int64 = true
same_type GoType.float64 GoType.float64 = true
same_type GoType.string GoType.string = true
same_type (GoType.slice t) (GoType.slice u) = same_type t u
same_type (GoType.pointer t) (GoType.pointer u) = same_type t u
same_type (GoType.interface s) (GoType.interface t) = s == t
same_type (GoType.named s) (GoType.named t) = s == t
same_type _ _ = false

-- reflect.TypeOf; an untyped nil has none
abbrev pub type_of : Value → Option GoType
type_of Value.nil = none
type_of (Value.bool _) = some GoType.bool
type_of (Value.string _) = some GoType.string
type_of (Value.strings _) = some (GoType.slice GoType.string)
type_of (Value.list _) = some (GoType.slice (GoType.interface "any"))
type_of (Value.opaque t _) = some t

abbrev is_integer : GoType → Bool
is_integer GoType.int = true
is_integer GoType.int64 = true
is_integer _ = false

abbrev is_number : GoType → Bool
is_number GoType.float64 = true
is_number t = is_integer t

abbrev is_string_kind : GoType → Bool
is_string_kind GoType.string = true
is_string_kind _ = false

module _ (implements : GoType → String → Bool) where
  -- vt.AssignableTo(t)
  pub assignable_to : GoType → GoType → Bool
  assignable_to v (GoType.interface t) = implements v t
  assignable_to v t = same_type v t

  -- vt.ConvertibleTo(t): the numbers into each other, and an integer into a string
  pub convertible_to : GoType → GoType → Bool
  unfolding assignable_to
  convertible_to v t =
      assignable_to v t || (is_number v && is_number t) || (is_integer v && is_string_kind t)

  -- vt == t || vt.AssignableTo(t) || vt.ConvertibleTo(t)
  unfoldable pub fits : GoType → GoType → Bool
  unfolding assignable_to convertible_to
  fits v t = same_type v t || assignable_to v t || convertible_to v t

  -- One round of the loop over `[]any` in `matchesType`.
  unfoldable pub item_matches : Value → GoType → Bool
  unfolding assignable_to convertible_to
  item_matches v elem = elim (type_of v) [
    | none ↦ false
    | some t ↦
        if is_string_kind elem && not (is_string_kind t)
        then false
        else same_type t elem
          || assignable_to t elem
          || (convertible_to t elem && not (is_string_kind elem))
  ]

  unfoldable pub items_match : Values → GoType → Bool
  unfolding item_matches
  items_match end elem = true
  items_match (item v vs) elem = item_matches v elem && items_match vs elem

  -- The tests of `matchesType` on a slice type, after the direct ones.
  unfoldable pub slice_matches : Value → GoType → Bool
  unfolding items_match
  slice_matches (Value.string _) elem = is_string_kind elem
  slice_matches (Value.list vs) elem = items_match vs elem
  slice_matches _ elem = false

  unfoldable pub typed_matches : Value → GoType → GoType → Bool
  unfolding fits slice_matches
  typed_matches v vt (GoType.interface t) = implements vt t
  typed_matches v vt (GoType.pointer elem) = fits vt (GoType.pointer elem) || fits vt elem
  typed_matches v vt (GoType.slice elem) = fits vt (GoType.slice elem) || slice_matches v elem
  typed_matches v vt t = fits vt t

  -- matchesType
  unfoldable pub matches_type : Value → Option GoType → Bool
  unfolding typed_matches
  matches_type v t = elim (type_of v) [
    | none ↦ false
    | some vt ↦ elim t [ none ↦ false | some t' ↦ typed_matches v vt t' ]
  ]

  -- The loop of `matchesAnyType`.
  unfoldable pub some_matches : Value → List (Option GoType) → Bool
  unfolding matches_type
  some_matches v [] = false
  some_matches v (t ∷ ts) = matches_type v t || some_matches v ts

  -- matchesAnyType
  unfoldable pub matches_any_type : Value → List (Option GoType) → Bool
  unfolding some_matches
  matches_any_type v [] = true
  matches_any_type v (t ∷ ts) = some_matches v (t ∷ ts)

abbrev same_type? : Option GoType → Option GoType → Bool
same_type? none none = true
same_type? (some t) (some u) = same_type t u
same_type? _ _ = false

-- The loop of `containsExactType`.
unfoldable pub some_type : Option GoType → List (Option GoType) → Bool
some_type got [] = false
some_type got (t ∷ ts) = same_type? t got || some_type got ts

-- containsExactType
unfoldable pub contains_exact_type : Option GoType → List (Option GoType) → Bool
unfolding some_type
contains_exact_type got [] = true
contains_exact_type got (t ∷ ts) = some_type got (t ∷ ts)
