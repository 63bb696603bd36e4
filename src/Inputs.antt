-- ===== src/Inputs.antt =====
-- helpers.go: `InputAs` and `ContextInputAs` at the types `string`, `[]string` and `bool`, with
-- `coerceValue` and `validateRequiredValue`.
pub mod Static
use blackstart.Prelude.{String, Bool, true, false, not, List, [], ◌∷◌, ◌==◌, if◌then◌else◌}
use blackstart.Text.{string_of_rune, all_of}
use blackstart.Values.{GoType, Value, Values, end, item}
use blackstart.Operation.{Input, is_static}
use blackstart.Module.{
  ModuleContext, not_static, value_nil, not_of_type, value_empty, missing_input, invalid_input,
  Result, ok, err, ◌>>=◌,
}
use blackstart.Module.Context.{input}

-- A type `T` that an input is read as: its zero value, `coerceValue[T]`, and the test of
-- `validateRequiredValue`.
pub record Target (A : Type 0) : Type 0 where
  pub zero_value : A
  pub coerce : Value → Result A
  pub is_filled : A → Bool

-- coerceValue[string]: a text, or an integer converted to the character with that number
unfoldable pub coerce_string : Value → Result String
unfolding string_of_rune
coerce_string (Value.string s) = ok s
coerce_string (Value.opaque GoType.int n) = ok (string_of_rune n)
coerce_string (Value.opaque GoType.int64 n) = ok (string_of_rune n)
coerce_string _ = err not_of_type

-- The loop over `[]any` in `coerceValue[[]string]`: every item is a text.
unfoldable pub coerce_items : Values → Result (List String)
coerce_items end = ok []
coerce_items (item (Value.string s) vs) = coerce_items vs >>= λ rest. ok (s ∷ rest)
coerce_items (item _ vs) = err not_of_type

-- coerceValue[[]string]
unfoldable pub coerce_strings : Value → Result (List String)
unfolding coerce_items
coerce_strings (Value.strings ss) = ok ss
coerce_strings (Value.string s) = ok (s ∷ [])
coerce_strings (Value.list vs) = coerce_items vs
coerce_strings _ = err not_of_type

-- coerceValue[bool]
unfoldable pub coerce_bool : Value → Result Bool
coerce_bool (Value.bool b) = ok b
coerce_bool _ = err not_of_type

unfoldable pub non_empty : List String → Bool
non_empty [] = false
non_empty (s ∷ ss) = all_of (λ t. not (t == "")) (s ∷ ss)

abbrev pub string_target : Target String
string_target = record { zero_value = ""; coerce = coerce_string; is_filled = λ s. not (s == "") }

abbrev pub strings_target : Target (List String)
strings_target = record { zero_value = []; coerce = coerce_strings; is_filled = non_empty }

abbrev pub bool_target : Target Bool
bool_target = record { zero_value = false; coerce = coerce_bool; is_filled = λ b. true }

module _ {A : Type 0} (t : Target A) where
  unfoldable pub filled : Bool → A → Result A
  filled false a = ok a
  filled true a = if t.is_filled a then ok a else err value_empty

  unfoldable pub value_as : Value → Bool → Result A
  unfolding filled
  value_as Value.nil required = if required then err value_nil else ok t.zero_value
  value_as v required = t.coerce v >>= λ a. filled required a

  -- InputAs
  unfoldable pub input_as : Input → Bool → Result A
  unfolding value_as
  input_as i required = if is_static i then value_as i.any_value required else err not_static

  abbrev found_input_as : String → Result Input → Bool → Result A
  found_input_as key (err e) required =
      if required then err (missing_input key e) else ok t.zero_value
  found_input_as key (ok i) required = elim (input_as i required) [
    | err e ↦ err (invalid_input key e)
    | ok a ↦ ok a
  ]

  -- ContextInputAs
  unfoldable pub context_input_as : ModuleContext → String → Bool → Result A
  unfolding input_as
  context_input_as ctx key required = found_input_as key (input ctx key) required
