-- ===== src/Values.antt =====
-- The values of type `any` that inputs and outputs carry, and what the code asks `reflect` of them.
pub mod Reflect
use blackstart.Prelude.{ℕ, String, Bool, List}

-- The types that the modules name. `interface` is a named interface, and `named` any other named
-- type, such as a struct.
pub data GoType : Type 0 where
  bool int int64 float64 string : GoType
  slice : GoType → GoType
  pointer : GoType → GoType
  interface : String → GoType
  named : String → GoType

mutual
  pub data Value : Type 0 where
    nil : Value
    bool : Bool → Value
    string : String → Value
    -- `[]string`
    strings : List String → Value
    -- `[]any`, as JSON and YAML decode a list
    list : Values → Value
    -- a value that only its module looks into, by its type and a name: a number, a handle
    opaque : GoType → ℕ → Value

  pub data Values : Type 0 where
    end : Values
    item : Value → Values → Values
