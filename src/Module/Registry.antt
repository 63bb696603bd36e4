-- ===== src/Module/Registry.antt =====
-- module.go: the registry of module factories.
use blackstart.Prelude.{
  ℕ, zero, suc, String, Bool, true, false, Option, none, some, List, [], ◌∷◌, if◌then◌else◌,
}
use blackstart.Prelude.Dict
use blackstart.Prelude.Dict.{Dict}
use blackstart.Values.{GoType}
use blackstart.Operation.{Operation}
use blackstart.Module.{InputValue, Module, unknown_module, failed_to_create_module, Result, ok, err}

-- registeredModuleFactories. A factory makes an instance, or returns nil.
abbrev pub Registry : Type 0 → Type 0
Registry World = Dict (Option (Module World))

-- The loop over `input.Types` in `validateModuleInfo`.
unfoldable pub non_nil_types : List (Option GoType) → ℕ
non_nil_types [] = 0
non_nil_types (none ∷ ts) = non_nil_types ts
non_nil_types (some t ∷ ts) = suc (non_nil_types ts)

unfoldable pub valid_types : Option GoType → List (Option GoType) → Bool
unfolding non_nil_types
valid_types type [] = true
valid_types (some t) (u ∷ us) = false
valid_types none (u ∷ us) = elim (non_nil_types (u ∷ us)) [ zero ↦ false | suc _ ↦ true ]

-- validateModuleInfo: true where it returns no error
unfoldable pub validate_module_info : Dict InputValue → Bool
unfolding valid_types
validate_module_info [] = true
validate_module_info ((name, i) ∷ rest) =
    if valid_types i.type i.types then validate_module_info rest else false

-- RegisterModule; `none` is its panic
unfoldable pub register_module :
    {W : Type 0} → String → Option (Module W) → Registry W → Option (Registry W)
unfolding validate_module_info
register_module name none r = none
register_module name (some m) r =
    if validate_module_info m.info.inputs then some (Dict.insert name (some m) r) else none

-- NewModule
unfoldable pub new_module : {W : Type 0} → Registry W → Operation → Result (Module W)
new_module r op = elim (Dict.lookup op.module_id r) [
  | none ↦ err (unknown_module op.module_id)
  | some made ↦ elim made [ none ↦ err (failed_to_create_module op.module_id) | some m ↦ ok m ]
]
