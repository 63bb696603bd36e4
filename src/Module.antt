-- ===== src/Module.antt =====
-- module.go: what a module is, the registry, and the context that an operation runs in.
pub mod Context
pub mod Registry
pub mod Results
pub mod Loops
use blackstart.Prelude.{ℕ, String, Bool, Option, none, some, List, [], ◌∷◌}
use blackstart.Prelude.Dict.{Dict}
use blackstart.Values.{GoType, Value}
use blackstart.Operation.{Operation, Input}

-- type OutputValue struct; a nil reflect.Type is `none`
pub record OutputValue : Type 0 where
  pub description : String
  pub type : Option GoType

-- type InputValue struct
pub record InputValue : Type 0 where
  pub description : String
  pub type : Option GoType
  pub types : List (Option GoType)
  pub required : Bool
  pub default : Value

-- (i InputValue) SupportedTypes
unfoldable pub supported_types : InputValue → List (Option GoType)
supported_types i = elim i.types [
  | [] ↦ elim i.type [ none ↦ [] | some t ↦ some t ∷ [] ]
  | t ∷ ts ↦ t ∷ ts
]

-- type ModuleInfo struct, without its texts for the documentation
pub record ModuleInfo : Type 0 where
  pub id : String
  pub name : String
  pub inputs : Dict InputValue
  pub outputs : Dict OutputValue

-- What can go wrong; each constructor is one `fmt.Errorf` or the error of a module.
pub data Error : Type 0 where
  duplicate_operation : String → Error
  unknown_module : String → Error
  failed_to_create_module : String → Error
  operation_cycle : String → Error
  no_module_info : String → Error
  no_module : String → Error
  missing_required_input : String → String → Error
  not_assignable : String → String → Error
  dependency_not_found : String → String → String → Error
  output_not_found : String → String → String → String → Error
  type_mismatch : String → String → String → Error
  validation_failed : String → Error → Error
  not_a_declared_dependency : String → String → Error
  not_in_workflow_context : String → Error
  context_not_found : String → Error
  setup_failed : Error → Error
  output_does_not_exist : String → Error
  output_already_exists : String → Error
  input_does_not_exist : String → Error
  -- the operations whose module failed to close
  cleanup_failed : List String → Error
  -- the conversions of inputs in helpers.go
  not_static : Error
  value_nil : Error
  not_of_type : Error
  value_empty : Error
  missing_input : String → Error → Error
  invalid_input : String → Error → Error
  -- the inputs of the grants of PostgreSQL
  empty_value : String → Error
  must_not_be_empty : String → Error
  must_be_provided : String → Error
  must_be_empty : String → Error
  must_match : String → String → Error
  not_supported : String → Error
  missing_parameter : String → Error
  invalid_parameter : String → Error → Error
  invalid_scope : String → Error
  invalid_identifier : Error
  invalid_role : String → Error → Error
  invalid_permission : String → Error
  invalid_large_object : Error
  query_error : Error → Error
  -- the accounts of MySQL
  invalid_account : String → Error
  -- default privileges: an input that is only for an operation that makes, or only for one that removes
  only_when_existing : String → Error
  only_when_removing : String → Error
  -- the users of Cloud SQL
  user_collision : String → String → Error
  not_supported_engine : Error
  iam_not_enabled : Error
  not_found : String → Error
  invalid_user_type : String → Error
  empty_response : Error
  bad_status : ℕ → Error
  -- the values of config maps
  unknown_policy : String → Error
  must_not_be_null : String → Error
  value_changed : String → Error
  -- a panic that ends the process
  panic : String → Error
  module_error : ℕ → Error

-- A value, or the error that a function returns beside a zero value.
pub data Result (A : Type 0) : Type 0 where
  err : Error → Result A
  ok : A → Result A

infixl 5 ◌>>=◌
abbrev pub ◌>>=◌ : {A B : Type 0} → Result A → (A → Result B) → Result B
err e >>= next = err e
ok value >>= next = next value

-- type moduleContext struct, without the `context.Context` that it wraps
pub record ModuleContext : Type 0 where
  pub input_values : Dict Input
  pub output_values : Dict Value
  pub dne : Bool
  pub tainted : Bool

-- `ContextWorkflowOutput` as an operation finds it in its context.
abbrev pub Resolver : Type 0
Resolver = String → String → Result Value

-- The interface `Module` over the state `World` of everything outside. `Check` and `Set` may write
-- outputs to their context. `close` is there for a module that is an `io.Closer`.
pub record Module (World : Type 0) : Type 0 where
  pub info : ModuleInfo
  pub validate : Operation → Option Error
  pub check : Resolver → ModuleContext → World → Result Bool × ModuleContext × World
  pub set : Resolver → ModuleContext → World → Option Error × ModuleContext × World
  pub close : Option (World → Option Error × World)
