-- ===== src/Operation.antt =====
-- operation.go and the inputs of module.go: an operation of a workflow, its inputs, and `setup`.
use blackstart.Prelude.{
  String, Bool, true, false, Option, none, some, List, [], ◌∷◌, ◌++◌, contains, if◌then◌else◌,
}
use blackstart.Prelude.Dict.{Dict}
use blackstart.Values.{Value, nil}

-- type dependencyOutput struct
pub record DependencyOutput : Type 0 where
  pub operation_id : String
  pub output : String

-- type moduleInput struct, the one implementation of `Input`
pub record Input : Type 0 where
  pub any_value : Value
  pub dependency_output_value : Option DependencyOutput

unfoldable pub is_static : Input → Bool
is_static i = elim i.dependency_output_value [ none ↦ true | some _ ↦ false ]

unfoldable pub dependency_id : Input → String
dependency_id i = elim i.dependency_output_value [ none ↦ "" | some d ↦ d.operation_id ]

unfoldable pub output_key : Input → String
output_key i = elim i.dependency_output_value [ none ↦ "" | some d ↦ d.output ]

unfoldable pub input_from_value : Value → Input
input_from_value v = record { any_value = v; dependency_output_value = none }

unfoldable pub input_from_dep : String → String → Input
input_from_dep id output = record {
  any_value = nil;
  dependency_output_value = some (record { operation_id = id; output = output });
}

-- type Operation struct; its field `Module` is `module_id`
pub record Operation : Type 0 where
  pub module_id : String
  pub id : String
  pub name : String
  pub description : String
  pub depends_on : List String
  pub inputs : Dict Input
  pub does_not_exist : Bool
  pub tainted : Bool

-- The loop of `setup` over `o.Inputs`.
unfoldable pub add_implicit : Dict Input → List String → List String
unfolding is_static dependency_id
add_implicit [] ds = ds
add_implicit ((k, v) ∷ rest) ds = add_implicit rest (
    if is_static v
    then ds
    else if contains ds (dependency_id v)
    then ds
    else ds ++ dependency_id v ∷ [])

-- (o *Operation) setup; it never fails
unfoldable pub setup : Operation → Operation
unfolding add_implicit
setup o = record o { depends_on = add_implicit o.inputs o.depends_on }
