-- ===== src/Workflow/Prepare.antt =====
-- workflow.go: `execute` up to its execution phase: set up, make the modules, sort, validate.
use blackstart.Prelude.{String, Bool, Option, none, some, List, [], ◌∷◌}
use blackstart.Prelude.Dict
use blackstart.Prelude.Dict.{Dict}
use blackstart.Values.{GoType}
use blackstart.Operation.{Operation, setup}
use blackstart.Module.{
  ModuleInfo, Module, Error, no_module_info, no_module, validation_failed, panic, Result, ok, err,
}
use blackstart.Module.Registry.{Registry, new_module}
use blackstart.Workflow.Checks.{check_inputs_outputs}

-- The loop `for _, op := range we.w.Operations { op.setup() }`. The variable `op` is a copy of the
-- element, so what `setup` appends to `DependsOn` goes to the copy, and the slice is as before.
unfoldable pub setup_each : List Operation → List Operation
setup_each [] = []
setup_each (o ∷ os) = let copy = setup o in o ∷ setup_each os

-- The maps `modules`, `operations` and `moduleInfo`.
pub record Tables (World : Type 0) : Type 0 where
  pub modules : Dict (Module World)
  pub operations : Dict Operation
  pub module_info : Dict ModuleInfo

-- A stage of the run goes on with a value, or stops at an operation with an error.
pub data Stage (A : Type 0) : Type 0 where
  go : A → Stage A
  stop : Option Operation → Error → Stage A

abbrev pub stage_of : Option Operation → Result (Unit {0}) → Stage (Unit {0})
stage_of op (ok _) = go tt
stage_of op (err e) = stop op e

infixl 5 ◌>>=◌
abbrev pub ◌>>=◌ : {A B : Type 0} → Stage A → (A → Stage B) → Stage B
go a >>= f = f a
stop op e >>= f = stop op e

module _ {World : Type 0} where
  abbrev pub no_tables : Tables World
  no_tables = record { modules = []; operations = []; module_info = [] }

  abbrev pub add_module : Operation → Module World → Tables World → Tables World
  add_module o m t = record {
    modules = Dict.insert o.id m t.modules;
    operations = Dict.insert o.id o t.operations;
    module_info = Dict.insert o.id m.info t.module_info;
  }

  -- One round of the loop that makes the modules; `next` is the rest of it.
  abbrev pub after_module :
      (Tables World → Tables World × Stage (Unit {0}))
      → Operation
      → Tables World
      → Result (Module World)
      → Tables World × Stage (Unit {0})
  after_module next o t (err e) = (t, stop (some o) e)
  after_module next o t (ok m) = next (add_module o m t)

  -- The loop that makes the modules. The maps come back on failure too, since they are closed.
  unfoldable pub instantiate :
      Registry World → List Operation → Tables World → Tables World × Stage (Unit {0})
  instantiate r [] t = (t, go tt)
  instantiate r (o ∷ os) t = after_module (instantiate r os) o t (new_module r o)

  abbrev pub check_one :
      (GoType → String → Bool)
      → Tables World
      → String
      → Option ModuleInfo
      → Option Operation
      → Stage (Unit {0})
  check_one imp t id none op = stop none (no_module_info id)
  check_one imp t id (some info) none = stop none (panic id)
  check_one imp t id (some info) (some op) =
      stage_of (some op) (check_inputs_outputs imp op info.inputs t.module_info)

  -- The loop of the validation phase that checks inputs and outputs, in the sorted order.
  unfoldable pub check_all :
      (GoType → String → Bool) → Tables World → List String → Stage (Unit {0})
  check_all imp t [] = go tt
  check_all imp t (id ∷ rest) =
      check_one imp t id (Dict.lookup id t.module_info) (Dict.lookup id t.operations) >>= λ _.
      check_all imp t rest

  -- The loop that calls `Validate`; `last` is `result.Op`.
  unfoldable pub validate_all :
      Dict (Module World) → Dict Operation → Option Operation → Stage (Option Operation)
  validate_all ms [] last = go last
  validate_all ms ((_, op) ∷ rest) last = elim (Dict.lookup op.id ms) [
    | none ↦ stop (some op) (no_module op.id)
    | some m ↦ elim (m.validate op) [
      | some e ↦ stop (some op) (validation_failed op.id e)
      | none ↦ validate_all ms rest (some op)
    ]
  ]
