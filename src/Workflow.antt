-- ===== src/Workflow.antt =====
-- workflow.go: the run of a workflow. The children prove what it keeps.
pub mod Checks
pub mod Prepare
pub mod Run
pub mod Execute
pub mod Log
pub mod Guarded
mod Progress
mod Tables
pub mod Duplicates
pub mod Conforms
pub mod Outcome
mod Samples
use blackstart.Prelude.{ℕ, String, Bool, Option, none, some, List, [], ◌∷◌}
use blackstart.Operation.{Operation}
use blackstart.Module.{Error}

pub data Phase : Type 0 where
  setup validate execute : Phase

-- type WorkflowResult struct
pub record WorkflowResult : Type 0 where
  pub phase : Phase
  pub op : Option Operation
  pub err : Option Error
  pub total_operations : ℕ
  pub completed_operations : ℕ
