-- ===== src/Execution.antt =====
-- go/agent-runtime/workflow/execution.go: the durable state of a Workflow execution, and the write that a
-- handler hands to `Apply` of the kernel Runtime. A counter is a ℕ and an amount of cost a ℤ.
pub mod Values
pub mod Plans
pub mod Failing
pub mod Outcomes
pub mod Starting
pub mod Finishing
pub mod Undoing
pub mod Advancing
pub mod Sums
pub mod Accounts
pub mod Indices
pub mod Settling
pub mod Soundness
pub mod Reserving
pub mod Activating
pub mod Closing
pub mod Answering
pub mod Repaying
pub mod Budgeting
pub mod Ordering
use gaoge_agent_runtime.Prelude.{ℕ, String, Bool, Option, List}
use gaoge_agent_runtime.Prelude.Int.{ℤ}
use gaoge_agent_runtime.Kernel.{RunStatus}
use gaoge_agent_runtime.Workflow.{
  Definition, DefinitionReference, EffectCall, RetryPolicy, ValueSource,
}

-- `ErrInvalidExecution`, `ErrBudgetExceeded`, `ErrWaitPending` and the Kernel's `ErrConflict`, as far as a
-- handler returns them without a write.
pub data Error : Type 0 where
  invalid_execution budget_exceeded wait_pending conflict : Error

pub data ActivationStatus : Type 0 where
  running waiting completed failed : ActivationStatus

pub data EffectStatus : Type 0 where
  pending completed failed : EffectStatus

pub data EffectDisposition : Type 0 where
  pending completed failed : EffectDisposition
  other_disposition : String → EffectDisposition

pub data WaitStatus : Type 0 where
  pending resolved : WaitStatus

pub data CompensationStatus : Type 0 where
  pending running completed failed : CompensationStatus

pub record Activation : Type 0 where
  pub id : String
  pub node_id : String
  pub node_index : ℕ
  pub status : ActivationStatus
  pub attempt : ℕ
  pub effect_id : String
  pub effect_ids : List String
  pub wait_id : String
  pub output : String
  pub error_code : String
  pub error : String

pub record Effect : Type 0 where
  pub id : String
  pub activation_id : String
  pub node_id : String
  pub class : String
  pub kind : String
  pub revision : String
  pub definition : Option DefinitionReference
  pub output_key : String
  pub map_index : ℕ
  pub mapped : Bool
  pub compensation : Bool
  pub input : String
  pub max_cost_units : ℤ
  pub cost_units : ℤ
  pub nested_depth : ℕ
  pub attempt : ℕ
  pub retry : RetryPolicy
  pub status : EffectStatus
  pub child_run_id : String
  pub receipt_id : String
  pub output : String
  pub error_code : String
  pub error : String

pub record Wait : Type 0 where
  pub id : String
  pub activation_id : String
  pub node_id : String
  pub kind : String
  pub payload : String
  pub status : WaitStatus
  pub response : String

-- Without the size of the encoded state.
pub record Budget : Type 0 where
  pub node_activations : ℕ
  pub effects : ℕ
  pub segments : ℕ
  pub cost_units_used : ℤ
  pub cost_units_reserved : ℤ

pub record Compensation : Type 0 where
  pub id : String
  pub node_id : String
  pub call : EffectCall
  pub input : String
  pub status : CompensationStatus
  pub effect_id : String
  pub receipt_id : String
  pub error_code : String
  pub error : String

pub record FailureIntent : Type 0 where
  pub status : RunStatus
  pub code : String
  pub detail : String

-- `View`, which is also `executionState`.
pub record View : Type 0 where
  pub definition : Definition
  pub input : String
  pub nested_depth : ℕ
  pub current_node : ℕ
  pub activations : List Activation
  pub effects : List Effect
  pub waits : List Wait
  pub current_wait_id : String
  pub compensations : List Compensation
  pub failure : Option FailureIntent
  pub budget : Budget

pub record EffectResult : Type 0 where
  pub disposition : EffectDisposition
  pub child_run_id : String
  pub receipt_id : String
  pub output : String
  pub error_code : String
  pub error_detail : String
  pub cost_units : ℤ

-- What an executor answers: an error, by its code and text, or a result.
pub data Answer : Type 0 where
  refused : String → String → Answer
  observed : EffectResult → Answer

-- `effectOutcome`.
pub record EffectOutcome : Type 0 where
  pub effect_index : ℕ
  pub answer : Answer

-- What becomes of the checkpoint of the Run: the one it has, none, the one of a Wait, or its resolution.
pub data CheckpointChange : Type 0 where
  kept cleared : CheckpointChange
  waits_for : Wait → CheckpointChange
  answered : String → CheckpointChange

-- A `kernel.Mutation` with one event: its state before it is encoded.
pub record Write : Type 0 where
  pub status : RunStatus
  pub state : View
  pub checkpoint : CheckpointChange
  pub result : Option String
  pub error_code : String
  pub error_detail : String
  pub event_type : String
  pub event_message : String
  pub wakeup : Bool

-- `segmentBudget`.
pub record SegmentBudget : Type 0 where
  pub activations : ℕ
  pub effects : ℕ

-- Code outside the interpreter: a pointer into a value, the members of an array and the value of a Boolean,
-- by the JSON decoder, and an object and an array, by the encoder.
pub record Reader : Type 0 where
  pub pointer : String → String → Option String
  pub members : String → Option (List String)
  pub boolean : String → Option Bool
  pub object : List (String × String) → Option String
  pub array : List String → Option String
