-- ===== src/Kernel.antt =====
-- go/agent-runtime/kernel/types.go, store.go, execution.go, control.go and quarantine.go: the data
-- that a Run is made of. A `time.Time` is its nanoseconds since Go's zero time, so 0 is `IsZero`
-- and `UTC()` changes nothing; a nil pointer is `none`; a `json.RawMessage` is its text.
pub mod Validation
pub mod Guard
use gaoge_agent_runtime.Prelude.{ℕ, String, Bool, Option, List}
use gaoge_agent_runtime.Prelude.Int.{ℤ}

-- The sentinel errors of the package, and the caller's own `ctx.Err()`.
pub data Error : Type 0 where
  invalid_input not_found already_exists conflict terminal deadline : Error
  execution_conflict execution_required execution_busy execution_quarantined : Error
  apply_already_committed apply_outcome_unknown context_done entropy : Error

-- `RunStatus` is a string type, so a caller may hand over any other text.
pub data RunStatus : Type 0 where
  running waiting_input paused_budget completed failed cancelled : RunStatus
  other_status : String → RunStatus

pub record ActorRef : Type 0 where
  pub tenant_id : String
  pub actor_id : String

pub record ThreadRef : Type 0 where
  pub kind : String
  pub id : String

pub record Run : Type 0 where
  pub id : String
  pub kind : String
  pub actor : ActorRef
  pub thread : ThreadRef
  pub request_id : String
  pub goal : String
  pub status : RunStatus
  pub revision : ℕ
  pub error_code : String
  pub error_detail : String
  pub deadline_at : Option ℕ
  pub ended_at : Option ℕ
  pub created_at : ℕ
  pub updated_at : ℕ

pub record EventDraft : Type 0 where
  pub type : String
  pub message : String
  pub body : String
  pub wakeup : Bool
  pub wakeup_at : Option ℕ
  pub wakeup_generation : ℕ

pub record Event : Type 0 where
  pub seq : ℕ
  pub type : String
  pub message : String
  pub body : String
  pub created_at : ℕ

pub data CheckpointStatus : Type 0 where
  pending resolved : CheckpointStatus
  other_checkpoint : String → CheckpointStatus

pub record Checkpoint : Type 0 where
  pub id : String
  pub kind : String
  pub status : CheckpointStatus
  pub payload : String
  pub response : String
  pub created_at : ℕ
  pub resolved_at : Option ℕ

-- `kernel.Result`, the terminal output of a Run.
pub record Output : Type 0 where
  pub content_type : String
  pub content : String

pub record Snapshot : Type 0 where
  pub run : Run
  pub state : String
  pub checkpoint : Option Checkpoint
  pub result : Option Output
  pub event_head : ℕ

pub record CreateRequest : Type 0 where
  pub execution_required : Bool
  pub id : String
  pub kind : String
  pub actor : ActorRef
  pub thread : ThreadRef
  pub request_id : String
  pub goal : String
  pub deadline_at : Option ℕ
  pub state : String
  pub events : List EventDraft

pub record Mutation : Type 0 where
  pub status : RunStatus
  pub state : String
  pub checkpoint : Option Checkpoint
  pub result : Option Output
  pub error_code : String
  pub error_detail : String
  pub events : List EventDraft

-- `kernel.Record`: what the Store persists with a Run.
pub record RunRecord : Type 0 where
  pub execution_required : Bool
  pub run : Run
  pub state : String
  pub checkpoint : Option Checkpoint
  pub result : Option Output

-- `StoreMutation`: the replacement record, with the events of one transition.
pub record StoreMutation : Type 0 where
  pub replacement : RunRecord
  pub events : List EventDraft

pub record ExecutionLease : Type 0 where
  pub run_id : String
  pub owner_id : String
  pub lease_id : String
  pub epoch : ℕ
  pub expires_at : ℕ

-- A `time.Duration` is its signed nanoseconds.
pub record ExecutionAcquireRequest : Type 0 where
  pub run_id : String
  pub owner_id : String
  pub lease_duration : ℤ

pub record ExecutionRenewRequest : Type 0 where
  pub lease : ExecutionLease
  pub lease_duration : ℤ

pub record CommittedTransition : Type 0 where
  pub id : String
  pub run_id : String
  pub kind : String
  pub status : RunStatus
  pub revision : ℕ
  pub events : List EventDraft
  pub committed_at : ℕ
  pub attempts : ℕ

pub record TransitionClaimRequest : Type 0 where
  pub worker_id : String
  pub limit : ℤ
  pub lease_duration : ℤ
  pub now : ℕ

pub record TransitionClaim : Type 0 where
  pub transition : CommittedTransition
  pub lease_id : String
  pub worker_id : String
  pub lease_until : ℕ

pub record TransitionLeaseRequest : Type 0 where
  pub transition_id : String
  pub lease_id : String
  pub worker_id : String

pub record Quarantine : Type 0 where
  pub run_id : String
  pub revision : ℕ
  pub generation : ℕ
  pub reason : String

pub data ControlKind : Type 0 where
  approval allowance cancel deadline_control external_signal : ControlKind
  other_control : String → ControlKind

-- `featurecontrol.Proof`: a sealed decision; `hash` is the digest's 32 bytes as a text.
pub record Proof : Type 0 where
  pub run_id : String
  pub revision : ℕ
  pub kind : String
  pub source : String
  pub hash : String

pub record ControlGuard : Type 0 where
  pub kind : ControlKind
  pub checkpoint_id : String
  pub blocked_code : String
  pub wait_id : String
  pub wait_deadline_at : Option ℕ
  pub verified : Option Proof

-- What the kernel uses of encoding/json and crypto/sha256: whether a text is JSON, the `decision`
-- member of an approval's response (`none` when it does not decode), and the digest of a state with
-- a checkpoint (`none` when it does not encode).
pub record Codec : Type 0 where
  pub valid : String → Bool
  pub decision : String → Option String
  pub digest : String → Option Checkpoint → Option String

-- A `context.Context`: nil, live, or already cancelled when `Err` is asked.
pub data Context : Type 0 where
  no_context live cancelled_context : Context
