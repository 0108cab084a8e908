-- ===== src/Runtime.antt =====
-- go/agent-runtime/kernel/runtime.go, execution.go, quarantine.go and control.go: the Runtime over the
-- in-memory Store. Each reading of a clock, of the entropy and of the context is an argument; a nil
-- Runtime, Store, clock or source of identifiers is not modelled.
pub mod Commands
pub mod Transitions
pub mod Terminations
pub mod Expiry
pub mod Identified
pub mod Scanning
pub mod Matching
pub mod Committing
pub mod Evidence
use gaoge_agent_runtime.Prelude.{
  ℕ, suc, ◌+◌, ◌%◌, ◌^◌, ◌==◌, ◌/=◌, ltb, leb, String, Bool, true, false, not, ◌&&◌, ◌||◌, Option,
  none, some, List, [], ◌∷◌, ◌++◌, text_dec, text_eq, text_ne, is_blank, trim_space, is_some,
  if◌then◌else◌, Result, ok, err,
}
use gaoge_agent_runtime.Kernel.{
  Error, invalid_input, not_found, conflict, deadline, execution_conflict, execution_required, Run,
  running, cancelled, failed, EventDraft, Event, Snapshot, CreateRequest, Mutation, RunRecord,
  StoreMutation, ExecutionLease, ExecutionAcquireRequest, ExecutionRenewRequest, Quarantine,
  ControlGuard, cancel, deadline_control, Proof, Codec, Context, live,
}
use gaoge_agent_runtime.Kernel.Validation.{
  terminal_status, valid_create_request, validate_mutation, has_reserved_apply_evidence,
  valid_execution_lease, valid_execution_duration, valid_quarantine, context_error,
}
use gaoge_agent_runtime.Kernel.Guard.{next_u64, is_due, validate_control}
use gaoge_agent_runtime.Memory
use gaoge_agent_runtime.Memory.{Store, apply_locked}
use gaoge_agent_runtime.Memory.Execution.{
  apply_execution, check_execution, acquire_execution, renew_execution, release_execution,
  quarantine_execution, repair_quarantine,
}
use gaoge_agent_runtime.Memory.Control as StoreControl

-- `Runtime.execution`: the segment that a Runtime is bound to.
abbrev pub Binding : Type 0
Binding = Option ExecutionLease

-- `makeStoreMutation`.
unfoldable pub make_store_mutation : Snapshot → Mutation → ℕ → StoreMutation
make_store_mutation current m now = record {
  replacement = record {
    execution_required = false;
    run = record (current.run) {
      status = m.status;
      revision = next_u64 current.run.revision;
      error_code = trim_space m.error_code;
      error_detail = trim_space m.error_detail;
      updated_at = now;
      ended_at = if terminal_status m.status then some now else current.run.ended_at;
    };
    state = m.state;
    checkpoint = m.checkpoint;
    result = m.result;
  };
  events = m.events;
}

-- `validBoundRun`.
unfoldable pub valid_bound_run : Binding → String → Bool
valid_bound_run none run_id = true
valid_bound_run (some l) run_id = valid_execution_lease l && text_eq l.run_id run_id

-- `Load`.
unfoldable pub load : Store → String → Result Error Snapshot
load s run_id = if is_blank run_id then err invalid_input else Memory.load s (trim_space run_id)

-- `ListEvents`, for a position and a limit that are not negative.
unfoldable pub list_events : Store → String → ℕ → ℕ → Result Error (List Event)
list_events s run_id after_seq limit =
    if is_blank run_id || limit == 0 || ltb 10000 limit
    then err invalid_input
    else Memory.list_events s (trim_space run_id) after_seq limit

abbrev created_event : EventDraft
created_event = record {
  type = "run.created";
  message = "Run created";
  body = "";
  wakeup = false;
  wakeup_at = none;
  wakeup_generation = 0;
}

-- The record that `Create` builds.
unfoldable pub new_record : CreateRequest → String → ℕ → RunRecord
new_record r run_id now = record {
  execution_required = r.execution_required;
  run = record {
    id = run_id;
    kind = r.kind;
    actor = r.actor;
    thread = r.thread;
    request_id = trim_space r.request_id;
    goal = trim_space r.goal;
    status = running;
    revision = 1;
    error_code = "";
    error_detail = "";
    deadline_at = r.deadline_at;
    ended_at = none;
    created_at = now;
    updated_at = now;
  };
  state = r.state;
  checkpoint = none;
  result = none;
}

-- The identifier of a new Run: the request's own, or a fresh one.
unfoldable pub choose_id : String → Result Error String → Result Error String
choose_id wanted fresh = if is_blank wanted then fresh else ok (trim_space wanted)

-- The write of `apply`: fenced when the Runtime is bound.
unfoldable pub commit :
    Store → Context → Binding → String → ℕ → StoreMutation → ℕ → Store × Result Error Snapshot
commit s ctx none run_id expected m store_now = Memory.apply s run_id expected m
commit s ctx (some l) run_id expected m store_now = apply_execution s ctx l expected m store_now

-- The error of a control: raised before the write-capable Store (`controlPreStoreFailure`), or by it
-- (`controlStoreOutcomeError`).
pub data ControlError : Type 0 where
  no_effect : Error → ControlError
  store_outcome : Error → ControlError

-- `IsControlNoEffect`.
abbrev pub is_no_effect : {A : Type 0} → Result ControlError A → Bool
is_no_effect (err (no_effect e)) = true
is_no_effect _ = false

abbrev pub store_result : {A : Type 0} → Store × Result Error A → Store × Result ControlError A
store_result (s, ok a) = (s, ok a)
store_result (s, err e) = (s, err (store_outcome e))

module _ (codec : Codec) where
  -- `Create`. The in-memory Store supports execution.
  unfoldable pub create :
      Store → CreateRequest → Result Error String → ℕ → Store × Result Error Snapshot
  create s r fresh now =
      if not (valid_create_request codec r) || has_reserved_apply_evidence r.events
      then (s, err invalid_input)
      else elim (choose_id r.id fresh) [
        | err e ↦ (s, err e)
        | ok run_id ↦
            if is_due r.deadline_at now
            then (s, err deadline)
            else Memory.create s (new_record r run_id now) (created_event ∷ r.events)
      ]

  -- `apply` as far as the write: what it reads, checks and proposes.
  unfoldable pub propose :
      Store → Binding → String → ℕ → Mutation → Bool → ℕ → Result Error StoreMutation
  propose s bound run_id expected m evidence now =
      if is_blank run_id || expected == 0
      then err invalid_input
      else if not evidence && has_reserved_apply_evidence m.events
      then err invalid_input
      else if not (valid_bound_run bound (trim_space run_id))
      then err execution_conflict
      else elim (Memory.load s (trim_space run_id)) [
        | err e ↦ err e
        | ok current ↦
            if current.run.revision /= expected
            then err conflict
            else elim (validate_mutation codec current m) [
              | some e ↦ err e
              | none ↦ ok (make_store_mutation current m now)
            ]
      ]

  -- `apply`, when no other call comes between its read and its write.
  unfoldable pub apply :
      Store
      → Context
      → Binding
      → String
      → ℕ
      → Mutation
      → Bool
      → ℕ
      → ℕ
      → Store × Result Error Snapshot
  apply s ctx bound run_id expected m evidence now store_now =
      elim (propose s bound run_id expected m evidence now) [
        | err e ↦ (s, err e)
        | ok next ↦ commit s ctx bound run_id expected next store_now
      ]

  -- What `ApplyControl` refuses before the Store, or the mutation that it hands over.
  unfoldable pub prepare_control :
      Store → Binding → String → ℕ → ControlGuard → Mutation → ℕ → ℕ → Result Error StoreMutation
  prepare_control s bound run_id expected g m now check_now =
      if is_some bound || has_reserved_apply_evidence m.events
      then err invalid_input
      else elim (load s run_id) [
        | err e ↦ err e
        | ok current ↦
            if current.run.revision /= expected
            then err conflict
            else elim (validate_mutation codec current m) [
              | some e ↦ err e
              | none ↦
                  elim (validate_control codec current g (make_store_mutation current m now)
                    check_now) [ some e ↦ err e | none ↦ ok (make_store_mutation current m now) ]
            ]
      ]

  -- `ApplyControl`, with the proof that the Feature hands over.
  unfoldable pub apply_control :
      Store
      → Context
      → Binding
      → String
      → ℕ
      → ControlGuard
      → Mutation
      → Option Proof
      → ℕ
      → ℕ
      → ℕ
      → Store × Result ControlError (Snapshot × Bool)
  apply_control s ctx bound run_id expected g m permit now check_now store_now =
      elim (prepare_control s bound run_id expected (record g { verified = permit }) m now
        check_now) [
          | err e ↦ (s, err (no_effect e))
          | ok next ↦ store_result (
              StoreControl.apply_control codec s ctx run_id expected
                (record g { verified = permit }) next store_now)
        ]
