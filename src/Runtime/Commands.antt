-- ===== src/Runtime/Commands.antt =====
-- go/agent-runtime/kernel/runtime.go, execution.go and quarantine.go: cancelling and expiring a Run,
-- binding a Runtime to a segment, and the execution calls that go through to the Store.
use gaoge_agent_runtime.Prelude.{
  ℕ, ◌/=◌, String, Bool, true, false, not, ◌||◌, Option, none, some, [], ◌∷◌, is_blank, trim_space,
  is_some, if◌then◌else◌, Result, ok, err,
}
use gaoge_agent_runtime.Kernel.{
  Error, invalid_input, conflict, execution_conflict, cancelled, failed, EventDraft, Snapshot,
  Mutation, ExecutionLease, ExecutionAcquireRequest, ExecutionRenewRequest, Quarantine,
  ControlGuard, ControlKind, cancel, deadline_control, Codec, Context,
}
use gaoge_agent_runtime.Kernel.Validation.{
  valid_execution_lease, valid_execution_duration, valid_quarantine, context_error,
}
use gaoge_agent_runtime.Kernel.Guard.{is_due}
use gaoge_agent_runtime.Memory.{Store}
use gaoge_agent_runtime.Memory.Execution
use gaoge_agent_runtime.Runtime.{
  Binding, ControlError, no_effect, store_outcome, load, valid_bound_run, apply_control,
}

abbrev pub plain_guard : ControlKind → ControlGuard
plain_guard k = record {
  kind = k;
  checkpoint_id = "";
  blocked_code = "";
  wait_id = "";
  wait_deadline_at = none;
  verified = none;
}

abbrev pub plain_event : String → String → EventDraft
plain_event type message = record {
  type = type;
  message = message;
  body = "";
  wakeup = false;
  wakeup_at = none;
  wakeup_generation = 0;
}

-- The mutation of `Cancel`.
unfoldable pub cancel_mutation : Snapshot → String → Mutation
cancel_mutation current reason = record {
  status = cancelled;
  state = current.state;
  checkpoint = none;
  result = none;
  error_code = "run.cancelled";
  error_detail = trim_space reason;
  events = plain_event "run.cancelled" (trim_space reason) ∷ [];
}

-- The mutation of `Expire`.
unfoldable pub expire_mutation : Snapshot → Mutation
expire_mutation current = record {
  status = failed;
  state = current.state;
  checkpoint = none;
  result = none;
  error_code = "run.deadline_exceeded";
  error_detail = "kernel run deadline exceeded";
  events = plain_event "run.deadline_exceeded" "kernel run deadline exceeded" ∷ [];
}

abbrev pub without_flag :
    Store × Result ControlError (Snapshot × Bool) → Store × Result ControlError Snapshot
without_flag (s, ok a) = (s, ok a.0)
without_flag (s, err e) = (s, err e)

abbrev pub expired_result :
    Store × Result ControlError (Snapshot × Bool) → Store × Result Error (Snapshot × Bool)
expired_result (s, ok a) = (s, ok (a.0, true))
expired_result (s, err (no_effect e)) = (s, err e)
expired_result (s, err (store_outcome e)) = (s, err e)

module _ (codec : Codec) where
  -- `Cancel`, unbound from any segment.
  unfoldable pub cancel_run :
      Store → Context → String → ℕ → String → ℕ → ℕ → ℕ → Store × Result ControlError Snapshot
  unfolding cancel_mutation
  cancel_run s ctx run_id expected reason now check_now store_now = elim (load s run_id) [
    | err e ↦ (s, err (no_effect e))
    | ok current ↦
        if current.run.revision /= expected
        then (s, err (no_effect conflict))
        else without_flag (
            apply_control codec s ctx none run_id expected (plain_guard cancel)
              (cancel_mutation current reason) none now check_now store_now)
  ]

  -- `Expire`; the flag says whether the Run was failed. `due_now` is its own reading of the clock.
  unfoldable pub expire_run :
      Store → Context → String → ℕ → ℕ → ℕ → ℕ → ℕ → Store × Result Error (Snapshot × Bool)
  unfolding expire_mutation
  expire_run s ctx run_id expected due_now now check_now store_now = elim (load s run_id) [
    | err e ↦ (s, err e)
    | ok current ↦
        if current.run.revision /= expected
        then (s, err conflict)
        else if not (is_due current.run.deadline_at due_now)
        then (s, ok (current, false))
        else expired_result (
            apply_control codec s ctx none run_id expected (plain_guard deadline_control)
              (expire_mutation current) none now check_now store_now)
  ]

-- `WithExecution`.
unfoldable pub with_execution : ExecutionLease → Result Error Binding
with_execution l = if valid_execution_lease l then ok (some l) else err invalid_input

-- `AcquireExecution`.
unfoldable pub acquire_execution :
    Store
    → Context
    → ExecutionAcquireRequest
    → ℕ
    → Option String
    → Store × Result Error ExecutionLease
acquire_execution s ctx r now id =
    if is_blank r.run_id || is_blank r.owner_id || not (valid_execution_duration r.lease_duration)
    then (s, err invalid_input)
    else Execution.acquire_execution s ctx r now id

-- `RenewExecution`.
unfoldable pub renew_execution :
    Store → Context → ExecutionRenewRequest → ℕ → Store × Result Error ExecutionLease
renew_execution s ctx r now =
    if not (valid_execution_lease r.lease) || not (valid_execution_duration r.lease_duration)
    then (s, err invalid_input)
    else Execution.renew_execution s ctx r now

-- `ReleaseExecution`.
unfoldable pub release_execution :
    Store → Context → ExecutionLease → ℕ → Store × Result Error (Unit {0})
release_execution s ctx l now =
    if not (valid_execution_lease l)
    then (s, err invalid_input)
    else Execution.release_execution s ctx l now

-- `RequireExecution`, before a Model or a Tool is dispatched.
unfoldable pub require_execution : Store → Context → Binding → String → ℕ → Result Error (Unit {0})
require_execution s ctx bound run_id now =
    if is_blank run_id then err invalid_input else elim (context_error ctx) [
      | some e ↦ err e
      | none ↦
          if not (valid_bound_run bound run_id)
          then err execution_conflict
          else Execution.check_execution s ctx run_id bound now
    ]

-- `QuarantineExecution` and `RepairExecutionQuarantine`: never from a bound Runtime.
unfoldable pub quarantine_execution :
    Store → Context → Binding → Quarantine → Store × Result Error (Unit {0})
quarantine_execution s ctx bound q =
    if not (valid_quarantine q) || is_some bound
    then (s, err invalid_input)
    else Execution.quarantine_execution s ctx q

unfoldable pub repair_quarantine :
    Store → Context → Binding → Quarantine → Store × Result Error (Unit {0})
repair_quarantine s ctx bound q =
    if not (valid_quarantine q) || is_some bound
    then (s, err invalid_input)
    else Execution.repair_quarantine s ctx q
