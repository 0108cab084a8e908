-- ===== src/Tests/Stores.antt =====
-- The theorems on go/agent-runtime/memory, applied to sample stores.
use gaoge_agent_runtime.Prelude.{
  ◌≡◌, refl, arith, String, true, false, none, some, List, [], ◌∷◌, ok, is_ok, text_dec, trim_space,
  byte_length, format_uint,
}
use gaoge_agent_runtime.Kernel.{
  running, cancelled, cancel, live, Quarantine, Snapshot, StoreMutation,
}
use gaoge_agent_runtime.Memory
use gaoge_agent_runtime.Memory.Execution
use gaoge_agent_runtime.Memory.{Store, authority, new_store, journal}
use gaoge_agent_runtime.Memory.Control.{apply_control, control_refusal, revoke}
use gaoge_agent_runtime.Kernel.Validation.{
  needs_transition_projection, valid_transition, valid_state, terminal_status,
}
use gaoge_agent_runtime.Kernel.Guard.{validate_control, same_identity, check_kind, check_cancel}
use gaoge_agent_runtime.Runtime.Commands.{plain_guard}
use gaoge_agent_runtime.Memory.Steps.{Call, creates, acquires, quarantines, call, step, run_calls}
use gaoge_agent_runtime.Memory.Fencing.{IsFenced, HasNoOrphans, Advances}
use gaoge_agent_runtime.Memory.Histories.{
  run_calls-Advances, run_calls-IsFenced, run_calls-HasNoOrphans, new_store-IsFenced,
  new_store-HasNoOrphans,
}
use gaoge_agent_runtime.Memory.Takeover.{
  IsDead, TakesOver, superseded_lease-IsDead, acquire-TakesOver,
}
use gaoge_agent_runtime.Memory.Quarantined.{MayLift, IsFrozen, quarantine_holds}
use gaoge_agent_runtime.Tests.{
  codec, sample_run, sample_record, sample_snapshot, acquisition, first_segment, second_segment,
  segment_store, takeover_store, stale_lease,
}

segment-IsFenced : IsFenced segment_store
segment-IsFenced =
    run_calls-IsFenced codec new_store first_segment new_store-IsFenced new_store-HasNoOrphans

takeover_epoch : (authority takeover_store "run-1").epoch ≡ 3
unfolding run_calls call Memory.create Memory.append_committed_transition Memory.append_events
    Execution.acquire_execution text_dec new_store Execution.valid_memory_execution_request
    trim_space needs_transition_projection Execution.acquire_refusal
takeover_epoch = refl

segment-HasNoOrphans : HasNoOrphans segment_store
segment-HasNoOrphans = run_calls-HasNoOrphans codec new_store first_segment new_store-HasNoOrphans

takeover-IsFenced : IsFenced takeover_store
takeover-IsFenced =
    run_calls-IsFenced codec segment_store second_segment segment-IsFenced segment-HasNoOrphans

takeover-HasNoOrphans : HasNoOrphans takeover_store
takeover-HasNoOrphans =
    run_calls-HasNoOrphans codec segment_store second_segment segment-HasNoOrphans

superseded_lease-IsDead_example :
    IsDead (run_calls codec takeover_store first_segment) stale_lease 2000
superseded_lease-IsDead_example =
    superseded_lease-IsDead codec takeover_store first_segment stale_lease 2000 takeover-IsFenced
      takeover-HasNoOrphans (omega (arith, takeover_epoch))

run_calls-Advances_example :
    Advances
      (authority segment_store "run-1")
      (authority (run_calls codec segment_store second_segment) "run-1")
run_calls-Advances_example =
    run_calls-Advances codec segment_store second_segment "run-1" segment-IsFenced
      segment-HasNoOrphans

abbrev creation : List Call
creation = creates (sample_record true "run-1" running 1) [] ∷ []

abbrev fresh_store : Store
fresh_store = run_calls codec new_store creation

fresh-IsFenced : IsFenced fresh_store
fresh-IsFenced =
    run_calls-IsFenced codec new_store creation new_store-IsFenced new_store-HasNoOrphans

acquire_succeeds :
    (Execution.acquire_execution fresh_store live (acquisition "worker-a") 1000 (some "lease-a")).1
    ≡ ok stale_lease
unfolding run_calls call Memory.create Memory.append_committed_transition Memory.append_events
    Execution.acquire_execution text_dec new_store Execution.valid_memory_execution_request
    trim_space needs_transition_projection Execution.acquire_refusal
acquire_succeeds = refl

acquire-TakesOver_example :
    TakesOver fresh_store
      (Execution.acquire_execution fresh_store live
        (acquisition "worker-a")
        1000
        (some "lease-a")).0
      stale_lease
      1000
acquire-TakesOver_example =
    acquire-TakesOver fresh_store live (acquisition "worker-a") 1000 (some "lease-a") stale_lease
      fresh-IsFenced acquire_succeeds

abbrev block : String → Quarantine
block reason = record { run_id = "run-1"; revision = 1; generation = 7; reason = reason }

quarantine_succeeds :
    is_ok (Execution.quarantine_execution takeover_store live (block "unknown")).1 ≡ true
unfolding run_calls call Memory.create Memory.append_committed_transition Memory.append_events
    Execution.acquire_execution text_dec new_store Execution.valid_memory_execution_request
    trim_space needs_transition_projection Execution.acquire_refusal Execution.quarantine_execution
    Execution.valid_memory_quarantine byte_length
quarantine_succeeds = refl

not_blocked : (authority takeover_store "run-1").quarantine_rev ≡ 0
unfolding run_calls call Memory.create Memory.append_committed_transition Memory.append_events
    Execution.acquire_execution text_dec new_store Execution.valid_memory_execution_request
    trim_space needs_transition_projection Execution.acquire_refusal
not_blocked = refl

abbrev blocking : List Call
blocking = quarantines live (block "unknown") ∷ []

abbrev blocked_store : Store
blocked_store = run_calls codec takeover_store blocking

blocked-IsFenced : IsFenced blocked_store
blocked-IsFenced =
    run_calls-IsFenced codec takeover_store blocking takeover-IsFenced takeover-HasNoOrphans

blocked_record : blocked_store.records "run-1" ≡ some sample_snapshot
unfolding run_calls call Memory.create Memory.append_committed_transition Memory.append_events
    Execution.acquire_execution text_dec new_store Execution.valid_memory_execution_request
    trim_space needs_transition_projection Execution.acquire_refusal Execution.quarantine_execution
    Execution.valid_memory_quarantine byte_length
blocked_record = refl

is_blocked : (authority blocked_store "run-1").quarantine_rev ≡ 1
unfolding run_calls call Memory.create Memory.append_committed_transition Memory.append_events
    Execution.acquire_execution text_dec new_store Execution.valid_memory_execution_request
    trim_space needs_transition_projection Execution.acquire_refusal Execution.quarantine_execution
    Execution.valid_memory_quarantine byte_length
is_blocked = refl

abbrev third_acquisition : Call
third_acquisition = acquires live (acquisition "worker-c") 999000000000 (some "lease-c")

may_not_lift : ¬ MayLift (authority blocked_store "run-1") "run-1" third_acquisition
may_not_lift h = h

quarantine_holds_example :
    IsFrozen "run-1" blocked_store (step codec blocked_store third_acquisition)
quarantine_holds_example =
    quarantine_holds codec blocked_store third_acquisition "run-1" sample_snapshot blocked-IsFenced
      blocked_record (omega (arith, is_blocked)) may_not_lift

abbrev cancelling : StoreMutation
cancelling = record {
  replacement = record {
    execution_required = false;
    run = record (sample_run "run-1" cancelled 2) { error_code = "run.cancelled" };
    state = "{}";
    checkpoint = none;
    result = none;
  };
  events = [];
}

abbrev cancelled_snapshot : Snapshot
cancelled_snapshot = record {
  run = record (sample_run "run-1" cancelled 2) { error_code = "run.cancelled" };
  state = "{}";
  checkpoint = none;
  result = none;
  event_head = 0;
}

control_succeeds :
    (apply_control codec takeover_store live "run-1" 1 (plain_guard cancel) cancelling 2000).1
    ≡ ok (cancelled_snapshot, true)
unfolding run_calls call apply_control Memory.create text_dec Execution.acquire_execution
    Execution.valid_memory_execution_request trim_space new_store Memory.append_committed_transition
    needs_transition_projection Execution.acquire_refusal control_refusal validate_control
    same_identity valid_transition valid_state byte_length check_kind check_cancel
    Memory.apply_locked revoke terminal_status Memory.append_events format_uint
    Memory.committed_transition_id
control_succeeds = refl
