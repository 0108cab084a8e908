-- ===== src/Memory/Atomic.antt =====
-- go/agent-runtime/memory: what a write leaves behind, in full or not at all.
use gaoge_agent_runtime.Prelude.{ℕ, ◌≡◌, true, false, String, some, List, arith, is_ok, ◌↔◌}
use gaoge_agent_runtime.Kernel.{Run, Snapshot, EventDraft, StoreMutation, Codec}
use gaoge_agent_runtime.Memory.{Store, append_committed_transition, create, apply_locked, apply}
use gaoge_agent_runtime.Memory.Execution.{
  acquire_execution, renew_execution, release_execution, apply_execution, quarantine_execution,
  repair_quarantine,
}
use gaoge_agent_runtime.Memory.Control.{apply_control, control_refusal}
use gaoge_agent_runtime.Memory.Outbox.{claim_transitions, ack_transition, retry_transition}
use gaoge_agent_runtime.Memory.Steps.{
  Call, creates, applies, acquires, renews, releases, executes, quarantines, repairs, controls,
  claims, acks, retries, call,
}

-- The frame of `appendCommittedTransition`: it writes the outbox alone.
module _ (s : Store) (run : Run) (es : List EventDraft) where
  pub append_transition-records : (append_committed_transition s run es).records ≡ s.records
  unfolding append_committed_transition
  append_transition-records = ground arith

  pub append_transition-journals : (append_committed_transition s run es).journals ≡ s.journals
  unfolding append_committed_transition
  append_transition-journals = ground arith

  pub append_transition-execution : (append_committed_transition s run es).execution ≡ s.execution
  unfolding append_committed_transition
  append_transition-execution = ground arith

pub apply_locked-execution :
    (s : Store) (id : String) (e : ℕ) (m : StoreMutation)
    → (apply_locked s id e m).0.execution ≡ s.execution
unfolding apply_locked append_committed_transition
apply_locked-execution s id e m = ground arith

-- `applyLocked` succeeds exactly when the record is there at the expected revision.
pub apply_locked-ok_iff :
    (s : Store) (id : String) (e : ℕ) (m : StoreMutation) (cur : Snapshot)
    → s.records id ≡ some cur
    → (is_ok (apply_locked s id e m).1 ≡ true) ↔ (cur.run.revision ≡ e)
unfolding apply_locked
apply_locked-ok_iff s id e m cur h = ground arith

module _ (codec : Codec) where
  -- A call of the Store that fails, of any operation, leaves the whole store as it was.
  pub call_failed_unchanged :
      (s : Store) (c : Call) → (call codec s c).1 ≡ false → (call codec s c).0 ≡ s
  unfolding call create apply apply_locked apply_control control_refusal acquire_execution
      renew_execution release_execution apply_execution quarantine_execution repair_quarantine
      claim_transitions ack_transition retry_transition
  call_failed_unchanged s (creates r es) h = ground arith
  call_failed_unchanged s (applies id e m) h = ground arith
  call_failed_unchanged s (acquires c r now id) h = ground arith
  call_failed_unchanged s (renews c r now) h = ground arith
  call_failed_unchanged s (releases c l now) h = ground arith
  call_failed_unchanged s (executes c l e m now) h = ground arith
  call_failed_unchanged s (quarantines c q) h = ground arith
  call_failed_unchanged s (repairs c q) h = ground arith
  call_failed_unchanged s (controls c id e g m now) h = ground arith
  call_failed_unchanged s (claims r) h = ground arith
  call_failed_unchanged s (acks r) h = ground arith
  call_failed_unchanged s (retries r at) h = ground arith
