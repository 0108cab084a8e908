-- ===== src/Memory/Fencing.antt =====
-- go/agent-runtime/memory/execution.go: epochs only grow, and a superseded lease stays dead.
use gaoge_agent_runtime.Prelude.{ℕ, ◌≤◌, ◌≡◌, ◌≢◌, ◌⊎◌, String, none, List, arith}
use gaoge_agent_runtime.Kernel.{EventDraft, StoreMutation, RunRecord, ControlGuard, Codec, Context}
use gaoge_agent_runtime.Memory.{
  Store, ExecutionState, authority, append_committed_transition, create, apply,
}
use gaoge_agent_runtime.Memory.Execution.{
  max_u64, acquire_refusal, acquire_execution, renew_execution, release_execution, apply_execution,
  quarantine_execution, repair_quarantine,
}
use gaoge_agent_runtime.Memory.Control.{revoke, apply_control, control_refusal}
use gaoge_agent_runtime.Memory.Outbox.{claim_transitions, ack_transition, retry_transition}
use gaoge_agent_runtime.Memory.Atomic.{apply_locked-execution}
use gaoge_agent_runtime.Memory.Steps.{
  Call, creates, applies, acquires, renews, releases, executes, quarantines, repairs, controls,
  claims, acks, retries, call, step,
}

-- The execution state of one Run: its epoch is a uint64, its lease is empty or of that epoch, and a
-- quarantined Run has no lease.
pub record IsSound (a : ExecutionState) : Type 0 where
  pub bounded : a.epoch ≤ max_u64
  pub current : (a.lease.epoch ≡ 0) ⊎ (a.lease.epoch ≡ a.epoch)
  pub idle : a.quarantine_rev ≢ 0 → a.lease.epoch ≡ 0
  pub claimed : a.quarantine_rev ≢ 0 → a.epoch ≢ 0

-- How one call changes the execution state of one Run.
pub record Advances (a b : ExecutionState) : Type 0 where
  pub grows : a.epoch ≤ b.epoch
  pub sound : IsSound b

abbrev pub IsFenced : Store → Type 0
IsFenced s = (id : String) → IsSound (authority s id)

-- A Run that does not exist has never been claimed.
abbrev pub HasNoOrphans : Store → Type 0
HasNoOrphans s = (id : String) → s.records id ≡ none → (authority s id).epoch ≡ 0

create-Advances :
    (s : Store) (r : RunRecord) (es : List EventDraft) (id : String)
    → IsSound (authority s id)
    → (s.records id ≡ none → (authority s id).epoch ≡ 0)
    → Advances (authority s id) (authority (create s r es).0 id)
unfolding create append_committed_transition
create-Advances s r es id f o = ground arith

control-Advances :
    (codec : Codec) (s : Store) (c : Context) (k : String) (e : ℕ) (g : ControlGuard)
    (m : StoreMutation) (now : ℕ) (id : String)
    → IsSound (authority s id)
    → Advances (authority s id) (authority (apply_control codec s c k e g m now).0 id)
unfolding apply_control control_refusal revoke
control-Advances codec s c k e g m now id f =
    ground (arith, apply_locked-execution (revoke s k) k e m)

module _ (codec : Codec) where
  pub call-Advances :
      (s : Store) (c : Call) (id : String)
      → IsFenced s
      → HasNoOrphans s
      → Advances (authority s id) (authority (step codec s c) id)
  unfolding call apply acquire_execution acquire_refusal renew_execution release_execution
      apply_execution quarantine_execution repair_quarantine claim_transitions ack_transition
      retry_transition
  call-Advances s (creates r es) id f o = create-Advances s r es id (f id) (o id)
  call-Advances s (applies k e m) id f o = ground (arith, f id, apply_locked-execution s k e m)
  call-Advances s (acquires c r now k) id f o = ground (arith, f id)
  call-Advances s (renews c r now) id f o = ground (arith, f id)
  call-Advances s (releases c l now) id f o = ground (arith, f id)
  call-Advances s (executes c l e m now) id f o =
      ground (arith, f id, apply_locked-execution s l.run_id e m)
  call-Advances s (quarantines c q) id f o = ground (arith, f id)
  call-Advances s (repairs c q) id f o = ground (arith, f id)
  call-Advances s (controls c k e g m now) id f o = control-Advances codec s c k e g m now id (f id)
  call-Advances s (claims r) id f o = ground (arith, f id)
  call-Advances s (acks r) id f o = ground (arith, f id)
  call-Advances s (retries r at) id f o = ground (arith, f id)
