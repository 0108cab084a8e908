-- ===== src/Memory/Quarantined.antt =====
-- go/agent-runtime/memory/quarantine.go: what a quarantined Run still allows.
use gaoge_agent_runtime.Prelude.{ℕ, ◌≡◌, ◌≢◌, false, String, some, arith}
use gaoge_agent_runtime.Kernel.{Snapshot, StoreMutation, Codec, Context, Quarantine, ControlGuard}
use gaoge_agent_runtime.Kernel.Validation.{is_running}
use gaoge_agent_runtime.Memory.{
  Store, ExecutionState, authority, append_committed_transition, create, apply_locked, apply,
}
use gaoge_agent_runtime.Memory.Execution.{
  acquire_refusal, acquire_execution, renew_execution, release_execution, apply_execution,
  active_memory_lease, apply_execution_refusal, quarantine_execution, repair_quarantine,
  valid_memory_lease,
}
use gaoge_agent_runtime.Memory.Control.{revoke, apply_control, control_refusal}
use gaoge_agent_runtime.Memory.Outbox.{claim_transitions, ack_transition, retry_transition}
use gaoge_agent_runtime.Memory.Fencing.{IsFenced}
use gaoge_agent_runtime.Memory.Steps.{
  Call, creates, applies, acquires, renews, releases, executes, quarantines, repairs, controls,
  claims, acks, retries, call, step,
}

-- Which calls may end or outlive the quarantine of the Run `id`: the repair that names the stored
-- block, and a control that does not resume the Run.
abbrev pub MayLift : ExecutionState → String → Call → Type 0
MayLift a id (repairs c q) =
    (q.run_id ≡ id)
    × (q.revision ≡ a.quarantine_rev)
    × (q.generation ≡ a.quarantine_gen)
    × (q.reason ≡ a.quarantine_code)
MayLift a id (controls c k e g m now) = (k ≡ id) × (is_running m.replacement.run.status ≡ false)
MayLift a id _ = ⊥

-- The block, and the record under it, are as before.
pub record IsFrozen (id : String) (s t : Store) : Type 0 where
  pub same_record : t.records id ≡ s.records id
  pub same_authority : authority t id ≡ authority s id

module _ (codec : Codec) where
  IsFrozen-control :
      (s : Store) (c : Context) (k : String) (e : ℕ) (g : ControlGuard) (m : StoreMutation)
      (now : ℕ) (id : String)
      → (authority s id).quarantine_rev ≢ 0
      → (k ≡ id → is_running m.replacement.run.status ≢ false)
      → IsFrozen id s (apply_control codec s c k e g m now).0
  unfolding apply_control control_refusal revoke apply_locked append_committed_transition
  IsFrozen-control s c k e g m now id b n = ground arith

  IsFrozen-repair :
      (s : Store) (c : Context) (q : Quarantine) (id : String)
      → (q.run_id ≡ id
          → q.revision ≡ (authority s id).quarantine_rev
          → q.generation ≡ (authority s id).quarantine_gen
          → q.reason ≢ (authority s id).quarantine_code)
      → IsFrozen id s (repair_quarantine s c q).0
  unfolding repair_quarantine
  IsFrozen-repair s c q id n = ground arith

  -- In a store whose execution states are sound, while an existing Run is quarantined, a call that
  -- is neither the repair that names the stored block nor a control of the Run to a status other
  -- than running leaves the record and the execution state of the Run as they were.
  pub quarantine_holds :
      (s : Store) (c : Call) (id : String) (snap : Snapshot)
      → IsFenced s
      → s.records id ≡ some snap
      → (authority s id).quarantine_rev ≢ 0
      → ¬ MayLift (authority s id) id c
      → IsFrozen id s (step codec s c)
  unfolding call create apply apply_locked append_committed_transition acquire_execution
      acquire_refusal renew_execution release_execution active_memory_lease valid_memory_lease
      apply_execution apply_execution_refusal quarantine_execution repair_quarantine
      claim_transitions ack_transition retry_transition
  quarantine_holds s (creates r es) id snap f p b n = ground (arith, f id)
  quarantine_holds s (applies k e m) id snap f p b n = ground (arith, f id)
  quarantine_holds s (acquires c r now k) id snap f p b n = ground (arith, f id)
  quarantine_holds s (renews c r now) id snap f p b n = ground (arith, f id)
  quarantine_holds s (releases c l now) id snap f p b n = ground (arith, f id)
  quarantine_holds s (executes c l e m now) id snap f p b n = ground (arith, f id)
  quarantine_holds s (quarantines c q) id snap f p b n = ground (arith, f id)
  quarantine_holds s (repairs c q) id snap f p b n =
      IsFrozen-repair s c q id (λ a d g r. n (a, d, g, r))
  quarantine_holds s (controls c k e g m now) id snap f p b n =
      IsFrozen-control s c k e g m now id b (λ a r. n (a, r))
  quarantine_holds s (claims r) id snap f p b n = ground (arith, f id)
  quarantine_holds s (acks r) id snap f p b n = ground (arith, f id)
  quarantine_holds s (retries r at) id snap f p b n = ground (arith, f id)
