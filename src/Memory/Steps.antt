-- ===== src/Memory/Steps.antt =====
-- The operations of go/agent-runtime/memory/store.go, execution.go, quarantine.go and control.go as
-- the steps of one Store, in any order and by any callers.
use gaoge_agent_runtime.Prelude.{ℕ, String, Option, List, [], ◌∷◌, Bool, Result, is_ok}
use gaoge_agent_runtime.Kernel.{
  Context, EventDraft, RunRecord, StoreMutation, ExecutionLease, ExecutionAcquireRequest,
  ExecutionRenewRequest, Quarantine, ControlGuard, Codec, TransitionClaimRequest,
  TransitionLeaseRequest,
}
use gaoge_agent_runtime.Memory.{Store, create, apply}
use gaoge_agent_runtime.Memory.Execution.{
  acquire_execution, renew_execution, release_execution, apply_execution, quarantine_execution,
  repair_quarantine,
}
use gaoge_agent_runtime.Memory.Control.{apply_control}
use gaoge_agent_runtime.Memory.Outbox.{claim_transitions, ack_transition, retry_transition}

-- One call with its arguments, the clock and the entropy that it reads among them.
pub data Call : Type 0 where
  creates : RunRecord → List EventDraft → Call
  applies : String → ℕ → StoreMutation → Call
  acquires : Context → ExecutionAcquireRequest → ℕ → Option String → Call
  renews : Context → ExecutionRenewRequest → ℕ → Call
  releases : Context → ExecutionLease → ℕ → Call
  executes : Context → ExecutionLease → ℕ → StoreMutation → ℕ → Call
  quarantines : Context → Quarantine → Call
  repairs : Context → Quarantine → Call
  controls : Context → String → ℕ → ControlGuard → StoreMutation → ℕ → Call
  claims : TransitionClaimRequest → Call
  acks : TransitionLeaseRequest → Call
  retries : TransitionLeaseRequest → ℕ → Call

abbrev pub outcome : {A : Type 0} {E : Type 0} → Store × Result E A → Store × Bool
outcome p = (p.0, is_ok p.1)

module _ (codec : Codec) where
  -- The store after a call, and whether the call succeeded.
  unfoldable pub call : Store → Call → Store × Bool
  call s (creates r es) = outcome (create s r es)
  call s (applies id e m) = outcome (apply s id e m)
  call s (acquires c r now id) = outcome (acquire_execution s c r now id)
  call s (renews c r now) = outcome (renew_execution s c r now)
  call s (releases c l now) = outcome (release_execution s c l now)
  call s (executes c l e m now) = outcome (apply_execution s c l e m now)
  call s (quarantines c q) = outcome (quarantine_execution s c q)
  call s (repairs c q) = outcome (repair_quarantine s c q)
  call s (controls c id e g m now) = outcome (apply_control codec s c id e g m now)
  call s (claims r) = outcome (claim_transitions s r)
  call s (acks r) = outcome (ack_transition s r)
  call s (retries r at) = outcome (retry_transition s r at)

  abbrev pub step : Store → Call → Store
  step s c = (call s c).0

  -- A history of calls.
  unfoldable pub run_calls : Store → List Call → Store
  run_calls s [] = s
  run_calls s (c ∷ cs) = run_calls (step s c) cs
