-- ===== src/Memory/Takeover.antt =====
-- go/agent-runtime/memory/execution.go, control.go and quarantine.go: what taking over a Run means
-- for the leases issued before.
use gaoge_agent_runtime.Prelude.{
  ℕ, ◌+◌, ◌≤◌, ◌<◌, ◌≡◌, true, false, String, Option, some, List, arith, ok, is_ok, ℕ_discrete,
}
use gaoge_agent_runtime.Kernel.{
  Snapshot, StoreMutation, Codec, Context, ExecutionLease, ExecutionAcquireRequest,
  ExecutionRenewRequest, Quarantine, ControlGuard,
}
use gaoge_agent_runtime.Memory.{Store, authority}
use gaoge_agent_runtime.Memory.Execution.{
  acquire_refusal, acquire_execution, renew_execution, release_execution, apply_execution,
  apply_execution_refusal, check_execution, active_memory_lease, valid_memory_lease,
  quarantine_execution,
}
use gaoge_agent_runtime.Memory.Control.{revoke, apply_control, control_refusal}
use gaoge_agent_runtime.Memory.Atomic.{apply_locked-execution}
use gaoge_agent_runtime.Memory.Fencing.{IsFenced, HasNoOrphans}
use gaoge_agent_runtime.Memory.Histories.{
  run_calls-superseded, run_calls-IsFenced, not_active_of_superseded,
}
use gaoge_agent_runtime.Memory.Steps.{Call, run_calls}

-- A lease that its Store refuses at `now`, for renewal, release, a write and a check before dispatch.
pub record IsDead (s : Store) (l : ExecutionLease) (now : ℕ) : Type 0 where
  pub no_renew :
      (c : Context) (r : ExecutionRenewRequest)
      → r.lease ≡ l
      → is_ok (renew_execution s c r now).1 ≡ false
  pub no_release : (c : Context) → is_ok (release_execution s c l now).1 ≡ false
  pub no_write :
      (c : Context) (e : ℕ) (m : StoreMutation) → is_ok (apply_execution s c l e m now).1 ≡ false
  pub no_dispatch : (c : Context) → is_ok (check_execution s c l.run_id (some l) now) ≡ false

IsDead-of_inactive :
    (s : Store) (l : ExecutionLease) (now : ℕ)
    → active_memory_lease (authority s l.run_id) l now ≡ false
    → IsDead s l now
unfolding renew_execution release_execution apply_execution apply_execution_refusal check_execution
IsDead-of_inactive s l now h = record {
  no_renew = λ c r e. ground arith;
  no_release = λ c. ground arith;
  no_write = λ c e m. ground arith;
  no_dispatch = λ c. ground arith;
}

IsDead-of_zero : (s : Store) (l : ExecutionLease) (now : ℕ) → l.epoch ≡ 0 → IsDead s l now
unfolding renew_execution release_execution apply_execution check_execution valid_memory_lease
IsDead-of_zero s l now h = record {
  no_renew = λ c r e. ground arith;
  no_release = λ c. ground arith;
  no_write = λ c e m. ground arith;
  no_dispatch = λ c. ground arith;
}

module _ (codec : Codec) where
  -- In a store whose execution states are sound and where no missing Run has an epoch, let a lease
  -- be of an epoch that its Run has passed. After any history of calls the store refuses it, at
  -- every reading of the clock: no renewal, no release, no write and no dispatch.
  pub superseded_lease-IsDead :
      (s : Store) (cs : List Call) (l : ExecutionLease) (now : ℕ)
      → IsFenced s
      → HasNoOrphans s
      → l.epoch < (authority s l.run_id).epoch
      → IsDead (run_calls codec s cs) l now
  superseded_lease-IsDead s cs l now f o h = elim (ℕ_discrete l.epoch 0) [
    | yes z ↦ IsDead-of_zero (run_calls codec s cs) l now z
    | no p ↦ IsDead-of_inactive (run_calls codec s cs) l now (
        not_active_of_superseded _ l now (run_calls-IsFenced codec s cs f o l.run_id) p
          (run_calls-superseded codec s cs l f o h))
  ]

-- A successful acquisition issues the lease of the next epoch: it is active from `now` until its
-- expiry, and every epoch before it has been passed.
pub record TakesOver (s t : Store) (l : ExecutionLease) (now : ℕ) : Type 0 where
  pub next_epoch : l.epoch ≡ (authority s l.run_id).epoch + 1
  pub installed : (authority t l.run_id).epoch ≡ l.epoch
  pub active : (at : ℕ) → at < l.expires_at → active_memory_lease (authority t l.run_id) l at ≡ true
  pub was_free : (authority s l.run_id).lease.expires_at ≤ now

-- In a store whose execution states are sound, an acquisition that succeeds issues the lease of the
-- next epoch, which becomes the Run's epoch; the lease is active at every reading of the clock
-- before it expires, and the lease before it had run out.
pub acquire-TakesOver :
    (s : Store) (c : Context) (r : ExecutionAcquireRequest) (now : ℕ) (id : Option String)
    (l : ExecutionLease)
    → IsFenced s
    → (acquire_execution s c r now id).1 ≡ ok l
    → TakesOver s (acquire_execution s c r now id).0 l now
unfolding acquire_execution acquire_refusal active_memory_lease
acquire-TakesOver s c r now id l f h = record {
  next_epoch = ground (arith, f r.run_id);
  installed = ground (arith, f r.run_id);
  active = λ at b. ground (arith, f r.run_id);
  was_free = ground (arith, f r.run_id);
}

-- While the Run has an unexpired lease, nobody acquires it.
pub acquire_excluded :
    (s : Store) (c : Context) (r : ExecutionAcquireRequest) (now : ℕ) (id : Option String)
    → now < (authority s r.run_id).lease.expires_at
    → is_ok (acquire_execution s c r now id).1 ≡ false
unfolding acquire_execution acquire_refusal
acquire_excluded s c r now id h = ground arith

-- In a store whose execution states are sound, a control that succeeds and reports a revocation has
-- raised the epoch of the Run.
pub control_revokes :
    (codec : Codec) (s : Store) (c : Context) (k : String) (e : ℕ) (g : ControlGuard)
    (m : StoreMutation) (now : ℕ) (snap : Snapshot)
    → IsFenced s
    → (apply_control codec s c k e g m now).1 ≡ ok (snap, true)
    → (authority s k).epoch < (authority (apply_control codec s c k e g m now).0 k).epoch
unfolding apply_control control_refusal revoke
control_revokes codec s c k e g m now snap f h =
    ground (arith, f k, apply_locked-execution (revoke s k) k e m)

-- In a store whose execution states are sound, a quarantine that succeeds on a Run that has none
-- raises the epoch of the Run.
pub quarantine_revokes :
    (s : Store) (c : Context) (q : Quarantine)
    → IsFenced s
    → (authority s q.run_id).quarantine_rev ≡ 0
    → is_ok (quarantine_execution s c q).1 ≡ true
    → (authority s q.run_id).epoch < (authority (quarantine_execution s c q).0 q.run_id).epoch
unfolding quarantine_execution
quarantine_revokes s c q f z h = ground (arith, f q.run_id)
