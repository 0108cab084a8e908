-- ===== src/Memory/Histories.antt =====
-- go/agent-runtime/memory: execution state over whole histories of calls.
use gaoge_agent_runtime.Prelude.{ℕ, ◌<◌, ◌≡◌, ◌≢◌, refl, false, String, none, List, [], ◌∷◌, arith}
use gaoge_agent_runtime.Kernel.{
  EventDraft, StoreMutation, RunRecord, ControlGuard, Codec, Context, ExecutionLease,
}
use gaoge_agent_runtime.Memory.{
  Store, ExecutionState, authority, append_committed_transition, create, apply_locked, apply,
  new_store,
}
use gaoge_agent_runtime.Memory.Execution.{
  acquire_execution, renew_execution, release_execution, apply_execution, active_memory_lease,
  quarantine_execution, repair_quarantine,
}
use gaoge_agent_runtime.Memory.Control.{revoke, apply_control}
use gaoge_agent_runtime.Memory.Outbox.{claim_transitions, ack_transition, retry_transition}
use gaoge_agent_runtime.Memory.Atomic.{apply_locked-execution}
use gaoge_agent_runtime.Memory.Steps.{
  Call, creates, applies, acquires, renews, releases, executes, quarantines, repairs, controls,
  claims, acks, retries, call, step, run_calls,
}
use gaoge_agent_runtime.Memory.Fencing.{IsSound, Advances, IsFenced, HasNoOrphans, call-Advances}

module _ (codec : Codec) where
  pub create-HasNoOrphans :
      (s : Store) (r : RunRecord) (es : List EventDraft) (id : String)
      → (s.records id ≡ none → (authority s id).epoch ≡ 0)
      → (create s r es).0.records id ≡ none
      → (authority (create s r es).0 id).epoch ≡ 0
  unfolding create append_committed_transition
  create-HasNoOrphans s r es id o h = ground arith

  -- `applyLocked` neither adds nor removes a record.
  pub apply_locked-none :
      (s : Store) (k : String) (e : ℕ) (m : StoreMutation) (id : String)
      → (apply_locked s k e m).0.records id ≡ none
      → s.records id ≡ none
  unfolding apply_locked append_committed_transition
  apply_locked-none s k e m id h = ground arith

  control-HasNoOrphans :
      (s : Store) (c : Context) (k : String) (e : ℕ) (g : ControlGuard) (m : StoreMutation)
      (now : ℕ) (id : String)
      → (s.records id ≡ none → (authority s id).epoch ≡ 0)
      → (apply_control codec s c k e g m now).0.records id ≡ none
      → (authority (apply_control codec s c k e g m now).0 id).epoch ≡ 0
  unfolding apply_control revoke
  control-HasNoOrphans s c k e g m now id o h =
      ground
        (arith, apply_locked-execution (revoke s k) k e m, apply_locked-none (revoke s k) k e m id)

  pub call-HasNoOrphans : (s : Store) (c : Call) → HasNoOrphans s → HasNoOrphans (step codec s c)
  unfolding call apply acquire_execution renew_execution release_execution apply_execution
      active_memory_lease quarantine_execution repair_quarantine claim_transitions ack_transition
      retry_transition
  call-HasNoOrphans s (creates r es) o id h = create-HasNoOrphans s r es id (o id) h
  call-HasNoOrphans s (applies k e m) o id h =
      ground (arith, o id, apply_locked-execution s k e m, apply_locked-none s k e m id)
  call-HasNoOrphans s (acquires c r now k) o id h = ground (arith, o id)
  call-HasNoOrphans s (renews c r now) o id h = ground (arith, o id)
  call-HasNoOrphans s (releases c l now) o id h = ground (arith, o id)
  call-HasNoOrphans s (executes c l e m now) o id h =
      ground
        (arith, o id, apply_locked-execution s l.run_id e m, apply_locked-none s l.run_id e m id)
  call-HasNoOrphans s (quarantines c q) o id h = ground (arith, o id)
  call-HasNoOrphans s (repairs c q) o id h = ground (arith, o id)
  call-HasNoOrphans s (controls c k e g m now) o id h =
      control-HasNoOrphans s c k e g m now id (o id) h
  call-HasNoOrphans s (claims r) o id h = ground (arith, o id)
  call-HasNoOrphans s (acks r) o id h = ground (arith, o id)
  call-HasNoOrphans s (retries r at) o id h = ground (arith, o id)

  -- In a store whose execution states are sound and where no missing Run has an epoch, over any
  -- history of calls the epoch of a Run never falls and its execution state stays sound.
  pub run_calls-Advances :
      (s : Store) (cs : List Call) (id : String)
      → IsFenced s
      → HasNoOrphans s
      → Advances (authority s id) (authority (run_calls codec s cs) id)
  unfolding run_calls
  run_calls-Advances s [] id f o = record { grows = omega arith; sound = f id }
  run_calls-Advances s (c ∷ cs) id f o =
      let now = λ (k : String). call-Advances codec s c k f o in
      let later =
        run_calls-Advances (step codec s c) cs id (λ k. (now k).sound) (call-HasNoOrphans s c o) in
      record { grows = omega (arith, (now id).grows, later.grows); sound = later.sound }

  -- A superseded lease stays superseded, whatever anybody calls.
  pub run_calls-superseded :
      (s : Store) (cs : List Call) (l : ExecutionLease)
      → IsFenced s
      → HasNoOrphans s
      → l.epoch < (authority s l.run_id).epoch
      → l.epoch < (authority (run_calls codec s cs) l.run_id).epoch
  run_calls-superseded s cs l f o h = omega (arith, (run_calls-Advances s cs l.run_id f o).grows)

  pub run_calls-HasNoOrphans :
      (s : Store) (cs : List Call) → HasNoOrphans s → HasNoOrphans (run_calls codec s cs)
  unfolding run_calls
  run_calls-HasNoOrphans s [] o = o
  run_calls-HasNoOrphans s (c ∷ cs) o =
      run_calls-HasNoOrphans (step codec s c) cs (call-HasNoOrphans s c o)

  pub run_calls-IsFenced :
      (s : Store) (cs : List Call) → IsFenced s → HasNoOrphans s → IsFenced (run_calls codec s cs)
  run_calls-IsFenced s cs f o id = (run_calls-Advances s cs id f o).sound

pub new_store-IsFenced : IsFenced new_store
unfolding new_store
new_store-IsFenced id = omega arith

pub new_store-HasNoOrphans : HasNoOrphans new_store
unfolding new_store
new_store-HasNoOrphans id h = refl

-- A lease of an earlier epoch is not active.
pub not_active_of_superseded :
    (a : ExecutionState) (l : ExecutionLease) (now : ℕ)
    → IsSound a
    → l.epoch ≢ 0
    → l.epoch < a.epoch
    → active_memory_lease a l now ≡ false
unfolding active_memory_lease
not_active_of_superseded a l now v z h = ground arith
