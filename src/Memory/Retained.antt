-- ===== src/Memory/Retained.antt =====
-- go/agent-runtime/memory/store.go: the outbox gets every transition that needs projection, and only
-- an acknowledgement takes one away.
use gaoge_agent_runtime.Prelude.{
  ℕ, ◌≡◌, ◌≢◌, refl, Bool, true, false, String, List, [], ◌∷◌, ◌++◌, Map, delete, text_eq, is_some,
  arith, ok, err, Result, ◌||◌,
}
use gaoge_agent_runtime.Kernel.{
  Error, Run, RunRecord, EventDraft, StoreMutation, Codec, Context, ControlGuard,
  TransitionClaimRequest, TransitionLeaseRequest, TransitionClaim,
}
use gaoge_agent_runtime.Kernel.Validation.{needs_transition_projection}
use gaoge_agent_runtime.Memory.{
  Store, TransitionState, append_committed_transition, create, apply_locked, apply,
  committed_transition_id,
}
use gaoge_agent_runtime.Memory.Execution.{
  acquire_execution, renew_execution, release_execution, apply_execution, quarantine_execution,
  repair_quarantine, with_authority,
}
use gaoge_agent_runtime.Memory.Control.{revoke, apply_control, apply_control_cases, revoke_cases}
use gaoge_agent_runtime.Memory.Outbox.{
  claim_transitions, compact_order, ack_transition, retry_transition,
}
use gaoge_agent_runtime.Memory.Delivery.{claim_transitions_lem}
use gaoge_agent_runtime.Memory.Steps.{
  Call, creates, applies, acquires, renews, releases, executes, quarantines, repairs, controls,
  claims, acks, retries, call, step,
}

-- The identifier stands in the delivery order.
abbrev pub listed : String → List String → Bool
listed id [] = false
listed id (k ∷ ids) = text_eq id k || listed id ids

listed-snoc :
    (id k : String) (ids : List String)
    → listed id (ids ++ k ∷ []) ≡ (listed id ids || text_eq id k)
listed-snoc id k [] = ground arith
listed-snoc id k (j ∷ ids) = ground (arith, listed-snoc id k ids)

listed-compact_order :
    (ts : Map TransitionState) (id : String) (ids : List String)
    → is_some (ts id) ≡ true
    → listed id ids ≡ true
    → listed id (compact_order ts ids) ≡ true
unfolding compact_order
listed-compact_order ts id [] p h = h
listed-compact_order ts id (k ∷ ids) p h = ground (arith, listed-compact_order ts id ids p)

-- An entry of the outbox, which the delivery order reaches.
pub record IsQueued (s : Store) (id : String) : Type 0 where
  pub stored : is_some (s.transitions id) ≡ true
  pub reached : listed id s.transition_order ≡ true

append-IsQueued :
    (s : Store) (run : Run) (es : List EventDraft) (id : String)
    → IsQueued s id
    → IsQueued (append_committed_transition s run es) id
unfolding append_committed_transition
append-IsQueued s run es id q =
    ground
      (arith, q, listed-snoc id (committed_transition_id run.id run.revision) s.transition_order)

-- A commit whose status or events need projection puts its transition into the outbox, where the
-- delivery order reaches it.
pub append-IsQueued_new :
    (s : Store) (run : Run) (es : List EventDraft)
    → needs_transition_projection run.status es ≡ true
    → IsQueued (append_committed_transition s run es) (committed_transition_id run.id run.revision)
unfolding append_committed_transition
append-IsQueued_new s run es h = ground (
  arith,
  listed-snoc (committed_transition_id run.id run.revision)
      (committed_transition_id run.id run.revision) s.transition_order,
)

apply_locked-IsQueued :
    (s : Store) (k : String) (e : ℕ) (m : StoreMutation) (id : String)
    → IsQueued s id
    → IsQueued (apply_locked s k e m).0 id
unfolding apply_locked append_committed_transition
apply_locked-IsQueued s k e m id q = ground (
  arith,
  q,
  listed-snoc id (committed_transition_id m.replacement.run.id m.replacement.run.revision)
      s.transition_order,
)

create-IsQueued :
    (s : Store) (r : RunRecord) (es : List EventDraft) (id : String)
    → IsQueued s id
    → IsQueued (create s r es).0 id
unfolding create append_committed_transition
create-IsQueued s r es id q =
    ground (
      arith,
      q,
      listed-snoc id (committed_transition_id r.run.id r.run.revision) s.transition_order,
    )

keep-IsQueued :
    (s t : Store) (id : String)
    → t.transitions ≡ s.transitions
    → t.transition_order ≡ s.transition_order
    → IsQueued s id
    → IsQueued t id
keep-IsQueued s t id a b q = record { stored = rw a q.stored; reached = rw b q.reached }

control-IsQueued :
    (codec : Codec) (s : Store) (c : Context) (k : String) (e : ℕ) (g : ControlGuard)
    (m : StoreMutation) (now : ℕ) (id : String)
    → IsQueued s id
    → IsQueued (apply_control codec s c k e g m now).0 id
control-IsQueued codec s c k e g m now id q =
    apply_control_cases codec (λ t. IsQueued t id) s c k e g m now q
      (apply_locked-IsQueued (revoke s k) k e m id (
        revoke_cases (λ t. IsQueued t id) s k q
          λ a. keep-IsQueued s (with_authority s k a) id refl refl q))

claim-IsQueued :
    (s : Store) (r : TransitionClaimRequest) (id : String)
    → IsQueued s id
    → IsQueued (claim_transitions s r).0 id
unfolding claim_transitions
claim-IsQueued s r id q = record {
  stored = after (claim_transitions s r).1 refl;
  reached = ground (arith, q);
}
  where
    after :
        (x : Result Error (List TransitionClaim))
        → (claim_transitions s r).1 ≡ x
        → is_some ((claim_transitions s r).0.transitions id) ≡ true
    after (ok cs) e = ground (arith, q, claim_transitions_lem s r cs id e)
    after (err x) e = ground (arith, q)

module _ (codec : Codec) where
  -- A transition that is in the outbox and in the delivery order is in both after any call but an
  -- acknowledgement of that very transition.
  pub call-IsQueued :
      (s : Store) (c : Call) (id : String)
      → ((r : TransitionLeaseRequest) → c ≡ acks r → r.transition_id ≢ id)
      → IsQueued s id
      → IsQueued (step codec s c) id
  unfolding call apply acquire_execution renew_execution release_execution apply_execution
      quarantine_execution repair_quarantine ack_transition retry_transition
  call-IsQueued s (creates r es) id n q = create-IsQueued s r es id q
  call-IsQueued s (applies k e m) id n q = ground (arith, q, apply_locked-IsQueued s k e m id q)
  call-IsQueued s (acquires c r now k) id n q = keep-IsQueued s _ id (ground arith) (ground arith) q
  call-IsQueued s (renews c r now) id n q = keep-IsQueued s _ id (ground arith) (ground arith) q
  call-IsQueued s (releases c l now) id n q = keep-IsQueued s _ id (ground arith) (ground arith) q
  call-IsQueued s (executes c l e m now) id n q =
      ground (arith, q, apply_locked-IsQueued s l.run_id e m id q)
  call-IsQueued s (quarantines c k) id n q = keep-IsQueued s _ id (ground arith) (ground arith) q
  call-IsQueued s (repairs c k) id n q = keep-IsQueued s _ id (ground arith) (ground arith) q
  call-IsQueued s (controls c k e g m now) id n q = control-IsQueued codec s c k e g m now id q
  call-IsQueued s (claims r) id n q = claim-IsQueued s r id q
  call-IsQueued s (acks r) id n q = ground (
    arith,
    q,
    n r refl,
    listed-compact_order (delete s.transitions r.transition_id) id s.transition_order,
  )
  call-IsQueued s (retries r at) id n q = ground (arith, q)
