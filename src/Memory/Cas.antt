-- ===== src/Memory/Cas.antt =====
-- go/agent-runtime/memory/store.go: the revision check makes a read-validate-write safe against any
-- calls in between.
use gaoge_agent_runtime.Prelude.{
  ℕ, ◌+◌, ◌<◌, ◌≡◌, ◌⊎◌, inl, inr, String, some, List, [], ◌∷◌, arith, All,
}
use gaoge_agent_runtime.Kernel.{
  RunRecord, EventDraft, Snapshot, StoreMutation, Codec, Context, ControlGuard,
}
use gaoge_agent_runtime.Memory.{Store, append_committed_transition, create, apply_locked, apply}
use gaoge_agent_runtime.Memory.Execution.{
  acquire_execution, renew_execution, release_execution, apply_execution, quarantine_execution,
  repair_quarantine, with_authority,
}
use gaoge_agent_runtime.Memory.Control.{apply_control, apply_control_cases, revoke_cases}
use gaoge_agent_runtime.Memory.Outbox.{claim_transitions, ack_transition, retry_transition}
use gaoge_agent_runtime.Memory.Steps.{
  Call, creates, applies, acquires, renews, releases, executes, quarantines, repairs, controls,
  claims, acks, retries, call, step, run_calls,
}

-- A write proposes the revision after the one that it expects, as `makeStoreMutation` builds it; a
-- revision stays below 2 ^ 64.
abbrev pub IsAdvance : Call → Type 0
IsAdvance (applies k e m) = m.replacement.run.revision ≡ e + 1
IsAdvance (executes c l e m now) = m.replacement.run.revision ≡ e + 1
IsAdvance (controls c k e g m now) = m.replacement.run.revision ≡ e + 1
IsAdvance _ = Unit

-- A record of one Run stays as it is, or is replaced at a higher revision.
abbrev pub Evolves : Store → Store → String → Type 0
Evolves s t id =
    (snap : Snapshot)
    → s.records id ≡ some snap
    → (t.records id ≡ some snap)
      ⊎ ((new : Snapshot) × (t.records id ≡ some new) × (snap.run.revision < new.run.revision))

apply_locked-Evolves :
    (s : Store) (k : String) (e : ℕ) (m : StoreMutation) (id : String)
    → m.replacement.run.revision ≡ e + 1
    → Evolves s (apply_locked s k e m).0 id
unfolding apply_locked append_committed_transition
apply_locked-Evolves s k e m id a snap p = ground arith

create-Evolves :
    (s : Store) (r : RunRecord) (es : List EventDraft) (id : String)
    → Evolves s (create s r es).0 id
unfolding create append_committed_transition
create-Evolves s r es id snap p = inl (ground arith)

control-Evolves :
    (codec : Codec) (s : Store) (c : Context) (k : String) (e : ℕ) (g : ControlGuard)
    (m : StoreMutation) (now : ℕ) (id : String)
    → m.replacement.run.revision ≡ e + 1
    → Evolves s (apply_control codec s c k e g m now).0 id
control-Evolves codec s c k e g m now id a =
    apply_control_cases codec (λ t. Evolves s t id) s c k e g m now (λ snap p. inl p)
      (revoke_cases (λ u. Evolves s (apply_locked u k e m).0 id) s k
        (apply_locked-Evolves s k e m id a)
        λ x. apply_locked-Evolves (with_authority s k x) k e m id a)

module _ (codec : Codec) where
  call-Evolves : (s : Store) (c : Call) (id : String) → IsAdvance c → Evolves s (step codec s c) id
  unfolding call apply acquire_execution renew_execution release_execution apply_execution
      quarantine_execution repair_quarantine claim_transitions ack_transition retry_transition
  call-Evolves s (creates r es) id a snap p = create-Evolves s r es id snap p
  call-Evolves s (applies k e m) id a snap p =
      ground (arith, apply_locked-Evolves s k e m id a snap p)
  call-Evolves s (acquires c r now k) id a snap p = inl (ground arith)
  call-Evolves s (renews c r now) id a snap p = inl (ground arith)
  call-Evolves s (releases c l now) id a snap p = inl (ground arith)
  call-Evolves s (executes c l e m now) id a snap p =
      ground (arith, apply_locked-Evolves s l.run_id e m id a snap p)
  call-Evolves s (quarantines c q) id a snap p = inl (ground arith)
  call-Evolves s (repairs c q) id a snap p = inl (ground arith)
  call-Evolves s (controls c k e g m now) id a snap p =
      control-Evolves codec s c k e g m now id a snap p
  call-Evolves s (claims r) id a snap p = inl (ground arith)
  call-Evolves s (acks r) id a snap p = inl (ground arith)
  call-Evolves s (retries r at) id a snap p = inl (ground arith)

  -- Over a history of calls each of whose writes proposes the revision after the one it expects, a
  -- record is unchanged, or the Run has one at a higher revision.
  pub run_calls-Evolves :
      (cs : List Call) (s : Store) (id : String)
      → All IsAdvance cs
      → Evolves s (run_calls codec s cs) id
  unfolding run_calls
  run_calls-Evolves [] s id a snap p = inl p
  run_calls-Evolves (c ∷ cs) s id a snap p = elim (call-Evolves s c id a.0 snap p) [
    | inl same ↦ run_calls-Evolves cs (step codec s c) id a.1 snap same
    | inr (new, q, up) ↦ elim (run_calls-Evolves cs (step codec s c) id a.1 new q) [
      | inl same ↦ inr (new, same, up)
      | inr (newer, r, more) ↦ inr (newer, r, omega arith)
    ]
  ]

  -- So a Run whose revision has not moved has not changed.
  pub unchanged_of_revision :
      (cs : List Call) (s : Store) (id : String) (snap now : Snapshot)
      → All IsAdvance cs
      → s.records id ≡ some snap
      → (run_calls codec s cs).records id ≡ some now
      → now.run.revision ≡ snap.run.revision
      → now ≡ snap
  unchanged_of_revision cs s id snap now a p q r = elim (run_calls-Evolves cs s id a snap p) [
    | inl same ↦ cc
    | inr (new, t, up) ↦ absurd (ground arith)
  ]
