-- ===== src/Runtime/Terminations.antt =====
-- go/agent-runtime/kernel/runtime.go: `Cancel` and `Expire` end a Run whoever holds it.
use gaoge_agent_runtime.Prelude.{
  ℕ, ◌≡◌, ◌≢◌, ◌⊎◌, refl, sym, true, false, String, none, some, arith, ok, is_ok, trim_space,
  text_dec, length, ◌∙◌,
}
use gaoge_agent_runtime.Kernel.{
  RunStatus, Snapshot, StoreMutation, Codec, live, ControlGuard, cancel, deadline_control,
  cancelled, running, waiting_input, paused_budget,
}
use gaoge_agent_runtime.Kernel.Validation.{
  terminal_status, valid_transition, valid_state, validate_mutation, valid_mutation_checkpoint,
  valid_mutation_result, has_reserved_apply_evidence, is_running,
}
use gaoge_agent_runtime.Kernel.Guard.{
  next_u64, same_identity, check_kind, check_cancel, check_deadline, validate_control, is_due,
}
use gaoge_agent_runtime.Memory
use gaoge_agent_runtime.Memory.{
  Store, authority, apply_locked, append_committed_transition, append_events, journal, snapshot_of,
}
use gaoge_agent_runtime.Memory.Execution.{max_u64}
use gaoge_agent_runtime.Memory.Control as StoreControl
use gaoge_agent_runtime.Runtime.{make_store_mutation, load, prepare_control, apply_control}
use gaoge_agent_runtime.Runtime.Commands.{cancel_run, cancel_mutation, expire_mutation, plain_guard}

cancel_code : trim_space "run.cancelled" ≡ "run.cancelled"
unfolding trim_space
cancel_code = refl

pub expire_code : trim_space "run.deadline_exceeded" ≡ "run.deadline_exceeded"
unfolding trim_space
expire_code = refl

-- Any live status may be followed by `cancelled` or `failed`; a status of another text may not.
abbrev pub IsLive : RunStatus → Type 0
IsLive st = (st ≡ running) ⊎ ((st ≡ waiting_input) ⊎ (st ≡ paused_budget))

module _ (codec : Codec) (current : Snapshot) (named : current.run.id ≢ "")
    (alive : IsLive current.run.status) (json : valid_state codec current.state ≡ true) where
  cancel-valid :
      (reason : String) → validate_mutation codec current (cancel_mutation current reason) ≡ none
  unfolding validate_mutation cancel_mutation terminal_status valid_transition
      valid_mutation_checkpoint valid_mutation_result
  cancel-valid reason = ground arith

  cancel-control :
      (reason : String) (now at : ℕ)
      → validate_control codec current
          (plain_guard cancel)
          (make_store_mutation current (cancel_mutation current reason) now)
          at
        ≡ none
  unfolding validate_control make_store_mutation cancel_mutation terminal_status valid_transition
      same_identity check_kind check_cancel
  cancel-control reason now at = ground (arith, cancel_code)

  pub expire-valid : validate_mutation codec current (expire_mutation current) ≡ none
  unfolding validate_mutation expire_mutation terminal_status valid_transition
      valid_mutation_checkpoint valid_mutation_result
  expire-valid = ground arith

  pub expire-control :
      (now at : ℕ)
      → is_due current.run.deadline_at at ≡ true
      → at ≢ 0
      → validate_control codec current
          (plain_guard deadline_control)
          (make_store_mutation current (expire_mutation current) now)
          at
        ≡ none
  unfolding validate_control make_store_mutation expire_mutation terminal_status valid_transition
      same_identity check_kind check_deadline
  expire-control now at d z = ground (arith, expire_code)

-- A guarded write that went through.
pub record HasCommitted (t : Store) (id : String) (m : StoreMutation) : Type 0 where
  pub final : Snapshot
  pub stored : t.records id ≡ some final
  pub run_written : final.run ≡ m.replacement.run
  pub state_written : final.state ≡ m.replacement.state

apply_locked-HasCommitted :
    (t : Store) (id : String) (e : ℕ) (m : StoreMutation) (cur : Snapshot)
    → t.records id ≡ some cur
    → cur.run.revision ≡ e
    → HasCommitted (apply_locked t id e m).0 id m × (is_ok (apply_locked t id e m).1 ≡ true)
unfolding apply_locked append_committed_transition
apply_locked-HasCommitted t id e m cur p r = (
  record {
    final =
        snapshot_of m.replacement
          (length (append_events (journal t id) m.events m.replacement.run.updated_at));
    stored = ground arith;
    run_written = refl;
    state_written = refl;
  },
  ground arith,
)

revoke-records : (s : Store) (id : String) → (StoreControl.revoke s id).records ≡ s.records
unfolding StoreControl.revoke
revoke-records s id = ground arith

pub store_control_commits :
    (codec : Codec) (s : Store) (id : String) (g : ControlGuard) (m : StoreMutation) (at : ℕ)
    (cur : Snapshot)
    → s.records id ≡ some cur
    → id ≢ ""
    → cur.run.revision ≢ 0
    → validate_control codec cur g m at ≡ none
    → is_running m.replacement.run.status ≡ false
    → (authority s id).epoch ≢ max_u64
    → let out = StoreControl.apply_control codec s live id cur.run.revision g m at in
      HasCommitted out.0 id m × (is_ok out.1 ≡ true)
unfolding StoreControl.apply_control StoreControl.control_refusal
store_control_commits codec s id g m at cur p n r v st ep =
    let done =
      apply_locked-HasCommitted (StoreControl.revoke s id) id cur.run.revision m cur
        (rw (revoke-records s id) p) refl in
    (
      record {
        final = done.0.final;
        stored = ground (arith, done.0.stored, done.1);
        run_written = done.0.run_written;
        state_written = done.0.state_written;
      },
      ground (arith, done.1),
    )

-- The record of a Run after its end.
pub record HasEnded (t : Store) (id : String) (old : Snapshot) (st : RunStatus) (code : String)
    (now : ℕ) : Type 0 where
  pub final : Snapshot
  pub stored : t.records id ≡ some final
  pub status : final.run.status ≡ st
  pub code_set : final.run.error_code ≡ code
  pub state_kept : final.state ≡ old.state
  pub ended : final.run.ended_at ≡ some now
  pub advanced : final.run.revision ≡ next_u64 old.run.revision

-- A Run that a control may end: it is stored under its trimmed, non-empty identifier, its status is
-- one of the three live ones, its state is JSON, and its epoch is not the last one.
pub record IsEndable (codec : Codec) (s : Store) (id : String) (current : Snapshot) : Type 0 where
  pub stored : s.records id ≡ some current
  pub trimmed : trim_space id ≡ id
  pub named : id ≢ ""
  pub own : current.run.id ≡ id
  pub alive : IsLive current.run.status
  pub json : valid_state codec current.state ≡ true
  pub revision_set : current.run.revision ≢ 0
  pub epoch_left : (authority s id).epoch ≢ max_u64

module _ (codec : Codec) (s : Store) (id : String) (current : Snapshot)
    (h : IsEndable codec s id current) where
  pub load-stored : load s id ≡ ok current
  unfolding load Memory.load
  load-stored = ground (arith, h.trimmed, h.stored, h.named)

  pub named : current.run.id ≢ ""
  named e = h.named (sym h.own ∙ e)

  module _ (reason : String) (now check_now at : ℕ) where
    cancel-unreserved : has_reserved_apply_evidence (cancel_mutation current reason).events ≡ false
    unfolding has_reserved_apply_evidence cancel_mutation text_dec
    cancel-unreserved = refl

    cancel-prepared :
        prepare_control codec s none id current.run.revision
          (plain_guard cancel)
          (cancel_mutation current reason)
          now
          check_now
        ≡ ok (make_store_mutation current (cancel_mutation current reason) now)
    unfolding prepare_control
    cancel-prepared = ground (
      arith,
      load-stored,
      cancel-unreserved,
      cancel-valid codec current named h.alive h.json reason,
      cancel-control codec current named h.alive h.json reason now check_now,
    )

    cancel-committed :
        let out =
          StoreControl.apply_control codec s live id current.run.revision
            (plain_guard cancel)
            (make_store_mutation current (cancel_mutation current reason) now)
            at in
        HasCommitted out.0 id (make_store_mutation current (cancel_mutation current reason) now)
        × (is_ok out.1 ≡ true)
    unfolding make_store_mutation cancel_mutation
    cancel-committed =
        store_control_commits codec s id (plain_guard cancel) _ at current h.stored h.named
          h.revision_set (cancel-control codec current named h.alive h.json reason now at) refl
          h.epoch_left

    cancel-store :
        let out = cancel_run codec s live id current.run.revision reason now check_now at in
        let write =
          StoreControl.apply_control codec s live id current.run.revision
            (plain_guard cancel)
            (make_store_mutation current (cancel_mutation current reason) now)
            at in
        (out.0 ≡ write.0) × (is_ok out.1 ≡ is_ok write.1)
    unfolding cancel_run apply_control
    cancel-store = ground (arith, load-stored, cancel-prepared)

    -- `Cancel` at the current revision, in a live context, of a Run that a control may end succeeds
    -- and leaves the Run cancelled, with its code, its end and the next revision, and with its
    -- state kept, whoever holds its lease and whether or not it is quarantined.
    pub cancel_ends :
        let out = cancel_run codec s live id current.run.revision reason now check_now at in
        HasEnded out.0 id current cancelled "run.cancelled" now × (is_ok out.1 ≡ true)
    unfolding make_store_mutation cancel_mutation terminal_status
    cancel_ends =
        let done = cancel-committed in
        (
          record {
            final = done.0.final;
            stored = rw (cancel-store.0) done.0.stored;
            status = ground (arith, done.0.run_written);
            code_set = ground (arith, done.0.run_written, cancel_code);
            state_kept = done.0.state_written;
            ended = ground (arith, done.0.run_written);
            advanced = ground (arith, done.0.run_written);
          },
          rw (cancel-store.1) done.1,
        )
