-- ===== src/Kernel/Guard.antt =====
-- go/agent-runtime/kernel/control.go and internal/featurecontrol/proof.go: which guarded control
-- transitions a Store may commit.
use gaoge_agent_runtime.Prelude.{
  ℕ, ◌+◌, ◌==◌, ◌/=◌, leb, String, Bool, true, false, not, ◌&&◌, ◌||◌, Option, none, some, ◌%◌, ◌^◌,
  text_dec, text_eq, text_ne, is_blank, is_some, if◌then◌else◌, ℕ_discrete,
}
use gaoge_agent_runtime.Kernel.{
  Error, invalid_input, conflict, terminal, deadline, Checkpoint, Run, Snapshot, StoreMutation,
  ControlKind, approval, allowance, cancel, deadline_control, external_signal, other_control,
  ControlGuard, Proof, Codec,
}
use gaoge_agent_runtime.Kernel.Validation.{
  is_running, is_waiting, is_paused, is_failed, is_cancelled, is_pending, is_resolved,
  terminal_status, valid_transition, valid_state,
}

-- `string(guard.Kind)`.
abbrev pub control_text : ControlKind → String
control_text approval = "approval"
control_text allowance = "allowance"
control_text cancel = "cancel"
control_text deadline_control = "deadline"
control_text external_signal = "external_signal"
control_text (other_control s) = s

-- `value++` on a uint64.
abbrev pub next_u64 : ℕ → ℕ
next_u64 n = (n + 1) % 2 ^ 64

pub checkpoint_dec : Discrete (Option Checkpoint)
checkpoint_dec = hlevel (ℕ_discrete, text_dec)

abbrev pub same_checkpoint : Option Checkpoint → Option Checkpoint → Bool
same_checkpoint a b = elim (checkpoint_dec a b) [ yes _ ↦ true | no _ ↦ false ]

-- `(a == nil) == (b == nil)` with equal instants.
abbrev pub same_instant : Option ℕ → Option ℕ → Bool
same_instant none none = true
same_instant (some a) (some b) = a == b
same_instant _ _ = false

-- `d != nil && !d.After(now)`.
abbrev pub is_due : Option ℕ → ℕ → Bool
is_due none now = false
is_due (some d) now = leb d now

-- Whether control leaves the identity of the Run, and its deadline, alone.
unfoldable pub same_identity : Run → Run → Bool
same_identity c n =
    text_eq n.kind c.kind
    && text_eq n.actor.tenant_id c.actor.tenant_id
    && text_eq n.actor.actor_id c.actor.actor_id
    && text_eq n.thread.kind c.thread.kind
    && text_eq n.thread.id c.thread.id
    && text_eq n.goal c.goal
    && text_eq n.request_id c.request_id
    && n.created_at == c.created_at
    && same_instant n.deadline_at c.deadline_at

abbrev pub is_gate : ControlKind → Bool
is_gate approval = true
is_gate allowance = true
is_gate external_signal = true
is_gate _ = false

-- The origin that a proof must name.
abbrev pub gate_source : ControlGuard → String
gate_source g = elim g.kind [
  | allowance ↦ g.blocked_code
  | external_signal ↦ g.wait_id
  | _ ↦ g.checkpoint_id
]

module _ (codec : Codec) where
  -- `Seal`: `none` is the nil proof.
  unfoldable pub seal : String → ℕ → String → String → String → Option Checkpoint → Option Proof
  seal run_id revision kind source state checkpoint =
      if text_eq run_id ""
        || revision == 0
        || text_eq kind ""
        || text_eq source ""
        || not (codec.valid state)
      then none
      else elim (codec.digest state checkpoint) [
        | none ↦ none
        | some h ↦ some (record {
          run_id = run_id;
          revision = revision;
          kind = kind;
          source = source;
          hash = h;
        })
      ]

  -- `Matches`.
  unfoldable pub matches :
      Option Proof → String → ℕ → String → String → String → Option Checkpoint → Bool
  matches none run_id revision kind source state checkpoint = false
  matches (some p) run_id revision kind source state checkpoint =
      if text_ne p.run_id run_id
        || p.revision /= revision
        || text_ne p.kind kind
        || text_ne p.source source
      then false
      else elim (codec.digest state checkpoint) [ none ↦ false | some h ↦ text_eq h p.hash ]

  -- The resolved checkpoint of an approval keeps the pending one's identity and payload.
  unfoldable pub approval_answer : Checkpoint → Option Checkpoint → Bool
  approval_answer old none = false
  approval_answer old (some new) =
      text_eq new.id old.id
      && text_eq new.kind old.kind
      && is_resolved new.status
      && text_eq new.payload old.payload
      && elim (codec.decision new.response) [
        | none ↦ false
        | some d ↦ text_eq d "approve" || text_eq d "reject"
      ]

  -- `case ControlApproval`.
  unfoldable pub check_approval : Snapshot → ControlGuard → StoreMutation → Option Error
  check_approval current g m = elim current.checkpoint [
    | none ↦ some invalid_input
    | some old ↦
        if text_ne g.wait_id ""
          || is_some g.wait_deadline_at
          || is_blank g.checkpoint_id
          || text_ne g.blocked_code ""
          || not (is_waiting current.run.status)
          || text_ne old.id g.checkpoint_id
          || not (is_pending old.status)
          || not (is_running m.replacement.run.status)
          || not (approval_answer old m.replacement.checkpoint)
        then some invalid_input
        else none
  ]

  -- `case ControlAllowance`.
  unfoldable pub check_allowance : Snapshot → ControlGuard → StoreMutation → Option Error
  check_allowance current g m =
      if text_ne g.wait_id ""
        || is_some g.wait_deadline_at
        || text_ne g.checkpoint_id ""
        || is_blank g.blocked_code
        || not (is_paused current.run.status)
        || text_ne current.run.error_code g.blocked_code
        || not (is_running m.replacement.run.status)
        || text_eq m.replacement.state current.state
      then some invalid_input
      else none

  -- `case ControlExternalSignal`.
  unfoldable pub check_signal : Snapshot → ControlGuard → StoreMutation → ℕ → Option Error
  check_signal current g m store_now =
      if text_ne g.checkpoint_id ""
        || text_ne g.blocked_code ""
        || is_blank g.wait_id
        || not (is_some g.wait_deadline_at)
        || store_now == 0
        || is_due g.wait_deadline_at store_now
        || not (is_running current.run.status)
        || not (is_running m.replacement.run.status)
        || text_eq m.replacement.state current.state
        || not (same_checkpoint m.replacement.checkpoint current.checkpoint)
        || text_ne m.replacement.run.error_code current.run.error_code
        || text_ne m.replacement.run.error_detail current.run.error_detail
      then if is_due g.wait_deadline_at store_now then some deadline else some invalid_input
      else none

  -- `case ControlCancel`.
  unfoldable pub check_cancel : Snapshot → ControlGuard → StoreMutation → Option Error
  check_cancel current g m =
      if text_ne g.wait_id ""
        || is_some g.wait_deadline_at
        || text_ne g.checkpoint_id ""
        || text_ne g.blocked_code ""
        || not (is_cancelled m.replacement.run.status)
        || text_ne m.replacement.run.error_code "run.cancelled"
        || text_ne m.replacement.state current.state
      then some invalid_input
      else none

  -- `case ControlDeadline`.
  unfoldable pub check_deadline : Snapshot → ControlGuard → StoreMutation → ℕ → Option Error
  check_deadline current g m store_now =
      if text_ne g.wait_id "" || is_some g.wait_deadline_at
      then some invalid_input
      else if text_ne g.checkpoint_id ""
          || text_ne g.blocked_code ""
          || not (is_failed m.replacement.run.status)
          || text_ne m.replacement.run.error_code "run.deadline_exceeded"
          || text_ne m.replacement.state current.state
          || store_now == 0
          || not (is_due current.run.deadline_at store_now)
      then some deadline
      else none

  -- The `switch guard.Kind`.
  unfoldable pub check_kind :
      ControlKind → Snapshot → ControlGuard → StoreMutation → ℕ → Option Error
  check_kind approval current g m now = check_approval current g m
  check_kind allowance current g m now = check_allowance current g m
  check_kind external_signal current g m now = check_signal current g m now
  check_kind cancel current g m now = check_cancel current g m
  check_kind deadline_control current g m now = check_deadline current g m now
  check_kind (other_control s) current g m now = some invalid_input

  -- `ValidateControl`; `none` is the nil error.
  unfoldable pub validate_control : Snapshot → ControlGuard → StoreMutation → ℕ → Option Error
  validate_control current g m store_now =
      if text_eq current.run.id ""
        || text_ne next.id current.run.id
        || next.revision /= next_u64 current.run.revision
      then some conflict
      else if not (same_identity current.run next)
      then some invalid_input
      else if terminal_status current.run.status
      then some terminal
      else if not (valid_transition current.run.status next.status)
          || not (valid_state codec m.replacement.state)
      then some invalid_input
      else if is_some m.replacement.result
      then some invalid_input
      else if is_gate g.kind && is_due current.run.deadline_at store_now
      then some deadline
      else if is_gate g.kind
          && not (
              matches g.verified current.run.id current.run.revision (control_text g.kind)
                (gate_source g) m.replacement.state m.replacement.checkpoint)
      then some invalid_input
      else check_kind g.kind current g m store_now
    where
      open m.replacement use {run as next}
