-- ===== src/Kernel/Validation.antt =====
-- go/agent-runtime/kernel/runtime.go and execution.go: the checks that stand before every write.
use gaoge_agent_runtime.Prelude.{
  ℕ, ◌==◌, ◌/=◌, ltb, leb, String, Bool, true, false, not, ◌&&◌, ◌||◌, Option, none, some, List, [],
  ◌∷◌, text_eq, text_ne, is_blank, trim_space, byte_length, is_some, if◌then◌else◌,
}
use gaoge_agent_runtime.Kernel.{
  Error, invalid_input, terminal, RunStatus, running, waiting_input, paused_budget, completed,
  failed, cancelled, ActorRef, ThreadRef, EventDraft, CheckpointStatus, pending, resolved,
  Checkpoint, Output, Snapshot, CreateRequest, Mutation, ExecutionLease, Quarantine, Codec, Context,
  no_context, live, cancelled_context, context_done,
}
use gaoge_agent_runtime.Prelude.Int.{ℤ, pos_part}
use Prim.Native.Char.{code}

abbrev pub is_running : RunStatus → Bool
is_running running = true
is_running _ = false

abbrev pub is_waiting : RunStatus → Bool
is_waiting waiting_input = true
is_waiting _ = false

abbrev pub is_paused : RunStatus → Bool
is_paused paused_budget = true
is_paused _ = false

abbrev pub is_completed : RunStatus → Bool
is_completed completed = true
is_completed _ = false

abbrev pub is_failed : RunStatus → Bool
is_failed failed = true
is_failed _ = false

abbrev pub is_cancelled : RunStatus → Bool
is_cancelled cancelled = true
is_cancelled _ = false

abbrev pub is_pending : CheckpointStatus → Bool
is_pending pending = true
is_pending _ = false

abbrev pub is_resolved : CheckpointStatus → Bool
is_resolved resolved = true
is_resolved _ = false

-- `terminalStatus`.
unfoldable pub terminal_status : RunStatus → Bool
terminal_status s = is_completed s || is_failed s || is_cancelled s

-- `validTransition`.
unfoldable pub valid_transition : RunStatus → RunStatus → Bool
unfolding terminal_status
valid_transition running next =
    is_running next || is_waiting next || is_paused next || terminal_status next
valid_transition waiting_input next = is_running next || terminal_status next
valid_transition paused_budget next = is_running next || terminal_status next
valid_transition completed next = false
valid_transition failed next = false
valid_transition cancelled next = false
valid_transition _ next = false

-- One byte of `validRunKind`; a code point above 127 has only bytes that are refused.
unfoldable pub kind_character : Bool → ℕ → Bool
kind_character first c =
    (leb b'a' c && leb c b'z')
    || (not first && ((leb b'0' c && leb c b'9') || c == b'_' || c == b'-' || c == b'.'))

-- The loop of `validRunKind`.
unfoldable pub kind_characters : Bool → String → Bool
unfolding kind_character
kind_characters first String.[] = true
kind_characters first (String.◌∷◌ c s) = kind_character first (code c) && kind_characters false s

unfoldable pub valid_run_kind : String → Bool
unfolding kind_characters
valid_run_kind kind =
    if text_eq kind "" || ltb 64 (byte_length kind) || text_ne (trim_space kind) kind
    then false
    else kind_characters true kind

unfoldable pub valid_actor : ActorRef → Bool
valid_actor a = not (is_blank a.tenant_id) && not (is_blank a.actor_id)

unfoldable pub valid_thread : ThreadRef → Bool
valid_thread t = not (is_blank t.kind) && not (is_blank t.id)

-- `validExecutionDuration`, in nanoseconds: from a millisecond to 24 hours.
unfoldable pub valid_execution_duration : ℤ → Bool
valid_execution_duration ttl = leb 1000000 (pos_part ttl) && leb (pos_part ttl) 86400000000000

unfoldable pub valid_execution_lease : ExecutionLease → Bool
valid_execution_lease l =
    not (is_blank l.run_id)
    && not (is_blank l.owner_id)
    && not (is_blank l.lease_id)
    && ltb 0 l.epoch
    && l.expires_at /= 0

-- `validExecutionQuarantine`.
unfoldable pub valid_quarantine : Quarantine → Bool
valid_quarantine q =
    text_ne q.run_id ""
    && text_eq (trim_space q.run_id) q.run_id
    && leb (byte_length q.run_id) 128
    && ltb 0 q.revision
    && leb q.revision 9223372036854775807
    && leb q.generation 9223372036854775807
    && text_ne q.reason ""
    && leb (byte_length q.reason) 64
    && text_eq (trim_space q.reason) q.reason

abbrev pub identified_apply_event_type : String
identified_apply_event_type = "kernel.apply.evidence"

-- `hasReservedApplyEvidence`.
unfoldable pub has_reserved_apply_evidence : List EventDraft → Bool
has_reserved_apply_evidence [] = false
has_reserved_apply_evidence (e ∷ es) =
    text_eq e.type identified_apply_event_type || has_reserved_apply_evidence es

-- `NeedsTransitionProjection`: the loop over the events, then the whole.
unfoldable pub any_wakeup : List EventDraft → Bool
any_wakeup [] = false
any_wakeup (e ∷ es) = e.wakeup || any_wakeup es

unfoldable pub needs_transition_projection : RunStatus → List EventDraft → Bool
unfolding terminal_status any_wakeup
needs_transition_projection status events = terminal_status status || any_wakeup events

-- `ctx == nil`, which is refused as invalid input, and then `ctx.Err()`.
abbrev pub context_error : Context → Option Error
context_error no_context = some invalid_input
context_error live = none
context_error cancelled_context = some context_done

module _ (codec : Codec) where
  -- `validState`.
  unfoldable pub valid_state : String → Bool
  valid_state state = ltb 0 (byte_length state) && codec.valid state

  unfoldable pub valid_checkpoint : Checkpoint → Bool
  valid_checkpoint c =
      if is_blank c.id || is_blank c.kind || not (codec.valid c.payload) || c.created_at == 0
      then false
      else if is_pending c.status
      then not (is_some c.resolved_at) && byte_length c.response == 0
      else is_resolved c.status && is_some c.resolved_at && codec.valid c.response

  unfoldable pub valid_result : Output → Bool
  valid_result r =
      not (is_blank r.content_type) && ltb 0 (byte_length r.content) && codec.valid r.content

  unfoldable pub valid_create_request : CreateRequest → Bool
  unfolding valid_run_kind valid_actor valid_thread valid_state
  valid_create_request r =
      valid_run_kind r.kind
      && valid_actor r.actor
      && valid_thread r.thread
      && not (is_blank r.goal)
      && valid_state r.state

  -- `validMutationCheckpoint`.
  unfoldable pub valid_mutation_checkpoint : Mutation → Bool
  valid_mutation_checkpoint m =
      if is_waiting m.status
      then elim m.checkpoint [ none ↦ false | some c ↦ is_pending c.status && valid_checkpoint c ]
      else elim m.checkpoint [ none ↦ true | some c ↦ valid_checkpoint c ]

  -- `validMutationResult`.
  unfoldable pub valid_mutation_result : Mutation → Bool
  valid_mutation_result m =
      if is_completed m.status
      then elim m.result [ none ↦ false | some r ↦ valid_result r ]
      else not (is_some m.result)

  -- `validateMutation`; `none` is the nil error.
  unfoldable pub validate_mutation : Snapshot → Mutation → Option Error
  validate_mutation current m =
      if terminal_status current.run.status
      then some terminal
      else if not (valid_transition current.run.status m.status) || not (valid_state m.state)
      then some invalid_input
      else if not (valid_mutation_checkpoint m) || not (valid_mutation_result m)
      then some invalid_input
      else none
