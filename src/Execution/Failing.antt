-- ===== src/Execution/Failing.antt =====
-- go/agent-runtime/workflow/compensation.go and execution_advanced.go: retries and failures of effects, and
-- how an execution fails.
use gaoge_agent_runtime.Prelude.{
  ℕ, suc, String, Bool, true, false, not, ◌||◌, Option, none, some, List, [], ◌∷◌, get_elem?,
  update_at, index_where, text_eq, trim_space, if◌then◌else◌, Result, ok, err,
}
use gaoge_agent_runtime.Prelude.Int.{ℤ, pos, leb_ℤ, ◌-ℤ◌}
use gaoge_agent_runtime.Kernel.{RunStatus}
use gaoge_agent_runtime.Workflow.{RetryPolicy}
use gaoge_agent_runtime.Execution.{
  Error, invalid_execution, Effect, EffectStatus, View, FailureIntent, Write, CheckpointChange,
  cleared, kept,
}

abbrev pub is_pending : EffectStatus → Bool
is_pending EffectStatus.pending = true
is_pending _ = false

-- `effectIndexByID`.
unfoldable pub effect_index_by_id : List Effect → String → Option ℕ
unfolding index_where
effect_index_by_id effects id = index_where (λ e. text_eq e.id id) effects

abbrev pub put_effect : View → ℕ → Effect → View
put_effect s i e = record s { effects = update_at i (λ _. e) s.effects }

-- `state.Budget.CostUnitsReserved -= units`.
abbrev pub release_cost : View → ℤ → View
release_cost s units = record s {
  budget = record s.budget { cost_units_reserved = s.budget.cost_units_reserved -ℤ units };
}

-- `retryCodeAllowed`.
unfoldable pub code_among : String → List String → Bool
code_among code [] = false
code_among code (c ∷ cs) = text_eq c "*" || text_eq c code || code_among code cs

unfoldable pub retry_code_allowed : RetryPolicy → String → Bool
unfolding code_among
retry_code_allowed p code = code_among (trim_space code) p.retryable_error_codes

-- `scheduleEffectRetry`: the effect of the next attempt, if there may be one.
unfoldable pub schedule_effect_retry : Effect → String → String → Option Effect
unfolding retry_code_allowed
schedule_effect_retry e code cause =
    if not (is_pending e.status)
      || leb_ℤ e.retry.max_attempts (pos e.attempt)
      || not (retry_code_allowed e.retry code)
    then none
    else some (record e { attempt = suc e.attempt; error_code = trim_space code; error = cause })

-- `markEffectFailedState`, of the effect at the position.
unfoldable pub mark_effect_failed : View → ℕ → Effect → String → String → View
unfolding update_at
mark_effect_failed s i e code cause =
    release_cost
      (put_effect s i
        (record e { status = EffectStatus.failed; error_code = trim_space code; error = cause }))
      e.max_cost_units

-- One round of `abortActivationEffects`.
unfoldable pub abort_effect : View → String → View
unfolding effect_index_by_id get_elem? update_at
abort_effect s id = elim (effect_index_by_id s.effects id) [
  | none ↦ s
  | some i ↦ elim (get_elem? s.effects i) [
    | none ↦ s
    | some e ↦
        if is_pending e.status
        then release_cost
            (put_effect s i (record e {
              status = EffectStatus.failed;
              error_code = "workflow.effect_aborted";
              error = "workflow effect failed";
            }))
            e.max_cost_units
        else s
  ]
]

-- `abortActivationEffects`, of all the identifiers of an activation.
unfoldable pub abort_activation_effects : View → List String → View
unfolding abort_effect
abort_activation_effects s [] = s
abort_activation_effects s (id ∷ ids) = abort_activation_effects (abort_effect s id) ids

-- The terminal status of a failure.
abbrev pub final_status : RunStatus → RunStatus
final_status RunStatus.cancelled = RunStatus.cancelled
final_status _ = RunStatus.failed

abbrev final_event : RunStatus → String
final_event RunStatus.cancelled = "workflow.cancelled"
final_event _ = "workflow.failed"

-- The write of `terminalizeFailure`.
unfoldable pub terminal_write : View → FailureIntent → Write
terminal_write s f = record {
  status = final_status f.status;
  state = s;
  checkpoint = cleared;
  result = none;
  error_code = f.code;
  error_detail = f.detail;
  event_type = final_event (final_status f.status);
  event_message = f.code;
  wakeup = false;
}

-- `terminalizeFailure`.
unfoldable pub terminalize_failure : View → Result Error Write
unfolding terminal_write
terminalize_failure s = elim s.failure [
  | none ↦ err invalid_execution
  | some f ↦ ok (terminal_write s f)
]

-- A write that leaves the Run running, with one event that wakes it up.
abbrev pub running_write : View → CheckpointChange → String → String → Write
running_write s checkpoint event message = record {
  status = RunStatus.running;
  state = s;
  checkpoint = checkpoint;
  result = none;
  error_code = "";
  error_detail = "";
  event_type = event;
  event_message = message;
  wakeup = true;
}

-- The failure that `beginFailure` keeps or sets.
abbrev pub intent_of : View → RunStatus → String → String → FailureIntent
intent_of s status code cause = elim s.failure [
  | some f ↦ f
  | none ↦ record { status = status; code = trim_space code; detail = cause }
]

-- The first write of `beginFailure`: it ends the Run, or it records the failure for the compensations, which
-- then run as in any later segment.
unfoldable pub begin_failure : View → RunStatus → String → String → Write
unfolding terminal_write
begin_failure s status code cause = elim s.compensations [
  | [] ↦
      terminal_write (record s { failure = some (intent_of s status code cause) })
        (intent_of s status code cause)
  | c ∷ cs ↦
      running_write (record s { failure = some (intent_of s status code cause) }) cleared
        "workflow.failure.intent_created" (intent_of s status code cause).code
]

-- `fail`.
abbrev pub fail : View → String → String → Write
fail s code cause = begin_failure s RunStatus.failed code cause

-- `yield`.
abbrev pub yield : View → String → Write
yield s reason = running_write s kept "workflow.segment.yielded" reason
