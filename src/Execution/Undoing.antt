-- ===== src/Execution/Undoing.antt =====
-- go/agent-runtime/workflow/compensation.go: the compensations of a failed execution, from the last one.
use Prim.Native.String.{◌++◌ as join}
use gaoge_agent_runtime.Prelude.{
  ℕ, suc, leb, String, Bool, true, false, ◌||◌, Option, none, some, List, [], ◌∷◌, ◌++◌, get_elem?,
  update_at, trim_space, if◌then◌else◌, Result, ok, err,
}
use gaoge_agent_runtime.Prelude.Int.{pos, leb_ℤ, ltb_ℤ, ◌+ℤ◌, ◌-ℤ◌}
use gaoge_agent_runtime.Kernel.{RunStatus}
use gaoge_agent_runtime.Workflow.{Encoding}
use gaoge_agent_runtime.Execution.{
  Error, invalid_execution, Effect, EffectStatus, EffectDisposition, EffectResult, Answer, refused,
  observed, Compensation, CompensationStatus, FailureIntent, View, Write, cleared, SegmentBudget,
}
use gaoge_agent_runtime.Execution.Failing.{
  is_pending, effect_index_by_id, put_effect, schedule_effect_retry, mark_effect_failed,
  terminal_write, terminalize_failure, running_write, yield,
}
use gaoge_agent_runtime.Execution.Outcomes.{complete_effect, bad_receipt, text_or}

abbrev pub is_undone : CompensationStatus → Bool
is_undone CompensationStatus.completed = true
is_undone _ = false

abbrev shifted : Option ℕ → Option ℕ
shifted none = none
shifted (some i) = some (suc i)

-- `nextCompensationPosition`: the last one that is not completed.
unfoldable pub next_compensation_position : List Compensation → Option ℕ
next_compensation_position [] = none
next_compensation_position (c ∷ cs) =
    let rest = next_compensation_position cs in
    elim rest [ some i ↦ some (suc i) | none ↦ if is_undone c.status then none else some 0 ]

abbrev original : Option FailureIntent → String
original none = ""
original (some f) = join f.code (join ": " f.detail)

abbrev pub put_compensation : View → ℕ → Compensation → View
put_compensation s i c = record s { compensations = update_at i (λ _. c) s.compensations }

-- `terminalizeCompensationFailure`.
unfoldable pub terminalize_compensation_failure : View → Compensation → Write
unfolding terminal_write
terminalize_compensation_failure s c =
    let f : FailureIntent = record {
      status = RunStatus.failed;
      code = "workflow.compensation_failed";
      detail =
          trim_space
            (join (original s.failure) (join "; compensation " (join c.id (join ": " c.error))));
    } in
    terminal_write (record s { failure = some f }) f

-- `markCompensationFailed`.
unfoldable pub mark_compensation_failed :
    View → ℕ → Compensation → ℕ → Effect → String → String → Write
unfolding mark_effect_failed terminalize_compensation_failure update_at
mark_compensation_failed s i c k e code cause =
    let broken = record c {
      status = CompensationStatus.failed;
      error_code = trim_space code;
      error = cause;
    } in
    terminalize_compensation_failure
      (mark_effect_failed (put_compensation s i broken) k e code cause) broken

-- The effect of an undo.
abbrev pub undo_effect : View → Compensation → String → Effect
undo_effect s c id = record {
  id = id;
  activation_id = "";
  node_id = c.node_id;
  class = c.call.class;
  kind = c.call.kind;
  revision = c.call.revision;
  definition = c.call.definition;
  output_key = "";
  map_index = 0;
  mapped = false;
  compensation = true;
  input = c.input;
  max_cost_units = c.call.max_cost_units;
  cost_units = pos 0;
  nested_depth = s.nested_depth;
  attempt = 1;
  retry = c.call.retry;
  status = EffectStatus.pending;
  child_run_id = "";
  receipt_id = "";
  output = "";
  error_code = "";
  error = "";
}

-- What the budget of an undo lacks.
unfoldable pub undo_exceeds : View → Compensation → Bool
undo_exceeds s c =
    leb_ℤ s.definition.content.limits.max_effects (pos s.budget.effects)
    || ltb_ℤ (s.definition.content.policy.max_cost_units -ℤ c.call.max_cost_units)
        (s.budget.cost_units_used +ℤ s.budget.cost_units_reserved)

-- The state with the effect of an undo.
unfoldable pub with_undo : View → ℕ → Compensation → String → View
unfolding update_at
with_undo s i c effect_id =
    record (put_compensation s i
      (record c { status = CompensationStatus.running; effect_id = effect_id })) {
        effects = s.effects ++ (undo_effect s c effect_id ∷ []);
        budget = record s.budget {
          effects = suc s.budget.effects;
          cost_units_reserved = s.budget.cost_units_reserved +ℤ c.call.max_cost_units;
        };
      }

abbrev pub unaffordable : Compensation → Compensation
unaffordable c = record c {
  status = CompensationStatus.failed;
  error_code = "workflow.compensation_budget";
  error = "workflow budget exceeded";
}

-- The write of `prepareCompensation`.
unfoldable pub prepare_compensation : View → ℕ → Compensation → String → Write
unfolding undo_exceeds with_undo terminalize_compensation_failure update_at
prepare_compensation s i c effect_id =
    if undo_exceeds s c
    then terminalize_compensation_failure (put_compensation s i (unaffordable c)) (unaffordable c)
    else running_write (with_undo s i c effect_id) cleared "workflow.compensation.intent_created"
        effect_id

-- `persistCompensationRetry`.
abbrev pub retry_undo : View → ℕ → Effect → Compensation → Write
unfolding update_at
retry_undo s k again c =
    running_write (put_effect s k again) cleared "workflow.compensation.retry_scheduled" c.id

-- A retry of the effect of an undo, if it may be, or else its failure.
unfoldable pub retry_undo_or_fail : View → ℕ → Compensation → ℕ → Effect → String → String → Write
unfolding schedule_effect_retry mark_compensation_failed update_at
retry_undo_or_fail s i c k e code cause = elim (schedule_effect_retry e code cause) [
  | some again ↦ retry_undo s k again c
  | none ↦ mark_compensation_failed s i c k e code cause
]

abbrev pub undone : View → ℕ → Compensation → EffectResult → View
unfolding update_at
undone s i c r =
    put_compensation s i
      (record c { status = CompensationStatus.completed; receipt_id = trim_space r.receipt_id })

-- The receipt of an undo that `dispatchCompensation` accepts; the effect keeps the error of an earlier try.
unfoldable pub complete_undo : View → ℕ → Compensation → ℕ → Effect → EffectResult → View
unfolding complete_effect update_at
complete_undo s i c k e r = undone (complete_effect s k e r e.error_code e.error) i c r

module _ (enc : Encoding) where
  -- `dispatchCompensation`, of an answer for the pending effect.
  unfoldable pub settle_undo : View → ℕ → Compensation → ℕ → Effect → Answer → Write
  unfolding retry_undo_or_fail mark_compensation_failed complete_undo bad_receipt
  settle_undo s i c k e (refused code cause) =
      retry_undo_or_fail s i c k e "workflow.compensation_dispatch" cause
  settle_undo s i c k e (observed r) = elim r.disposition [
    | EffectDisposition.pending ↦ yield s "compensation_pending"
    | EffectDisposition.failed ↦
        retry_undo_or_fail s i c k e (text_or r.error_code "workflow.compensation_failed")
          (text_or r.error_detail "workflow effect failed")
    | EffectDisposition.completed ↦
        if bad_receipt enc e r
        then mark_compensation_failed s i c k e "workflow.compensation_receipt"
            "invalid workflow execution"
        else running_write (complete_undo s i c k e r) cleared "workflow.compensation.completed"
            c.id
    | _ ↦
        mark_compensation_failed s i c k e "workflow.compensation_receipt"
          "invalid workflow execution"
  ]

  -- `dispatchCompensation`. `execute` is the executor, asked for an effect.
  unfoldable pub dispatch_compensation :
      (Effect → Answer) → View → ℕ → Compensation → SegmentBudget → Write
  unfolding effect_index_by_id get_elem? settle_undo terminalize_compensation_failure
  dispatch_compensation execute s i c segment =
      if leb 1 segment.effects
      then yield s "compensation_effect_budget"
      else elim (effect_index_by_id s.effects c.effect_id) [
        | none ↦ terminalize_compensation_failure s c
        | some k ↦ elim (get_elem? s.effects k) [
          | none ↦ terminalize_compensation_failure s c
          | some e ↦
              if is_pending e.status
              then settle_undo s i c k e (execute e)
              else terminalize_compensation_failure s c
        ]
      ]

  -- One write of `runCompensations`; those that follow one write follow from the state that it leaves. The yield
  -- `compensation_progress` after an undo, which leaves the state as it is, is left out.
  unfoldable pub run_compensations :
      (Effect → Answer) → View → String → SegmentBudget → Result Error Write
  unfolding next_compensation_position get_elem? prepare_compensation dispatch_compensation
      terminalize_compensation_failure terminalize_failure
  run_compensations execute s effect_id segment =
      elim (next_compensation_position s.compensations) [
        | none ↦ terminalize_failure s
        | some i ↦ elim (get_elem? s.compensations i) [
          | none ↦ err invalid_execution
          | some c ↦ elim c.status [
            | CompensationStatus.pending ↦ ok (prepare_compensation s i c effect_id)
            | CompensationStatus.running ↦ ok (dispatch_compensation execute s i c segment)
            | _ ↦ ok (terminalize_compensation_failure s c)
          ]
        ]
      ]
