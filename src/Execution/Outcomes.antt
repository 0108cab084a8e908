-- ===== src/Execution/Outcomes.antt =====
-- go/agent-runtime/workflow/execution_advanced.go: what the answers of the executor make of the effects of an
-- activation.
use gaoge_agent_runtime.Prelude.{
  ℕ, String, Bool, true, not, ◌||◌, Option, none, some, List, [], ◌∷◌, get_elem?, update_at,
  is_blank, trim_space, if◌then◌else◌, Result, ok, err,
}
use gaoge_agent_runtime.Prelude.Int.{is_negative, ltb_ℤ, ◌+ℤ◌}
use gaoge_agent_runtime.Workflow.{Encoding}
use gaoge_agent_runtime.Execution.{
  Error, invalid_execution, Effect, EffectStatus, EffectDisposition, EffectResult, EffectOutcome,
  Answer, refused, observed, other_disposition, View,
}
use gaoge_agent_runtime.Execution.Failing.{
  put_effect, release_cost, schedule_effect_retry, mark_effect_failed,
}

-- The locals of `applyEffectOutcomes`.
pub record Progress : Type 0 where
  pub state : View
  pub failure : Option (String × String × String)
  pub retry_scheduled : Bool

-- The first failure is the one that is reported.
abbrev first_failure :
    Option (String × String × String) → String → String → String → Option (String × String × String)
first_failure (some f) code detail cause = some f
first_failure none code detail cause = some (code, detail, cause)

-- `markEffectFailedState` and the failure that it leaves: a code, a detail and the text of the cause.
unfoldable pub fail_effect : Progress → ℕ → Effect → String → String → String → Progress
unfolding mark_effect_failed
fail_effect p i e code detail cause = record p {
  state = mark_effect_failed p.state i e code detail;
  failure = first_failure p.failure code detail cause;
}

-- A retry, if it may be, or else the failure.
unfoldable pub retry_or_fail : Progress → ℕ → Effect → String → String → String → Progress
unfolding schedule_effect_retry fail_effect update_at
retry_or_fail p i e code detail cause = elim (schedule_effect_retry e code detail) [
  | some again ↦ record p { state = put_effect p.state i again; retry_scheduled = true }
  | none ↦ fail_effect p i e code detail cause
]

-- The effect of a receipt, with what becomes of its error, and its cost.
unfoldable pub complete_effect : View → ℕ → Effect → EffectResult → String → String → View
unfolding update_at
complete_effect s i e r code error =
    let done =
      release_cost
        (put_effect s i (record e {
          status = EffectStatus.completed;
          receipt_id = trim_space r.receipt_id;
          output = r.output;
          error_code = code;
          error = error;
          cost_units = r.cost_units;
        }))
        e.max_cost_units in
    record done {
      budget = record done.budget { cost_units_used = done.budget.cost_units_used +ℤ r.cost_units };
    }

abbrev pub text_or : String → String → String
text_or s default = if is_blank s then default else trim_space s

-- The test of a receipt.
unfoldable pub bad_receipt : Encoding → Effect → EffectResult → Bool
bad_receipt enc e r =
    is_blank r.receipt_id
    || not (enc.valid r.output)
    || is_negative r.cost_units
    || ltb_ℤ e.max_cost_units r.cost_units

module _ (enc : Encoding) (ensure : Effect → Option String) where
  -- The switch over the disposition.
  unfoldable pub settle_result : Progress → ℕ → Effect → EffectResult → Progress
  unfolding retry_or_fail fail_effect complete_effect bad_receipt update_at
  settle_result p i e r = elim r.disposition [
    | EffectDisposition.pending ↦ record p { state = put_effect p.state i e }
    | EffectDisposition.completed ↦
        if bad_receipt enc e r
        then fail_effect p i e "workflow.effect_receipt" "invalid workflow execution"
            "invalid workflow execution"
        else record p { state = complete_effect p.state i e r "" "" }
    | EffectDisposition.failed ↦
        retry_or_fail p i e (text_or r.error_code "workflow.effect_failed")
          (text_or r.error_detail "workflow effect failed") "workflow effect failed"
    | other_disposition d ↦
        fail_effect p i e "workflow.effect_result" "invalid workflow execution"
          "invalid workflow execution"
  ]

  -- One round of the loop. `ensure` is `ensureEffectRelation`, with the text of its error.
  unfoldable pub settle_outcome : Progress → ℕ → Effect → Answer → Progress
  unfolding retry_or_fail settle_result
  settle_outcome p i e (refused code cause) = retry_or_fail p i e code cause cause
  settle_outcome p i e (observed r) =
      elim (ensure (record e { child_run_id = trim_space r.child_run_id })) [
        | some cause ↦
            retry_or_fail p i (record e { child_run_id = trim_space r.child_run_id })
              "workflow.effect_relation" cause cause
        | none ↦ settle_result p i (record e { child_run_id = trim_space r.child_run_id }) r
      ]

  -- The loop.
  unfoldable pub settle_outcomes : Progress → List EffectOutcome → Result Error Progress
  unfolding settle_outcome get_elem?
  settle_outcomes p [] = ok p
  settle_outcomes p (o ∷ os) = elim (get_elem? p.state.effects o.effect_index) [
    | none ↦ err invalid_execution
    | some e ↦ settle_outcomes (settle_outcome p o.effect_index e o.answer) os
  ]
