-- ===== src/Execution/Settling.antt =====
-- go/agent-runtime/workflow/execution_advanced.go: the answers for all the pending effects of an activation.
use gaoge_agent_runtime.Prelude.{
  ℕ, String, Option, List, [], ◌∷◌, map, get_elem?, update_at, trim_space, ◌≡◌, ◌≢◌, inl, inr, refl,
  ap, ◌∙◌, arith, Bool-cases, Option-cases, ok, All,
}
use mathlib.Core.Path.{subst}
use gaoge_agent_runtime.Workflow.{Definition, Encoding}
use gaoge_agent_runtime.Execution.{
  Effect, EffectStatus, EffectResult, EffectOutcome, Answer, refused, observed, View,
}
use gaoge_agent_runtime.Execution.Failing.{schedule_effect_retry, mark_effect_failed}
use gaoge_agent_runtime.Execution.Outcomes.{
  Progress, fail_effect, retry_or_fail, complete_effect, bad_receipt, settle_result, settle_outcome,
  settle_outcomes, text_or,
}
use gaoge_agent_runtime.Execution.Accounts.{
  IsAccounted, disposition-cases, settle_outcome-IsAccounted,
}
use gaoge_agent_runtime.Execution.Indices.{IsPendingAt, IsDistinct, get_elem-update_other}

-- One effect has been replaced.
IsReplaced : ℕ → View → View → Type 0
IsReplaced i s t = (x : Effect) × (t.effects ≡ update_at i (λ _. x) s.effects)

fail_effect-IsReplaced :
    (w : Progress) (i : ℕ) (f : Effect) (code detail cause : String)
    → IsReplaced i w.state (fail_effect w i f code detail cause).state
unfolding IsReplaced fail_effect mark_effect_failed
fail_effect-IsReplaced w i f code detail cause =
    (record f { status = EffectStatus.failed; error_code = trim_space code; error = detail }, refl)

retry_or_fail-IsReplaced :
    (w : Progress) (i : ℕ) (f : Effect) (code detail cause : String)
    → IsReplaced i w.state (retry_or_fail w i f code detail cause).state
unfolding IsReplaced retry_or_fail
retry_or_fail-IsReplaced w i f code detail cause =
    elim (Option-cases (schedule_effect_retry f code detail)) [
      | inl n ↦ let r = fail_effect-IsReplaced w i f code detail cause in (r.0, ground (arith, r.1))
      | inr (x, n) ↦ (x, ground arith)
    ]

settle_result-IsReplaced :
    (enc : Encoding) (ensure : Effect → Option String) (w : Progress) (i : ℕ) (f : Effect)
    (r : EffectResult)
    → IsReplaced i w.state (settle_result enc ensure w i f r).state
unfolding IsReplaced settle_result complete_effect
settle_result-IsReplaced enc ensure w i f r = elim (disposition-cases r.disposition) [
  | inl q ↦ (f, ground arith)
  | inr (inl q) ↦ elim (Bool-cases (bad_receipt enc f r)) [
    | inl b ↦
        let x =
          fail_effect-IsReplaced w i f "workflow.effect_receipt" "invalid workflow execution"
            "invalid workflow execution" in
        (x.0, ground (arith, x.1))
    | inr b ↦ (
      record f {
        status = EffectStatus.completed;
        receipt_id = trim_space r.receipt_id;
        output = r.output;
        error_code = "";
        error = "";
        cost_units = r.cost_units;
      },
      ground arith,
    )
  ]
  | inr (inr (inl q)) ↦
      let x =
        retry_or_fail-IsReplaced w i f (text_or r.error_code "workflow.effect_failed")
          (text_or r.error_detail "workflow effect failed") "workflow effect failed" in
      (x.0, ground (arith, x.1))
  | inr (inr (inr (o, q))) ↦
      let x =
        fail_effect-IsReplaced w i f "workflow.effect_result" "invalid workflow execution"
          "invalid workflow execution" in
      (x.0, ground (arith, x.1))
]

settle_outcome-IsReplaced :
    (enc : Encoding) (ensure : Effect → Option String) (w : Progress) (i : ℕ) (e : Effect)
    (a : Answer)
    → IsReplaced i w.state (settle_outcome enc ensure w i e a).state
unfolding IsReplaced settle_outcome
settle_outcome-IsReplaced enc ensure w i e (refused code cause) =
    retry_or_fail-IsReplaced w i e code cause cause
settle_outcome-IsReplaced enc ensure w i e (observed r) =
    let f = record e { child_run_id = trim_space r.child_run_id } in
    elim (Option-cases (ensure f)) [
      | inl n ↦ let x = settle_result-IsReplaced enc ensure w i f r in (x.0, ground (arith, x.1))
      | inr (cause, n) ↦
          let x = retry_or_fail-IsReplaced w i f "workflow.effect_relation" cause cause in
          (x.0, ground (arith, x.1))
    ]

-- What is pending elsewhere stays pending.
keeps-IsPendingAt :
    (i : ℕ) (s t : View)
    → IsReplaced i s t
    → (os : List EffectOutcome) → All (λ j. j ≢ i) (map (λ (o : EffectOutcome). o.effect_index) os)
    → All (λ (o : EffectOutcome). IsPendingAt s.effects o.effect_index) os
    → All (λ (o : EffectOutcome). IsPendingAt t.effects o.effect_index) os
unfolding IsReplaced IsPendingAt
keeps-IsPendingAt i s t r [] a b = tt
keeps-IsPendingAt i s t r (o ∷ os) a b = (
  (
    b.0.0,
    ap (λ es. get_elem? es o.effect_index) r.1
        ∙ get_elem-update_other i o.effect_index (λ _. r.0) s.effects a.0
        ∙ b.0.1,
    b.0.2,
  ),
  keeps-IsPendingAt i s t r os a.1 b.1,
)

-- All the answers, each for another pending effect.
pub settle_outcomes-IsAccounted :
    (enc : Encoding) (ensure : Effect → Option String) (d : Definition) (w q : Progress)
    (os : List EffectOutcome)
    → IsAccounted d w.state
    → IsDistinct (map (λ (o : EffectOutcome). o.effect_index) os)
    → All (λ (o : EffectOutcome). IsPendingAt w.state.effects o.effect_index) os
    → settle_outcomes enc ensure w os ≡ ok q
    → IsAccounted d q.state
unfolding IsPendingAt IsDistinct settle_outcomes
settle_outcomes-IsAccounted enc ensure d w q [] acc u p h =
    let e : w ≡ q = ground arith in subst (λ x. IsAccounted d x.state) e acc
settle_outcomes-IsAccounted enc ensure d w q (o ∷ os) acc u p h =
    let e = p.0.0 in
    let next = settle_outcome enc ensure w o.effect_index e o.answer in
    let here : settle_outcomes enc ensure next os ≡ ok q = ground (arith, p.0.1) in
    settle_outcomes-IsAccounted enc ensure d next q os
      (settle_outcome-IsAccounted d w.state acc o.effect_index e p.0.1 enc ensure w o.answer p.0.2
        refl)
      u.1
      (keeps-IsPendingAt o.effect_index w.state next.state
        (settle_outcome-IsReplaced enc ensure w o.effect_index e o.answer) os u.0 p.1)
      here

settle_outcome-activations :
    (enc : Encoding) (ensure : Effect → Option String) (w : Progress) (i : ℕ) (e : Effect)
    (a : Answer)
    → (settle_outcome enc ensure w i e a).state.activations ≡ w.state.activations
unfolding settle_outcome settle_result retry_or_fail fail_effect mark_effect_failed complete_effect
settle_outcome-activations enc ensure w i e (refused code cause) = ground arith
settle_outcome-activations enc ensure w i e (observed r) = ground arith

-- The answers leave the activations.
pub settle_outcomes-activations :
    (enc : Encoding) (ensure : Effect → Option String) (w q : Progress) (os : List EffectOutcome)
    → settle_outcomes enc ensure w os ≡ ok q
    → q.state.activations ≡ w.state.activations
unfolding settle_outcomes
settle_outcomes-activations enc ensure w q [] h = ground arith
settle_outcomes-activations enc ensure w q (o ∷ os) h =
    elim (Option-cases (get_elem? w.state.effects o.effect_index)) [
      | inl n ↦ absurd (ground arith)
      | inr (e, n) ↦
          let next = settle_outcome enc ensure w o.effect_index e o.answer in
          let here : settle_outcomes enc ensure next os ≡ ok q = ground arith in
          settle_outcomes-activations enc ensure next q os here
          ∙ settle_outcome-activations enc ensure w o.effect_index e o.answer
    ]
