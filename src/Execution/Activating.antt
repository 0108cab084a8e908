-- ===== src/Execution/Activating.antt =====
-- go/agent-runtime/workflow/execution_advanced.go and execution.go: a node that starts keeps the accounts.
use gaoge_agent_runtime.Prelude.{
  ℕ, ◌+◌, String, Bool, false, Option, none, some, List, [], ◌∷◌, ◌++◌, length, ◌≡◌, refl, sym, ◌∙◌,
  arith, Result, ok, err, All, not,
}
use mathlib.Core.Path.{subst}
use gaoge_agent_runtime.Prelude.Int.{ℤ, pos, negsuc, ltb_ℤ, ◌+ℤ◌, ◌-ℤ◌, ◌≤ℤ◌}
use gaoge_agent_runtime.Kernel.{RunStatus}
use gaoge_agent_runtime.Workflow.{Definition, Encoding, Node, IfNode, WaitNode, ReturnNode}
use gaoge_agent_runtime.Workflow.Successors.{node_index_by_id, branch_target}
use gaoge_agent_runtime.Execution.{Error, Activation, ActivationStatus, View, Write, Reader}
use gaoge_agent_runtime.Execution.Plans.{EffectPlan}
use gaoge_agent_runtime.Execution.Values.{resolve_value_source, workflow_return_value}
use gaoge_agent_runtime.Execution.Failing.{begin_failure}
use gaoge_agent_runtime.Execution.Starting.{
  activation_of, reserve_plans, effects_of, with_effects, reserve_effects, prepare_plans,
  wait_payload, prepare_wait, choose_branch, execute_if, complete, no_plans, prepare_planned,
}
use gaoge_agent_runtime.Execution.Sums.{sum_of, held, spent, unpriced}
use gaoge_agent_runtime.Execution.Indices.{IsDistinct}
use gaoge_agent_runtime.Execution.Soundness.{
  HasDistinct, IsSound, All-append, same-IsAccounted, begin_failure-IsSound, if_state, IsFine,
  option_elim, result_elim,
}
use gaoge_agent_runtime.Execution.Reserving.{
  afford_lem, plan_cost, reserve_plans-sum, effects_of-sums, ids-IsDistinct, appended-IsAccounted,
}

room_lem : (m : ℤ) (n : ℕ) → ltb_ℤ m (pos n) ≡ false → pos n ≤ℤ m
room_lem (pos m) n h = ground arith
room_lem (negsuc m) n h = ground arith

abbrev failing : View → String → String → View
failing s code cause = (begin_failure s RunStatus.failed code cause).state

module _ (d : Definition) (s : View) (h : IsSound d s) where
  pub failing-IsSound : (code cause : String) → IsSound d (failing s code cause)
  failing-IsSound code cause = begin_failure-IsSound d s RunStatus.failed code cause h

  -- One more activation without effects, and a position.
  activated-IsSound :
      (t : View) (a : Activation)
      → t.definition ≡ s.definition
      → t.effects ≡ s.effects
      → t.compensations ≡ s.compensations
      → t.budget.effects ≡ s.budget.effects
      → t.budget.cost_units_used ≡ s.budget.cost_units_used
      → t.budget.cost_units_reserved ≡ s.budget.cost_units_reserved
      → t.activations ≡ s.activations ++ (a ∷ [])
      → a.effect_ids ≡ []
      → IsSound d t
  unfolding IsDistinct
  activated-IsSound t a df es cs n u r as_ ids = record {
    accounts = same-IsAccounted d s t df es cs n u r h.accounts;
    effect_ids = subst (All HasDistinct) (sym as_) (
        All-append HasDistinct s.activations (a ∷ []) h.effect_ids
          (subst IsDistinct (sym ids) tt, tt));
  }

  module _ (n : Node) (activation_id : String) (fresh : ℕ → String)
      (inj : (i j : ℕ) → fresh i ≡ fresh j → i ≡ j) where
    with_effects-IsSound :
        (ps : List EffectPlan) (r : ℕ)
        → r ≡ sum_of plan_cost ps
        → sum_of unpriced (effects_of s n activation_id fresh 0 ps) ≡ 0
        → pos (s.budget.effects + length ps) ≤ℤ d.content.limits.max_effects
        → pos (sum_of held s.effects + r + sum_of spent s.effects)
          ≤ℤ d.content.policy.max_cost_units
        → IsSound d
            (with_effects s n activation_id (effects_of s n activation_id fresh 0 ps) (pos r))
    unfolding with_effects
    with_effects-IsSound ps r er priced room afford =
        let es = effects_of s n activation_id fresh 0 ps in
        let k = effects_of-sums s n activation_id fresh 0 ps in
        record {
          accounts =
              appended-IsAccounted d s (with_effects s n activation_id es (pos r)) es r h.accounts
                refl refl h.accounts.undo_priced refl refl refl (k.0 ∙ sym er) k.1 priced afford
                (subst (λ x. pos x ≤ℤ d.content.limits.max_effects)
                  (omega (arith, h.accounts.counted, k.3)) room);
          effect_ids =
              All-append HasDistinct s.activations _ h.effect_ids
                (ids-IsDistinct s n activation_id fresh inj 0 ps, tt);
        }

    reserve_effects-IsSound :
        (ps : List EffectPlan) (o : Option ℤ)
        → reserve_plans s.definition.content.policy.max_cost_units (pos 0) ps ≡ o
        → pos (s.budget.effects + length ps) ≤ℤ d.content.limits.max_effects
        → IsSound d (reserve_effects s n activation_id fresh ps o).state
    unfolding reserve_effects
    reserve_effects-IsSound ps none e room =
        failing-IsSound "workflow.cost_budget" "workflow budget exceeded"
    reserve_effects-IsSound ps (some t) e room =
        let k = reserve_plans-sum s.definition.content.policy.max_cost_units 0 ps t e in
        let sums = effects_of-sums s n activation_id fresh 0 ps in
        let m = s.definition.content.policy.max_cost_units in
        let es = effects_of s n activation_id fresh 0 ps in
        if_state (IsSound d)
          (ltb_ℤ (m -ℤ t) (s.budget.cost_units_used +ℤ s.budget.cost_units_reserved)) _ _
          (λ b. failing-IsSound "workflow.cost_budget" "workflow budget exceeded")
          (λ b.
            let c : ltb_ℤ (m -ℤ pos (0 + sum_of plan_cost ps))
                  (pos (sum_of spent s.effects) +ℤ pos (sum_of held s.effects))
                ≡ false =
              subst
                (λ x.
                  ltb_ℤ (m -ℤ x) (pos (sum_of spent s.effects) +ℤ pos (sum_of held s.effects))
                  ≡ false)
                k.0
                (subst (λ x. ltb_ℤ (m -ℤ t) (x +ℤ pos (sum_of held s.effects)) ≡ false)
                  h.accounts.used
                  (subst (λ x. ltb_ℤ (m -ℤ t) (s.budget.cost_units_used +ℤ x) ≡ false)
                    h.accounts.reserved b)) in
            let afford =
              afford_lem m (sum_of spent s.effects) (sum_of held s.effects)
                (0 + sum_of plan_cost ps) c in
            subst (λ x. IsSound d (with_effects s n activation_id es x)) (sym k.0)
              (with_effects-IsSound ps (0 + sum_of plan_cost ps) (omega arith) (sums.2 ∙ k.1) room (
                subst
                  (λ x.
                    pos (sum_of held s.effects + (0 + sum_of plan_cost ps) + sum_of spent s.effects)
                    ≤ℤ x.content.policy.max_cost_units)
                  h.accounts.frozen afford)))

    pub prepare_plans-IsSound :
        (ps : List EffectPlan) → IsSound d (prepare_plans s n activation_id fresh ps).state
    unfolding prepare_plans
    prepare_plans-IsSound ps =
        if_state (IsSound d) (no_plans n ps) _ _
          (λ b. failing-IsSound "workflow.effect_plan" "invalid workflow execution")
          (λ b.
            if_state (IsSound d)
              (ltb_ℤ s.definition.content.limits.max_effects (pos (s.budget.effects + length ps))) _
              _ (λ c. failing-IsSound "workflow.effect_budget" "workflow budget exceeded")
              (λ c.
                reserve_effects-IsSound ps
                  (reserve_plans s.definition.content.policy.max_cost_units (pos 0) ps) refl
                  (subst (λ x. pos (s.budget.effects + length ps) ≤ℤ x.content.limits.max_effects)
                    h.accounts.frozen
                    (room_lem s.definition.content.limits.max_effects (s.budget.effects + length ps)
                      c))))

    pub prepare_planned-IsSound :
        (ps : Result Error (List EffectPlan))
        → IsSound d (prepare_planned s n activation_id fresh ps).state
    unfolding prepare_planned
    prepare_planned-IsSound (err e) =
        failing-IsSound "workflow.effect_plan" "invalid workflow execution"
    prepare_planned-IsSound (ok ps) = prepare_plans-IsSound ps

  module _ (n : Node) (enc : Encoding) (reader : Reader) where
    pub prepare_wait-IsSound :
        (w : WaitNode) (activation_id wait_id : String)
        → IsSound d (prepare_wait enc reader s n w activation_id wait_id).state
    unfolding prepare_wait
    prepare_wait-IsSound w activation_id wait_id =
        result_elim (λ (v : Write). IsSound d v.state) (wait_payload enc reader s w) _ _
          (λ e. failing-IsSound "workflow.wait_payload" "invalid workflow execution")
          (λ payload e.
            activated-IsSound _
              (activation_of activation_id s n ActivationStatus.waiting wait_id "") refl refl refl
              refl refl refl refl refl)

    choose-IsFine :
        (activation_id condition : String) (matched : Bool)
        → IsFine d (choose_branch enc reader s n activation_id condition matched)
    unfolding choose_branch IsFine
    choose-IsFine activation_id condition matched =
        option_elim (IsFine d)
          (node_index_by_id s.definition.content.nodes (branch_target n.if_node matched)) _ _
          (λ e. tt)
          (λ next e.
            activated-IsSound _
              (activation_of activation_id s n ActivationStatus.completed "" condition) refl refl
              refl refl refl refl refl refl)

    pub execute_if-IsFine :
        (b : IfNode) (activation_id : String) → IsFine d (execute_if enc reader s n b activation_id)
    unfolding execute_if IsFine
    execute_if-IsFine b activation_id =
        result_elim (IsFine d) (resolve_value_source enc reader s b.condition "" 0) _ _
          (λ e. failing-IsSound "workflow.condition_invalid" "invalid workflow execution")
          (λ condition e.
            option_elim (IsFine d) (reader.boolean condition) _ _
              (λ q. failing-IsSound "workflow.condition_type" "invalid workflow execution")
              (λ matched q. choose-IsFine activation_id condition matched))

    pub complete-IsSound :
        (accepts : String → Bool) (r : ReturnNode) (activation_id : String)
        → IsSound d (complete enc reader accepts s n r activation_id).state
    unfolding complete
    complete-IsSound accepts r activation_id =
        result_elim (λ (v : Write). IsSound d v.state) (workflow_return_value enc reader s r) _ _
          (λ e. failing-IsSound "workflow.return_invalid" "invalid workflow execution")
          (λ result e.
            if_state (IsSound d) (not (accepts result)) _ _
              (λ b. failing-IsSound "workflow.output_schema" "invalid workflow execution")
              (λ b.
                activated-IsSound _
                  (activation_of activation_id s n ActivationStatus.completed "" result) refl refl
                  refl refl refl refl refl refl))
