-- ===== src/Execution/Reserving.antt =====
-- go/agent-runtime/workflow/execution_advanced.go and execution.go: the activation of a node keeps the accounts.
use gaoge_agent_runtime.Prelude.{
  ℕ, suc, ◌+◌, String, true, false, ltb, some, List, [], ◌∷◌, ◌++◌, length, map, length-append, ◌≡◌,
  ◌≢◌, inl, inr, refl, sym, ap, ◌∙◌, arith, Bool-cases, if◌then◌else◌, All,
}
use mathlib.Core.Path.{subst}
use gaoge_agent_runtime.Prelude.Int.{
  ℤ, pos, negsuc, pos_part, is_negative, ltb_ℤ, ◌+ℤ◌, ◌-ℤ◌, ◌≤ℤ◌, pos_add,
}
use gaoge_agent_runtime.Workflow.{Definition, Node}
use gaoge_agent_runtime.Execution.{Effect, View}
use gaoge_agent_runtime.Execution.Plans.{EffectPlan}
use gaoge_agent_runtime.Execution.Starting.{reserve_plans, effects_of}
use gaoge_agent_runtime.Execution.Sums.{sum_of, sum-append, held, spent, unpriced}
use gaoge_agent_runtime.Execution.Accounts.{IsAccounted, unpriced_undo}
use gaoge_agent_runtime.Execution.Indices.{IsDistinct}

pub afford_lem :
    (m : ℤ) (u h r : ℕ) → ltb_ℤ (m -ℤ pos r) (pos u +ℤ pos h) ≡ false → pos (h + r + u) ≤ℤ m
unfolding ◌+ℤ◌ ◌-ℤ◌
afford_lem (pos m) u h r k = ground arith
afford_lem (negsuc m) u h r k = ground arith

abbrev pub plan_cost : EffectPlan → ℕ
plan_cost p = pos_part p.call.max_cost_units

abbrev pub unpriced_plan : EffectPlan → ℕ
unpriced_plan p = if is_negative p.call.max_cost_units then 1 else 0

pub reserve_plans-sum :
    (limit : ℤ) (r : ℕ) (ps : List EffectPlan) (t : ℤ)
    → reserve_plans limit (pos r) ps ≡ some t
    → (t ≡ pos (r + sum_of plan_cost ps)) × (sum_of unpriced_plan ps ≡ 0)
unfolding reserve_plans sum_of
reserve_plans-sum limit r [] t h = (ground arith, refl)
reserve_plans-sum limit r (p ∷ ps) t h = elim (Bool-cases (is_negative p.call.max_cost_units)) [
  | inl n ↦ absurd (ground arith)
  | inr n ↦
      let c : p.call.max_cost_units ≡ pos (plan_cost p) = ground arith in
      let e : pos r +ℤ p.call.max_cost_units ≡ pos (r + plan_cost p) =
        ap (λ z. pos r +ℤ z) c ∙ pos_add r (plan_cost p) in
      let rest : reserve_plans limit (pos (r + plan_cost p)) ps ≡ some t =
        ap (λ z. reserve_plans limit z ps) (sym e) ∙ ground arith in
      let k = reserve_plans-sum limit (r + plan_cost p) ps t rest in
      (k.0 ∙ ap pos (omega arith), ground (arith, k.1, n))
]

module _ (s : View) (n : Node) (activation_id : String) (fresh : ℕ → String) where
  pub effects_of-sums :
      (k : ℕ) (ps : List EffectPlan)
      → (sum_of held (effects_of s n activation_id fresh k ps) ≡ sum_of plan_cost ps)
        × (sum_of spent (effects_of s n activation_id fresh k ps) ≡ 0)
        × (sum_of unpriced (effects_of s n activation_id fresh k ps) ≡ sum_of unpriced_plan ps)
        × (length (effects_of s n activation_id fresh k ps) ≡ length ps)
  unfolding effects_of sum_of
  effects_of-sums k [] = (refl, refl, refl, refl)
  effects_of-sums k (p ∷ ps) =
      let r = effects_of-sums (suc k) ps in
      (omega (arith, r.0), omega (arith, r.1), omega (arith, r.2), omega (arith, r.3))

  ids_apart :
      ((i j : ℕ) → fresh i ≡ fresh j → i ≡ j)
      → (i k : ℕ) (ps : List EffectPlan) → ltb i k ≡ true
      → All
          (λ y. y ≢ fresh i)
          (map (λ (e : Effect). e.id) (effects_of s n activation_id fresh k ps))
  unfolding effects_of
  ids_apart inj i k [] l = tt
  ids_apart inj i k (p ∷ ps) l =
      ((λ q. ground (arith, inj k i q)), ids_apart inj i (suc k) ps (ground arith))

  pub ids-IsDistinct :
      ((i j : ℕ) → fresh i ≡ fresh j → i ≡ j)
      → (k : ℕ) (ps : List EffectPlan)
      → IsDistinct (map (λ (e : Effect). e.id) (effects_of s n activation_id fresh k ps))
  unfolding effects_of IsDistinct
  ids-IsDistinct inj k [] = tt
  ids-IsDistinct inj k (p ∷ ps) =
      (ids_apart inj k (suc k) ps (ground arith), ids-IsDistinct inj (suc k) ps)

-- New effects at the end, with the budget that they ask for.
pub appended-IsAccounted :
    (d : Definition) (s t : View) (es : List Effect) (r : ℕ)
    → IsAccounted d s
    → t.definition ≡ s.definition
    → t.effects ≡ s.effects ++ es
    → sum_of unpriced_undo t.compensations ≡ 0
    → t.budget.effects ≡ s.budget.effects + length es
    → t.budget.cost_units_used ≡ s.budget.cost_units_used
    → t.budget.cost_units_reserved ≡ s.budget.cost_units_reserved +ℤ pos r
    → sum_of held es ≡ r
    → sum_of spent es ≡ 0
    → sum_of unpriced es ≡ 0
    → pos (sum_of held s.effects + r + sum_of spent s.effects) ≤ℤ d.content.policy.max_cost_units
    → pos (length s.effects + length es) ≤ℤ d.content.limits.max_effects
    → IsAccounted d t
appended-IsAccounted d s t es r acc df te cs n u rs eh ss su afford room =
    let h : sum_of held t.effects ≡ sum_of held s.effects + r =
      ap (sum_of held) te ∙ sum-append held s.effects es ∙ omega (arith, eh) in
    let c : sum_of spent t.effects ≡ sum_of spent s.effects =
      ap (sum_of spent) te ∙ sum-append spent s.effects es ∙ omega (arith, ss) in
    let l : length t.effects ≡ length s.effects + length es =
      ap length te ∙ length-append s.effects es in
    record {
      frozen = df ∙ acc.frozen;
      reserved =
          rs
          ∙ ap (λ z. z +ℤ pos r) acc.reserved
          ∙ pos_add (sum_of held s.effects) r
          ∙ ap pos (sym h);
      used = u ∙ acc.used ∙ ap pos (sym c);
      counted = n ∙ omega (arith, acc.counted, l);
      priced =
          ap (sum_of unpriced) te
          ∙ sum-append unpriced s.effects es
          ∙ omega (arith, acc.priced, su);
      undo_priced = cs;
      affordable =
          subst (λ x. pos x ≤ℤ d.content.policy.max_cost_units) (omega (arith, h, c)) afford;
      room = subst (λ x. pos x ≤ℤ d.content.limits.max_effects) (sym l) room;
    }
