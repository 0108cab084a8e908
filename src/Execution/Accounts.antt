-- ===== src/Execution/Accounts.antt =====
-- go/agent-runtime/workflow/execution.go, execution_advanced.go and compensation.go: the budget of a state is
-- what its effects hold and have cost, and stays within the policy.
use gaoge_agent_runtime.Prelude.{
  ℕ, ◌+◌, ◌-◌, ◌≤◌, String, true, false, Option, some, length, get_elem?, update_at, ◌≡◌, ◌⊎◌, inl,
  inr, refl, sym, ap, ◌∙◌, arith, trim_space, Bool-cases, Option-cases, if◌then◌else◌,
}
use mathlib.Core.Path.{subst}
use gaoge_agent_runtime.Prelude.Int.{
  ℤ, pos, negsuc, pos_part, is_negative, ◌+ℤ◌, ◌-ℤ◌, ◌≤ℤ◌, pos_add, pos_sub,
}
use gaoge_agent_runtime.Workflow.{Definition, Encoding}
use gaoge_agent_runtime.Execution.{
  Effect, EffectStatus, EffectResult, EffectDisposition, Answer, refused, observed,
  other_disposition, Compensation, View,
}
use gaoge_agent_runtime.Execution.Failing.{
  is_pending, put_effect, release_cost, schedule_effect_retry, mark_effect_failed,
}
use gaoge_agent_runtime.Execution.Outcomes.{
  Progress, fail_effect, retry_or_fail, complete_effect, bad_receipt, settle_result, settle_outcome,
  text_or,
}
use gaoge_agent_runtime.Execution.Sums.{
  sum_of, sum-update_at, sum-member, length-update_at, held, spent, unpriced,
}

-- A compensation whose limit is negative counts one.
abbrev pub unpriced_undo : Compensation → ℕ
unpriced_undo c = if is_negative c.call.max_cost_units then 1 else 0

pub record IsAccounted (d : Definition) (s : View) : Type 0 where
  pub frozen : s.definition ≡ d
  pub reserved : s.budget.cost_units_reserved ≡ pos (sum_of held s.effects)
  pub used : s.budget.cost_units_used ≡ pos (sum_of spent s.effects)
  pub counted : s.budget.effects ≡ length s.effects
  pub priced : sum_of unpriced s.effects ≡ 0
  pub undo_priced : sum_of unpriced_undo s.compensations ≡ 0
  pub affordable :
      pos (sum_of held s.effects + sum_of spent s.effects) ≤ℤ d.content.policy.max_cost_units
  pub room : pos (length s.effects) ≤ℤ d.content.limits.max_effects

le_trans_down : (a b : ℕ) (m : ℤ) → a ≤ b → pos b ≤ℤ m → pos a ≤ℤ m
le_trans_down a b (pos m) h k = omega arith
le_trans_down a b (negsuc m) h k = omega arith

pub disposition-cases :
    (o : EffectDisposition)
    → (o ≡ EffectDisposition.pending)
      ⊎ ((o ≡ EffectDisposition.completed)
          ⊎ ((o ≡ EffectDisposition.failed) ⊎ ((t : String) × (o ≡ other_disposition t))))
disposition-cases EffectDisposition.pending = inl refl
disposition-cases EffectDisposition.completed = inr (inl refl)
disposition-cases EffectDisposition.failed = inr (inr (inl refl))
disposition-cases (other_disposition t) = inr (inr (inr (t, refl)))

module _ (d : Definition) (s : View) (acc : IsAccounted d s) (i : ℕ) (e : Effect)
    (g : get_elem? s.effects i ≡ some e) where
  -- Another effect in the place of one, with the budget that this asks for.
  pub replaced-IsAccounted :
      (t : View) (x : Effect)
      → t.definition ≡ s.definition
      → t.effects ≡ update_at i (λ _. x) s.effects
      → t.compensations ≡ s.compensations
      → t.budget.effects ≡ s.budget.effects
      → is_negative x.max_cost_units ≡ false
      → (r u : ℕ) → t.budget.cost_units_reserved ≡ pos r
      → t.budget.cost_units_used ≡ pos u
      → r + held e ≡ sum_of held s.effects + held x
      → u + spent e ≡ sum_of spent s.effects + spent x
      → held x + spent x ≤ held e + spent e
      → IsAccounted d t
  replaced-IsAccounted t x same_definition same_effects same_undos same_count solid r u er eu hr hu
        le =
      let sh = sum-update_at held i e x s.effects g in
      let ss = sum-update_at spent i e x s.effects g in
      let sp = sum-update_at unpriced i e x s.effects g in
      let mp = sum-member unpriced i e s.effects g in
      let eh : sum_of held t.effects ≡ r = ap (sum_of held) same_effects ∙ omega (arith, sh, hr) in
      let es : sum_of spent t.effects ≡ u =
        ap (sum_of spent) same_effects ∙ omega (arith, ss, hu) in
      let ep : sum_of unpriced t.effects ≡ 0 =
        ap (sum_of unpriced) same_effects ∙ ground (arith, sp, mp, acc.priced) in
      let el : length t.effects ≡ length s.effects =
        ap length same_effects ∙ length-update_at i (λ _. x) s.effects in
      record {
        frozen = same_definition ∙ acc.frozen;
        reserved = er ∙ ap pos (sym eh);
        used = eu ∙ ap pos (sym es);
        counted = same_count ∙ acc.counted ∙ sym el;
        priced = ep;
        undo_priced = ap (sum_of unpriced_undo) same_undos ∙ acc.undo_priced;
        affordable =
            le_trans_down (sum_of held t.effects + sum_of spent t.effects)
              (sum_of held s.effects + sum_of spent s.effects) d.content.policy.max_cost_units
              (omega (arith, eh, es, hr, hu, le)) acc.affordable;
        room =
            le_trans_down (length t.effects) (length s.effects) d.content.limits.max_effects
              (omega (arith, el)) acc.room;
      }

  -- The limit of an effect is not negative.
  pub max-pos : e.max_cost_units ≡ pos (pos_part e.max_cost_units)
  max-pos =
      let m = sum-member unpriced i e s.effects g in
      elim (Bool-cases (is_negative e.max_cost_units)) [
        | inl n ↦ absurd (ground (arith, m, acc.priced))
        | inr n ↦ ground arith
      ]

  -- A change of an effect that leaves its status, its limit and its cost.
  pub put_effect-IsAccounted :
      (x : Effect)
      → x.status ≡ e.status
      → x.max_cost_units ≡ e.max_cost_units
      → x.cost_units ≡ e.cost_units
      → IsAccounted d (put_effect s i x)
  put_effect-IsAccounted x st mx cx =
      let h : held x ≡ held e = ground arith in
      let c : spent x ≡ spent e = ground arith in
      replaced-IsAccounted (put_effect s i x) x refl refl refl refl (ap is_negative (mx ∙ max-pos))
        (sum_of held s.effects) (sum_of spent s.effects) acc.reserved acc.used (omega (arith, h))
        (omega (arith, c)) (omega (arith, h, c))

  -- A pending effect that no longer is: its limit is released.
  released_lem :
      is_pending e.status ≡ true
      → s.budget.cost_units_reserved -ℤ e.max_cost_units ≡ pos (sum_of held s.effects - held e)
  released_lem p =
      let m = sum-member held i e s.effects g in
      let h : held e ≡ pos_part e.max_cost_units = ground arith in
      ap (λ z. z -ℤ e.max_cost_units) acc.reserved
      ∙ ap (λ z. pos (sum_of held s.effects) -ℤ z) (max-pos ∙ ap pos (sym h))
      ∙ pos_sub (sum_of held s.effects) (held e) m

  pub failed-IsAccounted :
      (x : Effect)
      → is_pending e.status ≡ true
      → x.status ≡ EffectStatus.failed
      → x.max_cost_units ≡ e.max_cost_units
      → IsAccounted d (release_cost (put_effect s i x) e.max_cost_units)
  failed-IsAccounted x p st mx =
      let m = sum-member held i e s.effects g in
      let h : held x ≡ 0 = ground arith in
      let c : spent x ≡ 0 = ground arith in
      let o : spent e ≡ 0 = ground arith in
      replaced-IsAccounted (release_cost (put_effect s i x) e.max_cost_units) x refl refl refl refl
        (ap is_negative (mx ∙ max-pos)) (sum_of held s.effects - held e) (sum_of spent s.effects)
        (released_lem p) acc.used (omega (arith, m, h)) (omega (arith, c, o)) (omega (arith, h, c))

  -- The handlers have the effect with its child set, `f`, while the state still has `e`.
  module _ (f : Effect) (st : f.status ≡ e.status) (mx : f.max_cost_units ≡ e.max_cost_units)
      (cx : f.cost_units ≡ e.cost_units) (p : is_pending e.status ≡ true) where
    pub mark_effect_failed-IsAccounted :
        (code cause : String) → IsAccounted d (mark_effect_failed s i f code cause)
    unfolding mark_effect_failed
    mark_effect_failed-IsAccounted code cause =
        let x = record f {
          status = EffectStatus.failed;
          error_code = trim_space code;
          error = cause;
        } in
        subst (λ z. IsAccounted d (release_cost (put_effect s i x) z)) (sym mx)
          (failed-IsAccounted x p refl mx)

    -- A receipt that is accepted costs no more than what the effect held.
    pub complete_effect-IsAccounted :
        (enc : Encoding) (r : EffectResult) (code error : String)
        → bad_receipt enc f r ≡ false
        → IsAccounted d (complete_effect s i f r code error)
    unfolding complete_effect bad_receipt
    complete_effect-IsAccounted enc r code error ok =
        let m = sum-member held i e s.effects g in
        let h : held e ≡ pos_part e.max_cost_units = ground arith in
        let o : spent e ≡ 0 = ground arith in
        let cost : r.cost_units ≡ pos (pos_part r.cost_units) = ground arith in
        let le : pos_part r.cost_units ≤ pos_part e.max_cost_units = ground (arith, max-pos, mx) in
        let x = record f {
          status = EffectStatus.completed;
          receipt_id = trim_space r.receipt_id;
          output = r.output;
          error_code = code;
          error = error;
          cost_units = r.cost_units;
        } in
        replaced-IsAccounted (complete_effect s i f r code error) x refl refl refl refl
          (ap is_negative (mx ∙ max-pos)) (sum_of held s.effects - held e)
          (sum_of spent s.effects + pos_part r.cost_units)
          (ap (λ z. s.budget.cost_units_reserved -ℤ z) mx ∙ released_lem p)
          (ap (λ z. z +ℤ r.cost_units) acc.used
            ∙ ap (λ z. pos (sum_of spent s.effects) +ℤ z) cost
            ∙ pos_add (sum_of spent s.effects) (pos_part r.cost_units))
          (omega (arith, m)) (omega (arith, o)) (omega (arith, le, h))

    pub fail_effect-IsAccounted :
        (w : Progress) (code detail cause : String)
        → w.state ≡ s
        → IsAccounted d (fail_effect w i f code detail cause).state
    unfolding fail_effect
    fail_effect-IsAccounted w code detail cause same =
        subst (λ v. IsAccounted d (mark_effect_failed v i f code detail)) (sym same)
          (mark_effect_failed-IsAccounted code detail)

    pub retry_or_fail-IsAccounted :
        (w : Progress) (code detail cause : String)
        → w.state ≡ s
        → IsAccounted d (retry_or_fail w i f code detail cause).state
    unfolding retry_or_fail schedule_effect_retry
    retry_or_fail-IsAccounted w code detail cause same =
        elim (Option-cases (schedule_effect_retry f code detail)) [
          | inl n ↦
              let q : (retry_or_fail w i f code detail cause).state
                  ≡ (fail_effect w i f code detail cause).state =
                ground arith in
              subst (IsAccounted d) (sym q) (fail_effect-IsAccounted w code detail cause same)
          | inr (x, n) ↦
              let q : (retry_or_fail w i f code detail cause).state ≡ put_effect s i x =
                ground (arith, same) in
              subst (IsAccounted d) (sym q)
                (put_effect-IsAccounted x (ground arith) (ground arith) (ground arith))
        ]

    pub settle_result-IsAccounted :
        (enc : Encoding) (ensure : Effect → Option String) (w : Progress) (r : EffectResult)
        → w.state ≡ s
        → IsAccounted d (settle_result enc ensure w i f r).state
    unfolding settle_result
    settle_result-IsAccounted enc ensure w r same = elim (disposition-cases r.disposition) [
      | inl q ↦
          let k : (settle_result enc ensure w i f r).state ≡ put_effect s i f =
            ground (arith, same) in
          subst (IsAccounted d) (sym k) (put_effect-IsAccounted f st mx cx)
      | inr (inl q) ↦ elim (Bool-cases (bad_receipt enc f r)) [
        | inl b ↦
            let k : (settle_result enc ensure w i f r).state
                ≡ (fail_effect w i f "workflow.effect_receipt" "invalid workflow execution"
                    "invalid workflow execution").state =
              ground arith in
            subst (IsAccounted d) (sym k) (
              fail_effect-IsAccounted w "workflow.effect_receipt" "invalid workflow execution"
                "invalid workflow execution" same)
        | inr b ↦
            let k : (settle_result enc ensure w i f r).state ≡ complete_effect s i f r "" "" =
              ground (arith, same) in
            subst (IsAccounted d) (sym k) (complete_effect-IsAccounted enc r "" "" b)
      ]
      | inr (inr (inl q)) ↦
          let k : (settle_result enc ensure w i f r).state
              ≡ (retry_or_fail w i f (text_or r.error_code "workflow.effect_failed")
                  (text_or r.error_detail "workflow effect failed")
                  "workflow effect failed").state =
            ground arith in
          subst (IsAccounted d) (sym k) (retry_or_fail-IsAccounted w _ _ _ same)
      | inr (inr (inr (o, q))) ↦
          let k : (settle_result enc ensure w i f r).state
              ≡ (fail_effect w i f "workflow.effect_result" "invalid workflow execution"
                  "invalid workflow execution").state =
            ground arith in
          subst (IsAccounted d) (sym k) (
            fail_effect-IsAccounted w "workflow.effect_result" "invalid workflow execution"
              "invalid workflow execution" same)
    ]

  -- One answer of the executor, for an effect that is pending.
  pub settle_outcome-IsAccounted :
      (enc : Encoding) (ensure : Effect → Option String) (w : Progress) (a : Answer)
      → is_pending e.status ≡ true
      → w.state ≡ s
      → IsAccounted d (settle_outcome enc ensure w i e a).state
  unfolding settle_outcome
  settle_outcome-IsAccounted enc ensure w (refused code cause) p same =
      retry_or_fail-IsAccounted e refl refl refl p w code cause cause same
  settle_outcome-IsAccounted enc ensure w (observed r) p same =
      let f = record e { child_run_id = trim_space r.child_run_id } in
      elim (Option-cases (ensure f)) [
        | inl n ↦
            let k : (settle_outcome enc ensure w i e (observed r)).state
                ≡ (settle_result enc ensure w i f r).state =
              ground arith in
            subst (IsAccounted d) (sym k)
              (settle_result-IsAccounted f refl refl refl p enc ensure w r same)
        | inr (cause, n) ↦
            let k : (settle_outcome enc ensure w i e (observed r)).state
                ≡ (retry_or_fail w i f "workflow.effect_relation" cause cause).state =
              ground arith in
            subst (IsAccounted d) (sym k) (
              retry_or_fail-IsAccounted f refl refl refl p w "workflow.effect_relation" cause cause
                same)
      ]
