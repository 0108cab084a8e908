-- ===== src/Execution/Repaying.antt =====
-- go/agent-runtime/workflow/compensation.go: the compensations keep the accounts.
use gaoge_agent_runtime.Prelude.{
  ℕ, ◌+◌, String, true, false, leb, some, [], ◌∷◌, length, get_elem?, trim_space, ◌≡◌, inl, inr,
  refl, ap, arith, Bool-cases, or_left, or_right,
}
use mathlib.Core.Path.{subst}
use gaoge_agent_runtime.Prelude.Int.{
  ℤ, pos, negsuc, pos_part, is_negative, leb_ℤ, ltb_ℤ, ◌+ℤ◌, ◌-ℤ◌, ◌≤ℤ◌,
}
use gaoge_agent_runtime.Workflow.{Definition, Encoding}
use gaoge_agent_runtime.Execution.{
  Effect, EffectDisposition, EffectResult, Answer, refused, observed, other_disposition,
  Compensation, CompensationStatus, View, Write, SegmentBudget,
}
use gaoge_agent_runtime.Execution.Failing.{
  is_pending, effect_index_by_id, schedule_effect_retry, mark_effect_failed, terminal_write,
  terminalize_failure,
}
use gaoge_agent_runtime.Execution.Outcomes.{complete_effect, bad_receipt, text_or}
use gaoge_agent_runtime.Execution.Undoing.{
  next_compensation_position, put_compensation, terminalize_compensation_failure,
  mark_compensation_failed, undo_effect, undo_exceeds, with_undo, unaffordable,
  prepare_compensation, retry_undo_or_fail, complete_undo, settle_undo, dispatch_compensation,
  run_compensations,
}
use gaoge_agent_runtime.Execution.Sums.{sum_of, sum-update_at, sum-member, held, spent, unpriced}
use gaoge_agent_runtime.Execution.Accounts.{
  unpriced_undo, put_effect-IsAccounted, mark_effect_failed-IsAccounted,
  complete_effect-IsAccounted,
}
use gaoge_agent_runtime.Execution.Reserving.{afford_lem, appended-IsAccounted}
use gaoge_agent_runtime.Execution.Soundness.{
  IsSound, IsFine, same-IsAccounted, option_elim, if_state,
}

room_lem : (m : ℤ) (n : ℕ) → leb_ℤ m (pos n) ≡ false → pos (n + 1) ≤ℤ m
room_lem (pos m) n h = ground arith
room_lem (negsuc m) n h = ground arith

disposition_elim :
    {B : Type 0} (P : B → Type 0) (o : EffectDisposition) (x y z : B) (f : String → B)
    → P x
    → P y
    → P z
    → ((t : String) → P (f t))
    → P (elim o [
      | EffectDisposition.pending ↦ x
      | EffectDisposition.completed ↦ y
      | EffectDisposition.failed ↦ z
      | other_disposition t ↦ f t
    ])
disposition_elim P EffectDisposition.pending x y z f a b c g = a
disposition_elim P EffectDisposition.completed x y z f a b c g = b
disposition_elim P EffectDisposition.failed x y z f a b c g = c
disposition_elim P (other_disposition t) x y z f a b c g = g t

status_elim :
    {B : Type 0} (P : B → Type 0) (o : CompensationStatus) (x y z w : B)
    → P x
    → P y
    → P z
    → P w
    → P (elim o [
      | CompensationStatus.pending ↦ x
      | CompensationStatus.running ↦ y
      | CompensationStatus.completed ↦ z
      | CompensationStatus.failed ↦ w
    ])
status_elim P CompensationStatus.pending x y z w a b c e = a
status_elim P CompensationStatus.running x y z w a b c e = b
status_elim P CompensationStatus.completed x y z w a b c e = c
status_elim P CompensationStatus.failed x y z w a b c e = e

module _ (d : Definition) where
  -- The failure of a state does not touch its accounts.
  terminal-IsSound :
      (s : View) (c : Compensation)
      → IsSound d s
      → IsSound d (terminalize_compensation_failure s c).state
  unfolding terminalize_compensation_failure terminal_write
  terminal-IsSound s c h = record {
    accounts =
        same-IsAccounted d s (terminalize_compensation_failure s c).state refl refl refl refl refl
          refl h.accounts;
    effect_ids = h.effect_ids;
  }

  -- A compensation is changed, but for its call.
  put_compensation-IsSound :
      (s : View) (i : ℕ) (c x : Compensation)
      → get_elem? s.compensations i ≡ some c
      → x.call ≡ c.call
      → IsSound d s
      → IsSound d (put_compensation s i x)
  put_compensation-IsSound s i c x g k h =
      let u = sum-update_at unpriced_undo i c x s.compensations g in
      let same : unpriced_undo x ≡ unpriced_undo c = ground (arith, k) in
      record {
        accounts = record {
          frozen = h.accounts.frozen;
          reserved = h.accounts.reserved;
          used = h.accounts.used;
          counted = h.accounts.counted;
          priced = h.accounts.priced;
          undo_priced = omega (arith, u, same, h.accounts.undo_priced);
          affordable = h.accounts.affordable;
          room = h.accounts.room;
        };
        effect_ids = h.effect_ids;
      }

  module _ (s : View) (i : ℕ) (c : Compensation) (g : get_elem? s.compensations i ≡ some c)
      (h : IsSound d s) where
    cost-pos : c.call.max_cost_units ≡ pos (pos_part c.call.max_cost_units)
    cost-pos =
        let m = sum-member unpriced_undo i c s.compensations g in
        elim (Bool-cases (is_negative c.call.max_cost_units)) [
          | inl n ↦ absurd (ground (arith, m, h.accounts.undo_priced))
          | inr n ↦ ground arith
        ]

    exceeds-room :
        undo_exceeds s c ≡ false
        → leb_ℤ s.definition.content.limits.max_effects (pos s.budget.effects) ≡ false
    unfolding undo_exceeds
    exceeds-room b = or_left _ _ b

    exceeds-cost :
        undo_exceeds s c ≡ false
        → ltb_ℤ
            (s.definition.content.policy.max_cost_units -ℤ c.call.max_cost_units)
            (s.budget.cost_units_used +ℤ s.budget.cost_units_reserved)
          ≡ false
    unfolding undo_exceeds
    exceeds-cost b = or_right _ _ b

    with_undo-IsSound : (id : String) → undo_exceeds s c ≡ false → IsSound d (with_undo s i c id)
    unfolding with_undo sum_of
    with_undo-IsSound id b =
        let x = record c { status = CompensationStatus.running; effect_id = id } in
        let e = undo_effect s c id in
        let r = pos_part c.call.max_cost_units in
        let p = put_compensation-IsSound s i c x g refl h in
        let m = s.definition.content.policy.max_cost_units in
        let cheap : ltb_ℤ (m -ℤ pos r) (pos (sum_of spent s.effects) +ℤ pos (sum_of held s.effects))
            ≡ false =
          subst
            (λ z.
              ltb_ℤ (m -ℤ z) (pos (sum_of spent s.effects) +ℤ pos (sum_of held s.effects)) ≡ false)
            cost-pos
            (subst
              (λ z. ltb_ℤ (m -ℤ c.call.max_cost_units) (z +ℤ pos (sum_of held s.effects)) ≡ false)
              h.accounts.used
              (subst
                (λ z. ltb_ℤ (m -ℤ c.call.max_cost_units) (s.budget.cost_units_used +ℤ z) ≡ false)
                h.accounts.reserved (exceeds-cost b))) in
        let solid : unpriced e ≡ 0 = ground (arith, cost-pos) in
        record {
          accounts =
              appended-IsAccounted d s (with_undo s i c id) (e ∷ []) r h.accounts refl refl
                p.accounts.undo_priced (omega arith) refl
                (ap (λ z. s.budget.cost_units_reserved +ℤ z) cost-pos) (omega arith) (omega arith)
                (omega (arith, solid))
                (subst
                  (λ z.
                    pos (sum_of held s.effects + r + sum_of spent s.effects)
                    ≤ℤ z.content.policy.max_cost_units)
                  h.accounts.frozen
                  (afford_lem m (sum_of spent s.effects) (sum_of held s.effects) r cheap))
                (subst (λ z. pos (length s.effects + 1) ≤ℤ z.content.limits.max_effects)
                  h.accounts.frozen
                  (subst (λ z. pos (z + 1) ≤ℤ s.definition.content.limits.max_effects)
                    h.accounts.counted
                    (room_lem s.definition.content.limits.max_effects s.budget.effects
                      (exceeds-room b))));
          effect_ids = h.effect_ids;
        }

    prepare-IsSound : (id : String) → IsSound d (prepare_compensation s i c id).state
    unfolding prepare_compensation
    prepare-IsSound id =
        if_state (IsSound d) (undo_exceeds s c) _ _
          (λ b.
            terminal-IsSound (put_compensation s i (unaffordable c)) (unaffordable c)
              (put_compensation-IsSound s i c (unaffordable c) g refl h))
          (λ b. with_undo-IsSound id b)

    module _ (k : ℕ) (e : Effect) (q : get_elem? s.effects k ≡ some e)
        (p : is_pending e.status ≡ true) where
      failed_undo-IsSound :
          (code cause : String) → IsSound d (mark_compensation_failed s i c k e code cause).state
      unfolding mark_compensation_failed
      failed_undo-IsSound code cause =
          let x = record c {
            status = CompensationStatus.failed;
            error_code = trim_space code;
            error = cause;
          } in
          let t = put_compensation-IsSound s i c x g refl h in
          terminal-IsSound (mark_effect_failed (put_compensation s i x) k e code cause) x (record {
            accounts =
                mark_effect_failed-IsAccounted d (put_compensation s i x) t.accounts k e q e refl
                  refl refl p code cause;
            effect_ids = t.effect_ids;
          })

      retry_undo-IsSound :
          (code cause : String) → IsSound d (retry_undo_or_fail s i c k e code cause).state
      unfolding retry_undo_or_fail schedule_effect_retry
      retry_undo-IsSound code cause =
          option_elim (λ (w : Write). IsSound d w.state) (schedule_effect_retry e code cause) _ _
            (λ n. failed_undo-IsSound code cause)
            (λ x n. record {
              accounts =
                  put_effect-IsAccounted d s h.accounts k e q x (ground arith) (ground arith)
                    (ground arith);
              effect_ids = h.effect_ids;
            })

      complete_undo-IsSound :
          (enc : Encoding) (r : EffectResult)
          → bad_receipt enc e r ≡ false
          → IsSound d (complete_undo s i c k e r)
      unfolding complete_undo complete_effect
      complete_undo-IsSound enc r b =
          let t = complete_effect s k e r e.error_code e.error in
          put_compensation-IsSound t i c
            (record c {
              status = CompensationStatus.completed;
              receipt_id = trim_space r.receipt_id;
            })
            g refl
            (record {
              accounts =
                  complete_effect-IsAccounted d s h.accounts k e q e refl refl refl p enc r
                    e.error_code e.error b;
              effect_ids = h.effect_ids;
            })

      settle_undo-IsSound :
          (enc : Encoding) (a : Answer) → IsSound d (settle_undo enc s i c k e a).state
      unfolding settle_undo
      settle_undo-IsSound enc (refused code cause) =
          retry_undo-IsSound "workflow.compensation_dispatch" cause
      settle_undo-IsSound enc (observed r) =
          disposition_elim (λ (w : Write). IsSound d w.state) r.disposition _ _ _ _ h
            (if_state (IsSound d) (bad_receipt enc e r) _ _
              (λ b.
                failed_undo-IsSound "workflow.compensation_receipt" "invalid workflow execution")
              (λ b. complete_undo-IsSound enc r b))
            (retry_undo-IsSound (text_or r.error_code "workflow.compensation_failed")
              (text_or r.error_detail "workflow effect failed"))
            (λ t. failed_undo-IsSound "workflow.compensation_receipt" "invalid workflow execution")

    dispatch-IsSound :
        (enc : Encoding) (execute : Effect → Answer) (segment : SegmentBudget)
        → IsSound d (dispatch_compensation enc execute s i c segment).state
    unfolding dispatch_compensation
    dispatch-IsSound enc execute segment =
        if_state (IsSound d) (leb 1 segment.effects) _ _ (λ b. h)
          (λ b.
            option_elim (λ (w : Write). IsSound d w.state)
              (effect_index_by_id s.effects c.effect_id) _ _ (λ n. terminal-IsSound s c h)
              (λ k n.
                option_elim (λ (w : Write). IsSound d w.state) (get_elem? s.effects k) _ _
                  (λ q. terminal-IsSound s c h)
                  (λ e q.
                    if_state (IsSound d) (is_pending e.status) _ _
                      (λ p. settle_undo-IsSound k e q p enc (execute e))
                      (λ p. terminal-IsSound s c h))))

  pub run_compensations-IsFine :
      (enc : Encoding) (execute : Effect → Answer) (s : View) (id : String)
      (segment : SegmentBudget)
      → IsSound d s
      → IsFine d (run_compensations enc execute s id segment)
  unfolding run_compensations terminalize_failure terminal_write IsFine
  run_compensations-IsFine enc execute s id segment h =
      option_elim (IsFine d) (next_compensation_position s.compensations) _ _
        (λ n. option_elim (IsFine d) s.failure _ _ (λ f. tt) (λ f e. h))
        (λ i n.
          option_elim (IsFine d) (get_elem? s.compensations i) _ _ (λ g. tt)
            (λ c g.
              status_elim (IsFine d) c.status _ _ _ _ (prepare-IsSound s i c g h id)
                (dispatch-IsSound s i c g h enc execute segment) (terminal-IsSound s c h)
                (terminal-IsSound s c h)))
