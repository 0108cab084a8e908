-- ===== src/Execution/Closing.antt =====
-- go/agent-runtime/workflow/execution_advanced.go: the end of an activation keeps the accounts.
use gaoge_agent_runtime.Prelude.{
  ℕ, ◌+◌, String, true, false, Option, none, some, [], ◌∷◌, ◌++◌, ◌≡◌, refl, ◌∙◌, arith, Result, ok,
  err,
}
use mathlib.Core.Path.{subst}
use gaoge_agent_runtime.Prelude.Int.{is_negative}
use gaoge_agent_runtime.Kernel.{RunStatus}
use gaoge_agent_runtime.Workflow.{Definition, Encoding, Node, CompensationNode}
use gaoge_agent_runtime.Workflow.Successors.{next_node_index, is_compensation}
use gaoge_agent_runtime.Execution.{Activation, Compensation, View, Write, Reader}
use gaoge_agent_runtime.Execution.Failing.{begin_failure, abort_activation_effects}
use gaoge_agent_runtime.Execution.Finishing.{
  put_activation, undo_input, undo_of, register_undo, register_compensation, move_on,
  completed_activation, finish_effect_activation, failed_activation,
}
use gaoge_agent_runtime.Execution.Sums.{sum_of, sum-append}
use gaoge_agent_runtime.Execution.Accounts.{unpriced_undo}
use gaoge_agent_runtime.Execution.Soundness.{
  IsSound, same-IsAccounted, begin_failure-IsSound, put_activation-IsSound, abort-IsSound,
  option_elim, result_elim, if_elim,
}

undo_sum :
    (total : ℕ) (u : Compensation)
    → total ≡ 0
    → is_negative u.call.max_cost_units ≡ false
    → total + sum_of unpriced_undo (u ∷ []) ≡ 0
unfolding sum_of
undo_sum total u h k = ground arith

-- The undo of a compensation node does not cost less than nothing.
unfoldable pub IsPricedNode : Node → Type 0
IsPricedNode n =
    is_compensation n.node_type ≡ true
    → (c : CompensationNode) → n.compensation ≡ some c
    → is_negative c.undo_call.max_cost_units ≡ false

module _ (d : Definition) (enc : Encoding) (reader : Reader) (n : Node)
    (priced : IsPricedNode n) where
  IsSoundState : Result String View → Type 0
  IsSoundState (err e) = Unit
  IsSoundState (ok s) = IsSound d s

  register_undo-IsSound :
      (s : View) (output : String) (id : Result String String) (o : Option CompensationNode)
      → is_compensation n.node_type ≡ true
      → n.compensation ≡ o
      → IsSound d s
      → IsSoundState (register_undo enc reader s n output id o)
  unfolding register_undo IsSoundState IsPricedNode
  register_undo-IsSound s output id none b e h = tt
  register_undo-IsSound s output id (some c) b e h =
      result_elim IsSoundState (undo_input enc reader s n c output) _ _ (λ x. tt)
        (λ input q.
          result_elim IsSoundState id _ _ (λ x. tt)
            (λ name r.
              let u = undo_of enc reader name n c input in
              let solid : is_negative c.undo_call.max_cost_units ≡ false = priced b c e in
              let t = record s { compensations = s.compensations ++ (u ∷ []) } in
              let none_unpriced : sum_of unpriced_undo (s.compensations ++ (u ∷ [])) ≡ 0 =
                sum-append unpriced_undo s.compensations (u ∷ [])
                ∙ undo_sum (sum_of unpriced_undo s.compensations) u h.accounts.undo_priced solid in
              record {
                accounts = record {
                  frozen = h.accounts.frozen;
                  reserved = h.accounts.reserved;
                  used = h.accounts.used;
                  counted = h.accounts.counted;
                  priced = h.accounts.priced;
                  undo_priced = none_unpriced;
                  affordable = h.accounts.affordable;
                  room = h.accounts.room;
                };
                effect_ids = h.effect_ids;
              }))

  register-IsSound :
      (s : View) (output : String) (id : Result String String)
      → IsSound d s
      → IsSoundState (register_compensation enc reader s n output id)
  unfolding register_compensation IsSoundState
  register-IsSound s output id h =
      if_elim IsSoundState (is_compensation n.node_type) _ _
        (λ b. register_undo-IsSound s output id n.compensation b refl h) (λ b. h)

  move_on-IsSound :
      (s : View) (id : String) → IsSound d s → IsSound d (move_on enc reader s n id).state
  unfolding move_on
  move_on-IsSound s id h =
      option_elim (λ (w : Write). IsSound d w.state)
        (next_node_index s.definition.content.nodes s.current_node n) _ _
        (λ e.
          begin_failure-IsSound d s RunStatus.failed "workflow.next_invalid"
            "invalid workflow execution" h)
        (λ next e. record {
          accounts =
              same-IsAccounted d s (record s { current_node = next }) refl refl refl refl refl refl
                h.accounts;
          effect_ids = h.effect_ids;
        })

  pub finish-IsSound :
      (s : View) (i : ℕ) (a : Activation) (output : String) (id : Result String String)
      → IsSound d s
      → IsSound d (finish_effect_activation enc reader s n i a output id).state
  unfolding finish_effect_activation IsSoundState
  finish-IsSound s i a output id h =
      let t = put_activation s i (completed_activation enc reader output) in
      let done =
        put_activation-IsSound d s i (completed_activation enc reader output) (λ x. refl) h in
      let registered = register-IsSound t output id done in
      result_elim (λ (w : Write). IsSound d w.state)
        (register_compensation enc reader t n output id) _ _
        (λ e. begin_failure-IsSound d t RunStatus.failed "workflow.compensation_register" e done)
        (λ r q. move_on-IsSound r a.id (subst IsSoundState q registered))

  -- A failed activation, and its effects aborted.
  pub aborted-IsSound :
      (s : View) (i : ℕ) (a : Activation) (code detail cause : String)
      → IsSound d s
      → IsSound d
          (begin_failure
            (abort_activation_effects
              (put_activation s i (failed_activation enc reader code detail))
              a.effect_ids)
            RunStatus.failed
            code
            cause).state
  aborted-IsSound s i a code detail cause h =
      let t = put_activation s i (failed_activation enc reader code detail) in
      begin_failure-IsSound d (abort_activation_effects t a.effect_ids) RunStatus.failed code cause
        (abort-IsSound d t a.effect_ids
          (put_activation-IsSound d s i (failed_activation enc reader code detail) (λ x. refl) h))
