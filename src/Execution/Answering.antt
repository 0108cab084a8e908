-- ===== src/Execution/Answering.antt =====
-- go/agent-runtime/workflow/execution_advanced.go: a batch of effects keeps the accounts.
use gaoge_agent_runtime.Prelude.{
  ℕ, String, Bool, false, leb, none, List, [], ◌∷◌, map, get_elem?, ◌≡◌, refl, sym, ap, ◌∙◌, arith,
  ok, All, Result,
}
use mathlib.Core.Path.{subst}
use gaoge_agent_runtime.Workflow.{Definition, Node}
use gaoge_agent_runtime.Execution.{Activation, Effect, EffectOutcome, View, SegmentBudget}
use gaoge_agent_runtime.Execution.Outcomes.{Progress, settle_outcomes}
use gaoge_agent_runtime.Execution.Finishing.{
  pending_effect_indices, aggregate_effect_outputs, conclude, judge, apply_effect_outcomes,
}
use gaoge_agent_runtime.Execution.Advancing.{
  Host, execute_effect_batch, activation_index, advance_activation, advance_node_effects,
}
use gaoge_agent_runtime.Execution.Indices.{
  IsDistinct, IsPendingAt, indices-IsDistinct, indices-IsPendingAt,
}
use gaoge_agent_runtime.Execution.Settling.{
  settle_outcomes-IsAccounted, settle_outcomes-activations,
}
use gaoge_agent_runtime.Execution.Soundness.{
  HasDistinct, IsSound, IsFine, All-member, option_elim, result_elim, bind_elim, if_elim, list_elim,
}
use gaoge_agent_runtime.Execution.Closing.{IsPricedNode, finish-IsSound, aborted-IsSound}

-- The outcomes of a batch are those of its positions.
batch_lem :
    (h : Host) (es : List Effect) (is : List ℕ)
    → All (IsPendingAt es) is
    → (map (λ (o : EffectOutcome). o.effect_index) (execute_effect_batch h es is) ≡ is)
      × All (λ (o : EffectOutcome). IsPendingAt es o.effect_index) (execute_effect_batch h es is)
unfolding execute_effect_batch IsPendingAt
batch_lem h es [] a = (refl, tt)
batch_lem h es (i ∷ is) a =
    let rest = batch_lem h es is a.1 in
    let e = a.0.0 in
    let q : execute_effect_batch h es (i ∷ is)
        ≡ record { effect_index = i; answer = h.execute e } ∷ execute_effect_batch h es is =
      ground (arith, a.0.1) in
    (
      ap (map (λ (o : EffectOutcome). o.effect_index)) q ∙ ap (λ l. i ∷ l) rest.0,
      subst (All (λ (o : EffectOutcome). IsPendingAt es o.effect_index)) (sym q) (a.0, rest.1),
    )

module _ (d : Definition) (h : Host) (n : Node) (priced : IsPricedNode n) where
  conclude-IsFine :
      (s : View) (retried : Bool) (i : ℕ) (a : Activation) (id : Result String String)
      → IsSound d s
      → IsFine d (conclude h.enc h.reader s retried n i a id)
  unfolding conclude IsFine
  conclude-IsFine s retried i a id k =
      result_elim (IsFine d) (pending_effect_indices s.effects a.effect_ids) _ _ (λ e. tt)
        (λ is e.
          list_elim (IsFine d) is _ _
            (λ q.
              result_elim (IsFine d)
                (aggregate_effect_outputs h.enc h.reader s.effects n a.effect_ids) _ _
                (λ x.
                  aborted-IsSound d h.enc h.reader n priced s i a "workflow.effect_output"
                    "invalid workflow execution"
                    "workflow effect failed\ninvalid workflow execution" k)
                (λ output x. finish-IsSound d h.enc h.reader n priced s i a output id k))
            (λ p ps q. k))

  judge-IsFine :
      (p : Progress) (i : ℕ) (a : Activation) (id : Result String String)
      → IsSound d p.state
      → IsFine d (judge h.enc h.reader p n i a id)
  unfolding judge IsFine
  judge-IsFine p i a id k =
      option_elim (IsFine d) p.failure _ _ (λ e. conclude-IsFine p.state p.retry_scheduled i a id k)
        (λ f e. aborted-IsSound d h.enc h.reader n priced p.state i a f.0 f.1 _ k)

  advance_activation-IsFine :
      (s : View) (i : ℕ) (a : Activation) (segment : SegmentBudget)
      → IsSound d s
      → HasDistinct a
      → IsFine d (advance_activation h s n i a segment)
  unfolding advance_activation apply_effect_outcomes IsFine
  advance_activation-IsFine s i a segment k u =
      result_elim (IsFine d) (pending_effect_indices s.effects a.effect_ids) _ _ (λ e. tt)
        (λ is e.
          list_elim (IsFine d) is _ _
            (λ q.
              bind_elim (IsFine d)
                (aggregate_effect_outputs h.enc h.reader s.effects n a.effect_ids) _ (λ x. tt)
                (λ output x.
                  finish-IsSound d h.enc h.reader n priced s i a output h.new_compensation k))
            (λ p ps q.
              let all : All (IsPendingAt s.effects) (p ∷ ps) =
                indices-IsPendingAt s.effects a.effect_ids (p ∷ ps) (e ∙ ap ok q) in
              let apart : IsDistinct (p ∷ ps) =
                indices-IsDistinct s.effects a.effect_ids (p ∷ ps) (e ∙ ap ok q) u in
              let batch = batch_lem h s.effects (p ∷ ps) all in
              let start : Progress = record {
                state = s;
                failure = none;
                retry_scheduled = false;
              } in
              let os = execute_effect_batch h s.effects (p ∷ ps) in
              if_elim (IsFine d) (leb 1 segment.effects) _ _ (λ b. k)
                (λ b.
                  bind_elim (IsFine d) (settle_outcomes h.enc h.ensure start os) _ (λ x. tt)
                    (λ w x. judge-IsFine w i a h.new_compensation (record {
                      accounts =
                          settle_outcomes-IsAccounted h.enc h.ensure d start w os k.accounts
                            (subst IsDistinct (sym batch.0) apart) batch.1 x;
                      effect_ids =
                          subst (All HasDistinct)
                            (sym (settle_outcomes-activations h.enc h.ensure start w os x))
                            k.effect_ids;
                    })))))

  pub advance_node_effects-IsFine :
      (s : View) (segment : SegmentBudget)
      → IsSound d s
      → IsFine d (advance_node_effects h s n segment)
  unfolding advance_node_effects IsFine
  advance_node_effects-IsFine s segment k =
      option_elim (IsFine d) (activation_index s.activations s.current_node) _ _ (λ e. tt)
        (λ i e.
          option_elim (IsFine d) (get_elem? s.activations i) _ _ (λ g. tt)
            (λ a g.
              advance_activation-IsFine s i a segment k
                (All-member HasDistinct i a s.activations g k.effect_ids)))
