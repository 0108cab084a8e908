-- ===== src/Execution/Budgeting.antt =====
-- go/agent-runtime/workflow/execution.go: an execution stays within the budget of its Definition.
use gaoge_agent_runtime.Prelude.{
  ℕ, ◌==◌, String, Bool, true, some, List, [], ◌∷◌, get_elem?, not, ◌≡◌, ◌⊎◌, refl, sym, ap, ◌∙◌,
  arith, Result, ok, err, if◌then◌else◌, All, and_left, and_right,
}
use mathlib.Core.Path.{subst}
use gaoge_agent_runtime.Prelude.Int.{ℤ, pos, negsuc, is_negative, is_positive, leb_ℤ, ◌≤ℤ◌}
use gaoge_agent_runtime.Kernel.{RunStatus}
use gaoge_agent_runtime.Workflow.{
  Definition, DefinitionDraft, Encoding, Node, NodeType, node_if, node_wait, node_return,
}
use gaoge_agent_runtime.Workflow as Workflow
use gaoge_agent_runtime.Workflow.Validation.{valid_definition_nodes}
use gaoge_agent_runtime.Workflow.Compiling.{
  valid_limits, valid_definition_policy, valid_definition_envelope, validate_definition_draft,
  compile_definition,
}
use gaoge_agent_runtime.Workflow.Canonical.{IsEncoding}
use gaoge_agent_runtime.Workflow.Frozen.{compile-IsCompiled}
use gaoge_agent_runtime.Workflow.Paths.{valid_nodes-undo}
use gaoge_agent_runtime.Workflow.Successors.{next_node_index}
use gaoge_agent_runtime.Execution.{Error, Activation, Wait, View, Write, SegmentBudget}
use gaoge_agent_runtime.Execution.Plans.{node_has_effects, effect_plans_for_node}
use gaoge_agent_runtime.Execution.Starting.{prepare_node_effects}
use gaoge_agent_runtime.Execution.Advancing.{
  Host, activation_index, activation_index_by_id, wait_index_by_id, start_plain_node, start_node,
  activate_node, advance, segment_step, begin_segment, resolve_wait_at, resolve_wait_state, Loaded,
  valid_pending_wait, resolve_wait, cancel, new_state, Call, round, begin, respond, abandon,
  state_or, begun, call, run_calls,
}
use gaoge_agent_runtime.Execution.Sums.{sum_of}
use gaoge_agent_runtime.Execution.Accounts.{IsAccounted}
use gaoge_agent_runtime.Execution.Soundness.{
  HasDistinct, IsSound, IsFine, All-update_at, same-IsAccounted, begin_failure-IsSound, option_elim,
  bind_elim, if_elim,
}
use gaoge_agent_runtime.Execution.Activating.{
  failing-IsSound, prepare_planned-IsSound, prepare_wait-IsSound, execute_if-IsFine,
  complete-IsSound,
}
use gaoge_agent_runtime.Execution.Closing.{IsPricedNode}
use gaoge_agent_runtime.Execution.Answering.{advance_node_effects-IsFine}
use gaoge_agent_runtime.Execution.Repaying.{run_compensations-IsFine}

-- The new identifiers of the effects of an activation are not two alike.
abbrev IsFresh : Host → Type 0
IsFresh h = (i j : ℕ) → h.new_id "effect" i ≡ h.new_id "effect" j → i ≡ j

unfoldable pub IsFreshCall : Call → Type 0
IsFreshCall (round h segment) = IsFresh h
IsFreshCall _ = Unit

-- Every node of the Definition has a priced undo.
IsPriced : Definition → Type 0
IsPriced d = (i : ℕ) (n : Node) → get_elem? d.content.nodes i ≡ some n → IsPricedNode n

module _ (d : Definition) where
  module _ (h : Host) (s : View) (k : IsSound d s) where
    plain-IsFine : (n : Node) (t : NodeType) → IsFine d (start_plain_node h s n t)
    unfolding start_plain_node IsFine
    plain-IsFine n node_if =
        option_elim (IsFine d) n.if_node _ _ (λ e. tt)
          (λ b e. execute_if-IsFine d s k n h.enc h.reader b (h.new_id "activation" 0))
    plain-IsFine n node_wait =
        option_elim (IsFine d) n.wait _ _ (λ e. tt)
          (λ w e.
            prepare_wait-IsSound d s k n h.enc h.reader w (h.new_id "activation" 0)
              (h.new_id "wait" 0))
    plain-IsFine n node_return =
        option_elim (IsFine d) n.return_node _ _ (λ e. tt)
          (λ r e. complete-IsSound d s k n h.enc h.reader h.accepts r (h.new_id "activation" 0))
    plain-IsFine n _ = failing-IsSound d s k "workflow.node_invalid" "invalid workflow execution"

    start-IsFine : IsFresh h → (n : Node) → IsFine d (start_node h s n)
    unfolding start_node prepare_node_effects IsFine
    start-IsFine fresh n =
        if_elim (IsFine d) (node_has_effects n.node_type) _ _
          (λ b.
            prepare_planned-IsSound d s k n (h.new_id "activation" 0) (h.new_id "effect") fresh
              (effect_plans_for_node h.enc h.reader s n))
          (λ b. plain-IsFine n n.node_type)

    activate-IsFine :
        IsFresh h → (n : Node) (segment : SegmentBudget) → IsFine d (activate_node h s n segment)
    unfolding activate_node IsFine
    activate-IsFine fresh n segment =
        if_elim (IsFine d)
          (leb_ℤ s.definition.content.limits.max_activations_per_segment (pos segment.activations))
          _ _ (λ b. k)
          (λ b.
            if_elim (IsFine d)
              (leb_ℤ s.definition.content.limits.max_node_activations
                (pos s.budget.node_activations))
              _ _
              (λ c. failing-IsSound d s k "workflow.activation_budget" "workflow budget exceeded")
              (λ c. start-IsFine fresh n))

    advance-IsFine :
        IsFresh h → IsPriced d → (segment : SegmentBudget) → IsFine d (advance h s segment)
    unfolding advance IsFine IsPriced
    advance-IsFine fresh priced segment =
        option_elim (IsFine d) (get_elem? s.definition.content.nodes s.current_node) _ _
          (λ g. failing-IsSound d s k "workflow.node_out_of_range" "invalid workflow execution")
          (λ n g.
            option_elim (IsFine d) (activation_index s.activations s.current_node) _ _
              (λ e. activate-IsFine fresh n segment)
              (λ i e.
                if_elim (IsFine d) (node_has_effects n.node_type) _ _
                  (λ b.
                    advance_node_effects-IsFine d h n
                      (priced s.current_node n (
                        ap (λ x. get_elem? x.content.nodes s.current_node) (sym k.accounts.frozen)
                        ∙ g))
                      s segment k)
                  (λ b. tt)))

    segment-IsFine :
        IsFresh h → IsPriced d → (segment : SegmentBudget) → IsFine d (segment_step h s segment)
    unfolding segment_step
    segment-IsFine fresh priced segment =
        option_elim (IsFine d) s.failure _ _ (λ e. advance-IsFine fresh priced segment)
          (λ f e. run_compensations-IsFine d h.enc h.execute s (h.new_id "effect" 0) segment k)

  fine-IsSound :
      (s : View) (r : Result Error Write) → IsSound d s → IsFine d r → IsSound d (state_or s r)
  unfolding IsFine
  fine-IsSound s (err e) k f = k
  fine-IsSound s (ok w) k f = f

  begin-IsSound : (s : View) → IsSound d s → IsSound d (begun (begin_segment s))
  unfolding begin_segment
  begin-IsSound s k =
      if_elim (λ (o : Write ⊎ View). IsSound d (begun o))
        (leb_ℤ s.definition.content.limits.max_segments (pos s.budget.segments)) _ _
        (λ b. failing-IsSound d s k "workflow.segment_budget" "workflow budget exceeded")
        (λ b. record {
          accounts = same-IsAccounted d s _ refl refl refl refl refl refl k.accounts;
          effect_ids = k.effect_ids;
        })

  IsFineState : Result Error View → Type 0
  IsFineState (err e) = Unit
  IsFineState (ok s) = IsSound d s

  resolve_at-IsFine :
      (s : View) (i : ℕ) (w : Wait) (j : ℕ) (a : Activation) (response : String)
      → IsSound d s
      → IsFineState (resolve_wait_at s i w j a response)
  unfolding resolve_wait_at IsFineState
  resolve_at-IsFine s i w j a response k =
      option_elim IsFineState (get_elem? s.definition.content.nodes a.node_index) _ _ (λ g. tt)
        (λ n g.
          option_elim IsFineState (next_node_index s.definition.content.nodes s.current_node n) _ _
            (λ e. tt)
            (λ next e. record {
              accounts = same-IsAccounted d s _ refl refl refl refl refl refl k.accounts;
              effect_ids = All-update_at HasDistinct j _ s.activations (λ x y. y) k.effect_ids;
            }))

  resolve_state-IsFine :
      (s : View) (response : String) → IsSound d s → IsFineState (resolve_wait_state s response)
  unfolding resolve_wait_state IsFineState
  resolve_state-IsFine s response k =
      option_elim IsFineState (wait_index_by_id s.waits s.current_wait_id) _ _ (λ e. tt)
        (λ i e.
          option_elim IsFineState (get_elem? s.waits i) _ _ (λ g. tt)
            (λ w g.
              option_elim IsFineState (activation_index_by_id s.activations w.activation_id) _ _
                (λ q. tt)
                (λ j q.
                  option_elim IsFineState (get_elem? s.activations j) _ _ (λ v. tt)
                    (λ a v. resolve_at-IsFine s i w j a response k))))

  resolve-IsFine :
      (enc : Encoding) (l : Loaded) (expected : ℕ) (response : String)
      → IsSound d l.state
      → IsFine d (resolve_wait enc l expected response)
  unfolding resolve_wait IsFine IsFineState
  resolve-IsFine enc l expected response k =
      if_elim (IsFine d) (not (enc.valid response)) _ _ (λ b. tt)
        (λ b.
          if_elim (IsFine d) (not (l.revision == expected)) _ _ (λ c. tt)
            (λ c.
              if_elim (IsFine d) (not (valid_pending_wait l)) _ _ (λ w. tt)
                (λ w.
                  bind_elim (IsFine d) (resolve_wait_state l.state response) _ (λ e. tt)
                    (λ t e. subst IsFineState e (resolve_state-IsFine l.state response k)))))

  call-IsSound :
      (s : View) (c : Call) → IsPriced d → IsFreshCall c → IsSound d s → IsSound d (call s c)
  unfolding call cancel IsFreshCall
  call-IsSound s (round h segment) priced fresh k =
      fine-IsSound s (segment_step h s segment) k (segment-IsFine h s k fresh priced segment)
  call-IsSound s begin priced fresh k = begin-IsSound s k
  call-IsSound s (respond enc revision status checkpoint expected response) priced fresh k =
      fine-IsSound s _ k (
        resolve-IsFine enc
          (record { revision = revision; status = status; checkpoint = checkpoint; state = s })
          expected response k)
  call-IsSound s (abandon reason) priced fresh k =
      begin_failure-IsSound d s RunStatus.cancelled "workflow.cancelled" _ k

  run_calls-IsSound :
      (s : View) (cs : List Call)
      → IsPriced d
      → All IsFreshCall cs
      → IsSound d s
      → IsSound d (run_calls s cs)
  unfolding run_calls
  run_calls-IsSound s [] priced fresh k = k
  run_calls-IsSound s (c ∷ cs) priced fresh k =
      run_calls-IsSound (call s c) cs priced fresh.1 (call-IsSound s c priced fresh.0 k)

accepted : (b : Bool) → (if b then ok tt else err Workflow.invalid_definition) ≡ ok tt → b ≡ true
accepted b h = ground arith

positive_lem : (x : ℤ) → is_positive x ≡ true → pos 0 ≤ℤ x
positive_lem (pos n) h = omega arith
positive_lem (negsuc n) h = ground arith

solid_lem : (x : ℤ) → not (is_negative x) ≡ true → pos 0 ≤ℤ x
solid_lem (pos n) h = omega arith
solid_lem (negsuc n) h = ground arith

-- What the check of a draft says of its limits.
checked-limits :
    (enc : Encoding) (c : DefinitionDraft)
    → validate_definition_draft enc c ≡ ok tt
    → (valid_definition_envelope enc c ≡ true)
      × (valid_definition_nodes enc c.nodes c.limits ≡ true)
unfolding validate_definition_draft
checked-limits enc c h =
    let all = accepted _ h in (and_left _ _ (and_left _ _ (and_left _ _ all)), and_right _ _ all)

max_effects-positive :
    (enc : Encoding) (c : DefinitionDraft)
    → valid_definition_envelope enc c ≡ true
    → (pos 0 ≤ℤ c.limits.max_effects) × (pos 0 ≤ℤ c.policy.max_cost_units)
unfolding valid_definition_envelope valid_limits valid_definition_policy
max_effects-positive enc c h = (
  positive_lem c.limits.max_effects (
      and_right _ _ (
        and_left _ _ (
          and_left _ _ (
            and_left _ _ (
              and_left _ _ (
                and_left _ _ (
                  and_left _ _ (
                    and_left _ _
                      (and_left _ _ (and_left _ _ (and_right _ _ (and_left _ _ h)))))))))))),
  solid_lem c.policy.max_cost_units (and_right _ _ (and_right _ _ h)),
)

new-IsSound :
    (enc : Encoding) (d : Definition) (input : String) (depth : ℕ)
    → valid_definition_envelope enc d.content ≡ true
    → IsSound d (new_state d input depth)
unfolding sum_of
new-IsSound enc d input depth h =
    let m = max_effects-positive enc d.content h in
    record {
      accounts = record {
        frozen = refl;
        reserved = refl;
        used = refl;
        counted = refl;
        priced = refl;
        undo_priced = refl;
        affordable = omega (arith, m.1);
        room = m.0;
      };
      effect_ids = tt;
    }

-- An execution of a compiled Definition stays within its budget, whatever the executor answers, however the
-- Run is cut into segments, resolved and cancelled, while the effects of an activation get different
-- identifiers: what is reserved is what the pending effects may cost, what is used is what the completed
-- ones have cost, both together are at most the policy's limit, and no more effects exist than it allows.
pub compiled-IsAccounted :
    (enc : Encoding) (law : IsEncoding enc) (draft : DefinitionDraft) (d : Definition)
    → compile_definition enc draft ≡ ok d
    → (input : String) (depth : ℕ) (cs : List Call) → All IsFreshCall cs
    → IsAccounted d (run_calls (new_state d input depth) cs)
unfolding IsPriced IsPricedNode
compiled-IsAccounted enc law draft d h input depth cs fresh =
    let c = compile-IsCompiled enc law draft d h in
    let v : validate_definition_draft enc d.content ≡ ok tt =
      subst (λ x. validate_definition_draft enc x ≡ ok tt) (sym c.content) c.valid in
    let checked = checked-limits enc d.content v in
    (run_calls-IsSound d (new_state d input depth) cs
      (valid_nodes-undo enc d.content.limits d.content.nodes checked.1) fresh
      (new-IsSound enc d input depth checked.0)).accounts
