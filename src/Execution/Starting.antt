-- ===== src/Execution/Starting.antt =====
-- go/agent-runtime/workflow/execution.go and execution_advanced.go: the activation of a node. New identifiers
-- are arguments; here one that cannot be made ends a handler without a write.
use Prim.Native.String.{◌++◌ as join}
use gaoge_agent_runtime.Prelude.{
  ℕ, suc, ◌+◌, String, Bool, true, false, not, ◌||◌, Option, none, some, List, [], ◌∷◌, ◌++◌, map,
  length, text_eq, if◌then◌else◌, Result, ok, err,
}
use gaoge_agent_runtime.Prelude.Int.{ℤ, pos, is_negative, ltb_ℤ, ◌+ℤ◌, ◌-ℤ◌}
use gaoge_agent_runtime.Kernel.{RunStatus}
use gaoge_agent_runtime.Workflow.{Encoding, Node, NodeType, node_map, IfNode, WaitNode, ReturnNode}
use gaoge_agent_runtime.Workflow.Successors.{node_index_by_id, branch_target}
use gaoge_agent_runtime.Execution.{
  Error, invalid_execution, Activation, ActivationStatus, Effect, EffectStatus, Wait, WaitStatus,
  View, Write, Reader, kept, waits_for,
}
use gaoge_agent_runtime.Execution.Values.{resolve_value_source, workflow_return_value}
use gaoge_agent_runtime.Execution.Plans.{EffectPlan, effect_plans_for_node}
use gaoge_agent_runtime.Execution.Failing.{fail, running_write}

-- An activation of a node that has no effects.
abbrev pub activation_of : String → View → Node → ActivationStatus → String → String → Activation
activation_of id s n status wait_id output = record {
  id = id;
  node_id = n.id;
  node_index = s.current_node;
  status = status;
  attempt = 1;
  effect_id = "";
  effect_ids = [];
  wait_id = wait_id;
  output = output;
  error_code = "";
  error = "";
}

-- One more activation in the state and in its budget.
abbrev pub activated : View → Activation → View
activated s a = record s {
  activations = s.activations ++ (a ∷ []);
  budget = record s.budget { node_activations = suc s.budget.node_activations };
}

-- The loop that adds up what the plans may cost, unless it passes the limit.
unfoldable pub reserve_plans : ℤ → ℤ → List EffectPlan → Option ℤ
reserve_plans limit reserved [] = some reserved
reserve_plans limit reserved (p ∷ ps) =
    elim (is_negative p.call.max_cost_units || ltb_ℤ (limit -ℤ p.call.max_cost_units) reserved) [
      | true ↦ none
      | false ↦ reserve_plans limit (reserved +ℤ p.call.max_cost_units) ps
    ]

-- The effect of a plan.
abbrev pub effect_of : View → Node → String → String → EffectPlan → Effect
effect_of s n activation_id id p = record {
  id = id;
  activation_id = activation_id;
  node_id = n.id;
  class = p.call.class;
  kind = p.call.kind;
  revision = p.call.revision;
  definition = p.call.definition;
  output_key = p.output_key;
  map_index = p.map_index;
  mapped = p.mapped;
  compensation = p.compensation;
  input = p.input;
  max_cost_units = p.call.max_cost_units;
  cost_units = pos 0;
  nested_depth = if text_eq p.call.class "subworkflow" then suc s.nested_depth else s.nested_depth;
  attempt = 1;
  retry = p.call.retry;
  status = EffectStatus.pending;
  child_run_id = "";
  receipt_id = "";
  output = "";
  error_code = "";
  error = "";
}

-- The loop that makes the effects; `fresh` gives their identifiers.
unfoldable pub effects_of : View → Node → String → (ℕ → String) → ℕ → List EffectPlan → List Effect
effects_of s n activation_id fresh k [] = []
effects_of s n activation_id fresh k (p ∷ ps) =
    effect_of s n activation_id (fresh k) p ∷ effects_of s n activation_id fresh (suc k) ps

abbrev only_id : List String → String
only_id (id ∷ []) = id
only_id _ = ""

-- `strings.Join(ids, ",")`.
abbrev comma_joined : List String → String
comma_joined [] = ""
comma_joined (id ∷ []) = id
comma_joined (id ∷ next ∷ ids) = join id (join "," (comma_joined (next ∷ ids)))

-- The state with the activation and the effects of the plans.
unfoldable pub with_effects : View → Node → String → List Effect → ℤ → View
with_effects s n activation_id es reserved =
    record (activated s (record (activation_of activation_id s n ActivationStatus.running "" "") {
      effect_ids = map (λ (e : Effect). e.id) es;
      effect_id = only_id (map (λ (e : Effect). e.id) es);
    })) {
      effects = s.effects ++ es;
      budget = record s.budget {
        node_activations = suc s.budget.node_activations;
        effects = s.budget.effects + length es;
        cost_units_reserved = s.budget.cost_units_reserved +ℤ reserved;
      };
    }

abbrev is_map : NodeType → Bool
is_map node_map = true
is_map _ = false

abbrev pub no_plans : Node → List EffectPlan → Bool
no_plans n [] = not (is_map n.node_type)
no_plans n (p ∷ ps) = false

-- `prepareNodeEffects`, of the plans and what they reserve.
unfoldable pub reserve_effects :
    View → Node → String → (ℕ → String) → List EffectPlan → Option ℤ → Write
unfolding effects_of with_effects
reserve_effects s n activation_id fresh plans none =
    fail s "workflow.cost_budget" "workflow budget exceeded"
reserve_effects s n activation_id fresh plans (some reserved) =
    if ltb_ℤ (s.definition.content.policy.max_cost_units -ℤ reserved)
      (s.budget.cost_units_used +ℤ s.budget.cost_units_reserved)
    then fail s "workflow.cost_budget" "workflow budget exceeded"
    else running_write
        (with_effects s n activation_id (effects_of s n activation_id fresh 0 plans) reserved) kept
        "workflow.effect.intents_created"
        (comma_joined (map (λ (e : Effect). e.id) (effects_of s n activation_id fresh 0 plans)))

-- `prepareNodeEffects`, of the plans.
unfoldable pub prepare_plans : View → Node → String → (ℕ → String) → List EffectPlan → Write
unfolding reserve_plans reserve_effects
prepare_plans s n activation_id fresh plans =
    if no_plans n plans
    then fail s "workflow.effect_plan" "invalid workflow execution"
    else if ltb_ℤ s.definition.content.limits.max_effects (pos (s.budget.effects + length plans))
    then fail s "workflow.effect_budget" "workflow budget exceeded"
    else reserve_effects s n activation_id fresh plans
        (reserve_plans s.definition.content.policy.max_cost_units (pos 0) plans)

unfoldable pub prepare_planned :
    View → Node → String → (ℕ → String) → Result Error (List EffectPlan) → Write
unfolding prepare_plans
prepare_planned s n activation_id fresh (err e) =
    fail s "workflow.effect_plan" "invalid workflow execution"
prepare_planned s n activation_id fresh (ok plans) = prepare_plans s n activation_id fresh plans

module _ (enc : Encoding) (reader : Reader) where
  -- `prepareNodeEffects`.
  unfoldable pub prepare_node_effects : View → Node → String → (ℕ → String) → Write
  unfolding effect_plans_for_node prepare_planned
  prepare_node_effects s n activation_id fresh =
      prepare_planned s n activation_id fresh (effect_plans_for_node enc reader s n)

  abbrev pub wait_payload : View → WaitNode → Result Error String
  unfolding resolve_value_source
  wait_payload s w = elim w.source [
    | none ↦ ok w.payload
    | some source ↦ resolve_value_source enc reader s source "" 0
  ]

  abbrev wait_of : Node → WaitNode → String → String → String → Wait
  wait_of n w activation_id wait_id payload = record {
    id = wait_id;
    activation_id = activation_id;
    node_id = n.id;
    kind = w.kind;
    payload = payload;
    status = WaitStatus.pending;
    response = "";
  }

  -- `prepareWait`.
  unfoldable pub prepare_wait : View → Node → WaitNode → String → String → Write
  prepare_wait s n w activation_id wait_id = elim (wait_payload s w) [
    | err e ↦ fail s "workflow.wait_payload" "invalid workflow execution"
    | ok payload ↦ record {
      status = RunStatus.waiting_input;
      state =
          record (activated s
            (activation_of activation_id s n ActivationStatus.waiting wait_id "")) {
              waits = s.waits ++ (wait_of n w activation_id wait_id payload ∷ []);
              current_wait_id = wait_id;
            };
      checkpoint = waits_for (wait_of n w activation_id wait_id payload);
      result = none;
      error_code = "";
      error_detail = "";
      event_type = "workflow.wait.created";
      event_message = wait_id;
      wakeup = false;
    }
  ]

  -- `executeIf`, after its condition.
  unfoldable pub choose_branch : View → Node → String → String → Bool → Result Error Write
  unfolding node_index_by_id
  choose_branch s n activation_id condition matched =
      elim (node_index_by_id s.definition.content.nodes (branch_target n.if_node matched)) [
        | none ↦ err invalid_execution
        | some next ↦ ok (
            running_write
              (record (activated s
                (activation_of activation_id s n ActivationStatus.completed "" condition)) {
                  current_node = next;
                })
              kept "workflow.branch.selected"
              (join n.id (join ":" (branch_target n.if_node matched))))
      ]

  -- `executeIf`.
  unfoldable pub execute_if : View → Node → IfNode → String → Result Error Write
  unfolding resolve_value_source choose_branch
  execute_if s n b activation_id = elim (resolve_value_source enc reader s b.condition "" 0) [
    | err e ↦ ok (fail s "workflow.condition_invalid" "invalid workflow execution")
    | ok condition ↦ elim (reader.boolean condition) [
      | none ↦ ok (fail s "workflow.condition_type" "invalid workflow execution")
      | some matched ↦ choose_branch s n activation_id condition matched
    ]
  ]

  -- `complete`. `accepts` is the output schema of the Definition, as `validateWorkflowContract` checks it.
  unfoldable pub complete : (String → Bool) → View → Node → ReturnNode → String → Write
  unfolding workflow_return_value
  complete accepts s n r activation_id = elim (workflow_return_value enc reader s r) [
    | err e ↦ fail s "workflow.return_invalid" "invalid workflow execution"
    | ok result ↦
        if not (accepts result)
        then fail s "workflow.output_schema" "invalid workflow execution"
        else record {
          status = RunStatus.completed;
          state =
              record (activated s
                (activation_of activation_id s n ActivationStatus.completed "" result)) {
                  current_node = suc s.current_node;
                };
          checkpoint = kept;
          result = some result;
          error_code = "";
          error_detail = "";
          event_type = "workflow.completed";
          event_message = s.definition.hash;
          wakeup = false;
        }
  ]
