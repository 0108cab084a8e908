-- ===== src/Execution/Plans.antt =====
-- go/agent-runtime/workflow/execution_advanced.go: the calls that a node makes.
use gaoge_agent_runtime.Prelude.{
  ℕ, suc, String, Bool, true, false, Option, none, some, List, [], ◌∷◌, length, if◌then◌else◌,
  Result, ok, err, ◌>>=◌,
}
use gaoge_agent_runtime.Prelude.Int.{ℤ, pos, ltb_ℤ, leb_ℤ}
use gaoge_agent_runtime.Workflow.{
  Encoding, ValueSource, RetryPolicy, EffectCall, EffectNode, AgentTaskNode, ApplicationEffectNode,
  MediaEffectNode, ParallelBranch, ParallelNode, MapNode, SubworkflowNode, CompensationNode, Node,
  NodeType, node_effect, node_agent_task, node_application_effect, node_media_effect, node_parallel,
  node_map, node_subworkflow, node_compensation,
}
use gaoge_agent_runtime.Execution.{Error, invalid_execution, budget_exceeded, View, Reader}
use gaoge_agent_runtime.Execution.Values.{resolve_value_source, resolve_legacy_effect_input}

-- `effectPlan`, whose `Compensation` no caller sets.
pub record EffectPlan : Type 0 where
  pub call : EffectCall
  pub output_key : String
  pub map_index : ℕ
  pub mapped : Bool
  pub compensation : Bool
  pub input : String

-- `nodeHasEffects`.
unfoldable pub node_has_effects : NodeType → Bool
node_has_effects node_effect = true
node_has_effects node_agent_task = true
node_has_effects node_application_effect = true
node_has_effects node_media_effect = true
node_has_effects node_parallel = true
node_has_effects node_map = true
node_has_effects node_subworkflow = true
node_has_effects node_compensation = true
node_has_effects _ = false

abbrev nil_source : ValueSource
nil_source = record { kind = ""; value = ""; node_id = ""; pointer = "" }

abbrev plan_of : EffectCall → String → String → EffectPlan
plan_of call key input = record {
  call = call;
  output_key = key;
  map_index = 0;
  mapped = false;
  compensation = false;
  input = input;
}

-- The call of a capability.
abbrev capability_call : String → String → String → ValueSource → ℤ → RetryPolicy → EffectCall
capability_call class kind revision input cost retry = record {
  class = class;
  kind = kind;
  revision = revision;
  input = input;
  definition = none;
  max_cost_units = cost;
  retry = retry;
}

module _ (enc : Encoding) (reader : Reader) (s : View) where
  -- `plansFromCalls`, of calls with their keys.
  unfoldable pub plans_from_calls : List (String × EffectCall) → Result Error (List EffectPlan)
  unfolding resolve_value_source
  plans_from_calls [] = ok []
  plans_from_calls ((key, call) ∷ calls) =
      resolve_value_source enc reader s call.input "" 0
      >>= (λ input. plans_from_calls calls >>= (λ plans. ok (plan_of call key input ∷ plans)))

  abbrev branch_calls : List ParallelBranch → List (String × EffectCall)
  branch_calls [] = []
  branch_calls (b ∷ bs) = (b.id, b.call) ∷ branch_calls bs

  -- The loop of `effectPlansForNode` over the items of a map.
  unfoldable pub map_plans : EffectCall → ℕ → List String → Result Error (List EffectPlan)
  unfolding resolve_value_source
  map_plans call index [] = ok []
  map_plans call index (item ∷ items) =
      resolve_value_source enc reader s call.input item index >>= (λ input.
        map_plans call (suc index) items >>= (λ plans. ok (
          record {
            call = call;
            output_key = "";
            map_index = index;
            mapped = true;
            compensation = false;
            input = input;
          }
          ∷ plans)))

  abbrev or_too_many : Option (List String) → Result Error (List String)
  or_too_many none = err invalid_execution
  or_too_many (some items) =
      if ltb_ℤ s.definition.content.limits.max_fan_out (pos (length items))
      then err invalid_execution
      else ok items

  unfoldable pub plan_map : Option MapNode → Result Error (List EffectPlan)
  unfolding resolve_value_source map_plans
  plan_map none = err invalid_execution
  plan_map (some n) =
      resolve_value_source enc reader s n.items "" 0
      >>= (λ v. or_too_many (reader.members v) >>= (λ items. map_plans n.call 0 items))

  abbrev planned : EffectCall → Result Error String → Result Error (List EffectPlan)
  planned call input = input >>= (λ v. ok (plan_of call "" v ∷ []))

  unfoldable pub plan_effect : Option EffectNode → Result Error (List EffectPlan)
  unfolding resolve_legacy_effect_input
  plan_effect none = err invalid_execution
  plan_effect (some n) =
      planned (capability_call "effect" n.kind "" nil_source n.max_cost_units n.retry)
        (resolve_legacy_effect_input enc reader s n)

  abbrev pub plan_agent_task : Option AgentTaskNode → Result Error (List EffectPlan)
  unfolding plans_from_calls
  plan_agent_task none = err invalid_execution
  plan_agent_task (some n) = plans_from_calls (
      ("", capability_call "agent.task" n.agent_key n.revision n.input n.max_cost_units n.retry)
      ∷ [])

  abbrev pub plan_application_effect : Option ApplicationEffectNode → Result Error (List EffectPlan)
  unfolding plans_from_calls
  plan_application_effect none = err invalid_execution
  plan_application_effect (some n) = plans_from_calls (
      (
        "",
        capability_call "application.effect" n.capability_key n.revision n.input n.max_cost_units
            n.retry,
      )
      ∷ [])

  abbrev pub plan_media_effect : Option MediaEffectNode → Result Error (List EffectPlan)
  unfolding plans_from_calls
  plan_media_effect none = err invalid_execution
  plan_media_effect (some n) = plans_from_calls (
      (
        "",
        capability_call "media.effect" n.capability_key n.revision n.input n.max_cost_units n.retry,
      )
      ∷ [])

  abbrev pub plan_parallel : Option ParallelNode → Result Error (List EffectPlan)
  unfolding plans_from_calls
  plan_parallel none = err invalid_execution
  plan_parallel (some n) = plans_from_calls (branch_calls n.branches)

  unfoldable pub plan_subworkflow : Option SubworkflowNode → Result Error (List EffectPlan)
  unfolding resolve_value_source
  plan_subworkflow none = err invalid_execution
  plan_subworkflow (some n) =
      if leb_ℤ s.definition.content.limits.max_nested_depth (pos s.nested_depth)
      then err budget_exceeded
      else planned
          (record (capability_call "subworkflow" "workflow.run" "" n.input n.max_cost_units
            n.retry) { definition = some n.definition })
          (resolve_value_source enc reader s n.input "" 0)

  unfoldable pub plan_compensation : Option CompensationNode → Result Error (List EffectPlan)
  unfolding resolve_value_source
  plan_compensation none = err invalid_execution
  plan_compensation (some n) =
      planned n.do_call (resolve_value_source enc reader s n.do_call.input "" 0)

  -- `effectPlansForNode`; a payload that is missing, which the check of a Definition excludes, is a nil
  -- pointer there.
  unfoldable pub effect_plans_for_node : Node → Result Error (List EffectPlan)
  unfolding plan_effect plan_map plan_subworkflow plan_compensation
  effect_plans_for_node n = elim n.node_type [
    | node_effect ↦ plan_effect n.effect
    | node_agent_task ↦ plan_agent_task n.agent_task
    | node_application_effect ↦ plan_application_effect n.application_effect
    | node_media_effect ↦ plan_media_effect n.media_effect
    | node_parallel ↦ plan_parallel n.parallel
    | node_map ↦ plan_map n.map_node
    | node_subworkflow ↦ plan_subworkflow n.subworkflow
    | node_compensation ↦ plan_compensation n.compensation
    | _ ↦ err invalid_execution
  ]
