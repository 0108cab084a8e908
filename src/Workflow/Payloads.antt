-- ===== src/Workflow/Payloads.antt =====
-- go/agent-runtime/workflow/nodes.go: which payloads a node may have.

use gaoge_agent_runtime.Prelude.{
  ℕ, ◌+◌, ◌==◌, ltb, String, Bool, true, false, not, ◌&&◌, ◌||◌, Option, none, some, List, [], ◌∷◌,
  length, text_eq, is_some, if◌then◌else◌,
}
use gaoge_agent_runtime.Prelude.Int.{ℤ, pos, is_negative, is_positive, leb_ℤ}
use gaoge_agent_runtime.Prelude.Tables.{Table, lookup}
use gaoge_agent_runtime.Workflow.{
  Limits, ValueSource, RetryPolicy, EffectNode, WaitNode, ReturnNode, AgentTaskNode,
  ApplicationEffectNode, MediaEffectNode, IfNode, ParallelBranch, ParallelNode, MapNode,
  SubworkflowNode, CompensationNode, Encoding,
}
use gaoge_agent_runtime.Workflow.Calls.{
  valid_forward_target, valid_retry_policy, valid_definition_reference, count, index_or_zero,
  valid_value_source, has_source, has_json, valid_effect_call,
}

module _ (enc : Encoding) (limits : Limits) (index : ℕ) (indices : Table ℕ) where
  -- `validEffectNode`.
  unfoldable pub valid_effect_node : Option EffectNode → Bool
  unfolding valid_retry_policy valid_value_source
  valid_effect_node none = false
  valid_effect_node (some n) =
      not (text_eq n.kind "")
      && not (is_negative n.max_cost_units)
      && valid_retry_policy n.retry limits
      && count (has_json enc limits index indices n.input)
          + count n.from_input
          + count (has_source enc limits index indices n.source)
        == 1

  -- What `validNode` asks of one call of an agent or a capability.
  abbrev pub valid_capability : String → String → ℤ → RetryPolicy → ValueSource → Bool
  unfolding valid_retry_policy valid_value_source
  valid_capability key revision cost retry input =
      not (text_eq key "")
      && not (text_eq revision "")
      && not (is_negative cost)
      && valid_retry_policy retry limits
      && valid_value_source enc limits index indices input false false

  abbrev pub valid_agent_task : Option AgentTaskNode → Bool
  valid_agent_task none = false
  valid_agent_task (some n) =
      valid_capability n.agent_key n.revision n.max_cost_units n.retry n.input

  abbrev pub valid_application_effect : Option ApplicationEffectNode → Bool
  valid_application_effect none = false
  valid_application_effect (some n) =
      valid_capability n.capability_key n.revision n.max_cost_units n.retry n.input

  abbrev pub valid_media_effect : Option MediaEffectNode → Bool
  valid_media_effect none = false
  valid_media_effect (some n) =
      valid_capability n.capability_key n.revision n.max_cost_units n.retry n.input

  -- `validWaitNode`.
  unfoldable pub valid_wait_node : Option WaitNode → Bool
  unfolding valid_value_source
  valid_wait_node none = false
  valid_wait_node (some n) =
      not (text_eq n.kind "")
      && (if has_json enc limits index indices n.payload
          then not (has_source enc limits index indices n.source)
          else has_source enc limits index indices n.source)

  unfoldable pub valid_if_node : Option IfNode → Bool
  unfolding valid_value_source valid_forward_target
  valid_if_node none = false
  valid_if_node (some n) =
      valid_value_source enc limits index indices n.condition false false
      && valid_forward_target n.then_node_id index indices false
      && valid_forward_target n.else_node_id index indices false

  -- The loop of `validParallelNode`, after the identifiers that it has seen.
  unfoldable pub valid_branches : Table ℕ → List ParallelBranch → Bool
  unfolding valid_effect_call
  valid_branches seen [] = true
  valid_branches seen (b ∷ bs) =
      not (text_eq b.id "")
      && valid_effect_call enc limits index indices b.call false false
      && not (is_some (lookup b.id seen))
      && valid_branches ((b.id, 0) ∷ seen) bs

  -- `validParallelNode`.
  unfoldable pub valid_parallel_node : Option ParallelNode → Bool
  unfolding valid_branches
  valid_parallel_node none = false
  valid_parallel_node (some n) =
      ltb 0 (length n.branches)
      && leb_ℤ (pos (length n.branches)) limits.max_fan_out
      && is_positive n.max_concurrency
      && leb_ℤ n.max_concurrency limits.max_concurrency
      && leb_ℤ n.max_concurrency (pos (length n.branches))
      && valid_branches [] n.branches

  -- `validMapNode`.
  unfoldable pub valid_map_node : Option MapNode → Bool
  unfolding valid_value_source valid_effect_call
  valid_map_node none = false
  valid_map_node (some n) =
      is_positive n.max_concurrency
      && leb_ℤ n.max_concurrency limits.max_concurrency
      && valid_value_source enc limits index indices n.items false false
      && valid_effect_call enc limits index indices n.call true false

  -- `validSubworkflowNode`.
  unfoldable pub valid_subworkflow_node : Option SubworkflowNode → Bool
  unfolding valid_definition_reference valid_retry_policy valid_value_source
  valid_subworkflow_node none = false
  valid_subworkflow_node (some n) =
      not (is_negative n.max_cost_units)
      && valid_definition_reference n.definition
      && valid_retry_policy n.retry limits
      && valid_value_source enc limits index indices n.input false false

  -- `validCompensationNode`.
  unfoldable pub valid_compensation_node : Option CompensationNode → String → Bool
  unfolding valid_effect_call
  valid_compensation_node none node_id = false
  valid_compensation_node (some n) node_id =
      valid_effect_call enc limits index indices n.do_call false false
      && not (text_eq n.do_call.class "compensation")
      && not (text_eq n.do_call.class "subworkflow")
      && valid_effect_call enc limits index indices n.undo_call false true
      && not (text_eq n.undo_call.class "agent.task")
      && not (text_eq n.undo_call.class "compensation")
      && (text_eq n.undo_call.input.node_id ""
          || text_eq n.undo_call.input.node_id node_id
          || ltb (index_or_zero (lookup n.undo_call.input.node_id indices)) index)

  -- `validReturnNode`.
  unfoldable pub valid_return_node : Option ReturnNode → Bool
  unfolding valid_value_source
  valid_return_node none = false
  valid_return_node (some n) =
      count (has_json enc limits index indices n.value)
        + count
            (not (text_eq n.from_node "") && ltb (index_or_zero (lookup n.from_node indices)) index)
        + count (has_source enc limits index indices n.source)
      == 1
