-- ===== src/Workflow/Validation.antt =====
-- go/agent-runtime/workflow/nodes.go: which nodes a Definition may have.

use gaoge_agent_runtime.Prelude.{
  ℕ, suc, ◌+◌, ◌==◌, Bool, true, false, not, ◌&&◌, ◌||◌, Option, none, some, List, [], ◌∷◌, length,
  text_eq, is_some,
}
use gaoge_agent_runtime.Prelude.Tables.{Table, lookup, assign}
use gaoge_agent_runtime.Workflow.{
  NodeType, node_effect, node_agent_task, node_application_effect, node_media_effect, node_wait,
  node_if, node_parallel, node_map, node_subworkflow, node_compensation, node_return, other_node,
  Limits, Node, Encoding,
}
use gaoge_agent_runtime.Workflow.Calls.{
  valid_forward_target, count, node_payload_count, valid_value_source,
}
use gaoge_agent_runtime.Workflow.Payloads.{
  valid_effect_node, valid_agent_task, valid_application_effect, valid_media_effect,
  valid_wait_node, valid_if_node, valid_parallel_node, valid_map_node, valid_subworkflow_node,
  valid_compensation_node, valid_return_node,
}

module _ (enc : Encoding) (limits : Limits) (index : ℕ) (indices : Table ℕ) where
  -- `index == len(indices)-1`.
  abbrev pub is_last : Bool
  is_last = suc index == length indices

  -- The switch of `validNode`.
  unfoldable pub valid_payload : NodeType → Node → Bool
  unfolding valid_value_source valid_effect_node valid_wait_node valid_parallel_node valid_map_node
      valid_subworkflow_node valid_compensation_node valid_return_node
  valid_payload node_effect n = not is_last && valid_effect_node enc limits index indices n.effect
  valid_payload node_agent_task n =
      not is_last && valid_agent_task enc limits index indices n.agent_task
  valid_payload node_application_effect n =
      not is_last && valid_application_effect enc limits index indices n.application_effect
  valid_payload node_media_effect n =
      not is_last && valid_media_effect enc limits index indices n.media_effect
  valid_payload node_wait n = not is_last && valid_wait_node enc limits index indices n.wait
  valid_payload node_if n =
      not is_last && text_eq n.next "" && valid_if_node enc limits index indices n.if_node
  valid_payload node_parallel n =
      not is_last && valid_parallel_node enc limits index indices n.parallel
  valid_payload node_map n = not is_last && valid_map_node enc limits index indices n.map_node
  valid_payload node_subworkflow n =
      not is_last && valid_subworkflow_node enc limits index indices n.subworkflow
  valid_payload node_compensation n =
      not is_last && valid_compensation_node enc limits index indices n.compensation n.id
  valid_payload node_return n =
      is_last && text_eq n.next "" && valid_return_node enc limits index indices n.return_node
  valid_payload (other_node t) n = false

  -- `validNode`.
  unfoldable pub valid_node : Node → Bool
  unfolding valid_forward_target node_payload_count valid_payload
  valid_node n =
      valid_forward_target n.next index indices true
      && node_payload_count n == 1
      && valid_payload n.node_type n

abbrev pub is_return : NodeType → Bool
is_return node_return = true
is_return _ = false

-- The first loop of `validateDefinitionNodes`: the map of the positions, unless an identifier is blank or
-- repeated.
unfoldable pub index_nodes : ℕ → Table ℕ → List Node → Option (Table ℕ)
index_nodes index indices [] = some indices
index_nodes index indices (n ∷ ns) = elim (text_eq n.id "" || is_some (lookup n.id indices)) [
  | true ↦ none
  | false ↦ index_nodes (suc index) (assign n.id index indices) ns
]

-- `returnCount`.
unfoldable pub return_count : List Node → ℕ
return_count [] = 0
return_count (n ∷ ns) = count (is_return n.node_type) + return_count ns

unfoldable pub last_is_return : List Node → Bool
last_is_return [] = false
last_is_return (n ∷ []) = is_return n.node_type
last_is_return (n ∷ m ∷ ns) = last_is_return (m ∷ ns)

-- The second loop.
unfoldable pub all_valid : Encoding → Limits → ℕ → Table ℕ → List Node → Bool
unfolding valid_node
all_valid enc limits index indices [] = true
all_valid enc limits index indices (n ∷ ns) =
    valid_node enc limits index indices n && all_valid enc limits (suc index) indices ns

-- `validateDefinitionNodes`.
unfoldable pub valid_definition_nodes : Encoding → List Node → Limits → Bool
unfolding index_nodes return_count last_is_return all_valid
valid_definition_nodes enc ns limits = elim (index_nodes 0 [] ns) [
  | none ↦ false
  | some indices ↦ return_count ns == 1 && last_is_return ns && all_valid enc limits 0 indices ns
]
