-- ===== src/Workflow/Successors.antt =====
-- go/agent-runtime/workflow/execution_advanced.go: where an execution goes on after a node.
use gaoge_agent_runtime.Prelude.{
  ℕ, suc, String, Bool, true, false, Option, none, some, List, [], ◌∷◌, text_eq, if◌then◌else◌,
}
use gaoge_agent_runtime.Workflow.{NodeType, node_if, node_compensation, IfNode, Node}

abbrev shifted : Option ℕ → Option ℕ
shifted none = none
shifted (some i) = some (suc i)

-- `nodeIndexByID`: no position is `ErrInvalidExecution`.
unfoldable pub node_index_by_id : List Node → String → Option ℕ
node_index_by_id [] id = none
node_index_by_id (n ∷ ns) id =
    let rest = node_index_by_id ns id in if text_eq n.id id then some 0 else shifted rest

-- `nextNodeIndex`.
unfoldable pub next_node_index : List Node → ℕ → Node → Option ℕ
unfolding node_index_by_id
next_node_index ns current n =
    if text_eq n.next "" then some (suc current) else node_index_by_id ns n.next

abbrev pub is_if : NodeType → Bool
is_if node_if = true
is_if _ = false

abbrev pub is_compensation : NodeType → Bool
is_compensation node_compensation = true
is_compensation _ = false

-- The target that `executeIf` takes; no payload, which the check of a Definition excludes, is a nil
-- pointer there.
abbrev pub branch_target : Option IfNode → Bool → String
branch_target none matched = ""
branch_target (some b) matched = if matched then b.then_node_id else b.else_node_id

-- The `next` of `executeIf`, or else the one of `finishEffectActivation` and `resolveWaitState`.
unfoldable pub successor : List Node → ℕ → Node → Bool → Option ℕ
unfolding node_index_by_id next_node_index
successor ns current n matched =
    if is_if n.node_type
    then node_index_by_id ns (branch_target n.if_node matched)
    else next_node_index ns current n
