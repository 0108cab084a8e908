-- ===== src/Execution/Values.antt =====
-- go/agent-runtime/workflow/execution.go and execution_advanced.go: the values that nodes read from the state.
use gaoge_agent_runtime.Prelude.{
  ℕ, String, Bool, true, false, ◌&&◌, Option, none, some, List, [], ◌∷◌, text_eq, is_blank,
  format_uint, if◌then◌else◌, Result, ok, err,
}
use gaoge_agent_runtime.Workflow.{Encoding, ValueSource, ReturnNode, EffectNode}
use gaoge_agent_runtime.Execution.{
  Error, invalid_execution, Activation, Wait, View, Reader, ActivationStatus, WaitStatus,
}

abbrev pub is_completed : ActivationStatus → Bool
is_completed ActivationStatus.completed = true
is_completed _ = false

abbrev is_resolved : WaitStatus → Bool
is_resolved WaitStatus.resolved = true
is_resolved _ = false

-- The last of what two searches find.
abbrev later : {A : Type 0} → Option A → Option A → Option A
later none b = b
later (some a) b = some a

-- `latestCompletedActivation`, by its output.
unfoldable pub latest_output : Encoding → List Activation → String → Option String
latest_output enc [] node_id = none
latest_output enc (a ∷ rest_of) node_id =
    let rest = latest_output enc rest_of node_id in
    later rest (
      if text_eq a.node_id node_id && is_completed a.status && enc.valid a.output
      then some a.output
      else none)

-- The loop over the Waits: no response is a nil value.
unfoldable pub latest_response : List Wait → String → Option String
latest_response [] node_id = none
latest_response (w ∷ ws) node_id =
    let rest = latest_response ws node_id in
    later rest (if text_eq w.node_id node_id && is_resolved w.status then some w.response else none)

abbrev text_or_nil : Option String → String
text_or_nil none = ""
text_or_nil (some v) = v

abbrev or_invalid : Option String → Result Error String
or_invalid none = err invalid_execution
or_invalid (some v) = ok v

module _ (enc : Encoding) (reader : Reader) where
  -- The switch of `resolveValueSource`.
  unfoldable pub source_value : View → ValueSource → String → ℕ → Option String
  unfolding latest_output latest_response
  source_value s source item index =
      if text_eq source.kind "literal"
      then some source.value
      else if text_eq source.kind "workflow_input"
      then some s.input
      else if text_eq source.kind "node_output"
      then latest_output enc s.activations source.node_id
      else if text_eq source.kind "wait_response"
      then some (text_or_nil (latest_response s.waits source.node_id))
      else if text_eq source.kind "map_item"
      then some item
      else if text_eq source.kind "map_index"
      then some (format_uint index)
      else none

  -- The pointer of `resolveValueSource`, with the test of `resolveJSONPointer` that it is empty.
  unfoldable pub point : String → String → Result Error String
  point value pointer =
      if text_eq pointer "" then ok value else or_invalid (reader.pointer value pointer)

  -- `resolveValueSource`.
  unfoldable pub resolve_value_source : View → ValueSource → String → ℕ → Result Error String
  unfolding source_value point
  resolve_value_source s source item index = elim (source_value s source item index) [
    | none ↦ err invalid_execution
    | some v ↦ if enc.valid v then point v source.pointer else err invalid_execution
  ]

  -- `resolveLegacyEffectInput`.
  unfoldable pub resolve_legacy_effect_input : View → EffectNode → Result Error String
  unfolding resolve_value_source
  resolve_legacy_effect_input s n = elim n.source [
    | some source ↦ resolve_value_source s source "" 0
    | none ↦
        if n.from_input
        then ok s.input
        else if enc.valid n.input
        then ok n.input
        else err invalid_execution
  ]

  -- `workflowReturnValue`.
  unfoldable pub workflow_return_value : View → ReturnNode → Result Error String
  unfolding resolve_value_source latest_output
  workflow_return_value s n = elim n.source [
    | some source ↦ resolve_value_source s source "" 0
    | none ↦
        if is_blank n.from_node
        then if enc.valid n.value then ok n.value else err invalid_execution
        else or_invalid (latest_output enc s.activations n.from_node)
  ]
