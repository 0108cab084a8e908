-- ===== src/Workflow/Calls.antt =====
-- go/agent-runtime/workflow/nodes.go: which targets, sources and calls a node may name. `indices` is the Go
-- map of that name, from the identifier of a node to its position.
use Prim.Native.Char.{code}
use gaoge_agent_runtime.Prelude.{
  ℕ, ◌+◌, ◌==◌, ltb, String, Bool, false, not, ◌&&◌, ◌||◌, Option, none, some, length, text_eq,
  is_some, if◌then◌else◌,
}
use gaoge_agent_runtime.Prelude.Int.{pos, is_negative, is_positive, leb_ℤ}
use gaoge_agent_runtime.Prelude.Tables.{Table, lookup}
use gaoge_agent_runtime.Workflow.{
  Limits, ValueSource, RetryPolicy, DefinitionReference, EffectCall, Node, Encoding,
}

-- `strings.HasPrefix(s, "/")`.
abbrev pub starts_with_slash : String → Bool
starts_with_slash String.[] = false
starts_with_slash (String.◌∷◌ c s) = code c == 47

-- `validForwardTarget`.
unfoldable pub valid_forward_target : String → ℕ → Table ℕ → Bool → Bool
valid_forward_target target index indices optional =
    if text_eq target ""
    then optional
    else elim (lookup target indices) [ none ↦ false | some t ↦ ltb index t ]

-- `validRetryPolicy`.
unfoldable pub valid_retry_policy : RetryPolicy → Limits → Bool
valid_retry_policy p limits =
    is_positive p.max_attempts
    && leb_ℤ p.max_attempts limits.max_attempts_per_effect
    && (leb_ℤ p.max_attempts (pos 1) || ltb 0 (length p.retryable_error_codes))

-- `validDefinitionReference`.
unfoldable pub valid_definition_reference : DefinitionReference → Bool
valid_definition_reference r =
    not (text_eq r.id "") && is_positive r.revision && not (text_eq r.hash "")

abbrev pub count : Bool → ℕ
count b = if b then 1 else 0

-- `nodePayloadCount`.
unfoldable pub node_payload_count : Node → ℕ
node_payload_count n =
    count (is_some n.effect)
    + count (is_some n.agent_task)
    + count (is_some n.application_effect)
    + count (is_some n.media_effect)
    + count (is_some n.wait)
    + count (is_some n.if_node)
    + count (is_some n.parallel)
    + count (is_some n.map_node)
    + count (is_some n.subworkflow)
    + count (is_some n.compensation)
    + count (is_some n.return_node)

-- `indices[id]`, which is 0 for a missing one.
abbrev pub index_or_zero : Option ℕ → ℕ
index_or_zero none = 0
index_or_zero (some i) = i

module _ (enc : Encoding) (limits : Limits) (index : ℕ) (indices : Table ℕ) where
  -- `validValueSource`.
  unfoldable pub valid_value_source : ValueSource → Bool → Bool → Bool
  valid_value_source s allow_map allow_current =
      if not (text_eq s.pointer "") && not (starts_with_slash s.pointer)
      then false
      else if text_eq s.kind "literal"
      then not (text_eq s.value "") && enc.valid s.value && text_eq s.node_id ""
      else if text_eq s.kind "workflow_input"
      then text_eq s.value "" && text_eq s.node_id ""
      else if text_eq s.kind "node_output" || text_eq s.kind "wait_response"
      then elim (lookup s.node_id indices) [
        | none ↦ false
        | some target ↦
            text_eq s.value "" && (ltb target index || (allow_current && target == index))
      ]
      else if text_eq s.kind "map_item" || text_eq s.kind "map_index"
      then allow_map && text_eq s.value "" && text_eq s.node_id ""
      else false

  -- A source that is there and valid.
  abbrev pub has_source : Option ValueSource → Bool
  unfolding valid_value_source
  has_source none = false
  has_source (some s) = valid_value_source s false false

  abbrev pub has_json : String → Bool
  has_json v = not (text_eq v "") && enc.valid v

  -- `validEffectCall`.
  unfoldable pub valid_effect_call : EffectCall → Bool → Bool → Bool
  unfolding valid_retry_policy valid_value_source valid_definition_reference
  valid_effect_call c allow_map allow_current =
      if text_eq c.kind ""
        || is_negative c.max_cost_units
        || not (valid_retry_policy c.retry limits)
        || not (valid_value_source c.input allow_map allow_current)
      then false
      else if text_eq c.class "effect" || text_eq c.class "compensation"
      then text_eq c.revision "" && not (is_some c.definition)
      else if text_eq c.class "agent.task"
          || text_eq c.class "application.effect"
          || text_eq c.class "media.effect"
      then not (text_eq c.revision "") && not (is_some c.definition)
      else if text_eq c.class "subworkflow"
      then elim c.definition [
        | none ↦ false
        | some r ↦ text_eq c.revision "" && valid_definition_reference r
      ]
      else false
