-- ===== src/Workflow/Normalizing.antt =====
-- go/agent-runtime/workflow/definition.go and nodes.go: the normal form of a Definition.
use gaoge_agent_runtime.Prelude.{
  String, not, Option, none, some, List, map, ℕ, text_eq, trim_space, if◌then◌else◌,
}
use gaoge_agent_runtime.Prelude.Int.{ℤ, pos, is_positive}
use gaoge_agent_runtime.Workflow.Names.{normal_names}
use gaoge_agent_runtime.Workflow.{
  DefinitionPolicy, Limits, ValueSource, RetryPolicy, DefinitionReference, EffectCall, EffectNode,
  WaitNode, ReturnNode, AgentTaskNode, ApplicationEffectNode, MediaEffectNode, IfNode,
  ParallelBranch, ParallelNode, MapNode, SubworkflowNode, CompensationNode, Node, DefinitionDraft,
  Encoding,
}

-- A class, with its default.
unfoldable pub class_or_none : String → String
class_or_none s = if text_eq (trim_space s) "" then "none" else trim_space s

-- `normalizeDefinitionPolicy`.
unfoldable pub normalize_definition_policy : DefinitionPolicy → DefinitionPolicy
unfolding normal_names class_or_none
normalize_definition_policy p = record {
  required_permissions = normal_names p.required_permissions;
  cost_class = class_or_none p.cost_class;
  max_cost_units = p.max_cost_units;
  side_effect_class = class_or_none p.side_effect_class;
}

-- The defaults that a limit that is not positive takes.
abbrev pub or_default : ℤ → ℕ → ℤ
or_default x default = if is_positive x then x else pos default

-- The defaults of `normalizeDefinitionDraft`.
unfoldable pub normalize_limits : Limits → Limits
normalize_limits l = record {
  max_node_activations = or_default l.max_node_activations 256;
  max_effects = or_default l.max_effects 64;
  max_segments = or_default l.max_segments 256;
  max_activations_per_segment = or_default l.max_activations_per_segment 32;
  max_state_bytes = or_default l.max_state_bytes 1048576;
  max_fan_out = or_default l.max_fan_out 64;
  max_concurrency = or_default l.max_concurrency 8;
  max_nested_depth = or_default l.max_nested_depth 8;
  max_attempts_per_effect = or_default l.max_attempts_per_effect 3;
}

-- `normalizeRetryPolicy`.
unfoldable pub normalize_retry_policy : RetryPolicy → RetryPolicy
unfolding normal_names
normalize_retry_policy p = record {
  max_attempts = or_default p.max_attempts 1;
  retryable_error_codes = normal_names p.retryable_error_codes;
}

unfoldable pub trim_reference : DefinitionReference → DefinitionReference
trim_reference r = record r { id = trim_space r.id; hash = trim_space r.hash }

abbrev pub trim_reference_of : Option DefinitionReference → Option DefinitionReference
trim_reference_of none = none
trim_reference_of (some r) = some (trim_reference r)

abbrev pub payload : {V : Type 0} → (V → V) → Option V → Option V
payload f none = none
payload f (some v) = some (f v)

module _ (enc : Encoding) where
  -- `normalizeJSON`.
  unfoldable pub normalize_json : String → String
  normalize_json v =
      if text_eq v ""
      then ""
      else if not (enc.valid v)
      then v
      else elim (enc.canonical v) [ none ↦ v | some w ↦ w ]

  -- `normalizeValueSource`.
  unfoldable pub normalize_value_source : ValueSource → ValueSource
  unfolding normalize_json
  normalize_value_source s = record {
    kind = trim_space s.kind;
    value = normalize_json s.value;
    node_id = trim_space s.node_id;
    pointer = trim_space s.pointer;
  }

  -- `cloneValueSource`.
  unfoldable pub clone_value_source : Option ValueSource → Option ValueSource
  unfolding normalize_value_source
  clone_value_source none = none
  clone_value_source (some s) = some (normalize_value_source s)

  -- `normalizeEffectCall`.
  unfoldable pub normalize_effect_call : EffectCall → EffectCall
  unfolding normalize_value_source normalize_retry_policy trim_reference
  normalize_effect_call c = record {
    class = trim_space c.class;
    kind = trim_space c.kind;
    revision = trim_space c.revision;
    input = normalize_value_source c.input;
    definition = trim_reference_of c.definition;
    max_cost_units = c.max_cost_units;
    retry = normalize_retry_policy c.retry;
  }

  -- The payloads of `normalizeNode`.
  unfoldable pub normal_effect : EffectNode → EffectNode
  unfolding normalize_json clone_value_source normalize_retry_policy
  normal_effect n = record n {
    kind = trim_space n.kind;
    input = normalize_json n.input;
    source = clone_value_source n.source;
    retry = normalize_retry_policy n.retry;
  }

  unfoldable pub normal_wait : WaitNode → WaitNode
  unfolding normalize_json clone_value_source
  normal_wait n = record {
    kind = trim_space n.kind;
    payload = normalize_json n.payload;
    source = clone_value_source n.source;
  }

  unfoldable pub normal_return : ReturnNode → ReturnNode
  unfolding normalize_json clone_value_source
  normal_return n = record {
    value = normalize_json n.value;
    from_node = trim_space n.from_node;
    source = clone_value_source n.source;
  }

  -- The payloads of `normalizeAdvancedNode`.
  unfoldable pub normal_agent_task : AgentTaskNode → AgentTaskNode
  unfolding normalize_value_source normalize_retry_policy
  normal_agent_task n = record n {
    agent_key = trim_space n.agent_key;
    revision = trim_space n.revision;
    input = normalize_value_source n.input;
    retry = normalize_retry_policy n.retry;
  }

  unfoldable pub normal_application_effect : ApplicationEffectNode → ApplicationEffectNode
  unfolding normalize_value_source normalize_retry_policy
  normal_application_effect n = record n {
    capability_key = trim_space n.capability_key;
    revision = trim_space n.revision;
    input = normalize_value_source n.input;
    retry = normalize_retry_policy n.retry;
  }

  unfoldable pub normal_media_effect : MediaEffectNode → MediaEffectNode
  unfolding normalize_value_source normalize_retry_policy
  normal_media_effect n = record n {
    capability_key = trim_space n.capability_key;
    revision = trim_space n.revision;
    input = normalize_value_source n.input;
    retry = normalize_retry_policy n.retry;
  }

  unfoldable pub normal_if : IfNode → IfNode
  unfolding normalize_value_source
  normal_if n = record {
    condition = normalize_value_source n.condition;
    then_node_id = trim_space n.then_node_id;
    else_node_id = trim_space n.else_node_id;
  }

  unfoldable pub normal_branch : ParallelBranch → ParallelBranch
  unfolding normalize_effect_call
  normal_branch b = record { id = trim_space b.id; call = normalize_effect_call b.call }

  unfoldable pub normal_parallel : ParallelNode → ParallelNode
  unfolding normal_branch
  normal_parallel n = record n { branches = map normal_branch n.branches }

  unfoldable pub normal_map : MapNode → MapNode
  unfolding normalize_value_source normalize_effect_call
  normal_map n = record n {
    items = normalize_value_source n.items;
    call = normalize_effect_call n.call;
  }

  unfoldable pub normal_subworkflow : SubworkflowNode → SubworkflowNode
  unfolding trim_reference normalize_value_source normalize_retry_policy
  normal_subworkflow n = record n {
    definition = trim_reference n.definition;
    input = normalize_value_source n.input;
    retry = normalize_retry_policy n.retry;
  }

  unfoldable pub normal_compensation : CompensationNode → CompensationNode
  unfolding normalize_effect_call
  normal_compensation n = record {
    do_call = normalize_effect_call n.do_call;
    undo_call = normalize_effect_call n.undo_call;
  }

  -- `normalizeNode`, with the `normalizeAdvancedNode` at its end.
  unfoldable pub normalize_node : Node → Node
  unfolding normal_effect normal_wait normal_return normal_agent_task normal_application_effect
      normal_media_effect normal_if normal_parallel normal_map normal_subworkflow
      normal_compensation
  normalize_node n = record {
    id = trim_space n.id;
    node_type = n.node_type;
    next = trim_space n.next;
    effect = payload normal_effect n.effect;
    agent_task = payload normal_agent_task n.agent_task;
    application_effect = payload normal_application_effect n.application_effect;
    media_effect = payload normal_media_effect n.media_effect;
    wait = payload normal_wait n.wait;
    if_node = payload normal_if n.if_node;
    parallel = payload normal_parallel n.parallel;
    map_node = payload normal_map n.map_node;
    subworkflow = payload normal_subworkflow n.subworkflow;
    compensation = payload normal_compensation n.compensation;
    return_node = payload normal_return n.return_node;
  }

  -- `cloneNodes`, which normalizes.
  unfoldable pub clone_nodes : List Node → List Node
  unfolding normalize_node
  clone_nodes ns = map normalize_node ns

  abbrev pub schema_or_true : String → String
  schema_or_true s = if text_eq s "" then "true" else normalize_json s

  -- `normalizeDefinitionDraft`.
  unfoldable pub normalize_definition_draft : DefinitionDraft → DefinitionDraft
  unfolding normalize_limits clone_nodes normalize_definition_policy
  normalize_definition_draft d = record {
    id = trim_space d.id;
    revision = d.revision;
    name = trim_space d.name;
    input_schema = schema_or_true d.input_schema;
    output_schema = schema_or_true d.output_schema;
    nodes = map normalize_node (clone_nodes d.nodes);
    limits = normalize_limits d.limits;
    policy = normalize_definition_policy d.policy;
  }
