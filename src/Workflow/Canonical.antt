-- ===== src/Workflow/Canonical.antt =====
-- go/agent-runtime/workflow/definition.go and nodes.go: a normal form is its own normal form, so that what
-- CompileDefinition gives passes ValidateDefinition.
use gaoge_agent_runtime.Prelude.{
  String, true, false, Option, none, some, List, [], ◌∷◌, map, ◌≡◌, inl, inr, refl, sym, ap, ◌∙◌,
  arith, ℕ, text_eq, text_dec, trim_space, trim_idem, Option-cases, Bool-cases,
}
use gaoge_agent_runtime.Prelude.Int.{ℤ}
use gaoge_agent_runtime.Workflow.{
  DefinitionPolicy, Limits, ValueSource, RetryPolicy, DefinitionReference, EffectCall, EffectNode,
  WaitNode, ReturnNode, AgentTaskNode, ApplicationEffectNode, MediaEffectNode, IfNode,
  ParallelBranch, ParallelNode, MapNode, SubworkflowNode, CompensationNode, Node, DefinitionDraft,
  Encoding,
}
use gaoge_agent_runtime.Workflow.Names.{normal_names_idem}
use gaoge_agent_runtime.Workflow.Normalizing.{
  class_or_none, normalize_definition_policy, or_default, normalize_limits, normalize_retry_policy,
  trim_reference, normalize_json, normalize_value_source, clone_value_source, trim_reference_of,
  normalize_effect_call, normal_effect, normal_wait, normal_return, normal_agent_task,
  normal_application_effect, normal_media_effect, normal_if, normal_branch, normal_parallel,
  normal_map, normal_subworkflow, normal_compensation, payload, normalize_node, clone_nodes,
  schema_or_true, normalize_definition_draft,
}

-- What the code relies on: the empty text is not JSON; what the encoder writes is valid and is written again
-- as it is, `true` among it; and a digest, in hexadecimal, has no blank around it.
pub record IsEncoding (enc : Encoding) : Type 0 where
  pub invalid_empty : enc.valid "" ≡ false
  pub canonical_true : enc.canonical "true" ≡ some "true"
  pub canonical_valid : (v w : String) → enc.canonical v ≡ some w → enc.valid w ≡ true
  pub canonical_fixed : (v w : String) → enc.canonical v ≡ some w → enc.canonical w ≡ some w
  pub digest_trimmed : (d : DefinitionDraft) (h : String) → enc.digest d ≡ some h → trim_space h ≡ h

or_default_idem : (x : ℤ) (n : ℕ) → or_default (or_default x n) n ≡ or_default x n
or_default_idem x n = ground arith

normalize_limits_idem : (l : Limits) → normalize_limits (normalize_limits l) ≡ normalize_limits l
unfolding normalize_limits
normalize_limits_idem l = ground arith

class_none : class_or_none "none" ≡ "none"
unfolding class_or_none trim_space text_dec
class_none = refl

class_idem : (s : String) → class_or_none (class_or_none s) ≡ class_or_none s
unfolding class_or_none
class_idem s = elim (Bool-cases (text_eq (trim_space s) "")) [
  | inl e ↦
      let c : class_or_none s ≡ "none" = ground arith in ap class_or_none c ∙ class_none ∙ sym c
  | inr e ↦
      let c : class_or_none s ≡ trim_space s = ground arith in
      ap class_or_none c ∙ ground (arith, trim_idem s)
]

normalize_definition_policy_idem :
    (p : DefinitionPolicy)
    → normalize_definition_policy (normalize_definition_policy p) ≡ normalize_definition_policy p
unfolding normalize_definition_policy
normalize_definition_policy_idem p = ground (
  arith,
  normal_names_idem p.required_permissions,
  class_idem p.cost_class,
  class_idem p.side_effect_class,
)

normalize_retry_policy_idem :
    (p : RetryPolicy) → normalize_retry_policy (normalize_retry_policy p) ≡ normalize_retry_policy p
unfolding normalize_retry_policy
normalize_retry_policy_idem p = ground (arith, normal_names_idem p.retryable_error_codes)

trim_reference_idem :
    (r : DefinitionReference) → trim_reference (trim_reference r) ≡ trim_reference r
unfolding trim_reference
trim_reference_idem r = ground (arith, trim_idem r.id, trim_idem r.hash)

payload_idem :
    {V : Type 0} (f : V → V)
    → ((v : V) → f (f v) ≡ f v)
    → (o : Option V) → payload f (payload f o) ≡ payload f o
payload_idem f h none = refl
payload_idem f h (some v) = ap some (h v)

map_idem :
    {V : Type 0} (f : V → V)
    → ((v : V) → f (f v) ≡ f v)
    → (vs : List V) → map f (map f vs) ≡ map f vs
map_idem f h [] = refl
map_idem f h (v ∷ vs) = ground (arith, h v, map_idem f h vs)

module _ (enc : Encoding) (law : IsEncoding enc) where
  json_idem : (v : String) → normalize_json enc (normalize_json enc v) ≡ normalize_json enc v
  unfolding normalize_json
  json_idem v = elim (Option-cases (enc.canonical v)) [
    | inl e ↦ ground arith
    | inr (w, e) ↦ ground (arith, law.canonical_fixed v w e)
  ]

  value_source_idem :
      (s : ValueSource)
      → normalize_value_source enc (normalize_value_source enc s) ≡ normalize_value_source enc s
  unfolding normalize_value_source
  value_source_idem s =
      ground (arith, trim_idem s.kind, json_idem s.value, trim_idem s.node_id, trim_idem s.pointer)

  source_idem :
      (o : Option ValueSource)
      → clone_value_source enc (clone_value_source enc o) ≡ clone_value_source enc o
  unfolding clone_value_source
  source_idem none = refl
  source_idem (some s) = ap some (value_source_idem s)

  reference_idem :
      (o : Option DefinitionReference)
      → trim_reference_of (trim_reference_of o) ≡ trim_reference_of o
  reference_idem none = refl
  reference_idem (some r) = ap some (trim_reference_idem r)

  effect_call_idem :
      (c : EffectCall)
      → normalize_effect_call enc (normalize_effect_call enc c) ≡ normalize_effect_call enc c
  unfolding normalize_effect_call
  effect_call_idem c = ground (
    arith,
    trim_idem c.class,
    trim_idem c.kind,
    trim_idem c.revision,
    value_source_idem c.input,
    reference_idem c.definition,
    normalize_retry_policy_idem c.retry,
  )

  effect_idem : (n : EffectNode) → normal_effect enc (normal_effect enc n) ≡ normal_effect enc n
  unfolding normal_effect
  effect_idem n = ground (
    arith,
    trim_idem n.kind,
    json_idem n.input,
    source_idem n.source,
    normalize_retry_policy_idem n.retry,
  )

  wait_idem : (n : WaitNode) → normal_wait enc (normal_wait enc n) ≡ normal_wait enc n
  unfolding normal_wait
  wait_idem n = ground (arith, trim_idem n.kind, json_idem n.payload, source_idem n.source)

  return_idem : (n : ReturnNode) → normal_return enc (normal_return enc n) ≡ normal_return enc n
  unfolding normal_return
  return_idem n = ground (arith, json_idem n.value, trim_idem n.from_node, source_idem n.source)

  agent_task_idem :
      (n : AgentTaskNode)
      → normal_agent_task enc (normal_agent_task enc n) ≡ normal_agent_task enc n
  unfolding normal_agent_task
  agent_task_idem n = ground (
    arith,
    trim_idem n.agent_key,
    trim_idem n.revision,
    value_source_idem n.input,
    normalize_retry_policy_idem n.retry,
  )

  application_effect_idem :
      (n : ApplicationEffectNode)
      → normal_application_effect enc (normal_application_effect enc n)
        ≡ normal_application_effect enc n
  unfolding normal_application_effect
  application_effect_idem n = ground (
    arith,
    trim_idem n.capability_key,
    trim_idem n.revision,
    value_source_idem n.input,
    normalize_retry_policy_idem n.retry,
  )

  media_effect_idem :
      (n : MediaEffectNode)
      → normal_media_effect enc (normal_media_effect enc n) ≡ normal_media_effect enc n
  unfolding normal_media_effect
  media_effect_idem n = ground (
    arith,
    trim_idem n.capability_key,
    trim_idem n.revision,
    value_source_idem n.input,
    normalize_retry_policy_idem n.retry,
  )

  if_idem : (n : IfNode) → normal_if enc (normal_if enc n) ≡ normal_if enc n
  unfolding normal_if
  if_idem n =
      ground
        (arith, value_source_idem n.condition, trim_idem n.then_node_id, trim_idem n.else_node_id)

  branch_idem : (b : ParallelBranch) → normal_branch enc (normal_branch enc b) ≡ normal_branch enc b
  unfolding normal_branch
  branch_idem b = ground (arith, trim_idem b.id, effect_call_idem b.call)

  parallel_idem :
      (n : ParallelNode) → normal_parallel enc (normal_parallel enc n) ≡ normal_parallel enc n
  unfolding normal_parallel
  parallel_idem n = ground (arith, map_idem (normal_branch enc) branch_idem n.branches)

  map_node_idem : (n : MapNode) → normal_map enc (normal_map enc n) ≡ normal_map enc n
  unfolding normal_map
  map_node_idem n = ground (arith, value_source_idem n.items, effect_call_idem n.call)

  subworkflow_idem :
      (n : SubworkflowNode)
      → normal_subworkflow enc (normal_subworkflow enc n) ≡ normal_subworkflow enc n
  unfolding normal_subworkflow
  subworkflow_idem n = ground (
    arith,
    trim_reference_idem n.definition,
    value_source_idem n.input,
    normalize_retry_policy_idem n.retry,
  )

  compensation_idem :
      (n : CompensationNode)
      → normal_compensation enc (normal_compensation enc n) ≡ normal_compensation enc n
  unfolding normal_compensation
  compensation_idem n = ground (arith, effect_call_idem n.do_call, effect_call_idem n.undo_call)

  pub normalize_node_idem :
      (n : Node) → normalize_node enc (normalize_node enc n) ≡ normalize_node enc n
  unfolding normalize_node
  normalize_node_idem n = ground (
    arith,
    trim_idem n.id,
    trim_idem n.next,
    payload_idem (normal_effect enc) effect_idem n.effect,
    payload_idem (normal_agent_task enc) agent_task_idem n.agent_task,
    payload_idem (normal_application_effect enc) application_effect_idem n.application_effect,
    payload_idem (normal_media_effect enc) media_effect_idem n.media_effect,
    payload_idem (normal_wait enc) wait_idem n.wait,
    payload_idem (normal_if enc) if_idem n.if_node,
    payload_idem (normal_parallel enc) parallel_idem n.parallel,
    payload_idem (normal_map enc) map_node_idem n.map_node,
    payload_idem (normal_subworkflow enc) subworkflow_idem n.subworkflow,
    payload_idem (normal_compensation enc) compensation_idem n.compensation,
    payload_idem (normal_return enc) return_idem n.return_node,
  )

  schema_idem : (s : String) → schema_or_true enc (schema_or_true enc s) ≡ schema_or_true enc s
  unfolding normalize_json
  schema_idem s = elim (Option-cases (enc.canonical s)) [
    | inl e ↦ ground (arith, law.canonical_true)
    | inr (w, e) ↦ ground (
      arith,
      law.canonical_true,
      law.canonical_fixed s w e,
      law.canonical_valid s w e,
      law.invalid_empty,
    )
  ]

  pub clone_nodes_idem :
      (ns : List Node) → clone_nodes enc (clone_nodes enc ns) ≡ clone_nodes enc ns
  unfolding clone_nodes
  clone_nodes_idem ns = map_idem (normalize_node enc) normalize_node_idem ns

  pub normalize_draft_idem :
      (d : DefinitionDraft)
      → normalize_definition_draft enc (normalize_definition_draft enc d)
        ≡ normalize_definition_draft enc d
  unfolding normalize_definition_draft clone_nodes
  normalize_draft_idem d = ground (
    arith,
    trim_idem d.id,
    trim_idem d.name,
    schema_idem d.input_schema,
    schema_idem d.output_schema,
    map_idem (normalize_node enc) normalize_node_idem d.nodes,
    normalize_limits_idem d.limits,
    normalize_definition_policy_idem d.policy,
  )

  -- A normalized draft holds its nodes as a clone of them does.
  pub clone_normal :
      (d : DefinitionDraft)
      → clone_nodes enc (normalize_definition_draft enc d).nodes
        ≡ (normalize_definition_draft enc d).nodes
  unfolding normalize_definition_draft clone_nodes
  clone_normal d = map_idem (normalize_node enc) normalize_node_idem (clone_nodes enc d.nodes)
