-- ===== src/Workflow/Compiling.antt =====
-- go/agent-runtime/workflow/definition.go: the compilation of a draft and the check of a Definition.
use gaoge_agent_runtime.Prelude.{
  ltb, String, Bool, not, ◌&&◌, ◌||◌, none, some, length, text_eq, trim_space, if◌then◌else◌,
  Result, ok, err, ◌>>=◌,
}
use gaoge_agent_runtime.Prelude.Int.{pos, is_negative, is_positive, leb_ℤ}
use gaoge_agent_runtime.Workflow.{
  Error, invalid_definition, definition_hash_mismatch, DefinitionPolicy, Limits, DefinitionDraft,
  Definition, Encoding,
}
use gaoge_agent_runtime.Workflow.Normalizing.{clone_nodes, normalize_definition_draft}
use gaoge_agent_runtime.Workflow.Validation.{valid_definition_nodes}

-- `validLimits`.
unfoldable pub valid_limits : Limits → Bool
valid_limits l =
    is_positive l.max_node_activations
    && is_positive l.max_effects
    && is_positive l.max_segments
    && is_positive l.max_activations_per_segment
    && leb_ℤ l.max_activations_per_segment l.max_node_activations
    && leb_ℤ (pos 1024) l.max_state_bytes
    && is_positive l.max_fan_out
    && is_positive l.max_concurrency
    && leb_ℤ l.max_concurrency l.max_fan_out
    && is_positive l.max_nested_depth
    && is_positive l.max_attempts_per_effect

-- `validDefinitionPolicy`.
unfoldable pub valid_definition_policy : DefinitionPolicy → Bool
valid_definition_policy p =
    (text_eq p.cost_class "none"
      || text_eq p.cost_class "low"
      || text_eq p.cost_class "medium"
      || text_eq p.cost_class "high"
      || text_eq p.cost_class "external_billing")
    && (text_eq p.side_effect_class "none"
        || text_eq p.side_effect_class "read"
        || text_eq p.side_effect_class "write"
        || text_eq p.side_effect_class "destructive")
    && not (is_negative p.max_cost_units)

module _ (enc : Encoding) where
  -- `validDefinitionEnvelope`.
  unfoldable pub valid_definition_envelope : DefinitionDraft → Bool
  unfolding valid_limits valid_definition_policy
  valid_definition_envelope d =
      not (text_eq d.id "")
      && is_positive d.revision
      && not (text_eq d.name "")
      && enc.valid d.input_schema
      && enc.valid d.output_schema
      && ltb 0 (length d.nodes)
      && valid_limits d.limits
      && valid_definition_policy d.policy

  -- `validateDefinitionDraft`: each refusal is `ErrInvalidDefinition`, joined with what a schema failed on.
  unfoldable pub validate_definition_draft : DefinitionDraft → Result Error (Unit {0})
  unfolding valid_definition_envelope valid_definition_nodes
  validate_definition_draft d =
      if valid_definition_envelope d
        && enc.compiles d.input_schema
        && enc.compiles d.output_schema
        && valid_definition_nodes enc d.nodes d.limits
      then ok tt
      else err invalid_definition

  -- `definitionHash`, of the content of a Definition.
  unfoldable pub definition_hash : DefinitionDraft → Result Error String
  unfolding clone_nodes
  definition_hash d = elim (enc.digest (record d { nodes = clone_nodes enc d.nodes })) [
    | none ↦ err invalid_definition
    | some h ↦ ok h
  ]

  -- `CompileDefinition`, of a draft that is normalized and valid.
  unfoldable pub compile_normal : DefinitionDraft → Result Error Definition
  unfolding definition_hash clone_nodes
  compile_normal d =
      definition_hash (record d { nodes = clone_nodes enc d.nodes })
      >>= (λ h. ok (record { content = record d { nodes = clone_nodes enc d.nodes }; hash = h }))

  -- `CompileDefinition`.
  unfoldable pub compile_definition : DefinitionDraft → Result Error Definition
  unfolding normalize_definition_draft validate_definition_draft compile_normal
  compile_definition d =
      validate_definition_draft (normalize_definition_draft enc d)
      >>= (λ _. compile_normal (normalize_definition_draft enc d))

  -- The comparison at the end of `ValidateDefinition`.
  unfoldable pub check_hash : String → String → Result Error (Unit {0})
  check_hash h frozen =
      if text_eq h (trim_space frozen) then ok tt else err definition_hash_mismatch

  -- `ValidateDefinition`.
  unfoldable pub validate_definition : Definition → Result Error (Unit {0})
  unfolding normalize_definition_draft validate_definition_draft definition_hash check_hash
  validate_definition d =
      validate_definition_draft (normalize_definition_draft enc d.content) >>= (λ _.
        definition_hash (normalize_definition_draft enc d.content) >>= (λ h. check_hash h d.hash))
