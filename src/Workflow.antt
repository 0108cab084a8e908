-- ===== src/Workflow.antt =====
-- go/agent-runtime/workflow/definition.go, nodes.go and registry.go: the data of a Workflow Definition. A raw
-- JSON message is its text, with the empty one for nil, and an integer that may be negative is a ℤ.
pub mod Names
pub mod Normalizing
pub mod Calls
pub mod Payloads
pub mod Validation
pub mod Compiling
pub mod Successors
pub mod Positions
pub mod Paths
pub mod Canonical
pub mod Frozen
use gaoge_agent_runtime.Prelude.{String, Bool, Option, List}
use gaoge_agent_runtime.Prelude.Int.{ℤ}

-- `ErrInvalidDefinition` and `ErrDefinitionHash`.
pub data Error : Type 0 where
  invalid_definition definition_hash_mismatch : Error

-- `NodeType`, with what is not one of its constants.
pub data NodeType : Type 0 where
  node_effect node_agent_task node_application_effect node_media_effect node_wait node_if : NodeType
  node_parallel node_map node_subworkflow node_compensation node_return : NodeType
  other_node : String → NodeType

pub record DefinitionPolicy : Type 0 where
  pub required_permissions : List String
  pub cost_class : String
  pub max_cost_units : ℤ
  pub side_effect_class : String

pub record Limits : Type 0 where
  pub max_node_activations : ℤ
  pub max_effects : ℤ
  pub max_segments : ℤ
  pub max_activations_per_segment : ℤ
  pub max_state_bytes : ℤ
  pub max_fan_out : ℤ
  pub max_concurrency : ℤ
  pub max_nested_depth : ℤ
  pub max_attempts_per_effect : ℤ

pub record ValueSource : Type 0 where
  pub kind : String
  pub value : String
  pub node_id : String
  pub pointer : String

pub record RetryPolicy : Type 0 where
  pub max_attempts : ℤ
  pub retryable_error_codes : List String

pub record DefinitionReference : Type 0 where
  pub id : String
  pub revision : ℤ
  pub hash : String

pub record EffectCall : Type 0 where
  pub class : String
  pub kind : String
  pub revision : String
  pub input : ValueSource
  pub definition : Option DefinitionReference
  pub max_cost_units : ℤ
  pub retry : RetryPolicy

pub record EffectNode : Type 0 where
  pub kind : String
  pub input : String
  pub from_input : Bool
  pub source : Option ValueSource
  pub max_cost_units : ℤ
  pub retry : RetryPolicy

pub record WaitNode : Type 0 where
  pub kind : String
  pub payload : String
  pub source : Option ValueSource

pub record ReturnNode : Type 0 where
  pub value : String
  pub from_node : String
  pub source : Option ValueSource

pub record AgentTaskNode : Type 0 where
  pub agent_key : String
  pub revision : String
  pub input : ValueSource
  pub max_cost_units : ℤ
  pub retry : RetryPolicy

pub record ApplicationEffectNode : Type 0 where
  pub capability_key : String
  pub revision : String
  pub input : ValueSource
  pub max_cost_units : ℤ
  pub retry : RetryPolicy

pub record MediaEffectNode : Type 0 where
  pub capability_key : String
  pub revision : String
  pub input : ValueSource
  pub max_cost_units : ℤ
  pub retry : RetryPolicy

pub record IfNode : Type 0 where
  pub condition : ValueSource
  pub then_node_id : String
  pub else_node_id : String

pub record ParallelBranch : Type 0 where
  pub id : String
  pub call : EffectCall

pub record ParallelNode : Type 0 where
  pub branches : List ParallelBranch
  pub max_concurrency : ℤ

pub record MapNode : Type 0 where
  pub items : ValueSource
  pub call : EffectCall
  pub max_concurrency : ℤ

pub record SubworkflowNode : Type 0 where
  pub definition : DefinitionReference
  pub input : ValueSource
  pub max_cost_units : ℤ
  pub retry : RetryPolicy

-- Its fields are `Do` and `Undo`.
pub record CompensationNode : Type 0 where
  pub do_call : EffectCall
  pub undo_call : EffectCall

-- The payloads `If`, `Map` and `Return` carry the word node.
pub record Node : Type 0 where
  pub id : String
  pub node_type : NodeType
  pub next : String
  pub effect : Option EffectNode
  pub agent_task : Option AgentTaskNode
  pub application_effect : Option ApplicationEffectNode
  pub media_effect : Option MediaEffectNode
  pub wait : Option WaitNode
  pub if_node : Option IfNode
  pub parallel : Option ParallelNode
  pub map_node : Option MapNode
  pub subworkflow : Option SubworkflowNode
  pub compensation : Option CompensationNode
  pub return_node : Option ReturnNode

-- `DefinitionDraft`, and `definitionHashMaterial`, which has the same fields.
pub record DefinitionDraft : Type 0 where
  pub id : String
  pub revision : ℤ
  pub name : String
  pub input_schema : String
  pub output_schema : String
  pub nodes : List Node
  pub limits : Limits
  pub policy : DefinitionPolicy

-- `Definition`: its fields but the hash are those of a draft.
pub record Definition : Type 0 where
  pub content : DefinitionDraft
  pub hash : String

-- Code outside the Workflow: `json.Valid`; a value decoded and encoded again, if both succeed; whether
-- `jsoncontract.Compile` accepts a schema; and the digest of the encoded material, if it can be encoded.
pub record Encoding : Type 0 where
  pub valid : String → Bool
  pub canonical : String → Option String
  pub compiles : String → Bool
  pub digest : DefinitionDraft → Option String
