-- ===== src/Execution/Finishing.antt =====
-- go/agent-runtime/workflow/execution_advanced.go and execution.go: the end of an activation.
use Prim.Native.String.{◌++◌ as join}
use gaoge_agent_runtime.Prelude.{
  ℕ, String, Bool, true, false, not, ◌&&◌, ◌||◌, Option, none, some, List, [], ◌∷◌, ◌++◌, get_elem?,
  update_at, text_eq, if◌then◌else◌, Result, ok, err, ◌>>=◌,
}
use gaoge_agent_runtime.Prelude.Tables.{Table, assign}
use gaoge_agent_runtime.Kernel.{RunStatus}
use gaoge_agent_runtime.Workflow.{
  Encoding, Node, node_parallel, node_map, other_node, CompensationNode,
}
use gaoge_agent_runtime.Workflow.Successors.{next_node_index, is_compensation}
use gaoge_agent_runtime.Execution.{
  Error, invalid_execution, Activation, ActivationStatus, Effect, EffectStatus, EffectOutcome,
  Compensation, CompensationStatus, View, Write, kept, Reader,
}
use gaoge_agent_runtime.Execution.Values.{resolve_value_source, point}
use gaoge_agent_runtime.Execution.Failing.{
  is_pending, effect_index_by_id, abort_activation_effects, begin_failure, fail, running_write,
  yield,
}
use gaoge_agent_runtime.Execution.Outcomes.{Progress, settle_outcomes}

abbrev pub put_activation : View → ℕ → (Activation → Activation) → View
put_activation s i f = record s { activations = update_at i f s.activations }

abbrev is_done : EffectStatus → Bool
is_done EffectStatus.completed = true
is_done _ = false

-- `pendingEffectIndices`.
unfoldable pub pending_effect_indices : List Effect → List String → Result Error (List ℕ)
unfolding effect_index_by_id get_elem?
pending_effect_indices effects [] = ok []
pending_effect_indices effects (id ∷ ids) = elim (effect_index_by_id effects id) [
  | none ↦ err invalid_execution
  | some i ↦ pending_effect_indices effects ids >>= (λ rest. elim (get_elem? effects i) [
    | none ↦ err invalid_execution
    | some e ↦ ok (if is_pending e.status then i ∷ rest else rest)
  ])
]

abbrev or_invalid : Option String → Result Error String
or_invalid none = err invalid_execution
or_invalid (some v) = ok v

module _ (enc : Encoding) (reader : Reader) where
  -- The loop of `aggregateEffectOutputs`: the outputs, and the ones that have a key.
  unfoldable pub gather_outputs :
      List Effect → List String → Result Error (List String × Table String)
  unfolding effect_index_by_id get_elem? assign
  gather_outputs effects [] = ok ([], [])
  gather_outputs effects (id ∷ ids) = elim (effect_index_by_id effects id) [
    | none ↦ err invalid_execution
    | some i ↦ elim (get_elem? effects i) [
      | none ↦ err invalid_execution
      | some e ↦
          if not (is_done e.status) || not (enc.valid e.output)
          then err invalid_execution
          else gather_outputs effects ids >>= (λ rest. ok (
            e.output ∷ rest.0,
            if text_eq e.output_key "" then rest.1 else (e.output_key, e.output) ∷ rest.1,
          ))
    ]
  ]

  abbrev single : List String → Result Error String
  single (v ∷ []) = ok v
  single _ = err invalid_execution

  -- `aggregateEffectOutputs`: the encoder sorts the keys of an object.
  unfoldable pub aggregate_effect_outputs : List Effect → Node → List String → Result Error String
  unfolding gather_outputs
  aggregate_effect_outputs effects n ids = gather_outputs effects ids >>= (λ outputs.
      elim n.node_type [
        | node_parallel ↦ or_invalid (reader.object outputs.1)
        | node_map ↦ or_invalid (reader.array outputs.0)
        | other_node _ ↦ err invalid_execution
        | _ ↦ single outputs.0
      ])

  -- The input of an undo: it may be the output of the do, which is not yet an output of the state.
  unfoldable pub undo_input : View → Node → CompensationNode → String → Result Error String
  unfolding resolve_value_source point
  undo_input s n c output = elim (resolve_value_source enc reader s c.undo_call.input "" 0) [
    | ok input ↦ ok input
    | err e ↦
        if text_eq c.undo_call.input.kind "node_output" && text_eq c.undo_call.input.node_id n.id
        then point enc reader output c.undo_call.input.pointer
        else err e
  ]

  abbrev pub undo_of : String → Node → CompensationNode → String → Compensation
  undo_of id n c input = record {
    id = id;
    node_id = n.id;
    call = c.undo_call;
    input = input;
    status = CompensationStatus.pending;
    effect_id = "";
    receipt_id = "";
    error_code = "";
    error = "";
  }

  -- `registerCompensation`, of the identifier that `NewID` gave or of its error; an error is its text.
  unfoldable pub register_undo :
      View → Node → String → Result String String → Option CompensationNode → Result String View
  unfolding undo_input
  register_undo s n output id none = err "invalid workflow execution"
  register_undo s n output id (some c) = elim (undo_input s n c output) [
    | err e ↦ err "invalid workflow execution"
    | ok input ↦ elim id [
      | err refused ↦ err refused
      | ok name ↦ ok (record s { compensations = s.compensations ++ (undo_of name n c input ∷ []) })
    ]
  ]

  -- `registerCompensation`, for a node that has one.
  unfoldable pub register_compensation :
      View → Node → String → Result String String → Result String View
  unfolding register_undo
  register_compensation s n output id =
      if is_compensation n.node_type then register_undo s n output id n.compensation else ok s

  -- The end of `finishEffectActivation`, of the state with what it has registered.
  unfoldable pub move_on : View → Node → String → Write
  unfolding next_node_index begin_failure
  move_on s n activation_id = elim (next_node_index s.definition.content.nodes s.current_node n) [
    | none ↦ fail s "workflow.next_invalid" "invalid workflow execution"
    | some next ↦
        running_write (record s { current_node = next }) kept "workflow.effect.completed"
          activation_id
  ]

  abbrev pub completed_activation : String → Activation → Activation
  completed_activation output x = record x { status = ActivationStatus.completed; output = output }

  -- `finishEffectActivation`.
  unfoldable pub finish_effect_activation :
      View → Node → ℕ → Activation → String → Result String String → Write
  unfolding register_compensation move_on begin_failure update_at
  finish_effect_activation s n i a output compensation_id =
      elim (register_compensation (put_activation s i (completed_activation output)) n output
        compensation_id) [
          | err cause ↦
              fail (put_activation s i (completed_activation output))
                "workflow.compensation_register" cause
          | ok registered ↦ move_on registered n a.id
        ]

  abbrev pub failed_activation : String → String → Activation → Activation
  failed_activation code detail x = record x {
    status = ActivationStatus.failed;
    error_code = code;
    error = detail;
  }

  -- The end of `applyEffectOutcomes` without a failure, and `failAdvancedEffect`.
  unfoldable pub conclude :
      View → Bool → Node → ℕ → Activation → Result String String → Result Error Write
  unfolding pending_effect_indices aggregate_effect_outputs finish_effect_activation
      abort_activation_effects begin_failure update_at
  conclude s retried n i a compensation_id = elim (pending_effect_indices s.effects a.effect_ids) [
    | err e ↦ err e
    | ok (p ∷ ps) ↦ ok (yield s (if retried then "effect_retry_scheduled" else "effect_pending"))
    | ok [] ↦ elim (aggregate_effect_outputs s.effects n a.effect_ids) [
      | err e ↦ ok (
          begin_failure
            (abort_activation_effects
              (put_activation s i
                (failed_activation "workflow.effect_output" "invalid workflow execution"))
              a.effect_ids)
            RunStatus.failed "workflow.effect_output"
            "workflow effect failed\ninvalid workflow execution")
      | ok output ↦ ok (finish_effect_activation s n i a output compensation_id)
    ]
  ]

  -- `applyEffectOutcomes`, after its loop.
  unfoldable pub judge :
      Progress → Node → ℕ → Activation → Result String String → Result Error Write
  unfolding conclude abort_activation_effects begin_failure update_at
  judge p n i a compensation_id = elim p.failure [
    | none ↦ conclude p.state p.retry_scheduled n i a compensation_id
    | some (code, detail, cause) ↦ ok (
        begin_failure
          (abort_activation_effects (put_activation p.state i (failed_activation code detail))
            a.effect_ids)
          RunStatus.failed code (join "workflow effect failed\n" cause))
  ]

  -- `applyEffectOutcomes`.
  unfoldable pub apply_effect_outcomes :
      (Effect → Option String)
      → View
      → Node
      → ℕ
      → Activation
      → List EffectOutcome
      → Result String String
      → Result Error Write
  unfolding settle_outcomes judge
  apply_effect_outcomes ensure s n i a outcomes compensation_id =
      settle_outcomes enc ensure (record { state = s; failure = none; retry_scheduled = false })
        outcomes
      >>= (λ p. judge p n i a compensation_id)
