-- ===== src/Execution/Advancing.antt =====
-- go/agent-runtime/workflow/execution.go: one write of a segment, of the answer to a Wait and of a cancellation.
use gaoge_agent_runtime.Prelude.{
  ℕ, suc, leb, String, Bool, true, false, not, ◌&&◌, Option, none, some, is_some, List, [], ◌∷◌,
  get_elem?, update_at, index_where, text_eq, is_blank, trim_space, if◌then◌else◌, Result, ok, err,
  ◌>>=◌, ◌==◌, ◌⊎◌, inl, inr,
}
use gaoge_agent_runtime.Prelude.Int.{pos, leb_ℤ}
use gaoge_agent_runtime.Kernel.{RunStatus, Checkpoint, CheckpointStatus}
use gaoge_agent_runtime.Workflow.{
  Definition, Encoding, Node, NodeType, node_if, node_wait, node_return,
}
use gaoge_agent_runtime.Workflow.Successors.{next_node_index}
use gaoge_agent_runtime.Execution.{
  Error, invalid_execution, wait_pending, conflict, Activation, ActivationStatus, Effect,
  EffectOutcome, Answer, Wait, WaitStatus, View, Write, Reader, SegmentBudget, answered,
}
use gaoge_agent_runtime.Execution.Plans.{node_has_effects}
use gaoge_agent_runtime.Execution.Failing.{begin_failure, fail, yield, running_write}
use gaoge_agent_runtime.Execution.Starting.{
  prepare_node_effects, prepare_wait, execute_if, complete,
}
use gaoge_agent_runtime.Execution.Finishing.{
  pending_effect_indices, aggregate_effect_outputs, finish_effect_activation, apply_effect_outcomes,
}
use gaoge_agent_runtime.Execution.Undoing.{run_compensations}

-- `activationIndex`.
unfoldable pub activation_index : List Activation → ℕ → Option ℕ
unfolding index_where
activation_index members node_index =
    index_where (λ (a : Activation). a.node_index == node_index) members

unfoldable pub activation_index_by_id : List Activation → String → Option ℕ
unfolding index_where
activation_index_by_id members id = index_where (λ (a : Activation). text_eq a.id id) members

unfoldable pub wait_index_by_id : List Wait → String → Option ℕ
unfolding index_where
wait_index_by_id ws id = index_where (λ (w : Wait). text_eq w.id id) ws

-- What a segment is given: the readers of JSON, the relation recorder, the executor, the output schema, and
-- new identifiers; that of a compensation may be refused, with the text of the error.
pub record Host : Type 0 where
  pub enc : Encoding
  pub reader : Reader
  pub ensure : Effect → Option String
  pub execute : Effect → Answer
  pub accepts : String → Bool
  pub new_id : String → ℕ → String
  pub new_compensation : Result String String

-- `executeEffectBatch`: the outcomes stand in the order of the effects, however the calls overlap.
unfoldable pub execute_effect_batch : Host → List Effect → List ℕ → List EffectOutcome
unfolding get_elem?
execute_effect_batch h effects [] = []
execute_effect_batch h effects (i ∷ is) = elim (get_elem? effects i) [
  | none ↦ execute_effect_batch h effects is
  | some e ↦ record { effect_index = i; answer = h.execute e } ∷ execute_effect_batch h effects is
]

-- `advanceNodeEffects`, of the activation at the position.
unfoldable pub advance_activation :
    Host → View → Node → ℕ → Activation → SegmentBudget → Result Error Write
unfolding pending_effect_indices aggregate_effect_outputs finish_effect_activation
    apply_effect_outcomes execute_effect_batch
advance_activation h s n i a segment = elim (pending_effect_indices s.effects a.effect_ids) [
  | err e ↦ err e
  | ok [] ↦
      aggregate_effect_outputs h.enc h.reader s.effects n a.effect_ids
      >>= (λ output. ok (finish_effect_activation h.enc h.reader s n i a output h.new_compensation))
  | ok (p ∷ ps) ↦
      if leb 1 segment.effects
      then ok (yield s "effect_budget")
      else apply_effect_outcomes h.enc h.reader h.ensure s n i a
          (execute_effect_batch h s.effects (p ∷ ps)) h.new_compensation
]

-- `advanceNodeEffects`.
unfoldable pub advance_node_effects : Host → View → Node → SegmentBudget → Result Error Write
unfolding activation_index get_elem? advance_activation
advance_node_effects h s n segment = elim (activation_index s.activations s.current_node) [
  | none ↦ err invalid_execution
  | some i ↦ elim (get_elem? s.activations i) [
    | none ↦ err invalid_execution
    | some a ↦ advance_activation h s n i a segment
  ]
]

-- The switch of `activateNode` over the nodes without effects.
unfoldable pub start_plain_node : Host → View → Node → NodeType → Result Error Write
unfolding prepare_wait execute_if complete
start_plain_node h s n node_if = elim n.if_node [
  | none ↦ err invalid_execution
  | some b ↦ execute_if h.enc h.reader s n b (h.new_id "activation" 0)
]
start_plain_node h s n node_wait = elim n.wait [
  | none ↦ err invalid_execution
  | some w ↦ ok (prepare_wait h.enc h.reader s n w (h.new_id "activation" 0) (h.new_id "wait" 0))
]
start_plain_node h s n node_return = elim n.return_node [
  | none ↦ err invalid_execution
  | some r ↦ ok (complete h.enc h.reader h.accepts s n r (h.new_id "activation" 0))
]
start_plain_node h s n _ = ok (fail s "workflow.node_invalid" "invalid workflow execution")

-- The switch of `activateNode`; the effects that it prepares advance from the state that it leaves.
unfoldable pub start_node : Host → View → Node → Result Error Write
unfolding node_has_effects prepare_node_effects start_plain_node
start_node h s n =
    if node_has_effects n.node_type
    then ok (prepare_node_effects h.enc h.reader s n (h.new_id "activation" 0) (h.new_id "effect"))
    else start_plain_node h s n n.node_type

-- `activateNode`.
unfoldable pub activate_node : Host → View → Node → SegmentBudget → Result Error Write
unfolding start_node
activate_node h s n segment =
    if leb_ℤ s.definition.content.limits.max_activations_per_segment (pos segment.activations)
    then ok (yield s "activation_budget")
    else if leb_ℤ s.definition.content.limits.max_node_activations (pos s.budget.node_activations)
    then ok (fail s "workflow.activation_budget" "workflow budget exceeded")
    else start_node h s n

-- `advance`.
unfoldable pub advance : Host → View → SegmentBudget → Result Error Write
unfolding get_elem? activation_index activate_node advance_node_effects node_has_effects
advance h s segment = elim (get_elem? s.definition.content.nodes s.current_node) [
  | none ↦ ok (fail s "workflow.node_out_of_range" "invalid workflow execution")
  | some n ↦ elim (activation_index s.activations s.current_node) [
    | none ↦ activate_node h s n segment
    | some i ↦
        if node_has_effects n.node_type
        then advance_node_effects h s n segment
        else err invalid_execution
  ]
]

-- One round of the loop of `runSegment`.
unfoldable pub segment_step : Host → View → SegmentBudget → Result Error Write
unfolding advance run_compensations
segment_step h s segment = elim s.failure [
  | none ↦ advance h s segment
  | some f ↦ run_compensations h.enc h.execute s (h.new_id "effect" 0) segment
]

-- The start of `runSegment`: the write that ends the Run, or the state of the segment.
unfoldable pub begin_segment : View → Write ⊎ View
unfolding begin_failure
begin_segment s =
    if leb_ℤ s.definition.content.limits.max_segments (pos s.budget.segments)
    then inl (fail s "workflow.segment_budget" "workflow budget exceeded")
    else inr (record s { budget = record s.budget { segments = suc s.budget.segments } })

abbrev pub has_wait : Wait → Bool
has_wait w = elim w.status [ WaitStatus.pending ↦ true | _ ↦ false ]

-- The state of `resolveWaitState`, of the Wait and its activation.
unfoldable pub resolve_wait_at : View → ℕ → Wait → ℕ → Activation → String → Result Error View
unfolding update_at get_elem? next_node_index
resolve_wait_at s i w k a response = elim (get_elem? s.definition.content.nodes a.node_index) [
  | none ↦ err invalid_execution
  | some n ↦ elim (next_node_index s.definition.content.nodes s.current_node n) [
    | none ↦ err invalid_execution
    | some next ↦ ok (record s {
      waits =
          update_at i (λ (x : Wait). record x { status = WaitStatus.resolved; response = response })
            s.waits;
      activations =
          update_at k
            (λ (x : Activation). record x {
              status = ActivationStatus.completed;
              output = response;
            })
            s.activations;
      current_node = next;
      current_wait_id = "";
    })
  ]
]

-- `resolveWaitState`.
unfoldable pub resolve_wait_state : View → String → Result Error View
unfolding wait_index_by_id activation_index_by_id get_elem? resolve_wait_at
resolve_wait_state s response = elim (wait_index_by_id s.waits s.current_wait_id) [
  | none ↦ err invalid_execution
  | some i ↦ elim (get_elem? s.waits i) [
    | none ↦ err invalid_execution
    | some w ↦ elim (activation_index_by_id s.activations w.activation_id) [
      | none ↦ err invalid_execution
      | some k ↦ elim (get_elem? s.activations k) [
        | none ↦ err invalid_execution
        | some a ↦ resolve_wait_at s i w k a response
      ]
    ]
  ]
]

-- What `load` gives: of the Kernel's snapshot the revision, the status and the checkpoint, and the state.
pub record Loaded : Type 0 where
  pub revision : ℕ
  pub status : RunStatus
  pub checkpoint : Option Checkpoint
  pub state : View

-- The test of `validPendingWait` on the snapshot.
unfoldable pub is_waiting : RunStatus → Option Checkpoint → Bool
is_waiting RunStatus.waiting_input (some c) =
    text_eq c.kind "workflow_wait"
    && (elim c.status [ CheckpointStatus.pending ↦ true | _ ↦ false ])
is_waiting _ _ = false

-- The Wait of `validPendingWait`, at its position.
unfoldable pub pending_wait : View → Option (ℕ × Wait)
unfolding wait_index_by_id activation_index_by_id get_elem?
pending_wait s = elim (wait_index_by_id s.waits s.current_wait_id) [
  | none ↦ none
  | some i ↦ elim (get_elem? s.waits i) [
    | none ↦ none
    | some w ↦
        if has_wait w && is_some (activation_index_by_id s.activations w.activation_id)
        then some (i, w)
        else none
  ]
]

-- `validPendingWait`.
unfoldable pub valid_pending_wait : Loaded → Bool
unfolding is_waiting pending_wait
valid_pending_wait l =
    is_waiting l.status l.checkpoint
    && not (text_eq l.state.current_wait_id "")
    && is_some (pending_wait l.state)

-- `ResolveWait`, up to its write, of what was loaded, the expected revision and the response.
unfoldable pub resolve_wait : Encoding → Loaded → ℕ → String → Result Error Write
unfolding resolve_wait_state valid_pending_wait
resolve_wait enc l expected_revision response =
    if not (enc.valid response)
    then err invalid_execution
    else if not (l.revision == expected_revision)
    then err conflict
    else if not (valid_pending_wait l)
    then err wait_pending
    else resolve_wait_state l.state response >>= (λ t.
      ok (running_write t (answered response) "workflow.wait.resolved" l.state.current_wait_id))

-- `Cancel`, of the state of a Run that is running or waits.
unfoldable pub cancel : View → String → Write
unfolding begin_failure
cancel s reason =
    begin_failure s RunStatus.cancelled "workflow.cancelled"
      (if is_blank reason then "workflow cancellation requested" else trim_space reason)

-- The state that `StartRun` writes.
abbrev pub new_state : Definition → String → ℕ → View
new_state d input nested_depth = record {
  definition = d;
  input = input;
  nested_depth = nested_depth;
  current_node = 0;
  activations = [];
  effects = [];
  waits = [];
  current_wait_id = "";
  compensations = [];
  failure = none;
  budget = record {
    node_activations = 0;
    effects = 0;
    segments = 0;
    cost_units_used = pos 0;
    cost_units_reserved = pos 0;
  };
}

-- What is done with a Run: a round of a segment, the start of one, the answer to a Wait, with the revision, the
-- status and the checkpoint that are loaded and the revision that is expected, and a cancellation.
pub data Call : Type 0 where
  round : Host → SegmentBudget → Call
  begin : Call
  respond : Encoding → ℕ → RunStatus → Option Checkpoint → ℕ → String → Call
  abandon : String → Call

abbrev pub state_or : View → Result Error Write → View
state_or s (err e) = s
state_or s (ok w) = w.state

abbrev pub begun : Write ⊎ View → View
begun (inl w) = w.state
begun (inr t) = t

-- The state after a call; one that is refused leaves it.
unfoldable pub call : View → Call → View
unfolding segment_step begin_segment resolve_wait cancel
call s (round h segment) = state_or s (segment_step h s segment)
call s begin = begun (begin_segment s)
call s (respond enc revision status checkpoint expected response) = state_or s (
    resolve_wait enc
      (record { revision = revision; status = status; checkpoint = checkpoint; state = s }) expected
      response)
call s (abandon reason) = (cancel s reason).state

unfoldable pub run_calls : View → List Call → View
unfolding call
run_calls s [] = s
run_calls s (c ∷ cs) = run_calls (call s c) cs
