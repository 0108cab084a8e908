-- ===== src/Tests/Workflows.antt =====
-- The theorems on go/agent-runtime/workflow, applied to a small Definition and an execution of it.
use Prim.Native.Char.{Char}
use gaoge_agent_runtime.Prelude.{
  ℕ, zero, suc, ◌-◌, ◌≤◌, String, Bool, true, false, none, some, List, [], ◌∷◌, length, text_eq,
  text_dec, get_elem?, if◌then◌else◌, ◌≡◌, ◌≢◌, refl, sym, ap, ◌∙◌, arith, Result, ok, err, All,
  not, trim_space,
}
use gaoge_agent_runtime.Prelude.Int.{pos, ◌-ℤ◌, ◌+ℤ◌}
use gaoge_agent_runtime.Prelude.Tables.{lookup, assign}
use gaoge_agent_runtime.Workflow.Payloads.{valid_if_node}
use gaoge_agent_runtime.Workflow.{
  NodeType, node_effect, node_if, node_return, node_compensation, ValueSource, RetryPolicy,
  EffectCall, Node, Limits, DefinitionDraft, Definition, Encoding,
}
use gaoge_agent_runtime.Workflow.Compiling.{compile_definition, validate_definition}
use gaoge_agent_runtime.Workflow.Normalizing.{normalize_definition_draft}
use gaoge_agent_runtime.Workflow.Validation.{valid_definition_nodes}
use gaoge_agent_runtime.Workflow.Canonical.{IsEncoding}
use gaoge_agent_runtime.Workflow.Frozen.{IsCollision, compile-validate, frozen_content}
use gaoge_agent_runtime.Workflow.Paths.{run_nodes, Leads, valid_nodes-end}
use gaoge_agent_runtime.Execution.{
  Error, wait_pending, ActivationStatus, WaitStatus, observed, EffectDisposition, Reader, View,
  Write, Compensation, CompensationStatus,
}
use gaoge_agent_runtime.Kernel.{RunStatus, CheckpointStatus}
use gaoge_agent_runtime.Execution.Failing.{yield}
use gaoge_agent_runtime.Execution.Accounts.{IsAccounted}
use gaoge_agent_runtime.Execution.Advancing.{
  Host, new_state, Loaded, Call, round, begin, abandon, run_calls, resolve_wait,
}
use gaoge_agent_runtime.Execution.Undoing.{next_compensation_position, is_undone}
use gaoge_agent_runtime.Execution.Budgeting.{IsFreshCall, compiled-IsAccounted}
use gaoge_agent_runtime.Execution.Ordering.{IsTaken, resolve_once, undo_order}

-- Every text but the empty one is JSON in its normal form, and every content has one digest.
abbrev plain : Encoding
plain = record {
  valid = λ v. not (text_eq v "");
  canonical = λ v. if text_eq v "" then none else some v;
  compiles = λ v. true;
  digest = λ d. some "ab";
}

ab_trimmed : trim_space "ab" ≡ "ab"
unfolding trim_space
ab_trimmed = refl

plain-IsEncoding : IsEncoding plain
unfolding text_dec
plain-IsEncoding = record {
  invalid_empty = refl;
  canonical_true = refl;
  canonical_valid = λ v w h. ground (arith, h);
  canonical_fixed = λ v w h. ground (arith, h);
  digest_trimmed = λ d h e. ground (arith, e, ab_trimmed);
}

abbrev source : String → String → ValueSource
source kind node_id = record { kind = kind; value = ""; node_id = node_id; pointer = "" }

abbrev once : RetryPolicy
once = record { max_attempts = pos 1; retryable_error_codes = [] }

abbrev call_of : String → ValueSource → ℕ → EffectCall
call_of kind input cost = record {
  class = "effect";
  kind = kind;
  revision = "";
  input = input;
  definition = none;
  max_cost_units = pos cost;
  retry = once;
}

abbrev blank : String → NodeType → Node
blank id t = record {
  id = id;
  node_type = t;
  next = "";
  effect = none;
  agent_task = none;
  application_effect = none;
  media_effect = none;
  wait = none;
  if_node = none;
  parallel = none;
  map_node = none;
  subworkflow = none;
  compensation = none;
  return_node = none;
}

-- A charge that can be undone, a choice, a delivery, and the end.
abbrev nodes : List Node
nodes =
    record (blank "charge" node_compensation) {
      compensation = some (record {
        do_call = call_of "charge" (source "workflow_input" "") 3;
        undo_call = call_of "refund" (source "node_output" "charge") 1;
      });
    }
    ∷ record (blank "choose" node_if) {
      if_node = some (record {
        condition = source "workflow_input" "";
        then_node_id = "deliver";
        else_node_id = "end";
      });
    }
    ∷ record (blank "deliver" node_effect) {
      effect = some (record {
        kind = "deliver";
        input = "";
        from_input = true;
        source = none;
        max_cost_units = pos 2;
        retry = once;
      });
    }
    ∷ record (blank "end" node_return) {
      return_node = some (record { value = "done"; from_node = ""; source = none });
    }
    ∷ []

abbrev chosen : Node
chosen = record (blank "choose" node_if) {
  if_node = some (record {
    condition = source "workflow_input" "";
    then_node_id = "deliver";
    else_node_id = "end";
  });
}

abbrev limits : Limits
limits = record {
  max_node_activations = pos 16;
  max_effects = pos 4;
  max_segments = pos 8;
  max_activations_per_segment = pos 4;
  max_state_bytes = pos 4096;
  max_fan_out = pos 2;
  max_concurrency = pos 1;
  max_nested_depth = pos 1;
  max_attempts_per_effect = pos 2;
}

abbrev draft : DefinitionDraft
draft = record {
  id = "order";
  revision = pos 1;
  name = "Order";
  input_schema = "true";
  output_schema = "true";
  nodes = nodes;
  limits = limits;
  policy = record {
    required_permissions = [];
    cost_class = "low";
    max_cost_units = pos 5;
    side_effect_class = "write";
  };
}

abbrev definition : Definition
definition = record { content = draft; hash = "ab" }

compiled : compile_definition plain draft ≡ ok definition
unfolding compile_definition text_dec trim_space lookup assign valid_if_node
compiled = refl

nodes_valid : valid_definition_nodes plain nodes limits ≡ true
unfolding valid_definition_nodes text_dec lookup assign valid_if_node
nodes_valid = refl

compile-validate_example : validate_definition plain definition ≡ ok tt
compile-validate_example = compile-validate plain plain-IsEncoding draft definition compiled

second_node : get_elem? nodes 1 ≡ some chosen
unfolding get_elem?
second_node = refl

valid_nodes-end_example :
    (run_nodes nodes (λ i. false) (length nodes) 0 ≡ some (length nodes - 1))
    × (run_nodes nodes (λ i. false) (length nodes) 1 ≡ some (length nodes - 1))
    × Leads nodes false 1 chosen
valid_nodes-end_example =
    valid_nodes-end plain limits nodes (λ i. false) 1 chosen nodes_valid second_node

-- Another content under the hash of the first.
abbrev forged : Definition
forged = record { content = record draft { name = "Other" }; hash = "ab" }

forged_valid : validate_definition plain forged ≡ ok tt
unfolding validate_definition text_dec trim_space lookup assign valid_if_node
forged_valid = refl

forged_name : (normalize_definition_draft plain forged.content).name ≡ "Other"
unfolding normalize_definition_draft trim_space
forged_name = refl

forged_differs : normalize_definition_draft plain forged.content ≢ definition.content
unfolding text_dec
forged_differs p =
    let e : "Other" ≡ "Order" = sym forged_name ∙ ap (λ (d : DefinitionDraft). d.name) p in
    let different : false ≡ true = ap (λ t. text_eq t "Order") e in ground arith

frozen_content_example :
    IsCollision plain (normalize_definition_draft plain forged.content) definition.content
frozen_content_example =
    frozen_content plain plain-IsEncoding draft definition forged compiled forged_valid ab_trimmed
      forged_differs

-- Identifiers that count.
tally : Char → ℕ → String
tally c zero = ""
tally c (suc n) = String.◌∷◌ c (tally c n)

rest_of : String → String
rest_of String.[] = ""
rest_of (String.◌∷◌ c s) = s

is_empty : String → Bool
is_empty String.[] = true
is_empty (String.◌∷◌ c s) = false

tally_injective : (c : Char) (i j : ℕ) → tally c i ≡ tally c j → i ≡ j
unfolding tally rest_of is_empty
tally_injective c zero zero h = refl
tally_injective c zero (suc j) h = let p : true ≡ false = ap is_empty h in absurd (ground arith)
tally_injective c (suc i) zero h = let p : false ≡ true = ap is_empty h in absurd (ground arith)
tally_injective c (suc i) (suc j) h = ap suc (tally_injective c i j (ap rest_of h))

abbrev reader : Reader
reader = record {
  pointer = λ v p. none;
  members = λ v. none;
  boolean = λ v. some true;
  object = λ o. none;
  array = λ a. none;
}

-- Each effect ends with a receipt of the given cost.
abbrev host : Char → ℕ → Host
host c cost = record {
  enc = plain;
  reader = reader;
  ensure = λ e. none;
  execute = λ e. observed (record {
    disposition = EffectDisposition.completed;
    child_run_id = "";
    receipt_id = "r";
    output = "done";
    error_code = "";
    error_detail = "";
    cost_units = pos cost;
  });
  accepts = λ v. true;
  new_id = λ kind n. String.◌∷◌ c (tally c n);
  new_compensation = ok (String.◌∷◌ c "");
}

abbrev host_round : Char → ℕ → Call
host_round c cost = round (host c cost) (record { activations = 0; effects = 0 })

-- The charge, its receipt, the choice and the delivery, then a cancellation and the refund.
abbrev calls : List Call
calls =
    begin
    ∷ host_round "a" 2
    ∷ host_round "a" 2
    ∷ host_round "b" 0
    ∷ host_round "c" 1
    ∷ host_round "c" 1
    ∷ abandon "stop"
    ∷ host_round "d" 1
    ∷ host_round "d" 1
    ∷ []

fresh_ids :
    (c : Char) (cost i j : ℕ)
    → (host c cost).new_id "effect" i ≡ (host c cost).new_id "effect" j
    → i ≡ j
unfolding rest_of
fresh_ids c cost i j h = tally_injective c i j (ap rest_of h)

calls_fresh : All IsFreshCall calls
unfolding IsFreshCall
calls_fresh = (
  tt,
  (
    fresh_ids "a" 2,
    (
      fresh_ids "a" 2,
      (
        fresh_ids "b" 0,
        (fresh_ids "c" 1, (fresh_ids "c" 1, (tt, (fresh_ids "d" 1, (fresh_ids "d" 1, tt))))),
      ),
    ),
  ),
)

compiled-IsAccounted_example : IsAccounted definition (run_calls (new_state definition "1" 0) calls)
compiled-IsAccounted_example =
    compiled-IsAccounted plain plain-IsEncoding draft definition compiled "1" 0 calls calls_fresh

abbrev undo_state : CompensationStatus → Compensation
undo_state status = record {
  id = "u";
  node_id = "charge";
  call = call_of "refund" (source "workflow_input" "") 1;
  input = "1";
  status = status;
  effect_id = "";
  receipt_id = "";
  error_code = "";
  error = "";
}

abbrev undos : List Compensation
undos =
    undo_state CompensationStatus.pending
    ∷ undo_state CompensationStatus.pending
    ∷ undo_state CompensationStatus.completed
    ∷ []

undos_next : next_compensation_position undos ≡ some 1
unfolding next_compensation_position
undos_next = refl

undos_first : get_elem? undos 0 ≡ some (undo_state CompensationStatus.pending)
unfolding get_elem?
undos_first = refl

undo_order_example :
    ((next : Compensation) × (get_elem? undos 1 ≡ some next) × (is_undone next.status ≡ false))
    × (0 ≤ 1)
undo_order_example =
    undo_order undos 1 0 (undo_state CompensationStatus.pending) undos_next undos_first refl

abbrev final : View
unfolding run_calls
final = run_calls (new_state definition "1" 0) calls

-- The charge cost 2, the delivery 1 and the refund 1.
final_cost : (final.budget.cost_units_used ≡ pos 4) × (final.budget.cost_units_reserved ≡ pos 0)
unfolding run_calls text_dec ◌-ℤ◌ ◌+ℤ◌ tally trim_space
final_cost = (refl, refl)

-- The first node waits.
abbrev waiting_state : View
waiting_state = record (new_state definition "1" 0) {
  activations =
      record {
        id = "a";
        node_id = "charge";
        node_index = 0;
        status = ActivationStatus.waiting;
        attempt = 1;
        effect_id = "";
        effect_ids = [];
        wait_id = "w";
        output = "";
        error_code = "";
        error = "";
      }
      ∷ [];
  waits =
      record {
        id = "w";
        activation_id = "a";
        node_id = "charge";
        kind = "approval";
        payload = "1";
        status = WaitStatus.pending;
        response = "";
      }
      ∷ [];
  current_wait_id = "w";
}

abbrev or_yield : Result Error Write → Write
or_yield (ok w) = w
or_yield (err e) = yield waiting_state ""

-- The Run that waits, as it is loaded.
abbrev waiting : Loaded
waiting = record {
  revision = 4;
  status = RunStatus.waiting_input;
  checkpoint = some (record {
    id = "w";
    kind = "workflow_wait";
    status = CheckpointStatus.pending;
    payload = "1";
    response = "";
    created_at = 1;
    resolved_at = none;
  });
  state = waiting_state;
}

abbrev answer : Write
answer = or_yield (resolve_wait plain waiting 4 "yes")

answered_once : resolve_wait plain waiting 4 "yes" ≡ ok answer
unfolding resolve_wait text_dec
answered_once = refl

-- The Run after the answer, with the checkpoint of before.
abbrev resumed : Loaded
resumed = record waiting { revision = 5; state = answer.state }

no_IsJson : plain.valid "no" ≡ true
unfolding text_dec
no_IsJson = refl

resolve_once_example :
    ◌≡◌ {A = ℕ} 4 4
    × IsTaken waiting_state answer.state "yes"
    × (resolve_wait plain resumed 5 "no" ≡ err wait_pending)
resolve_once_example =
    resolve_once plain waiting 4 "yes" answer resumed "no" answered_once refl no_IsJson
