-- ===== src/Tests/Ledgers.antt =====
-- The theorems on go/agent-runtime/budget/ledger.go, applied to a ledger with one Run and one call.
use gaoge_agent_runtime.Prelude.{
  ◌≡◌, ◌≢◌, refl, ap, arith, String, Bool, true, false, none, some, List, [], ◌∷◌, ok, text_dec,
  byte_length,
}
use gaoge_agent_runtime.Prelude.Int.{pos}
use gaoge_agent_runtime.Prelude.Tables.{lookup, assign, remove}
use gaoge_agent_runtime.Budget.{Usage, Limits, exceeded, checked_add, valid_limits}
use gaoge_agent_runtime.Budget.Accounting.{add_usage, valid_usage}
use gaoge_agent_runtime.Budget.Ledger.{
  Reservation, RunBudget, held_status, waiting_status, Ledger, zero_usage, is_ancestor, contains,
  any_cancelled, is_cancelled, tally, tally_all, unfinished, view, is_active, admit_refusal, admit,
}
use gaoge_agent_runtime.Budget.Coordinator.{register_run, reserve, reserve_again}
use gaoge_agent_runtime.Budget.Settlement.{Onward, IsKeyed}
use gaoge_agent_runtime.Budget.Changes.{
  Change, cancels, settles, suspends, run_changes, run_changes-Onward,
}
use gaoge_agent_runtime.Budget.Admission.{Fits, reserve-Fits}
use gaoge_agent_runtime.Budget.Ancestry.{
  IsAncestral, register_run-IsAncestral, contains-is_ancestor,
}

abbrev any_text : String → Bool
any_text t = true

abbrev no_limits : Limits
no_limits = record {
  max_llm_calls = pos 2;
  max_tool_calls = pos 0;
  max_hosted_tool_calls = pos 0;
  max_input_tokens = pos 0;
  max_output_tokens = pos 0;
  max_total_tokens = pos 0;
  max_output_bytes = pos 0;
  max_state_bytes = pos 0;
  max_child_runs = pos 0;
  max_cost_units = pos 0;
  max_concurrent_runs = pos 1;
  max_concurrent_descendants = pos 0;
}

abbrev one_call : Usage
one_call = record zero_usage { llm_calls_used = pos 1 }

abbrev root_run : RunBudget
root_run = record { parent_run_id = ""; limits = no_limits }

abbrev empty_ledger : Ledger
empty_ledger = record {
  id = "turn";
  revision = 1;
  limits = no_limits;
  runs = [];
  reservations = [];
  cancelled = false;
  cancelled_runs = [];
  finished_runs = [];
}

abbrev ledger : Ledger
ledger = record empty_ledger { runs = ("root", root_run) ∷ [] }

abbrev request : String → Reservation
request id = record {
  id = id;
  run_id = "root";
  request_hash = "h";
  requested = one_call;
  usage = zero_usage;
  status = waiting_status;
  active = false;
  dispatched = false;
  receipt = "";
  dimension = none;
}

abbrev sent : Reservation
sent = record (request "model:1") { status = held_status; active = true; dispatched = true }

abbrev sent_ledger : Ledger
sent_ledger = record ledger { reservations = ("model:1", sent) ∷ [] }

sent_ledger-IsKeyed : IsKeyed sent_ledger
unfolding lookup
sent_ledger-IsKeyed k v p = ground arith

-- A cancellation of the whole scope, and then the outcome of the call.
abbrev outcome : List Change
outcome = cancels ∷ settles "model:1" one_call "{}" ∷ suspends "model:1" ∷ []

sent_stored : lookup "model:1" sent_ledger.reservations ≡ some sent
unfolding lookup text_dec
sent_stored = refl

run_changes-Onward_example :
    (w : Reservation) × (lookup "model:1" (run_changes any_text outcome sent_ledger).reservations
      ≡ some w)
    × Onward sent w
run_changes-Onward_example =
    run_changes-Onward any_text "model:1" outcome sent_ledger sent sent_ledger-IsKeyed
      (tt, (tt, (tt, tt))) sent_stored

abbrev held_ledger : Ledger
held_ledger = record ledger {
  reservations =
      ("model:1", record (request "model:1") { status = held_status; active = true }) ∷ [];
}

new_request : lookup "model:1" ledger.reservations ≡ none
unfolding lookup
new_request = refl

reserved : reserve (request "model:1") true ledger ≡ ok (held_ledger, none)
unfolding reserve reserve_again admit admit_refusal view tally_all tally contains is_ancestor
    unfinished is_cancelled any_cancelled is_active lookup assign remove text_dec valid_usage
    add_usage checked_add exceeded
reserved = refl

root_within : contains ledger "root" "root" ≡ true
unfolding contains is_ancestor text_dec
root_within = refl

reserve-Fits_example : Fits ledger "root" one_call
reserve-Fits_example =
    reserve-Fits (request "model:1") true ledger held_ledger "root" new_request reserved root_within

no_runs-IsAncestral : IsAncestral []
unfolding lookup
no_runs-IsAncestral id b p = absurd (ground arith)

registered : register_run "root" root_run empty_ledger ≡ ok ledger
unfolding register_run is_cancelled any_cancelled lookup assign text_dec valid_limits
registered = refl

named : ◌≢◌ {A = String} "root" ""
unfolding byte_length
named p = omega (arith, ap byte_length p)

contains-is_ancestor_example :
    is_ancestor 5 ledger.runs "root" "other" ≡ some (contains ledger "root" "other")
contains-is_ancestor_example =
    contains-is_ancestor 5 ledger "root" "other"
      (register_run-IsAncestral "root" root_run empty_ledger ledger no_runs-IsAncestral registered)
      (omega arith) named
