-- ===== src/Tests/Records.antt =====
-- The theorems on the records, the journals and the outbox of go/agent-runtime/memory, applied to
-- sample stores.
use gaoge_agent_runtime.Prelude.{
  ℕ, ◌≡◌, ◌≢◌, refl, ap, ◌∙◌, arith, String, true, false, some, List, [], ◌∷◌, ok, text_dec,
  trim_space, byte_length, format_uint,
}
use gaoge_agent_runtime.Prelude.Int.{pos}
use gaoge_agent_runtime.Kernel.{
  running, completed, TransitionClaimRequest, TransitionClaim, TransitionLeaseRequest, Event,
  EventDraft,
}
use gaoge_agent_runtime.Kernel.Validation.{needs_transition_projection, terminal_status, any_wakeup}
use gaoge_agent_runtime.Memory
use gaoge_agent_runtime.Memory.{Store, TransitionState, new_store, journal, committed_transition_id}
use gaoge_agent_runtime.Memory.Outbox.{
  claim_transitions, claimable, claimed, claim_loop, delivery_lease_id,
}
use gaoge_agent_runtime.Memory.Steps.{Call, creates, applies, acks, call, step, run_calls}
use gaoge_agent_runtime.Memory.Atomic.{call_failed_unchanged}
use gaoge_agent_runtime.Memory.Journal.{IsJournaled}
use gaoge_agent_runtime.Memory.Paging.{Extends, run_calls-Extends}
use gaoge_agent_runtime.Memory.Cas.{Evolves, run_calls-Evolves}
use gaoge_agent_runtime.Memory.Retained.{IsQueued, call-IsQueued}
use gaoge_agent_runtime.Memory.Delivery.{claim_exclusive}
use gaoge_agent_runtime.Runtime.Commands.{plain_event}
use gaoge_agent_runtime.Tests.{codec, sample_record, plain_store, finishing}

conflict_refused : (call codec plain_store (applies "run-1" 5 finishing)).1 ≡ false
unfolding call Memory.apply Memory.create Memory.apply_locked new_store text_dec
    Memory.append_committed_transition needs_transition_projection
conflict_refused = refl

call_failed_unchanged_example :
    (call codec plain_store (applies "run-1" 5 finishing)).0 ≡ plain_store
call_failed_unchanged_example =
    call_failed_unchanged codec plain_store (applies "run-1" 5 finishing) conflict_refused

new_store-IsJournaled : IsJournaled new_store "run-1"
unfolding new_store
new_store-IsJournaled = record { absent = λ a. refl; head = λ snap p. cc; numbered = tt }

abbrev started : EventDraft
started = plain_event "run.started" "started"

abbrev journal_calls : List Call
journal_calls =
    creates (sample_record false "run-1" running 1) (started ∷ started ∷ [])
    ∷ applies "run-1" 1
        (record { replacement = sample_record false "run-1" completed 2; events = started ∷ [] })
    ∷ []

abbrev journal_store : Store
journal_store = run_calls codec new_store journal_calls

run_calls-Extends_example : Extends new_store journal_store "run-1"
run_calls-Extends_example =
    run_calls-Extends codec journal_calls new_store "run-1" new_store-IsJournaled

journal_store-IsJournaled : IsJournaled journal_store "run-1"
journal_store-IsJournaled =
    (run_calls-Extends codec journal_calls new_store "run-1" new_store-IsJournaled).journaled

abbrev entry : ℕ → Event
entry n = record { seq = n; type = "run.started"; message = "started"; body = ""; created_at = 100 }

second_page : Memory.list_events journal_store "run-1" 1 5 ≡ ok (entry 2 ∷ entry 3 ∷ [])
unfolding run_calls call Memory.create text_dec new_store Memory.append_committed_transition
    needs_transition_projection Memory.append_events any_wakeup terminal_status Memory.list_events
    trim_space Memory.apply Memory.apply_locked
second_page = refl

run_calls-Evolves_example :
    Evolves plain_store (run_calls codec plain_store (applies "run-1" 1 finishing ∷ [])) "run-1"
run_calls-Evolves_example =
    run_calls-Evolves codec (applies "run-1" 1 finishing ∷ []) plain_store "run-1" (refl, tt)

projected : needs_transition_projection completed [] ≡ true
unfolding needs_transition_projection
projected = refl

abbrev other_ack : Call
other_ack = acks (record { transition_id = "run-10:1"; lease_id = "l"; worker_id = "w" })

distinct_ids : ◌≢◌ {A = String} "run-10:1" "run-1:2"
unfolding byte_length
distinct_ids e = omega (arith, ap byte_length e)

acked_id : Call → String
acked_id (acks r) = r.transition_id
acked_id _ = ""

not_its_ack : (r : TransitionLeaseRequest) → other_ack ≡ acks r → r.transition_id ≢ "run-1:2"
unfolding acked_id
not_its_ack r e h = distinct_ids (ap acked_id e ∙ h)

IsQueued-entry : IsQueued journal_store "run-1:2"
unfolding run_calls call Memory.create text_dec new_store Memory.append_committed_transition
    needs_transition_projection Memory.append_events any_wakeup terminal_status Memory.apply
    Memory.apply_locked committed_transition_id format_uint
IsQueued-entry = record { stored = refl; reached = refl }

call-IsQueued_example : IsQueued (step codec journal_store other_ack) "run-1:2"
call-IsQueued_example =
    call-IsQueued codec journal_store other_ack "run-1:2" not_its_ack IsQueued-entry

abbrev claim_by : String → ℕ → TransitionClaimRequest
claim_by worker now = record {
  worker_id = worker;
  limit = pos 4;
  lease_duration = pos 50;
  now = now;
}

abbrev entry_state : TransitionState
entry_state = record {
  transition = record {
    id = "run-1:2";
    run_id = "run-1";
    kind = "chat";
    status = completed;
    revision = 2;
    events = started ∷ [];
    committed_at = 100;
    attempts = 0;
  };
  available_at = 0;
  lease_id = "";
  worker_id = "";
  lease_until = 0;
}

abbrev claimed_store : Store
claimed_store = (claim_transitions journal_store (claim_by "w1" 10)).0

abbrev first_claim : TransitionClaim
first_claim = record {
  transition = record (entry_state.transition) { attempts = 1 };
  lease_id = "w1:run-1:2:1";
  worker_id = "w1";
  lease_until = 60;
}

first_claim_given : (claim_transitions journal_store (claim_by "w1" 10)).1 ≡ ok (first_claim ∷ [])
unfolding run_calls call Memory.create text_dec new_store Memory.append_committed_transition
    needs_transition_projection Memory.append_events any_wakeup terminal_status Memory.apply
    Memory.apply_locked committed_transition_id format_uint claim_transitions claim_loop claimable
    claimed delivery_lease_id trim_space
first_claim_given = refl

entry_claimed :
    claimed_store.transitions "run-1:2" ≡ some (claimed (claim_by "w1" 10) "run-1:2" entry_state)
unfolding run_calls call Memory.create text_dec new_store Memory.append_committed_transition
    needs_transition_projection Memory.append_events any_wakeup terminal_status Memory.apply
    Memory.apply_locked committed_transition_id format_uint claim_transitions claim_loop claimable
    claimed delivery_lease_id trim_space
entry_claimed = refl

second_claim_empty : (claim_transitions claimed_store (claim_by "w2" 20)).1 ≡ ok []
unfolding run_calls call Memory.create text_dec new_store Memory.append_committed_transition
    needs_transition_projection Memory.append_events any_wakeup terminal_status Memory.apply
    Memory.apply_locked committed_transition_id format_uint claim_transitions claim_loop claimable
    claimed delivery_lease_id trim_space
second_claim_empty = refl

claim_exclusive_example :
    (claim_transitions claimed_store (claim_by "w2" 20)).0.transitions "run-1:2"
    ≡ claimed_store.transitions "run-1:2"
claim_exclusive_example =
    claim_exclusive claimed_store (claim_by "w1" 10) (claim_by "w2" 20) [] "run-1:2" entry_state
      entry_claimed (omega arith) (omega arith) second_claim_empty
