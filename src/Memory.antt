-- ===== src/Memory.antt =====
-- go/agent-runtime/memory/store.go: the in-memory Kernel Store. An operation returns the new store
-- beside its result, whatever the result is; the mutex makes each one step. Isolated clones are the
-- values themselves, and a nil Store is not modelled.
pub mod Outbox
pub mod Execution
pub mod Control
pub mod Steps
pub mod Journal
pub mod Paging
pub mod Fencing
pub mod Histories
pub mod Takeover
pub mod Quarantined
pub mod Atomic
pub mod Cas
pub mod Delivery
pub mod Retained
use gaoge_agent_runtime.Prelude.{
  ℕ, zero, suc, ◌+◌, ◌%◌, ◌^◌, ◌==◌, ◌/=◌, ltb, leb, String, Bool, true, false, not, ◌&&◌, ◌||◌,
  Option, none, some, List, [], ◌∷◌, ◌++◌, length, take, drop, text_dec, text_eq, is_blank, is_some,
  ite, if◌then◌else◌, Map, empty_map, put, Result, ok, err, format_uint,
}
use gaoge_agent_runtime.Kernel.{
  Error, invalid_input, not_found, already_exists, conflict, execution_required, Run, EventDraft,
  Event, Snapshot, RunRecord, StoreMutation, CommittedTransition, ExecutionLease,
}
use gaoge_agent_runtime.Kernel.Validation.{needs_transition_projection}
use Prim.Native.String.{◌++◌ as join}

pub record TransitionState : Type 0 where
  pub transition : CommittedTransition
  pub available_at : ℕ
  pub lease_id : String
  pub worker_id : String
  pub lease_until : ℕ

pub record ExecutionState : Type 0 where
  pub epoch : ℕ
  pub lease : ExecutionLease
  pub quarantine_rev : ℕ
  pub quarantine_gen : ℕ
  pub quarantine_code : String

pub record Store : Type 0 where
  pub records : Map Snapshot
  pub journals : Map (List Event)
  pub transitions : Map TransitionState
  pub transition_order : List String
  pub execution : Map ExecutionState

unfoldable pub new_store : Store
new_store = record {
  records = empty_map;
  journals = empty_map;
  transitions = empty_map;
  transition_order = [];
  execution = empty_map;
}

-- The zero values that a Go map gives for a missing key.
abbrev pub no_lease : ExecutionLease
no_lease = record { run_id = ""; owner_id = ""; lease_id = ""; epoch = 0; expires_at = 0 }

abbrev pub fresh_execution : ℕ → ExecutionState
fresh_execution e = record {
  epoch = e;
  lease = no_lease;
  quarantine_rev = 0;
  quarantine_gen = 0;
  quarantine_code = "";
}

abbrev pub execution_or_zero : Option ExecutionState → ExecutionState
execution_or_zero none = fresh_execution 0
execution_or_zero (some e) = e

abbrev pub authority : Store → String → ExecutionState
authority s run_id = execution_or_zero (s.execution run_id)

abbrev pub journal_or_nil : Option (List Event) → List Event
journal_or_nil none = []
journal_or_nil (some es) = es

abbrev pub journal : Store → String → List Event
journal s run_id = journal_or_nil (s.journals run_id)

-- `appendEvents`.
unfoldable pub append_events : List Event → List EventDraft → ℕ → List Event
append_events current [] created_at = current
append_events current (d ∷ ds) created_at =
    append_events
      (current
        ++ record {
          seq = length current + 1;
          type = d.type;
          message = d.message;
          body = d.body;
          created_at = created_at;
        }
          ∷ [])
      ds created_at

-- `committedTransitionID`.
unfoldable pub committed_transition_id : String → ℕ → String
committed_transition_id run_id revision = join run_id (join ":" (format_uint revision))

-- `appendCommittedTransition`.
unfoldable pub append_committed_transition : Store → Run → List EventDraft → Store
append_committed_transition s run events =
    if not (needs_transition_projection run.status events) then s else record s {
      transitions = put s.transitions id (record {
        transition = record {
          id = id;
          run_id = run.id;
          kind = run.kind;
          status = run.status;
          revision = run.revision;
          events = events;
          committed_at = run.updated_at;
          attempts = 0;
        };
        available_at = 0;
        lease_id = "";
        worker_id = "";
        lease_until = 0;
      });
      transition_order = s.transition_order ++ id ∷ [];
    }
  where
    id : String
    id = committed_transition_id run.id run.revision

-- `snapshotFromRecord`, with the event head that the caller sets.
abbrev pub snapshot_of : RunRecord → ℕ → Snapshot
snapshot_of r head = record {
  run = r.run;
  state = r.state;
  checkpoint = r.checkpoint;
  result = r.result;
  event_head = head;
}

-- `Create`.
unfoldable pub create : Store → RunRecord → List EventDraft → Store × Result Error Snapshot
create s r events = elim (s.records id) [
  | some _ ↦ (s, err already_exists)
  | none ↦ (
    append_committed_transition
        (record s {
          execution =
              if r.execution_required then put s.execution id (fresh_execution 1) else s.execution;
          records = put s.records id (snapshot_of r (length entries));
          journals = put s.journals id entries;
        })
        r.run events,
    ok (snapshot_of r (length entries)),
  )
]
  where
    id : String
    id = r.run.id

    entries : List Event
    entries = append_events [] events r.run.updated_at

-- `Load`.
unfoldable pub load : Store → String → Result Error Snapshot
load s run_id = elim (s.records run_id) [ none ↦ err not_found | some snapshot ↦ ok snapshot ]

-- `ListEvents`; `after_seq` and `limit` are not negative here, a zero limit is refused.
unfoldable pub list_events : Store → String → ℕ → ℕ → Result Error (List Event)
list_events s run_id after_seq limit =
    if is_blank run_id || limit == 0 || ltb 10000 limit
    then err invalid_input
    else elim (s.records run_id) [
      | none ↦ err not_found
      | some _ ↦ ok (take limit (drop after_seq (journal s run_id)))
    ]

-- `applyLocked`.
unfoldable pub apply_locked : Store → String → ℕ → StoreMutation → Store × Result Error Snapshot
apply_locked s run_id expected m = elim (s.records run_id) [
  | none ↦ (s, err not_found)
  | some current ↦ if current.run.revision /= expected then (s, err conflict) else (
    append_committed_transition
        (record s {
          records = put s.records run_id (snapshot_of m.replacement (length entries));
          journals = put s.journals run_id entries;
        })
        m.replacement.run m.events,
    ok (snapshot_of m.replacement (length entries)),
  )
]
  where
    entries : List Event
    entries = append_events (journal s run_id) m.events m.replacement.run.updated_at

-- `Apply`: an unfenced write.
unfoldable pub apply : Store → String → ℕ → StoreMutation → Store × Result Error Snapshot
apply s run_id expected m =
    if ltb 0 (authority s run_id).epoch
    then (s, err execution_required)
    else apply_locked s run_id expected m
