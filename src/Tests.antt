-- ===== src/Tests.antt =====
-- Sample Runs, stores and jobs, on which the theorems are applied.
pub mod Stores
pub mod Records
pub mod Runs
pub mod Jobs
pub mod Budgets
pub mod Feeds
pub mod Relations
pub mod Identities
pub mod Ledgers
pub mod Workflows
use gaoge_agent_runtime.Prelude.{ℕ, String, Bool, true, false, Option, none, some, List, [], ◌∷◌}
use gaoge_agent_runtime.Prelude.Int.{pos}
use gaoge_agent_runtime.Kernel.{
  Run, RunStatus, running, RunRecord, StoreMutation, EventDraft, Mutation, completed, cancelled,
  Output, Codec, ExecutionLease, ExecutionAcquireRequest, live, Snapshot,
}
use gaoge_agent_runtime.Memory.{Store, new_store, create}
use gaoge_agent_runtime.Memory.Steps.{Call, creates, acquires, run_calls}

-- Every text is JSON, and a digest is the text itself.
abbrev pub codec : Codec
codec = record { valid = λ t. true; decision = λ t. none; digest = λ t c. some t }

abbrev pub sample_run : String → RunStatus → ℕ → Run
sample_run id status revision = record {
  id = id;
  kind = "chat";
  actor = record { tenant_id = "t"; actor_id = "a" };
  thread = record { kind = "chat"; id = "th" };
  request_id = "";
  goal = "answer";
  status = status;
  revision = revision;
  error_code = "";
  error_detail = "";
  deadline_at = some 900;
  ended_at = none;
  created_at = 100;
  updated_at = 100;
}

abbrev pub sample_record : Bool → String → RunStatus → ℕ → RunRecord
sample_record required id status revision = record {
  execution_required = required;
  run = sample_run id status revision;
  state = "{}";
  checkpoint = none;
  result = none;
}

abbrev pub sample_snapshot : Snapshot
sample_snapshot = record {
  run = sample_run "run-1" running 1;
  state = "{}";
  checkpoint = none;
  result = none;
  event_head = 0;
}

-- A Run without execution, and the write that completes it.
abbrev pub plain_store : Store
plain_store = (create new_store (sample_record false "run-1" running 1) []).0

abbrev pub finishing : StoreMutation
finishing = record { replacement = sample_record false "run-1" completed 2; events = [] }

abbrev pub acquisition : String → ExecutionAcquireRequest
acquisition owner = record { run_id = "run-1"; owner_id = owner; lease_duration = pos 60000000000 }

-- A Run that one worker has acquired, and then, after its lease ran out, another one.
abbrev pub first_segment : List Call
first_segment =
    creates (sample_record true "run-1" running 1) []
    ∷ acquires live (acquisition "worker-a") 1000 (some "lease-a")
    ∷ []

abbrev pub second_segment : List Call
second_segment = acquires live (acquisition "worker-b") 60000001000 (some "lease-b") ∷ []

abbrev pub segment_store : Store
segment_store = run_calls codec new_store first_segment

abbrev pub takeover_store : Store
takeover_store = run_calls codec segment_store second_segment

abbrev pub stale_lease : ExecutionLease
stale_lease = record {
  run_id = "run-1";
  owner_id = "worker-a";
  lease_id = "lease-a";
  epoch = 2;
  expires_at = 60000001000;
}
