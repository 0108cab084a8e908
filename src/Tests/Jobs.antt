-- ===== src/Tests/Jobs.antt =====
-- The theorems on go/agent-runtime/queue, applied to sample jobs.
use gaoge_agent_runtime.Prelude.{
  arith, ℕ, ◌≡◌, refl, true, false, none, some, List, [], ◌∷◌, ok, err, min, ◌*◌, ◌^◌, text_dec,
  trim_space, byte_length,
}
use gaoge_agent_runtime.Prelude.Int.{pos}
use gaoge_agent_runtime.Queue.{
  Codec, Policy, PolicyRequest, EnqueueRequest, LeaseRequest, Lease, Job, queued, leased, completed,
  job_terminal, valid_policy, retry_backoff, rounds_of,
}
use gaoge_agent_runtime.Queue
use gaoge_agent_runtime.Queue.Table.{Table, find, IsMap, IsMap-IsKeyed, insert, map_jobs}
use gaoge_agent_runtime.Queue.Ordering.{sort_jobs}
use gaoge_agent_runtime.Queue.Delivery
use gaoge_agent_runtime.Queue.Delivery.{ack, acked, current_lease}
use gaoge_agent_runtime.Queue.Soundness.{IsSound}
use gaoge_agent_runtime.Queue.Evolution.{Follows}
use gaoge_agent_runtime.Queue.Histories.{
  Call, enqueues, claims_jobs, acks_job, requeues_job, reaps, run_calls, every_job-IsSound,
  queue_calls-Follows, completed_forever,
}
use gaoge_agent_runtime.Queue.Leases.{IsHolder, ack_once, ack-IsHolder}
use gaoge_agent_runtime.Queue.Backoff.{retry_backoff_lem}

abbrev queue_codec : Codec
queue_codec = record {
  normalize = λ t. t;
  valid = λ t. true;
  fingerprint = λ p. some p.payload;
  stable_id = λ kind parts. kind;
}

abbrev policy : Policy
policy = record {
  max_attempts = 5;
  visibility_timeout = 30000000000;
  initial_backoff = 100;
  max_backoff = 300000000000;
  backoff_multiplier = 2;
  require_terminal_fence = false;
}

abbrev lease : Lease
lease = record {
  id = "lease";
  worker_id = "w1";
  generation = 1;
  attempt = 1;
  claimed_at = 10;
  expires_at = 30000000010;
}

abbrev leased_job : Job
leased_job = record {
  id = "job";
  queue = "q";
  client_job_id = "c";
  fingerprint = "{}";
  kind = "k";
  payload = "{}";
  priority = pos 0;
  policy = policy;
  status = leased;
  attempt = 1;
  generation = 1;
  available_at = 5;
  lease = some lease;
  last_error_code = "";
  last_error = "";
  created_at = 5;
  updated_at = 10;
  completed_at = none;
  dead_letter_at = none;
}

abbrev request : EnqueueRequest
request = record {
  queue = "q";
  client_job_id = "c";
  kind = "k";
  payload = "{}";
  priority = pos 0;
  available_at = 0;
  policy = record {
    max_attempts = pos 0;
    visibility_timeout = pos 0;
    initial_backoff = pos 100;
    max_backoff = pos 0;
    backoff_multiplier = pos 0;
    require_terminal_fence = false;
  };
}

abbrev holder : LeaseRequest
holder = record { job_id = "job"; lease_id = "lease"; worker_id = "w1" }

abbrev delivery : List (Call × ℕ)
delivery = (enqueues request, 5) ∷ (claims_jobs "q" "w1" (pos 1), 10) ∷ []

abbrev later_calls : List (Call × ℕ)
later_calls = (acks_job holder, 25) ∷ (reaps "q", 30) ∷ (requeues_job "job", 40) ∷ []

abbrev leased_table : Table
leased_table = ("job", leased_job) ∷ []

abbrev acked_table : Table
acked_table = ("job", acked 20 leased_job) ∷ []

job_leased : find "job" (run_calls queue_codec [] delivery) ≡ some leased_job
unfolding run_calls find text_dec trim_space Delivery.claim_each Delivery.eligible sort_jobs
    map_jobs Queue.prepare_enqueue Queue.normalize_request valid_policy insert Delivery.is_eligible
    Delivery.reap_one byte_length
job_leased = refl

every_job-IsSound_example : IsSound leased_job
every_job-IsSound_example = every_job-IsSound queue_codec delivery "job" leased_job job_leased

leased-IsMap : IsMap leased_table
unfolding find
leased-IsMap = (refl, refl, tt)

acked-IsMap : IsMap acked_table
unfolding find
acked-IsMap = (refl, refl, tt)

queue_calls-Follows_example :
    Follows queue_codec leased_table (run_calls queue_codec leased_table later_calls)
queue_calls-Follows_example = queue_calls-Follows queue_codec leased_table later_calls leased-IsMap

acked_stands : find "job" acked_table ≡ some (acked 20 leased_job)
unfolding find text_dec
acked_stands = refl

leased_stands : find "job" leased_table ≡ some leased_job
unfolding find text_dec
leased_stands = refl

completed_forever_example :
    find "job" (run_calls queue_codec acked_table later_calls) ≡ some (acked 20 leased_job)
completed_forever_example =
    completed_forever queue_codec acked_table later_calls "job" (acked 20 leased_job) acked-IsMap
      acked_stands refl

ack_succeeds : ack leased_table holder 20 ≡ (acked_table, ok (acked 20 leased_job))
unfolding ack current_lease find text_dec trim_space insert
ack_succeeds = refl

ack-IsHolder_example :
    (j : Job) × IsHolder leased_table holder 20 j
    × (acked 20 leased_job ≡ acked 20 j)
    × (acked_table ≡ insert j.id (acked 20 leased_job) leased_table)
ack-IsHolder_example =
    ack-IsHolder leased_table acked_table holder 20 (acked 20 leased_job) ack_succeeds

ack_once_example : ack acked_table holder 21 ≡ (acked_table, err job_terminal)
ack_once_example =
    ack_once leased_table acked_table holder holder 20 21 (acked 20 leased_job)
      (IsMap-IsKeyed leased_table leased-IsMap) ack_succeeds refl

policy_valid : valid_policy policy ≡ true
unfolding valid_policy
policy_valid = refl

retry_backoff_lem_example : retry_backoff policy 4 ≡ min 300000000000 (100 * 2 ^ rounds_of 4)
retry_backoff_lem_example = retry_backoff_lem policy 4 (omega arith) (omega arith) (omega arith)
