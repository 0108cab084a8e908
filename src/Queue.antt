-- ===== src/Queue.antt =====
-- go/agent-runtime/queue/queue.go: the delivery queue's jobs, policies and leases. Instants and
-- durations are nanoseconds, as in Kernel; attempts stay below 2 ^ 63.
pub mod Backoff
pub mod Table
pub mod Ordering
pub mod Delivery
pub mod Moves
pub mod Soundness
pub mod Evolution
pub mod Deliveries
pub mod Claims
pub mod Histories
pub mod Leases
use gaoge_agent_runtime.Prelude.{
  ℕ, zero, suc, ◌+◌, ◌-◌, ◌*◌, ◌/◌, ◌%◌, ◌==◌, ◌/=◌, ltb, leb, String, Bool, true, false, not, ◌&&◌,
  ◌||◌, Option, none, some, List, [], ◌∷◌, text_dec, text_eq, text_ne, is_blank, trim_space,
  if◌then◌else◌, Result, ok, err, byte_length,
}
use gaoge_agent_runtime.Prelude.Int.{ℤ, pos, negsuc, pos_part, ltb_ℤ, is_negative}

pub data Error : Type 0 where
  invalid_input conflict not_found lease_lost lease_expired job_terminal context_done : Error

-- `Status` of a stored Job: only these four are ever written.
pub data Status : Type 0 where
  queued leased completed dead_letter : Status

-- A policy as the caller hands it over, and as `normalizePolicy` leaves it: not negative.
pub record PolicyRequest : Type 0 where
  pub max_attempts : ℤ
  pub visibility_timeout : ℤ
  pub initial_backoff : ℤ
  pub max_backoff : ℤ
  pub backoff_multiplier : ℤ
  pub require_terminal_fence : Bool

pub record Policy : Type 0 where
  pub max_attempts : ℕ
  pub visibility_timeout : ℕ
  pub initial_backoff : ℕ
  pub max_backoff : ℕ
  pub backoff_multiplier : ℕ
  pub require_terminal_fence : Bool

pub record Lease : Type 0 where
  pub id : String
  pub worker_id : String
  pub generation : ℕ
  pub attempt : ℕ
  pub claimed_at : ℕ
  pub expires_at : ℕ

pub record Job : Type 0 where
  pub id : String
  pub queue : String
  pub client_job_id : String
  pub fingerprint : String
  pub kind : String
  pub payload : String
  pub priority : ℤ
  pub policy : Policy
  pub status : Status
  pub attempt : ℕ
  pub generation : ℕ
  pub available_at : ℕ
  pub lease : Option Lease
  pub last_error_code : String
  pub last_error : String
  pub created_at : ℕ
  pub updated_at : ℕ
  pub completed_at : Option ℕ
  pub dead_letter_at : Option ℕ

pub record EnqueueRequest : Type 0 where
  pub queue : String
  pub client_job_id : String
  pub kind : String
  pub payload : String
  pub priority : ℤ
  pub available_at : ℕ
  pub policy : PolicyRequest

-- The normalised request that a Job is made of.
pub record Prepared : Type 0 where
  pub queue : String
  pub client_job_id : String
  pub kind : String
  pub payload : String
  pub priority : ℤ
  pub available_at : ℕ
  pub policy : Policy

pub record LeaseRequest : Type 0 where
  pub job_id : String
  pub lease_id : String
  pub worker_id : String

-- What the queue uses of encoding/json and crypto/sha256: the normal form of a payload, whether it is
-- JSON, the hash of a request's encoding (`none` when it does not encode), and `stableID`.
pub record Codec : Type 0 where
  pub normalize : String → String
  pub valid : String → Bool
  pub fingerprint : Prepared → Option String
  pub stable_id : String → List String → String

abbrev positive_or : ℤ → ℕ → ℕ
positive_or (pos zero) d = d
positive_or (pos (suc n)) d = suc n
positive_or (negsuc n) d = d

abbrev above_one_or : ℤ → ℕ → ℕ
above_one_or (pos zero) d = d
above_one_or (pos (suc zero)) d = d
above_one_or (pos (suc (suc n))) d = suc (suc n)
above_one_or (negsuc n) d = d

-- `normalizePolicy`.
unfoldable pub normalize_policy : PolicyRequest → Policy
normalize_policy p = record {
  max_attempts = positive_or p.max_attempts 5;
  visibility_timeout = positive_or p.visibility_timeout 30000000000;
  initial_backoff = pos_part p.initial_backoff;
  max_backoff = positive_or p.max_backoff 300000000000;
  backoff_multiplier = above_one_or p.backoff_multiplier 2;
  require_terminal_fence = p.require_terminal_fence;
}

-- `validPolicy`.
unfoldable pub valid_policy : Policy → Bool
valid_policy p =
    ltb 0 p.max_attempts
    && leb p.max_attempts 1000
    && ltb 0 p.visibility_timeout
    && leb p.visibility_timeout 86400000000000
    && leb p.initial_backoff p.max_backoff
    && leb p.max_backoff 604800000000000
    && leb 2 p.backoff_multiplier
    && leb p.backoff_multiplier 100

-- A product of two `time.Duration`, as the 64 bits that are kept of it; they are read as a signed number, so
-- that those from 2 ^ 63 on stand for the negative ones.
abbrev pub wrapped : ℕ → ℕ
wrapped n = n % 18446744073709551616

abbrev pub ltb_signed : ℕ → ℕ → Bool
ltb_signed a b = ltb (wrapped (a + 9223372036854775808)) (wrapped (b + 9223372036854775808))

-- `retryBackoff`: the loop with the rounds that are left, and its start.
unfoldable pub backoff_loop : ℕ → ℕ → ℕ → ℕ → ℕ
backoff_loop zero max mult delay = if ltb_signed max delay then max else delay
backoff_loop (suc rounds) max mult delay =
    let grown = backoff_loop rounds max mult (wrapped (delay * mult)) in
    if ltb_signed delay max
    then if ltb_signed (max / mult) delay then max else grown
    else if ltb_signed max delay
    then max
    else delay

abbrev pub rounds_of : ℕ → ℕ
rounds_of attempt = (if ltb attempt 64 then attempt else 64) - 1

unfoldable pub retry_backoff : Policy → ℕ → ℕ
unfolding backoff_loop
retry_backoff p attempt =
    backoff_loop (rounds_of attempt) p.max_backoff p.backoff_multiplier p.initial_backoff

-- `releaseForRetryLocked`.
unfoldable pub release_for_retry : Job → ℕ → Bool → Job
release_for_retry j now allow =
    if leb j.policy.max_attempts j.attempt && (not j.policy.require_terminal_fence || allow)
    then record j {
      lease = none;
      updated_at = now;
      status = dead_letter;
      dead_letter_at = some now;
    }
    else record j {
      lease = none;
      updated_at = now;
      status = queued;
      available_at = now + retry_backoff j.policy j.attempt;
    }

module _ (codec : Codec) where
  -- `normalizeEnqueueRequest`.
  unfoldable pub normalize_request : EnqueueRequest → ℕ → Result Error Prepared
  unfolding normalize_policy
  normalize_request r now =
      if text_eq (trim_space r.queue) ""
        || text_eq (trim_space r.client_job_id) ""
        || text_eq (trim_space r.kind) ""
        || not (codec.valid payload)
        || ltb_ℤ r.priority (negsuc 999)
        || ltb_ℤ (pos 1000) r.priority
        || not (valid_policy (normalize_policy r.policy))
      then err invalid_input
      else ok (record {
        queue = trim_space r.queue;
        client_job_id = trim_space r.client_job_id;
        kind = trim_space r.kind;
        payload = payload;
        priority = r.priority;
        available_at = if r.available_at == 0 then now else r.available_at;
        policy = normalize_policy r.policy;
      })
    where
      payload : String
      payload = codec.normalize (if byte_length r.payload == 0 then "null" else r.payload)

  -- The initial Job of a normalised request.
  unfoldable pub initial_job : Prepared → String → ℕ → Job
  initial_job p print now = record {
    id = codec.stable_id "job" (p.queue ∷ p.client_job_id ∷ []);
    queue = p.queue;
    client_job_id = p.client_job_id;
    fingerprint = print;
    kind = p.kind;
    payload = p.payload;
    priority = p.priority;
    policy = p.policy;
    status = queued;
    attempt = 0;
    generation = 0;
    available_at = p.available_at;
    lease = none;
    last_error_code = "";
    last_error = "";
    created_at = now;
    updated_at = now;
    completed_at = none;
    dead_letter_at = none;
  }

  -- `PrepareEnqueue`, with `jobIdentity`.
  unfoldable pub prepare_enqueue : EnqueueRequest → ℕ → Result Error Job
  unfolding initial_job
  prepare_enqueue r now = elim (normalize_request r now) [
    | err e ↦ err e
    | ok p ↦ elim (codec.fingerprint p) [
      | none ↦ err invalid_input
      | some print ↦ ok (initial_job p print now)
    ]
  ]
