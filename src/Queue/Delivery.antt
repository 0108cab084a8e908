-- ===== src/Queue/Delivery.antt =====
-- go/agent-runtime/queue/memory.go: the operations of the in-memory queue. `now` is the clock under
-- the lock; an operation returns the new table beside its result, whatever the result is.
use gaoge_agent_runtime.Prelude.{
  ℕ, ◌+◌, ◌==◌, ltb, leb, String, Bool, true, false, not, ◌&&◌, ◌||◌, Option, none, some, List, [],
  ◌∷◌, take, map, text_eq, text_ne, trim_space, if◌then◌else◌, Result, ok, err, format_uint,
}
use gaoge_agent_runtime.Prelude.Int.{ℤ, pos_part}
use gaoge_agent_runtime.Kernel.Guard.{next_u64}
use gaoge_agent_runtime.Queue.{
  Error, invalid_input, conflict, not_found, lease_lost, lease_expired, job_terminal, Status,
  queued, leased, completed, dead_letter, Lease, Policy, Job, EnqueueRequest, LeaseRequest, Codec,
  release_for_retry, prepare_enqueue,
}
use gaoge_agent_runtime.Queue.Table.{Table, find, insert, map_jobs}
use gaoge_agent_runtime.Queue.Ordering.{sort_jobs}

abbrev pub is_queued : Status → Bool
is_queued queued = true
is_queued _ = false

abbrev pub is_leased : Status → Bool
is_leased leased = true
is_leased _ = false

abbrev pub is_dead : Status → Bool
is_dead dead_letter = true
is_dead _ = false

abbrev pub is_done : Status → Bool
is_done completed = true
is_done dead_letter = true
is_done _ = false

-- `job.Lease == nil || job.Lease.ExpiresAt.After(now)`, negated: an expired lease.
abbrev pub has_expired : Option Lease → ℕ → Bool
has_expired none now = false
has_expired (some l) now = leb l.expires_at now

-- The body of the loop of `reapExpiredLocked`.
unfoldable pub reap_one : String → ℕ → Job → Job
reap_one name now j =
    if text_eq j.queue name && is_leased j.status && has_expired j.lease now
    then release_for_retry j now false
    else j

unfoldable pub reap_count : String → ℕ → Table → ℕ
reap_count name now [] = 0
reap_count name now ((i, j) ∷ t) =
    (if text_eq j.queue name && is_leased j.status && has_expired j.lease now then 1 else 0)
    + reap_count name now t

-- The loop of `eligibleLocked`, before it sorts.
unfoldable pub is_eligible : String → ℕ → Job → Bool
is_eligible name now j = text_eq j.queue name && is_queued j.status && leb j.available_at now

unfoldable pub eligible_jobs : String → ℕ → Table → List Job
eligible_jobs name now [] = []
eligible_jobs name now ((i, j) ∷ t) =
    if is_eligible name now j then j ∷ eligible_jobs name now t else eligible_jobs name now t

-- `eligibleLocked`: the identifiers in delivery order.
unfoldable pub eligible : String → ℕ → Table → List String
unfolding eligible_jobs
eligible name now t = map (λ j. j.id) (sort_jobs (eligible_jobs name now t))

-- `request.Limit <= 0` stands for one.
abbrev pub claim_limit : ℤ → ℕ
claim_limit l = if pos_part l == 0 then 1 else pos_part l

-- `currentLeaseLocked`: an expired lease is given up on the way.
unfoldable pub current_lease : Table → LeaseRequest → ℕ → Table × Result Error Job
current_lease t r now = elim (find (trim_space r.job_id) t) [
  | none ↦ (t, err not_found)
  | some j ↦ if is_done j.status then (t, err job_terminal) else elim j.lease [
    | none ↦ (t, err lease_lost)
    | some l ↦
        if not (is_leased j.status)
          || text_ne l.id (trim_space r.lease_id)
          || text_ne l.worker_id (trim_space r.worker_id)
        then (t, err lease_lost)
        else if leb l.expires_at now
        then (insert j.id (release_for_retry j now false) t, err lease_expired)
        else (t, ok j)
  ]
]

-- What a delivery operation writes once the lease is known to be current.
unfoldable pub with_current : Table → LeaseRequest → ℕ → (Job → Job) → Table × Result Error Job
with_current t r now f =
    let (u, found) = current_lease t r now in
    elim found [ err e ↦ (u, err e) | ok j ↦ (insert j.id (f j) u, ok (f j)) ]

abbrev pub renewed_lease : ℕ → Policy → Lease → Lease
renewed_lease now p l = record l { expires_at = now + p.visibility_timeout }

abbrev pub renewed : ℕ → Job → Job
renewed now j = elim j.lease [
  | none ↦ j
  | some l ↦ record j { lease = some (renewed_lease now j.policy l); updated_at = now }
]

abbrev pub acked : ℕ → Job → Job
acked now j = record j {
  status = completed;
  lease = none;
  updated_at = now;
  completed_at = some now;
}

abbrev pub nacked : ℕ → String → String → Bool → Job → Job
nacked now code message allow j =
    release_for_retry (record j { last_error_code = code; last_error = message }) now allow

-- `Renew`, `Ack` and `Nack`, in a live context. `message` is the error as `truncate` leaves it.
unfoldable pub renew : Table → LeaseRequest → ℕ → Table × Result Error Job
unfolding with_current
renew t r now = with_current t r now (renewed now)

unfoldable pub ack : Table → LeaseRequest → ℕ → Table × Result Error Job
unfolding with_current
ack t r now = with_current t r now (acked now)

unfoldable pub nack : Table → LeaseRequest → String → String → Bool → ℕ → Table × Result Error Job
unfolding with_current
nack t r code message allow now = with_current t r now (nacked now (trim_space code) message allow)

-- `Reap`, in a live context.
unfoldable pub reap : Table → String → ℕ → Table × Result Error ℕ
unfolding reap_count
reap t name now =
    if text_eq (trim_space name) ""
    then (t, err invalid_input)
    else (map_jobs (reap_one (trim_space name) now) t, ok (reap_count (trim_space name) now t))

-- `Get`.
unfoldable pub get : Table → String → Result Error Job
get t id = elim (find (trim_space id) t) [ none ↦ err not_found | some j ↦ ok j ]

abbrev pub requeued : ℕ → Job → Job
requeued now j = record j {
  status = queued;
  attempt = 0;
  available_at = now;
  lease = none;
  last_error_code = "";
  last_error = "";
  dead_letter_at = none;
  updated_at = now;
}

-- `RequeueDeadLetter`.
unfoldable pub requeue_dead_letter : Table → String → ℕ → Table × Result Error Job
requeue_dead_letter t id now = elim (find (trim_space id) t) [
  | none ↦ (t, err not_found)
  | some j ↦
      if not (is_dead j.status)
      then (t, err job_terminal)
      else (insert j.id (requeued now j) t, ok (requeued now j))
]

module _ (codec : Codec) where
  -- `Enqueue`; the flag is `Reused`.
  unfoldable pub enqueue : Table → EnqueueRequest → ℕ → Table × Result Error (Job × Bool)
  enqueue t r now = elim (prepare_enqueue codec r now) [
    | err e ↦ (t, err e)
    | ok j ↦ elim (find j.id t) [
      | some old ↦
          if text_ne old.fingerprint j.fingerprint then (t, err conflict) else (t, ok (old, true))
      | none ↦ (insert j.id j t, ok (j, false))
    ]
  ]

  -- The job that one claim leaves.
  unfoldable pub claimed : String → ℕ → Job → Job
  claimed worker now j = record j {
    attempt = j.attempt + 1;
    generation = next_u64 j.generation;
    lease = some (record {
      id = codec.stable_id "lease" (j.id ∷ format_uint (next_u64 j.generation) ∷ []);
      worker_id = worker;
      generation = next_u64 j.generation;
      attempt = j.attempt + 1;
      claimed_at = now;
      expires_at = now + j.policy.visibility_timeout;
    });
    status = leased;
    updated_at = now;
  }

  -- The loop of `Claim` over the chosen identifiers; a missing one would be the zero Job.
  unfoldable pub claim_each : String → ℕ → List String → Table → Table × List Job
  unfolding claimed
  claim_each worker now [] t = (t, [])
  claim_each worker now (id ∷ ids) t = elim (find id t) [
    | none ↦ claim_each worker now ids t
    | some j ↦
        let (u, js) = claim_each worker now ids (insert j.id (claimed worker now j) t) in
        (u, claimed worker now j ∷ js)
  ]

  -- `Claim`, in a live context.
  unfoldable pub claim : Table → String → String → ℤ → ℕ → Table × Result Error (List Job)
  claim t name worker limit now =
      if text_eq (trim_space name) ""
        || text_eq (trim_space worker) ""
        || ltb 100 (claim_limit limit)
      then (t, err invalid_input)
      else let reaped = map_jobs (reap_one (trim_space name) now) t in
        let (u, js) =
          claim_each (trim_space worker) now
            (take (claim_limit limit) (eligible (trim_space name) now reaped)) reaped in
        (u, ok js)
