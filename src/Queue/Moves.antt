-- ===== src/Queue/Moves.antt =====
-- go/agent-runtime/queue/memory.go: what may happen to one job, as a step relation.
use gaoge_agent_runtime.Prelude.{ℕ, ◌≤◌, ◌<◌, String, Bool, false, some, ◌≡◌}
use gaoge_agent_runtime.Queue.{queued, leased, dead_letter, Lease, Job, Codec, release_for_retry}
use gaoge_agent_runtime.Queue.Delivery.{claimed, renewed, acked, nacked, requeued}

module _ (codec : Codec) where
  -- One write to a job, at one reading of the clock.
  pub data Move (now : ℕ) (j k : Job) : Type 0 where
    claims :
        (worker : String)
        → j.status ≡ queued
        → j.available_at ≤ now
        → k ≡ claimed codec worker now j
        → Move now j k
    renews :
        (l : Lease)
        → j.status ≡ leased
        → j.lease ≡ some l
        → now < l.expires_at
        → k ≡ renewed now j
        → Move now j k
    acks :
        (l : Lease)
        → j.status ≡ leased
        → j.lease ≡ some l
        → now < l.expires_at
        → k ≡ acked now j
        → Move now j k
    nacks :
        (l : Lease) (code message : String) (allow : Bool)
        → j.status ≡ leased
        → j.lease ≡ some l
        → now < l.expires_at
        → k ≡ nacked now code message allow j
        → Move now j k
    expires :
        (l : Lease)
        → j.status ≡ leased
        → j.lease ≡ some l
        → l.expires_at ≤ now
        → k ≡ release_for_retry j now false
        → Move now j k
    requeues : j.status ≡ dead_letter → k ≡ requeued now j → Move now j k

  -- Any number of writes.
  pub data Moves (j : Job) : Job → Type 0 where
    here : Moves j j
    next : {k m : Job} {now : ℕ} → Moves j k → Move now k m → Moves j m
