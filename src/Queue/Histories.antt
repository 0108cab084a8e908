-- ===== src/Queue/Histories.antt =====
-- go/agent-runtime/queue/memory.go: histories of the queue, call after call.
use gaoge_agent_runtime.Prelude.{ℕ, String, Bool, some, List, [], ◌∷◌, ◌≡◌, ap}
use gaoge_agent_runtime.Prelude.Int.{ℤ}
use gaoge_agent_runtime.Queue.{completed, Job, Codec, EnqueueRequest, LeaseRequest}
use gaoge_agent_runtime.Queue.Table.{Table, find, IsMap, IsMap-IsKeyed}
use gaoge_agent_runtime.Queue.Delivery.{renew, ack, nack, reap, requeue_dead_letter, enqueue, claim}
use gaoge_agent_runtime.Queue.Soundness.{IsSound, SameRequest, Moves-SameRequest, Moves-completed}
use gaoge_agent_runtime.Queue.Evolution.{Follows, Follows-refl, Follows-trans, reap-Follows}
use gaoge_agent_runtime.Queue.Deliveries.{
  renew-Follows, ack-Follows, nack-Follows, requeue_dead_letter-Follows, enqueue-Follows,
}
use gaoge_agent_runtime.Queue.Claims.{claim-Follows}

-- A call of the queue that may write.
pub data Call : Type 0 where
  enqueues : EnqueueRequest → Call
  claims_jobs : String → String → ℤ → Call
  renews_lease acks_job : LeaseRequest → Call
  nacks_job : LeaseRequest → String → String → Bool → Call
  reaps requeues_job : String → Call

module _ (codec : Codec) where
  -- The table a call leaves at one reading of the clock, whatever its result.
  unfoldable pub call : Table → Call → ℕ → Table
  unfolding enqueue claim renew ack nack reap requeue_dead_letter
  call t (enqueues r) now = (enqueue codec t r now).0
  call t (claims_jobs name worker limit) now = (claim codec t name worker limit now).0
  call t (renews_lease r) now = (renew t r now).0
  call t (acks_job r) now = (ack t r now).0
  call t (nacks_job r code message allow) now = (nack t r code message allow now).0
  call t (reaps name) now = (reap t name now).0
  call t (requeues_job id) now = (requeue_dead_letter t id now).0

  unfoldable pub run_calls : Table → List (Call × ℕ) → Table
  unfolding call
  run_calls t [] = t
  run_calls t ((c, now) ∷ cs) = run_calls (call t c now) cs

  pub call-Follows : (t : Table) (c : Call) (now : ℕ) → IsMap t → Follows codec t (call t c now)
  unfolding call
  call-Follows t (enqueues r) now m = enqueue-Follows codec t r now
  call-Follows t (claims_jobs name worker limit) now m =
      claim-Follows codec t name worker limit now m
  call-Follows t (renews_lease r) now m = renew-Follows codec t r now (IsMap-IsKeyed t m)
  call-Follows t (acks_job r) now m = ack-Follows codec t r now (IsMap-IsKeyed t m)
  call-Follows t (nacks_job r code message allow) now m =
      nack-Follows codec t r code message allow now (IsMap-IsKeyed t m)
  call-Follows t (reaps name) now m = reap-Follows codec t name now
  call-Follows t (requeues_job id) now m =
      requeue_dead_letter-Follows codec t id now (IsMap-IsKeyed t m)

  -- Over any calls of the queue on a table in which every job stands once and under its identifier,
  -- each job stays in the table and changes only by the steps of `Move`, sound jobs stay sound, and
  -- the table stays such a table.
  pub queue_calls-Follows :
      (t : Table) (cs : List (Call × ℕ)) → IsMap t → Follows codec t (run_calls t cs)
  unfolding run_calls
  queue_calls-Follows t [] m = Follows-refl codec t
  queue_calls-Follows t ((c, now) ∷ cs) m =
      let f = call-Follows t c now m in
      Follows-trans codec t (call t c now) _ f (queue_calls-Follows (call t c now) cs (f.mapped m))

  -- Whatever is called on an empty queue, every job in it is sound: leased exactly when it carries
  -- a lease, which is of its own generation and attempt; with at least one attempt allowed; dated
  -- when it is dead or completed; and, without a terminal fence, never delivered more often than
  -- its policy allows, with an attempt left while it waits.
  pub every_job-IsSound :
      (cs : List (Call × ℕ)) (q : String) (j : Job) → find q (run_calls [] cs) ≡ some j → IsSound j
  unfolding find
  every_job-IsSound cs q j p = (queue_calls-Follows [] cs tt).sound (λ r k e. cc) q j p

  -- In a table in which every job stands once and under its identifier, a completed job is final:
  -- whatever is called later, the table holds it unchanged.
  pub completed_forever :
      (t : Table) (cs : List (Call × ℕ)) (q : String) (j : Job)
      → IsMap t
      → find q t ≡ some j
      → j.status ≡ completed
      → find q (run_calls t cs) ≡ some j
  completed_forever t cs q j m p c =
      let (k, r, ms) = (queue_calls-Follows t cs m).kept q j p in
      rw r (ap some (Moves-completed codec ms c))

  -- In a table in which every job stands once and under its identifier, whatever is called later, a
  -- job is still in the table, with its identifier, queue, fingerprint, payload and policy.
  pub request_forever :
      (t : Table) (cs : List (Call × ℕ)) (q : String) (j : Job)
      → IsMap t
      → find q t ≡ some j
      → (k : Job) × (find q (run_calls t cs) ≡ some k) × SameRequest j k
  request_forever t cs q j m p =
      let (k, r, ms) = (queue_calls-Follows t cs m).kept q j p in (k, r, Moves-SameRequest codec ms)
