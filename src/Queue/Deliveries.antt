-- ===== src/Queue/Deliveries.antt =====
-- go/agent-runtime/queue/memory.go: `Renew`, `Ack`, `Nack`, `RequeueDeadLetter` and `Enqueue` write to at
-- most one job.
use gaoge_agent_runtime.Prelude.{
  ℕ, ◌≤◌, ◌<◌, String, Bool, true, false, none, some, ◌≡◌, inl, inr, refl, arith, Result,
  Result-cases, ok, err, text_ne, leb, not, ◌||◌, trim_space, Option-cases, Bool-cases,
}
use mathlib.Core.Path.{subst}
use gaoge_agent_runtime.Queue.{
  Error, not_found, lease_lost, lease_expired, job_terminal, leased, Lease, Job, Codec,
  EnqueueRequest, LeaseRequest, release_for_retry, prepare_enqueue, normalize_request, valid_policy,
  Prepared,
}
use gaoge_agent_runtime.Queue.Table.{Table, find, insert, find-insert, IsKeyed, insert-IsMap}
use gaoge_agent_runtime.Queue.Delivery.{
  renewed, acked, nacked, requeued, is_done, is_dead, is_leased, current_lease, with_current, renew,
  ack, nack, requeue_dead_letter, enqueue,
}
use gaoge_agent_runtime.Queue.Moves.{Move, renews, acks, nacks, expires, requeues, here}
use gaoge_agent_runtime.Queue.Soundness.{IsSound, initial-IsSound}
use gaoge_agent_runtime.Queue.Evolution.{
  Follows, Follows-write, Follows-same, Follows-insert, insert-AllSound,
}

module _ (codec : Codec) where
  -- What `currentLeaseLocked` finds.
  data Found (t : Table) (r : LeaseRequest) (now : ℕ) (x : Table × Result Error Job) : Type 0 where
    refused : (e : Error) → x ≡ (t, err e) → Found t r now x
    lapsed :
        (j : Job) (l : Lease)
        → find (trim_space r.job_id) t ≡ some j
        → j.status ≡ leased
        → j.lease ≡ some l
        → l.expires_at ≤ now
        → x ≡ (insert j.id (release_for_retry j now false) t, err lease_expired)
        → Found t r now x
    held :
        (j : Job) (l : Lease)
        → find (trim_space r.job_id) t ≡ some j
        → j.status ≡ leased
        → j.lease ≡ some l
        → now < l.expires_at
        → x ≡ (t, ok j)
        → Found t r now x

  current_lease-Found :
      (t : Table) (r : LeaseRequest) (now : ℕ) → Found t r now (current_lease t r now)
  unfolding current_lease
  current_lease-Found t r now = elim (Option-cases (find (trim_space r.job_id) t)) [
    | inl missing ↦ refused not_found (ground arith)
    | inr (j, p) ↦ elim (Bool-cases (is_done j.status)) [
      | inl over ↦ refused job_terminal (ground arith)
      | inr pending ↦ elim (Option-cases j.lease) [
        | inl free ↦ refused lease_lost (ground arith)
        | inr (l, q) ↦
            elim (Bool-cases (
              not (is_leased j.status)
              || text_ne l.id (trim_space r.lease_id)
              || text_ne l.worker_id (trim_space r.worker_id))) [
                | inl lost ↦ refused lease_lost (ground arith)
                | inr mine ↦ elim (Bool-cases (leb l.expires_at now)) [
                  | inl late ↦ lapsed j l p (ground arith) q (ground arith) (ground arith)
                  | inr live ↦ held j l p (ground arith) q (ground arith) (ground arith)
                ]
              ]
      ]
    ]
  ]

  -- `Renew`, `Ack` and `Nack` write to the job once, with the lease in hand and in time.
  with_current-Follows :
      (t : Table) (r : LeaseRequest) (now : ℕ) (f : Job → Job)
      → IsKeyed t
      → ((j : Job) (l : Lease)
          → j.status ≡ leased
          → j.lease ≡ some l
          → now < l.expires_at
          → Move codec now j (f j))
      → Follows codec t (with_current t r now f).0
  unfolding with_current
  with_current-Follows t r now f k move = elim (current_lease-Found t r now) [
    | refused e x ↦ Follows-same codec (ground arith)
    | lapsed j l p s q late x ↦
        Follows-write codec t (ground arith) (
          Follows-insert codec now t (trim_space r.job_id) j _ p (k _ j p)
            (expires l s q late refl))
    | held j l p s q live x ↦
        Follows-write codec t (ground arith)
          (Follows-insert codec now t (trim_space r.job_id) j (f j) p (k _ j p) (move j l s q live))
  ]

  pub renew-Follows :
      (t : Table) (r : LeaseRequest) (now : ℕ) → IsKeyed t → Follows codec t (renew t r now).0
  unfolding renew
  renew-Follows t r now k =
      with_current-Follows t r now (renewed now) k (λ j l s q live. renews l s q live refl)

  pub ack-Follows :
      (t : Table) (r : LeaseRequest) (now : ℕ) → IsKeyed t → Follows codec t (ack t r now).0
  unfolding ack
  ack-Follows t r now k =
      with_current-Follows t r now (acked now) k (λ j l s q live. acks l s q live refl)

  pub nack-Follows :
      (t : Table) (r : LeaseRequest) (code message : String) (allow : Bool) (now : ℕ)
      → IsKeyed t
      → Follows codec t (nack t r code message allow now).0
  unfolding nack
  nack-Follows t r code message allow now k =
      with_current-Follows t r now (nacked now (trim_space code) message allow) k
        (λ j l s q live. nacks l (trim_space code) message allow s q live refl)

  pub requeue_dead_letter-Follows :
      (t : Table) (id : String) (now : ℕ)
      → IsKeyed t
      → Follows codec t (requeue_dead_letter t id now).0
  unfolding requeue_dead_letter
  requeue_dead_letter-Follows t id now k = elim (Option-cases (find (trim_space id) t)) [
    | inl missing ↦ Follows-same codec (ground arith)
    | inr (j, p) ↦ elim (Bool-cases (is_dead j.status)) [
      | inl dead ↦ Follows-write codec t (ground arith) (
          Follows-insert codec now t (trim_space id) j (requeued now j) p (k _ j p)
            (requeues (ground arith) refl))
      | inr alive ↦ Follows-same codec (ground arith)
    ]
  ]

  normalize_request-valid :
      (r : EnqueueRequest) (now : ℕ) (n : Prepared)
      → normalize_request codec r now ≡ ok n
      → valid_policy n.policy ≡ true
  unfolding normalize_request
  normalize_request-valid r now n e = ground arith

  prepare_enqueue-IsSound :
      (r : EnqueueRequest) (now : ℕ) (j : Job) → prepare_enqueue codec r now ≡ ok j → IsSound j
  unfolding prepare_enqueue
  prepare_enqueue-IsSound r now j e = elim (Result-cases (normalize_request codec r now)) [
    | inl (x, p) ↦ ground arith
    | inr (n, p) ↦ elim (Option-cases (codec.fingerprint n)) [
      | inl bad ↦ ground arith
      | inr (print, q) ↦
          subst IsSound (ground arith)
            (initial-IsSound codec n print now (normalize_request-valid r now n p))
    ]
  ]

  data Enqueued (t u : Table) : Type 0 where
    reused : u ≡ t → Enqueued t u
    fresh : (j : Job) → find j.id t ≡ none → IsSound j → u ≡ insert j.id j t → Enqueued t u

  enqueue_cases : (t : Table) (r : EnqueueRequest) (now : ℕ) → Enqueued t (enqueue codec t r now).0
  unfolding enqueue
  enqueue_cases t r now = elim (Result-cases (prepare_enqueue codec r now)) [
    | inl (e, p) ↦ reused (ground arith)
    | inr (j, p) ↦ elim (Option-cases (find j.id t)) [
      | inl free ↦ fresh j free (prepare_enqueue-IsSound r now j p) (ground arith)
      | inr (old, q) ↦ reused (ground arith)
    ]
  ]

  pub enqueue-Follows :
      (t : Table) (r : EnqueueRequest) (now : ℕ) → Follows codec t (enqueue codec t r now).0
  enqueue-Follows t r now = elim (enqueue_cases t r now) [
    | reused same ↦ Follows-same codec same
    | fresh n free s x ↦ Follows-write codec t x (record {
      kept = λ q j p. (j, ground (arith, find-insert n.id q n t), here);
      sound = insert-AllSound codec t n.id n s;
      mapped = insert-IsMap n.id n t refl;
    })
  ]
