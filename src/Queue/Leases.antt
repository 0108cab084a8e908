-- ===== src/Queue/Leases.antt =====
-- go/agent-runtime/queue/memory.go: `currentLeaseLocked` and what `Ack` does for a lease holder.
use gaoge_agent_runtime.Prelude.{
  ℕ, ◌<◌, leb, not, ◌||◌, some, ◌≡◌, inl, inr, arith, ok, err, Result-cases, text_ne, trim_space,
  Option-cases, Bool-cases,
}
use gaoge_agent_runtime.Queue.{job_terminal, leased, Lease, Job, LeaseRequest}
use gaoge_agent_runtime.Queue.Table.{Table, find, insert, find-insert, IsKeyed}
use gaoge_agent_runtime.Queue.Delivery.{acked, is_leased, is_done, current_lease, with_current, ack}

-- The request names the lease that the job carries, and the lease has not run out.
pub record IsHolder (t : Table) (r : LeaseRequest) (now : ℕ) (j : Job) : Type 0 where
  pub lease : Lease
  pub stands : find (trim_space r.job_id) t ≡ some j
  pub is_out : j.status ≡ leased
  pub carried : j.lease ≡ some lease
  pub same_lease : lease.id ≡ trim_space r.lease_id
  pub same_worker : lease.worker_id ≡ trim_space r.worker_id
  pub in_time : now < lease.expires_at

current_lease-IsHolder :
    (t u : Table) (r : LeaseRequest) (now : ℕ) (j : Job)
    → current_lease t r now ≡ (u, ok j)
    → (u ≡ t) × IsHolder t r now j
unfolding current_lease
current_lease-IsHolder t u r now j e = elim (Option-cases (find (trim_space r.job_id) t)) [
  | inl missing ↦ ground arith
  | inr (k, p) ↦ elim (Option-cases k.lease) [
    | inl free ↦ ground arith
    | inr (l, q) ↦
        elim (Bool-cases (
          is_done k.status
          || not (is_leased k.status)
          || text_ne l.id (trim_space r.lease_id)
          || text_ne l.worker_id (trim_space r.worker_id)
          || leb l.expires_at now)) [
            | inl lost ↦ ground arith
            | inr mine ↦ (
              ground arith,
              record {
                lease = l;
                stands = ground arith;
                is_out = ground arith;
                carried = ground arith;
                same_lease = ground arith;
                same_worker = ground arith;
                in_time = ground arith;
              },
            )
          ]
  ]
]

-- An acknowledgement that succeeds had the job's own lease, by its identifier and worker and before
-- its end; it gives the job completed and without a lease, and writes that to the table.
pub ack-IsHolder :
    (t u : Table) (r : LeaseRequest) (now : ℕ) (k : Job)
    → ack t r now ≡ (u, ok k)
    → (j : Job) × IsHolder t r now j × (k ≡ acked now j) × (u ≡ insert j.id k t)
unfolding ack with_current
ack-IsHolder t u r now k e = elim (Result-cases (current_lease t r now).1) [
  | inl (x, p) ↦ ground arith
  | inr (j, p) ↦
      let (same, h) = current_lease-IsHolder t (current_lease t r now).0 r now j (ground arith) in
      (j, h, ground arith, ground arith)
]

-- In a table in which every job stands under its identifier, once an acknowledgement has succeeded,
-- any later one of the same job is refused as terminal and changes nothing, whatever lease it
-- names.
pub ack_once :
    (t u : Table) (r s : LeaseRequest) (now later : ℕ) (k : Job)
    → IsKeyed t
    → ack t r now ≡ (u, ok k)
    → trim_space s.job_id ≡ trim_space r.job_id
    → ack u s later ≡ (u, err job_terminal)
unfolding ack with_current current_lease
ack_once t u r s now later k keyed e same =
    let (j, h, done, x) = ack-IsHolder t u r now k e in
    let key = keyed (trim_space r.job_id) j h.stands in
    ground (arith, find-insert j.id (trim_space s.job_id) k t)
