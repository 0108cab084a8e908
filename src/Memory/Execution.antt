-- ===== src/Memory/Execution.antt =====
-- go/agent-runtime/memory/execution.go and quarantine.go: fenced execution segments. `now` is the
-- Store-owned clock, `entropy` the new lease identifier, `none` if the source of entropy fails.
use gaoge_agent_runtime.Prelude.{
  ℕ, ◌+◌, ◌==◌, ◌/=◌, ltb, leb, String, Bool, not, ◌&&◌, ◌||◌, Option, none, some, text_eq, text_ne,
  is_blank, trim_space, byte_length, if◌then◌else◌, put, Result, ok, err,
}
use gaoge_agent_runtime.Prelude.Int.{pos_part}
use gaoge_agent_runtime.Kernel.{
  Error, invalid_input, not_found, conflict, terminal, execution_conflict, execution_required,
  execution_quarantined, entropy, Context, Snapshot, StoreMutation, ExecutionLease,
  ExecutionAcquireRequest, ExecutionRenewRequest, Quarantine,
}
use gaoge_agent_runtime.Kernel.Validation.{
  is_running, terminal_status, valid_execution_duration, context_error,
}
use gaoge_agent_runtime.Kernel.Guard.{next_u64}
use gaoge_agent_runtime.Memory.{Store, ExecutionState, no_lease, authority, apply_locked}

abbrev pub max_u64 : ℕ
max_u64 = 18446744073709551615

-- `validMemoryExecutionRequest`.
unfoldable pub valid_memory_execution_request : ExecutionAcquireRequest → Bool
unfolding valid_execution_duration
valid_memory_execution_request r =
    not (is_blank r.run_id)
    && not (is_blank r.owner_id)
    && valid_execution_duration r.lease_duration

-- `validMemoryLease`.
unfoldable pub valid_memory_lease : ExecutionLease → Bool
valid_memory_lease l =
    text_ne l.run_id ""
    && text_ne l.owner_id ""
    && text_ne l.lease_id ""
    && l.epoch /= 0
    && l.expires_at /= 0

-- `activeMemoryLease`.
unfoldable pub active_memory_lease : ExecutionState → ExecutionLease → ℕ → Bool
active_memory_lease st l now =
    ltb 0 st.epoch
    && text_eq st.lease.run_id l.run_id
    && text_eq st.lease.owner_id l.owner_id
    && text_eq st.lease.lease_id l.lease_id
    && st.lease.epoch == l.epoch
    && ltb now st.lease.expires_at

-- `store.execution[id] = state`.
abbrev pub with_authority : Store → String → ExecutionState → Store
with_authority s run_id st = record s { execution = put s.execution run_id st }

-- What `AcquireExecution` refuses once the record is read.
unfoldable pub acquire_refusal : Snapshot → ExecutionState → ℕ → Option Error
acquire_refusal snap st now =
    if terminal_status snap.run.status
    then some terminal
    else if not (is_running snap.run.status)
    then some execution_conflict
    else if st.quarantine_rev /= 0
    then some execution_quarantined
    else if st.epoch == 0
    then some execution_required
    else if ltb 0 st.epoch && ltb now st.lease.expires_at
    then some execution_conflict
    else if st.epoch == max_u64
    then some execution_conflict
    else none

-- The lease that `AcquireExecution` issues.
abbrev pub issued_lease : ExecutionAcquireRequest → ExecutionState → ℕ → String → ExecutionLease
issued_lease r st now id = record {
  run_id = r.run_id;
  owner_id = trim_space r.owner_id;
  lease_id = id;
  epoch = next_u64 st.epoch;
  expires_at = now + pos_part r.lease_duration;
}

-- The end of `AcquireExecution`, under the lock.
unfoldable pub issue :
    Store
    → ExecutionAcquireRequest
    → ExecutionState
    → ℕ
    → Option String
    → Store × Result Error ExecutionLease
issue s r st now none = (s, err entropy)
issue s r st now (some id) = (
  with_authority s r.run_id
      (record st { epoch = next_u64 st.epoch; lease = issued_lease r st now id }),
  ok (issued_lease r st now id),
)

-- `AcquireExecution`.
unfoldable pub acquire_execution :
    Store
    → Context
    → ExecutionAcquireRequest
    → ℕ
    → Option String
    → Store × Result Error ExecutionLease
unfolding issue
acquire_execution s ctx r now id = elim (context_error ctx) [
  | some e ↦ (s, err (if not (valid_memory_execution_request r) then invalid_input else e))
  | none ↦
      if not (valid_memory_execution_request r)
      then (s, err invalid_input)
      else elim (s.records r.run_id) [
        | none ↦ (s, err not_found)
        | some snap ↦ elim (acquire_refusal snap (authority s r.run_id) now) [
          | some e ↦ (s, err e)
          | none ↦ issue s r (authority s r.run_id) now id
        ]
      ]
]

-- `RenewExecution`.
unfoldable pub renew_execution :
    Store → Context → ExecutionRenewRequest → ℕ → Store × Result Error ExecutionLease
renew_execution s ctx r now =
    if not (valid_memory_lease r.lease) || not (valid_execution_duration r.lease_duration)
    then (s, err invalid_input)
    else elim (context_error ctx) [
      | some e ↦ (s, err e)
      | none ↦
          if not (active_memory_lease (authority s r.lease.run_id) r.lease now)
          then (s, err execution_conflict)
          else (
            with_authority s r.lease.run_id (record (authority s r.lease.run_id) {
              lease = record ((authority s r.lease.run_id).lease) {
                expires_at = now + pos_part r.lease_duration;
              };
            }),
            ok (record ((authority s r.lease.run_id).lease) {
              expires_at = now + pos_part r.lease_duration;
            }),
          )
    ]

-- `ReleaseExecution`.
unfoldable pub release_execution :
    Store → Context → ExecutionLease → ℕ → Store × Result Error (Unit {0})
release_execution s ctx l now =
    if not (valid_memory_lease l) then (s, err invalid_input) else elim (context_error ctx) [
      | some e ↦ (s, err e)
      | none ↦
          if not (active_memory_lease (authority s l.run_id) l now)
          then (s, err execution_conflict)
          else (
            with_authority s l.run_id (record (authority s l.run_id) { lease = no_lease }),
            ok tt,
          )
    ]

-- What `ApplyExecution` refuses before `applyLocked`.
unfoldable pub apply_execution_refusal : Store → ExecutionLease → ℕ → Option Error
apply_execution_refusal s l now =
    if (authority s l.run_id).quarantine_rev /= 0
    then some execution_quarantined
    else if not (active_memory_lease (authority s l.run_id) l now)
    then some execution_conflict
    else elim (s.records l.run_id) [
      | none ↦ some not_found
      | some current ↦ if not (is_running current.run.status) then some execution_required else none
    ]

-- `ApplyExecution`: a fenced write.
unfoldable pub apply_execution :
    Store → Context → ExecutionLease → ℕ → StoreMutation → ℕ → Store × Result Error Snapshot
apply_execution s ctx l expected m now =
    if not (valid_memory_lease l)
      || expected == 0
      || text_ne m.replacement.run.id l.run_id
      || m.replacement.run.revision /= next_u64 expected
    then (s, err invalid_input)
    else elim (context_error ctx) [
      | some e ↦ (s, err e)
      | none ↦ elim (apply_execution_refusal s l now) [
        | some e ↦ (s, err e)
        | none ↦ apply_locked s l.run_id expected m
      ]
    ]

-- `CheckExecution`, which only reads.
unfoldable pub check_execution :
    Store → Context → String → Option ExecutionLease → ℕ → Result Error (Unit {0})
check_execution s ctx run_id lease now = elim (context_error ctx) [
  | some e ↦ err (if is_blank run_id then invalid_input else e)
  | none ↦ if is_blank run_id then err invalid_input else elim (s.records run_id) [
    | none ↦ err not_found
    | some snap ↦
        if terminal_status snap.run.status
        then err terminal
        else if (authority s run_id).quarantine_rev /= 0
        then err execution_quarantined
        else elim lease [
          | none ↦ if ltb 0 (authority s run_id).epoch then err execution_required else ok tt
          | some l ↦
              if not (valid_memory_lease l) || text_ne l.run_id run_id
              then err execution_conflict
              else if not (is_running snap.run.status)
              then err execution_required
              else if not (active_memory_lease (authority s run_id) l now)
              then err execution_conflict
              else ok tt
        ]
  ]
]

-- `validMemoryQuarantine`.
unfoldable pub valid_memory_quarantine : Quarantine → Bool
valid_memory_quarantine q =
    text_ne q.run_id ""
    && text_eq (trim_space q.run_id) q.run_id
    && ltb 0 q.revision
    && text_ne q.reason ""
    && leb (byte_length q.reason) 64
    && text_eq (trim_space q.reason) q.reason

-- The state that `QuarantineExecution` stores.
abbrev pub blocked : ExecutionState → Quarantine → ExecutionState
blocked st q = record {
  epoch = next_u64 st.epoch;
  lease = no_lease;
  quarantine_rev = q.revision;
  quarantine_gen = q.generation;
  quarantine_code = q.reason;
}

-- `QuarantineExecution`.
unfoldable pub quarantine_execution : Store → Context → Quarantine → Store × Result Error (Unit {0})
quarantine_execution s ctx q =
    if not (valid_memory_quarantine q) then (s, err invalid_input) else elim (context_error ctx) [
      | some e ↦ (s, err e)
      | none ↦ elim (s.records q.run_id) [
        | none ↦ (s, err not_found)
        | some snap ↦
            if snap.run.revision /= q.revision
            then (s, err conflict)
            else if not (is_running snap.run.status) || (authority s q.run_id).epoch == 0
            then (s, err execution_required)
            else if (authority s q.run_id).quarantine_rev /= 0
            then if (authority s q.run_id).quarantine_gen == q.generation
                && text_eq (authority s q.run_id).quarantine_code q.reason
              then (s, ok tt)
              else (s, err conflict)
            else if (authority s q.run_id).epoch == max_u64
            then (s, err execution_conflict)
            else (with_authority s q.run_id (blocked (authority s q.run_id) q), ok tt)
      ]
    ]

-- `RepairExecutionQuarantine`.
unfoldable pub repair_quarantine : Store → Context → Quarantine → Store × Result Error (Unit {0})
repair_quarantine s ctx q =
    if not (valid_memory_quarantine q) then (s, err invalid_input) else elim (context_error ctx) [
      | some e ↦ (s, err e)
      | none ↦ elim (s.records q.run_id) [
        | none ↦ (s, err not_found)
        | some snap ↦
            if snap.run.revision /= q.revision
              || not (is_running snap.run.status)
              || (authority s q.run_id).quarantine_rev /= q.revision
              || (authority s q.run_id).quarantine_gen /= q.generation
              || text_ne (authority s q.run_id).quarantine_code q.reason
            then (s, err conflict)
            else (
              with_authority s q.run_id (record (authority s q.run_id) {
                quarantine_rev = 0;
                quarantine_gen = 0;
                quarantine_code = "";
              }),
              ok tt,
            )
      ]
    ]
