-- ===== src/Memory/Control.antt =====
-- go/agent-runtime/memory/control.go: the guarded write that revokes execution authority.
use gaoge_agent_runtime.Prelude.{
  ℕ, ◌==◌, ◌/=◌, ltb, String, Bool, ◌&&◌, ◌||◌, Option, none, some, text_eq, if◌then◌else◌, Result,
  ok, err, ◌≡◌, sym, ◌⊎◌, inl, inr, arith,
}
use mathlib.Core.Path.{subst}
use gaoge_agent_runtime.Kernel.{
  Error, invalid_input, not_found, conflict, execution_conflict, execution_quarantined, Context,
  Snapshot, StoreMutation, ControlGuard, Codec,
}
use gaoge_agent_runtime.Kernel.Validation.{is_running, context_error}
use gaoge_agent_runtime.Kernel.Guard.{validate_control, next_u64}
use gaoge_agent_runtime.Memory.{Store, ExecutionState, no_lease, authority, apply_locked}
use gaoge_agent_runtime.Memory.Execution.{max_u64, with_authority}

-- `ApplyControl` once the guards have passed: revoke, then commit.
abbrev pub revoked : ExecutionState → ExecutionState
revoked a = record a { epoch = next_u64 a.epoch; lease = no_lease }

unfoldable pub revoke : Store → String → Store
revoke s run_id =
    if ltb 0 (authority s run_id).epoch
    then with_authority s run_id (revoked (authority s run_id))
    else s

abbrev pub with_flag : Bool → Store × Result Error Snapshot → Store × Result Error (Snapshot × Bool)
with_flag b (s, ok a) = (s, ok (a, b))
with_flag b (s, err e) = (s, err e)

module _ (codec : Codec) where
  -- What `ApplyControl` refuses once the record is read.
  unfoldable pub control_refusal :
      Snapshot → ExecutionState → ℕ → ControlGuard → StoreMutation → ℕ → Option Error
  control_refusal current st expected g m now =
      if current.run.revision /= expected
      then some conflict
      else elim (validate_control codec current g m now) [
        | some e ↦ some e
        | none ↦
            if st.quarantine_rev /= 0 && is_running m.replacement.run.status
            then some execution_quarantined
            else if st.epoch == max_u64
            then some execution_conflict
            else none
      ]

  -- `ApplyControl`; the flag says whether an execution epoch was revoked.
  unfoldable pub apply_control :
      Store
      → Context
      → String
      → ℕ
      → ControlGuard
      → StoreMutation
      → ℕ
      → Store × Result Error (Snapshot × Bool)
  unfolding revoke
  apply_control s ctx run_id expected g m now = elim (context_error ctx) [
    | some e ↦ (s, err (if text_eq run_id "" || expected == 0 then invalid_input else e))
    | none ↦
        if text_eq run_id "" || expected == 0
        then (s, err invalid_input)
        else elim (s.records run_id) [
          | none ↦ (s, err not_found)
          | some current ↦ elim (control_refusal current (authority s run_id) expected g m now) [
            | some e ↦ (s, err e)
            | none ↦
                with_flag (ltb 0 (authority s run_id).epoch)
                  (apply_locked (revoke s run_id) run_id expected m)
          ]
        ]
  ]

  apply_control-store :
      (s : Store) (c : Context) (k : String) (e : ℕ) (g : ControlGuard) (m : StoreMutation)
      (now : ℕ)
      → ((apply_control s c k e g m now).0 ≡ s)
        ⊎ ((apply_control s c k e g m now).0 ≡ (apply_locked (revoke s k) k e m).0)
  unfolding apply_control
  apply_control-store s c k e g m now = ground arith

  -- The store that a control leaves: the one before, or the commit after a revocation.
  pub apply_control_cases {ℓ} :
      (P : Store → Type ℓ) (s : Store) (c : Context) (k : String) (e : ℕ) (g : ControlGuard)
      (m : StoreMutation) (now : ℕ)
      → P s
      → P (apply_locked (revoke s k) k e m).0
      → P (apply_control s c k e g m now).0
  apply_control_cases P s c k e g m now same done = elim (apply_control-store s c k e g m now) [
    | inl q ↦ subst P (sym q) same
    | inr q ↦ subst P (sym q) done
  ]

revoke-store :
    (s : Store) (k : String)
    → (revoke s k ≡ s) ⊎ (revoke s k ≡ with_authority s k (revoked (authority s k)))
unfolding revoke
revoke-store s k = ground arith

pub revoke_cases {ℓ} :
    (P : Store → Type ℓ) (s : Store) (k : String)
    → P s
    → ((a : ExecutionState) → P (with_authority s k a))
    → P (revoke s k)
revoke_cases P s k same other = elim (revoke-store s k) [
  | inl q ↦ subst P (sym q) same
  | inr q ↦ subst P (sym q) (other (revoked (authority s k)))
]
