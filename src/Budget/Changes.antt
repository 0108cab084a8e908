-- ===== src/Budget/Changes.antt =====
-- go/agent-runtime/budget/ledger.go: what any history of changes does to the reservation of one call.
use gaoge_agent_runtime.Prelude.{
  ℕ, ◌≡◌, ◌≢◌, inl, inr, arith, String, Bool, not, ◌&&◌, ◌||◌, Option, some, List, [], ◌∷◌, All,
  ltb, byte_length, Result, ok, err, Result-cases, if◌then◌else◌, ite,
}
use Prim.Native.String.{◌++◌ as join}
use mathlib.Core.Path.{subst}
use gaoge_agent_runtime.Prelude.Tables.{lookup}
use gaoge_agent_runtime.Kernel.Guard.{next_u64}
use gaoge_agent_runtime.Budget.{Usage}
use gaoge_agent_runtime.Budget.Accounting.{valid_usage}
use gaoge_agent_runtime.Budget.Ledger.{LedgerError, invalid_usage, RunBudget, Reservation, Ledger}
use gaoge_agent_runtime.Budget.Coordinator.{
  ledger_dec, register_run, finish_runs, reserve, change_reservation, dispatch, suspend, settle,
  release, cancel, cancel_run, requeue_proven_unsent,
}
use gaoge_agent_runtime.Budget.Receipts.{settle_with_receipts}
use gaoge_agent_runtime.Budget.Transfers.{settle_with_receipts-IsStep}
use gaoge_agent_runtime.Budget.Settlement.{
  Onward, Onward-refl, IsKeyed, IsStep, IsStep-refl, Onward-trans,
}
use gaoge_agent_runtime.Budget.Steps.{
  change_reservation-IsStep, dispatch-Onward, suspend-Onward, release-Onward, settle-Onward,
  cancel-IsStep, cancel_run-IsStep, reserve-IsStep, register_run-IsStep, finish_runs-IsStep,
  requeue-IsStep,
}

-- The changes of a Coordinator, each with its arguments.
pub data Change : Type 0 where
  registers : String → RunBudget → Change
  finishes : List String → Change
  reserves : Reservation → Bool → Change
  dispatches suspends releases : String → Change
  settles : String → Usage → String → Change
  settles_with : String → Usage → String → List Reservation → Change
  cancels : Change
  cancels_run : String → Change
  requeues : String → ℕ → Change

abbrev dropped_refusal :
    Result LedgerError (Ledger × Option LedgerError) → Result LedgerError Ledger
dropped_refusal (ok (l, refusal)) = ok l
dropped_refusal (err e) = err e

-- The changes that may undo a reservation are left out: a requeue of it with a proof that it was not sent, and
-- the registration of a child Run whose own reservation has its identifier.
abbrev pub Spares : String → Change → Type 0
Spares id (registers run_id b) = id ≢ join "child:" run_id
Spares id (requeues k revision) = k ≢ id
Spares id _ = Unit

module _ (valid : String → Bool) where
  -- The ledger that a change leaves, before `update` counts its revision.
  unfoldable pub change : Change → Ledger → Result LedgerError Ledger
  change (registers id b) l = register_run id b l
  change (finishes ids) l = finish_runs ids l
  change (reserves r active) l = dropped_refusal (reserve r active l)
  change (dispatches id) l = change_reservation id dispatch l
  change (suspends id) l = change_reservation id suspend l
  change (releases id) l = change_reservation id release l
  change (settles id usage receipt) l =
      if not (valid_usage usage) || (ltb 0 (byte_length receipt) && not (valid receipt))
      then err invalid_usage
      else change_reservation id (settle usage receipt) l
  change (settles_with id usage receipt related) l =
      settle_with_receipts valid id usage receipt related l
  change cancels l = ok (cancel l)
  change (cancels_run id) l = cancel_run id l
  change (requeues id revision) l = requeue_proven_unsent id revision l

  -- What `update` keeps of a changed ledger: the old one when the two are equal.
  unfoldable pub updated : Ledger → Result LedgerError Ledger → Ledger
  updated l (err e) = l
  updated l (ok m) = ite (ledger_dec l m) l (record m { revision = next_u64 m.revision })

  -- One change after the other.
  unfoldable pub run_changes : List Change → Ledger → Ledger
  run_changes [] l = l
  run_changes (c ∷ cs) l = run_changes cs (updated l (change c l))

  change-IsStep :
      (id : String) (c : Change) (l m : Ledger)
      → IsKeyed l
      → Spares id c
      → change c l ≡ ok m
      → IsStep id l m
  unfolding change
  change-IsStep id (registers r b) l m h other e = register_run-IsStep id r b l m h other e
  change-IsStep id (finishes ids) l m h other e = finish_runs-IsStep id ids l m h e
  change-IsStep id (reserves r active) l m h other e = elim (Result-cases (reserve r active l)) [
    | inl (x, p) ↦ absurd (ground arith)
    | inr ((n, refusal), p) ↦ reserve-IsStep id r active l m refusal h (ground arith)
  ]
  change-IsStep id (dispatches k) l m h other e =
      change_reservation-IsStep id k dispatch l m h dispatch-Onward e
  change-IsStep id (suspends k) l m h other e =
      change_reservation-IsStep id k suspend l m h suspend-Onward e
  change-IsStep id (releases k) l m h other e =
      change_reservation-IsStep id k release l m h release-Onward e
  change-IsStep id (settles k usage receipt) l m h other e =
      change_reservation-IsStep id k (settle usage receipt) l m h (settle-Onward usage receipt)
        (ground arith)
  change-IsStep id (settles_with k usage receipt related) l m h other e =
      settle_with_receipts-IsStep valid id k usage receipt related l m h e
  change-IsStep id cancels l m h other e =
      let same : cancel l ≡ m = ground arith in subst (IsStep id l) same (cancel-IsStep id l h)
  change-IsStep id (cancels_run k) l m h other e = cancel_run-IsStep id k l m h e
  change-IsStep id (requeues k revision) l m h other e = requeue-IsStep id k revision l m h other e

  updated-IsStep :
      (id : String) (c : Change) (l : Ledger)
      → IsKeyed l
      → Spares id c
      → IsStep id l (updated l (change c l))
  unfolding updated
  updated-IsStep id c l h other = elim (Result-cases (change c l)) [
    | inl (e, p) ↦ rw p (IsStep-refl id l h)
    | inr (m, p) ↦
        let step = change-IsStep id c l m h other p in
        rw p
          (elim (ledger_dec l m)
            as (λ d. IsStep id l (ite d l (record m { revision = next_u64 m.revision }))) [
              | yes same ↦ IsStep-refl id l h
              | no new ↦ record { keyed = step.keyed; onward = step.onward }
            ])
  ]

  -- In a ledger that has each reservation under its own identifier, and over any history of changes with neither a
  -- requeue of the reservation as proven unsent nor the registration of a child Run whose own reservation has its
  -- identifier, a reservation stays, under its identifier and with its Run, request and estimate. Once it is settled, its usage and its receipt never change, and once it is dispatched while it is held, it
  -- stays dispatched until it is settled: none of these changes releases it, or takes it back to waiting.
  pub run_changes-Onward :
      (id : String) (cs : List Change) (l : Ledger) (v : Reservation)
      → IsKeyed l
      → All (Spares id) cs
      → lookup id l.reservations ≡ some v
      → (w : Reservation) × (lookup id (run_changes cs l).reservations ≡ some w) × Onward v w
  unfolding run_changes
  run_changes-Onward id [] l v h spares p = (v, p, Onward-refl v)
  run_changes-Onward id (c ∷ cs) l v h (one, rest) p =
      let step = updated-IsStep id c l h one in
      let (u, found, first) = step.onward v p in
      let (w, there, later) =
        run_changes-Onward id cs (updated l (change c l)) u step.keyed rest found in
      (w, there, Onward-trans v u w first later)
