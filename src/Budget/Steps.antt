-- ===== src/Budget/Steps.antt =====
-- go/agent-runtime/budget/ledger.go: what each change does to one reservation.
use gaoge_agent_runtime.Prelude.{
  ℕ, ◌≡◌, ◌≢◌, inl, inr, refl, sym, ◌∙◌, arith, String, Bool, true, false, Option, none, some, List,
  Result, ok, Result-cases, Option-cases, Bool-cases, text_eq, if◌then◌else◌,
}
use Prim.Native.String.{◌++◌ as join}
use mathlib.Core.Path.{subst}
use gaoge_agent_runtime.Prelude.Tables.{lookup, remove}
use gaoge_agent_runtime.Budget.{Usage, Dimension}
use gaoge_agent_runtime.Budget.Ledger.{
  LedgerError, RunBudget, Reservation, held_status, waiting_status, Ledger, contains, admit,
}
use gaoge_agent_runtime.Budget.Coordinator.{
  rounds, dimension_of, register_run, child_reservation, finish_runs, reserve, reserve_again,
  change_reservation, dispatch, suspend, settle, release, cancelled_reservation, cancel, cancel_run,
  requeue_proven_unsent,
}
use gaoge_agent_runtime.Budget.Settlement.{
  is_held, is_settled, Onward, Onward-refl, IsKeyed, IsStep, IsStep-refl, same-IsStep,
  assign-IsStep, replace_all-IsStep, ReservationStatus-cases,
}

pub change_reservation-IsStep :
    (id k : String) (f : Reservation → Result LedgerError Reservation) (l m : Ledger)
    → IsKeyed l
    → ((v w : Reservation) → f v ≡ ok w → (w.id ≡ v.id) × Onward v w)
    → change_reservation k f l ≡ ok m
    → IsStep id l m
unfolding change_reservation
change_reservation-IsStep id k f l m h c e = elim (Option-cases (lookup k l.reservations)) [
  | inl gone ↦ absurd (ground arith)
  | inr (v, found) ↦ elim (Result-cases (f v)) [
    | inl (x, p) ↦ absurd (ground arith)
    | inr (w, p) ↦
        let (named, onward) = c v w p in
        assign-IsStep id k w l m h (ground arith) (ground (arith, h k v found))
          (λ same u q. ground (arith, onward))
  ]
]

pub dispatch-Onward : (v w : Reservation) → dispatch v ≡ ok w → (w.id ≡ v.id) × Onward v w
unfolding dispatch
dispatch-Onward v w e = (
  ground arith,
  record {
    same_run = ground arith;
    same_hash = ground arith;
    same_request = ground arith;
    final = λ h. absurd (ground arith);
    uncertain = λ h. absurd (ground arith);
  },
)

pub suspend-Onward : (v w : Reservation) → suspend v ≡ ok w → (w.id ≡ v.id) × Onward v w
unfolding suspend
suspend-Onward v w e = (
  ground arith,
  record {
    same_run = ground arith;
    same_hash = ground arith;
    same_request = ground arith;
    final = λ h. ground arith;
    uncertain = λ h. ground arith;
  },
)

pub release-Onward : (v w : Reservation) → release v ≡ ok w → (w.id ≡ v.id) × Onward v w
unfolding release
release-Onward v w e = (
  ground arith,
  record {
    same_run = ground arith;
    same_hash = ground arith;
    same_request = ground arith;
    final = λ h. absurd (ground arith);
    uncertain = λ h. absurd (ground arith);
  },
)

pub settle-Onward :
    (usage : Usage) (receipt : String) (v w : Reservation)
    → settle usage receipt v ≡ ok w
    → (w.id ≡ v.id) × Onward v w
unfolding settle
settle-Onward usage receipt v w e = (
  ground arith,
  record {
    same_run = ground arith;
    same_hash = ground arith;
    same_request = ground arith;
    final = λ h. ground arith;
    uncertain = λ h. ground arith;
  },
)

cancelled_reservation-Onward : (v : Reservation) → Onward v (cancelled_reservation v)
unfolding cancelled_reservation
cancelled_reservation-Onward v = record {
  same_run = ground arith;
  same_hash = ground arith;
  same_request = ground arith;
  final = λ h. ground arith;
  uncertain = λ h. ground arith;
}

cancelled_reservation-id : (v : Reservation) → (cancelled_reservation v).id ≡ v.id
unfolding cancelled_reservation
cancelled_reservation-id v = ground arith

pub cancel-IsStep : (id : String) (l : Ledger) → IsKeyed l → IsStep id l (cancel l)
unfolding cancel
cancel-IsStep id l h =
    replace_all-IsStep id cancelled_reservation l (cancel l) h refl cancelled_reservation-id
      cancelled_reservation-Onward

pub cancel_run-IsStep :
    (id run_id : String) (l m : Ledger) → IsKeyed l → cancel_run run_id l ≡ ok m → IsStep id l m
unfolding cancel_run
cancel_run-IsStep id run_id l m h e =
    replace_all-IsStep id (λ v. if contains l run_id v.run_id then cancelled_reservation v else v) l
      m h (ground arith) (λ v. ground (arith, cancelled_reservation-id v))
      (λ v. elim (Bool-cases (contains l run_id v.run_id)) [
        | inl within ↦ rw within (cancelled_reservation-Onward v)
        | inr outside ↦ rw outside (Onward-refl v)
      ])

held-Onward :
    (r v : Reservation) (active : Bool) (d : Option Dimension)
    → v ≡ r
    → is_settled r.status ≡ false
    → Onward v (record r { status = held_status; active = active; dimension = d })
held-Onward r v active d same n = record {
  same_run = ground arith;
  same_hash = ground arith;
  same_request = ground arith;
  final = λ h. absurd (ground arith);
  uncertain = λ h. ground arith;
}

waiting-Onward :
    (r v : Reservation) (d : Option Dimension)
    → v ≡ r
    → is_settled r.status ≡ false
    → is_held r.status ≡ false
    → Onward v (record r { status = waiting_status; active = false; dimension = d })
waiting-Onward r v d same n o = record {
  same_run = ground arith;
  same_hash = ground arith;
  same_request = ground arith;
  final = λ h. absurd (ground arith);
  uncertain = λ h. absurd (ground arith);
}

-- A retry of a reservation that is not settled.
reserve_again-IsStep :
    (id : String) (r : Reservation) (held active : Bool) (l m : Ledger)
    (refusal : Option LedgerError)
    → IsKeyed l
    → (r.id ≡ id
        → (v : Reservation) → lookup id l.reservations ≡ some v
        → (v ≡ r) × (is_held r.status ≡ held) × (is_settled r.status ≡ false))
    → reserve_again r held active l ≡ ok (m, refusal)
    → IsStep id l m
unfolding reserve_again
reserve_again-IsStep id r held active l m refusal h c e =
    elim (Option-cases (
      admit (rounds l) (record l { reservations = remove r.id l.reservations }) r.run_id r.run_id
        r.requested active)) [
          | inl admitted ↦
              assign-IsStep id r.id
                (record r { status = held_status; active = active; dimension = none }) l m h
                (ground arith) refl
                (λ same v p. held-Onward r v active none (c same v p).0 (c same v p).2)
          | inr (denied, p) ↦ elim (Bool-cases held) [
            | inl kept ↦
                let same : m ≡ l = ground arith in
                subst (IsStep id l) (sym same) (IsStep-refl id l h)
            | inr new ↦
                assign-IsStep id r.id
                  (record r {
                    status = waiting_status;
                    active = false;
                    dimension = dimension_of denied;
                  })
                  l m h (ground arith) refl
                  (λ same v q.
                    waiting-Onward r v (dimension_of denied) (c same v q).0 (c same v q).2
                      ((c same v q).1 ∙ new))
          ]
        ]

-- The reservation that `Reserve` has found, under an identifier that is its own.
found_again :
    (l : Ledger) (k id : String) (v : Reservation) {held : Bool}
    → IsKeyed l
    → lookup k l.reservations ≡ some v
    → is_held v.status ≡ held
    → is_settled v.status ≡ false
    → v.id ≡ id
    → (u : Reservation) → lookup id l.reservations ≡ some u
    → (u ≡ v) × (is_held v.status ≡ held) × (is_settled v.status ≡ false)
found_again l k id v h found one other same u p =
    let key : k ≡ id = sym (h k v found) ∙ same in (ground arith, one, other)

pub reserve-IsStep :
    (id : String) (r : Reservation) (active : Bool) (l m : Ledger) (refusal : Option LedgerError)
    → IsKeyed l
    → reserve r active l ≡ ok (m, refusal)
    → IsStep id l m
unfolding reserve
reserve-IsStep id r active l m refusal h e = elim (Option-cases (lookup r.id l.reservations)) [
  | inl new ↦
      reserve_again-IsStep id r false active l m refusal h (λ same v p. absurd (ground arith))
        (ground arith)
  | inr (v, found) ↦ elim (ReservationStatus-cases v.status) [
    | inl settled ↦
        let same : m ≡ l = ground arith in subst (IsStep id l) (sym same) (IsStep-refl id l h)
    | inr (inl released) ↦ absurd (ground arith)
    | inr (inr (inl held)) ↦
        reserve_again-IsStep id v true active l m refusal h
          (found_again l r.id id v h found (ground arith) (ground arith)) (ground arith)
    | inr (inr (inr queued)) ↦
        reserve_again-IsStep id v false active l m refusal h
          (found_again l r.id id v h found (ground arith) (ground arith)) (ground arith)
  ]
]

pub register_run-IsStep :
    (id run_id : String) (b : RunBudget) (l m : Ledger)
    → IsKeyed l
    → id ≢ join "child:" run_id
    → register_run run_id b l ≡ ok m
    → IsStep id l m
unfolding register_run
register_run-IsStep id run_id b l m h other e = elim (Option-cases (lookup run_id l.runs)) [
  | inr (old, found) ↦
      let same : m.reservations ≡ l.reservations = ground arith in same-IsStep id l m h same
  | inl new ↦ elim (Bool-cases (text_eq b.parent_run_id "")) [
    | inl root ↦
        let same : m.reservations ≡ l.reservations = ground arith in same-IsStep id l m h same
    | inr child ↦
        assign-IsStep id (join "child:" run_id)
          (child_reservation (join "child:" run_id) b.parent_run_id) l m h (ground arith) refl
          (λ same v p. absurd (other (sym same)))
  ]
]

pub finish_runs-IsStep :
    (id : String) (ids : List String) (l m : Ledger)
    → IsKeyed l
    → finish_runs ids l ≡ ok m
    → IsStep id l m
unfolding finish_runs
finish_runs-IsStep id ids l m h e = same-IsStep id l m h (ground arith)

pub requeue-IsStep :
    (id k : String) (revision : ℕ) (l m : Ledger)
    → IsKeyed l
    → k ≢ id
    → requeue_proven_unsent k revision l ≡ ok m
    → IsStep id l m
unfolding requeue_proven_unsent
requeue-IsStep id k revision l m h other e = elim (Option-cases (lookup k l.reservations)) [
  | inl gone ↦ absurd (ground arith)
  | inr (v, found) ↦
      assign-IsStep id k
        (record v { status = waiting_status; active = false; dispatched = false; dimension = none })
        l m h (ground arith) (h k v found) (λ same u p. absurd (other same))
]
