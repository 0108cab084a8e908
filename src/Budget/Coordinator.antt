-- ===== src/Budget/Coordinator.antt =====
-- go/agent-runtime/budget/ledger.go and receipt_transfer.go: the changes that a Coordinator makes to a
-- ledger. JSON validity is the parameter `valid`. A Go map that `delete` and an assignment leave with the
-- same keys is the same table.
use gaoge_agent_runtime.Prelude.{
  ℕ, zero, suc, ◌==◌, ◌/=◌, leb, String, Bool, true, false, not, ◌&&◌, ◌||◌, Option, none, some,
  is_some, ℕ_discrete, List, [], ◌∷◌, length, text_dec, text_eq, text_ne, byte_length, is_blank,
  if◌then◌else◌, Result, ok, err, ite,
}
use Prim.Native.String.{◌++◌ as join, slice}
use gaoge_agent_runtime.Prelude.Int.{ℤ, pos, ltb_ℤ}
use gaoge_agent_runtime.Prelude.Tables.{Table, lookup, assign, remove, replace_all}
use gaoge_agent_runtime.Budget.{Limits, Usage, Dimension, concurrent_descendants, valid_limits}
use gaoge_agent_runtime.Budget.Accounting.{valid_usage}
use gaoge_agent_runtime.Budget.Ledger.{
  LedgerError, invalid_usage, not_found, conflict, waiting, exhausted, RunBudget, Reservation,
  waiting_status, held_status, settled_status, released_status, Ledger, marked, mark, parent_of,
  contains, is_cancelled, zero_usage, view, admit,
}

abbrev pub ℤ_discrete : Discrete ℤ
ℤ_discrete = hlevel (ℕ_discrete)

abbrev pub usage_dec : Discrete Usage
usage_dec = hlevel (ℤ_discrete)

abbrev pub limits_dec : Discrete Limits
limits_dec = hlevel (ℤ_discrete)

abbrev pub run_budget_dec : Discrete RunBudget
run_budget_dec = hlevel (limits_dec, text_dec)

abbrev pub reservation_dec : Discrete Reservation
reservation_dec = hlevel (usage_dec, text_dec)

abbrev pub ledger_dec : Discrete Ledger
ledger_dec = hlevel (reservation_dec, run_budget_dec, limits_dec, text_dec, ℕ_discrete)

abbrev charge : Usage
charge = record zero_usage { child_runs_used = pos 1 }

-- The loop of `RegisterRun` over the ancestors: the first that has no room for another descendant.
unfoldable pub crowded : ℕ → Ledger → String → Bool
unfolding view
crowded zero l current = true
crowded (suc fuel) l current =
    let above = crowded fuel l (parent_of l.runs current) in
    if ltb_ℤ (pos 0) (view l current).limits.max_concurrent_descendants
      && not (
          ltb_ℤ (pos (view l current).unfinished_descendants)
            (view l current).limits.max_concurrent_descendants)
    then true
    else if text_eq current ""
    then false
    else above

abbrev pub rounds : Ledger → ℕ
rounds l = suc (length l.runs)

-- The reservation that a new child Run takes from its parent.
abbrev pub child_reservation : String → String → Reservation
child_reservation id parent = record {
  id = id;
  run_id = parent;
  request_hash = "";
  requested = charge;
  usage = charge;
  status = settled_status;
  active = false;
  dispatched = false;
  receipt = "";
  dimension = none;
}

abbrev pub with_run : Ledger → String → RunBudget → Ledger
with_run l run_id b = record l { runs = assign run_id b l.runs }

-- `RegisterRun`.
unfoldable pub register_run : String → RunBudget → Ledger → Result LedgerError Ledger
unfolding crowded admit is_cancelled
register_run run_id b l =
    if text_eq run_id "" || text_eq run_id b.parent_run_id || not (valid_limits b.limits)
    then err invalid_usage
    else elim (lookup run_id l.runs) [
      | some existing ↦ ite (run_budget_dec existing b) (ok l) (err conflict)
      | none ↦
          if is_cancelled l run_id || is_cancelled l b.parent_run_id
          then err (exhausted none)
          else if text_eq b.parent_run_id ""
          then ok (with_run l run_id b)
          else if not (is_some (lookup b.parent_run_id l.runs))
          then err conflict
          else if marked b.parent_run_id l.finished_runs
          then err (exhausted none)
          else if crowded (rounds l) l b.parent_run_id
          then err (waiting (some concurrent_descendants))
          else elim (admit (rounds l) l b.parent_run_id b.parent_run_id charge false) [
            | some e ↦ err e
            | none ↦ ok (record (with_run l run_id b) {
              reservations =
                  assign (join "child:" run_id)
                    (child_reservation (join "child:" run_id) b.parent_run_id) l.reservations;
            })
          ]
    ]

unfoldable pub all_registered : List String → Table RunBudget → Bool
all_registered [] runs = true
all_registered (id ∷ ids) runs = is_some (lookup id runs) && all_registered ids runs

unfoldable pub mark_all : List String → List String → List String
mark_all [] xs = xs
mark_all (id ∷ ids) xs = mark_all ids (mark id xs)

-- `FinishRuns`.
unfoldable pub finish_runs : List String → Ledger → Result LedgerError Ledger
unfolding all_registered mark_all
finish_runs ids l =
    if all_registered ids l.runs
    then ok (record l { finished_runs = mark_all ids l.finished_runs })
    else err not_found

-- `errors.Is(denied, ErrWaiting)`.
abbrev is_waiting : LedgerError → Bool
is_waiting (waiting d) = true
is_waiting _ = false

abbrev pub dimension_of : LedgerError → Option Dimension
dimension_of (waiting d) = d
dimension_of (exhausted d) = d
dimension_of _ = none

abbrev pub with_reservation : Ledger → String → Reservation → Ledger
with_reservation l id v = record l { reservations = assign id v l.reservations }

-- The admission of `Reserve`: of a new request, or of one that waits or is held. Beside the ledger it gives
-- the refusal that the ledger records.
unfoldable pub reserve_again :
    Reservation → Bool → Bool → Ledger → Result LedgerError (Ledger × Option LedgerError)
unfolding admit is_cancelled
reserve_again r held active l =
    if is_cancelled l r.run_id
    then err (exhausted none)
    else elim (admit (rounds l) (record l { reservations = remove r.id l.reservations }) r.run_id
        r.run_id r.requested active) [
          | none ↦ ok (
            with_reservation l r.id
                (record r { status = held_status; active = active; dimension = none }),
            none,
          )
          | some denied ↦
              if held
              then ok (l, some denied)
              else if not (is_waiting denied)
              then err denied
              else ok (
                with_reservation l r.id (record r {
                  status = waiting_status;
                  active = false;
                  dimension = dimension_of denied;
                }),
                some denied,
              )
        ]

-- `Reserve`.
unfoldable pub reserve :
    Reservation → Bool → Ledger → Result LedgerError (Ledger × Option LedgerError)
unfolding reserve_again
reserve request active l =
    if text_eq request.id ""
      || text_eq request.run_id ""
      || text_eq request.request_hash ""
      || not (valid_usage request.requested)
    then err invalid_usage
    else if not (is_some (lookup request.run_id l.runs))
    then err conflict
    else elim (lookup request.id l.reservations) [
      | none ↦ reserve_again request false active l
      | some existing ↦
          if text_ne existing.run_id request.run_id
            || text_ne existing.request_hash request.request_hash
          then err conflict
          else elim existing.status [
            | settled_status ↦ ok (l, none)
            | released_status ↦ err conflict
            | held_status ↦ reserve_again existing true active l
            | waiting_status ↦ reserve_again existing false active l
          ]
    ]

-- `changeReservation`.
unfoldable pub change_reservation :
    String → (Reservation → Result LedgerError Reservation) → Ledger → Result LedgerError Ledger
change_reservation id change l = elim (lookup id l.reservations) [
  | none ↦ err not_found
  | some v ↦ elim (change v) [ err e ↦ err e | ok w ↦ ok (with_reservation l id w) ]
]

-- `Dispatch`.
unfoldable pub dispatch : Reservation → Result LedgerError Reservation
dispatch v = elim v.status [
  | held_status ↦ if v.dispatched then err (waiting none) else ok (record v { dispatched = true })
  | _ ↦ err conflict
]

-- `Suspend`.
unfoldable pub suspend : Reservation → Result LedgerError Reservation
suspend v = ok (record v { active = false })

-- The change of `Settle`.
unfoldable pub settle : Usage → String → Reservation → Result LedgerError Reservation
settle usage receipt v = elim v.status [
  | settled_status ↦
      ite (usage_dec v.usage usage) (if text_eq v.receipt receipt then ok v else err conflict)
        (err conflict)
  | held_status ↦
      ok (record v { status = settled_status; active = false; usage = usage; receipt = receipt })
  | _ ↦ err conflict
]

-- `Release`.
unfoldable pub release : Reservation → Result LedgerError Reservation
release v = if v.dispatched then err conflict else elim v.status [
  | settled_status ↦ err conflict
  | _ ↦ ok (record v { status = released_status; active = false })
]

-- What a cancellation does to one reservation.
unfoldable pub cancelled_reservation : Reservation → Reservation
cancelled_reservation v = elim v.status [
  | settled_status ↦ v
  | _ ↦ if v.dispatched then v else record v { status = released_status; active = false }
]

-- `Cancel`.
unfoldable pub cancel : Ledger → Ledger
unfolding cancelled_reservation
cancel l = record l {
  cancelled = true;
  reservations = replace_all cancelled_reservation l.reservations;
}

-- `CancelRun`.
unfoldable pub cancel_run : String → Ledger → Result LedgerError Ledger
unfolding cancelled_reservation contains
cancel_run run_id l =
    if is_blank run_id
    then err invalid_usage
    else ok (record l {
      cancelled_runs = mark run_id l.cancelled_runs;
      reservations =
          replace_all (λ v. if contains l run_id v.run_id then cancelled_reservation v else v)
            l.reservations;
    })

-- The tests of `RequeueProvenUnsent` on the reservation.
unfoldable pub proven_unsent : Reservation → Bool
proven_unsent v =
    elim v.status [ held_status ↦ true | _ ↦ false ]
    && v.active
    && v.dispatched
    && byte_length v.receipt == 0
    && ite (usage_dec v.usage zero_usage) true false

-- `RequeueProvenUnsent`.
unfoldable pub requeue_proven_unsent : String → ℕ → Ledger → Result LedgerError Ledger
unfolding proven_unsent
requeue_proven_unsent id dispatch_revision l =
    if dispatch_revision == 0 || text_ne (slice id 0 6) "model:" || leb (byte_length id) 6
    then err conflict
    else if l.revision /= dispatch_revision
    then err conflict
    else elim (lookup id l.reservations) [
      | none ↦ err conflict
      | some v ↦
          if proven_unsent v
          then ok (
              with_reservation l id (record v {
                status = waiting_status;
                active = false;
                dispatched = false;
                dimension = none;
              }))
          else err conflict
    ]
