-- ===== src/Budget/Receipts.antt =====
-- go/agent-runtime/budget/receipt_transfer.go, and the rounds of `update` of ledger.go over the Store of
-- memory_ledger.go. JSON validity is the parameter `valid`.
use gaoge_agent_runtime.Prelude.{
  ℕ, ◌/=◌, String, Bool, true, false, not, ◌&&◌, ◌||◌, Option, none, some, List, [], ◌∷◌, is_blank,
  text_eq, text_ne, if◌then◌else◌, Result, ok, err, ite, Map, put,
}
use gaoge_agent_runtime.Prelude.Tables.{Table, lookup, assign}
use gaoge_agent_runtime.Kernel.Guard.{next_u64}
use gaoge_agent_runtime.Budget.{Usage, Limits, valid_limits}
use gaoge_agent_runtime.Budget.Accounting.{valid_usage}
use gaoge_agent_runtime.Budget.Ledger.{
  LedgerError, invalid_usage, not_found, conflict, Reservation, settled_status, Ledger, marked,
  zero_usage,
}
use gaoge_agent_runtime.Budget.Coordinator.{usage_dec, limits_dec, ledger_dec}
use gaoge_agent_runtime.Budget.Settlement.{is_held, is_settled}

abbrev pub same_usage : Usage → Usage → Bool
same_usage u v = ite (usage_dec u v) true false

module _ (valid : String → Bool) where
  -- The tests on a related receipt.
  unfoldable pub valid_related : Reservation → List String → Reservation → Bool
  valid_related current seen next =
      text_ne next.id ""
      && not (marked next.id seen)
      && text_eq next.run_id current.run_id
      && text_ne next.request_hash ""
      && valid_usage next.requested
      && same_usage next.usage zero_usage
      && valid next.receipt
      && next.dispatched
      && not next.active
      && (is_held next.status || is_settled next.status)

  -- `previous` may be replaced by `next`, or is settled already.
  unfoldable pub is_replaceable : Reservation → Reservation → Bool
  is_replaceable previous next =
      text_eq previous.run_id next.run_id
      && text_eq previous.request_hash next.request_hash
      && same_usage previous.requested next.requested
      && (is_held previous.status || is_settled previous.status)

  -- One round of the loop over the related receipts.
  unfoldable pub transfer_one :
      Reservation → Table Reservation → Result LedgerError (Table Reservation)
  unfolding is_replaceable
  transfer_one next t = elim (lookup next.id t) [
    | none ↦ ok (assign next.id next t)
    | some previous ↦
        if not (is_replaceable previous next)
        then err conflict
        else if is_settled previous.status
        then ok t
        else ok (assign next.id next t)
  ]

  -- The loop over the related receipts.
  unfoldable pub transfer :
      Reservation
      → List String
      → List Reservation
      → Table Reservation
      → Result LedgerError (Table Reservation)
  unfolding valid_related transfer_one
  transfer current seen [] t = ok t
  transfer current seen (next ∷ related) t =
      if not (valid_related current seen next)
      then err invalid_usage
      else elim (transfer_one next t) [
        | err e ↦ err e
        | ok u ↦ transfer current (next.id ∷ seen) related u
      ]

  -- `SettleWithReceipts`.
  unfoldable pub settle_with_receipts :
      String → Usage → String → List Reservation → Ledger → Result LedgerError Ledger
  unfolding transfer
  settle_with_receipts id usage receipt related l =
      if not (valid_usage usage) || not (valid receipt)
      then err invalid_usage
      else elim (lookup id l.reservations) [
        | none ↦ err conflict
        | some current ↦
            if not current.dispatched || not (is_held current.status || is_settled current.status)
            then err conflict
            else if is_settled current.status
            then if not (same_usage current.usage usage) || text_ne current.receipt receipt
              then err conflict
              else ok l
            else elim (transfer current (id ∷ []) related l.reservations) [
              | err e ↦ err e
              | ok t ↦ ok (record l {
                reservations =
                    assign id
                      (record current {
                        status = settled_status;
                        active = false;
                        usage = usage;
                        receipt = receipt;
                      })
                      t;
              })
            ]
      ]

-- `MemoryLedgerStore.ledgers`, and its two operations.
abbrev pub LedgerStore : Type 0
LedgerStore = Map Ledger

unfoldable pub load_budget : LedgerStore → String → Result LedgerError Ledger
load_budget s id = elim (s id) [ none ↦ err not_found | some l ↦ ok l ]

abbrev revision_or_zero : Option Ledger → ℕ
revision_or_zero none = 0
revision_or_zero (some l) = l.revision

unfoldable pub save_budget : LedgerStore → Ledger → ℕ → LedgerStore × Result LedgerError (Unit {0})
save_budget s l revision =
    if text_eq l.id "" || l.revision /= next_u64 revision || not (valid_limits l.limits)
    then (s, err invalid_usage)
    else if revision_or_zero (s l.id) /= revision
    then (s, err conflict)
    else (put s l.id l, ok tt)

abbrev saved :
    Ledger → LedgerStore × Result LedgerError (Unit {0}) → LedgerStore × Result LedgerError Ledger
saved l (s, ok _) = (s, ok l)
saved l (s, err e) = (s, err e)

-- A round of the loop of `update`, which reads one store and writes to another: calls of others may come in
-- between. On a conflict of the write there is another round.
unfoldable pub update_round :
    LedgerStore
    → LedgerStore
    → String
    → (Ledger → Result LedgerError Ledger)
    → LedgerStore × Result LedgerError Ledger
unfolding load_budget save_budget
update_round s t scope_id change = elim (load_budget s scope_id) [
  | err e ↦ (t, err e)
  | ok l ↦ elim (change l) [
    | err e ↦ (t, err e)
    | ok m ↦
        ite (ledger_dec l m) (t, ok l)
          (saved (record m { revision = next_u64 m.revision })
            (save_budget t (record m { revision = next_u64 m.revision }) l.revision))
  ]
]

abbrev new_ledger : String → Limits → Ledger
new_ledger id limits = record {
  id = id;
  revision = 1;
  limits = limits;
  runs = [];
  reservations = [];
  cancelled = false;
  cancelled_runs = [];
  finished_runs = [];
}

-- `Coordinator.Ensure`, when no other call comes between its read and its write.
unfoldable pub ensure_ledger :
    LedgerStore → String → Limits → LedgerStore × Result LedgerError Ledger
unfolding load_budget save_budget
ensure_ledger s id limits =
    if is_blank id || not (valid_limits limits)
    then (s, err invalid_usage)
    else elim (load_budget s id) [
      | ok l ↦ ite (limits_dec l.limits limits) (s, ok l) (s, err conflict)
      | err e ↦ saved (new_ledger id limits) (save_budget s (new_ledger id limits) 0)
    ]
