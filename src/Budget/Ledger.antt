-- ===== src/Budget/Ledger.antt =====
-- go/agent-runtime/budget/ledger.go: the ledger of one scope and what is computed from it. A loop over
-- the ancestors of a Run is on fuel, one round for each registered Run and one more.
use gaoge_agent_runtime.Prelude.{
  ℕ, zero, suc, ◌+◌, String, Bool, true, false, not, ◌&&◌, ◌||◌, Option, none, some, List, [], ◌∷◌,
  ◌++◌, length, text_eq, text_ne, if◌then◌else◌, ok, err,
}
use gaoge_agent_runtime.Prelude.Int.{pos, ltb_ℤ}
use gaoge_agent_runtime.Prelude.Tables.{Table, lookup}
use gaoge_agent_runtime.Budget.{Limits, Usage, Dimension, concurrent_runs, exceeded}
use gaoge_agent_runtime.Budget.Accounting.{add_usage}

-- The errors of the ledger; a dimension where `deny` names one.
pub data LedgerError : Type 0 where
  invalid_usage not_found conflict : LedgerError
  waiting exhausted : Option Dimension → LedgerError

pub record RunBudget : Type 0 where
  pub parent_run_id : String
  pub limits : Limits

pub data ReservationStatus : Type 0 where
  waiting_status held_status settled_status released_status : ReservationStatus

pub record Reservation : Type 0 where
  pub id : String
  pub run_id : String
  pub request_hash : String
  pub requested : Usage
  pub usage : Usage
  pub status : ReservationStatus
  pub active : Bool
  pub dispatched : Bool
  pub receipt : String
  pub dimension : Option Dimension

-- The two sets of Runs are the lists of those that are marked.
pub record Ledger : Type 0 where
  pub id : String
  pub revision : ℕ
  pub limits : Limits
  pub runs : Table RunBudget
  pub reservations : Table Reservation
  pub cancelled : Bool
  pub cancelled_runs : List String
  pub finished_runs : List String

abbrev pub marked : String → List String → Bool
marked id [] = false
marked id (x ∷ xs) = text_eq id x || marked id xs

-- `set[id] = true`.
abbrev pub mark : String → List String → List String
mark id xs = if marked id xs then xs else xs ++ id ∷ []

abbrev pub parent_or_blank : Option RunBudget → String
parent_or_blank none = ""
parent_or_blank (some b) = b.parent_run_id

-- `ledger.Runs[id].ParentRunID`.
abbrev pub parent_of : Table RunBudget → String → String
parent_of runs id = parent_or_blank (lookup id runs)

-- The loop of `contains`; `none` when the rounds run out.
unfoldable pub is_ancestor : ℕ → Table RunBudget → String → String → Option Bool
is_ancestor zero runs parent child = none
is_ancestor (suc fuel) runs parent child =
    let above = is_ancestor fuel runs parent (parent_of runs child) in
    if text_eq child "" then some false else if text_eq child parent then some true else above

-- What the loop found, with `false` for a loop whose rounds ran out.
abbrev pub or_false : Option Bool → Bool
or_false none = false
or_false (some b) = b

-- `contains`.
unfoldable pub contains : Ledger → String → String → Bool
unfolding is_ancestor
contains l parent child =
    if text_eq parent ""
    then true
    else or_false (is_ancestor (suc (suc (length l.runs))) l.runs parent child)

-- The loop of `cancelled`.
unfoldable pub any_cancelled : ℕ → Ledger → String → Bool
any_cancelled zero l run_id = false
any_cancelled (suc fuel) l run_id =
    let above = any_cancelled fuel l (parent_of l.runs run_id) in
    if text_eq run_id "" then false else if marked run_id l.cancelled_runs then true else above

-- `cancelled`.
unfoldable pub is_cancelled : Ledger → String → Bool
unfolding any_cancelled
is_cancelled l run_id = if l.cancelled then true else any_cancelled (suc (length l.runs)) l run_id

abbrev pub zero_usage : Usage
zero_usage = record {
  llm_calls_used = pos 0;
  tool_calls_used = pos 0;
  hosted_tool_calls_used = pos 0;
  input_tokens_used = pos 0;
  output_tokens_used = pos 0;
  total_tokens_used = pos 0;
  cache_read_tokens = pos 0;
  cache_write_tokens = pos 0;
  reasoning_tokens = pos 0;
  output_bytes_used = pos 0;
  state_bytes_used = pos 0;
  child_runs_used = pos 0;
  cost_units_used = pos 0;
}

abbrev zero_limits : Limits
zero_limits = record {
  max_llm_calls = pos 0;
  max_tool_calls = pos 0;
  max_hosted_tool_calls = pos 0;
  max_input_tokens = pos 0;
  max_output_tokens = pos 0;
  max_total_tokens = pos 0;
  max_output_bytes = pos 0;
  max_state_bytes = pos 0;
  max_child_runs = pos 0;
  max_cost_units = pos 0;
  max_concurrent_runs = pos 0;
  max_concurrent_descendants = pos 0;
}

-- `usage, _ = AddUsage(usage, more)`: the zero usage when the sum is refused.
abbrev pub add_or_zero : Usage → Usage → Usage
add_or_zero u v = elim (add_usage u v) [ ok w ↦ w | err _ ↦ zero_usage ]

-- What the loop of `View` over the reservations gathers; the sets of Runs are lists without repetition.
pub record Totals : Type 0 where
  pub used : Usage
  pub reserved : Usage
  pub active_runs : List String
  pub waiting_runs : List String
  pub unknown_usage : Bool

unfoldable pub tally : Reservation → Totals → Totals
tally v t = elim v.status [
  | settled_status ↦ record t { used = add_or_zero t.used v.usage }
  | held_status ↦ record t {
    reserved = add_or_zero t.reserved v.requested;
    active_runs = if v.active then mark v.run_id t.active_runs else t.active_runs;
    unknown_usage = v.dispatched || t.unknown_usage;
  }
  | waiting_status ↦ record t { waiting_runs = mark v.run_id t.waiting_runs }
  | released_status ↦ t
]

unfoldable pub tally_all : Ledger → String → Table Reservation → Totals → Totals
unfolding tally contains
tally_all l run_id [] t = t
tally_all l run_id ((id, v) ∷ vs) t =
    tally_all l run_id vs (if contains l run_id v.run_id then tally v t else t)

unfoldable pub unfinished : Ledger → String → Table RunBudget → ℕ
unfolding contains
unfinished l run_id [] = 0
unfinished l run_id ((id, b) ∷ rs) =
    (if text_ne b.parent_run_id ""
        && text_ne id run_id
        && not (marked id l.finished_runs)
        && contains l run_id id
      then 1
      else 0)
    + unfinished l run_id rs

pub record LedgerView : Type 0 where
  pub scope_id : String
  pub revision : ℕ
  pub limits : Limits
  pub totals : Totals
  pub unfinished_descendants : ℕ
  pub cancelled : Bool

abbrev limits_or_zero : Option RunBudget → Limits
limits_or_zero none = zero_limits
limits_or_zero (some b) = b.limits

-- `View`, less the remaining usage.
unfoldable pub view : Ledger → String → LedgerView
unfolding tally_all unfinished is_cancelled
view l run_id = record {
  scope_id = l.id;
  revision = l.revision;
  limits = if text_eq run_id "" then l.limits else limits_or_zero (lookup run_id l.runs);
  totals = tally_all l run_id l.reservations (record {
    used = zero_usage;
    reserved = zero_usage;
    active_runs = [];
    waiting_runs = [];
    unknown_usage = false;
  });
  unfinished_descendants = unfinished l run_id l.runs;
  cancelled = is_cancelled l run_id;
}

-- `active`.
unfoldable pub is_active : Ledger → String → String → Table Reservation → Bool
unfolding contains
is_active l run_id subtree [] = false
is_active l run_id subtree ((id, v) ∷ vs) =
    (text_eq v.run_id run_id && v.active && contains l subtree v.run_id)
    || is_active l run_id subtree vs

-- What one round of `admit` refuses.
unfoldable pub admit_refusal : Ledger → String → String → Usage → Bool → Option LedgerError
unfolding view is_active
admit_refusal l run_id current requested active =
    elim (add_usage (view l current).totals.used requested) [
      | err _ ↦ some invalid_usage
      | ok used ↦ elim (exceeded (view l current).limits used) [
        | some d ↦ some (exhausted (some d))
        | none ↦ elim (add_usage used (view l current).totals.reserved) [
          | err _ ↦ some invalid_usage
          | ok occupied ↦ elim (exceeded (view l current).limits occupied) [
            | some d ↦ some (waiting (some d))
            | none ↦
                if active
                  && ltb_ℤ (pos 0) (view l current).limits.max_concurrent_runs
                  && not (is_active l run_id current l.reservations)
                  && not (
                      ltb_ℤ (pos (length (view l current).totals.active_runs))
                        (view l current).limits.max_concurrent_runs)
                then some (waiting (some concurrent_runs))
                else none
          ]
        ]
      ]
    ]

-- `admit`: the loop over the ancestors, up to the whole scope.
unfoldable pub admit : ℕ → Ledger → String → String → Usage → Bool → Option LedgerError
unfolding admit_refusal
admit zero l run_id current requested active = some invalid_usage
admit (suc fuel) l run_id current requested active =
    let above = admit fuel l run_id (parent_of l.runs current) requested active in
    elim (admit_refusal l run_id current requested active) [
      | some e ↦ some e
      | none ↦ if text_eq current "" then none else above
    ]
