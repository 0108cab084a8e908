-- ===== src/Budget/Admission.antt =====
-- go/agent-runtime/budget/ledger.go: what an admission makes sure of.
use gaoge_agent_runtime.Prelude.{
  ℕ, zero, suc, ◌≡◌, ◌⊎◌, inl, inr, arith, String, Bool, true, false, none, some, length, ok,
  Result-cases, Option-cases, text_dec,
}
use gaoge_agent_runtime.Prelude.Tables.{lookup, remove, remove_absent}
use mathlib.Core.Path.{subst}
use gaoge_agent_runtime.Budget.{Usage, exceeded}
use gaoge_agent_runtime.Budget.Accounting.{add_usage}
use gaoge_agent_runtime.Budget.Ledger.{
  Reservation, Ledger, parent_of, is_ancestor, contains, view, admit, admit_refusal,
}
use gaoge_agent_runtime.Budget.Coordinator.{rounds, reserve, reserve_again}

-- A usage fits into a subtree: with what `View` counts as used and reserved there it passes no limit of the subtree.
pub record Fits (l : Ledger) (subtree : String) (requested : Usage) : Type 0 where
  pub used : Usage
  pub added : add_usage (view l subtree).totals.used requested ≡ ok used
  pub occupied : Usage
  pub with_reserved : add_usage used (view l subtree).totals.reserved ≡ ok occupied
  pub within : exceeded (view l subtree).limits occupied ≡ none

admit_refusal-Fits :
    (l : Ledger) (run_id current : String) (requested : Usage) (active : Bool)
    → admit_refusal l run_id current requested active ≡ none
    → Fits l current requested
unfolding admit_refusal
admit_refusal-Fits l run_id current requested active h =
    elim (Result-cases (add_usage (view l current).totals.used requested)) [
      | inl (e, p) ↦ absurd (ground arith)
      | inr (used, p) ↦ elim (Result-cases (add_usage used (view l current).totals.reserved)) [
        | inl (e, q) ↦ absurd (ground arith)
        | inr (occupied, q) ↦ record {
          used = used;
          added = p;
          occupied = occupied;
          with_reserved = q;
          within = ground arith;
        }
      ]
    ]

admit-Fits :
    (fuel walk : ℕ) (l : Ledger) (run_id current : String) (requested : Usage) (active : Bool)
    (subtree : String)
    → admit fuel l run_id current requested active ≡ none
    → (subtree ≡ "") ⊎ (is_ancestor walk l.runs subtree current ≡ some true)
    → Fits l subtree requested
unfolding admit is_ancestor
admit-Fits zero walk l run_id current requested active subtree h k = absurd (ground arith)
admit-Fits (suc fuel) zero l run_id current requested active subtree h k =
    let here = admit_refusal-Fits l run_id current requested active (ground arith) in
    elim (text_dec subtree current) [
      | yes same ↦ rw same here
      | no other ↦
          let above : admit fuel l run_id (parent_of l.runs current) requested active ≡ none =
            ground arith in
          admit-Fits fuel zero l run_id (parent_of l.runs current) requested active subtree above
            (ground arith)
    ]
admit-Fits (suc fuel) (suc walk) l run_id current requested active subtree h k =
    let here = admit_refusal-Fits l run_id current requested active (ground arith) in
    elim (text_dec subtree current) [
      | yes same ↦ rw same here
      | no other ↦
          let above : admit fuel l run_id (parent_of l.runs current) requested active ≡ none =
            ground arith in
          admit-Fits fuel walk l run_id (parent_of l.runs current) requested active subtree above
            (ground arith)
    ]

-- A request that `reserve_again` holds without a refusal was admitted.
reserve_again-admit :
    (r : Reservation) (active : Bool) (l m : Ledger)
    → reserve_again r false active l ≡ ok (m, none)
    → admit
        (rounds l)
        (record l { reservations = remove r.id l.reservations })
        r.run_id
        r.run_id
        r.requested
        active
      ≡ none
unfolding reserve_again
reserve_again-admit r active l m h =
    elim (Option-cases (
      admit (rounds l) (record l { reservations = remove r.id l.reservations }) r.run_id r.run_id
        r.requested active)) [ inl admitted ↦ admitted | inr (denied, p) ↦ absurd (ground arith) ]

reserve-reserve_again :
    (r : Reservation) (active : Bool) (l m : Ledger)
    → lookup r.id l.reservations ≡ none
    → reserve r active l ≡ ok (m, none)
    → reserve_again r false active l ≡ ok (m, none)
unfolding reserve
reserve-reserve_again r active l m new h = ground arith

-- A request that `Reserve` admits, with no reservation under its identifier before, fits into the whole scope
-- and into the subtree of its Run and of each ancestor of its Run: `AddUsage` gives the sum of the request with
-- what `View` counts there as used, and of that with what `View` counts there as reserved, and the last sum
-- passes no limit of the subtree. What `View` counts is its own sum, which begins again from zero when it does
-- not fit.
pub reserve-Fits :
    (r : Reservation) (active : Bool) (l m : Ledger) (subtree : String)
    → lookup r.id l.reservations ≡ none
    → reserve r active l ≡ ok (m, none)
    → contains l subtree r.run_id ≡ true
    → Fits l subtree r.requested
unfolding contains
reserve-Fits r active l m subtree new h k =
    let admitted = reserve_again-admit r active l m (reserve-reserve_again r active l m new h) in
    let same = remove_absent r.id l.reservations new in
    admit-Fits (rounds l) (suc (suc (length l.runs))) l r.run_id r.run_id r.requested active subtree
      (subst
        (λ t.
          admit (rounds l) (record l { reservations = t }) r.run_id r.run_id r.requested active
          ≡ none)
        same admitted)
      (ground arith)
