-- ===== src/Budget/Transfers.antt =====
-- go/agent-runtime/budget/receipt_transfer.go: what a settlement with receipts does to one reservation.
use gaoge_agent_runtime.Prelude.{
  ◌≡◌, refl, arith, sym, ◌∙◌, String, Bool, true, false, ◌||◌, inl, inr, List, [], ◌∷◌, ok,
  Result-cases, Option-cases, Bool-cases,
}
use mathlib.Core.Path.{subst}
use gaoge_agent_runtime.Prelude.Tables.{Table, lookup, lookup-assign}
use gaoge_agent_runtime.Budget.{Usage}
use gaoge_agent_runtime.Budget.Ledger.{Reservation, settled_status, Ledger, marked}
use gaoge_agent_runtime.Budget.Settlement.{
  is_held, is_settled, Onward, Onward-trans, IsKeyed, IsStep, IsStep-refl, same-IsStep,
  assign-IsStep,
}
use gaoge_agent_runtime.Budget.Receipts.{
  valid_related, is_replaceable, transfer_one, transfer, settle_with_receipts,
}

abbrev with_table : Ledger → Table Reservation → Ledger
with_table l t = record l { reservations = t }

IsStep-trans : (id : String) (l m n : Ledger) → IsStep id l m → IsStep id m n → IsStep id l n
IsStep-trans id l m n h k = record {
  keyed = k.keyed;
  onward = λ v p.
      let (u, found, first) = h.onward v p in
      let (w, there, later) = k.onward u found in (w, there, Onward-trans v u w first later);
}

module _ (valid : String → Bool) where
  replaced-Onward :
      (v w : Reservation)
      → is_replaceable valid v w ≡ true
      → is_settled v.status ≡ false
      → w.dispatched ≡ true
      → (is_held w.status || is_settled w.status) ≡ true
      → Onward v w
  unfolding is_replaceable
  replaced-Onward v w h n d k = record {
    same_run = ground arith;
    same_hash = ground arith;
    same_request = ground arith;
    final = λ p. absurd (ground arith);
    uncertain = λ p. (d, k);
  }

  transfer_one-IsStep :
      (id : String) (current next : Reservation) (seen : List String) (l : Ledger)
      (u : Table Reservation)
      → IsKeyed l
      → valid_related valid current seen next ≡ true
      → transfer_one valid next l.reservations ≡ ok u
      → IsStep id l (with_table l u)
  unfolding transfer_one valid_related
  transfer_one-IsStep id current next seen l u h v e =
      elim (Option-cases (lookup next.id l.reservations)) [
        | inl new ↦
            assign-IsStep id next.id next l (with_table l u) h (ground arith) refl
              (λ same x p. absurd (ground arith))
        | inr (previous, found) ↦ elim (Bool-cases (is_settled previous.status)) [
          | inl settled ↦ same-IsStep id l (with_table l u) h (ground arith)
          | inr pending ↦
              assign-IsStep id next.id next l (with_table l u) h (ground arith) refl (λ same x p.
                let one : x ≡ previous = ground arith in
                rw one (
                  replaced-Onward previous next (ground arith) pending (ground arith)
                    (ground arith)))
        ]
      ]

  -- A receipt that is not among those seen leaves the reservations of the latter alone.
  transfer_one-other :
      (id : String) (current next : Reservation) (seen : List String) (t u : Table Reservation)
      → marked id seen ≡ true
      → valid_related valid current seen next ≡ true
      → transfer_one valid next t ≡ ok u
      → lookup id u ≡ lookup id t
  unfolding transfer_one valid_related
  transfer_one-other id current next seen t u m v e =
      ground (arith, lookup-assign next.id id next t)

  transfer-IsStep :
      (id : String) (current : Reservation) (seen : List String) (related : List Reservation)
      (l : Ledger) (u : Table Reservation)
      → IsKeyed l
      → transfer valid current seen related l.reservations ≡ ok u
      → IsStep id l (with_table l u)
  unfolding transfer
  transfer-IsStep id current seen [] l u h e = same-IsStep id l (with_table l u) h (ground arith)
  transfer-IsStep id current seen (next ∷ related) l u h e =
      elim (Result-cases (transfer_one valid next l.reservations)) [
        | inl (x, p) ↦ absurd (ground arith)
        | inr (t, p) ↦
            let first = transfer_one-IsStep id current next seen l t h (ground arith) p in
            IsStep-trans id l (with_table l t) (with_table l u) first (
              transfer-IsStep id current (next.id ∷ seen) related (with_table l t) u first.keyed
                (ground arith))
      ]

  transfer-other :
      (id : String) (current : Reservation) (seen : List String) (related : List Reservation)
      (t u : Table Reservation)
      → marked id seen ≡ true
      → transfer valid current seen related t ≡ ok u
      → lookup id u ≡ lookup id t
  unfolding transfer
  transfer-other id current seen [] t u m e = ground arith
  transfer-other id current seen (next ∷ related) t u m e =
      elim (Result-cases (transfer_one valid next t)) [
        | inl (x, p) ↦ absurd (ground arith)
        | inr (w, p) ↦
            transfer-other id current (next.id ∷ seen) related w u (ground arith) (ground arith)
            ∙ transfer_one-other id current next seen t w m (ground arith) p
      ]

  settled-Onward :
      (v : Reservation) (usage : Usage) (receipt : String)
      → v.dispatched ≡ true
      → is_settled v.status ≡ false
      → Onward v
          (record v { status = settled_status; active = false; usage = usage; receipt = receipt })
  settled-Onward v usage receipt d n = record {
    same_run = refl;
    same_hash = refl;
    same_request = refl;
    final = λ p. absurd (ground arith);
    uncertain = λ p. (d, refl);
  }

  pub settle_with_receipts-IsStep :
      (id k : String) (usage : Usage) (receipt : String) (related : List Reservation) (l m : Ledger)
      → IsKeyed l
      → settle_with_receipts valid k usage receipt related l ≡ ok m
      → IsStep id l m
  unfolding settle_with_receipts
  settle_with_receipts-IsStep id k usage receipt related l m h e =
      elim (Option-cases (lookup k l.reservations)) [
        | inl gone ↦ absurd (ground arith)
        | inr (current, found) ↦ elim (Bool-cases (is_settled current.status)) [
          | inl settled ↦
              let same : m ≡ l = ground arith in subst (IsStep id l) (sym same) (IsStep-refl id l h)
          | inr pending ↦
              elim (Result-cases (transfer valid current (k ∷ []) related l.reservations)) [
                | inl (x, p) ↦ absurd (ground arith)
                | inr (t, p) ↦
                    let first = transfer-IsStep id current (k ∷ []) related l t h p in
                    let kept =
                      transfer-other k current (k ∷ []) related l.reservations t (ground arith) p in
                    let sent : current.dispatched ≡ true = ground arith in
                    IsStep-trans id l (with_table l t) m first (
                      assign-IsStep id k
                        (record current {
                          status = settled_status;
                          active = false;
                          usage = usage;
                          receipt = receipt;
                        })
                        (with_table l t) m first.keyed (ground arith) (h k current found)
                        (λ same v q.
                          let one : v ≡ current = ground arith in
                          rw one (settled-Onward current usage receipt sent pending)))
              ]
        ]
      ]
