-- ===== src/Budget/Settlement.antt =====
-- go/agent-runtime/budget/ledger.go: what a history of changes does to the reservation of one call.
use gaoge_agent_runtime.Prelude.{
  ◌≡◌, ◌⊎◌, inl, inr, refl, sym, arith, String, Bool, true, false, ◌&&◌, ◌||◌, some, Option-cases,
  Bool-cases, text_dec,
}
use gaoge_agent_runtime.Prelude.Tables.{
  lookup, assign, replace_all, lookup-assign, lookup-replace_all,
}
use gaoge_agent_runtime.Budget.Ledger.{
  Reservation, ReservationStatus, held_status, settled_status, waiting_status, released_status,
  Ledger,
}

abbrev pub is_held : ReservationStatus → Bool
is_held held_status = true
is_held _ = false

abbrev pub is_settled : ReservationStatus → Bool
is_settled settled_status = true
is_settled _ = false

pub ReservationStatus-cases :
    (x : ReservationStatus)
    → (x ≡ settled_status) ⊎ ((x ≡ released_status) ⊎ ((x ≡ held_status) ⊎ (x ≡ waiting_status)))
ReservationStatus-cases settled_status = inl refl
ReservationStatus-cases released_status = inr (inl refl)
ReservationStatus-cases held_status = inr (inr (inl refl))
ReservationStatus-cases waiting_status = inr (inr (inr refl))

-- What may become of a reservation: its Run, request and estimate stay, a settled one stays settled with
-- its usage and receipt, and a dispatched one that is held stays dispatched, held or settled.
pub record Onward (v w : Reservation) : Type 0 where
  pub same_run : w.run_id ≡ v.run_id
  pub same_hash : w.request_hash ≡ v.request_hash
  pub same_request : w.requested ≡ v.requested
  pub final :
      is_settled v.status ≡ true
      → (is_settled w.status ≡ true)
        × (w.usage ≡ v.usage)
        × (w.receipt ≡ v.receipt)
        × (w.dispatched ≡ v.dispatched)
  pub uncertain :
      (is_held v.status && v.dispatched) ≡ true
      → (w.dispatched ≡ true) × ((is_held w.status || is_settled w.status) ≡ true)

pub Onward-refl : (v : Reservation) → Onward v v
Onward-refl v = record {
  same_run = refl;
  same_hash = refl;
  same_request = refl;
  final = λ h. (h, refl, refl, refl);
  uncertain = λ h. ground arith;
}

pub Onward-trans : (u v w : Reservation) → Onward u v → Onward v w → Onward u w
Onward-trans u v w h k = record {
  same_run = ground (arith, h.same_run, k.same_run);
  same_hash = ground (arith, h.same_hash, k.same_hash);
  same_request = ground (arith, h.same_request, k.same_request);
  final = λ p. let one = h.final p in let two = k.final one.0 in ground (arith, one, two);
  uncertain = λ p. elim (Bool-cases (is_held v.status)) [
    | inl held ↦ k.uncertain (ground (arith, h.uncertain p, held))
    | inr other ↦
        let one = h.uncertain p in
        let two = k.final (ground (arith, one, other)) in ground (arith, one, two)
  ];
}

-- Each reservation stands under its own identifier.
abbrev pub IsKeyed : Ledger → Type 0
IsKeyed l = (k : String) (v : Reservation) → lookup k l.reservations ≡ some v → v.id ≡ k

-- What a change leaves of the reservation under one identifier.
pub record IsStep (id : String) (l m : Ledger) : Type 0 where
  pub keyed : IsKeyed m
  pub onward :
      (v : Reservation)
      → lookup id l.reservations ≡ some v
      → (w : Reservation) × (lookup id m.reservations ≡ some w) × Onward v w

pub IsStep-refl : (id : String) (l : Ledger) → IsKeyed l → IsStep id l l
IsStep-refl id l h = record { keyed = h; onward = λ v p. (v, p, Onward-refl v) }

pub same-IsStep :
    (id : String) (l m : Ledger) → IsKeyed l → m.reservations ≡ l.reservations → IsStep id l m
same-IsStep id l m h e = record {
  keyed = λ k v p. ground (arith, h k v);
  onward = λ v p. (v, ground arith, Onward-refl v);
}

-- A change of one reservation.
pub assign-IsStep :
    (id k : String) (w : Reservation) (l m : Ledger)
    → IsKeyed l
    → m.reservations ≡ assign k w l.reservations
    → w.id ≡ k
    → (k ≡ id → (v : Reservation) → lookup id l.reservations ≡ some v → Onward v w)
    → IsStep id l m
assign-IsStep id k w l m h e n c = record {
  keyed = λ q v p. ground (arith, lookup-assign k q w l.reservations, h q v);
  onward = λ v p. elim (text_dec id k) [
    | yes same ↦ (w, ground (arith, lookup-assign k id w l.reservations), c (sym same) v p)
    | no other ↦ (v, ground (arith, lookup-assign k id w l.reservations), Onward-refl v)
  ];
}

-- A pass over all reservations.
pub replace_all-IsStep :
    (id : String) (f : Reservation → Reservation) (l m : Ledger)
    → IsKeyed l
    → m.reservations ≡ replace_all f l.reservations
    → ((v : Reservation) → (f v).id ≡ v.id)
    → ((v : Reservation) → Onward v (f v))
    → IsStep id l m
replace_all-IsStep id f l m h e same c = record {
  keyed = λ q v p. elim (Option-cases (lookup q l.reservations)) [
    | inl gone ↦ absurd (ground (arith, lookup-replace_all f q l.reservations))
    | inr (u, found) ↦ ground (arith, lookup-replace_all f q l.reservations, h q u found, same u)
  ];
  onward = λ v p. (f v, ground (arith, lookup-replace_all f id l.reservations), c v);
}
