-- ===== src/Memory/Journal.antt =====
-- go/agent-runtime/memory/store.go: the event journal of each Run, its numbering and its pages.
use gaoge_agent_runtime.Prelude.{
  ℕ, zero, suc, ◌+◌, ◌-◌, min, ◌≡◌, refl, ap, sym, String, none, some, List, [], ◌∷◌, ◌++◌, length,
  take, drop, arith,
}
use mathlib.Core.List.{append_assoc}
use mathlib.Core.Path.{subst}
use gaoge_agent_runtime.Kernel.{RunRecord, EventDraft, Event, Snapshot, StoreMutation}
use gaoge_agent_runtime.Memory.{
  Store, journal, append_events, append_committed_transition, create, apply_locked,
}

-- The events are numbered from `n` on, without a gap.
abbrev pub NumberedFrom : ℕ → List Event → Type 0
NumberedFrom n [] = Unit
NumberedFrom n (e ∷ es) = (e.seq ≡ n) × NumberedFrom (suc n) es

pub NumberedFrom-append :
    (n : ℕ) (xs ys : List Event)
    → NumberedFrom n xs
    → NumberedFrom (n + length xs) ys
    → NumberedFrom n (xs ++ ys)
NumberedFrom-append n [] ys hx hy = subst (λ k. NumberedFrom k ys) (omega arith) hy
NumberedFrom-append n (x ∷ xs) ys hx hy =
    (hx.0, NumberedFrom-append (suc n) xs ys hx.1 (subst (λ k. NumberedFrom k ys) (omega arith) hy))

pub append_events-NumberedFrom :
    (ds : List EventDraft) (es : List Event) (at : ℕ)
    → NumberedFrom 1 es
    → NumberedFrom 1 (append_events es ds at)
unfolding append_events
append_events-NumberedFrom [] es at h = h
append_events-NumberedFrom (d ∷ ds) es at h =
    append_events-NumberedFrom ds _ at (NumberedFrom-append 1 es _ h (omega arith, tt))

take-length {ℓ} : {A : Type ℓ} (xs ys : List A) → take (length xs) (xs ++ ys) ≡ xs
take-length [] ys = refl
take-length (x ∷ xs) ys = ap (◌∷◌ x) (take-length xs ys)

pub IsPrefix-append_events :
    (ds : List EventDraft) (es rest : List Event) (at : ℕ)
    → take (length es) (append_events (es ++ rest) ds at) ≡ es
unfolding append_events
IsPrefix-append_events [] es rest at = take-length es rest
IsPrefix-append_events (d ∷ ds) es rest at = rw append_assoc (IsPrefix-append_events ds es _ at)

pub NumberedFrom-drop :
    (k n : ℕ) (es : List Event) → NumberedFrom n es → NumberedFrom (n + k) (drop k es)
NumberedFrom-drop zero n es h = subst (λ k. NumberedFrom k es) (omega arith) h
NumberedFrom-drop (suc k) n [] h = tt
NumberedFrom-drop (suc k) n (e ∷ es) h =
    subst (λ j. NumberedFrom j (drop k es)) (omega arith) (NumberedFrom-drop k (suc n) es h.1)

pub NumberedFrom-take : (k n : ℕ) (es : List Event) → NumberedFrom n es → NumberedFrom n (take k es)
NumberedFrom-take zero n es h = tt
NumberedFrom-take (suc k) n [] h = tt
NumberedFrom-take (suc k) n (e ∷ es) h = (h.0, NumberedFrom-take k (suc n) es h.1)

pub length-page {ℓ} :
    {A : Type ℓ} (limit after : ℕ) (xs : List A)
    → length (take limit (drop after xs)) ≡ min limit (length xs - after)
length-page zero zero xs = omega arith
length-page (suc l) zero [] = omega arith
length-page (suc l) zero (x ∷ xs) = omega (arith, length-page l zero xs)
length-page zero (suc a) [] = omega arith
length-page (suc l) (suc a) [] = omega arith
length-page l (suc a) (x ∷ xs) = omega (arith, length-page l a xs)

-- What the store says of the journal of one Run: it stands with its record, the record's event head
-- is its length, and it is numbered from 1.
pub record IsJournaled (s : Store) (id : String) : Type 0 where
  pub absent : s.records id ≡ none → journal s id ≡ []
  pub head : (snap : Snapshot) → s.records id ≡ some snap → snap.event_head ≡ length (journal s id)
  pub numbered : NumberedFrom 1 (journal s id)

pub apply_locked-IsJournaled :
    (s : Store) (k : String) (e : ℕ) (m : StoreMutation) (id : String)
    → IsJournaled s id
    → IsJournaled (apply_locked s k e m).0 id
unfolding apply_locked append_committed_transition
apply_locked-IsJournaled s k e m id h = record {
  absent = λ a. ground (arith, h.absent);
  head = λ snap p. ground (arith, h.head snap);
  numbered = ground (
    arith,
    h.numbered,
    append_events-NumberedFrom m.events (journal s k) m.replacement.run.updated_at,
  );
}

pub create-IsJournaled :
    (s : Store) (r : RunRecord) (es : List EventDraft) (id : String)
    → IsJournaled s id
    → IsJournaled (create s r es).0 id
unfolding create append_committed_transition
create-IsJournaled s r es id h = record {
  absent = λ a. ground (arith, h.absent);
  head = λ snap p. ground (arith, h.head snap);
  numbered = ground (arith, h.numbered, append_events-NumberedFrom es [] r.run.updated_at);
}

-- A step that leaves records and journals alone.
module _ (s t : Store) (id : String) (r : t.records ≡ s.records) (j : t.journals ≡ s.journals) where
  pub keep-IsJournaled : IsJournaled s id → IsJournaled t id
  keep-IsJournaled h = record {
    absent = λ a. ground (arith, h.absent);
    head = λ snap p. ground (arith, h.head snap);
    numbered = rw (sym j) at (h.numbered);
  }
