-- ===== src/Memory/Paging.antt =====
-- go/agent-runtime/memory/store.go: the journal over whole histories of calls, and the pages of
-- `ListEvents`.
use gaoge_agent_runtime.Prelude.{
  ℕ, suc, ◌+◌, ◌-◌, min, ◌≡◌, refl, String, List, [], ◌∷◌, length, take, drop, arith, ok,
}
use mathlib.Core.List.{append-nil}
use mathlib.Core.Path.{subst, sym, ap}
use gaoge_agent_runtime.Kernel.{
  RunRecord, EventDraft, Event, StoreMutation, Codec, Context, ControlGuard,
}
use gaoge_agent_runtime.Memory.{
  Store, ExecutionState, journal, append_committed_transition, append_events, create, apply_locked,
  apply, list_events,
}
use gaoge_agent_runtime.Memory.Execution.{
  acquire_execution, renew_execution, release_execution, apply_execution, quarantine_execution,
  repair_quarantine, with_authority,
}
use gaoge_agent_runtime.Memory.Control.{apply_control, apply_control_cases, revoke_cases}
use gaoge_agent_runtime.Memory.Outbox.{claim_transitions, ack_transition, retry_transition}
use gaoge_agent_runtime.Memory.Journal.{
  NumberedFrom, NumberedFrom-drop, NumberedFrom-take, IsPrefix-append_events, length-page,
  IsJournaled, apply_locked-IsJournaled, create-IsJournaled, keep-IsJournaled,
}
use gaoge_agent_runtime.Memory.Steps.{
  Call, creates, applies, acquires, renews, releases, executes, quarantines, repairs, controls,
  claims, acks, retries, call, step, run_calls,
}

-- One call keeps the journal of a Run well formed, and only adds to it.
pub record Extends (s t : Store) (id : String) : Type 0 where
  pub journaled : IsJournaled t id
  pub kept : take (length (journal s id)) (journal t id) ≡ journal s id

take_all {ℓ} : {A : Type ℓ} (xs : List A) → take (length xs) xs ≡ xs
take_all [] = refl
take_all (x ∷ xs) = rw (take_all xs)

apply_locked-Extends :
    (s : Store) (k : String) (e : ℕ) (m : StoreMutation) (id : String)
    → IsJournaled s id
    → Extends s (apply_locked s k e m).0 id
unfolding apply_locked append_committed_transition
apply_locked-Extends s k e m id h = record {
  journaled = apply_locked-IsJournaled s k e m id h;
  kept = ground (arith, take_all (journal s id), appended (journal s k));
}
  where
    appended :
        (es : List Event)
        → take (length es) (append_events es m.events m.replacement.run.updated_at) ≡ es
    appended es =
        rw append-nil at (IsPrefix-append_events m.events es [] m.replacement.run.updated_at)

create-Extends :
    (s : Store) (r : RunRecord) (es : List EventDraft) (id : String)
    → IsJournaled s id
    → Extends s (create s r es).0 id
unfolding create append_committed_transition
create-Extends s r es id h = record {
  journaled = create-IsJournaled s r es id h;
  kept = ground (arith, take_all (journal s id), h.absent);
}

module _ (s t : Store) (id : String) (r : t.records ≡ s.records) (j : t.journals ≡ s.journals) where
  keep-Extends : IsJournaled s id → Extends s t id
  keep-Extends h = record {
    journaled = keep-IsJournaled s t id r j h;
    kept = rw j (take_all (journal s id));
  }

after_revocation :
    (s : Store) (a : ExecutionState) (k : String) (e : ℕ) (m : StoreMutation) (id : String)
    → IsJournaled s id
    → Extends s (apply_locked (with_authority s k a) k e m).0 id
after_revocation s a k e m id h =
    let same : IsJournaled (with_authority s k a) id = record {
      absent = h.absent;
      head = h.head;
      numbered = h.numbered;
    } in
    let r = apply_locked-Extends (with_authority s k a) k e m id same in
    record { journaled = r.journaled; kept = r.kept }

control-Extends :
    (codec : Codec) (s : Store) (c : Context) (k : String) (e : ℕ) (g : ControlGuard)
    (m : StoreMutation) (now : ℕ) (id : String)
    → IsJournaled s id
    → Extends s (apply_control codec s c k e g m now).0 id
unfolding apply_control
control-Extends codec s c k e g m now id h =
    apply_control_cases codec (λ t. Extends s t id) s c k e g m now
      (keep-Extends s s id refl refl h)
      (revoke_cases (λ u. Extends s (apply_locked u k e m).0 id) s k
        (apply_locked-Extends s k e m id h) λ a. after_revocation s a k e m id h)

module _ (codec : Codec) where
  call-Extends :
      (s : Store) (c : Call) (id : String) → IsJournaled s id → Extends s (step codec s c) id
  unfolding call apply acquire_execution renew_execution release_execution apply_execution
      quarantine_execution repair_quarantine claim_transitions ack_transition retry_transition
  call-Extends s (creates r es) id h = create-Extends s r es id h
  call-Extends s (applies k e m) id h =
      ground (arith, keep-Extends s s id refl refl h, apply_locked-Extends s k e m id h)
  call-Extends s (acquires c r now k) id h = keep-Extends s _ id (ground arith) (ground arith) h
  call-Extends s (renews c r now) id h = keep-Extends s _ id (ground arith) (ground arith) h
  call-Extends s (releases c l now) id h = keep-Extends s _ id (ground arith) (ground arith) h
  call-Extends s (executes c l e m now) id h =
      ground (arith, keep-Extends s s id refl refl h, apply_locked-Extends s l.run_id e m id h)
  call-Extends s (quarantines c q) id h = keep-Extends s _ id (ground arith) (ground arith) h
  call-Extends s (repairs c q) id h = keep-Extends s _ id (ground arith) (ground arith) h
  call-Extends s (controls c k e g m now) id h = control-Extends codec s c k e g m now id h
  call-Extends s (claims r) id h = keep-Extends s _ id (ground arith) (ground arith) h
  call-Extends s (acks r) id h = keep-Extends s _ id (ground arith) (ground arith) h
  call-Extends s (retries r at) id h = keep-Extends s _ id (ground arith) (ground arith) h

  -- A prefix of a prefix, for lists that grow.
  take_kept :
      (xs ys zs : List Event)
      → take (length xs) ys ≡ xs
      → take (length ys) zs ≡ ys
      → take (length xs) zs ≡ xs
  take_kept [] ys zs h k = refl
  take_kept (x ∷ xs) [] zs h k = cc
  take_kept (x ∷ xs) (y ∷ ys) [] h k = cc
  take_kept (x ∷ xs) (y ∷ ys) (z ∷ zs) h k =
      ground (arith, take_kept xs ys zs (ground arith) (ground arith))

  -- Over any history of calls, a well-formed journal of a Run stays well formed: it is numbered
  -- from 1 without a gap, its record's event head is its length, and a missing Run has none; and
  -- the events that it had stay its first ones.
  pub run_calls-Extends :
      (cs : List Call) (s : Store) (id : String)
      → IsJournaled s id
      → Extends s (run_calls codec s cs) id
  unfolding run_calls
  run_calls-Extends [] s id h = keep-Extends s s id refl refl h
  run_calls-Extends (c ∷ cs) s id h =
      let now = call-Extends s c id h in
      let later = run_calls-Extends cs (step codec s c) id now.journaled in
      record { journaled = later.journaled; kept = take_kept _ _ _ now.kept later.kept }

-- For a well-formed journal, a page that `ListEvents` gives holds the events after the position,
-- numbered on from there, as many as the limit and the journal allow.
pub list_events_page :
    (s : Store) (id : String) (after limit : ℕ) (page : List Event)
    → IsJournaled s id
    → list_events s id after limit ≡ ok page
    → NumberedFrom (suc after) page
      × (length page ≡ min limit (length (journal s id) - after))
      × (page ≡ take limit (drop after (journal s id)))
unfolding list_events
list_events_page s id after limit page h e = (
  subst (NumberedFrom (suc after)) (sym page_is) (
      subst (λ n. NumberedFrom n (take limit (drop after (journal s id)))) (omega arith)
        (NumberedFrom-take limit (1 + after) (drop after (journal s id))
          (NumberedFrom-drop after 1 (journal s id) h.numbered))),
  omega (arith, ap (length {A = Event}) page_is, length-page limit after (journal s id)),
  page_is,
)
  where
    page_is : page ≡ take limit (drop after (journal s id))
    page_is = ground arith
