-- ===== src/Runtime/Committing.antt =====
-- go/agent-runtime/kernel/apply_evidence.go and runtime.go: what a successful write has gone through and leaves.
use gaoge_agent_runtime.Prelude.{
  ℕ, String, Bool, true, false, none, some, List, ◌≡◌, ◌⊎◌, inl, inr, refl, sym, ◌∙◌, arith, ok,
  Result-cases, Option-cases, is_blank, trim_space,
}
use mathlib.Core.Path.{subst}
use gaoge_agent_runtime.Kernel.{EventDraft, Snapshot, Mutation, StoreMutation, Codec, live}
use gaoge_agent_runtime.Kernel.Guard.{next_u64}
use gaoge_agent_runtime.Memory
use gaoge_agent_runtime.Memory.{
  Store, journal, append_events, append_committed_transition, apply_locked,
}
use gaoge_agent_runtime.Memory.Execution.{apply_execution}
use gaoge_agent_runtime.Memory.Journal.{IsJournaled, apply_locked-IsJournaled}
use gaoge_agent_runtime.Runtime.{Binding, valid_bound_run, propose, commit, apply}
use gaoge_agent_runtime.Runtime.Transitions.{IsProposal, propose_lem, propose-bound}
use gaoge_agent_runtime.Runtime.Identified.{
  ProofCodec, valid_apply_operation, digest_apply_mutation, ApplyEvidence, EvidenceStatus,
  committed, retryable_cas, verify_identified_apply, with_evidence, proof_of, apply_identified,
}

EvidenceStatus-cases : (x : EvidenceStatus) → (x ≡ committed) ⊎ (x ≡ retryable_cas)
EvidenceStatus-cases committed = inl refl
EvidenceStatus-cases retryable_cas = inr refl

-- What a successful `apply_identified` has gone through.
pub record IsApplied (proofs : ProofCodec) (codec : Codec) (s : Store) (b : Binding) (id : String)
    (e : ℕ) (op : String) (m : Mutation) (now store_now : ℕ) (t : Store) (snap : Snapshot)
    : Type 0 where
  pub named : is_blank id ≡ false
  pub valid : valid_apply_operation op e ≡ true
  pub hash : String
  pub hashed : digest_apply_mutation proofs m ≡ ok hash
  pub evidence : ApplyEvidence
  pub verified : verify_identified_apply proofs s live id e op m ≡ ok evidence
  pub open_yet : evidence.status ≡ retryable_cas
  pub body : String
  pub encoded : proofs.encode (proof_of op e hash) ≡ some body
  pub wrote : apply codec s live b id e (with_evidence m body) true now store_now ≡ (t, ok snap)

pub apply_identified-IsApplied :
    (proofs : ProofCodec) (codec : Codec) (s : Store) (b : Binding) (id : String) (e : ℕ)
    (op : String) (m : Mutation) (now store_now : ℕ) (t : Store) (snap : Snapshot)
    → apply_identified proofs codec s live b id e op m now store_now ≡ (t, ok snap)
    → IsApplied proofs codec s b id e op m now store_now t snap
unfolding apply_identified
apply_identified-IsApplied proofs codec s b id e op m now store_now t snap h =
    elim (Result-cases (digest_apply_mutation proofs m)) [
      | inl (x, p) ↦ absurd (ground arith)
      | inr (hash, p) ↦ elim (Result-cases (verify_identified_apply proofs s live id e op m)) [
        | inl (x, q) ↦ absurd (ground arith)
        | inr (evidence, q) ↦ elim (EvidenceStatus-cases evidence.status) [
          | inl done ↦ absurd (ground arith)
          | inr wait ↦ elim (Option-cases (proofs.encode (proof_of op e hash))) [
            | inl unreadable ↦ absurd (ground arith)
            | inr (body, r) ↦ record {
              named = ground arith;
              valid = ground arith;
              hash = hash;
              hashed = p;
              evidence = evidence;
              verified = q;
              open_yet = wait;
              body = body;
              encoded = r;
              wrote = ground arith;
            }
          ]
        ]
      ]
    ]

-- What a successful write leaves in the Store.
pub record IsCommitted (s t : Store) (id : String) (e : ℕ) (ds : List EventDraft) (snap : Snapshot)
    : Type 0 where
  pub journaled : IsJournaled t id
  pub written : t.records id ≡ some snap
  pub next : snap.run.revision ≡ next_u64 e
  pub at : ℕ
  pub grown : journal t id ≡ append_events (journal s id) ds at

commit-apply_locked :
    (s : Store) (b : Binding) (id : String) (e : ℕ) (p : StoreMutation) (now : ℕ) (snap : Snapshot)
    → valid_bound_run b id ≡ true
    → (commit s live b id e p now).1 ≡ ok snap
    → commit s live b id e p now ≡ apply_locked s id e p
unfolding commit Memory.apply apply_execution valid_bound_run
commit-apply_locked s none id e p now snap v h = ground arith
commit-apply_locked s (some l) id e p now snap v h = ground arith

apply_locked-IsCommitted :
    (s t : Store) (id : String) (e : ℕ) (p : StoreMutation) (snap : Snapshot)
    → IsJournaled s id
    → p.replacement.run.revision ≡ next_u64 e
    → apply_locked s id e p ≡ (t, ok snap)
    → IsCommitted s t id e p.events snap
unfolding apply_locked append_committed_transition
apply_locked-IsCommitted s t id e p snap j n h = record {
  journaled = subst (λ r. IsJournaled r.0 id) h (apply_locked-IsJournaled s id e p id j);
  written = ground arith;
  next = ground arith;
  at = p.replacement.run.updated_at;
  grown = ground arith;
}

pub apply-IsCommitted :
    (codec : Codec) (s t : Store) (b : Binding) (id : String) (e : ℕ) (m : Mutation) (ev : Bool)
    (now store_now : ℕ) (snap : Snapshot)
    → IsJournaled s id
    → trim_space id ≡ id
    → apply codec s live b id e m ev now store_now ≡ (t, ok snap)
    → IsCommitted s t id e m.events snap
unfolding apply
apply-IsCommitted codec s t b id e m ev now store_now snap j trimmed h =
    elim (Result-cases (propose codec s b id e m ev now)) [
      | inl (x, q) ↦ absurd (ground arith)
      | inr (p, q) ↦
          let r =
            subst (λ i. IsProposal s i e m p) trimmed (propose_lem codec s b id e m ev now p q) in
          let v =
            subst (λ i. valid_bound_run b i ≡ true) trimmed
              (propose-bound codec s b id e m ev now p q) in
          let w : commit s live b id e p store_now ≡ (t, ok snap) = ground (arith, h, q) in
          let same = commit-apply_locked s b id e p store_now snap v (ground (arith, w)) in
          subst (λ ds. IsCommitted s t id e ds snap) r.same_events
            (apply_locked-IsCommitted s t id e p snap j r.next (sym same ∙ w))
    ]
