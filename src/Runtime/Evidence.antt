-- ===== src/Runtime/Evidence.antt =====
-- go/agent-runtime/kernel/apply_evidence.go: what a write with an identity leaves for the later proof of it.
use gaoge_agent_runtime.Prelude.{
  ℕ, suc, ◌≤◌, ◌<◌, ◌==◌, ltb, String, Bool, true, false, some, List, [], ◌∷◌, ◌++◌, length, ◌≡◌,
  ◌≢◌, inl, inr, refl, sym, ap, ◌∙◌, arith, Result, ok, err, ◌>>=◌, Option-cases, is_blank,
  trim_space, byte_length, if◌then◌else◌,
}
use gaoge_agent_runtime.Kernel.{
  Error, conflict, apply_already_committed, Snapshot, Mutation, Codec, live,
}
use gaoge_agent_runtime.Kernel.Guard.{next_u64}
use gaoge_agent_runtime.Memory
use gaoge_agent_runtime.Memory.{
  Store, journal, append_events, append_committed_transition, apply_locked,
}
use gaoge_agent_runtime.Memory.Execution.{max_u64}
use gaoge_agent_runtime.Memory.Journal.{IsJournaled}
use gaoge_agent_runtime.Runtime.{Binding, load}
use gaoge_agent_runtime.Runtime.Identified.{
  ApplyProof, ProofCodec, valid_apply_operation, digest_apply_mutation, conclude, ApplyEvidence,
  committed, retryable_cas, verify_identified_apply, evidence_draft, with_evidence, proof_of,
  apply_identified,
}
use gaoge_agent_runtime.Runtime.Scanning.{match_events, scan_pages-match_events}
use gaoge_agent_runtime.Runtime.Matching.{
  append_events-append, append_events-match_events, match_evidence, digest-plain, digest-size,
}
use gaoge_agent_runtime.Runtime.Committing.{
  IsApplied, apply_identified-IsApplied, IsCommitted, apply-IsCommitted,
}

-- The scan of the journal page by page is one pass over it: on a Run that is found, with a valid
-- identity, a journal numbered from 1, an identifier without blanks around it, a mutation with a
-- digest and a context that is live, the verdict is a conflict if the record is behind the expected
-- revision, and otherwise the conclusion from the match over the whole journal, or the match's error.
pub verify-match_events :
    (proofs : ProofCodec) (s : Store) (id : String) (snap : Snapshot) (e : ℕ) (op : String)
    (m : Mutation) (hash : String)
    → IsJournaled s id
    → trim_space id ≡ id
    → is_blank id ≡ false
    → valid_apply_operation op e ≡ true
    → digest_apply_mutation proofs m ≡ ok hash
    → s.records id ≡ some snap
    → verify_identified_apply proofs s live id e op m ≡ (
        if ltb snap.run.revision e
        then err conflict
        else (match_events proofs e op hash (journal s id) false
            >>= conclude proofs e op hash snap.run.revision))
unfolding verify_identified_apply load Memory.load
verify-match_events proofs s id snap e op m hash j trimmed named valid d hit =
    let head = j.head snap hit in
    let whole =
      scan_pages-match_events proofs e op hash (length (journal s id)) s id snap 0 false named
        trimmed hit j.numbered (omega arith) (omega arith) in
    ground (arith, head, whole)

-- A retryable verdict comes from a journal without the identity.
retryable-match_events :
    (proofs : ProofCodec) (e : ℕ) (op hash : String) (revision : ℕ) (r : Result Error Bool)
    (evidence : ApplyEvidence)
    → (if ltb revision e then err conflict else (r >>= conclude proofs e op hash revision))
      ≡ ok evidence
    → evidence.status ≡ retryable_cas
    → r ≡ ok false
unfolding conclude
retryable-match_events proofs e op hash revision (err x) evidence h open_yet = absurd (ground arith)
retryable-match_events proofs e op hash revision (ok true) evidence h open_yet =
    absurd (ground arith)
retryable-match_events proofs e op hash revision (ok false) evidence h open_yet = refl

abbrev pub committed_at : ℕ → ApplyEvidence
committed_at e = record { status = committed; committed_revision = suc e; current_revision = suc e }

conclude-committed :
    (proofs : ProofCodec) (e : ℕ) (op hash : String) (revision : ℕ)
    → e ≤ max_u64
    → valid_apply_operation op e ≡ true
    → revision ≡ next_u64 e
    → (if ltb revision e then err conflict else conclude proofs e op hash revision true)
      ≡ ok (committed_at e)
unfolding conclude valid_apply_operation
conclude-committed proofs e op hash revision b valid r =
    let above : (e == max_u64) ≡ false = ground arith in
    let small : e < max_u64 = ground arith in
    let step : revision ≡ suc e = omega (arith, r) in ground (arith, step)

-- The journal that a committed write leaves makes the match.
committed-match_events :
    (proofs : ProofCodec) (s t : Store) (id : String) (e : ℕ) (op : String) (m : Mutation)
    (hash body : String) (snap : Snapshot)
    → proofs.decode body ≡ some (proof_of op e hash)
    → byte_length body ≢ 0
    → byte_length hash ≡ 64
    → valid_apply_operation op e ≡ true
    → digest_apply_mutation proofs m ≡ ok hash
    → match_events proofs e op hash (journal s id) false ≡ ok false
    → IsCommitted s t id e (m.events ++ evidence_draft body ∷ []) snap
    → match_events proofs e op hash (journal t id) false ≡ ok true
committed-match_events proofs s t id e op m hash body snap back full size valid d clean w =
    let plain =
      append_events-match_events proofs e op hash m.events (journal s id) w.at
        (digest-plain proofs m hash d) in
    ap (λ js. match_events proofs e op hash js false)
      (w.grown ∙ append_events-append m.events (evidence_draft body ∷ []) (journal s id) w.at)
    ∙ match_evidence proofs e op hash (append_events (journal s id) m.events w.at) body w.at back
        full valid size (plain ∙ clean)

-- A retryable verdict comes from a Run that is found.
verified-found :
    (proofs : ProofCodec) (s : Store) (id : String) (e : ℕ) (op : String) (m : Mutation)
    (evidence : ApplyEvidence)
    → trim_space id ≡ id
    → verify_identified_apply proofs s live id e op m ≡ ok evidence
    → (snap : Snapshot) × (s.records id ≡ some snap)
unfolding verify_identified_apply load Memory.load
verified-found proofs s id e op m evidence trimmed v = elim (Option-cases (s.records id)) [
  | inl miss ↦ absurd (ground arith)
  | inr (snap, hit) ↦ (snap, hit)
]

verify_committed :
    (proofs : ProofCodec) (codec : Codec) (s t : Store) (b : Binding) (id : String) (e : ℕ)
    (op : String) (m : Mutation) (now store_now : ℕ) (snap : Snapshot)
    → ((p : ApplyProof) (body : String)
        → proofs.encode p ≡ some body
        → (proofs.decode body ≡ some p) × (byte_length body ≢ 0))
    → ((m : Mutation) (ws : List Bool) (h : String)
        → proofs.digest m ws ≡ some h
        → byte_length h ≡ 64)
    → IsJournaled s id
    → trim_space id ≡ id
    → e ≤ max_u64
    → (a : IsApplied proofs codec s b id e op m now store_now t snap)
    → IsCommitted s t id e (m.events ++ evidence_draft a.body ∷ []) snap
    → verify_identified_apply proofs t live id e op m ≡ ok (committed_at e)
verify_committed proofs codec s t b id e op m now store_now snap back size j trimmed bounded a w =
    let (old, hit) = verified-found proofs s id e op m a.evidence trimmed a.verified in
    let before =
      verify-match_events proofs s id old e op m a.hash j trimmed a.named a.valid a.hashed hit in
    let clean =
      retryable-match_events proofs e op a.hash old.run.revision
        (match_events proofs e op a.hash (journal s id) false) a.evidence (sym before ∙ a.verified)
        a.open_yet in
    let (decoded, full) = back (proof_of op e a.hash) a.body a.encoded in
    let matched =
      committed-match_events proofs s t id e op m a.hash a.body snap decoded full
        (digest-size proofs m a.hash size a.hashed) a.valid a.hashed clean w in
    verify-match_events proofs t id snap e op m a.hash w.journaled trimmed a.named a.valid a.hashed
      w.written
    ∙ ap
        (λ r.
          if ltb snap.run.revision e
          then err conflict
          else (r >>= conclude proofs e op a.hash snap.run.revision))
        matched
    ∙ conclude-committed proofs e op a.hash snap.run.revision bounded a.valid w.next

-- A second write under a proved identity.
repeated-apply_identified :
    (proofs : ProofCodec) (codec : Codec) (t : Store) (b : Binding) (id : String) (e : ℕ)
    (op : String) (m : Mutation) (hash : String) (now store_now : ℕ)
    → is_blank id ≡ false
    → valid_apply_operation op e ≡ true
    → digest_apply_mutation proofs m ≡ ok hash
    → verify_identified_apply proofs t live id e op m ≡ ok (committed_at e)
    → apply_identified proofs codec t live b id e op m now store_now
      ≡ (t, err apply_already_committed)
unfolding apply_identified
repeated-apply_identified proofs codec t b id e op m hash now store_now named valid d v =
    ground arith

-- A write with an identity is proved, and made once. When `ApplyIdentified` succeeds on a store whose
-- journal of the Run is numbered from 1 and ends at the record's event head, with an identifier without
-- blanks around it, an expected revision of 64 bits, an encoding of proofs that decodes to what was encoded
-- and is not empty, and digests of 64 bytes, then `VerifyIdentifiedApply` on the new store reports it
-- committed, at the revision after the expected one, and the same call again, whatever its clocks and its
-- binding, is refused as already committed and leaves the store as it is.
pub apply_identified-verify :
    (proofs : ProofCodec) (codec : Codec) (s t : Store) (b c : Binding) (id : String) (e : ℕ)
    (op : String) (m : Mutation) (now store_now later store_later : ℕ) (snap : Snapshot)
    → ((p : ApplyProof) (body : String)
        → proofs.encode p ≡ some body
        → (proofs.decode body ≡ some p) × (byte_length body ≢ 0))
    → ((m : Mutation) (ws : List Bool) (h : String)
        → proofs.digest m ws ≡ some h
        → byte_length h ≡ 64)
    → IsJournaled s id
    → trim_space id ≡ id
    → e ≤ max_u64
    → apply_identified proofs codec s live b id e op m now store_now ≡ (t, ok snap)
    → (verify_identified_apply proofs t live id e op m ≡ ok (committed_at e))
      × (apply_identified proofs codec t live c id e op m later store_later
          ≡ (t, err apply_already_committed))
apply_identified-verify proofs codec s t b c id e op m now store_now later store_later snap back
      size j trimmed bounded h =
    let a = apply_identified-IsApplied proofs codec s b id e op m now store_now t snap h in
    let w =
      apply-IsCommitted codec s t b id e (with_evidence m a.body) true now store_now snap j trimmed
        a.wrote in
    let v =
      verify_committed proofs codec s t b id e op m now store_now snap back size j trimmed bounded a
        w in
    (
      v,
      repeated-apply_identified proofs codec t c id e op m a.hash later store_later a.named a.valid
          a.hashed v,
    )
