-- ===== src/Runtime/Matching.antt =====
-- go/agent-runtime/kernel/apply_evidence.go: what appended events do to the match of an identity.
use gaoge_agent_runtime.Prelude.{
  ℕ, ◌+◌, String, Bool, true, false, some, List, [], ◌∷◌, ◌++◌, length, map, ◌≡◌, ◌≢◌, inl, inr,
  refl, ap, ◌∙◌, arith, ok, ◌>>=◌, Result-cases, Option-cases, byte_length, text_ne,
}
use gaoge_agent_runtime.Kernel.{EventDraft, Event, Mutation}
use gaoge_agent_runtime.Kernel.Validation.{has_reserved_apply_evidence, identified_apply_event_type}
use gaoge_agent_runtime.Memory.{append_events}
use gaoge_agent_runtime.Runtime.Identified.{
  ProofCodec, valid_apply_operation, digest_apply_mutation, match_event, evidence_draft, proof_of,
}
use gaoge_agent_runtime.Runtime.Scanning.{match_events, match_events-append}

pub append_events-append :
    (ds es : List EventDraft) (js : List Event) (at : ℕ)
    → append_events js (ds ++ es) at ≡ append_events (append_events js ds at) es at
unfolding append_events
append_events-append [] es js at = refl
append_events-append (d ∷ ds) es js at = append_events-append ds es _ at

module _ (proofs : ProofCodec) (expected : ℕ) (operation_id digest : String) where
  pass_event :
      (e : Event) (js : List Event)
      → text_ne e.type identified_apply_event_type ≡ true
      → (match_events proofs expected operation_id digest js false
          >>= match_events proofs expected operation_id digest (e ∷ []))
        ≡ match_events proofs expected operation_id digest js false
  unfolding match_events match_event
  pass_event e js other =
      elim (Result-cases (match_events proofs expected operation_id digest js false)) [
        | inl (x, p) ↦ ground arith
        | inr (b, p) ↦ ground arith
      ]

  -- Events of the Feature's own leave the match as it is.
  pub append_events-match_events :
      (ds : List EventDraft) (js : List Event) (at : ℕ)
      → has_reserved_apply_evidence ds ≡ false
      → match_events proofs expected operation_id digest (append_events js ds at) false
        ≡ match_events proofs expected operation_id digest js false
  unfolding append_events has_reserved_apply_evidence
  append_events-match_events [] js at plain = refl
  append_events-match_events (d ∷ ds) js at plain =
      append_events-match_events ds _ at (ground arith)
      ∙ match_events-append proofs expected operation_id digest js _ false
      ∙ pass_event
          (record {
            seq = length js + 1;
            type = d.type;
            message = d.message;
            body = d.body;
            created_at = at;
          })
          js (ground arith)

  abbrev evidence_at : String → ℕ → ℕ → Event
  evidence_at body seq at = record {
    seq = seq;
    type = identified_apply_event_type;
    message = "";
    body = body;
    created_at = at;
  }

  read_evidence :
      (body : String) (seq at : ℕ)
      → proofs.decode body ≡ some (proof_of operation_id expected digest)
      → byte_length body ≢ 0
      → valid_apply_operation operation_id expected ≡ true
      → byte_length digest ≡ 64
      → match_events proofs expected operation_id digest (evidence_at body seq at ∷ []) false
        ≡ ok true
  unfolding match_events match_event
  read_evidence body seq at back full valid size = ground arith

  -- The event with the proof makes the match.
  pub match_evidence :
      (js : List Event) (body : String) (at : ℕ)
      → proofs.decode body ≡ some (proof_of operation_id expected digest)
      → byte_length body ≢ 0
      → valid_apply_operation operation_id expected ≡ true
      → byte_length digest ≡ 64
      → match_events proofs expected operation_id digest js false ≡ ok false
      → match_events proofs expected operation_id digest
          (append_events js (evidence_draft body ∷ []) at)
          false
        ≡ ok true
  unfolding append_events match_events match_event
  match_evidence js body at back full valid size clean =
      match_events-append proofs expected operation_id digest js _ false
      ∙ ap
          (λ r.
            r
            >>= match_events proofs expected operation_id digest
                (evidence_at body (length js + 1) at ∷ []))
          clean
      ∙ read_evidence body (length js + 1) at back full valid size

pub digest-plain :
    (proofs : ProofCodec) (m : Mutation) (hash : String)
    → digest_apply_mutation proofs m ≡ ok hash
    → has_reserved_apply_evidence m.events ≡ false
unfolding digest_apply_mutation
digest-plain proofs m hash h = ground arith

pub digest-size :
    (proofs : ProofCodec) (m : Mutation) (hash : String)
    → ((m : Mutation) (ws : List Bool) (h : String)
        → proofs.digest m ws ≡ some h
        → byte_length h ≡ 64)
    → digest_apply_mutation proofs m ≡ ok hash
    → byte_length hash ≡ 64
unfolding digest_apply_mutation
digest-size proofs m hash size h =
    elim (Option-cases (proofs.digest m (map (λ e. e.wakeup) m.events))) [
      | inl miss ↦ absurd (ground arith)
      | inr (x, p) ↦ size m (map (λ e. e.wakeup) m.events) hash (ground arith)
    ]
