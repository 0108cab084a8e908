-- ===== src/Runtime/Identified.antt =====
-- go/agent-runtime/kernel/apply_evidence.go: a write with an identity, and the proof of it in the journal.
use gaoge_agent_runtime.Prelude.{
  ℕ, zero, suc, ◌+◌, ◌==◌, ◌/=◌, ltb, leb, String, Bool, true, false, not, ◌&&◌, ◌||◌, Option, none,
  some, List, [], ◌∷◌, ◌++◌, map, text_eq, text_ne, is_blank, trim_space, byte_length,
  if◌then◌else◌, Result, ok, err,
}
use Prim.Native.Char.{code}
use gaoge_agent_runtime.Kernel.{
  Error, invalid_input, conflict, apply_already_committed, apply_outcome_unknown, EventDraft, Event,
  Snapshot, Mutation, Codec, Context, no_context,
}
use gaoge_agent_runtime.Kernel.Validation.{
  has_reserved_apply_evidence, identified_apply_event_type, context_error,
}
use gaoge_agent_runtime.Kernel.Guard.{next_u64}
use gaoge_agent_runtime.Memory.{Store}
use gaoge_agent_runtime.Memory.Execution.{max_u64}
use gaoge_agent_runtime.Runtime.{Binding, load, list_events, apply}

-- `identifiedApplyProof`.
pub record ApplyProof : Type 0 where
  pub operation_id : String
  pub source_revision : ℕ
  pub mutation_digest : String

-- What the file uses of encoding/json and crypto/sha256: the hash of a mutation with its wakeups, and the
-- encoding of a proof and its inverse; `none` is an error.
pub record ProofCodec : Type 0 where
  pub digest : Mutation → List Bool → Option String
  pub encode : ApplyProof → Option String
  pub decode : String → Option ApplyProof

pub data EvidenceStatus : Type 0 where
  committed retryable_cas : EvidenceStatus

-- `ApplyEvidence`; the committed revision is 0 when there is none.
pub record ApplyEvidence : Type 0 where
  pub status : EvidenceStatus
  pub committed_revision : ℕ
  pub current_revision : ℕ

-- `strings.ContainsAny(id, "\r\n\x00")`.
unfoldable pub has_control_character : String → Bool
has_control_character String.[] = false
has_control_character (String.◌∷◌ c s) =
    (code c == 13 || code c == 10 || code c == 0) || has_control_character s

-- `validApplyOperation`.
unfoldable pub valid_apply_operation : String → ℕ → Bool
valid_apply_operation id expected =
    text_ne id ""
    && leb (byte_length id) 128
    && text_eq (trim_space id) id
    && not (has_control_character id)
    && expected /= 0
    && expected /= max_u64

-- The event that carries a proof.
abbrev pub evidence_draft : String → EventDraft
evidence_draft body = record {
  type = identified_apply_event_type;
  message = "";
  body = body;
  wakeup = false;
  wakeup_at = none;
  wakeup_generation = 0;
}

-- The mutation that `ApplyIdentified` commits.
abbrev pub with_evidence : Mutation → String → Mutation
with_evidence m body = record m { events = m.events ++ evidence_draft body ∷ [] }

abbrev pub proof_of : String → ℕ → String → ApplyProof
proof_of operation_id expected hash = record {
  operation_id = operation_id;
  source_revision = expected;
  mutation_digest = hash;
}

abbrev pub is_no_context : Context → Bool
is_no_context no_context = true
is_no_context _ = false

-- Where the scan of the journal stands.
pub record Position : Type 0 where
  pub after : ℕ
  pub matched : Bool

module _ (proofs : ProofCodec) where
  -- `digestApplyMutation`.
  unfoldable pub digest_apply_mutation : Mutation → Result Error String
  digest_apply_mutation m =
      if has_reserved_apply_evidence m.events
      then err invalid_input
      else elim (proofs.digest m (map (λ e. e.wakeup) m.events)) [
        | none ↦ err invalid_input
        | some h ↦ ok h
      ]

  module _ (expected : ℕ) (operation_id digest : String) where
    -- What one event does to the match: the rest of the inner loop's body.
    unfoldable pub match_event : Event → Bool → Result Error Bool
    match_event e matched =
        if text_ne e.type identified_apply_event_type
        then ok matched
        else if byte_length e.body == 0
        then err apply_outcome_unknown
        else elim (proofs.decode e.body) [
          | none ↦ err apply_outcome_unknown
          | some p ↦
              if not (valid_apply_operation p.operation_id p.source_revision)
                || byte_length p.mutation_digest /= 64
              then err apply_outcome_unknown
              else if text_ne p.operation_id operation_id
              then ok matched
              else if matched || p.source_revision /= expected || text_ne p.mutation_digest digest
              then err conflict
              else ok true
        ]

    -- The inner loop over one page.
    unfoldable pub scan_page : ℕ → List Event → ℕ → Bool → Result Error Position
    unfolding match_event
    scan_page head [] after matched = ok (record { after = after; matched = matched })
    scan_page head (e ∷ es) after matched =
        if ltb head e.seq
        then ok (record { after = after; matched = matched })
        else if e.seq /= after + 1
        then err apply_outcome_unknown
        else elim (match_event e matched) [ err x ↦ err x | ok now ↦ scan_page head es e.seq now ]

    -- The tests on a page before the inner loop.
    unfoldable pub is_misplaced : List Event → ℕ → Bool
    is_misplaced [] after = true
    is_misplaced (e ∷ es) after = e.seq /= after + 1

    -- The outer loop, on fuel: a round goes on by one event at least.
    unfoldable pub scan_pages : ℕ → Store → Context → String → ℕ → ℕ → Bool → Result Error Bool
    unfolding scan_page is_misplaced
    scan_pages zero s ctx run_id head after matched =
        if ltb after head then err apply_outcome_unknown else ok matched
    scan_pages (suc fuel) s ctx run_id head after matched =
        if not (ltb after head) then ok matched else elim (context_error ctx) [
          | some e ↦ err e
          | none ↦ elim (list_events s run_id after 512) [
            | err e ↦ err apply_outcome_unknown
            | ok events ↦
                if is_misplaced events after
                then err apply_outcome_unknown
                else elim (scan_page head events after matched) [
                  | err e ↦ err e
                  | ok p ↦ scan_pages fuel s ctx run_id head p.after p.matched
                ]
          ]
        ]

    -- The end of `VerifyIdentifiedApply`.
    unfoldable pub conclude : ℕ → Bool → Result Error ApplyEvidence
    conclude revision matched =
        if matched
        then if leb revision expected
          then err apply_outcome_unknown
          else ok (record {
            status = committed;
            committed_revision = next_u64 expected;
            current_revision = revision;
          })
        else if revision /= expected
        then err apply_outcome_unknown
        else ok
            (record { status = retryable_cas; committed_revision = 0; current_revision = revision })

  -- `VerifyIdentifiedApply`. The event head is never negative, and is the fuel.
  unfoldable pub verify_identified_apply :
      Store → Context → String → ℕ → String → Mutation → Result Error ApplyEvidence
  unfolding scan_pages conclude
  verify_identified_apply s ctx run_id expected operation_id m =
      if is_no_context ctx || is_blank run_id || not (valid_apply_operation operation_id expected)
      then err invalid_input
      else elim (digest_apply_mutation m) [
        | err e ↦ err e
        | ok hash ↦ elim (load s run_id) [
          | err e ↦ err e
          | ok current ↦
              if ltb current.run.revision expected
              then err conflict
              else elim (scan_pages expected operation_id hash current.event_head s ctx run_id
                  current.event_head 0 false) [
                    | err e ↦ err e
                    | ok matched ↦ conclude expected operation_id hash current.run.revision matched
                  ]
        ]
      ]

  -- `ApplyIdentified`, when no other call comes between its reads and its write.
  unfoldable pub apply_identified :
      Codec
      → Store
      → Context
      → Binding
      → String
      → ℕ
      → String
      → Mutation
      → ℕ
      → ℕ
      → Store × Result Error Snapshot
  unfolding digest_apply_mutation verify_identified_apply
  apply_identified codec s ctx bound run_id expected operation_id m now store_now =
      if is_no_context ctx || is_blank run_id || not (valid_apply_operation operation_id expected)
      then (s, err invalid_input)
      else elim (digest_apply_mutation m) [
        | err e ↦ (s, err e)
        | ok hash ↦ elim (verify_identified_apply s ctx run_id expected operation_id m) [
          | err e ↦ (s, err e)
          | ok outcome ↦ elim outcome.status [
            | committed ↦ (s, err apply_already_committed)
            | retryable_cas ↦ elim (proofs.encode (proof_of operation_id expected hash)) [
              | none ↦ (s, err invalid_input)
              | some body ↦
                  apply codec s ctx bound run_id expected (with_evidence m body) true now store_now
            ]
          ]
        ]
      ]
