-- ===== src/Tests/Identities.antt =====
-- The theorems on go/agent-runtime/kernel/apply_evidence.go, applied to a write of a sample Run.
use gaoge_agent_runtime.Prelude.{
  ◌==◌, ◌&&◌, ◌>>=◌, ◌≡◌, ◌≢◌, ap, refl, arith, String, Bool, true, false, none, some, List, [], ok,
  err, text_dec, text_eq, trim_space, byte_length, is_blank, if◌then◌else◌, ltb,
}
use gaoge_agent_runtime.Kernel.{
  Mutation, Snapshot, live, apply_already_committed, running, conflict,
}
use gaoge_agent_runtime.Kernel.Validation.{
  needs_transition_projection, any_wakeup, terminal_status, has_reserved_apply_evidence,
  validate_mutation, valid_transition, valid_state, valid_mutation_checkpoint,
  valid_mutation_result, valid_result,
}
use gaoge_agent_runtime.Memory
use gaoge_agent_runtime.Memory.{Store, journal, new_store}
use gaoge_agent_runtime.Memory.Journal.{IsJournaled, create-IsJournaled}
use gaoge_agent_runtime.Runtime
use gaoge_agent_runtime.Runtime.{propose, commit, apply, load, list_events}
use gaoge_agent_runtime.Runtime.Identified.{
  ApplyProof, ProofCodec, has_control_character, valid_apply_operation, digest_apply_mutation,
  scan_pages, conclude, verify_identified_apply, apply_identified,
}
use gaoge_agent_runtime.Runtime.Scanning.{match_events}
use gaoge_agent_runtime.Runtime.Evidence.{
  verify-match_events, apply_identified-verify, committed_at,
}
use gaoge_agent_runtime.Tests.{codec, sample_run, sample_record, sample_snapshot, plain_store}
use gaoge_agent_runtime.Tests.Runs.{finish, trimmed_id}

abbrev hash : String
hash = "0123456789abcdef0123456789abcdef0123456789abcdef0123456789abcdef"

abbrev proof : ApplyProof
proof = record { operation_id = "op-1"; source_revision = 1; mutation_digest = hash }

-- A codec that writes one proof, and one digest.
abbrev proofs : ProofCodec
proofs = record {
  digest = λ m ws. some hash;
  encode = λ p.
      if text_eq p.operation_id "op-1" && p.source_revision == 1 && text_eq p.mutation_digest hash
      then some "proof"
      else none;
  decode = λ t. if text_eq t "proof" then some proof else none;
}

body_size : byte_length "proof" ≡ 5
unfolding byte_length
body_size = refl

hash_size : byte_length hash ≡ 64
unfolding byte_length
hash_size = refl

proof_decodes :
    (p : ApplyProof) (body : String)
    → proofs.encode p ≡ some body
    → (proofs.decode body ≡ some p) × (byte_length body ≢ 0)
proof_decodes p body h =
    let written : body ≡ "proof" = ground arith in
    let same : p ≡ proof = ground arith in
    (ground arith, λ z. omega (arith, z, ap byte_length written, body_size))

digest_full :
    (m : Mutation) (ws : List Bool) (h : String) → proofs.digest m ws ≡ some h → byte_length h ≡ 64
digest_full m ws h p = ground (arith, hash_size)

plain_store-IsJournaled : IsJournaled plain_store "run-1"
unfolding new_store
plain_store-IsJournaled =
    create-IsJournaled new_store (sample_record false "run-1" running 1) [] "run-1"
      (record { absent = λ a. refl; head = λ snap p. cc; numbered = tt })

abbrev applied_store : Store
applied_store =
    (apply_identified proofs codec plain_store live none "run-1" 1 "op-1" finish 200 0).0

abbrev applied : Snapshot
applied = record {
  run = record (sample_run "run-1" finish.status 2) { ended_at = some 200; updated_at = 200 };
  state = "{}";
  checkpoint = none;
  result = finish.result;
  event_head = 1;
}

applied_ok :
    apply_identified proofs codec plain_store live none "run-1" 1 "op-1" finish 200 0
    ≡ (applied_store, ok applied)
unfolding propose commit apply load Memory.create text_dec new_store
    Memory.append_committed_transition needs_transition_projection Memory.append_events any_wakeup
    terminal_status trim_space has_reserved_apply_evidence Runtime.valid_bound_run Memory.load
    validate_mutation valid_transition valid_state byte_length valid_mutation_checkpoint
    valid_mutation_result valid_result Runtime.make_store_mutation Memory.apply Memory.apply_locked
    apply_identified digest_apply_mutation verify_identified_apply scan_pages conclude
    valid_apply_operation has_control_character
applied_ok = refl

apply_identified-verify_example :
    (verify_identified_apply proofs applied_store live "run-1" 1 "op-1" finish
      ≡ ok (committed_at 1))
    × (apply_identified proofs codec applied_store live none "run-1" 1 "op-1" finish 300 0
        ≡ (applied_store, err apply_already_committed))
apply_identified-verify_example =
    apply_identified-verify proofs codec plain_store applied_store none none "run-1" 1 "op-1" finish
      200 0 300 0 applied proof_decodes digest_full plain_store-IsJournaled trimmed_id (omega arith)
      applied_ok

named : is_blank "run-1" ≡ false
unfolding trim_space text_dec
named = refl

valid_operation : valid_apply_operation "op-1" 1 ≡ true
unfolding valid_apply_operation has_control_character trim_space text_dec byte_length
valid_operation = refl

digested : digest_apply_mutation proofs finish ≡ ok hash
unfolding digest_apply_mutation has_reserved_apply_evidence text_dec
digested = refl

found : plain_store.records "run-1" ≡ some sample_snapshot
unfolding Memory.create text_dec new_store Memory.append_committed_transition
    needs_transition_projection Memory.append_events any_wakeup terminal_status
found = refl

verify-match_events_example :
    verify_identified_apply proofs plain_store live "run-1" 1 "op-1" finish ≡ (
      if ltb 1 1
      then err conflict
      else (match_events proofs 1 "op-1" hash (journal plain_store "run-1") false
          >>= conclude proofs 1 "op-1" hash 1))
verify-match_events_example =
    verify-match_events proofs plain_store "run-1" sample_snapshot 1 "op-1" finish hash
      plain_store-IsJournaled trimmed_id named valid_operation digested found
