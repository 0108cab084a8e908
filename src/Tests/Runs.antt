-- ===== src/Tests/Runs.antt =====
-- The theorems on go/agent-runtime/kernel/runtime.go, applied to sample Runs.
use gaoge_agent_runtime.Prelude.{
  ◌≡◌, inl, refl, arith, true, false, none, some, List, [], ◌∷◌, ok, is_ok, text_dec, trim_space,
  byte_length,
}
use gaoge_agent_runtime.Kernel.{
  running, completed, cancelled, failed, live, Mutation, Snapshot, StoreMutation,
}
use gaoge_agent_runtime.Kernel.Validation.{
  needs_transition_projection, any_wakeup, terminal_status, has_reserved_apply_evidence,
  validate_mutation, valid_transition, valid_state, valid_mutation_checkpoint,
  valid_mutation_result, valid_result,
}
use gaoge_agent_runtime.Memory
use gaoge_agent_runtime.Memory.{Store, authority, new_store}
use gaoge_agent_runtime.Memory.Execution
use gaoge_agent_runtime.Memory.Steps.{Call, creates, run_calls, call}
use gaoge_agent_runtime.Runtime
use gaoge_agent_runtime.Runtime.{propose, commit}
use gaoge_agent_runtime.Runtime.Commands.{cancel_run, expire_run}
use gaoge_agent_runtime.Runtime.Transitions.{IsLegal, interleaved_write-IsLegal}
use gaoge_agent_runtime.Runtime.Terminations.{HasEnded, IsEndable, cancel_ends}
use gaoge_agent_runtime.Runtime.Expiry.{expire_ends}
use gaoge_agent_runtime.Tests.{
  codec, sample_run, sample_record, sample_snapshot, plain_store, takeover_store,
}

abbrev pub finish : Mutation
finish = record {
  status = completed;
  state = "{}";
  checkpoint = none;
  result = some (record { content_type = "text/plain"; content = "done" });
  error_code = "";
  error_detail = "";
  events = [];
}

-- Another Run is created between the read and the write.
abbrev between : List Call
between = creates (sample_record true "run-2" running 1) [] ∷ []

abbrev finish_write : StoreMutation
finish_write = record {
  replacement = record {
    execution_required = false;
    run = record (sample_run "run-1" completed 2) { ended_at = some 200; updated_at = 200 };
    state = "{}";
    checkpoint = none;
    result = some (record { content_type = "text/plain"; content = "done" });
  };
  events = [];
}

abbrev finished : Snapshot
finished = record {
  run = record (sample_run "run-1" completed 2) { ended_at = some 200; updated_at = 200 };
  state = "{}";
  checkpoint = none;
  result = some (record { content_type = "text/plain"; content = "done" });
  event_head = 0;
}

finish_proposed : propose codec plain_store none "run-1" 1 finish false 200 ≡ ok finish_write
unfolding propose run_calls call Memory.create text_dec new_store Memory.append_committed_transition
    needs_transition_projection Memory.append_events any_wakeup terminal_status trim_space
    has_reserved_apply_evidence Runtime.valid_bound_run Memory.load validate_mutation
    valid_transition valid_state byte_length valid_mutation_checkpoint valid_mutation_result
    valid_result Runtime.make_store_mutation
finish_proposed = refl

finish_committed :
    (commit (run_calls codec plain_store between) live none "run-1" 1 finish_write 0).1
    ≡ ok finished
unfolding commit Memory.apply Memory.apply_locked run_calls call Memory.create text_dec new_store
    Memory.append_committed_transition needs_transition_projection Memory.append_events any_wakeup
    terminal_status
finish_committed = refl

pub trimmed_id : trim_space "run-1" ≡ "run-1"
unfolding trim_space
trimmed_id = refl

interleaved_write-IsLegal_example :
    IsLegal plain_store (run_calls codec plain_store between) "run-1" 1 finished
interleaved_write-IsLegal_example =
    interleaved_write-IsLegal codec plain_store between none "run-1" 1 finish false 200 finish_write
      live 0 finished (tt, tt) trimmed_id finish_proposed finish_committed

sample-IsEndable : IsEndable codec takeover_store "run-1" sample_snapshot
unfolding run_calls call Memory.create text_dec new_store Memory.append_committed_transition
    needs_transition_projection Memory.append_events any_wakeup terminal_status valid_state
    byte_length Execution.acquire_execution Execution.valid_memory_execution_request
    Execution.acquire_refusal trim_space
sample-IsEndable = record {
  stored = refl;
  trimmed = trimmed_id;
  named = λ e. cc;
  own = refl;
  alive = inl refl;
  json = refl;
  revision_set = λ e. cc;
  epoch_left = λ e. omega (arith, e);
}

cancel_ends_example :
    let out = cancel_run codec takeover_store live "run-1" 1 "no longer needed" 300 300 300 in
    HasEnded out.0 "run-1" sample_snapshot cancelled "run.cancelled" 300 × (is_ok out.1 ≡ true)
cancel_ends_example =
    cancel_ends codec takeover_store "run-1" sample_snapshot sample-IsEndable "no longer needed" 300
      300 300

expire_ends_example :
    let out = expire_run codec takeover_store live "run-1" 1 901 902 903 904 in
    HasEnded out.0 "run-1" sample_snapshot failed "run.deadline_exceeded" 902 × (is_ok out.1 ≡ true)
expire_ends_example =
    expire_ends codec takeover_store "run-1" sample_snapshot sample-IsEndable 901 902 903 904 refl
      refl refl (omega arith) (omega arith)
