-- ===== src/Runtime/Expiry.antt =====
-- go/agent-runtime/kernel/runtime.go: `Expire` fails a Run when its deadline is due, and only then.
use gaoge_agent_runtime.Prelude.{
  ℕ, ◌≡◌, ◌≢◌, refl, true, false, String, none, arith, ok, is_ok, text_dec,
}
use gaoge_agent_runtime.Kernel.{Snapshot, Codec, Context, live, deadline_control, failed}
use gaoge_agent_runtime.Kernel.Validation.{terminal_status, has_reserved_apply_evidence}
use gaoge_agent_runtime.Kernel.Guard.{is_due}
use gaoge_agent_runtime.Memory.{Store}
use gaoge_agent_runtime.Memory.Control as StoreControl
use gaoge_agent_runtime.Runtime.{make_store_mutation, prepare_control, apply_control}
use gaoge_agent_runtime.Runtime.Commands.{expire_run, expire_mutation, plain_guard}
use gaoge_agent_runtime.Runtime.Terminations.{
  HasEnded, HasCommitted, IsEndable, store_control_commits, expire_code, expire-valid,
  expire-control, load-stored, named,
}

module _ (codec : Codec) (s : Store) (id : String) (current : Snapshot)
    (h : IsEndable codec s id current) where
  -- For a Run that a control may end and whose deadline is absent or not due, `Expire` at the
  -- current revision gives the Run as it is and changes nothing, in any context.
  pub expire_not_due :
      (ctx : Context) (due_now now check_now at : ℕ)
      → is_due current.run.deadline_at due_now ≡ false
      → expire_run codec s ctx id current.run.revision due_now now check_now at
        ≡ (s, ok (current, false))
  unfolding expire_run
  expire_not_due ctx due_now now check_now at d = ground (arith, load-stored codec s id current h)

  module _ (due_now now check_now at : ℕ) (d : is_due current.run.deadline_at due_now ≡ true)
      (dc : is_due current.run.deadline_at check_now ≡ true)
      (ds : is_due current.run.deadline_at at ≡ true) (zc : check_now ≢ 0) (zs : at ≢ 0) where
    expire-unreserved : has_reserved_apply_evidence (expire_mutation current).events ≡ false
    unfolding has_reserved_apply_evidence expire_mutation text_dec
    expire-unreserved = refl

    expire-prepared :
        prepare_control codec s none id current.run.revision
          (plain_guard deadline_control)
          (expire_mutation current)
          now
          check_now
        ≡ ok (make_store_mutation current (expire_mutation current) now)
    unfolding prepare_control
    expire-prepared = ground (
      arith,
      load-stored codec s id current h,
      expire-unreserved,
      expire-valid codec current (named codec s id current h) h.alive h.json,
      expire-control codec current (named codec s id current h) h.alive h.json now check_now dc zc,
    )

    expire-committed :
        let out =
          StoreControl.apply_control codec s live id current.run.revision
            (plain_guard deadline_control)
            (make_store_mutation current (expire_mutation current) now)
            at in
        HasCommitted out.0 id (make_store_mutation current (expire_mutation current) now)
        × (is_ok out.1 ≡ true)
    unfolding make_store_mutation expire_mutation
    expire-committed =
        store_control_commits codec s id (plain_guard deadline_control) _ at current h.stored
          h.named h.revision_set
          (expire-control codec current (named codec s id current h) h.alive h.json now at ds zs)
          refl h.epoch_left

    expire-store :
        let out = expire_run codec s live id current.run.revision due_now now check_now at in
        let write =
          StoreControl.apply_control codec s live id current.run.revision
            (plain_guard deadline_control)
            (make_store_mutation current (expire_mutation current) now)
            at in
        (out.0 ≡ write.0) × (is_ok out.1 ≡ is_ok write.1)
    unfolding expire_run apply_control
    expire-store = ground (arith, load-stored codec s id current h, expire-prepared)

    -- When the deadline is due at the three clock readings of `Expire`, of the check and of the
    -- Store, the last two not being zero, `Expire` at the current revision, in a live context, of a
    -- Run that a control may end succeeds and leaves the Run failed, with its code, its end and the
    -- next revision, and with its state kept, whoever holds its lease and whether or not it is
    -- quarantined.
    pub expire_ends :
        let out = expire_run codec s live id current.run.revision due_now now check_now at in
        HasEnded out.0 id current failed "run.deadline_exceeded" now × (is_ok out.1 ≡ true)
    unfolding make_store_mutation expire_mutation terminal_status
    expire_ends =
        let done = expire-committed in
        (
          record {
            final = done.0.final;
            stored = rw (expire-store.0) done.0.stored;
            status = ground (arith, done.0.run_written);
            code_set = ground (arith, done.0.run_written, expire_code);
            state_kept = done.0.state_written;
            ended = ground (arith, done.0.run_written);
            advanced = ground (arith, done.0.run_written);
          },
          rw (expire-store.1) done.1,
        )
