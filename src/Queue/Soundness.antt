-- ===== src/Queue/Soundness.antt =====
-- go/agent-runtime/queue: what holds of every job between two operations.
use gaoge_agent_runtime.Prelude.{
  ℕ, ◌≤◌, ◌<◌, String, Bool, true, false, some, ◌≡◌, ◌≢◌, refl, arith, is_some, ap, ◌∙◌,
}
use gaoge_agent_runtime.Queue.{
  queued, leased, completed, dead_letter, Lease, Job, Codec, Prepared, release_for_retry,
  valid_policy, initial_job,
}
use gaoge_agent_runtime.Queue.Delivery.{claimed, renewed, acked, requeued}
use gaoge_agent_runtime.Queue.Moves.{
  Move, claims, renews, acks, nacks, expires, requeues, Moves, here, next,
}

-- A job is leased exactly when it carries a lease, which is of its generation and attempt. Without a
-- terminal fence a job that waits has an attempt left, and none is delivered more than
-- `MaxAttempts` times.
pub record IsSound (j : Job) : Type 0 where
  pub held : j.status ≡ leased → is_some j.lease ≡ true
  pub holder : is_some j.lease ≡ true → j.status ≡ leased
  pub same_generation : (l : Lease) → j.lease ≡ some l → l.generation ≡ j.generation
  pub same_attempt : (l : Lease) → j.lease ≡ some l → l.attempt ≡ j.attempt
  pub has_attempts : 0 < j.policy.max_attempts
  pub attempt_left :
      j.policy.require_terminal_fence ≡ false
      → j.status ≡ queued
      → j.attempt < j.policy.max_attempts
  pub bounded : j.policy.require_terminal_fence ≡ false → j.attempt ≤ j.policy.max_attempts
  pub dated : j.status ≡ dead_letter → is_some j.dead_letter_at ≡ true
  pub finished : j.status ≡ completed → is_some j.completed_at ≡ true

pub initial-IsSound :
    (codec : Codec) (p : Prepared) (print : String) (now : ℕ)
    → valid_policy p.policy ≡ true
    → IsSound (initial_job codec p print now)
unfolding initial_job valid_policy
initial-IsSound codec p print now v = record {
  held = λ e. cc;
  holder = λ e. cc;
  same_generation = λ l e. cc;
  same_attempt = λ l e. cc;
  has_attempts = ground arith;
  attempt_left = λ e f. ground arith;
  bounded = λ e. ground arith;
  dated = λ e. cc;
  finished = λ e. cc;
}

-- The request that a job stands for never changes.
pub record SameRequest (j k : Job) : Type 0 where
  pub id : k.id ≡ j.id
  pub queue : k.queue ≡ j.queue
  pub fingerprint : k.fingerprint ≡ j.fingerprint
  pub payload : k.payload ≡ j.payload
  pub policy : k.policy ≡ j.policy

release-IsSound :
    (j : Job) (now : ℕ) (allow : Bool) → IsSound j → IsSound (release_for_retry j now allow)
unfolding release_for_retry
release-IsSound j now allow h = record {
  held = λ e. ground arith;
  holder = λ e. ground arith;
  same_generation = λ l e. ground arith;
  same_attempt = λ l e. ground arith;
  has_attempts = ground (arith, h.has_attempts);
  attempt_left = λ e f. ground arith;
  bounded = λ e. ground (arith, h.bounded);
  dated = λ e. ground arith;
  finished = λ e. ground arith;
}

renewed-IsSound :
    (now : ℕ) (j : Job) (l : Lease) → j.lease ≡ some l → IsSound j → IsSound (renewed now j)
renewed-IsSound now j l p h = record {
  held = λ e. ground arith;
  holder = λ e. ground (arith, h.holder);
  same_generation = λ m e. ground (arith, h.same_generation l);
  same_attempt = λ m e. ground (arith, h.same_attempt l);
  has_attempts = ground (arith, h.has_attempts);
  attempt_left = λ e f. ground (arith, h.attempt_left);
  bounded = λ e. ground (arith, h.bounded);
  dated = λ e. ground (arith, h.dated);
  finished = λ e. ground (arith, h.finished);
}

acked-IsSound : (now : ℕ) (j : Job) → IsSound j → IsSound (acked now j)
acked-IsSound now j h = record {
  held = λ e. cc;
  holder = λ e. cc;
  same_generation = λ l e. cc;
  same_attempt = λ l e. cc;
  has_attempts = h.has_attempts;
  attempt_left = λ e f. cc;
  bounded = h.bounded;
  dated = λ e. cc;
  finished = λ e. refl;
}

requeued-IsSound : (now : ℕ) (j : Job) → IsSound j → IsSound (requeued now j)
requeued-IsSound now j h = record {
  held = λ e. cc;
  holder = λ e. cc;
  same_generation = λ l e. cc;
  same_attempt = λ l e. cc;
  has_attempts = h.has_attempts;
  attempt_left = λ e f. h.has_attempts;
  bounded = λ e. omega arith;
  dated = λ e. cc;
  finished = λ e. cc;
}

relabelled-IsSound :
    (j : Job) (code message : String)
    → IsSound j
    → IsSound (record j { last_error_code = code; last_error = message })
relabelled-IsSound j code message h = record {
  held = h.held;
  holder = h.holder;
  same_generation = h.same_generation;
  same_attempt = h.same_attempt;
  has_attempts = h.has_attempts;
  attempt_left = h.attempt_left;
  bounded = h.bounded;
  dated = h.dated;
  finished = h.finished;
}

module _ (codec : Codec) where
  claimed-IsSound :
      (worker : String) (now : ℕ) (j : Job)
      → j.status ≡ queued
      → IsSound j
      → IsSound (claimed codec worker now j)
  unfolding claimed
  claimed-IsSound worker now j q h = record {
    held = λ e. refl;
    holder = λ e. refl;
    same_generation = λ l e. ground arith;
    same_attempt = λ l e. ground arith;
    has_attempts = h.has_attempts;
    attempt_left = λ e f. cc;
    bounded = λ e. ground (arith, h.attempt_left);
    dated = λ e. cc;
    finished = λ e. cc;
  }

  -- Each write keeps a job sound.
  pub Move-IsSound : {now : ℕ} {j k : Job} → Move codec now j k → IsSound j → IsSound k
  Move-IsSound {now} {j} {k} (claims worker q a e) h = rw e (claimed-IsSound worker now j q h)
  Move-IsSound {now} {j} {k} (renews l s p t e) h = rw e (renewed-IsSound now j l p h)
  Move-IsSound {now} {j} {k} (acks l s p t e) h = rw e (acked-IsSound now j h)
  Move-IsSound {now} {j} {k} (nacks l code message allow s p t e) h =
      rw e (release-IsSound _ now allow (relabelled-IsSound j code message h))
  Move-IsSound {now} {j} {k} (expires l s p t e) h = rw e (release-IsSound j now false h)
  Move-IsSound {now} {j} {k} (requeues s e) h = rw e (requeued-IsSound now j h)

  -- And never lowers its generation, short of the 64-bit bound.
  pub Move-generation :
      {now : ℕ} {j k : Job}
      → Move codec now j k
      → j.generation < 18446744073709551615
      → j.generation ≤ k.generation
  unfolding claimed release_for_retry
  Move-generation (claims worker q a e) b = ground arith
  Move-generation (renews l s p t e) b = ground arith
  Move-generation (acks l s p t e) b = ground arith
  Move-generation (nacks l code message allow s p t e) b = ground arith
  Move-generation (expires l s p t e) b = ground arith
  Move-generation (requeues s e) b = ground arith

  pub Moves-IsSound : {j k : Job} → Moves codec j k → IsSound j → IsSound k
  Moves-IsSound here h = h
  Moves-IsSound (next ms m) h = Move-IsSound m (Moves-IsSound ms h)

  completed_stuck : {now : ℕ} {j k : Job} → Move codec now j k → j.status ≢ completed
  completed_stuck (claims worker q a e) c = cc
  completed_stuck (renews l s p t e) c = cc
  completed_stuck (acks l s p t e) c = cc
  completed_stuck (nacks l code message allow s p t e) c = cc
  completed_stuck (expires l s p t e) c = cc
  completed_stuck (requeues s e) c = cc

  -- A completed job takes no further write.
  pub Moves-completed : {j k : Job} → Moves codec j k → j.status ≡ completed → k ≡ j
  Moves-completed here c = refl
  Moves-completed (next ms m) c =
      absurd (completed_stuck m (ap (λ x. x.status) (Moves-completed ms c) ∙ c))

  pub Move-SameRequest : {now : ℕ} {j k : Job} → Move codec now j k → SameRequest j k
  unfolding claimed release_for_retry
  Move-SameRequest (claims worker q a e) = ground arith
  Move-SameRequest (renews l s p t e) = ground arith
  Move-SameRequest (acks l s p t e) = ground arith
  Move-SameRequest (nacks l code message allow s p t e) = ground arith
  Move-SameRequest (expires l s p t e) = ground arith
  Move-SameRequest (requeues s e) = ground arith

  pub Moves-SameRequest : {j k : Job} → Moves codec j k → SameRequest j k
  Moves-SameRequest here = record {
    id = refl;
    queue = refl;
    fingerprint = refl;
    payload = refl;
    policy = refl;
  }
  Moves-SameRequest (next ms m) = ground (arith, Moves-SameRequest ms, Move-SameRequest m)
