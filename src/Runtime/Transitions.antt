-- ===== src/Runtime/Transitions.antt =====
-- go/agent-runtime/kernel/runtime.go: which status follows which, whatever calls come between the
-- read and the write of a transition.
use gaoge_agent_runtime.Prelude.{
  ℕ, ◌≡◌, inl, inr, Bool, true, false, String, none, some, List, arith, ok, All, trim_space,
  Option-cases,
}
use mathlib.Core.Path.{subst}
use gaoge_agent_runtime.Kernel.{Snapshot, Mutation, StoreMutation, Codec, Context}
use gaoge_agent_runtime.Kernel.Validation.{terminal_status, valid_transition, validate_mutation}
use gaoge_agent_runtime.Kernel.Guard.{next_u64}
use gaoge_agent_runtime.Memory
use gaoge_agent_runtime.Memory.{Store, apply_locked}
use gaoge_agent_runtime.Memory.Execution.{apply_execution}
use gaoge_agent_runtime.Memory.Steps.{Call, run_calls}
use gaoge_agent_runtime.Memory.Cas.{IsAdvance, unchanged_of_revision}
use gaoge_agent_runtime.Runtime.{Binding, make_store_mutation, valid_bound_run, propose, commit}

-- What a proposal carries over from the read.
pub record IsProposal (s : Store) (id : String) (e : ℕ) (m : Mutation) (p : StoreMutation)
    : Type 0 where
  pub base : Snapshot
  pub read : s.records id ≡ some base
  pub at_revision : base.run.revision ≡ e
  pub live : terminal_status base.run.status ≡ false
  pub legal : valid_transition base.run.status p.replacement.run.status ≡ true
  pub same_run : p.replacement.run.id ≡ base.run.id
  pub next : p.replacement.run.revision ≡ next_u64 e
  pub same_events : p.events ≡ m.events

pub propose_lem :
    (codec : Codec) (s : Store) (b : Binding) (id : String) (e : ℕ) (m : Mutation) (ev : Bool)
    (now : ℕ) (p : StoreMutation)
    → propose codec s b id e m ev now ≡ ok p
    → IsProposal s (trim_space id) e m p
unfolding propose Memory.load validate_mutation make_store_mutation
propose_lem codec s b id e m ev now p h = elim (Option-cases (s.records (trim_space id))) [
  | inl miss ↦ absurd (ground arith)
  | inr (base, hit) ↦ record {
    base = base;
    read = hit;
    at_revision = ground arith;
    live = ground arith;
    legal = ground arith;
    same_run = ground arith;
    next = ground arith;
    same_events = ground arith;
  }
]

-- The run that a bound Runtime may write to.
pub propose-bound :
    (codec : Codec) (s : Store) (b : Binding) (id : String) (e : ℕ) (m : Mutation) (ev : Bool)
    (now : ℕ) (p : StoreMutation)
    → propose codec s b id e m ev now ≡ ok p
    → valid_bound_run b (trim_space id) ≡ true
unfolding propose
propose-bound codec s b id e m ev now p h = ground arith

-- What a write finds when it succeeds.
pub record Replaces (t : Store) (id : String) (e : ℕ) (p : StoreMutation) (snap : Snapshot)
    : Type 0 where
  pub old : Snapshot
  pub found : t.records id ≡ some old
  pub at_revision : old.run.revision ≡ e
  pub written : snap.run ≡ p.replacement.run

apply_locked-Replaces :
    (t : Store) (id : String) (e : ℕ) (p : StoreMutation) (snap : Snapshot)
    → (apply_locked t id e p).1 ≡ ok snap
    → Replaces t id e p snap
unfolding apply_locked
apply_locked-Replaces t id e p snap h = elim (Option-cases (t.records id)) [
  | inl miss ↦ absurd (ground arith)
  | inr (old, hit) ↦ record {
    old = old;
    found = hit;
    at_revision = ground arith;
    written = ground arith;
  }
]

commit-Replaces :
    (t : Store) (ctx : Context) (b : Binding) (id : String) (e : ℕ) (p : StoreMutation) (now : ℕ)
    (snap : Snapshot)
    → valid_bound_run b id ≡ true
    → (commit t ctx b id e p now).1 ≡ ok snap
    → Replaces t id e p snap
unfolding commit Memory.apply apply_execution valid_bound_run
commit-Replaces t ctx none id e p now snap v h = apply_locked-Replaces t id e p snap (ground arith)
commit-Replaces t ctx (some l) id e p now snap v h =
    apply_locked-Replaces t id e p snap (ground arith)

-- The transition that a write makes, against the record that it replaces.
pub record IsLegal (s t : Store) (id : String) (e : ℕ) (snap : Snapshot) : Type 0 where
  pub old : Snapshot
  pub replaced : t.records id ≡ some old
  pub as_read : s.records id ≡ some old
  pub at_revision : old.run.revision ≡ e
  pub not_terminal : terminal_status old.run.status ≡ false
  pub legal : valid_transition old.run.status snap.run.status ≡ true
  pub next : snap.run.revision ≡ next_u64 e

-- A transition of a Run that `propose` accepts on one store, and whose write succeeds after any
-- history of other calls, each of whose writes proposes the revision after the one it expects, and
-- an identifier without blanks around it: the record that the write replaces is the very one that
-- was read, at the expected revision; it is not terminal, the new status may follow its status, and
-- the new revision is the next one.
pub interleaved_write-IsLegal :
    (codec : Codec) (s : Store) (cs : List Call) (b : Binding) (id : String) (e : ℕ) (m : Mutation)
    (ev : Bool) (now : ℕ) (p : StoreMutation) (ctx : Context) (store_now : ℕ) (snap : Snapshot)
    → All IsAdvance cs
    → trim_space id ≡ id
    → propose codec s b id e m ev now ≡ ok p
    → (commit (run_calls codec s cs) ctx b id e p store_now).1 ≡ ok snap
    → IsLegal s (run_calls codec s cs) id e snap
interleaved_write-IsLegal codec s cs b id e m ev now p ctx store_now snap a trimmed h k =
    let q = subst (λ i. IsProposal s i e m p) trimmed (propose_lem codec s b id e m ev now p h) in
    let v =
      subst (λ i. valid_bound_run b i ≡ true) trimmed (propose-bound codec s b id e m ev now p h) in
    let w = commit-Replaces (run_calls codec s cs) ctx b id e p store_now snap v k in
    let same =
      unchanged_of_revision codec cs s id q.base w.old a q.read w.found
        (omega (arith, q.at_revision, w.at_revision)) in
    record {
      old = w.old;
      replaced = w.found;
      as_read = rw same q.read;
      at_revision = w.at_revision;
      not_terminal = rw same q.live;
      legal = rw (same, w.written) q.legal;
      next = ground (arith, w.written, q.next);
    }
