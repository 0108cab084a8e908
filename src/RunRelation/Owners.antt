-- ===== src/RunRelation/Owners.antt =====
-- go/agent-runtime/memory/runrelation.go: histories of calls, and the relations and owners in them.
use gaoge_agent_runtime.Prelude.{
  ℕ, ◌≡◌, ◌≤◌, inl, inr, String, Bool, true, some, List, [], ◌∷◌, arith, Option-cases, Bool-cases,
  Result-cases, ok, sym, ap,
}
use mathlib.Core.Path.{subst}
use gaoge_agent_runtime.RunRelation.{
  Draft, Relation, Store, new_store, prepare, drafted, trimmed_relation, ensure_prepared,
  equal_identity, owner_key, reuse, put_prepared, put, mark_enqueued, ensure, progress_or_zero,
  valid_relation,
}
use gaoge_agent_runtime.RunRelation.Index.{
  IsIndexed, put-IsIndexed, ensure-IsIndexed, ensure-put, prepare_lem, mark_enqueued-IsIndexed,
  new_store-IsIndexed,
}

-- The calls that may change the Store.
pub data Call : Type 0 where
  put_call : Relation → Call
  ensure_call : Draft → ℕ → Call
  mark_call : String → ℕ → ℕ → Call

unfoldable pub call : Store → Call → Store
call s (put_call r) = (put s r).0
call s (ensure_call d now) = (ensure s d now).0
call s (mark_call id p c) = (mark_enqueued s id p c).0

unfoldable pub run_calls : Store → List Call → Store
run_calls s [] = s
run_calls s (c ∷ cs) = run_calls (call s c) cs

call-IsIndexed : (s : Store) (c : Call) → IsIndexed s → IsIndexed (call s c)
unfolding call
call-IsIndexed s (put_call r) h = put-IsIndexed s r h
call-IsIndexed s (ensure_call d now) h = ensure-IsIndexed s d now h
call-IsIndexed s (mark_call id p c) h = mark_enqueued-IsIndexed s id p c h

run_calls-IsIndexed : (cs : List Call) (s : Store) → IsIndexed s → IsIndexed (run_calls s cs)
unfolding run_calls
run_calls-IsIndexed [] s h = h
run_calls-IsIndexed (c ∷ cs) s h = run_calls-IsIndexed cs (call s c) (call-IsIndexed s c h)

-- After any calls on a new Store: the identifiers of the index ascend strictly and are those of the
-- relations, each relation is valid and stands under its own child, its owner's key leads to it, and each key
-- of the index by owner is the key of the relation that it leads to.
pub calls-IsIndexed : (cs : List Call) → IsIndexed (run_calls new_store cs)
calls-IsIndexed cs = run_calls-IsIndexed cs new_store new_store-IsIndexed

-- What a call leaves of what was there: each relation, and watermarks that are no lower.
pub record Keeps (s t : Store) : Type 0 where
  pub relations : (id : String) (r : Relation) → s.by_child id ≡ some r → t.by_child id ≡ some r
  pub owners : (key id : String) → s.by_owner key ≡ some id → t.by_owner key ≡ some id
  pub parent_marks :
      (id : String)
      → (progress_or_zero (s.reconciled id)).parent_revision
        ≤ (progress_or_zero (t.reconciled id)).parent_revision
  pub child_marks :
      (id : String)
      → (progress_or_zero (s.reconciled id)).child_revision
        ≤ (progress_or_zero (t.reconciled id)).child_revision

Keeps-refl : (s : Store) → Keeps s s
Keeps-refl s = record {
  relations = λ id r p. p;
  owners = λ key id p. p;
  parent_marks = λ id. omega arith;
  child_marks = λ id. omega arith;
}

Keeps-trans : (s t u : Store) → Keeps s t → Keeps t u → Keeps s u
Keeps-trans s t u h k = record {
  relations = λ id r p. k.relations id r (h.relations id r p);
  owners = λ key id p. k.owners key id (h.owners key id p);
  parent_marks = λ id. omega (arith, h.parent_marks id, k.parent_marks id);
  child_marks = λ id. omega (arith, h.child_marks id, k.child_marks id);
}

put_prepared-Keeps : (s : Store) (r : Relation) → Keeps s (put_prepared s r).0
unfolding put_prepared
put_prepared-Keeps s r = record {
  relations = λ id q p. ground arith;
  owners = λ key id p. ground arith;
  parent_marks = λ id. ground arith;
  child_marks = λ id. ground arith;
}

put-Keeps : (s : Store) (r : Relation) → Keeps s (put s r).0
unfolding put
put-Keeps s r = elim (Result-cases (prepare r)) [
  | inl (e, p) ↦
      let same : (put s r).0 ≡ s = ground arith in subst (Keeps s) (sym same) (Keeps-refl s)
  | inr (q, p) ↦
      let same : (put s r).0 ≡ (put_prepared s q).0 = ground arith in
      subst (Keeps s) (sym same) (put_prepared-Keeps s q)
]

ensure-Keeps : (s : Store) (d : Draft) (now : ℕ) → Keeps s (ensure s d now).0
unfolding ensure ensure_prepared
ensure-Keeps s d now = elim (Result-cases (prepare (drafted d now))) [
  | inl (e, p) ↦
      let same : (ensure s d now).0 ≡ s = ap (λ x. (ensure_prepared s x).0) p in
      subst (Keeps s) (sym same) (Keeps-refl s)
  | inr (q, p) ↦ subst (Keeps s) (sym (ensure-put s d now q p)) (put-Keeps s q)
]

mark_enqueued-Keeps : (s : Store) (id : String) (p c : ℕ) → Keeps s (mark_enqueued s id p c).0
unfolding mark_enqueued
mark_enqueued-Keeps s id p c = record {
  relations = λ i q e. ground arith;
  owners = λ key i e. ground arith;
  parent_marks = λ i. ground arith;
  child_marks = λ i. ground arith;
}

call-Keeps : (s : Store) (c : Call) → Keeps s (call s c)
unfolding call
call-Keeps s (put_call r) = put-Keeps s r
call-Keeps s (ensure_call d now) = ensure-Keeps s d now
call-Keeps s (mark_call id p c) = mark_enqueued-Keeps s id p c

-- Whatever calls follow, each relation and each owner's child stay as they are, and no watermark goes down.
pub run_calls-Keeps : (cs : List Call) (s : Store) → Keeps s (run_calls s cs)
unfolding run_calls
run_calls-Keeps [] s = Keeps-refl s
run_calls-Keeps (c ∷ cs) s =
    Keeps-trans s (call s c) (run_calls (call s c) cs) (call-Keeps s c)
      (run_calls-Keeps cs (call s c))

-- What a successful `Put` answers and leaves.
pub record IsPut (t : Store) (r q : Relation) : Type 0 where
  pub same_identity : equal_identity q r ≡ true
  pub stored : t.by_child q.child_run_id ≡ some q
  pub owned : t.by_owner (owner_key q) ≡ some q.child_run_id
  pub again : put_prepared t r ≡ (t, ok (q, true))

owner_key-equal_identity : (q r : Relation) → equal_identity q r ≡ true → owner_key q ≡ owner_key r
unfolding equal_identity owner_key
owner_key-equal_identity q r h = ground arith

-- A relation that is found and has the same identity.
reuse-IsPut :
    (s t : Store) (r q existing : Relation) (reused : Bool)
    → IsIndexed s
    → s.by_child existing.child_run_id ≡ some existing
    → put_prepared s r ≡ (s, reuse existing r)
    → put_prepared s r ≡ (t, ok (q, reused))
    → IsPut t r q
unfolding reuse
reuse-IsPut s t r q existing reused h found found_again p =
    elim (Bool-cases (equal_identity existing r)) [
      | inr other ↦ absurd (ground arith)
      | inl same ↦ record {
        same_identity = ground arith;
        stored = ground arith;
        owned = ground (arith, h.owned existing.child_run_id existing found);
        again = ground arith;
      }
    ]

put_prepared-IsPut :
    (s t : Store) (r q : Relation) (reused : Bool)
    → IsIndexed s
    → valid_relation r ≡ true
    → put_prepared s r ≡ (t, ok (q, reused))
    → IsPut t r q
unfolding put_prepared equal_identity reuse valid_relation
put_prepared-IsPut s t r q reused h v p = elim (Option-cases (s.by_owner (owner_key r))) [
  | inr (child, o) ↦ elim (Option-cases (s.by_child child)) [
    | inl missing ↦ absurd (ground arith)
    | inr (existing, c) ↦
        let named = h.named child existing c in
        reuse-IsPut s t r q existing reused h (ground arith) (ground arith) p
  ]
  | inl free ↦ elim (Option-cases (s.by_child r.child_run_id)) [
    | inr (existing, c) ↦
        let named = h.named r.child_run_id existing c in
        reuse-IsPut s t r q existing reused h (ground arith) (ground arith) p
    | inl new ↦ record {
      same_identity = ground arith;
      stored = ground arith;
      owned = ground arith;
      again = ground arith;
    }
  ]
]

-- A `Put` that succeeds on a well-formed Store answers a relation of the same identity, which the Store
-- then has under its child and its owner, and the same call again answers it as reused and changes nothing.
pub put-IsPut :
    (s t : Store) (r q : Relation) (reused : Bool)
    → IsIndexed s
    → put s r ≡ (t, ok (q, reused))
    → (equal_identity q (trimmed_relation r) ≡ true)
      × (t.by_child q.child_run_id ≡ some q)
      × (t.by_owner (owner_key q) ≡ some q.child_run_id)
      × (put t r ≡ (t, ok (q, true)))
unfolding put prepare
put-IsPut s t r q reused h p = elim (Result-cases (prepare r)) [
  | inl (e, refused) ↦ absurd (ground arith)
  | inr (w, prepared) ↦
      let trimmed : w ≡ trimmed_relation r = ground arith in
      let done = put_prepared-IsPut s t w q reused h (prepare_lem r w prepared) (ground arith) in
      (
        subst (λ x. equal_identity q x ≡ true) trimmed done.same_identity,
        done.stored,
        done.owned,
        ground (arith, done.again),
      )
]

key_of_parts :
    (q r : Relation)
    → q.parent_run_id ≡ r.parent_run_id
    → q.kind ≡ r.kind
    → q.owner_node_id ≡ r.owner_node_id
    → owner_key q ≡ owner_key r
unfolding owner_key
key_of_parts q r parent kind owner = ground arith

-- After any calls on a new Store, two relations with the same parent, kind and owner node are one.
pub calls-owner_unique :
    (cs : List Call) (a b : String) (q r : Relation)
    → (run_calls new_store cs).by_child a ≡ some q
    → (run_calls new_store cs).by_child b ≡ some r
    → q.parent_run_id ≡ r.parent_run_id
    → q.kind ≡ r.kind
    → q.owner_node_id ≡ r.owner_node_id
    → q ≡ r
calls-owner_unique cs a b q r p k parent kind owner =
    let h = calls-IsIndexed cs in
    let one = h.owned a q p in
    let two = h.owned b r k in
    let same : owner_key q ≡ owner_key r = key_of_parts q r parent kind owner in
    let child : a ≡ b = ground arith in ground arith
