-- ===== src/Execution/Ordering.antt =====
-- go/agent-runtime/workflow/execution.go and compensation.go: a Wait is answered once, and compensations run
-- from the last one.
use gaoge_agent_runtime.Prelude.{
  ℕ, zero, suc, ◌≤◌, String, true, false, none, some, List, [], ◌∷◌, get_elem?, update_at, ◌≡◌, inl,
  inr, refl, sym, ap, ◌∙◌, arith, Option-cases, Result, ok, err, Result-cases,
}
use mathlib.Core.Path.{subst}
use gaoge_agent_runtime.Workflow.{Encoding}
use gaoge_agent_runtime.Workflow.Successors.{next_node_index}
use gaoge_agent_runtime.Execution.{
  Error, wait_pending, Activation, Wait, WaitStatus, Compensation, View, Write,
}
use gaoge_agent_runtime.Execution.Advancing.{
  wait_index_by_id, activation_index_by_id, has_wait, resolve_wait_at, resolve_wait_state, Loaded,
  pending_wait, valid_pending_wait, resolve_wait,
}
use gaoge_agent_runtime.Execution.Undoing.{is_undone, next_compensation_position}
use gaoge_agent_runtime.Execution.Indices.{some-injective}
use gaoge_agent_runtime.Execution.Soundness.{option_elim}

abbrev answered_with : String → Wait → Wait
answered_with response w = record w { status = WaitStatus.resolved; response = response }

-- A state, if there is one, waits for nothing and has the answer at the position.
IsAnswered : View → ℕ → String → Result Error View → Type 0
IsAnswered s i response (err e) = Unit
IsAnswered s i response (ok t) =
    (t.current_wait_id ≡ "") × (t.waits ≡ update_at i (answered_with response) s.waits)

get_elem-update_at :
    {A : Type 0} (i : ℕ) (f : A → A) (xs : List A) (x : A)
    → get_elem? xs i ≡ some x
    → get_elem? (update_at i f xs) i ≡ some (f x)
unfolding get_elem? update_at
get_elem-update_at i f [] x g = absurd (ground arith)
get_elem-update_at zero f (y ∷ xs) x g = ap (λ z. some (f z)) (some-injective g)
get_elem-update_at (suc i) f (y ∷ xs) x g = get_elem-update_at i f xs x g

-- The Wait that is found is pending, and at its position.
pending_wait_lem :
    (s : View) (i : ℕ) (w : Wait)
    → pending_wait s ≡ some (i, w)
    → (wait_index_by_id s.waits s.current_wait_id ≡ some i)
      × (get_elem? s.waits i ≡ some w)
      × (has_wait w ≡ true)
unfolding pending_wait
pending_wait_lem s i w h = elim (Option-cases (wait_index_by_id s.waits s.current_wait_id)) [
  | inl e ↦ absurd (ground arith)
  | inr (j, e) ↦ elim (Option-cases (get_elem? s.waits j)) [
    | inl g ↦ absurd (ground arith)
    | inr (v, g) ↦ (ground arith, ground arith, ground arith)
  ]
]

resolve_at-IsAnswered :
    (s : View) (i : ℕ) (w : Wait) (j : ℕ) (a : Activation) (response : String)
    → IsAnswered s i response (resolve_wait_at s i w j a response)
unfolding resolve_wait_at IsAnswered
resolve_at-IsAnswered s i w j a response =
    option_elim (IsAnswered s i response) (get_elem? s.definition.content.nodes a.node_index) _ _
      (λ g. tt)
      (λ n g.
        option_elim (IsAnswered s i response)
          (next_node_index s.definition.content.nodes s.current_node n) _ _ (λ e. tt)
          (λ next e. (refl, refl)))

resolve_state-IsAnswered :
    (s : View) (i : ℕ) (response : String)
    → wait_index_by_id s.waits s.current_wait_id ≡ some i
    → IsAnswered s i response (resolve_wait_state s response)
unfolding resolve_wait_state IsAnswered
resolve_state-IsAnswered s i response at =
    option_elim (IsAnswered s i response) (wait_index_by_id s.waits s.current_wait_id) _ _ (λ e. tt)
      (λ k e.
        option_elim (IsAnswered s i response) (get_elem? s.waits k) _ _ (λ g. tt)
          (λ w g.
            option_elim (IsAnswered s i response)
              (activation_index_by_id s.activations w.activation_id) _ _ (λ q. tt)
              (λ j q.
                option_elim (IsAnswered s i response) (get_elem? s.activations j) _ _ (λ v. tt)
                  (λ a v.
                    subst (λ p. IsAnswered s p response (resolve_wait_at s k w j a response))
                      (some-injective (sym e ∙ at)) (resolve_at-IsAnswered s k w j a response)))))

-- A `ResolveWait` on a state that waits for nothing.
idle-refused :
    (enc : Encoding) (l : Loaded) (response : String)
    → l.state.current_wait_id ≡ ""
    → enc.valid response ≡ true
    → resolve_wait enc l l.revision response ≡ err wait_pending
unfolding resolve_wait valid_pending_wait
idle-refused enc l response idle v = ground arith

-- What the first answer did to the Wait, and what the second is told.
pub record IsTaken (s t : View) (response : String) : Type 0 where
  pub position : ℕ
  pub wait : Wait
  pub awaited : wait_index_by_id s.waits s.current_wait_id ≡ some position
  pub stored : get_elem? s.waits position ≡ some wait
  pub pending : has_wait wait ≡ true
  pub resolved : get_elem? t.waits position ≡ some (answered_with response wait)
  pub idle : t.current_wait_id ≡ ""

-- What a `ResolveWait` that wrote has passed.
resolve_lem :
    (enc : Encoding) (l : Loaded) (expected : ℕ) (response : String) (w : Write)
    → resolve_wait enc l expected response ≡ ok w
    → (l.revision ≡ expected)
      × (valid_pending_wait l ≡ true)
      × (resolve_wait_state l.state response ≡ ok w.state)
unfolding resolve_wait
resolve_lem enc l expected response w h =
    elim (Result-cases (resolve_wait_state l.state response)) [
      | inl (x, e) ↦ absurd (ground arith)
      | inr (t, e) ↦ (ground arith, ground arith, ground arith)
    ]

resolve-IsTaken :
    (s t : View) (response : String) (i : ℕ) (w : Wait)
    → pending_wait s ≡ some (i, w)
    → resolve_wait_state s response ≡ ok t
    → IsTaken s t response
unfolding IsAnswered
resolve-IsTaken s t response i w p e =
    let found = pending_wait_lem s i w p in
    let done = subst (IsAnswered s i response) e (resolve_state-IsAnswered s i response found.0) in
    record {
      position = i;
      wait = w;
      awaited = found.0;
      stored = found.1;
      pending = found.2;
      resolved =
          ap (λ ws. get_elem? ws i) done.1
          ∙ get_elem-update_at i (answered_with response) s.waits w found.1;
      idle = done.0;
    }

-- A Wait is answered once. A `ResolveWait` that writes was given the current revision, and the Wait that the
-- state awaited was pending; the written state has the response in it, resolved, and awaits nothing. Until
-- something else is written, another `ResolveWait` at the current revision whose response is JSON, whatever
-- that response and whatever status and checkpoint are loaded, is refused with `ErrWaitPending`.
pub resolve_once :
    (enc : Encoding) (l : Loaded) (expected : ℕ) (response : String) (w : Write) (m : Loaded)
    (again : String)
    → resolve_wait enc l expected response ≡ ok w
    → m.state ≡ w.state
    → enc.valid again ≡ true
    → (l.revision ≡ expected)
      × IsTaken l.state w.state response
      × (resolve_wait enc m m.revision again ≡ err wait_pending)
unfolding valid_pending_wait
resolve_once enc l expected response w m again h same v =
    let passed = resolve_lem enc l expected response w h in
    elim (Option-cases (pending_wait l.state)) [
      | inl none_there ↦ absurd (ground (arith, passed.1))
      | inr ((i, x), p) ↦
          let taken = resolve-IsTaken l.state w.state response i x p passed.2 in
          (
            passed.0,
            taken,
            idle-refused enc m again (ap (λ (s : View). s.current_wait_id) same ∙ taken.idle) v,
          )
    ]

all_undone :
    (cs : List Compensation) (j : ℕ) (c : Compensation)
    → next_compensation_position cs ≡ none
    → get_elem? cs j ≡ some c
    → is_undone c.status ≡ true
unfolding next_compensation_position get_elem?
all_undone [] j c n g = absurd (ground arith)
all_undone (x ∷ cs) zero c n g = elim (Option-cases (next_compensation_position cs)) [
  | inl e ↦ ground arith
  | inr (k, e) ↦ absurd (ground arith)
]
all_undone (x ∷ cs) (suc j) c n g = elim (Option-cases (next_compensation_position cs)) [
  | inl e ↦ all_undone cs j c e g
  | inr (k, e) ↦ absurd (ground arith)
]

next-waits :
    (cs : List Compensation) (i : ℕ)
    → next_compensation_position cs ≡ some i
    → (next : Compensation) × (get_elem? cs i ≡ some next) × (is_undone next.status ≡ false)
unfolding next_compensation_position get_elem?
next-waits [] i h = absurd (ground arith)
next-waits (x ∷ cs) zero h = elim (Option-cases (next_compensation_position cs)) [
  | inl e ↦ (x, refl, ground arith)
  | inr (k, e) ↦ absurd (ground arith)
]
next-waits (x ∷ cs) (suc i) h = elim (Option-cases (next_compensation_position cs)) [
  | inl e ↦ absurd (ground arith)
  | inr (k, e) ↦ next-waits cs i (ground arith)
]

next-last :
    (cs : List Compensation) (i j : ℕ) (c : Compensation)
    → next_compensation_position cs ≡ some i
    → get_elem? cs j ≡ some c
    → is_undone c.status ≡ false
    → j ≤ i
unfolding next_compensation_position get_elem?
next-last [] i j c h g u = absurd (ground arith)
next-last (x ∷ cs) i zero c h g u = omega arith
next-last (x ∷ cs) i (suc j) c h g u = elim (Option-cases (next_compensation_position cs)) [
  | inl e ↦ absurd (ground (arith, all_undone cs j c e g))
  | inr (k, e) ↦ ground (arith, next-last cs k j c e g u)
]

-- The compensation that runs next is not completed, and none that is not stands after it.
pub undo_order :
    (cs : List Compensation) (i j : ℕ) (c : Compensation)
    → next_compensation_position cs ≡ some i
    → get_elem? cs j ≡ some c
    → is_undone c.status ≡ false
    → ((next : Compensation) × (get_elem? cs i ≡ some next) × (is_undone next.status ≡ false))
      × (j ≤ i)
undo_order cs i j c h g u = (next-waits cs i h, next-last cs i j c h g u)
