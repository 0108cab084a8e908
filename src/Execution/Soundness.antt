-- ===== src/Execution/Soundness.antt =====
-- go/agent-runtime/workflow/execution.go: what holds of every state that a handler writes, and the changes
-- that touch neither effects nor costs.
use gaoge_agent_runtime.Prelude.{
  ℕ, zero, suc, ◌+◌, String, Bool, true, false, Option, none, some, List, [], ◌∷◌, ◌++◌, get_elem?,
  update_at, ◌≡◌, ◌⊎◌, inl, inr, refl, sym, ap, ◌∙◌, arith, Bool-cases, Option-cases, if◌then◌else◌,
  All, length, Result, ok, err, ◌>>=◌,
}
use gaoge_agent_runtime.Prelude.Int.{pos, ◌≤ℤ◌}
use mathlib.Core.Path.{subst}
use gaoge_agent_runtime.Kernel.{RunStatus}
use gaoge_agent_runtime.Workflow.{Definition}
use gaoge_agent_runtime.Execution.{Error, Activation, EffectStatus, View, Write}
use gaoge_agent_runtime.Execution.Failing.{
  is_pending, effect_index_by_id, put_effect, release_cost, abort_effect, abort_activation_effects,
  terminal_write, begin_failure, intent_of,
}
use gaoge_agent_runtime.Execution.Finishing.{put_activation}
use gaoge_agent_runtime.Execution.Accounts.{IsAccounted, failed-IsAccounted, unpriced_undo}
use gaoge_agent_runtime.Execution.Sums.{sum_of, held, spent, unpriced}
use gaoge_agent_runtime.Execution.Indices.{IsDistinct}

abbrev pub HasDistinct : Activation → Type 0
HasDistinct a = IsDistinct a.effect_ids

-- The accounts of a state, and that no activation lists an effect twice.
pub record IsSound (d : Definition) (s : View) : Type 0 where
  pub accounts : IsAccounted d s
  pub effect_ids : All HasDistinct s.activations

pub All-append :
    {A : Type 0} (P : A → Type 0) (xs ys : List A) → All P xs → All P ys → All P (xs ++ ys)
All-append P [] ys a b = b
All-append P (x ∷ xs) ys a b = (a.0, All-append P xs ys a.1 b)

pub All-update_at :
    {A : Type 0} (P : A → Type 0) (i : ℕ) (f : A → A) (xs : List A)
    → ((x : A) → P x → P (f x))
    → All P xs
    → All P (update_at i f xs)
unfolding update_at
All-update_at P i f [] h a = tt
All-update_at P zero f (x ∷ xs) h a = (h x a.0, a.1)
All-update_at P (suc i) f (x ∷ xs) h a = (a.0, All-update_at P i f xs h a.1)

pub All-member :
    {A : Type 0} (P : A → Type 0) (i : ℕ) (x : A) (xs : List A)
    → get_elem? xs i ≡ some x
    → All P xs
    → P x
unfolding get_elem?
All-member P i x [] g a = absurd (ground arith)
All-member P zero x (y ∷ xs) g a = subst P (ap (λ o. elim o [ none ↦ x | some z ↦ z ]) g) a.0
All-member P (suc i) x (y ∷ xs) g a = All-member P i x xs g a.1

-- A property of what a handler makes of a computed value.
pub option_elim :
    {A B : Type 0} (P : B → Type 0) (o : Option A) (x : B) (f : A → B)
    → (o ≡ none → P x)
    → ((a : A) → o ≡ some a → P (f a))
    → P (elim o [ none ↦ x | some a ↦ f a ])
option_elim P none x f h k = h refl
option_elim P (some a) x f h k = k a refl

pub result_elim :
    {E A B : Type 0} (P : B → Type 0) (r : Result E A) (f : E → B) (g : A → B)
    → ((e : E) → P (f e))
    → ((a : A) → r ≡ ok a → P (g a))
    → P (elim r [ err e ↦ f e | ok a ↦ g a ])
result_elim P (err e) f g h k = h e
result_elim P (ok a) f g h k = k a refl

pub bind_elim :
    {E A B : Type 0} (P : Result E B → Type 0) (r : Result E A) (g : A → Result E B)
    → ((e : E) → P (err e))
    → ((a : A) → r ≡ ok a → P (g a))
    → P (r >>= g)
bind_elim P (err e) g h k = h e
bind_elim P (ok a) g h k = k a refl

pub if_elim :
    {B : Type 0} (P : B → Type 0) (b : Bool) (x y : B)
    → (b ≡ true → P x)
    → (b ≡ false → P y)
    → P (if b then x else y)
if_elim P true x y h k = h refl
if_elim P false x y h k = k refl

pub list_elim :
    {A B : Type 0} (P : B → Type 0) (xs : List A) (x : B) (f : A → List A → B)
    → (xs ≡ [] → P x)
    → ((a : A) (as_ : List A) → xs ≡ a ∷ as_ → P (f a as_))
    → P (elim xs [ [] ↦ x | a ∷ as_ ↦ f a as_ ])
list_elim P [] x f h k = h refl
list_elim P (a ∷ as_) x f h k = k a as_ refl

-- A write, if there is one, leaves a sound state.
unfoldable pub IsFine : Definition → Result Error Write → Type 0
IsFine d (err e) = Unit
IsFine d (ok w) = IsSound d w.state

-- A property of what either branch writes.
pub if_state :
    (P : View → Type 0) (b : Bool) (x y : Write)
    → (b ≡ true → P x.state)
    → (b ≡ false → P y.state)
    → P (if b then x else y).state
if_state P true x y f g = f refl
if_state P false x y f g = g refl

List-cases : {A : Type 0} (xs : List A) → (xs ≡ []) ⊎ ((x : A) × ((ys : List A) × (xs ≡ x ∷ ys)))
List-cases [] = inl refl
List-cases (x ∷ xs) = inr (x, (xs, refl))

module _ (d : Definition) where
  -- A state with the same effects, costs and compensations.
  pub same-IsAccounted :
      (s t : View)
      → t.definition ≡ s.definition
      → t.effects ≡ s.effects
      → t.compensations ≡ s.compensations
      → t.budget.effects ≡ s.budget.effects
      → t.budget.cost_units_used ≡ s.budget.cost_units_used
      → t.budget.cost_units_reserved ≡ s.budget.cost_units_reserved
      → IsAccounted d s
      → IsAccounted d t
  same-IsAccounted s t df es cs n u r acc = record {
    frozen = df ∙ acc.frozen;
    reserved = r ∙ acc.reserved ∙ ap (λ x. pos (sum_of held x)) (sym es);
    used = u ∙ acc.used ∙ ap (λ x. pos (sum_of spent x)) (sym es);
    counted = n ∙ acc.counted ∙ ap length (sym es);
    priced = ap (sum_of unpriced) es ∙ acc.priced;
    undo_priced = ap (sum_of unpriced_undo) cs ∙ acc.undo_priced;
    affordable =
        subst (λ x. pos (sum_of held x + sum_of spent x) ≤ℤ d.content.policy.max_cost_units)
          (sym es) acc.affordable;
    room = subst (λ x. pos (length x) ≤ℤ d.content.limits.max_effects) (sym es) acc.room;
  }

  failing-state :
      (s : View) (status : RunStatus) (code cause : String)
      → (begin_failure s status code cause).state
        ≡ record s { failure = some (intent_of s status code cause) }
  unfolding begin_failure terminal_write
  failing-state s status code cause = elim (List-cases s.compensations) [
    | inl e ↦ ground arith
    | inr (c, (cs, e)) ↦ ground arith
  ]

  pub begin_failure-IsSound :
      (s : View) (status : RunStatus) (code cause : String)
      → IsSound d s
      → IsSound d (begin_failure s status code cause).state
  begin_failure-IsSound s status code cause h =
      subst (IsSound d) (sym (failing-state s status code cause)) (record {
        accounts =
            same-IsAccounted s (record s { failure = some (intent_of s status code cause) }) refl
              refl refl refl refl refl h.accounts;
        effect_ids = h.effect_ids;
      })

  -- One activation is changed, but for the effects that it lists.
  pub put_activation-IsSound :
      (s : View) (i : ℕ) (f : Activation → Activation)
      → ((a : Activation) → (f a).effect_ids ≡ a.effect_ids)
      → IsSound d s
      → IsSound d (put_activation s i f)
  put_activation-IsSound s i f k h = record {
    accounts = same-IsAccounted s (put_activation s i f) refl refl refl refl refl refl h.accounts;
    effect_ids =
        All-update_at HasDistinct i f s.activations (λ a. subst IsDistinct (sym (k a)))
          h.effect_ids;
  }

  abort_effect-IsSound : (s : View) (id : String) → IsSound d s → IsSound d (abort_effect s id)
  unfolding abort_effect
  abort_effect-IsSound s id h = elim (Option-cases (effect_index_by_id s.effects id)) [
    | inl n ↦ let k : abort_effect s id ≡ s = ground arith in subst (IsSound d) (sym k) h
    | inr (i, n) ↦ elim (Option-cases (get_elem? s.effects i)) [
      | inl g ↦ let k : abort_effect s id ≡ s = ground arith in subst (IsSound d) (sym k) h
      | inr (e, g) ↦ elim (Bool-cases (is_pending e.status)) [
        | inl p ↦
            let x = record e {
              status = EffectStatus.failed;
              error_code = "workflow.effect_aborted";
              error = "workflow effect failed";
            } in
            let k : abort_effect s id ≡ release_cost (put_effect s i x) e.max_cost_units =
              ground arith in
            subst (IsSound d) (sym k) (record {
              accounts = failed-IsAccounted d s h.accounts i e g x p refl refl;
              effect_ids = h.effect_ids;
            })
        | inr p ↦ let k : abort_effect s id ≡ s = ground arith in subst (IsSound d) (sym k) h
      ]
    ]
  ]

  pub abort-IsSound :
      (s : View) (ids : List String) → IsSound d s → IsSound d (abort_activation_effects s ids)
  unfolding abort_activation_effects
  abort-IsSound s [] h = h
  abort-IsSound s (id ∷ ids) h = abort-IsSound (abort_effect s id) ids (abort_effect-IsSound s id h)
