-- ===== src/Execution/Sums.antt =====
-- go/agent-runtime/workflow/execution.go: what the effects of a state hold and have cost.
use gaoge_agent_runtime.Prelude.{
  ℕ, zero, suc, ◌+◌, ◌≤◌, Bool, true, false, some, List, [], ◌∷◌, ◌++◌, get_elem?, update_at,
  length, ◌≡◌, refl, ap, arith, if◌then◌else◌,
}
use gaoge_agent_runtime.Prelude.Int.{pos_part, is_negative}
use gaoge_agent_runtime.Execution.{Effect, EffectStatus}
use gaoge_agent_runtime.Execution.Failing.{is_pending}

unfoldable pub sum_of : {A : Type 0} → (A → ℕ) → List A → ℕ
sum_of f [] = 0
sum_of f (x ∷ xs) = f x + sum_of f xs

module _ {A : Type 0} (f : A → ℕ) where
  pub sum-update_at :
      (i : ℕ) (x y : A) (xs : List A)
      → get_elem? xs i ≡ some x
      → sum_of f (update_at i (λ _. y) xs) + f x ≡ sum_of f xs + f y
  unfolding sum_of get_elem? update_at
  sum-update_at i x y [] h = absurd (ground arith)
  sum-update_at zero x y (z ∷ xs) h = let e : z ≡ x = ground arith in omega (arith, ap f e)
  sum-update_at (suc i) x y (z ∷ xs) h = omega (arith, sum-update_at i x y xs h)

  pub sum-append : (xs ys : List A) → sum_of f (xs ++ ys) ≡ sum_of f xs + sum_of f ys
  unfolding sum_of
  sum-append [] ys = omega arith
  sum-append (x ∷ xs) ys = omega (arith, sum-append xs ys)

  pub sum-member : (i : ℕ) (x : A) (xs : List A) → get_elem? xs i ≡ some x → f x ≤ sum_of f xs
  unfolding sum_of get_elem?
  sum-member i x [] h = absurd (ground arith)
  sum-member zero x (z ∷ xs) h = let e : z ≡ x = ground arith in omega (arith, ap f e)
  sum-member (suc i) x (z ∷ xs) h = omega (arith, sum-member i x xs h)

pub length-update_at :
    {A : Type 0} (i : ℕ) (f : A → A) (xs : List A) → length (update_at i f xs) ≡ length xs
unfolding update_at
length-update_at i f [] = refl
length-update_at zero f (x ∷ xs) = refl
length-update_at (suc i) f (x ∷ xs) = omega (arith, length-update_at i f xs)

-- What an effect holds while it is pending.
abbrev pub held : Effect → ℕ
held e = if is_pending e.status then pos_part e.max_cost_units else 0

abbrev is_settled : EffectStatus → Bool
is_settled EffectStatus.completed = true
is_settled _ = false

-- What an effect has cost once it is completed.
abbrev pub spent : Effect → ℕ
spent e = if is_settled e.status then pos_part e.cost_units else 0

-- An effect whose limit is negative counts one, so that a sum of 0 has none.
abbrev pub unpriced : Effect → ℕ
unpriced e = if is_negative e.max_cost_units then 1 else 0
