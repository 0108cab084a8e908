-- ===== src/Budget/Limiting.antt =====
-- go/agent-runtime/budget/budget.go: `TightenLimits` never widens a hard limit, and `Exceeded` finds
-- every crossed one.
use gaoge_agent_runtime.Prelude.{
  zero, suc, true, false, Option, none, some, ◌≡◌, ◌≢◌, ◌↔◌, refl, arith, ok,
}
use mathlib.Core.Path.{subst}
use gaoge_agent_runtime.Prelude.Int.{ℤ, pos, negsuc, is_negative, ◌≤ℤ◌}
use gaoge_agent_runtime.Budget.{
  Dimension, llm_calls, tool_calls, hosted_tool_calls, input_tokens, output_tokens, total_tokens,
  output_bytes, state_bytes, child_runs, cost_units, concurrent_runs, concurrent_descendants,
  Limits, Usage, valid_limits, tighten, tighten_limits, over, exceeded,
}

-- The ceiling of a dimension.
abbrev pub limit_of : Dimension → Limits → ℤ
limit_of llm_calls l = l.max_llm_calls
limit_of tool_calls l = l.max_tool_calls
limit_of hosted_tool_calls l = l.max_hosted_tool_calls
limit_of input_tokens l = l.max_input_tokens
limit_of output_tokens l = l.max_output_tokens
limit_of total_tokens l = l.max_total_tokens
limit_of output_bytes l = l.max_output_bytes
limit_of state_bytes l = l.max_state_bytes
limit_of child_runs l = l.max_child_runs
limit_of cost_units l = l.max_cost_units
limit_of concurrent_runs l = l.max_concurrent_runs
limit_of concurrent_descendants l = l.max_concurrent_descendants

-- The usage of a dimension; concurrency is not part of a usage ledger.
abbrev pub usage_of : Dimension → Usage → Option ℤ
usage_of llm_calls u = some u.llm_calls_used
usage_of tool_calls u = some u.tool_calls_used
usage_of hosted_tool_calls u = some u.hosted_tool_calls_used
usage_of input_tokens u = some u.input_tokens_used
usage_of output_tokens u = some u.output_tokens_used
usage_of total_tokens u = some u.total_tokens_used
usage_of output_bytes u = some u.output_bytes_used
usage_of state_bytes u = some u.state_bytes_used
usage_of child_runs u = some u.child_runs_used
usage_of cost_units u = some u.cost_units_used
usage_of concurrent_runs u = none
usage_of concurrent_descendants u = none

-- A limit that stands under both ceilings, where 0 is no ceiling.
pub record IsWithin (hard requested out : ℤ) : Type 0 where
  pub signed : is_negative out ≡ false
  pub under_hard : hard ≢ pos 0 → (out ≢ pos 0) × (out ≤ℤ hard)
  pub under_requested : requested ≢ pos 0 → (out ≢ pos 0) × (out ≤ℤ requested)

tighten-IsWithin :
    (h r : ℤ) → is_negative h ≡ false → is_negative r ≡ false → IsWithin h r (tighten h r)
unfolding tighten
tighten-IsWithin (pos zero) (pos zero) a b = ground arith
tighten-IsWithin (pos zero) (pos (suc n)) a b = ground arith
tighten-IsWithin (pos (suc m)) (pos zero) a b = ground arith
tighten-IsWithin (pos (suc m)) (pos (suc n)) a b = ground arith
tighten-IsWithin (pos zero) (negsuc n) a b = ground arith
tighten-IsWithin (pos (suc m)) (negsuc n) a b = ground arith
tighten-IsWithin (negsuc m) r a b = ground arith

valid_limits_lem :
    (d : Dimension) (l : Limits) → valid_limits l ≡ true → is_negative (limit_of d l) ≡ false
unfolding valid_limits
valid_limits_lem llm_calls l v = ground arith
valid_limits_lem tool_calls l v = ground arith
valid_limits_lem hosted_tool_calls l v = ground arith
valid_limits_lem input_tokens l v = ground arith
valid_limits_lem output_tokens l v = ground arith
valid_limits_lem total_tokens l v = ground arith
valid_limits_lem output_bytes l v = ground arith
valid_limits_lem state_bytes l v = ground arith
valid_limits_lem child_runs l v = ground arith
valid_limits_lem cost_units l v = ground arith
valid_limits_lem concurrent_runs l v = ground arith
valid_limits_lem concurrent_descendants l v = ground arith

limit_of-tighten :
    (h r out : Limits) (d : Dimension)
    → tighten_limits h r ≡ ok out
    → tighten (limit_of d h) (limit_of d r) ≡ limit_of d out
unfolding tighten_limits
limit_of-tighten h r out llm_calls e = ground arith
limit_of-tighten h r out tool_calls e = ground arith
limit_of-tighten h r out hosted_tool_calls e = ground arith
limit_of-tighten h r out input_tokens e = ground arith
limit_of-tighten h r out output_tokens e = ground arith
limit_of-tighten h r out total_tokens e = ground arith
limit_of-tighten h r out output_bytes e = ground arith
limit_of-tighten h r out state_bytes e = ground arith
limit_of-tighten h r out child_runs e = ground arith
limit_of-tighten h r out cost_units e = ground arith
limit_of-tighten h r out concurrent_runs e = ground arith
limit_of-tighten h r out concurrent_descendants e = ground arith

-- `TightenLimits` never widens: when it succeeds, each of the twelve limits is not negative, and is at most
-- the hard one and at most the requested one wherever these are ceilings, and then is itself a ceiling.
pub tighten_limits-IsWithin :
    (h r out : Limits) (d : Dimension)
    → tighten_limits h r ≡ ok out
    → IsWithin (limit_of d h) (limit_of d r) (limit_of d out)
unfolding tighten_limits
tighten_limits-IsWithin h r out d e =
    subst (IsWithin (limit_of d h) (limit_of d r)) (limit_of-tighten h r out d e) (
      tighten-IsWithin (limit_of d h) (limit_of d r) (valid_limits_lem d h (ground arith))
        (valid_limits_lem d r (ground arith)))

-- The usage of a dimension is under its limit, where it has one.
abbrev pub IsUnder : Limits → Usage → Dimension → Type 0
IsUnder l u d = (used : ℤ) → usage_of d u ≡ some used → over (limit_of d l) used ≡ false

exceeded-none-IsUnder :
    (l : Limits) (u : Usage) → exceeded l u ≡ none → (d : Dimension) → IsUnder l u d
unfolding exceeded
exceeded-none-IsUnder l u e llm_calls used p = ground arith
exceeded-none-IsUnder l u e tool_calls used p = ground arith
exceeded-none-IsUnder l u e hosted_tool_calls used p = ground arith
exceeded-none-IsUnder l u e input_tokens used p = ground arith
exceeded-none-IsUnder l u e output_tokens used p = ground arith
exceeded-none-IsUnder l u e total_tokens used p = ground arith
exceeded-none-IsUnder l u e output_bytes used p = ground arith
exceeded-none-IsUnder l u e state_bytes used p = ground arith
exceeded-none-IsUnder l u e child_runs used p = ground arith
exceeded-none-IsUnder l u e cost_units used p = ground arith
exceeded-none-IsUnder l u e concurrent_runs used p = cc
exceeded-none-IsUnder l u e concurrent_descendants used p = cc

exceeded-none : (l : Limits) (u : Usage) → ((d : Dimension) → IsUnder l u d) → exceeded l u ≡ none
unfolding exceeded
exceeded-none l u h = ground (
  arith,
  h llm_calls u.llm_calls_used refl,
  h tool_calls u.tool_calls_used refl,
  h hosted_tool_calls u.hosted_tool_calls_used refl,
  h input_tokens u.input_tokens_used refl,
  h output_tokens u.output_tokens_used refl,
  h total_tokens u.total_tokens_used refl,
  h output_bytes u.output_bytes_used refl,
  h state_bytes u.state_bytes_used refl,
  h child_runs u.child_runs_used refl,
  h cost_units u.cost_units_used refl,
)

-- `Exceeded` names no dimension exactly when every dimension that the usage counts is at most its limit, or
-- has none.
pub exceeded-IsUnder :
    (l : Limits) (u : Usage) → (exceeded l u ≡ none) ↔ ((d : Dimension) → IsUnder l u d)
exceeded-IsUnder l u = (exceeded-none-IsUnder l u, exceeded-none l u)
