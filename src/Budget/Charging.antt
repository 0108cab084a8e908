-- ===== src/Budget/Charging.antt =====
-- go/agent-runtime/budget/budget.go: what a charge for a call of the model adds.
use gaoge_agent_runtime.Prelude.{◌+◌, ◌≤◌, ◌<◌, true, some, ◌≡◌, arith, ok, Result-cases, inl, inr}
use gaoge_agent_runtime.Prelude.Int.{ℤ, pos, pos_part}
use gaoge_agent_runtime.Budget.{Usage, TokenUsage, max_int, checked_add, charge_model_call}
use gaoge_agent_runtime.Budget.Accounting.{
  valid_usage, valid_usage-tokens, checked_add_lem, checked_add-bound,
}

-- What one call with its token counts adds.
pub record IsCharged (u : Usage) (t : TokenUsage) (v : Usage) : Type 0 where
  pub calls : v.llm_calls_used ≡ pos (pos_part u.llm_calls_used + 1)
  pub input_added : v.input_tokens_used ≡ pos (pos_part u.input_tokens_used + pos_part t.input)
  pub output_added : v.output_tokens_used ≡ pos (pos_part u.output_tokens_used + pos_part t.output)
  pub total_added :
      v.total_tokens_used
      ≡ pos (pos_part u.total_tokens_used + (pos_part t.input + pos_part t.output))
  pub cache_read_added :
      v.cache_read_tokens ≡ pos (pos_part u.cache_read_tokens + pos_part t.cache_read)
  pub cache_write_added :
      v.cache_write_tokens ≡ pos (pos_part u.cache_write_tokens + pos_part t.cache_write)
  pub reasoning_added :
      v.reasoning_tokens ≡ pos (pos_part u.reasoning_tokens + pos_part t.reasoning)
  pub tools_kept : v.tool_calls_used ≡ u.tool_calls_used
  pub hosted_tools_kept : v.hosted_tool_calls_used ≡ u.hosted_tool_calls_used
  pub output_bytes_kept : v.output_bytes_used ≡ u.output_bytes_used
  pub state_bytes_kept : v.state_bytes_used ≡ u.state_bytes_used
  pub child_runs_kept : v.child_runs_used ≡ u.child_runs_used
  pub cost_kept : v.cost_units_used ≡ u.cost_units_used

charge_total :
    (u v : Usage) (t : TokenUsage)
    → charge_model_call u (some t) ≡ ok v
    → v.total_tokens_used
      ≡ pos (pos_part u.total_tokens_used + (pos_part t.input + pos_part t.output))
unfolding charge_model_call
charge_total u v t e = ground arith

charge-IsCharged :
    (u v : Usage) (t : TokenUsage)
    → valid_usage u ≡ true
    → pos_part u.llm_calls_used < max_int
    → charge_model_call u (some t) ≡ ok v
    → IsCharged u t v
unfolding charge_model_call valid_usage
charge-IsCharged u v t h b e = record {
  calls = ground arith;
  input_added = ground (arith, checked_add_lem u.input_tokens_used t.input v.input_tokens_used);
  output_added = ground (arith, checked_add_lem u.output_tokens_used t.output v.output_tokens_used);
  total_added = charge_total u v t e;
  cache_read_added =
      ground (arith, checked_add_lem u.cache_read_tokens t.cache_read v.cache_read_tokens);
  cache_write_added =
      ground (arith, checked_add_lem u.cache_write_tokens t.cache_write v.cache_write_tokens);
  reasoning_added =
      ground (arith, checked_add_lem u.reasoning_tokens t.reasoning v.reasoning_tokens);
  tools_kept = ground arith;
  hosted_tools_kept = ground arith;
  output_bytes_kept = ground arith;
  state_bytes_kept = ground arith;
  child_runs_kept = ground arith;
  cost_kept = ground arith;
}

-- What is left of the chain of a charge.
charge-total :
    (u v : Usage) (t : TokenUsage)
    → charge_model_call u (some t) ≡ ok v
    → (c : ℤ) × (checked_add t.input t.output ≡ ok c)
      × (checked_add u.total_tokens_used c ≡ ok v.total_tokens_used)
unfolding charge_model_call
charge-total u v t e = elim (Result-cases (checked_add t.input t.output)) [
  | inl (x, p) ↦ absurd (ground arith)
  | inr (c, p) ↦ (c, p, ground arith)
]

charge-total_bound :
    (u v : Usage) (t : TokenUsage)
    → valid_usage u ≡ true
    → pos_part t.input ≤ max_int
    → pos_part t.output ≤ max_int
    → charge_model_call u (some t) ≡ ok v
    → pos_part v.total_tokens_used ≤ max_int
charge-total_bound u v t h i o e =
    let (c, p, q) = charge-total u v t e in
    checked_add-bound u.total_tokens_used c v.total_tokens_used (valid_usage-tokens u h).1
      (checked_add-bound t.input t.output c i o p) q

-- A charge with token counts that are int64 and that succeeds on a valid usage, whose calls are below the
-- largest int, keeps the total of the tokens within int64 and equal to the input and output tokens, and
-- adds one call and the input, output, cache read, cache write and reasoning tokens, each sum exact; the tool
-- calls, the bytes, the child Runs and the cost stay as they were.
pub charge_model_call_lem :
    (u v : Usage) (t : TokenUsage)
    → valid_usage u ≡ true
    → pos_part u.llm_calls_used < max_int
    → pos_part t.input ≤ max_int
    → pos_part t.output ≤ max_int
    → charge_model_call u (some t) ≡ ok v
    → IsCharged u t v
      × (pos_part v.total_tokens_used
          ≡ pos_part v.input_tokens_used + pos_part v.output_tokens_used)
      × (pos_part v.total_tokens_used ≤ max_int)
charge_model_call_lem u v t h b i o e =
    let c = charge-IsCharged u v t h b e in
    (
      c,
      ground (arith, valid_usage-tokens u h, c.input_added, c.output_added, c.total_added),
      charge-total_bound u v t h i o e,
    )
