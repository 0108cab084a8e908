-- ===== src/Tests/Budgets.antt =====
-- The theorems on go/agent-runtime/budget, applied to sample limits and usages.
use gaoge_agent_runtime.Prelude.{ℕ, ◌+◌, ◌≤◌, ◌<◌, ◌↔◌, ◌≡◌, refl, arith, true, none, some, ok}
use gaoge_agent_runtime.Prelude.Int.{pos, pos_part}
use gaoge_agent_runtime.Budget.{
  Limits, Usage, TokenUsage, Dimension, llm_calls, max_int, tighten_limits, valid_limits, tighten,
  exceeded, checked_add, charge_model_call,
}
use gaoge_agent_runtime.Budget.Limiting.{
  IsWithin, IsUnder, tighten_limits-IsWithin, exceeded-IsUnder,
}
use gaoge_agent_runtime.Budget.Accounting.{
  valid_usage, add_usage, add_int, IsSum, IsSummable, IsInt64, add_usage_lem,
}
use gaoge_agent_runtime.Budget.Charging.{IsCharged, charge_model_call_lem}

abbrev limits : ℕ → Limits
limits n = record {
  max_llm_calls = pos n;
  max_tool_calls = pos 0;
  max_hosted_tool_calls = pos 0;
  max_input_tokens = pos 0;
  max_output_tokens = pos 0;
  max_total_tokens = pos 1000;
  max_output_bytes = pos 0;
  max_state_bytes = pos 0;
  max_child_runs = pos 3;
  max_cost_units = pos 0;
  max_concurrent_runs = pos 2;
  max_concurrent_descendants = pos 0;
}

abbrev usage : ℕ → ℕ → ℕ → Usage
usage calls input output = record {
  llm_calls_used = pos calls;
  tool_calls_used = pos 1;
  hosted_tool_calls_used = pos 0;
  input_tokens_used = pos input;
  output_tokens_used = pos output;
  total_tokens_used = pos (input + output);
  cache_read_tokens = pos 0;
  cache_write_tokens = pos 0;
  reasoning_tokens = pos 4;
  output_bytes_used = pos 0;
  state_bytes_used = pos 9;
  child_runs_used = pos 0;
  cost_units_used = pos 2;
}

abbrev summed : Usage
summed = record (usage 5 30 12) {
  tool_calls_used = pos 2;
  reasoning_tokens = pos 8;
  state_bytes_used = pos 18;
  cost_units_used = pos 4;
}

abbrev observed : TokenUsage
observed = record {
  input = pos 20;
  output = pos 5;
  cache_read = pos 0;
  cache_write = pos 0;
  reasoning = pos 1;
}

tightened : tighten_limits (limits 5) (limits 9) ≡ ok (limits 5)
unfolding tighten_limits valid_limits tighten
tightened = refl

tighten_limits-IsWithin_example : IsWithin (pos 5) (pos 9) (pos 5)
tighten_limits-IsWithin_example =
    tighten_limits-IsWithin (limits 5) (limits 9) (limits 5) llm_calls tightened

exceeded-IsUnder_example :
    (exceeded (limits 5) (usage 2 10 4) ≡ none)
    ↔ ((d : Dimension) → IsUnder (limits 5) (usage 2 10 4) d)
exceeded-IsUnder_example = exceeded-IsUnder (limits 5) (usage 2 10 4)

usage_valid : valid_usage (usage 2 10 4) ≡ true
unfolding valid_usage
usage_valid = refl

other_valid : valid_usage (usage 3 20 8) ≡ true
unfolding valid_usage
other_valid = refl

sample-IsSummable : IsSummable (usage 2 10 4) (usage 3 20 8)
sample-IsSummable = record {
  llm_calls_used_fits = omega arith;
  tool_calls_used_fits = omega arith;
  hosted_tool_calls_used_fits = omega arith;
  child_runs_used_fits = omega arith;
  output_bytes_used_fits = omega arith;
  state_bytes_used_fits = omega arith;
  input_tokens_used_fits = omega arith;
  output_tokens_used_fits = omega arith;
  total_tokens_used_fits = omega arith;
  cache_read_tokens_fits = omega arith;
  cache_write_tokens_fits = omega arith;
  reasoning_tokens_fits = omega arith;
  cost_units_used_fits = omega arith;
}

usages_added : add_usage (usage 2 10 4) (usage 3 20 8) ≡ ok summed
unfolding add_usage add_int valid_usage checked_add
usages_added = refl

usage-IsInt64 :
    (calls input output : ℕ)
    → calls < 1000
    → input < 1000
    → output < 1000
    → IsInt64 (usage calls input output)
usage-IsInt64 calls input output h k l = record {
  llm_calls_used_bound = omega arith;
  tool_calls_used_bound = omega arith;
  hosted_tool_calls_used_bound = omega arith;
  child_runs_used_bound = omega arith;
  output_bytes_used_bound = omega arith;
  state_bytes_used_bound = omega arith;
  input_tokens_used_bound = omega arith;
  output_tokens_used_bound = omega arith;
  total_tokens_used_bound = omega arith;
  cache_read_tokens_bound = omega arith;
  cache_write_tokens_bound = omega arith;
  reasoning_tokens_bound = omega arith;
  cost_units_used_bound = omega arith;
}

add_usage_lem_example :
    (valid_usage summed ≡ true)
    × IsSum (usage 2 10 4) (usage 3 20 8) summed
    × IsSummable (usage 2 10 4) (usage 3 20 8)
add_usage_lem_example =
    add_usage_lem (usage 2 10 4) (usage 3 20 8) summed
      (usage-IsInt64 2 10 4 (omega arith) (omega arith) (omega arith))
      (usage-IsInt64 3 20 8 (omega arith) (omega arith) (omega arith)) usages_added

abbrev charged : Usage
charged = record (usage 3 30 9) { reasoning_tokens = pos 5 }

call_charged : charge_model_call (usage 2 10 4) (some observed) ≡ ok charged
unfolding charge_model_call checked_add
call_charged = refl

charge_model_call_lem_example :
    IsCharged (usage 2 10 4) observed charged
    × (pos_part charged.total_tokens_used
        ≡ pos_part charged.input_tokens_used + pos_part charged.output_tokens_used)
    × (pos_part charged.total_tokens_used ≤ max_int)
charge_model_call_lem_example =
    charge_model_call_lem (usage 2 10 4) charged observed usage_valid (omega arith) (omega arith)
      (omega arith) call_charged
