-- ===== src/Budget.antt =====
-- go/agent-runtime/budget/budget.go and ledger_usage.go: limits, usage and their arithmetic. An `int`
-- and an `int64` are integers from -(2 ^ 63) to 2 ^ 63 - 1; only `ChargeModelCall` adds without a check.
pub mod Limiting
pub mod Accounting
pub mod Charging
pub mod Ledger
pub mod Coordinator
pub mod Settlement
pub mod Steps
pub mod Receipts
pub mod Transfers
pub mod Changes
pub mod Admission
pub mod Ancestry
use gaoge_agent_runtime.Prelude.{
  ℕ, zero, suc, ◌+◌, ◌-◌, ltb, Bool, true, false, not, ◌&&◌, ◌||◌, Option, none, some,
  if◌then◌else◌, Result, ok, err, ◌>>=◌,
}
use gaoge_agent_runtime.Prelude.Int.{ℤ, pos, negsuc, pos_part, ltb_ℤ, is_negative}

-- `ErrInvalidUsage`.
pub data Error : Type 0 where
  invalid_usage : Error

pub data Dimension : Type 0 where
  llm_calls tool_calls hosted_tool_calls input_tokens output_tokens total_tokens output_bytes
        state_bytes child_runs cost_units :
      Dimension
  concurrent_runs concurrent_descendants : Dimension

pub record Limits : Type 0 where
  pub max_llm_calls : ℤ
  pub max_tool_calls : ℤ
  pub max_hosted_tool_calls : ℤ
  pub max_input_tokens : ℤ
  pub max_output_tokens : ℤ
  pub max_total_tokens : ℤ
  pub max_output_bytes : ℤ
  pub max_state_bytes : ℤ
  pub max_child_runs : ℤ
  pub max_cost_units : ℤ
  pub max_concurrent_runs : ℤ
  pub max_concurrent_descendants : ℤ

pub record Usage : Type 0 where
  pub llm_calls_used : ℤ
  pub tool_calls_used : ℤ
  pub hosted_tool_calls_used : ℤ
  pub input_tokens_used : ℤ
  pub output_tokens_used : ℤ
  pub total_tokens_used : ℤ
  pub cache_read_tokens : ℤ
  pub cache_write_tokens : ℤ
  pub reasoning_tokens : ℤ
  pub output_bytes_used : ℤ
  pub state_bytes_used : ℤ
  pub child_runs_used : ℤ
  pub cost_units_used : ℤ

pub record TokenUsage : Type 0 where
  pub input : ℤ
  pub output : ℤ
  pub cache_read : ℤ
  pub cache_write : ℤ
  pub reasoning : ℤ

abbrev pub max_int : ℕ
max_int = 9223372036854775807

-- `ValidLimits`.
unfoldable pub valid_limits : Limits → Bool
valid_limits l =
    not (is_negative l.max_llm_calls)
    && not (is_negative l.max_tool_calls)
    && not (is_negative l.max_hosted_tool_calls)
    && not (is_negative l.max_input_tokens)
    && not (is_negative l.max_output_tokens)
    && not (is_negative l.max_total_tokens)
    && not (is_negative l.max_output_bytes)
    && not (is_negative l.max_state_bytes)
    && not (is_negative l.max_child_runs)
    && not (is_negative l.max_cost_units)
    && not (is_negative l.max_concurrent_runs)
    && not (is_negative l.max_concurrent_descendants)

-- `resolved.Max == 0` takes the default.
abbrev pub or_default : ℤ → ℤ → ℤ
or_default (pos zero) d = d
or_default (pos (suc n)) d = pos (suc n)
or_default (negsuc n) d = negsuc n

-- `ResolveLimits`.
unfoldable pub resolve_limits : Limits → Limits → Result Error Limits
resolve_limits d r =
    if not (valid_limits d) || not (valid_limits r)
    then err invalid_usage
    else ok (record {
      max_llm_calls = or_default r.max_llm_calls d.max_llm_calls;
      max_tool_calls = or_default r.max_tool_calls d.max_tool_calls;
      max_hosted_tool_calls = or_default r.max_hosted_tool_calls d.max_hosted_tool_calls;
      max_input_tokens = or_default r.max_input_tokens d.max_input_tokens;
      max_output_tokens = or_default r.max_output_tokens d.max_output_tokens;
      max_total_tokens = or_default r.max_total_tokens d.max_total_tokens;
      max_output_bytes = or_default r.max_output_bytes d.max_output_bytes;
      max_state_bytes = or_default r.max_state_bytes d.max_state_bytes;
      max_child_runs = or_default r.max_child_runs d.max_child_runs;
      max_cost_units = or_default r.max_cost_units d.max_cost_units;
      max_concurrent_runs = or_default r.max_concurrent_runs d.max_concurrent_runs;
      max_concurrent_descendants =
          or_default r.max_concurrent_descendants d.max_concurrent_descendants;
    })

-- `tightenInt` and `tightenInt64`.
unfoldable pub tighten : ℤ → ℤ → ℤ
tighten hard (pos zero) = hard
tighten (pos zero) requested = requested
tighten hard requested = if ltb_ℤ requested hard then requested else hard

-- `TightenLimits`.
unfoldable pub tighten_limits : Limits → Limits → Result Error Limits
unfolding tighten
tighten_limits h r =
    if not (valid_limits h) || not (valid_limits r)
    then err invalid_usage
    else ok (record {
      max_llm_calls = tighten h.max_llm_calls r.max_llm_calls;
      max_tool_calls = tighten h.max_tool_calls r.max_tool_calls;
      max_hosted_tool_calls = tighten h.max_hosted_tool_calls r.max_hosted_tool_calls;
      max_input_tokens = tighten h.max_input_tokens r.max_input_tokens;
      max_output_tokens = tighten h.max_output_tokens r.max_output_tokens;
      max_total_tokens = tighten h.max_total_tokens r.max_total_tokens;
      max_output_bytes = tighten h.max_output_bytes r.max_output_bytes;
      max_state_bytes = tighten h.max_state_bytes r.max_state_bytes;
      max_child_runs = tighten h.max_child_runs r.max_child_runs;
      max_cost_units = tighten h.max_cost_units r.max_cost_units;
      max_concurrent_runs = tighten h.max_concurrent_runs r.max_concurrent_runs;
      max_concurrent_descendants =
          tighten h.max_concurrent_descendants r.max_concurrent_descendants;
    })

-- `limit > 0 && used > limit`.
abbrev pub over : ℤ → ℤ → Bool
over limit used = ltb_ℤ (pos 0) limit && ltb_ℤ limit used

-- `Exceeded`; `none` is the empty dimension.
unfoldable pub exceeded : Limits → Usage → Option Dimension
exceeded l u =
    if over l.max_llm_calls u.llm_calls_used
    then some llm_calls
    else if over l.max_tool_calls u.tool_calls_used
    then some tool_calls
    else if over l.max_hosted_tool_calls u.hosted_tool_calls_used
    then some hosted_tool_calls
    else if over l.max_input_tokens u.input_tokens_used
    then some input_tokens
    else if over l.max_output_tokens u.output_tokens_used
    then some output_tokens
    else if over l.max_total_tokens u.total_tokens_used
    then some total_tokens
    else if over l.max_output_bytes u.output_bytes_used
    then some output_bytes
    else if over l.max_state_bytes u.state_bytes_used
    then some state_bytes
    else if over l.max_child_runs u.child_runs_used
    then some child_runs
    else if over l.max_cost_units u.cost_units_used
    then some cost_units
    else none

-- `checkedAdd`: a sum of two that are not negative, unless it passes the largest int64. The two are
-- int64, so the subtraction does not stop at 0.
unfoldable pub checked_add : ℤ → ℤ → Result Error ℤ
checked_add (pos a) (pos b) =
    if ltb 0 b && ltb (max_int - b) a then err invalid_usage else ok (pos (a + b))
checked_add (pos a) (negsuc b) = err invalid_usage
checked_add (negsuc a) b = err invalid_usage

-- `value++` on an int.
abbrev pub next_int : ℤ → ℤ
next_int (pos n) = if ltb n max_int then pos (suc n) else negsuc max_int
next_int (negsuc zero) = pos 0
next_int (negsuc (suc n)) = negsuc n

abbrev pub any_negative : TokenUsage → Bool
any_negative t =
    is_negative t.input
    || is_negative t.output
    || is_negative t.cache_read
    || is_negative t.cache_write
    || is_negative t.reasoning

-- `ChargeModelCall`.
unfoldable pub charge_model_call : Usage → Option TokenUsage → Result Error Usage
unfolding checked_add
charge_model_call u none = ok (record u { llm_calls_used = next_int u.llm_calls_used })
charge_model_call u (some t) = if any_negative t then err invalid_usage else do
  input ← checked_add u.input_tokens_used t.input
  output ← checked_add u.output_tokens_used t.output
  call_total ← checked_add t.input t.output
  total ← checked_add u.total_tokens_used call_total
  cache_read ← checked_add u.cache_read_tokens t.cache_read
  cache_write ← checked_add u.cache_write_tokens t.cache_write
  reasoning ← checked_add u.reasoning_tokens t.reasoning
  ok (record u {
    llm_calls_used = next_int u.llm_calls_used;
    input_tokens_used = input;
    output_tokens_used = output;
    total_tokens_used = total;
    cache_read_tokens = cache_read;
    cache_write_tokens = cache_write;
    reasoning_tokens = reasoning;
  })
