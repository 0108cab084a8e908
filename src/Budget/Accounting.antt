-- ===== src/Budget/Accounting.antt =====
-- go/agent-runtime/budget/ledger_usage.go: `ValidUsage` and `AddUsage`.
use gaoge_agent_runtime.Prelude.{
  ◌+◌, ◌-◌, ◌≤◌, ◌==◌, ltb, Bool, true, false, not, ◌||◌, ◌≡◌, arith, if◌then◌else◌, Result, ok,
  err, is_ok, ◌>>=◌,
}
use gaoge_agent_runtime.Prelude.Int.{ℤ, pos, negsuc, pos_part, is_negative}
use gaoge_agent_runtime.Budget.{Error, invalid_usage, Usage, max_int, checked_add}

-- `ValidUsage`. `InputTokens > MaxInt64 - OutputTokens`, where the difference is exact, compares the sum.
unfoldable pub valid_usage : Usage → Bool
valid_usage u =
    if is_negative u.llm_calls_used
      || is_negative u.tool_calls_used
      || is_negative u.hosted_tool_calls_used
      || is_negative u.input_tokens_used
      || is_negative u.output_tokens_used
      || is_negative u.total_tokens_used
      || is_negative u.cache_read_tokens
      || is_negative u.cache_write_tokens
      || is_negative u.reasoning_tokens
      || is_negative u.output_bytes_used
      || is_negative u.state_bytes_used
      || is_negative u.child_runs_used
      || is_negative u.cost_units_used
    then false
    else if ltb max_int (pos_part u.input_tokens_used + pos_part u.output_tokens_used)
    then false
    else pos_part u.total_tokens_used
      == pos_part u.input_tokens_used + pos_part u.output_tokens_used

-- The sum of two that are not negative, without a wrap.
pub checked_add_lem :
    (a b c : ℤ)
    → checked_add a b ≡ ok c
    → (is_negative a ≡ false) × (is_negative b ≡ false) × (c ≡ pos (pos_part a + pos_part b))
unfolding checked_add
checked_add_lem (pos a) (pos b) c e = ground arith
checked_add_lem (pos a) (negsuc b) c e = ground arith
checked_add_lem (negsuc a) b c e = ground arith

pub checked_add-bound :
    (a b c : ℤ)
    → pos_part a ≤ max_int
    → pos_part b ≤ max_int
    → checked_add a b ≡ ok c
    → pos_part c ≤ max_int
unfolding checked_add
checked_add-bound (pos a) (pos b) c h k e = ground arith
checked_add-bound (pos a) (negsuc b) c h k e = ground arith
checked_add-bound (negsuc a) b c h k e = ground arith

-- The first loop of `AddUsage`, on two that are not negative.
unfoldable pub add_int : ℤ → ℤ → Result Error ℤ
add_int a b =
    if ltb (max_int - pos_part b) (pos_part a)
    then err invalid_usage
    else ok (pos (pos_part a + pos_part b))

-- `AddUsage`.
unfoldable pub add_usage : Usage → Usage → Result Error Usage
unfolding valid_usage add_int
add_usage l r = if not (valid_usage l) || not (valid_usage r) then err invalid_usage else do
  llm ← add_int l.llm_calls_used r.llm_calls_used
  tool ← add_int l.tool_calls_used r.tool_calls_used
  hosted ← add_int l.hosted_tool_calls_used r.hosted_tool_calls_used
  child ← add_int l.child_runs_used r.child_runs_used
  output_bytes ← add_int l.output_bytes_used r.output_bytes_used
  state_bytes ← add_int l.state_bytes_used r.state_bytes_used
  input ← checked_add l.input_tokens_used r.input_tokens_used
  output ← checked_add l.output_tokens_used r.output_tokens_used
  total ← checked_add l.total_tokens_used r.total_tokens_used
  cache_read ← checked_add l.cache_read_tokens r.cache_read_tokens
  cache_write ← checked_add l.cache_write_tokens r.cache_write_tokens
  reasoning ← checked_add l.reasoning_tokens r.reasoning_tokens
  cost ← checked_add l.cost_units_used r.cost_units_used
  ok (record {
    llm_calls_used = llm;
    tool_calls_used = tool;
    hosted_tool_calls_used = hosted;
    input_tokens_used = input;
    output_tokens_used = output;
    total_tokens_used = total;
    cache_read_tokens = cache_read;
    cache_write_tokens = cache_write;
    reasoning_tokens = reasoning;
    output_bytes_used = output_bytes;
    state_bytes_used = state_bytes;
    child_runs_used = child;
    cost_units_used = cost;
  })

-- Each field of a sum is the sum of the two.
pub record IsSum (l r u : Usage) : Type 0 where
  pub llm_calls_sum : u.llm_calls_used ≡ pos (pos_part l.llm_calls_used + pos_part r.llm_calls_used)
  pub tool_calls_sum :
      u.tool_calls_used ≡ pos (pos_part l.tool_calls_used + pos_part r.tool_calls_used)
  pub hosted_tool_calls_sum :
      u.hosted_tool_calls_used
      ≡ pos (pos_part l.hosted_tool_calls_used + pos_part r.hosted_tool_calls_used)
  pub input_tokens_sum :
      u.input_tokens_used ≡ pos (pos_part l.input_tokens_used + pos_part r.input_tokens_used)
  pub output_tokens_sum :
      u.output_tokens_used ≡ pos (pos_part l.output_tokens_used + pos_part r.output_tokens_used)
  pub total_tokens_sum :
      u.total_tokens_used ≡ pos (pos_part l.total_tokens_used + pos_part r.total_tokens_used)
  pub cache_read_tokens_sum :
      u.cache_read_tokens ≡ pos (pos_part l.cache_read_tokens + pos_part r.cache_read_tokens)
  pub cache_write_tokens_sum :
      u.cache_write_tokens ≡ pos (pos_part l.cache_write_tokens + pos_part r.cache_write_tokens)
  pub reasoning_tokens_sum :
      u.reasoning_tokens ≡ pos (pos_part l.reasoning_tokens + pos_part r.reasoning_tokens)
  pub output_bytes_sum :
      u.output_bytes_used ≡ pos (pos_part l.output_bytes_used + pos_part r.output_bytes_used)
  pub state_bytes_sum :
      u.state_bytes_used ≡ pos (pos_part l.state_bytes_used + pos_part r.state_bytes_used)
  pub child_runs_sum :
      u.child_runs_used ≡ pos (pos_part l.child_runs_used + pos_part r.child_runs_used)
  pub cost_units_sum :
      u.cost_units_used ≡ pos (pos_part l.cost_units_used + pos_part r.cost_units_used)

add_usage-IsSum : (l r u : Usage) → add_usage l r ≡ ok u → IsSum l r u
unfolding add_usage add_int
add_usage-IsSum l r u e = record {
  llm_calls_sum = ground arith;
  tool_calls_sum = ground arith;
  hosted_tool_calls_sum = ground arith;
  input_tokens_sum =
      ground (arith, checked_add_lem l.input_tokens_used r.input_tokens_used u.input_tokens_used);
  output_tokens_sum =
      ground
        (arith, checked_add_lem l.output_tokens_used r.output_tokens_used u.output_tokens_used);
  total_tokens_sum =
      ground (arith, checked_add_lem l.total_tokens_used r.total_tokens_used u.total_tokens_used);
  cache_read_tokens_sum =
      ground (arith, checked_add_lem l.cache_read_tokens r.cache_read_tokens u.cache_read_tokens);
  cache_write_tokens_sum =
      ground
        (arith, checked_add_lem l.cache_write_tokens r.cache_write_tokens u.cache_write_tokens);
  reasoning_tokens_sum =
      ground (arith, checked_add_lem l.reasoning_tokens r.reasoning_tokens u.reasoning_tokens);
  output_bytes_sum = ground arith;
  state_bytes_sum = ground arith;
  child_runs_sum = ground arith;
  cost_units_sum =
      ground (arith, checked_add_lem l.cost_units_used r.cost_units_used u.cost_units_used);
}

-- What `ValidUsage` says of the tokens.
pub valid_usage-tokens :
    (u : Usage)
    → valid_usage u ≡ true
    → (pos_part u.total_tokens_used ≡ pos_part u.input_tokens_used + pos_part u.output_tokens_used)
      × (pos_part u.total_tokens_used ≤ max_int)
unfolding valid_usage
valid_usage-tokens u h = ground arith

add_usage-total :
    (l r u : Usage)
    → add_usage l r ≡ ok u
    → (valid_usage l ≡ true)
      × (valid_usage r ≡ true)
      × (checked_add l.total_tokens_used r.total_tokens_used ≡ ok u.total_tokens_used)
unfolding add_usage
add_usage-total l r u e = ground arith

-- A usage with no negative field and consistent tokens is valid.
valid_of_sum :
    (l r u : Usage)
    → IsSum l r u
    → pos_part u.total_tokens_used ≡ pos_part u.input_tokens_used + pos_part u.output_tokens_used
    → pos_part u.total_tokens_used ≤ max_int
    → valid_usage u ≡ true
unfolding valid_usage
valid_of_sum l r u s e b = ground arith

add_usage-valid : (l r u : Usage) → add_usage l r ≡ ok u → valid_usage u ≡ true
add_usage-valid l r u e =
    let s = add_usage-IsSum l r u e in
    let (vl, vr, c) = add_usage-total l r u e in
    let (tl, bl) = valid_usage-tokens l vl in
    let (tr, br) = valid_usage-tokens r vr in
    valid_of_sum l r u s
      (ground (arith, s.total_tokens_sum, s.input_tokens_sum, s.output_tokens_sum))
      (checked_add-bound l.total_tokens_used r.total_tokens_used u.total_tokens_used bl br c)

-- Every sum is within int64.
pub record IsSummable (l r : Usage) : Type 0 where
  pub llm_calls_used_fits : pos_part l.llm_calls_used + pos_part r.llm_calls_used ≤ max_int
  pub tool_calls_used_fits : pos_part l.tool_calls_used + pos_part r.tool_calls_used ≤ max_int
  pub hosted_tool_calls_used_fits :
      pos_part l.hosted_tool_calls_used + pos_part r.hosted_tool_calls_used ≤ max_int
  pub child_runs_used_fits : pos_part l.child_runs_used + pos_part r.child_runs_used ≤ max_int
  pub output_bytes_used_fits : pos_part l.output_bytes_used + pos_part r.output_bytes_used ≤ max_int
  pub state_bytes_used_fits : pos_part l.state_bytes_used + pos_part r.state_bytes_used ≤ max_int
  pub input_tokens_used_fits : pos_part l.input_tokens_used + pos_part r.input_tokens_used ≤ max_int
  pub output_tokens_used_fits :
      pos_part l.output_tokens_used + pos_part r.output_tokens_used ≤ max_int
  pub total_tokens_used_fits : pos_part l.total_tokens_used + pos_part r.total_tokens_used ≤ max_int
  pub cache_read_tokens_fits : pos_part l.cache_read_tokens + pos_part r.cache_read_tokens ≤ max_int
  pub cache_write_tokens_fits :
      pos_part l.cache_write_tokens + pos_part r.cache_write_tokens ≤ max_int
  pub reasoning_tokens_fits : pos_part l.reasoning_tokens + pos_part r.reasoning_tokens ≤ max_int
  pub cost_units_used_fits : pos_part l.cost_units_used + pos_part r.cost_units_used ≤ max_int

checked_add-fits :
    (a b : ℤ)
    → is_negative a ≡ false
    → is_negative b ≡ false
    → pos_part a + pos_part b ≤ max_int
    → checked_add a b ≡ ok (pos (pos_part a + pos_part b))
unfolding checked_add
checked_add-fits (pos a) (pos b) m n h = ground arith
checked_add-fits (pos a) (negsuc b) m n h = cc
checked_add-fits (negsuc a) b m n h = cc

-- `AddUsage` succeeds on two valid usages each of whose thirteen sums is at most the largest int64.
pub add_usage-ok :
    (l r : Usage)
    → valid_usage l ≡ true
    → valid_usage r ≡ true
    → IsSummable l r
    → is_ok (add_usage l r) ≡ true
unfolding add_usage add_int valid_usage
add_usage-ok l r vl vr h = ground (
  arith,
  h,
  checked_add-fits l.input_tokens_used r.input_tokens_used,
  checked_add-fits l.output_tokens_used r.output_tokens_used,
  checked_add-fits l.total_tokens_used r.total_tokens_used,
  checked_add-fits l.cache_read_tokens r.cache_read_tokens,
  checked_add-fits l.cache_write_tokens r.cache_write_tokens,
  checked_add-fits l.reasoning_tokens r.reasoning_tokens,
  checked_add-fits l.cost_units_used r.cost_units_used,
)

-- Every field is an int64.
pub record IsInt64 (u : Usage) : Type 0 where
  pub llm_calls_used_bound : pos_part u.llm_calls_used ≤ max_int
  pub tool_calls_used_bound : pos_part u.tool_calls_used ≤ max_int
  pub hosted_tool_calls_used_bound : pos_part u.hosted_tool_calls_used ≤ max_int
  pub child_runs_used_bound : pos_part u.child_runs_used ≤ max_int
  pub output_bytes_used_bound : pos_part u.output_bytes_used ≤ max_int
  pub state_bytes_used_bound : pos_part u.state_bytes_used ≤ max_int
  pub input_tokens_used_bound : pos_part u.input_tokens_used ≤ max_int
  pub output_tokens_used_bound : pos_part u.output_tokens_used ≤ max_int
  pub total_tokens_used_bound : pos_part u.total_tokens_used ≤ max_int
  pub cache_read_tokens_bound : pos_part u.cache_read_tokens ≤ max_int
  pub cache_write_tokens_bound : pos_part u.cache_write_tokens ≤ max_int
  pub reasoning_tokens_bound : pos_part u.reasoning_tokens ≤ max_int
  pub cost_units_used_bound : pos_part u.cost_units_used ≤ max_int

add_int-bound :
    (a b c : ℤ) → pos_part b ≤ max_int → add_int a b ≡ ok c → pos_part a + pos_part b ≤ max_int
unfolding add_int
add_int-bound a b c h e = ground arith

checked_add-sum_bound :
    (a b c : ℤ)
    → pos_part a ≤ max_int
    → pos_part b ≤ max_int
    → checked_add a b ≡ ok c
    → pos_part a + pos_part b ≤ max_int
checked_add-sum_bound a b c h k e =
    let bound = checked_add-bound a b c h k e in
    let sum = checked_add_lem a b c e in ground (arith, bound, sum.2)

-- The sums that `AddUsage` has made.
record IsAdded (l r u : Usage) : Type 0 where
  llm_calls_used_added : add_int l.llm_calls_used r.llm_calls_used ≡ ok u.llm_calls_used
  tool_calls_used_added : add_int l.tool_calls_used r.tool_calls_used ≡ ok u.tool_calls_used
  hosted_tool_calls_used_added :
      add_int l.hosted_tool_calls_used r.hosted_tool_calls_used ≡ ok u.hosted_tool_calls_used
  child_runs_used_added : add_int l.child_runs_used r.child_runs_used ≡ ok u.child_runs_used
  output_bytes_used_added : add_int l.output_bytes_used r.output_bytes_used ≡ ok u.output_bytes_used
  state_bytes_used_added : add_int l.state_bytes_used r.state_bytes_used ≡ ok u.state_bytes_used
  input_tokens_used_added :
      checked_add l.input_tokens_used r.input_tokens_used ≡ ok u.input_tokens_used
  output_tokens_used_added :
      checked_add l.output_tokens_used r.output_tokens_used ≡ ok u.output_tokens_used
  total_tokens_used_added :
      checked_add l.total_tokens_used r.total_tokens_used ≡ ok u.total_tokens_used
  cache_read_tokens_added :
      checked_add l.cache_read_tokens r.cache_read_tokens ≡ ok u.cache_read_tokens
  cache_write_tokens_added :
      checked_add l.cache_write_tokens r.cache_write_tokens ≡ ok u.cache_write_tokens
  reasoning_tokens_added : checked_add l.reasoning_tokens r.reasoning_tokens ≡ ok u.reasoning_tokens
  cost_units_used_added : checked_add l.cost_units_used r.cost_units_used ≡ ok u.cost_units_used

add_usage-IsAdded : (l r u : Usage) → add_usage l r ≡ ok u → IsAdded l r u
unfolding add_usage
add_usage-IsAdded l r u e = record {
  llm_calls_used_added = ground arith;
  tool_calls_used_added = ground arith;
  hosted_tool_calls_used_added = ground arith;
  child_runs_used_added = ground arith;
  output_bytes_used_added = ground arith;
  state_bytes_used_added = ground arith;
  input_tokens_used_added = ground arith;
  output_tokens_used_added = ground arith;
  total_tokens_used_added = ground arith;
  cache_read_tokens_added = ground arith;
  cache_write_tokens_added = ground arith;
  reasoning_tokens_added = ground arith;
  cost_units_used_added = ground arith;
}

add_usage-IsSummable :
    (l r u : Usage) → IsInt64 l → IsInt64 r → add_usage l r ≡ ok u → IsSummable l r
add_usage-IsSummable l r u hl hr e =
    let s = add_usage-IsAdded l r u e in
    record {
      llm_calls_used_fits =
          add_int-bound l.llm_calls_used r.llm_calls_used u.llm_calls_used hr.llm_calls_used_bound
            s.llm_calls_used_added;
      tool_calls_used_fits =
          add_int-bound l.tool_calls_used r.tool_calls_used u.tool_calls_used
            hr.tool_calls_used_bound s.tool_calls_used_added;
      hosted_tool_calls_used_fits =
          add_int-bound l.hosted_tool_calls_used r.hosted_tool_calls_used u.hosted_tool_calls_used
            hr.hosted_tool_calls_used_bound s.hosted_tool_calls_used_added;
      child_runs_used_fits =
          add_int-bound l.child_runs_used r.child_runs_used u.child_runs_used
            hr.child_runs_used_bound s.child_runs_used_added;
      output_bytes_used_fits =
          add_int-bound l.output_bytes_used r.output_bytes_used u.output_bytes_used
            hr.output_bytes_used_bound s.output_bytes_used_added;
      state_bytes_used_fits =
          add_int-bound l.state_bytes_used r.state_bytes_used u.state_bytes_used
            hr.state_bytes_used_bound s.state_bytes_used_added;
      input_tokens_used_fits =
          checked_add-sum_bound l.input_tokens_used r.input_tokens_used u.input_tokens_used
            hl.input_tokens_used_bound hr.input_tokens_used_bound s.input_tokens_used_added;
      output_tokens_used_fits =
          checked_add-sum_bound l.output_tokens_used r.output_tokens_used u.output_tokens_used
            hl.output_tokens_used_bound hr.output_tokens_used_bound s.output_tokens_used_added;
      total_tokens_used_fits =
          checked_add-sum_bound l.total_tokens_used r.total_tokens_used u.total_tokens_used
            hl.total_tokens_used_bound hr.total_tokens_used_bound s.total_tokens_used_added;
      cache_read_tokens_fits =
          checked_add-sum_bound l.cache_read_tokens r.cache_read_tokens u.cache_read_tokens
            hl.cache_read_tokens_bound hr.cache_read_tokens_bound s.cache_read_tokens_added;
      cache_write_tokens_fits =
          checked_add-sum_bound l.cache_write_tokens r.cache_write_tokens u.cache_write_tokens
            hl.cache_write_tokens_bound hr.cache_write_tokens_bound s.cache_write_tokens_added;
      reasoning_tokens_fits =
          checked_add-sum_bound l.reasoning_tokens r.reasoning_tokens u.reasoning_tokens
            hl.reasoning_tokens_bound hr.reasoning_tokens_bound s.reasoning_tokens_added;
      cost_units_used_fits =
          checked_add-sum_bound l.cost_units_used r.cost_units_used u.cost_units_used
            hl.cost_units_used_bound hr.cost_units_used_bound s.cost_units_used_added;
    }

-- A sum of two usages of int64 fields that `AddUsage` gives is a valid usage, each of its thirteen fields is the
-- exact sum of the two, and none of these sums is above the largest int64.
pub add_usage_lem :
    (l r u : Usage)
    → IsInt64 l
    → IsInt64 r
    → add_usage l r ≡ ok u
    → (valid_usage u ≡ true) × IsSum l r u × IsSummable l r
add_usage_lem l r u hl hr e =
    (add_usage-valid l r u e, add_usage-IsSum l r u e, add_usage-IsSummable l r u hl hr e)
