-- ===== src/Queue/Backoff.antt =====
-- go/agent-runtime/queue/memory.go: the delay before a retry, in closed form.
use gaoge_agent_runtime.Prelude.{
  ℕ, zero, suc, ◌*◌, ◌/◌, ◌^◌, ◌≤◌, ◌<◌, min, ◌≡◌, arith, Bool-cases, inl, inr, sym, ◌∙◌, ltb,
}
use mathlib.Core.Path.{ap}
use native.Mathlib.Nat.{pow-zero, pow-succ', one-le-pow, mul_assoc, div-add-mod, mod-lt}
use gaoge_agent_runtime.Queue.{Policy, wrapped, ltb_signed, backoff_loop, rounds_of, retry_backoff}

le-mul_pos : (a b : ℕ) → 0 < b → a ≤ a * b
le-mul_pos a b h = grind arith

mul_le-of_le-div : (max mult delay : ℕ) → 0 < mult → delay ≤ max / mult → delay * mult ≤ max
mul_le-of_le-div max mult delay h k = grind (arith, mod-lt, div-add-mod)

lt-mul_of_div-lt : (max mult delay : ℕ) → 0 < mult → max / mult < delay → max < delay * mult
lt-mul_of_div-lt max mult delay h k = grind (arith, mod-lt, div-add-mod)

-- Below 2 ^ 63 the signed comparison is that of the numbers, and a product keeps its value.
ltb_signed-small :
    (a b : ℕ) → a < 9223372036854775808 → b < 9223372036854775808 → ltb_signed a b ≡ ltb a b
ltb_signed-small a b h k = ground arith

wrapped-small : (n : ℕ) → n < 9223372036854775808 → wrapped n ≡ n
wrapped-small n h = omega arith

div_le : (a b : ℕ) → 0 < b → a / b ≤ a
div_le a b h = grind (arith, mod-lt, div-add-mod, le-mul_pos (a / b) b h)

-- The loop multiplies once for each round, up to the maximum, and no product wraps.
backoff_loop-eq-min :
    (rounds max mult delay : ℕ)
    → 0 < mult
    → max < 9223372036854775808
    → delay < 9223372036854775808
    → backoff_loop rounds max mult delay ≡ min max (delay * mult ^ rounds)
unfolding backoff_loop
backoff_loop-eq-min zero max mult delay h b d =
    ground (arith, pow-zero mult, ltb_signed-small max delay b d)
backoff_loop-eq-min (suc r) max mult delay h b d =
    let below = ltb_signed-small delay max d b in
    let over = ltb_signed-small (max / mult) delay (omega (arith, div_le max mult h)) d in
    let above = ltb_signed-small max delay b d in
    let grows : delay * mult ^ suc r ≡ delay * mult * mult ^ r =
      ap (λ x. delay * x) (pow-succ' mult r) ∙ sym (mul_assoc delay mult (mult ^ r)) in
    elim (Bool-cases (ltb (max / mult) delay)) [
      | inl big ↦ ground (
        arith,
        below,
        over,
        above,
        grows,
        one-le-pow r mult h,
        le-mul_pos delay mult h,
        le-mul_pos (delay * mult) (mult ^ r),
        lt-mul_of_div-lt max mult delay h,
      )
      | inr small ↦
          let fits = mul_le-of_le-div max mult delay h (ground arith) in
          let kept = wrapped-small (delay * mult) (omega (arith, fits)) in
          let rest = backoff_loop-eq-min r max mult (delay * mult) h b (omega (arith, fits)) in
          let next : backoff_loop r max mult (wrapped (delay * mult))
              ≡ min max (delay * mult * mult ^ r) =
            ap (backoff_loop r max mult) kept ∙ rest in
          ground (
            arith,
            below,
            over,
            above,
            grows,
            next,
            one-le-pow r mult h,
            le-mul_pos delay mult h,
            le-mul_pos (delay * mult) (mult ^ r),
          )
    ]

-- In the 64-bit arithmetic of the code the delay before a retry is the exact product of the initial backoff and
-- the multiplier to the power of the rounds, at most the maximum, with the rounds one less than the attempt and
-- at most 63. The initial backoff and the maximum are below 2 ^ 63 and the multiplier is not 0, as in every policy
-- that the queue accepts; the product may be far above 2 ^ 64.
pub retry_backoff_lem :
    (p : Policy) (attempt : ℕ)
    → 0 < p.backoff_multiplier
    → p.max_backoff < 9223372036854775808
    → p.initial_backoff < 9223372036854775808
    → retry_backoff p attempt
      ≡ min p.max_backoff (p.initial_backoff * p.backoff_multiplier ^ rounds_of attempt)
unfolding retry_backoff
retry_backoff_lem p attempt h b d =
    backoff_loop-eq-min (rounds_of attempt) p.max_backoff p.backoff_multiplier p.initial_backoff h b
      d
