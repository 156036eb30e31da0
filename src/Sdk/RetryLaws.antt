-- ===== src/Sdk/RetryLaws.antt =====
-- The backoff delays and the loop of retries (packages/sdk/src/queue.ts).
use native.Mathlib.Nat.{
  mul-le-mul_left, div-mul-le_self, lt-div-mul-add, le-div_iff_mul-le, le_of_mul-le-mul_right,
  lt_of_mul-lt-mul_right,
}
use replay_bug.Common.{ℕ, suc, ◌+◌, ◌-◌, ◌*◌, ◌/◌, ◌^◌, ◌≤◌, ◌<◌, ◌≡◌, arith}
use replay_bug.Sdk.Retry.{
  RetryConfig, default_retry_config, Draw, capped_delay, calculate_retry_delay,
}

numerator_upper :
    (c jn jd num den : ℕ)
    → num < den
    → c * jd * den + c * jn * (2 * num) - c * jn * den ≤ (c * jd + c * jn) * den
numerator_upper c jn jd num den h =
    let e : c * jn * (2 * num) ≤ c * jn * (2 * den) = mul-le-mul_left (c * jn) (omega arith) in
    omega arith

regroup : (a b c : ℕ) → a * b * c ≡ a * (b * c)
regroup a b c = omega arith

capped_delay_le :
    (attempt : ℕ) (config : RetryConfig) → capped_delay attempt config ≤ config.max_delay_ms
unfolding capped_delay
capped_delay_le attempt config = omega arith

capped_full :
    (attempt : ℕ) (config : RetryConfig)
    → config.max_delay_ms ≤ config.base_delay_ms * 2 ^ attempt
    → capped_delay attempt config ≡ config.max_delay_ms
unfolding capped_delay
capped_full attempt config h = omega arith

pos_mul : (a b : ℕ) → 0 < a → 0 < b → 0 < a * b
pos_mul a b h k = grind arith

-- With a draw below 1 and a jitter factor with a positive denominator, a delay stays within the
-- jitter of the capped delay: between `capped * (1 - jitter)`, less the rounding, and `capped *
-- (1 + jitter)`.
pub calculate_retry_delay_bounds :
    (attempt : ℕ) (config : RetryConfig) (random : Draw)
    → 0 < config.jitter_den
    → random.num < random.den
    → let d = calculate_retry_delay attempt config random in
      let capped = capped_delay attempt config in
      (d * config.jitter_den ≤ capped * config.jitter_den + capped * config.jitter_num)
      × (capped * config.jitter_den < (d + 1) * config.jitter_den + capped * config.jitter_num)
unfolding calculate_retry_delay
calculate_retry_delay_bounds attempt config random jd_pos drawn =
    let c = capped_delay attempt config in
    let jn = config.jitter_num in
    let jd = config.jitter_den in
    let den = random.den in
    let n = c * jd * den + c * jn * (2 * random.num) - c * jn * den in
    let den_pos : 0 < den = omega arith in
    let d_pos : 0 < jd * den = pos_mul jd den jd_pos den_pos in
    let d : ℕ = n / (jd * den) in
    let below : d * (jd * den) ≤ n = div-mul-le_self n (jd * den) in
    let above : n < d * (jd * den) + jd * den = lt-div-mul-add d_pos in
    let upper : n ≤ (c * jd + c * jn) * den = numerator_upper c jn jd random.num den drawn in
    (
      le_of_mul-le-mul_right {k = den} (omega (arith, below, upper)) den_pos,
      lt_of_mul-lt-mul_right den (omega (arith, above)),
    )

-- With the default settings: at most a fifth above the cap of 10000 ms.
pub default_retry_delay_le :
    (attempt : ℕ) (random : Draw)
    → random.num < random.den
    → calculate_retry_delay attempt default_retry_config random ≤ 12000
default_retry_delay_le attempt random drawn = omega (
  arith,
  (calculate_retry_delay_bounds attempt default_retry_config random (omega arith) drawn).0,
  capped_delay_le attempt default_retry_config,
)

-- The cap is not the delay's limit: once the doubled delay has reached it, every draw whose jitter
-- comes to at least one millisecond gives a delay above `max_delay_ms`.
pub calculate_retry_delay_exceeds :
    (attempt : ℕ) (config : RetryConfig) (random : Draw)
    → 0 < config.jitter_den * random.den
    → config.max_delay_ms ≤ config.base_delay_ms * 2 ^ attempt
    → config.jitter_den * random.den + config.max_delay_ms * config.jitter_num * random.den
      ≤ config.max_delay_ms * config.jitter_num * (2 * random.num)
    → config.max_delay_ms < calculate_retry_delay attempt config random
unfolding calculate_retry_delay
calculate_retry_delay_exceeds attempt config random pos full drawn =
    let m = config.max_delay_ms in
    let jn = config.jitter_num in
    let jd = config.jitter_den in
    let den = random.den in
    rw (capped_full attempt config full) (
      (le-div_iff_mul-le {x = suc m} {y = m * jd * den + m * jn * (2 * random.num) - m * jn * den}
          pos).1
        (omega arith))
