-- ===== src/Sdk/Retry.antt =====
-- Retries of one batch with backoff, jitter and `Retry-After` (packages/sdk/src/queue.ts).
-- Fractions are exact: the jitter factor is `jitter_num / jitter_den`, and a draw of
-- `Math.random()` is `num / den` with `num < den`. A thrown value is what the retry logic reads of
-- it. The parsing of a date header is a parameter, as `Date` leaves it to the engine.
use replay_bug.Common.{
  ℕ, zero, suc, ◌+◌, ◌-◌, ◌*◌, ◌/◌, ◌^◌, min, Bool, false, not, ◌&&◌, ◌||◌, if◌then◌else◌, ltb, leb,
  ◌==◌, Option, none, some, List, [], ◌∷◌, any,
}
use replay_bug.Common.Int.{ℤ, pos, negsuc}
use replay_bug.Common.Text.{Text, skip_spaces}

pub record RetryConfig : Type 0 where
  pub max_attempts : ℕ
  pub base_delay_ms : ℕ
  pub max_delay_ms : ℕ
  pub jitter_num : ℕ
  pub jitter_den : ℕ
  pub retryable_statuses : List ℕ

abbrev pub default_retry_config : RetryConfig
default_retry_config = record {
  max_attempts = 3;
  base_delay_ms = 500;
  max_delay_ms = 10000;
  jitter_num = 1;
  jitter_den = 5;
  retryable_statuses = 408 ∷ 429 ∷ 500 ∷ 502 ∷ 503 ∷ 504 ∷ [];
}

pub record Draw : Type 0 where
  pub num : ℕ
  pub den : ℕ

-- `cappedDelay`
unfoldable pub capped_delay : ℕ → RetryConfig → ℕ
capped_delay attempt config = min (config.base_delay_ms * 2 ^ attempt) config.max_delay_ms

-- `Math.max(0, Math.floor(cappedDelay + cappedDelay * jitterFactor * (random * 2 - 1)))` over the
-- common denominator; the subtraction stops at 0 where the source takes the maximum with 0.
unfoldable pub calculate_retry_delay : ℕ → RetryConfig → Draw → ℕ
calculate_retry_delay attempt config random =
    let capped = capped_delay attempt config in
    let jitter = capped * config.jitter_num in
    (capped * config.jitter_den * random.den + jitter * (2 * random.num) - jitter * random.den)
    / (config.jitter_den * random.den)

pub record SendError : Type 0 where
  pub is_fetch_type_error : Bool
  pub status : Option ℕ
  pub retry_after : Option Text

abbrev pub has_status : RetryConfig → Option ℕ → Bool
has_status config none = false
has_status config (some status) = any (λ s. s == status) config.retryable_statuses

unfoldable pub is_retryable : SendError → RetryConfig → Bool
is_retryable error config = error.is_fetch_type_error || has_status config error.status

abbrev pub is_digit : ℕ → Bool
is_digit c = leb b'0' c && leb c b'9'

-- The digits at the front, on top of those read before.
unfoldable pub digits_from : ℕ → Text → ℕ
digits_from n [] = n
digits_from n (c ∷ cs) =
    let rest = digits_from (n * 10 + (c - b'0')) cs in if is_digit c then rest else n

unfoldable pub parse_digits : Text → Option ℕ
unfolding digits_from
parse_digits [] = none
parse_digits (c ∷ cs) = if is_digit c then some (digits_from 0 (c ∷ cs)) else none

-- `parseInt(text, 10)` after the spaces, kept if it is a number and not negative; "-0" is 0.
unfoldable pub parse_signed : Text → Option ℕ
unfolding parse_digits
parse_signed [] = none
parse_signed (c ∷ cs) =
    if c == b'+'
    then parse_digits cs
    else if c == b'-'
    then elim (parse_digits cs) [ none ↦ none | some n ↦ if n == 0 then some 0 else none ]
    else parse_digits (c ∷ cs)

-- `date.getTime() - Date.now()`, if it is positive.
abbrev pub positive_delay : ℕ → ℤ → Option ℕ
positive_delay now (pos time) = if ltb now time then some (time - now) else none
positive_delay now (negsuc time) = none

module _ (parse_date : Text → Option ℤ) where
  unfoldable pub parse_retry_after : ℕ → Option Text → Option ℕ
  unfolding parse_signed skip_spaces
  parse_retry_after now none = none
  parse_retry_after now (some []) = none
  parse_retry_after now (some (c ∷ cs)) = elim (parse_signed (skip_spaces (c ∷ cs))) [
    | some seconds ↦ some (seconds * 1000)
    | none ↦ elim (parse_date (c ∷ cs)) [ none ↦ none | some time ↦ positive_delay now time ]
  ]

  -- The delay before the next attempt.
  unfoldable pub retry_delay : RetryConfig → SendError → ℕ → ℕ → Draw → ℕ
  retry_delay config error attempt now random = elim (parse_retry_after now error.retry_after) [
    | some delay ↦ min delay config.max_delay_ms
    | none ↦ calculate_retry_delay attempt config random
  ]

pub data SendOutcome (R : Type 0) : Type 0 where
  accepted : R → SendOutcome R
  refused : SendError → SendOutcome R

-- How `sendWithRetry` ends: with a result, or with what it throws; `lastError` is undefined if no
-- attempt was made.
pub data SendEnd (R : Type 0) : Type 0 where
  returned : R → SendEnd R
  threw : SendError → SendEnd R
  threw_undefined : SendEnd R

-- What the surroundings answer: the transport, the clock and the random draws, by attempt.
pub record Surroundings (R : Type 0) : Type 0 where
  pub send : ℕ → SendOutcome R
  pub now : ℕ → ℕ
  pub random : ℕ → Draw
  pub parse_date : Text → Option ℤ

abbrev pub end_of : {R : Type 0} → Option SendError → SendEnd R
end_of none = threw_undefined
end_of (some e) = threw e

-- The loop, with `left` attempts to go, and the delays that it waited, in order.
unfoldable pub send_loop :
    {R : Type 0} → RetryConfig → Surroundings R → ℕ → ℕ → Option SendError → SendEnd R × List ℕ
send_loop config env zero attempt last = (end_of last, [])
send_loop config env (suc left) attempt last =
    let rest = send_loop config env left in
    elim (env.send attempt) [
      | accepted result ↦ (returned result, [])
      | refused error ↦
          if not (is_retryable error config) || (attempt + 1 == config.max_attempts)
          then (threw error, [])
          else (let (end, delays) = rest (attempt + 1) (some error) in
              (
                end,
                retry_delay env.parse_date config error attempt (env.now attempt)
                      (env.random attempt)
                    ∷ delays,
              ))
    ]

unfoldable pub send_with_retry : {R : Type 0} → RetryConfig → Surroundings R → SendEnd R × List ℕ
unfolding send_loop
send_with_retry config env = send_loop config env config.max_attempts 0 none
