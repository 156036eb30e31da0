-- ===== src/Sdk/RetryRuns.antt =====
-- The loop of retries against the protocol that it follows (packages/sdk/src/queue.ts).
use replay_bug.Common.{
  ℕ, zero, suc, ◌+◌, ◌-◌, ◌<◌, min, true, false, not, ◌||◌, ◌==◌, ◌≡◌, ◌≢◌, refl, sym, subst, ◌⊎◌,
  inl, inr, Option, none, some, List, [], ◌∷◌, length, arith, Bool-cases,
}
use replay_bug.Common.Int.{ℤ}
use replay_bug.Common.Text.{Text}
use replay_bug.Sdk.Retry.{
  RetryConfig, Draw, SendError, is_retryable, parse_retry_after, retry_delay, SendOutcome, accepted,
  refused, SendEnd, returned, threw, Surroundings, send_loop, send_with_retry,
}

module _ {R : Type 0} (config : RetryConfig) (env : Surroundings R) where
  -- The wait after attempt `a` has failed with an error.
  abbrev pub wait : ℕ → SendError → ℕ
  wait a e = retry_delay env.parse_date config e a (env.now a) (env.random a)

  -- The protocol from attempt `a` on: the first result ends it; an error ends it if it is not
  -- retryable or the attempt was the last; any other error is waited out and tried again.
  pub data Run : ℕ → SendEnd R → List ℕ → Type 0 where
    first_result : {a : ℕ} {r : R} → env.send a ≡ accepted r → Run a (returned r) []
    gave_up :
        {a : ℕ} {e : SendError}
        → env.send a ≡ refused e
        → (is_retryable e config ≡ false) ⊎ (a + 1 ≡ config.max_attempts)
        → Run a (threw e) []
    tried_again :
        {a : ℕ} {e : SendError} {end : SendEnd R} {delays : List ℕ}
        → env.send a ≡ refused e
        → is_retryable e config ≡ true
        → a + 1 < config.max_attempts
        → Run (a + 1) end delays
        → Run a end (wait a e ∷ delays)

  loop_result :
      (left a : ℕ) (last : Option SendError) (r : R)
      → env.send a ≡ accepted r
      → send_loop config env (suc left) a last ≡ (returned r, [])
  unfolding send_loop
  loop_result left a last r h = ground arith

  loop_stops :
      (left a : ℕ) (last : Option SendError) (e : SendError)
      → env.send a ≡ refused e
      → (not (is_retryable e config) || (a + 1 == config.max_attempts)) ≡ true
      → send_loop config env (suc left) a last ≡ (threw e, [])
  unfolding send_loop
  loop_stops left a last e h k = ground arith

  loop_goes_on :
      (left a : ℕ) (last : Option SendError) (e : SendError)
      → env.send a ≡ refused e
      → (not (is_retryable e config) || (a + 1 == config.max_attempts)) ≡ false
      → send_loop config env (suc left) a last ≡ (
        (send_loop config env left (a + 1) (some e)).0,
        wait a e ∷ (send_loop config env left (a + 1) (some e)).1,
      )
  unfolding send_loop
  loop_goes_on left a last e h k = ground arith

  abbrev Follows : ℕ → SendEnd R × List ℕ → Type 0
  Follows a r = Run a r.0 r.1

  outcome : (o : SendOutcome R) → ((r : R) × (o ≡ accepted r)) ⊎ ((e : SendError) × (o ≡ refused e))
  outcome (accepted r) = inl (r, refl)
  outcome (refused e) = inr (e, refl)

  stop_reason :
      (a : ℕ) (e : SendError)
      → (not (is_retryable e config) || (a + 1 == config.max_attempts)) ≡ true
      → (is_retryable e config ≡ false) ⊎ (a + 1 ≡ config.max_attempts)
  stop_reason a e k = ground arith

  goes_on :
      (a : ℕ) (e : SendError)
      → (not (is_retryable e config) || (a + 1 == config.max_attempts)) ≡ false
      → (is_retryable e config ≡ true) × (a + 1 ≢ config.max_attempts)
  goes_on a e k = ground arith

  step-Run :
      (left a : ℕ) (last : Option SendError)
      → ((e : SendError)
          → (a + 1 ≢ config.max_attempts)
          → (a + 1 < config.max_attempts)
            × Follows (a + 1) (send_loop config env left (a + 1) (some e)))
      → Follows a (send_loop config env (suc left) a last)
  step-Run left a last rest = elim (outcome (env.send a)) [
    | inl (r, ok) ↦ subst (Follows a) (sym (loop_result left a last r ok)) (first_result ok)
    | inr (e, bad) ↦
        elim (Bool-cases (not (is_retryable e config) || (a + 1 == config.max_attempts))) [
          | inl stop ↦
              subst (Follows a) (sym (loop_stops left a last e bad stop))
                (gave_up bad (stop_reason a e stop))
          | inr more ↦
              let (again, go_on) = goes_on a e more in
              let (room, later) = rest e go_on in
              subst (Follows a) (sym (loop_goes_on left a last e bad more))
                (tried_again bad again room later)
        ]
  ]

  send_loop-Run :
      (left a : ℕ) (last : Option SendError)
      → a + suc left ≡ config.max_attempts
      → Follows a (send_loop config env (suc left) a last)
  send_loop-Run zero a last h = step-Run zero a last (λ e go_on. absurd (go_on (omega arith)))
  send_loop-Run (suc left) a last h =
      step-Run (suc left) a last
        (λ e go_on. (omega arith, send_loop-Run left (a + 1) (some e) (omega arith)))

  Run-bounded :
      {a : ℕ} {end : SendEnd R} {delays : List ℕ}
      → Run a end delays
      → a < config.max_attempts
      → a + length delays < config.max_attempts
  Run-bounded (first_result _) h = omega arith
  Run-bounded (gave_up _ _) h = omega arith
  Run-bounded (tried_again _ _ k r) h = omega (arith, Run-bounded r k)

  -- `sendWithRetry` with at least one attempt follows the protocol: the first result is returned;
  -- an error is thrown at once if it is not retryable, and else only by the last attempt; and
  -- between two attempts it waits the delay of the one that failed. It waits fewer times than it
  -- has attempts.
  pub send_with_retry-Run :
      0 < config.max_attempts
      → Run 0 (send_with_retry config env).0 (send_with_retry config env).1
        × (length (send_with_retry config env).1 < config.max_attempts)
  unfolding send_with_retry
  send_with_retry-Run h =
      let e : suc (config.max_attempts - 1) ≡ config.max_attempts = omega arith in
      let r : Follows 0 (send_loop config env config.max_attempts 0 none) =
        subst (λ n. Follows 0 (send_loop config env n 0 none)) e
          (send_loop-Run (config.max_attempts - 1) 0 none (omega arith)) in
      (r, omega (arith, Run-bounded r h))

-- If the error's Retry-After header parses to a delay, the next attempt waits for that delay, or
-- for `max_delay_ms` if that is shorter.
pub retry_delay_of_header :
    (parse_date : Text → Option ℤ) (config : RetryConfig) (e : SendError) (attempt now delay : ℕ)
    (random : Draw)
    → parse_retry_after parse_date now e.retry_after ≡ some delay
    → retry_delay parse_date config e attempt now random ≡ min delay config.max_delay_ms
unfolding retry_delay
retry_delay_of_header parse_date config e attempt now delay random h = ground arith
