-- ===== src/Otp/Limits.antt =====
-- The limits of the service: failed attempts, sends with their progressive delays, and the resends
-- of the older verification flow.
use ziona_server.Base.{
  ℕ, ◌+◌, Bool, false, ◌&&◌, Option, none, some, ltb, leb, ◌==◌, if◌then◌else◌, Text, pure, when,
  ◌>>=◌, ◌>>◌,
}
use ziona_server.Otp.World.{
  Purpose, Env, otp_service_unavailable, max_attempts_reached, rate_limit_exceeded, resend_cooldown,
  M, raise_if, except_infra, try_then,
}
use ziona_server.Otp.Redis.{
  get_attempts, incr_attempts, get_sends, incr_sends, ttl_cooldown, setex_cooldown, get_resends,
  incr_resends, count_of,
}

abbrev pub max_resends_per_purpose : ℕ
max_resends_per_purpose = 3

-- `RESEND_DELAYS[i]`, for the three delays, and the branch on the next index: the delay at that
-- index, the last delay just past the end, and none further on.
abbrev pub delay_at : ℕ → ℕ
delay_at i = if i == 0 then 0 else if i == 1 then 30 else if leb i 3 then 60 else 0

abbrev pub reaches : Option ℕ → ℕ → Bool
reaches none limit = false
reaches (some n) limit = leb limit n

module _ (env : Env) where
  -- `_handle_otp_redis_failure`
  unfoldable pub handle_redis_failure : M (Unit {0})
  handle_redis_failure = raise_if env.strict_redis otp_service_unavailable

  -- `_check_otp_attempts`
  unfoldable pub check_attempts : Text → Purpose → ℕ → M (Unit {0})
  unfolding handle_redis_failure
  check_attempts email purpose max_attempts =
      except_infra
        (do
          attempts ← get_attempts env purpose email
          raise_if (reaches attempts max_attempts) max_attempts_reached)
        handle_redis_failure

  -- `_increment_otp_attempts`
  unfoldable pub increment_attempts : Text → Purpose → M (Unit {0})
  unfolding handle_redis_failure
  increment_attempts email purpose =
      except_infra (incr_attempts env purpose email) handle_redis_failure

  -- `_check_resend_limit`
  unfoldable pub check_resend_limit : Text → Purpose → ℕ → M (Unit {0})
  unfolding handle_redis_failure
  check_resend_limit email purpose max_resends =
      except_infra
        (do
          count ← get_resends env purpose email
          raise_if (reaches count max_resends) rate_limit_exceeded)
        handle_redis_failure

  -- `_increment_resend_count`
  unfoldable pub increment_resend_count : Text → Purpose → M (Unit {0})
  unfolding handle_redis_failure
  increment_resend_count email purpose =
      except_infra (incr_resends env purpose email) handle_redis_failure

  -- The cooldown test, which is made only after a first send and before the fourth.
  unfoldable pub check_cooldown : Text → Purpose → ℕ → M (Unit {0})
  check_cooldown email purpose send_count =
      when (ltb 0 send_count && leb send_count 3)
        (do left ← ttl_cooldown env purpose email; raise_if (ltb 0 left) (resend_cooldown left))

  -- The `try` block of `_prepare_progressive_resend` up to `resend_after = next_delay`.
  unfoldable pub resend_delay : Text → Purpose → M ℕ
  unfolding check_cooldown
  resend_delay email purpose = do
    raw ← get_sends env purpose email
    let send_count = count_of raw
    raise_if (leb max_resends_per_purpose send_count) rate_limit_exceeded
    check_cooldown email purpose send_count
    let next_delay = delay_at (send_count + 1)
    when (ltb 0 next_delay) (setex_cooldown env purpose email next_delay)
    pure next_delay

  -- `_prepare_progressive_resend`: the handler returns the `resend_after` that was set so far.
  unfoldable pub prepare_progressive_resend : Text → Purpose → M ℕ
  unfolding resend_delay handle_redis_failure
  prepare_progressive_resend email purpose =
      try_then (resend_delay email purpose)
        (λ next_delay.
          except_infra (incr_sends env purpose email >> pure next_delay)
            (handle_redis_failure >> pure next_delay))
        (handle_redis_failure >> pure 0)
