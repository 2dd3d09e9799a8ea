-- ===== src/Circles/Anchors/Clock.antt =====
-- The countdown of an anchor.
use ziona_server.Base.{ℕ, ◌+◌, ◌-◌, ◌*◌, ◌/◌, ◌<◌, ◌≡◌, leb, arith, Bool-cases, inl, inr}
use ziona_server.Circles.Anchors.{second, calculate_time_remaining}

-- The countdown names the whole seconds that are left, and none after the end; minutes and seconds
-- stay below 60.
pub calculate_time_remaining_lem :
    (now expires_at : ℕ)
    → let (hours, minutes, seconds) = calculate_time_remaining now expires_at in
      ((hours * 3600 + minutes * 60) + seconds ≡ (expires_at - now) / second)
      × (minutes < 60)
      × (seconds < 60)
unfolding calculate_time_remaining
calculate_time_remaining_lem now expires_at = elim (Bool-cases (leb expires_at now)) [
  | inl over ↦ (ground arith, ground arith, ground arith)
  | inr left ↦ (ground arith, ground arith, ground arith)
]
