-- ===== src/Otp/Check.antt =====
-- The check of a code while Redis answers: every branch, against a description without commands.
use ziona_server.Base.{
  [], ℕ, ◌-◌, ◌≡◌, none, some, arith, leb, if◌then◌else◌, Text, text_eq, strip, Bool-cases, inl,
  inr, Result, ok, err, ◌>>◌,
}
use ziona_server.Otp.World.{
  Error, Purpose, put_id, put_email, World, Env, auth, invalid_purpose, max_attempts_reached,
  otp_expired, invalid_otp,
}
use ziona_server.Otp.Redis.{live, count_of, bump}
use ziona_server.Otp.Limits.{check_attempts}
use ziona_server.Otp.Verify.{check_code, clear_code}
use ziona_server.Otp.Service.{is_account_action, normalize, verify_account_action_otp}

module _ (env : Env) (email : Text) (user_id : ℕ) (given : Text) (purpose : Purpose) where
  abbrev pub tried : World → World
  tried w = record w { attempts = bump env w.attempts purpose email 600 }

  abbrev pub cleared : World → World
  cleared w = record w {
    codes = put_id w.codes purpose user_id none;
    attempts = put_email w.attempts purpose email none;
    sends = put_email w.sends purpose email none;
    cooldowns = put_email w.cooldowns purpose email none;
  }

  -- What a check comes to: the count of failed attempts, the stored code and the given one decide.
  abbrev pub judge : World → Result Error (Unit {0}) × World
  judge w =
      let n = count_of (live env.now (w.attempts purpose email)) in
      if leb 5 n
      then (err (auth max_attempts_reached), w)
      else elim (live env.now (w.codes purpose user_id)) [
        | none ↦ (err (auth otp_expired), tried w)
        | some stored ↦
            if text_eq stored given
            then (ok tt, cleared w)
            else (err (auth (invalid_otp (some (5 - n - 1)))), tried w)
      ]

  pub check-eq-judge :
      (w : World)
      → w.outage ≡ []
      → (check_attempts env email purpose 5
            >> check_code env (clear_code env email user_id purpose) email user_id given purpose)
          w
        ≡ judge w
  unfolding check_attempts check_code clear_code
  check-eq-judge w h = ground arith

-- While Redis answers, the check of an account action refuses a purpose that is none, and is
-- otherwise decided by the failed attempts, then the stored code, then the comparison: five or more
-- failures refuse the call and change nothing; a code that is not there counts as one more failure;
-- so does a wrong code, which reports the attempts left; the right code clears the code, the failed
-- attempts, the sends and the cooldown.
pub verify_account_action_otp_lem :
    (env : Env) (raw_email : Text) (user_id : ℕ) (raw_code : Text) (purpose : Purpose) (w : World)
    → w.outage ≡ []
    → verify_account_action_otp env raw_email user_id raw_code purpose w ≡ (
        if is_account_action purpose
        then judge env (normalize raw_email) user_id (strip raw_code) purpose w
        else (err (auth invalid_purpose), w))
unfolding verify_account_action_otp
verify_account_action_otp_lem env raw_email user_id raw_code purpose w h =
    elim (Bool-cases (is_account_action purpose)) [
      | inr bad ↦ ground arith
      | inl good ↦
          ground
            (arith, check-eq-judge env (normalize raw_email) user_id (strip raw_code) purpose w h)
    ]
