-- ===== src/Otp/Codes.antt =====
-- The life of a code: stored by a send, taken by one purpose, used once.
use ziona_server.Base.{
  [], ℕ, ◌+◌, ◌<◌, ◌≡◌, true, false, ◌&&◌, arith, ◌==◌, ==_refl, Text, text_eq_refl, strip, ok,
}
use ziona_server.Otp.World.{Purpose, same_purpose, same_purpose_refl, World, Env}
use ziona_server.Otp.Redis.{live, count_of}
use ziona_server.Otp.Send.{send_otp}
use ziona_server.Otp.Service.{is_account_action, normalize, verify_account_action_otp}
use ziona_server.Otp.Check.{verify_account_action_otp_lem}

-- A code that was sent is accepted within its ten minutes, by the same user and purpose, with
-- white space round it, as long as fewer than five failures stand against the email.
pub verify-send :
    (env env' : Env) (raw_email : Text) (user_id : ℕ) (purpose : Purpose) (raw_code : Text)
    (w w' : World)
    → is_account_action purpose ≡ true
    → w'.outage ≡ []
    → send_otp env (normalize raw_email) user_id purpose w ≡ (ok tt, w')
    → env'.now < env.now + 600
    → strip raw_code ≡ env.otp
    → count_of (live env'.now (w.attempts purpose (normalize raw_email))) < 5
    → (verify_account_action_otp env' raw_email user_id raw_code purpose w').0 ≡ ok tt
unfolding send_otp
verify-send env env' raw_email user_id purpose raw_code w w' action healthy h t c n =
    rw (verify_account_action_otp_lem env' raw_email user_id raw_code purpose w' healthy, action)
      (ground (arith, same_purpose_refl purpose, ==_refl user_id, text_eq_refl env.otp))

-- A check for one purpose, however it ends and whenever Redis fails, leaves the codes of every
-- other purpose and of every other user as they were, and stores no new code.
pub verify_account_action_otp_isolated :
    (env : Env) (raw_email : Text) (user_id : ℕ) (code : Text) (purpose other : Purpose)
    (other_id : ℕ) (w : World)
    → (same_purpose purpose other && user_id == other_id) ≡ false
    → (verify_account_action_otp env raw_email user_id code purpose w).1.codes other other_id
      ≡ w.codes other other_id
unfolding verify_account_action_otp
verify_account_action_otp_isolated env raw_email user_id code purpose other other_id w ne =
    ground arith
