-- ===== src/Otp/Tests.antt =====
-- The theorems about codes at small inputs.
use ziona_server.Base.{
  ℕ, ◌≤◌, ◌≡◌, refl, true, false, ◌&&◌, ◌↔◌, none, some, List, [], ◌∷◌, arith, Text, codes, strip,
  lower, text_eq, ok, err,
}
use ziona_server.Accounts.User.{User, get_by_email}
use ziona_server.Accounts.Status.{ensure_account_can_authenticate}
use ziona_server.Accounts.Samples.{quiet, at}
use ziona_server.Otp.World.{
  World, auth, account_deletion, password_reset, same_purpose, put_email, otp_service_unavailable,
}
use ziona_server.Otp.Redis.{live, entry_for}
use ziona_server.Otp.Limits.{check_attempts}
use ziona_server.Otp.Send.{send_otp}
use ziona_server.Otp.Verify.{check_code, clear_code}
use ziona_server.Otp.Service.{
  is_account_action, is_valid_purpose, is_signup, normalize, verify_account_action_otp,
  unified_verify_otp, unified_send_otp, complete, Sent, Verified,
}
use ziona_server.Otp.Guessing.{wrong_guesses, wrong_guesses-le}
use ziona_server.Otp.Answer.{unified_send_otp_tells}
use ziona_server.Otp.Sound.{
  verify_account_action_otp_sound, unified_verify_otp_sound, IsWithinLimit,
}

abbrev email : Text
email = codes "ada@z.app"

abbrev right : Text
right = codes "123456"

abbrev guesses : List (ℕ × Text)
guesses = (1, codes "1") ∷ (2, codes "2") ∷ []

wrong_guesses-le_example : wrong_guesses (at 0) email 1 account_deletion guesses quiet ≤ 5
unfolding same_purpose
wrong_guesses-le_example =
    wrong_guesses-le (at 0) email 1 account_deletion 0 guesses quiet refl refl
      (omega arith, (omega arith, tt)) (omega arith)

abbrev after_send : World
after_send = (send_otp (at 5) (normalize email) 1 account_deletion quiet).1

abbrev after_verify : World
after_verify = (verify_account_action_otp (at 5) email 1 right account_deletion quiet).1

accepted :
    verify_account_action_otp (at 5) email 1 right account_deletion quiet ≡ (ok tt, after_verify)
unfolding verify_account_action_otp same_purpose text_eq strip
accepted = refl

verify_account_action_otp_sound_example :
    (is_account_action account_deletion ≡ true)
    × (live 5 (quiet.codes account_deletion 1) ≡ some (strip right))
    × IsWithinLimit (at 5) (normalize email) account_deletion quiet
verify_account_action_otp_sound_example =
    verify_account_action_otp_sound (at 5) email 1 right account_deletion quiet after_verify
      accepted

-- Five failures stand, and the first command, which would read them, fails: a lenient server accepts
-- the right code, a strict one refuses it.
abbrev unread : World
unread = record quiet {
  attempts = put_email quiet.attempts account_deletion email (entry_for 5 600 5);
  outage = true ∷ [];
}

passed_unread : (verify_account_action_otp (at 5) email 1 right account_deletion unread).0 ≡ ok tt
unfolding verify_account_action_otp same_purpose text_eq strip lower normalize check_attempts
    check_code clear_code
passed_unread = refl

refused_unread :
    (verify_account_action_otp
      (record (at 5) { strict_redis = true })
      email
      1
      right
      account_deletion
      unread).0
    ≡ err (auth otp_service_unavailable)
unfolding verify_account_action_otp same_purpose text_eq strip lower normalize check_attempts
    check_code clear_code
refused_unread = refl

abbrev after_unified : World
after_unified = (unified_verify_otp (at 5) email right account_deletion quiet).1

accepted_unified :
    unified_verify_otp (at 5) email right account_deletion quiet
    ≡ (ok (Verified.action_verified account_deletion), after_unified)
unfolding unified_verify_otp same_purpose text_eq strip lower get_by_email normalize
    ensure_account_can_authenticate check_attempts check_code clear_code complete
accepted_unified = refl

unified_verify_otp_sound_example :
    (u : User) × (get_by_email (normalize email) quiet.users ≡ some u)
    × (is_valid_purpose account_deletion ≡ true)
    × (ensure_account_can_authenticate u ≡ none)
    × ((is_signup account_deletion && u.is_email_verified) ≡ false)
    × (live 5 (quiet.codes account_deletion u.id) ≡ some right)
    × IsWithinLimit (at 5) (normalize email) account_deletion quiet
unified_verify_otp_sound_example =
    unified_verify_otp_sound (at 5) email right account_deletion
      (Verified.action_verified account_deletion) quiet after_unified accepted_unified

abbrev asked : World
asked = (unified_send_otp (at 5) email password_reset quiet).1

abbrev answer : Sent
answer = record { purpose = password_reset; expires_in = 600; resend_after = 30 }

answered : unified_send_otp (at 5) email password_reset quiet ≡ (ok answer, asked)
unfolding unified_send_otp text_eq strip lower
answered = refl

unified_send_otp_tells_example :
    (answer.resend_after ≡ 0) ↔ (get_by_email (normalize email) quiet.users ≡ none)
unified_send_otp_tells_example =
    unified_send_otp_tells (at 5) email quiet asked answer refl answered
