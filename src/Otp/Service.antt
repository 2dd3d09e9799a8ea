-- ===== src/Otp/Service.antt =====
-- The public methods of `OTPService`.
use ziona_server.Base.{
  ℕ, Bool, true, false, not, ◌&&◌, Option, none, some, if◌then◌else◌, Text, lower, strip, text_eq,
  is_empty, pure, ◌>>=◌, ◌>>◌,
}
use ziona_server.Accounts.User.{User, get_by_email}
use ziona_server.Accounts.Status.{ensure_account_can_authenticate}
use ziona_server.Otp.World.{
  Purpose, registration, email_verification, password_reset, account_deactivation, account_deletion,
  password_change, verify, unknown, Env, invalid_purpose, user_not_found, email_already_verified,
  email_already_registered, email_required, email_not_verified, otp_expired, invalid_otp,
  otp_validation_failed, token_storage_failed, account_status, M, raise, raise_if, except_infra,
}
use ziona_server.Otp.Redis.{get_code, delete_code, setex_reset_token}
use ziona_server.Otp.Limits.{
  check_attempts, increment_attempts, check_resend_limit, increment_resend_count,
  prepare_progressive_resend,
}
use ziona_server.Otp.Send.{send_otp}
use ziona_server.Otp.Verify.{
  max_attempts, clear_code, clear_verification, check_code, Session, start_session,
}

-- `purpose in VALID_OTP_PURPOSES`
abbrev pub is_valid_purpose : Purpose → Bool
is_valid_purpose password_change = false
is_valid_purpose verify = false
is_valid_purpose unknown = false
is_valid_purpose p = true

-- `purpose in ("registration", "email_verification")`
abbrev pub is_signup : Purpose → Bool
is_signup registration = true
is_signup email_verification = true
is_signup p = false

-- `purpose in ACCOUNT_ACTION_PURPOSES`
abbrev pub is_account_action : Purpose → Bool
is_account_action account_deactivation = true
is_account_action account_deletion = true
is_account_action p = false

abbrev pub is_email_verification : Purpose → Bool
is_email_verification email_verification = true
is_email_verification p = false

abbrev pub is_password_reset : Purpose → Bool
is_password_reset password_reset = true
is_password_reset p = false

-- `email.lower().strip()`
unfoldable pub normalize : Text → Text
normalize email = strip (lower email)

-- `ensure_account_can_authenticate` as a method call that raises.
abbrev pub ensure : User → M (Unit {0})
ensure u = elim (ensure_account_can_authenticate u) [
  | none ↦ pure tt
  | some e ↦ raise (account_status e)
]

-- `User.objects.get(email=…)` with the handler of `DoesNotExist`.
abbrev pub get_user_or : {A : Type 0} → Text → M A → (User → M A) → M A
get_user_or email missing found w = elim (get_by_email email w.users) [
  | none ↦ missing w
  | some u ↦ found u w
]

pub record Sent : Type 0 where
  pub purpose : Purpose
  pub expires_in : ℕ
  pub resend_after : ℕ

pub data Verified : Type 0 where
  session : Session → Verified
  reset_token : ℕ → Verified
  action_verified : Purpose → Verified

module _ (env : Env) where
  -- `unified_send_otp`
  unfoldable pub unified_send_otp : Text → Purpose → M Sent
  unfolding prepare_progressive_resend send_otp normalize get_by_email
      ensure_account_can_authenticate
  unified_send_otp raw_email purpose =
      let email = normalize raw_email in
      do
        raise_if (not (is_valid_purpose purpose)) invalid_purpose
        get_user_or email
            (if is_password_reset purpose
              then pure (record { purpose = purpose; expires_in = 600; resend_after = 0 })
              else raise user_not_found)
            (λ user. do
              ensure user
              raise_if (is_signup purpose && user.is_email_verified) (
                  if is_email_verification purpose
                  then email_already_verified
                  else email_already_registered)
              resend_after ← prepare_progressive_resend env email purpose
              send_otp env email user.id purpose
              pure (record { purpose = purpose; expires_in = 600; resend_after = resend_after }))

  -- `send_password_change_otp`
  unfoldable pub send_password_change_otp : User → M Sent
  unfolding prepare_progressive_resend send_otp normalize ensure_account_can_authenticate
  send_password_change_otp user = do
    ensure user
    raise_if (is_empty user.email) email_required
    raise_if (not user.is_email_verified) email_not_verified
    let email = normalize user.email
    resend_after ← prepare_progressive_resend env email password_change
    send_otp env email user.id password_change
    pure (record { purpose = password_change; expires_in = 600; resend_after = resend_after })

  -- `verify_password_change_otp`: the comparison after the code was read.
  unfoldable pub compare_password_change : User → Text → Text → Option Text → M (Unit {0})
  unfolding increment_attempts
  compare_password_change user email given none = raise otp_expired
  compare_password_change user email given (some stored) =
      if text_eq stored (strip given)
      then delete_code env password_change user.id
      else (do increment_attempts env email password_change; raise (invalid_otp none))

  -- `verify_password_change_otp`
  unfoldable pub verify_password_change_otp : User → Text → M (Unit {0})
  unfolding check_attempts compare_password_change normalize
  verify_password_change_otp user given =
      let email = normalize user.email in
      do
        check_attempts env email password_change 5
        except_infra
            (do
              stored ← get_code env password_change user.id
              compare_password_change user email given stored)
            (raise otp_validation_failed)

  -- What `unified_verify_otp` returns once the code was right.
  unfoldable pub complete : Text → User → Purpose → M Verified
  unfolding start_session
  complete email user purpose =
      if is_signup purpose
      then (do s ← start_session env user; pure (session s))
      else if is_password_reset purpose
      then (do
        except_infra
            (setex_reset_token env env.uuid 900 (record { email = email; user_id = user.id }))
            (raise token_storage_failed)
        pure (reset_token env.uuid))
      else if is_account_action purpose
      then pure (action_verified purpose)
      else raise invalid_purpose

  -- `unified_verify_otp`
  unfoldable pub unified_verify_otp : Text → Text → Purpose → M Verified
  unified_verify_otp raw_email given purpose =
      let email = normalize raw_email in
      do
        raise_if (not (is_valid_purpose purpose)) invalid_purpose
        get_user_or email (raise (invalid_otp none)) (λ user. do
          ensure user
          raise_if (is_signup purpose && user.is_email_verified) email_already_verified
          check_attempts env email purpose max_attempts
          check_code env (clear_code env email user.id purpose) email user.id given purpose
          complete email user purpose)

  -- `verify_account_action_otp`
  unfoldable pub verify_account_action_otp : Text → ℕ → Text → Purpose → M (Unit {0})
  unfolding check_attempts check_code clear_code normalize
  verify_account_action_otp raw_email user_id raw_code purpose =
      let email = normalize raw_email in
      do
        raise_if (not (is_account_action purpose)) invalid_purpose
        check_attempts env email purpose max_attempts
        check_code env (clear_code env email user_id purpose) email user_id (strip raw_code) purpose

  -- `send_verification_otp`
  unfoldable pub send_verification_otp : Text → M Bool
  unfolding send_otp normalize get_by_email ensure_account_can_authenticate
  send_verification_otp raw_email =
      let email = normalize raw_email in
      get_user_or email (pure true) (λ user. do
        ensure user
        raise_if user.is_email_verified email_already_verified
        send_otp env email user.id verify
        pure true)

  -- `verify_email_otp`
  unfoldable pub verify_email_otp : Text → Text → M Session
  unfolding check_attempts check_code clear_verification start_session normalize get_by_email
      ensure_account_can_authenticate
  verify_email_otp raw_email given =
      let email = normalize raw_email in
      get_user_or email (raise (invalid_otp none)) (λ user. do
        ensure user
        raise_if user.is_email_verified email_already_verified
        check_attempts env email verify max_attempts
        check_code env (clear_verification env email user.id verify) email user.id given verify
        start_session (record env { ip_address = none }) user)

  -- `resend_verification_otp`
  unfoldable pub resend_verification_otp : Text → M ℕ
  unfolding check_resend_limit increment_resend_count send_otp normalize get_by_email
      ensure_account_can_authenticate
  resend_verification_otp raw_email =
      let email = normalize raw_email in
      do
        check_resend_limit env email verify 3
        get_user_or email (raise user_not_found) (λ user. do
          ensure user
          raise_if user.is_email_verified email_already_verified
          send_otp env email user.id verify
          increment_resend_count env email verify
          pure 600)
