-- ===== src/Otp/Verify.antt =====
-- The check of a code against the stored one, and the session that a verified user gets.
use ziona_server.Base.{
  ℕ, ◌-◌, ◌/◌, Bool, true, Option, none, some, [], ◌∷◌, ◌==◌, ◌&&◌, if◌then◌else◌, Text, text_eq,
  is_some, find_first, pure, modify, ◌>>=◌, ◌>>◌, fail,
}
use ziona_server.Accounts.User.{User, Role, save}
use ziona_server.Otp.World.{
  Purpose, welcome_email, Env, otp_expired, invalid_otp, otp_validation_failed,
  auth_service_unavailable, M, raise, except_infra, infra,
}
use ziona_server.Otp.Redis.{
  get_code, delete_code, get_attempts, delete_attempts, delete_sends, delete_cooldown,
  setex_refresh, count_of,
}
use ziona_server.Otp.Limits.{increment_attempts}
use ziona_server.Otp.Send.{display_name, try_queue_mail}

abbrev pub max_attempts : ℕ
max_attempts = 5

module _ (env : Env) where
  -- The keys that a right code clears.
  unfoldable pub clear_code : Text → ℕ → Purpose → M (Unit {0})
  clear_code email user_id purpose = do
    delete_code env purpose user_id
    delete_attempts env purpose email
    delete_sends env purpose email
    delete_cooldown env purpose email

  -- In the older flow of email verification the resend keys are left alone.
  unfoldable pub clear_verification : Text → ℕ → Purpose → M (Unit {0})
  clear_verification email user_id purpose = do
    delete_code env purpose user_id
    delete_attempts env purpose email

  -- The comparison with the stored code, after both keys were read.
  unfoldable pub compare_code :
      M (Unit {0}) → Text → Text → Purpose → Option Text → ℕ → M (Unit {0})
  unfolding increment_attempts
  compare_code clear email given purpose none used = do
    increment_attempts env email purpose
    raise otp_expired
  compare_code clear email given purpose (some stored) used =
      if text_eq stored given then clear else (do
        increment_attempts env email purpose
        raise (invalid_otp (some (max_attempts - used - 1))))

  -- The `try` block that checks a code.
  unfoldable pub check_code : M (Unit {0}) → Text → ℕ → Text → Purpose → M (Unit {0})
  unfolding compare_code
  check_code clear email user_id given purpose =
      except_infra
        (do
          stored ← get_code env purpose user_id
          current ← get_attempts env purpose email
          compare_code clear email given purpose stored (count_of current))
        (raise otp_validation_failed)

-- `record_daily_activity`: one row for each user and day.
abbrev pub same_mark : ℕ → ℕ → ℕ × ℕ → Bool
same_mark user_id day mark = mark.0 == user_id && mark.1 == day

unfoldable pub record_daily_activity : Env → ℕ → M (Unit {0})
record_daily_activity env user_id = modify (λ w.
    if is_some (find_first (same_mark user_id (env.now / 86400)) w.activity)
    then w
    else record w { activity = (user_id, env.now / 86400) ∷ w.activity })

-- `record_successful_auth`: the user with the columns set, which is saved.
abbrev pub logged_in : Env → User → User
logged_in env u = elim env.ip_address [
  | none ↦ record u { last_login = some env.now }
  | some ip ↦ record u {
    last_login = some env.now;
    identity = record (u.identity) { last_login_ip = some ip };
  }
]

unfoldable pub record_successful_auth : Env → User → M User
unfolding save record_daily_activity
record_successful_auth env u =
    let u' = logged_in env u in
    do modify (λ w. record w { users = save u' w.users }); record_daily_activity env u'.id; pure u'

-- The claims of the two tokens. Encoding and signing them is the JWT library's.
pub record Session : Type 0 where
  pub user : User
  pub access_user_id : ℕ
  pub access_role : Role
  pub refresh_user_id : ℕ
  pub refresh_jti : ℕ

-- `TokenService.generate_refresh_token`; the lifetime is thirty days. Its `TokenError` is no
-- `AuthenticationError`.
unfoldable pub generate_refresh_token : Env → ℕ → M ℕ
generate_refresh_token env user_id =
    except_infra (setex_refresh env user_id env.jti 2592000 >> pure env.jti)
      (if env.strict_redis then fail infra else pure env.jti)

-- From `user.is_email_verified = True` to the returned dictionary: the same lines in
-- `unified_verify_otp` and `verify_email_otp`.
unfoldable pub start_session : Env → User → M Session
unfolding record_successful_auth generate_refresh_token try_queue_mail save
start_session env u =
    let verified = record u { is_email_verified = true } in
    do
      modify (λ w. record w { users = save verified w.users })
      u' ← record_successful_auth env verified
      jti ← except_infra (generate_refresh_token env u'.id) (raise auth_service_unavailable)
      try_queue_mail env (record {
        kind = welcome_email;
        recipient = u'.email;
        user_name = display_name u'.username u'.identity.full_name [];
        code = [];
      })
      pure (record {
        user = u';
        access_user_id = u'.id;
        access_role = u'.role;
        refresh_user_id = u'.id;
        refresh_jti = jti;
      })
