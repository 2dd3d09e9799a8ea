-- ===== src/Otp/Send.antt =====
-- `_send_otp`: a code is drawn, stored for ten minutes and queued for delivery.
use ziona_server.Base.{
  ℕ, Bool, true, false, Option, none, some, ◌∷◌, if◌then◌else◌, Text, codes, is_empty, pure, fail,
  gets, modify, ◌>>=◌, ◌>>◌,
}
use ziona_server.Accounts.User.{User, get_any_by_id}
use ziona_server.Otp.World.{
  Purpose, registration, email_verification, password_reset, verify, MailKind, verify_email,
  reset_password_email, otp_email, Mail, Env, infra, otp_storage_failed, otp_email_queue_failed, M,
  raise, raise_if, except_infra,
}
use ziona_server.Otp.Redis.{setex_code}

-- `user.username or user.full_name or fallback`
abbrev pub name_or : Text → Text → Text
name_or full_name fallback = if is_empty full_name then fallback else full_name

abbrev pub display_name : Option Text → Text → Text → Text
display_name none full_name fallback = name_or full_name fallback
display_name (some name) full_name fallback =
    if is_empty name then name_or full_name fallback else name

abbrev pub greeting : Option User → Text
greeting none = codes "Friend"
greeting (some u) = display_name u.username u.identity.full_name (codes "Friend")

-- `queue_email_delivery`: the broker takes the mail, or raises.
unfoldable pub queue_mail : Env → Mail → M (Unit {0})
queue_mail env m =
    if env.broker_up then modify (λ w. record w { outbox = m ∷ w.outbox }) else fail infra

-- `EmailService.send_verify_email` and `send_reset_password` answer whether the mail was queued.
unfoldable pub try_queue_mail : Env → Mail → M Bool
unfolding queue_mail
try_queue_mail env m = except_infra (queue_mail env m >> pure true) (pure false)

-- The mail that carries a code, by purpose.
abbrev pub mail_kind : Purpose → MailKind
mail_kind registration = verify_email
mail_kind email_verification = verify_email
mail_kind verify = verify_email
mail_kind password_reset = reset_password_email
mail_kind p = otp_email p

-- Whether the delivery of a purpose goes through an `EmailService` method.
abbrev pub has_template : Purpose → Bool
has_template registration = true
has_template email_verification = true
has_template verify = true
has_template password_reset = true
has_template p = false

unfoldable pub deliver : Env → Purpose → Mail → M (Unit {0})
unfolding try_queue_mail queue_mail
deliver env purpose mail =
    if has_template purpose
    then (do
      queued ← try_queue_mail env mail
      raise_if (if queued then false else true) otp_email_queue_failed)
    else queue_mail env mail

-- `_send_otp`
unfoldable pub send_otp : Env → Text → ℕ → Purpose → M (Unit {0})
unfolding deliver get_any_by_id
send_otp env email user_id purpose = do
  except_infra (setex_code env purpose user_id 600 env.otp) (raise otp_storage_failed)
  owner ← gets (λ w. get_any_by_id user_id w.users)
  deliver env purpose (record {
    kind = mail_kind purpose;
    recipient = email;
    user_name = greeting owner;
    code = env.otp;
  })
