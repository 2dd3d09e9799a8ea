-- ===== src/Otp/World.antt =====
-- What the service of one-time codes reads and writes: Redis, the user table, the mail queue; and
-- the monad of its methods.
--
-- A Redis key is an f-string of a fixed prefix, a purpose and an email or user id. Purposes hold no
-- colon and the prefixes differ, so each prefix is a table of its own. Every key of the service
-- carries an expiry. `outage` is the fault model: for each of the next commands, whether it fails;
-- the commands beyond the list are answered, so `[]` is a healthy Redis. Each command fails on its
-- own.
use ziona_server.Base.{
  ◌≡◌, arith, ℕ, Bool, true, ◌&&◌, Option, List, ◌==◌, if◌then◌else◌, Text, text_eq, Method, ok,
  err, pure, fail, fail_if,
}
use ziona_server.Accounts.User.{User}
use ziona_server.Accounts.Status.{StatusError}

-- The purposes of the service, and any other text that a client sends (`unknown`).
pub data Purpose : Type 0 where
  registration email_verification password_reset account_deactivation account_deletion : Purpose
  password_change verify unknown : Purpose

purpose_tag : Purpose → ℕ
purpose_tag registration = 0
purpose_tag email_verification = 1
purpose_tag password_reset = 2
purpose_tag account_deactivation = 3
purpose_tag account_deletion = 4
purpose_tag password_change = 5
purpose_tag verify = 6
purpose_tag unknown = 7

unfoldable pub same_purpose : Purpose → Purpose → Bool
unfolding purpose_tag
same_purpose p q = purpose_tag p == purpose_tag q

-- A value with the second at which it expires.
pub record Entry (V : Type 0) : Type 0 where
  pub value : V
  pub expires : ℕ

abbrev pub IdTable : Type 0 → Type 0
IdTable V = Purpose → ℕ → Option (Entry V)

abbrev pub EmailTable : Type 0 → Type 0
EmailTable V = Purpose → Text → Option (Entry V)

abbrev pub put_id : {V : Type 0} → IdTable V → Purpose → ℕ → Option (Entry V) → IdTable V
put_id m p i v q j = if same_purpose p q && i == j then v else m q j

abbrev pub put_email :
    {V : Type 0} → EmailTable V → Purpose → Text → Option (Entry V) → EmailTable V
put_email m p e v q f = if same_purpose p q && text_eq e f then v else m q f

-- The JSON stored under `reset_token:…`.
pub record ResetInfo : Type 0 where
  pub email : Text
  pub user_id : ℕ

pub data MailKind : Type 0 where
  verify_email reset_password_email welcome_email : MailKind
  otp_email : Purpose → MailKind
  warned_email suspended_email reactivated_email : MailKind

pub record Mail : Type 0 where
  pub kind : MailKind
  pub recipient : Text
  pub user_name : Text
  pub code : Text

pub record World : Type 0 where
  pub codes : IdTable Text  -- otp:{purpose}:{user_id}
  pub attempts : EmailTable ℕ  -- otp_attempts:{purpose}:{email}
  pub sends : EmailTable ℕ  -- otp:resend:{purpose}:{email}
  pub cooldowns : EmailTable (Unit {0})  -- otp:cooldown:{purpose}:{email}
  pub resends : EmailTable ℕ  -- otp_resend:{purpose}:{email}
  pub reset_tokens : ℕ → Option (Entry ResetInfo)  -- reset_token:{token}
  pub refresh_tokens : ℕ → ℕ → Option (Entry (Unit {0}))  -- refresh:{user_id}:{jti}
  pub outage : List Bool
  pub users : List User
  pub activity : List (ℕ × ℕ)  -- `UserDailyActivity`: user id and day
  pub outbox : List Mail  -- newest first

-- What a call is given from outside: the clock, the settings, the random draws, the mail broker
-- and the client's address.
pub record Env : Type 0 where
  pub now : ℕ
  pub strict_redis : Bool  -- AUTH_STRICT_REDIS
  pub broker_up : Bool
  pub otp : Text  -- the six random digits
  pub uuid : ℕ
  pub jti : ℕ
  pub ip_address : Option Text

-- The codes of the `AuthenticationError`s, with the details that callers read.
pub data Code : Type 0 where
  invalid_purpose user_not_found email_already_verified email_already_registered : Code
  email_required email_not_verified rate_limit_exceeded max_attempts_reached : Code
  resend_cooldown : ℕ → Code
  otp_expired otp_validation_failed otp_storage_failed otp_email_queue_failed : Code
  otp_service_unavailable auth_service_unavailable token_storage_failed : Code
  invalid_otp : Option ℕ → Code  -- `attemptsRemaining`, where it is reported
  account_status : StatusError → Code

-- An `AuthenticationError`, or any other exception.
pub data Error : Type 0 where
  auth : Code → Error
  infra : Error

abbrev pub M : Type 0 → Type 0
M = Method World Error

abbrev pub raise : {A : Type 0} → Code → M A
raise c = fail (auth c)

abbrev pub raise_if : Bool → Code → M (Unit {0})
raise_if b c = fail_if b (auth c)

-- `try: m` then `k` inside the same block; an exception of `m` that is no `AuthenticationError`
-- goes to the handler.
abbrev pub try_then : {A B : Type 0} → M A → (A → M B) → M B → M B
try_then m k handler w =
    let (r, w') = m w in
    elim r [ ok a ↦ k a w' | err (auth c) ↦ raise c w' | err infra ↦ handler w' ]

-- `try: m; except AuthenticationError: raise; except Exception: handler`
abbrev pub except_infra : {A : Type 0} → M A → M A → M A
except_infra m handler = try_then m pure handler

pub same_purpose_refl : (p : Purpose) → same_purpose p p ≡ true
unfolding same_purpose
same_purpose_refl p = ground arith
