-- ===== src/Accounts/Samples.antt =====
-- Rows and settings for the tests of the account modules.
use ziona_server.Base.{
  ℕ, true, false, Option, none, some, [], ◌∷◌, ◌==◌, ◌&&◌, if◌then◌else◌, Text, codes, text_eq,
}
use ziona_server.Accounts.User.{User, Role, Status, Lifecycle, Identity}
use ziona_server.Accounts.Store.{
  Store, ActionEnv, Claims, reason_deactivated, reason_pending_deletion,
}
use ziona_server.Otp.World.{World, Env, Purpose, account_deletion, Entry, same_purpose}

abbrev pub ada_identity : Identity
ada_identity = record {
  full_name = codes "Ada";
  bio = [];
  bio_link = [];
  avatar_url = [];
  location = [];
  encrypted_dob = none;
  auth_provider = codes "email";
  firebase_uid = none;
  social_auth_provider = none;
  google_id = none;
  apple_sub = none;
  last_login_ip = none;
  password = some (codes "pw");
}

abbrev pub ada : User
ada = record {
  id = 1;
  email = codes "ada@z.app";
  username = some (codes "ada");
  role = Role.user;
  is_email_verified = true;
  needs_username_selection = false;
  hide_like_count = false;
  status = Status.active;
  lifecycle_state = Lifecycle.active;
  warned_at = none;
  suspended_at = none;
  suspension_reason = [];
  is_active = true;
  is_staff = false;
  created_at = 0;
  deleted_at = none;
  token_invalid_before = none;
  last_login = none;
  last_username_change = none;
  grace_username_changes = 0;
  identity = ada_identity;
}

abbrev pub bob : User
bob = record ada { id = 2; email = codes "bob@z.app"; username = some (codes "bob") }

-- A code for Ada's deletion is stored until second 600.
abbrev pub stored_code : Purpose → ℕ → Option (Entry Text)
stored_code p i =
    if same_purpose account_deletion p && 1 == i
    then some (record { value = codes "123456"; expires = 600 })
    else none

abbrev pub quiet : World
quiet = record {
  codes = stored_code;
  attempts = λ p e. none;
  sends = λ p e. none;
  cooldowns = λ p e. none;
  resends = λ p e. none;
  reset_tokens = λ t. none;
  refresh_tokens = λ i j. none;
  outage = [];
  users = ada ∷ bob ∷ [];
  activity = [];
  outbox = [];
}

abbrev pub at : ℕ → Env
at time = record {
  now = time;
  strict_redis = false;
  broker_up = true;
  otp = codes "777777";
  uuid = 70;
  jti = 80;
  ip_address = none;
}

abbrev pub tables : Store
tables = record {
  world = quiet;
  requests = [];
  devices = record { user_id = 1; is_active = true } ∷ [];
  reservations = [];
  moderation = [];
  audit = [];
}

-- Two recovery tokens of Ada's decode.
abbrev pub decode : Text → Option Claims
decode t =
    if text_eq t (codes "back")
    then some (record { user_id = 1; recovery_reason = some reason_deactivated })
    else if text_eq t (codes "undo")
    then some (record { user_id = 1; recovery_reason = some reason_pending_deletion })
    else none

abbrev pub action_at : ℕ → ActionEnv
action_at time = record {
  env = at time;
  grace_days = 30;
  request_id = 5;
  check_password = text_eq;
  decode = decode;
}
