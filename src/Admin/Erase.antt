-- ===== src/Admin/Erase.antt =====
-- `anonymize_user_for_permanent_delete` (core/users/account_lifecycle.py): the row stays, the person
-- goes.
use ziona_server.Base.{
  ℕ, zero, suc, ◌+◌, ◌/◌, ◌%◌, false, none, some, [], ◌∷◌, ◌++◌, ltb, if◌then◌else◌, Text, codes,
  take,
}
use ziona_server.Accounts.User.{User, Role, Status, deleted, Identity}
use ziona_server.Accounts.Store.{Store, set_user}
use ziona_server.Usernames.Policy.{reserve_released_username}
use ziona_server.Admin.Rules.{anonymized_suffix}

hex_digit : ℕ → ℕ
hex_digit d = if ltb d 10 then 48 + d else 87 + d

-- `UUID.hex`: the last `n` hexadecimal digits of a number.
unfoldable pub hex_digits : ℕ → ℕ → Text
unfolding hex_digit
hex_digits zero i = []
hex_digits (suc n) i = hex_digits n (i / 16) ++ hex_digit (i % 16) ∷ []

unfoldable pub id_token : ℕ → Text
unfolding hex_digits
id_token i = hex_digits 32 i

unfoldable pub anonymous_email : ℕ → Text
unfolding id_token anonymized_suffix
anonymous_email i = take 255 (codes "deleted-" ++ (id_token i ++ anonymized_suffix))

unfoldable pub anonymous_username : ℕ → Text
unfolding id_token
anonymous_username i = codes "deleted_" ++ take 22 (id_token i)

abbrev pub nobody : Identity
nobody = record {
  full_name = [];
  bio = [];
  bio_link = [];
  avatar_url = [];
  location = [];
  encrypted_dob = none;
  auth_provider = codes "email";
  firebase_uid = none;
  social_auth_provider = none;
  google_id = none;
  apple_sub = none;
  last_login_ip = none;
  password = none;
}

-- The columns that are written.
unfoldable pub anonymized : ℕ → ℕ → User → User
unfolding anonymous_email anonymous_username
anonymized i now u = record u {
  email = anonymous_email i;
  username = some (anonymous_username i);
  role = Role.user;
  is_email_verified = false;
  needs_username_selection = false;
  hide_like_count = false;
  status = Status.active;
  lifecycle_state = deleted;
  warned_at = none;
  suspended_at = none;
  suspension_reason = [];
  is_active = false;
  is_staff = false;
  deleted_at = some now;
  identity = nobody;
}

-- `anonymize_user_for_permanent_delete`
unfoldable pub anonymize_user : User → ℕ → Store → Store
unfolding anonymized
anonymize_user u now s = record (set_user u.id (anonymized u.id now) s) {
  reservations = reserve_released_username u.username u.id now s.reservations;
}
