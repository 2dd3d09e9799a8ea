-- ===== src/Accounts/User.antt =====
-- core/users/models.py: the columns of `User` that the modelled code reads or writes, and the two
-- managers (core/users/managers.py). Ids are UUIDs, which are only compared; times are seconds.
use ziona_server.Base.{
  ℕ, Bool, true, false, not, ◌&&◌, Option, none, some, List, ◌==◌, if◌then◌else◌, is_some, Text,
  text_eq, find_first, map,
}

pub data Role : Type 0 where
  user admin : Role

pub data Status : Type 0 where
  active warned suspended : Status

-- `UserLifecycleState`
pub data Lifecycle : Type 0 where
  active deactivated pending_deletion deleted : Lifecycle

-- The columns that identify the person behind an account.
pub record Identity : Type 0 where
  pub full_name : Text
  pub bio : Text
  pub bio_link : Text
  pub avatar_url : Text
  pub location : Text
  pub encrypted_dob : Option Text
  pub auth_provider : Text
  pub firebase_uid : Option Text
  pub social_auth_provider : Option Text
  pub google_id : Option Text
  pub apple_sub : Option Text
  pub last_login_ip : Option Text
  pub password : Option Text  -- `none`: an unusable password

pub record User : Type 0 where
  pub id : ℕ
  pub email : Text
  pub username : Option Text
  pub role : Role
  pub is_email_verified : Bool
  pub needs_username_selection : Bool
  pub hide_like_count : Bool
  pub status : Status
  pub lifecycle_state : Lifecycle
  pub warned_at : Option ℕ
  pub suspended_at : Option ℕ
  pub suspension_reason : Text
  pub is_active : Bool
  pub is_staff : Bool
  pub created_at : ℕ
  pub deleted_at : Option ℕ
  pub token_invalid_before : Option ℕ
  pub last_login : Option ℕ
  pub last_username_change : Option ℕ
  pub grace_username_changes : ℕ
  pub identity : Identity

abbrev pub is_admin_role : Role → Bool
is_admin_role user = false
is_admin_role admin = true

-- `User.is_admin`
abbrev pub is_admin : User → Bool
is_admin u = is_admin_role u.role

abbrev pub is_active_state : Lifecycle → Bool
is_active_state Lifecycle.active = true
is_active_state _ = false

abbrev pub is_pending_deletion : Lifecycle → Bool
is_pending_deletion pending_deletion = true
is_pending_deletion _ = false

abbrev pub is_deactivated : Lifecycle → Bool
is_deactivated deactivated = true
is_deactivated _ = false

abbrev pub is_deleted : Lifecycle → Bool
is_deleted deleted = true
is_deleted _ = false

abbrev pub is_suspended : Status → Bool
is_suspended suspended = true
is_suspended _ = false

abbrev pub is_warned : Status → Bool
is_warned warned = true
is_warned _ = false

-- `UserManager.get_queryset`: what `User.objects` shows of the table.
abbrev pub is_visible : User → Bool
is_visible u = not (is_some u.deleted_at) && is_active_state u.lifecycle_state

abbrev pub has_email : Text → User → Bool
has_email e u = is_visible u && text_eq u.email e

abbrev pub has_id : ℕ → User → Bool
has_id i u = u.id == i

-- `User.objects.get(email=…)`; the column is unique. `none` is `User.DoesNotExist`.
unfoldable pub get_by_email : Text → List User → Option User
get_by_email e = find_first (has_email e)

-- `User.all_objects.filter(id=…).first()`
unfoldable pub get_any_by_id : ℕ → List User → Option User
get_any_by_id i = find_first (has_id i)

-- `user.save()`: the row with the same id is overwritten.
unfoldable pub save : User → List User → List User
save u = map (λ v. if v.id == u.id then u else v)

-- `User.soft_delete`
unfoldable pub soft_delete : ℕ → User → User
soft_delete now u = record u { deleted_at = some now; is_active = false; lifecycle_state = deleted }

-- `User.restore`
unfoldable pub restore : User → User
restore u = record u { deleted_at = none; is_active = true; lifecycle_state = Lifecycle.active }
