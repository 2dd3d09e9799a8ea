-- ===== src/Accounts/Store.antt =====
-- The database rows and the Redis state that account actions touch, and the errors they raise.
use ziona_server.Base.{
  ℕ, Bool, Option, List, ◌==◌, if◌then◌else◌, Text, map, Method, ok, err, fail, fail_if, find_first,
}
use ziona_server.Accounts.User.{User, Status}
use ziona_server.Accounts.Status.{StatusError}
use ziona_server.Otp.World.{World, Env, Error}

-- `AccountDeletionStatus`
pub data DeletionStatus : Type 0 where
  pending cancelled purging completed failed : DeletionStatus

-- `AccountDeletionRequest`
pub record DeletionRequest : Type 0 where
  pub id : ℕ
  pub user_id : ℕ
  pub status : DeletionStatus
  pub requested_at : ℕ
  pub scheduled_for : ℕ
  pub cancelled_at : Option ℕ
  pub completed_at : Option ℕ
  pub retry_count : ℕ
  pub failure_code : Text
  pub updated_at : ℕ

-- `DeviceToken`: the owner and whether push is on.
pub record Device : Type 0 where
  pub user_id : ℕ
  pub is_active : Bool

-- `UsernameReservation`
pub record Reservation : Type 0 where
  pub username : Text
  pub owner_id : ℕ
  pub expires_at : ℕ

-- `ModerationActionType`
pub data ModerationType : Type 0 where
  warned_type suspended_type deleted_type reactivated_type : ModerationType

-- `ModerationAction`; its `metadata` repeats what the audit entry says.
pub record ModerationAction : Type 0 where
  pub user_id : ℕ
  pub action_type : ModerationType
  pub reason : Text
  pub admin_id : ℕ

pub data AuditAction : Type 0 where
  user_warned user_suspended user_deleted user_permanently_deleted : AuditAction
  user_restored user_reactivated : AuditAction

-- `AdminAuditLog`, written by `log_admin_action`; `before_status` and `reason` are in `details`.
pub record AuditEntry : Type 0 where
  pub admin_id : ℕ
  pub action : AuditAction
  pub target_id : ℕ
  pub before_status : Option Status
  pub reason : Text

pub record Store : Type 0 where
  pub world : World  -- the user table, the activity marks, the mail queue and Redis
  pub requests : List DeletionRequest
  pub devices : List Device
  pub reservations : List Reservation
  pub moderation : List ModerationAction  -- newest first
  pub audit : List AuditEntry  -- newest first

pub data RecoveryReason : Type 0 where
  reason_deactivated reason_pending_deletion : RecoveryReason

-- The claims of a signed token that the JWT library has decoded; `none` as the reason is a token of
-- another type.
pub record Claims : Type 0 where
  pub user_id : ℕ
  pub recovery_reason : Option RecoveryReason

-- What an action is given from outside. `decode` is `jwt.decode`, which answers `none` for a token
-- that is expired or not validly signed, and `check_password` is Django's hasher.
pub record ActionEnv : Type 0 where
  pub env : Env
  pub grace_days : ℕ  -- ACCOUNT_DELETION_GRACE_DAYS
  pub request_id : ℕ  -- the id of a row that is created
  pub check_password : Text → Text → Bool
  pub decode : Text → Option Claims

pub data ActionError : Type 0 where
  deletion_acknowledgement_required user_not_found password_auth_unavailable : ActionError
  invalid_credentials reauthentication_required confirmation_required : ActionError
  invalid_recovery_token invalid_recovery_state recovery_window_expired : ActionError
  auth_service_unavailable : ActionError
  account_status : StatusError → ActionError
  otp_error : Error → ActionError

abbrev pub Action : Type 0 → Type 0
Action = Method Store ActionError

abbrev pub refuse : {A : Type 0} → ActionError → Action A
refuse = fail

abbrev pub refuse_if : Bool → ActionError → Action (Unit {0})
refuse_if = fail_if

-- `save(update_fields=[…])` and `filter(id=…).update(…)`: the named columns of one row.
unfoldable pub update_user : ℕ → (User → User) → List User → List User
update_user i f = map (λ u. if u.id == i then f u else u)

abbrev pub set_user : ℕ → (User → User) → Store → Store
set_user i f s = record s { world = record (s.world) { users = update_user i f s.world.users } }

abbrev pub has_user : ℕ → DeletionRequest → Bool
has_user i r = r.user_id == i

-- `AccountDeletionRequest.objects.filter(user=…).first()`; the relation is one to one.
unfoldable pub get_request : ℕ → List DeletionRequest → Option DeletionRequest
get_request i = find_first (has_user i)

unfoldable pub update_request :
    ℕ → (DeletionRequest → DeletionRequest) → List DeletionRequest → List DeletionRequest
update_request i f = map (λ r. if r.user_id == i then f r else r)

-- `@transaction.atomic`: an exception undoes what was written to the database. Redis and the mail
-- queue are no part of the transaction.
unfoldable pub roll_back : Store → Store → Store
roll_back before after = record before {
  world = record (after.world) { users = before.world.users; activity = before.world.activity };
}

unfoldable pub atomic : {A : Type 0} → Action A → Action A
unfolding roll_back
atomic m s = let (r, t) = m s in elim r [ ok a ↦ (ok a, t) | err e ↦ (err e, roll_back s t) ]
