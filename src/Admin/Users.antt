-- ===== src/Admin/Users.antt =====
-- `UserManagementService` (core/admin_dashboard/user_services.py): the moderation of accounts. Each
-- method runs in a transaction and raises before it writes anything.
use ziona_server.Base.{
  ℕ, Bool, true, false, not, ◌&&◌, ◌||◌, Option, none, some, [], ◌∷◌, ◌==◌, if◌then◌else◌, is_some,
  Text, codes, text_eq, strip, is_empty, find_first, filter_out, Method, ok, err,
}
use ziona_server.Accounts.User.{
  User, Status, Lifecycle, deleted, is_admin, is_active_state, is_suspended, is_warned, is_visible,
  has_id, get_any_by_id,
}
use ziona_server.Accounts.Store.{
  Store, ActionEnv, ModerationType, warned_type, suspended_type, deleted_type, reactivated_type,
  ModerationAction, AuditAction, user_warned, user_suspended, user_deleted,
  user_permanently_deleted, user_restored, user_reactivated, set_user,
}
use ziona_server.Accounts.Actions.{revoke_user_sessions}
use ziona_server.Otp.World.{MailKind, warned_email, suspended_email, reactivated_email, Env}
use ziona_server.Otp.Send.{name_or}
use ziona_server.Admin.Rules.{
  AdminAction, warn, suspend, delete, reactivate, restore, permanently_delete, offers,
  is_anonymized, is_admin_soft_deleted, available_actions,
}
use ziona_server.Admin.Erase.{anonymize_user}

pub data AdminError : Type 0 where
  validation_error user_not_found permission_denied user_already_warned : AdminError
  user_already_suspended user_cannot_delete_self user_not_restorable : AdminError

abbrev pub Admin : Type 0 → Type 0
Admin = Method Store AdminError

-- `_validate_reason`
abbrev pub with_reason : {A : Type 0} → Text → (Text → Admin A) → Admin A
with_reason reason k s =
    if is_empty (strip reason) then (err validation_error, s) else k (strip reason) s

-- `_ensure_action_available`
abbrev pub if_available : {A : Type 0} → User → AdminAction → Admin A → Admin A
if_available u action k s =
    if offers (available_actions u) action then k s else (err validation_error, s)

abbrev pub visible_id : ℕ → User → Bool
visible_id i u = is_visible u && has_id i u

-- `User.objects.filter(id=…, deleted_at__isnull=True).first()`
abbrev pub find_visible : {A : Type 0} → ℕ → (User → Admin A) → Admin A
find_visible i k s = elim (find_first (visible_id i) s.world.users) [
  | none ↦ (err user_not_found, s)
  | some u ↦ k u s
]

abbrev pub add_action : ℕ → ModerationType → Text → ℕ → Store → Store
add_action user_id type reason admin_id s = record s {
  moderation =
      record { user_id = user_id; action_type = type; reason = reason; admin_id = admin_id }
      ∷ s.moderation;
}

-- `log_admin_action`
abbrev pub add_audit : ℕ → AuditAction → ℕ → Option Status → Text → Store → Store
add_audit admin_id action target_id before_status reason s = record s {
  audit =
      record {
        admin_id = admin_id;
        action = action;
        target_id = target_id;
        before_status = before_status;
        reason = reason;
      }
      ∷ s.audit;
}

abbrev pub moderation_name : User → Text
moderation_name u = elim u.username [
  | none ↦ u.identity.full_name
  | some name ↦ name_or u.identity.full_name name
]

-- `_queue_moderation_email`, which runs after the commit; a broker that is down is ignored.
abbrev pub queue_email : Env → User → MailKind → Store → Store
queue_email env u kind s = if is_empty u.email || not env.broker_up then s else record s {
  world = record (s.world) {
    outbox =
        record { kind = kind; recipient = u.email; user_name = moderation_name u; code = [] }
        ∷ s.world.outbox;
  };
}

abbrev pub revoke : ActionEnv → ℕ → Bool → Store → Store
revoke a user_id delete_device_tokens s = (revoke_user_sessions a user_id delete_device_tokens s).1

abbrev pub set_warned : ℕ → User → User
set_warned now u = record u { status = Status.warned; warned_at = some now }

-- `warn_user`
unfoldable pub warn_user : ActionEnv → ℕ → ℕ → Text → Admin User
warn_user a admin_id user_id raw_reason = with_reason raw_reason (λ reason.
    find_visible user_id (λ u s.
      if is_admin u
      then (err permission_denied, s)
      else if is_warned u.status
      then (err user_already_warned, s)
      else if_available u warn
          (λ t. (
            ok (set_warned a.env.now u),
            queue_email a.env u warned_email (
                add_audit admin_id user_warned u.id (some u.status) reason (
                  add_action u.id warned_type reason admin_id
                    (set_user u.id (set_warned a.env.now) t))),
          ))
          s))

abbrev pub set_suspended : ℕ → Text → User → User
set_suspended now reason u = record u {
  status = Status.suspended;
  suspended_at = some now;
  suspension_reason = reason;
}

-- `suspend_user`
unfoldable pub suspend_user : ActionEnv → ℕ → ℕ → Text → Admin User
suspend_user a admin_id user_id raw_reason = with_reason raw_reason (λ reason.
    find_visible user_id (λ u s.
      if is_admin u
      then (err permission_denied, s)
      else if is_suspended u.status
      then (err user_already_suspended, s)
      else if_available u suspend
          (λ t. (
            ok (set_suspended a.env.now reason u),
            queue_email a.env u suspended_email (
                add_audit admin_id user_suspended u.id (some u.status) reason (
                  add_action u.id suspended_type reason admin_id
                    (revoke a u.id false (set_user u.id (set_suspended a.env.now reason) t)))),
          ))
          s))

abbrev pub set_deleted : ℕ → User → User
set_deleted now u = record u { deleted_at = some now; is_active = false; lifecycle_state = deleted }

-- `delete_user`; the audit details of a deletion hold no status.
unfoldable pub delete_user : ActionEnv → ℕ → ℕ → Admin (Unit {0})
delete_user a admin_id user_id s =
    if admin_id == user_id
    then (err user_cannot_delete_self, s)
    else find_visible user_id
        (λ u s.
          if is_admin u
          then (err permission_denied, s)
          else if_available u delete
              (λ t. (
                ok tt,
                add_audit admin_id user_deleted u.id none (codes "Admin deleted account") (
                    add_action u.id deleted_type (codes "Admin deleted account") admin_id
                      (revoke a u.id true (set_user u.id (set_deleted a.env.now) t))),
              ))
              s)
        s

-- The accounts that `permanently_delete_user` reaches.
abbrev pub is_reachable : User → Bool
is_reachable u =
    is_admin_soft_deleted u || (not (is_some u.deleted_at) && is_active_state u.lifecycle_state)

abbrev pub acted_on : ℕ → ModerationAction → Bool
acted_on i m = m.user_id == i

abbrev pub drop_actions : ℕ → Store → Store
drop_actions i s = record s { moderation = filter_out (acted_on i) s.moderation }

-- `permanently_delete_user`. The person's content and media are no part of this store.
unfoldable pub permanently_delete_user : ActionEnv → ℕ → ℕ → Text → Text → Bool → Admin (Unit {0})
unfolding anonymize_user
permanently_delete_user a admin_id user_id raw_reason confirmation acknowledged =
    with_reason raw_reason (λ reason s.
      if admin_id == user_id
      then (err user_cannot_delete_self, s)
      else if not acknowledged
      then (err validation_error, s)
      else elim (get_any_by_id user_id s.world.users) [
        | none ↦ (err user_not_found, s)
        | some u ↦
            if not (is_reachable u)
            then (err user_not_found, s)
            else if is_admin u
            then (err permission_denied, s)
            else if_available u (if is_admin_soft_deleted u then permanently_delete else delete)
                (λ t. if not (text_eq confirmation u.email) then (err validation_error, t) else (
                  ok tt,
                  add_audit admin_id user_permanently_deleted u.id (some u.status) reason
                      (anonymize_user u a.env.now (drop_actions u.id (revoke a u.id true t))),
                ))
                s
      ])

abbrev pub set_restored : User → User
set_restored u = record u {
  deleted_at = none;
  is_active = true;
  lifecycle_state = Lifecycle.active;
}

abbrev pub or_default : Text → Text
or_default reason = if is_empty (strip reason) then codes "Restored by admin" else strip reason

-- `restore_user`
unfoldable pub restore_user : ActionEnv → ℕ → ℕ → Text → Admin User
restore_user a admin_id user_id reason s = elim (get_any_by_id user_id s.world.users) [
  | none ↦ (err user_not_found, s)
  | some u ↦
      if is_admin u
      then (err permission_denied, s)
      else if is_anonymized u
      then (err user_not_restorable, s)
      else if_available u restore
          (λ t. (
            ok (set_restored u),
            add_audit admin_id user_restored u.id (some u.status) (or_default reason) (
                add_action u.id reactivated_type (or_default reason) admin_id
                  (set_user u.id set_restored t)),
          ))
          s
]

abbrev pub set_reactivated : User → User
set_reactivated u = record u {
  status = Status.active;
  warned_at = none;
  suspended_at = none;
  suspension_reason = [];
  is_active = true;
  lifecycle_state = Lifecycle.active;
}

-- `reactivate_user`
unfoldable pub reactivate_user : ActionEnv → ℕ → ℕ → Admin User
reactivate_user a admin_id user_id s = elim (get_any_by_id user_id s.world.users) [
  | none ↦ (err user_not_found, s)
  | some u ↦
      if is_some u.deleted_at
      then (err user_not_found, s)
      else if_available u reactivate
          (λ t. (
            ok (set_reactivated u),
            queue_email a.env u reactivated_email (
                add_audit admin_id user_reactivated u.id (some u.status) [] (
                  add_action u.id reactivated_type (codes "Admin reactivated account") admin_id
                    (set_user u.id set_reactivated t))),
          ))
          s
]
