-- ===== src/Accounts/Actions.antt =====
-- core/authentication/account_actions.py: deactivation and scheduled deletion.
use ziona_server.Base.{
  ℕ, ◌+◌, ◌*◌, Bool, true, false, not, Option, none, some, List, [], ◌∷◌, ◌==◌, if◌then◌else◌,
  is_some, Text, strip, is_empty, map, filter_out, ok, err, pure, modify, ◌>>◌,
}
use ziona_server.Accounts.User.{
  User, deactivated, pending_deletion, is_pending_deletion, get_any_by_id,
}
use ziona_server.Accounts.Status.{ensure_account_can_authenticate}
use ziona_server.Accounts.Store.{
  DeletionStatus, pending, purging, failed, DeletionRequest, Device, ActionEnv,
  deletion_acknowledgement_required, user_not_found, password_auth_unavailable, invalid_credentials,
  reauthentication_required, account_status, otp_error, Action, refuse, refuse_if, set_user,
  get_request, update_request, atomic,
}
use ziona_server.Otp.World.{Purpose, account_deactivation, account_deletion, World, M}
use ziona_server.Otp.Redis.{command}
use ziona_server.Otp.Service.{verify_account_action_otp}

-- A method of the code service, run inside an action.
abbrev pub lift : {A : Type 0} → M A → Action A
lift m s =
    let (r, w) = m s.world in
    elim r [
      | ok a ↦ (ok a, record s { world = w })
      | err e ↦ (err (otp_error e), record s { world = w })
    ]

abbrev pub ensure : User → Action (Unit {0})
ensure u = elim (ensure_account_can_authenticate u) [
  | none ↦ pure tt
  | some e ↦ refuse (account_status e)
]

-- The password branch of `_verify_account_action_reauthentication`.
unfoldable pub check_password_of : ActionEnv → User → Text → Action (Unit {0})
check_password_of a user password = elim user.identity.password [
  | none ↦ refuse password_auth_unavailable
  | some hash ↦ refuse_if (not (a.check_password hash password)) invalid_credentials
]

-- `_verify_account_action_reauthentication`; a missing argument is the empty text, as in the code.
unfoldable pub reauthenticate : ActionEnv → User → Text → Text → Purpose → Action (Unit {0})
unfolding check_password_of
reauthenticate a user password otp purpose s =
    if not (is_empty (strip password))
    then check_password_of a user (strip password) s
    else if not (is_empty (strip otp))
    then lift (verify_account_action_otp a.env user.email user.id (strip otp) purpose) s
    else (err reauthentication_required, s)

-- `TokenService.revoke_all_user_tokens`: the cutoff is written first; a failing Redis is ignored.
abbrev pub drop_refresh_tokens : ℕ → World → World
drop_refresh_tokens user_id w = record w {
  refresh_tokens = λ i j. if i == user_id then none else w.refresh_tokens i j;
}

abbrev pub forget_result : {A : Type 0} → M A → M (Unit {0})
forget_result m w = (ok tt, (m w).1)

unfoldable pub revoke_all_user_tokens : ActionEnv → ℕ → Action (Unit {0})
revoke_all_user_tokens a user_id = do
  modify (set_user user_id (λ u. record u { token_invalid_before = some a.env.now }))
  lift (forget_result (command (λ w. (tt, drop_refresh_tokens user_id w))))

abbrev pub owned_by : ℕ → Device → Bool
owned_by user_id d = d.user_id == user_id

abbrev pub switch_off : ℕ → Device → Device
switch_off user_id d = if owned_by user_id d then record d { is_active = false } else d

-- `revoke_user_sessions`
unfoldable pub revoke_user_sessions : ActionEnv → ℕ → Bool → Action (Unit {0})
unfolding revoke_all_user_tokens
revoke_user_sessions a user_id delete_device_tokens = do
  revoke_all_user_tokens a user_id
  modify (λ s. record s {
    devices =
        if delete_device_tokens
        then filter_out (owned_by user_id) s.devices
        else map (switch_off user_id) s.devices;
  })

-- `User.all_objects.filter(id=…, deleted_at__isnull=True).first()`, or the error.
abbrev pub require_undeleted : {A : Type 0} → ℕ → (User → Action A) → Action A
require_undeleted user_id found s = elim (get_any_by_id user_id s.world.users) [
  | none ↦ (err user_not_found, s)
  | some u ↦ if is_some u.deleted_at then (err user_not_found, s) else found u s
]

-- `deactivate_account`
unfoldable pub deactivate_account : ActionEnv → ℕ → Text → Text → Action Bool
deactivate_account a user_id password otp = atomic (
    require_undeleted user_id (λ user. do
      ensure user
      reauthenticate a user password otp account_deactivation
      revoke_user_sessions a user.id false
      modify (set_user user.id (λ u. record u { lifecycle_state = deactivated; is_active = false }))
      pure true))

abbrev pub is_open : DeletionStatus → Bool
is_open pending = true
is_open purging = true
is_open failed = true
is_open _ = false

abbrev pub open_request : User → List DeletionRequest → Option DeletionRequest
open_request user requests =
    if is_pending_deletion user.lifecycle_state
    then elim (get_request user.id requests) [
      | none ↦ none
      | some r ↦ if is_open r.status then some r else none
    ]
    else none

abbrev pub scheduled : ActionEnv → DeletionRequest → DeletionRequest
scheduled a r = record r {
  status = pending;
  requested_at = a.env.now;
  scheduled_for = a.env.now + a.grace_days * 86400;
  cancelled_at = none;
  completed_at = none;
  retry_count = 0;
  failure_code = [];
  updated_at = a.env.now;
}

abbrev pub blank_request : ActionEnv → ℕ → DeletionRequest
blank_request a user_id = record {
  id = a.request_id;
  user_id = user_id;
  status = pending;
  requested_at = a.env.now;
  scheduled_for = a.env.now;
  cancelled_at = none;
  completed_at = none;
  retry_count = 0;
  failure_code = [];
  updated_at = a.env.now;
}

-- `AccountDeletionRequest.objects.update_or_create(user=…)`: the row as written, and the table.
abbrev pub schedule : ActionEnv → ℕ → List DeletionRequest → DeletionRequest × List DeletionRequest
schedule a user_id requests = elim (get_request user_id requests) [
  | none ↦ let r = scheduled a (blank_request a user_id) in (r, r ∷ requests)
  | some r ↦ (scheduled a r, update_request user_id (scheduled a) requests)
]

unfoldable pub write_request : ActionEnv → ℕ → Action DeletionRequest
write_request a user_id s =
    let (r, requests) = schedule a user_id s.requests in (ok r, record s { requests = requests })

-- From the reauthentication on; the answer is the request, from which the result is built.
unfoldable pub begin_deletion : ActionEnv → User → Text → Text → Action DeletionRequest
begin_deletion a user password otp = do
  ensure user
  reauthenticate a user password otp account_deletion
  revoke_user_sessions a user.id true
  modify
      (set_user user.id (λ u. record u { lifecycle_state = pending_deletion; is_active = false }))
  write_request a user.id

-- `delete_account`
unfoldable pub delete_account : ActionEnv → ℕ → Text → Text → Bool → Action DeletionRequest
delete_account a user_id password otp acknowledged = atomic (do
  refuse_if (not acknowledged) deletion_acknowledgement_required
  require_undeleted user_id (λ user s. elim (open_request user s.requests) [
    | some r ↦ (ok r, s)
    | none ↦ begin_deletion a user password otp s
  ]))
