-- ===== src/Accounts/Return.antt =====
-- core/authentication/account_actions.py: the way back with a recovery token.
use ziona_server.Base.{
  Bool, true, false, not, ◌||◌, Option, none, some, [], leb, if◌then◌else◌, Text, ok, err, pure,
  modify, ◌>>=◌, ◌>>◌,
}
use ziona_server.Accounts.User.{User, Lifecycle, is_pending_deletion, is_deactivated, get_any_by_id}
use ziona_server.Accounts.Store.{
  DeletionStatus, pending, cancelled, DeletionRequest, RecoveryReason, reason_deactivated,
  reason_pending_deletion, Claims, ActionEnv, confirmation_required, invalid_recovery_token,
  invalid_recovery_state, recovery_window_expired, auth_service_unavailable, Action, refuse,
  refuse_if, set_user, get_request, update_request, atomic,
}
use ziona_server.Otp.Verify.{generate_refresh_token, record_successful_auth, Session}
use ziona_server.Accounts.Actions.{lift}

abbrev pub same_reason : RecoveryReason → RecoveryReason → Bool
same_reason reason_deactivated reason_deactivated = true
same_reason reason_pending_deletion reason_pending_deletion = true
same_reason _ _ = false

-- `TokenService.validate_account_recovery_token`, with an expected reason.
unfoldable pub validate_recovery_token : ActionEnv → Text → RecoveryReason → Option Claims
validate_recovery_token a token expected = elim (a.decode token) [
  | none ↦ none
  | some claims ↦ elim claims.recovery_reason [
    | none ↦ none
    | some reason ↦ if same_reason reason expected then some claims else none
  ]
]

-- `_issue_normal_token_pair` and `record_successful_auth`.
unfoldable pub resume_session : ActionEnv → User → Action Session
resume_session a user s =
    let (r, w) = generate_refresh_token a.env user.id s.world in
    elim r [
      | err e ↦ (err auth_service_unavailable, record s { world = w })
      | ok jti ↦
          (do
            u ← lift (record_successful_auth a.env user)
            pure (record {
              user = u;
              access_user_id = user.id;
              access_role = user.role;
              refresh_user_id = user.id;
              refresh_jti = jti;
            }))
            (record s { world = w })
    ]

abbrev pub reopened : User → User
reopened u = record u { lifecycle_state = Lifecycle.active; is_active = true; deleted_at = none }

abbrev pub with_claims : {A : Type 0} → Option Claims → (Claims → Action A) → Action A
with_claims none k = refuse invalid_recovery_token
with_claims (some c) k = k c

-- `reactivate_account`
unfoldable pub reactivate_account : ActionEnv → Text → Bool → Action Session
reactivate_account a token confirmed = atomic (do
  refuse_if (not confirmed) confirmation_required
  with_claims (validate_recovery_token a token reason_deactivated) (λ claims s.
      elim (get_any_by_id claims.user_id s.world.users) [
        | none ↦ (err invalid_recovery_state, s)
        | some user ↦
            if is_deactivated user.lifecycle_state
            then (modify (set_user user.id reopened) >> resume_session a (reopened user)) s
            else (err invalid_recovery_state, s)
      ]))

abbrev pub is_pending : DeletionStatus → Bool
is_pending pending = true
is_pending _ = false

abbrev pub called_off : ActionEnv → DeletionRequest → DeletionRequest
called_off a r = record r {
  status = cancelled;
  cancelled_at = some a.env.now;
  failure_code = [];
  updated_at = a.env.now;
}

-- The second half of `cancel_account_deletion`, on the rows that were found.
unfoldable pub cancel_request : ActionEnv → User → DeletionRequest → Action Session
cancel_request a user request s =
    if not (is_pending_deletion user.lifecycle_state) || not (is_pending request.status)
    then (err invalid_recovery_state, s)
    else if leb request.scheduled_for a.env.now
    then (err recovery_window_expired, s)
    else (modify (λ t. record t { requests = update_request user.id (called_off a) t.requests })
          >> modify (set_user user.id reopened)
          >> resume_session a (reopened user))
        s

-- `cancel_account_deletion`
unfoldable pub cancel_account_deletion : ActionEnv → Text → Bool → Action Session
cancel_account_deletion a token confirmed = atomic (do
  refuse_if (not confirmed) confirmation_required
  with_claims (validate_recovery_token a token reason_pending_deletion) (λ claims s.
      elim (get_any_by_id claims.user_id s.world.users) [
        | none ↦ (err invalid_recovery_state, s)
        | some user ↦ elim (get_request user.id s.requests) [
          | none ↦ (err invalid_recovery_state, s)
          | some request ↦ cancel_request a user request s
        ]
      ]))
