-- ===== src/Accounts/Status.antt =====
-- core/authentication/account_status.py: who may authenticate.
use ziona_server.Base.{
  ◌≡◌, true, not, ◌||◌, Option, none, some, arith, ◌⊎◌, if◌then◌else◌, is_some, ◌↔◌,
}
use ziona_server.Accounts.User.{
  User, Status, Lifecycle, is_deleted, is_suspended, is_pending_deletion, is_deactivated,
}

pub data StatusError : Type 0 where
  account_not_found account_suspended account_pending_deletion account_deactivated : StatusError

-- `ensure_account_can_authenticate`: `none` when it returns, else the error that it raises.
unfoldable pub ensure_account_can_authenticate : User → Option StatusError
ensure_account_can_authenticate u =
    if is_some u.deleted_at || is_deleted u.lifecycle_state
    then some account_not_found
    else if is_suspended u.status
    then some account_suspended
    else if is_pending_deletion u.lifecycle_state
    then some account_pending_deletion
    else if is_deactivated u.lifecycle_state || not u.is_active
    then some account_deactivated
    else none

-- An account may authenticate exactly when it is not soft-deleted, is in the active state, is not
-- suspended and is flagged active.
pub ensure_account_can_authenticate_iff :
    (u : User)
    → (ensure_account_can_authenticate u ≡ none) ↔ (
        (u.deleted_at ≡ none)
        × (u.lifecycle_state ≡ Lifecycle.active)
        × ((u.status ≡ Status.active) ⊎ (u.status ≡ Status.warned))
        × (u.is_active ≡ true))
unfolding ensure_account_can_authenticate
ensure_account_can_authenticate_iff u = (λ h. ground arith, λ h. ground arith)
