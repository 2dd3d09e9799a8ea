-- ===== src/Admin/Rules.antt =====
-- core/admin_dashboard/user_moderation_rules.py and `is_anonymized` of core/users/account_lifecycle.py.
use ziona_server.Base.{
  ends_with, Bool, true, false, not, ◌&&◌, ◌||◌, List, [], ◌∷◌, if◌then◌else◌, is_some, Text, codes,
}
use ziona_server.Accounts.User.{
  User, Lifecycle, is_admin, is_active_state, is_pending_deletion, is_deleted, is_suspended,
  is_warned,
}

pub data AdminAction : Type 0 where
  warn suspend delete reactivate restore permanently_delete : AdminAction

abbrev pub same_action : AdminAction → AdminAction → Bool
same_action warn warn = true
same_action suspend suspend = true
same_action delete delete = true
same_action reactivate reactivate = true
same_action restore restore = true
same_action permanently_delete permanently_delete = true
same_action _ _ = false

abbrev pub offers : List AdminAction → AdminAction → Bool
offers [] a = false
offers (x ∷ xs) a = same_action x a || offers xs a

-- `@deleted.ziona.local`
unfoldable pub anonymized_suffix : Text
anonymized_suffix = codes "@deleted.ziona.local"

-- `is_anonymized`
unfoldable pub is_anonymized : User → Bool
unfolding ends_with anonymized_suffix
is_anonymized u = ends_with u.email anonymized_suffix

-- `_is_admin_soft_deleted`
unfoldable pub is_admin_soft_deleted : User → Bool
is_admin_soft_deleted u =
    is_some u.deleted_at && is_deleted u.lifecycle_state && not (is_anonymized u)

-- `_deleted_account_actions`
unfoldable pub deleted_account_actions : User → List AdminAction
unfolding is_admin_soft_deleted
deleted_account_actions u =
    if is_admin_soft_deleted u then restore ∷ permanently_delete ∷ [] else []

-- `_available_actions`
unfoldable pub available_actions : User → List AdminAction
unfolding deleted_account_actions
available_actions u =
    if is_admin u
    then []
    else if is_some u.deleted_at
    then deleted_account_actions u
    else if is_pending_deletion u.lifecycle_state
    then []
    else if not u.is_active
    then reactivate ∷ delete ∷ []
    else if is_suspended u.status
    then reactivate ∷ delete ∷ []
    else if is_warned u.status
    then suspend ∷ delete ∷ []
    else warn ∷ suspend ∷ delete ∷ []

pub data AccountState : Type 0 where
  state_deleted state_inactive state_suspended state_warned state_active : AccountState
  lifecycle : Lifecycle → AccountState

-- `_account_state`
unfoldable pub account_state : User → AccountState
account_state u =
    if is_some u.deleted_at
    then state_deleted
    else if not (is_active_state u.lifecycle_state)
    then lifecycle u.lifecycle_state
    else if not u.is_active
    then state_inactive
    else if is_suspended u.status
    then state_suspended
    else if is_warned u.status
    then state_warned
    else state_active
