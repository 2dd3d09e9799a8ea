-- ===== src/Admin/Guards.antt =====
-- The guards that the six account operations of the administrators share.
use ziona_server.Base.{
  ℕ, ◌≡◌, ◌≢◌, Bool, true, false, Option, none, some, ◌==◌, arith, inl, inr, Option-cases,
  if◌then◌else◌, Text, Result, ok, err, find_first, count_if, ◌≤◌,
}
use ziona_server.Accounts.User.{User, Lifecycle, is_admin, is_visible, has_id, get_any_by_id}
use ziona_server.Accounts.Store.{Store, ActionEnv}
use ziona_server.Accounts.Table.{find_first_hidden}
use ziona_server.Admin.Rules.{
  AdminAction, warn, suspend, delete, reactivate, restore, permanently_delete, offers,
  available_actions, is_admin_soft_deleted,
}
use ziona_server.Admin.Users.{
  AdminError, user_not_found, Admin, visible_id, warn_user, suspend_user, delete_user,
  permanently_delete_user, restore_user, reactivate_user,
}

-- A call of an operation, with the arguments that are its own.
pub data Operation : Type 0 where
  warning suspension : Text → Operation
  deletion reactivation : Operation
  permanent_deletion : Text → Text → Bool → Operation
  restoration : Text → Operation

abbrev done : {A : Type 0} → Result AdminError A × Store → Result AdminError (Unit {0}) × Store
done (ok a, s) = (ok tt, s)
done (err e, s) = (err e, s)

-- The call by an administrator, on a target.
abbrev pub run : Operation → ActionEnv → ℕ → ℕ → Admin (Unit {0})
run (warning reason) a admin_id i s = done (warn_user a admin_id i reason s)
run (suspension reason) a admin_id i s = done (suspend_user a admin_id i reason s)
run deletion a admin_id i s = delete_user a admin_id i s
run reactivation a admin_id i s = done (reactivate_user a admin_id i s)
run (permanent_deletion reason confirmation acknowledged) a admin_id i s =
    permanently_delete_user a admin_id i reason confirmation acknowledged s
run (restoration reason) a admin_id i s = done (restore_user a admin_id i reason s)

-- The action that has to be on offer.
abbrev pub action_of : Operation → User → AdminAction
action_of (warning reason) u = warn
action_of (suspension reason) u = suspend
action_of deletion u = delete
action_of reactivation u = reactivate
action_of (permanent_deletion reason confirmation acknowledged) u =
    if is_admin_soft_deleted u then permanently_delete else delete
action_of (restoration reason) u = restore

-- The row that the operation looks up.
abbrev pub lookup : Operation → ℕ → Store → Option User
lookup (warning reason) i s = find_first (visible_id i) s.world.users
lookup (suspension reason) i s = find_first (visible_id i) s.world.users
lookup deletion i s = find_first (visible_id i) s.world.users
lookup reactivation i s = get_any_by_id i s.world.users
lookup (permanent_deletion reason confirmation acknowledged) i s = get_any_by_id i s.world.users
lookup (restoration reason) i s = get_any_by_id i s.world.users

-- An operation that raises has written nothing: no account, no log entry, no mail, no session.
pub run_err :
    (op : Operation) (a : ActionEnv) (admin_id i : ℕ) (s t : Store) (e : AdminError)
    → run op a admin_id i s ≡ (err e, t)
    → t ≡ s
unfolding warn_user suspend_user delete_user permanently_delete_user restore_user reactivate_user
run_err (warning reason) a admin_id i s t e h = ground arith
run_err (suspension reason) a admin_id i s t e h = ground arith
run_err deletion a admin_id i s t e h = ground arith
run_err reactivation a admin_id i s t e h = ground arith
run_err (permanent_deletion reason confirmation acknowledged) a admin_id i s t e h = ground arith
run_err (restoration reason) a admin_id i s t e h = ground arith

pub run_missing :
    (op : Operation) (a : ActionEnv) (admin_id i : ℕ) (s t : Store)
    → lookup op i s ≡ none
    → run op a admin_id i s ≢ (ok tt, t)
unfolding warn_user suspend_user delete_user permanently_delete_user restore_user reactivate_user
run_missing (warning reason) a admin_id i s t e h = ground arith
run_missing (suspension reason) a admin_id i s t e h = ground arith
run_missing deletion a admin_id i s t e h = ground arith
run_missing reactivation a admin_id i s t e h = ground arith
run_missing (permanent_deletion reason confirmation acknowledged) a admin_id i s t e h =
    ground arith
run_missing (restoration reason) a admin_id i s t e h = ground arith

run_found :
    (op : Operation) (a : ActionEnv) (admin_id i : ℕ) (s t : Store) (u : User)
    → lookup op i s ≡ some u
    → run op a admin_id i s ≡ (ok tt, t)
    → (is_admin u ≡ false) × (offers (available_actions u) (action_of op u) ≡ true)
unfolding warn_user suspend_user delete_user permanently_delete_user restore_user reactivate_user
    available_actions
run_found (warning reason) a admin_id i s t u e h = ground arith
run_found (suspension reason) a admin_id i s t u e h = ground arith
run_found deletion a admin_id i s t u e h = ground arith
run_found reactivation a admin_id i s t u e h = ground arith
run_found (permanent_deletion reason confirmation acknowledged) a admin_id i s t u e h =
    ground arith
run_found (restoration reason) a admin_id i s t u e h = ground arith

-- An operation succeeds only on an account that it finds, that is no administrator's, and for which
-- the dashboard offers the action.
pub run_ok :
    (op : Operation) (a : ActionEnv) (admin_id i : ℕ) (s t : Store)
    → run op a admin_id i s ≡ (ok tt, t)
    → (u : User) × (lookup op i s ≡ some u)
      × (is_admin u ≡ false)
      × (offers (available_actions u) (action_of op u) ≡ true)
run_ok op a admin_id i s t h = elim (Option-cases (lookup op i s)) [
  | inl e ↦ absurd (run_missing op a admin_id i s t e h)
  | inr (u, e) ↦ let r = run_found op a admin_id i s t u e h in (u, e, r.0, r.1)
]

-- The dashboard offers the deletion of a deactivated account that is not an administrator's, yet
-- the deletion never finds it: its manager shows active accounts only. The id stands in one row.
pub delete_user_deactivated :
    (a : ActionEnv) (admin_id : ℕ) (s : Store) (u : User)
    → count_if (has_id u.id) s.world.users ≤ 1
    → get_any_by_id u.id s.world.users ≡ some u
    → is_admin u ≡ false
    → u.lifecycle_state ≡ Lifecycle.deactivated
    → u.deleted_at ≡ none
    → u.is_active ≡ false
    → (admin_id == u.id) ≡ false
    → (offers (available_actions u) delete ≡ true)
      × (delete_user a admin_id u.id s ≡ (err user_not_found, s))
unfolding available_actions delete_user
delete_user_deactivated a admin_id s u one found na de nd ia ne =
    (ground arith, ground (arith, find_first_hidden u.id is_visible s.world.users u))
