-- ===== src/Admin/Tests.antt =====
-- The theorems about administrators' operations at small inputs.
use ziona_server.Base.{
  ◌≡◌, refl, true, false, some, [], ◌∷◌, arith, Text, codes, text_eq, strip, ok, err,
}
use ziona_server.Accounts.User.{User, is_admin, deactivated, get_any_by_id}
use ziona_server.Accounts.Store.{Store}
use ziona_server.Accounts.Effects.{cut_off, closed}
use ziona_server.Accounts.Samples.{ada, bob, tables, action_at}
use ziona_server.Admin.Guards.{warning, run, lookup, run_ok, delete_user_deactivated}
use ziona_server.Admin.Rules.{
  is_admin_soft_deleted, warn, delete, offers, available_actions, is_anonymized,
}
use ziona_server.Admin.Undo.{restore_user-delete_user}
use ziona_server.Admin.Users.{
  warn_user, user_not_found, validation_error, delete_user, permanently_delete_user, restore_user,
}

abbrev reason : Text
reason = codes "spam"

abbrev unchanged : Store
unchanged = (run (warning []) (action_at 5) 9 1 tables).1

no_reason : run (warning []) (action_at 5) 9 1 tables ≡ (err validation_error, unchanged)
unfolding warn_user strip
no_reason = refl

abbrev warned_ada : Store
warned_ada = (run (warning reason) (action_at 5) 9 1 tables).1

warned_now : run (warning reason) (action_at 5) 9 1 tables ≡ (ok tt, warned_ada)
unfolding warn_user strip available_actions
warned_now = refl

run_ok_example :
    (u : User) × (lookup (warning reason) 1 tables ≡ some u)
    × (is_admin u ≡ false)
    × (offers (available_actions u) warn ≡ true)
run_ok_example = run_ok (warning reason) (action_at 5) 9 1 tables warned_ada warned_now

abbrev idle : User
idle = closed deactivated ada

abbrev idle_tables : Store
idle_tables = record tables { world = record (tables.world) { users = idle ∷ bob ∷ [] } }

delete_user_deactivated_example :
    (offers (available_actions idle) delete ≡ true)
    × (delete_user (action_at 5) 9 1 idle_tables ≡ (err user_not_found, idle_tables))
unfolding get_any_by_id
delete_user_deactivated_example =
    delete_user_deactivated (action_at 5) 9 idle_tables idle (omega arith) refl refl refl refl refl
      refl

abbrev without_ada : Store
without_ada = (delete_user (action_at 5) 9 1 tables).1

deleted_now : delete_user (action_at 5) 9 1 tables ≡ (ok tt, without_ada)
unfolding delete_user available_actions
deleted_now = refl

restore_user-delete_user_example :
    (v : Store) × (restore_user (action_at 8) 9 1 [] without_ada ≡ (ok (cut_off 5 ada), v))
    × (get_any_by_id 1 v.world.users ≡ some (cut_off 5 ada))
unfolding get_any_by_id is_anonymized
restore_user-delete_user_example =
    restore_user-delete_user (action_at 5) (action_at 8) 9 9 [] tables without_ada ada refl refl
      refl refl deleted_now

abbrev erased : Store
erased = (permanently_delete_user (action_at 5) 9 1 reason (codes "ada@z.app") true tables).1

erased_now :
    permanently_delete_user (action_at 5) 9 1 reason (codes "ada@z.app") true tables
    ≡ (ok tt, erased)
unfolding permanently_delete_user strip get_any_by_id is_admin_soft_deleted available_actions
    text_eq
erased_now = refl
