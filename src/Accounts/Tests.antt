-- ===== src/Accounts/Tests.antt =====
-- The theorems about account actions at small inputs.
use ziona_server.Otp.World.{auth, invalid_otp, account_deletion, same_purpose}
use ziona_server.Accounts.Counted.{ask, counted, ask_counted}
use ziona_server.Base.{◌≡◌, refl, true, none, some, [], arith, Text, codes, strip, text_eq, ok, err}
use ziona_server.Accounts.User.{User, deactivated, pending_deletion, get_any_by_id}
use ziona_server.Accounts.Status.{ensure_account_can_authenticate}
use ziona_server.Accounts.Store.{
  DeletionRequest, Store, Claims, reason_deactivated, reason_pending_deletion, update_user,
  get_request, atomic, otp_error,
}
use ziona_server.Accounts.Actions.{
  reauthenticate, revoke_user_sessions, scheduled, blank_request, write_request, begin_deletion,
  deactivate_account, delete_account,
}
use ziona_server.Accounts.Return.{
  reopened, validate_recovery_token, resume_session, cancel_request, reactivate_account,
  cancel_account_deletion,
}
use ziona_server.Accounts.Effects.{cut_off, closed}
use ziona_server.Accounts.Recovery.{perform}
use ziona_server.Accounts.RoundTrip.{
  recovered, reactivate_account-deactivate_account, cancel_account_deletion-delete_account,
}
use ziona_server.Accounts.Samples.{ada, tables, action_at}
use ziona_server.Otp.Verify.{Session, logged_in, record_successful_auth, generate_refresh_token}

abbrev password : Text
password = codes "pw"

abbrev gone : Store
gone = (deactivate_account (action_at 5) 1 password [] tables).1

deactivated_now : deactivate_account (action_at 5) 1 password [] tables ≡ (ok true, gone)
unfolding deactivate_account text_eq strip atomic get_any_by_id ensure_account_can_authenticate
    reauthenticate revoke_user_sessions
deactivated_now = refl

abbrev request : DeletionRequest
request = scheduled (action_at 5) (blank_request (action_at 5) 1)

abbrev leaving : Store
leaving = (delete_account (action_at 5) 1 password [] true tables).1

deleted_now : delete_account (action_at 5) 1 password [] true tables ≡ (ok request, leaving)
unfolding delete_account begin_deletion text_eq strip atomic get_any_by_id
    ensure_account_can_authenticate reauthenticate revoke_user_sessions write_request get_request
deleted_now = refl

abbrev session : User → Session
session u = record {
  user = u;
  access_user_id = u.id;
  access_role = u.role;
  refresh_user_id = u.id;
  refresh_jti = 80;
}

abbrev back_again : User
back_again = logged_in (action_at 9).env (reopened (closed deactivated (cut_off 5 ada)))

abbrev returned : Store
returned = (reactivate_account (action_at 9) (codes "back") true gone).1

reactivated_now :
    reactivate_account (action_at 9) (codes "back") true gone ≡ (ok (session back_again), returned)
unfolding reactivate_account resume_session text_eq atomic validate_recovery_token get_any_by_id
    deactivate_account ensure_account_can_authenticate reauthenticate strip revoke_user_sessions
    update_user generate_refresh_token record_successful_auth
reactivated_now = refl

abbrev kept : User
kept = logged_in (action_at 9).env (reopened (closed pending_deletion (cut_off 5 ada)))

abbrev undone : Store
undone = (cancel_account_deletion (action_at 9) (codes "undo") true leaving).1

cancelled_now :
    cancel_account_deletion (action_at 9) (codes "undo") true leaving ≡ (ok (session kept), undone)
unfolding cancel_account_deletion cancel_request text_eq atomic validate_recovery_token
    get_any_by_id delete_account begin_deletion ensure_account_can_authenticate reauthenticate strip
    revoke_user_sessions write_request update_user get_request resume_session generate_refresh_token
    record_successful_auth
cancelled_now = refl

-- A wrong code is given for the deletion.
ask_counted_example : perform (ask true 1 [] (codes "1")) (action_at 5) tables ≡ (
  err (otp_error (auth (invalid_otp (some 4)))),
  counted (action_at 5) 1 ada [] (codes "1") tables account_deletion,
)
unfolding text_eq strip ensure_account_can_authenticate get_any_by_id same_purpose
ask_counted_example =
    ask_counted (action_at 5) 1 ada [] (codes "1") tables refl refl refl true refl refl refl refl
      (omega arith) (codes "123456", refl, refl)

abbrev back_claims : Claims
back_claims = record { user_id = 1; recovery_reason = some reason_deactivated }

reactivate_account-deactivate_account_example :
    (u : User) × (get_any_by_id 1 tables.world.users ≡ some u)
    × (s : Session) × (v : Store) × (reactivate_account (action_at 9) (codes "back") true gone
        ≡ (ok s, v))
    × (get_any_by_id 1 v.world.users ≡ some (recovered (action_at 5) (action_at 9) deactivated u))
    × (ensure_account_can_authenticate (recovered (action_at 5) (action_at 9) deactivated u) ≡ none)
unfolding validate_recovery_token text_eq
reactivate_account-deactivate_account_example =
    reactivate_account-deactivate_account (action_at 5) (action_at 9) 1 password [] (codes "back")
      tables gone back_claims refl refl true deactivated_now refl

abbrev undo_claims : Claims
undo_claims = record { user_id = 1; recovery_reason = some reason_pending_deletion }

cancel_account_deletion-delete_account_example :
    (s : Session) × (v : Store) × (cancel_account_deletion (action_at 9) (codes "undo") true leaving
      ≡ (ok s, v))
    × (get_any_by_id 1 v.world.users
        ≡ some (recovered (action_at 5) (action_at 9) pending_deletion ada))
    × (ensure_account_can_authenticate (recovered (action_at 5) (action_at 9) pending_deletion ada)
        ≡ none)
unfolding validate_recovery_token text_eq get_any_by_id ensure_account_can_authenticate
cancel_account_deletion-delete_account_example =
    cancel_account_deletion-delete_account (action_at 5) (action_at 9) 1 password [] (codes "undo")
      tables leaving undo_claims refl refl request ada deleted_now refl refl refl (omega arith)
