-- ===== src/Admin/Undo.antt =====
-- What can be undone: a soft deletion, and never a permanent one.
use ziona_server.Base.{ℕ, ◌≡◌, refl, Bool, true, false, some, [], arith, Text, ok, err, subst}
use ziona_server.Accounts.User.{User, is_admin, is_visible, get_any_by_id}
use ziona_server.Accounts.Store.{Store, ActionEnv, update_user, set_user}
use ziona_server.Accounts.Actions.{revoke_user_sessions}
use ziona_server.Accounts.Effects.{cut_off}
use ziona_server.Accounts.Table.{get_any_by_id-update_user, find_first_shown}
use ziona_server.Admin.Rules.{
  restore, offers, available_actions, is_anonymized, is_admin_soft_deleted,
}
use ziona_server.Admin.Erase.{anonymous_email, anonymized, anonymize_user, nobody}
use ziona_server.Admin.Anonymous.{ends_with-anonymous_email}
use ziona_server.Admin.Users.{
  user_not_restorable, delete_user, permanently_delete_user, restore_user, set_deleted,
  set_restored, revoke,
}

pub revoke-users :
    (a : ActionEnv) (i : ℕ) (b : Bool) (s : Store)
    → (revoke a i b s).world.users
      ≡ update_user i (λ u. record u { token_invalid_before = some a.env.now }) s.world.users
unfolding revoke_user_sessions
revoke-users a i b s = ground arith

delete_user-users :
    (a : ActionEnv) (admin_id : ℕ) (s t : Store) (u : User)
    → get_any_by_id u.id s.world.users ≡ some u
    → is_visible u ≡ true
    → delete_user a admin_id u.id s ≡ (ok tt, t)
    → (is_admin u ≡ false)
      × (t.world.users
          ≡ update_user u.id
              (cut_off a.env.now)
              (update_user u.id (set_deleted a.env.now) s.world.users))
unfolding delete_user
delete_user-users a admin_id s t u found shown h = ground (
  arith,
  find_first_shown u.id is_visible s.world.users u found shown,
  revoke-users a u.id true (set_user u.id (set_deleted a.env.now) s),
)

delete_user-row :
    (a : ActionEnv) (admin_id : ℕ) (s t : Store) (u : User)
    → get_any_by_id u.id s.world.users ≡ some u
    → is_visible u ≡ true
    → delete_user a admin_id u.id s ≡ (ok tt, t)
    → get_any_by_id u.id t.world.users ≡ some (cut_off a.env.now (set_deleted a.env.now u))
delete_user-row a admin_id s t u found shown h =
    let deleted =
      get_any_by_id-update_user u.id (set_deleted a.env.now) s.world.users u (λ v. refl) found in
    let cut =
      get_any_by_id-update_user u.id (cut_off a.env.now)
        (update_user u.id (set_deleted a.env.now) s.world.users) (set_deleted a.env.now u)
        (λ v. refl) deleted in
    rw ((delete_user-users a admin_id s t u found shown h).1) cut

restored_row :
    (now : ℕ) (u : User)
    → is_visible u ≡ true
    → u.is_active ≡ true
    → set_restored (cut_off now (set_deleted now u)) ≡ cut_off now u
restored_row now u shown active = ground arith

restore_offered :
    (now : ℕ) (u : User)
    → is_admin u ≡ false
    → is_anonymized u ≡ false
    → (is_anonymized (cut_off now (set_deleted now u)) ≡ false)
      × (offers (available_actions (cut_off now (set_deleted now u))) restore ≡ true)
unfolding available_actions is_admin_soft_deleted is_anonymized
restore_offered now u na named = ground arith

restore_user-row :
    (a : ActionEnv) (admin_id i : ℕ) (reason : Text) (t : Store) (w : User)
    → get_any_by_id i t.world.users ≡ some w
    → w.id ≡ i
    → is_admin w ≡ false
    → is_anonymized w ≡ false
    → offers (available_actions w) restore ≡ true
    → (v : Store) × (restore_user a admin_id i reason t ≡ (ok (set_restored w), v))
      × (get_any_by_id i v.world.users ≡ some (set_restored w))
unfolding restore_user
restore_user-row a admin_id i reason t w found key na named offered =
    let back = get_any_by_id-update_user i set_restored t.world.users w (λ v. refl) found in
    ((restore_user a admin_id i reason t).1, ground arith, ground (arith, back))

-- A deletion by an administrator is undone by `restore_user`: after the deletion of an account that
-- was flagged active, the restoration by any administrator succeeds, unless the account's email is
-- that of an anonymized one, and the row is again as it was, except that tokens issued before the
-- deletion stay invalid.
pub restore_user-delete_user :
    (a a' : ActionEnv) (admin_id admin_id' : ℕ) (reason : Text) (s t : Store) (u : User)
    → get_any_by_id u.id s.world.users ≡ some u
    → is_visible u ≡ true
    → u.is_active ≡ true
    → is_anonymized u ≡ false
    → delete_user a admin_id u.id s ≡ (ok tt, t)
    → (v : Store) × (restore_user a' admin_id' u.id reason t ≡ (ok (cut_off a.env.now u), v))
      × (get_any_by_id u.id v.world.users ≡ some (cut_off a.env.now u))
restore_user-delete_user a a' admin_id admin_id' reason s t u found shown active named h =
    let row = delete_user-row a admin_id s t u found shown h in
    let offered =
      restore_offered a.env.now u ((delete_user-users a admin_id s t u found shown h).0) named in
    let result =
      restore_user-row a' admin_id' u.id reason t (cut_off a.env.now (set_deleted a.env.now u)) row
        refl ((delete_user-users a admin_id s t u found shown h).0) offered.0 offered.1 in
    subst
      (λ w.
        (v : Store) × (restore_user a' admin_id' u.id reason t ≡ (ok w, v))
        × (get_any_by_id u.id v.world.users ≡ some w))
      (restored_row a.env.now u shown active) result

permanently_delete_user-users :
    (a : ActionEnv) (admin_id : ℕ) (reason confirmation : Text) (ack : Bool) (s t : Store)
    (u : User)
    → get_any_by_id u.id s.world.users ≡ some u
    → permanently_delete_user a admin_id u.id reason confirmation ack s ≡ (ok tt, t)
    → (is_admin u ≡ false)
      × (t.world.users
          ≡ update_user u.id
              (anonymized u.id a.env.now)
              (update_user u.id (cut_off a.env.now) s.world.users))
unfolding permanently_delete_user anonymize_user
permanently_delete_user-users a admin_id reason confirmation ack s t u found h =
    ground (arith, revoke-users a u.id true s)

anonymized-final :
    (now : ℕ) (u : User)
    → (is_anonymized (anonymized u.id now u) ≡ true)
      × (available_actions (anonymized u.id now u) ≡ [])
unfolding is_anonymized available_actions is_admin_soft_deleted anonymized
anonymized-final now u = ground (arith, ends_with-anonymous_email u.id)

restore_user-refused :
    (a : ActionEnv) (admin_id i : ℕ) (reason : Text) (t : Store) (w : User)
    → get_any_by_id i t.world.users ≡ some w
    → is_admin w ≡ false
    → is_anonymized w ≡ true
    → restore_user a admin_id i reason t ≡ (err user_not_restorable, t)
unfolding restore_user
restore_user-refused a admin_id i reason t w found na named = ground arith

-- A permanent deletion is final and leaves nobody behind. Afterwards the account's row is there and
-- holds none of the columns that identify the person, its email is the anonymous one of its id, the
-- dashboard offers no action on it, and a restoration by any administrator is refused.
pub permanently_delete_user-final :
    (a a' : ActionEnv) (admin_id admin_id' : ℕ) (reason reason' confirmation : Text) (ack : Bool)
    (s t : Store) (u : User)
    → get_any_by_id u.id s.world.users ≡ some u
    → permanently_delete_user a admin_id u.id reason confirmation ack s ≡ (ok tt, t)
    → (v : User) × (get_any_by_id u.id t.world.users ≡ some v)
      × (v.identity ≡ nobody)
      × (v.email ≡ anonymous_email u.id)
      × (available_actions v ≡ [])
      × (restore_user a' admin_id' u.id reason' t ≡ (err user_not_restorable, t))
unfolding anonymized
permanently_delete_user-final a a' admin_id admin_id' reason reason' confirmation ack s t u found
      h =
    let cut =
      get_any_by_id-update_user u.id (cut_off a.env.now) s.world.users u (λ v. refl) found in
    let gone =
      get_any_by_id-update_user u.id (anonymized u.id a.env.now)
        (update_user u.id (cut_off a.env.now) s.world.users) (cut_off a.env.now u) (λ v. refl)
        cut in
    let row = permanently_delete_user-users a admin_id reason confirmation ack s t u found h in
    let final = anonymized-final a.env.now (cut_off a.env.now u) in
    let found' : get_any_by_id u.id t.world.users
        ≡ some (anonymized u.id a.env.now (cut_off a.env.now u)) =
      rw (row.1) gone in
    (
      anonymized u.id a.env.now (cut_off a.env.now u),
      found',
      refl,
      refl,
      final.1,
      restore_user-refused a' admin_id' u.id reason' t
          (anonymized u.id a.env.now (cut_off a.env.now u)) found' refl final.0,
    )
