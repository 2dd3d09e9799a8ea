-- ===== src/Lifecycle/Steps.antt =====
-- Every account action keeps the tables sound, whether it succeeds or fails.
use ziona_server.Base.{
  ℕ, ◌≡◌, refl, Bool, true, false, none, some, List, arith, inl, inr, Result-cases, Text, ok, subst,
  sym,
}
use ziona_server.Accounts.User.{
  User, Lifecycle, deactivated, pending_deletion, is_active_state, is_pending_deletion, is_deleted,
  get_any_by_id, save,
}
use ziona_server.Accounts.Status.{ensure_account_can_authenticate}
use ziona_server.Accounts.Store.{
  DeletionRequest, Store, ActionEnv, update_user, update_request, get_request,
}
use ziona_server.Accounts.Actions.{schedule, scheduled, deactivate_account, delete_account}
use ziona_server.Accounts.Return.{reopened, called_off, reactivate_account, cancel_account_deletion}
use ziona_server.Accounts.Effects.{
  cut_off, closed, deactivate_account_ok, delete_account_ok, reactivate_account_ok,
}
use ziona_server.Accounts.Recovery.{
  Call, deactivation, deletion, reactivation, cancellation, perform, perform_atomic,
  cancel_account_deletion_ok,
}
use ziona_server.Accounts.RoundTrip.{get_request-schedule}
use ziona_server.Accounts.Table.{get_any_by_id-update_user, get_any_by_id-id}
use ziona_server.Otp.World.{Env}
use ziona_server.Otp.Verify.{Session, logged_in}
use ziona_server.Lifecycle.Invariant.{
  is_scheduled, IsSound, SameBut, update_user-IsSound, save-IsSound, update_request-SameBut,
}

abbrev pub Sound : Store → Type 0
Sound s = IsSound s.world.users s.requests

pub cut_off-IsSound :
    (now i : ℕ) (users : List User) (requests : List DeletionRequest) (u : User)
    → get_any_by_id i users ≡ some u
    → IsSound users requests
    → IsSound (update_user i (cut_off now) users) requests
cut_off-IsSound now i users requests u found sound =
    update_user-IsSound i (cut_off now) users requests requests u (λ v. refl) (λ j n. refl) found
      sound (λ h. h)

module _ (u : User) (users : List User) (requests requests' : List DeletionRequest)
    (found : get_any_by_id u.id users ≡ some u) (same : SameBut u.id requests requests')
    (sound : IsSound users requests) where
  close-IsSound :
      (now : ℕ) (state : Lifecycle)
      → ensure_account_can_authenticate u ≡ none
      → is_deleted state ≡ false
      → is_active_state state ≡ false
      → (is_pending_deletion state ≡ true → is_scheduled (get_request u.id requests') ≡ true)
      → IsSound (update_user u.id (closed state) (update_user u.id (cut_off now) users)) requests'
  unfolding ensure_account_can_authenticate
  close-IsSound now state allowed nd na k =
      update_user-IsSound u.id (closed state) (update_user u.id (cut_off now) users) requests
        requests' (cut_off now u) (λ v. refl) same
        (get_any_by_id-update_user u.id (cut_off now) users u (λ v. refl) found)
        (cut_off-IsSound now u.id users requests u found sound) (λ h. ground arith)

  open-IsSound :
      (env : Env)
      → IsSound (save (logged_in env (reopened u)) (update_user u.id reopened users)) requests'
  open-IsSound env =
      let opened = get_any_by_id-update_user u.id reopened users u (λ v. refl) found in
      let key : (logged_in env (reopened u)).id ≡ u.id = ground arith in
      save-IsSound (logged_in env (reopened u)) (update_user u.id reopened users) requests'
        requests' (reopened u) (λ j n. refl)
        (subst (λ k. get_any_by_id k (update_user u.id reopened users) ≡ some (reopened u))
          (sym key) opened)
        (update_user-IsSound u.id reopened users requests requests' u (λ v. refl) same found sound
          (λ h. ground arith))
        (ground arith)

schedule-SameBut :
    (a : ActionEnv) (i : ℕ) (requests : List DeletionRequest)
    → SameBut i requests (schedule a i requests).1
unfolding get_request
schedule-SameBut a i requests j ne =
    ground (arith, update_request-SameBut i (scheduled a) requests (λ r. refl) j ne)

-- The tables of another store that has the same rows.
abbrev pub SameTables : Store → List User → List DeletionRequest → Type 0
SameTables t users requests = (t.world.users ≡ users) × (t.requests ≡ requests)

pub same-Sound :
    (t : Store) (users : List User) (requests : List DeletionRequest)
    → SameTables t users requests
    → IsSound users requests
    → Sound t
same-Sound t users requests (e, f) sound =
    subst (λ us. IsSound us t.requests) (sym e) (subst (λ rs. IsSound users rs) (sym f) sound)

module _ (a : ActionEnv) (s t : Store) (sound : Sound s) where
  deactivate_account-Sound :
      (i : ℕ) (password otp : Text) (b : Bool)
      → deactivate_account a i password otp s ≡ (ok b, t)
      → Sound t
  deactivate_account-Sound i password otp b h =
      let (u, found, allowed, users, requests, devices) =
        deactivate_account_ok a i password otp b s t h in
      let key : i ≡ u.id = sym (get_any_by_id-id i s.world.users u found) in
      same-Sound t _ s.requests (users, requests)
        (close-IsSound u s.world.users s.requests s.requests
          (subst (λ k. get_any_by_id k s.world.users ≡ some u) key found) (λ j n. refl) sound
          a.env.now deactivated allowed refl refl (λ h. ground arith))

  delete_account-Sound :
      (i : ℕ) (password otp : Text) (ack : Bool) (r : DeletionRequest)
      → delete_account a i password otp ack s ≡ (ok r, t)
      → Sound t
  delete_account-Sound i password otp ack r h =
      let (acknowledged, u, found, nd, outcome) = delete_account_ok a i password otp ack r s t h in
      let key : i ≡ u.id = sym (get_any_by_id-id i s.world.users u found) in
      elim outcome [
        | inl (opened, same) ↦ subst Sound (sym same) sound
        | inr (allowed, users, requests, devices) ↦
            let pending_row = get_request-schedule a u.id s.requests in
            same-Sound t _ (schedule a u.id s.requests).1 (users, ground arith)
              (close-IsSound u s.world.users s.requests (schedule a u.id s.requests).1
                (subst (λ k. get_any_by_id k s.world.users ≡ some u) key found)
                (schedule-SameBut a u.id s.requests) sound a.env.now pending_deletion allowed refl
                refl (λ h. ground (arith, pending_row)))
      ]

  reactivate_account-Sound :
      (token : Text) (confirmed : Bool) (session : Session)
      → reactivate_account a token confirmed s ≡ (ok session, t)
      → Sound t
  reactivate_account-Sound token confirmed session h =
      let (affirmed, c, valid, u, found, state, user, users, requests, devices) =
        reactivate_account_ok a token confirmed session s t h in
      let key = sym (get_any_by_id-id c.user_id s.world.users u found) in
      same-Sound t _ s.requests (users, requests)
        (open-IsSound u s.world.users s.requests s.requests
          (subst (λ k. get_any_by_id k s.world.users ≡ some u) key found) (λ j n. refl) sound a.env)

  cancel_account_deletion-Sound :
      (token : Text) (confirmed : Bool) (session : Session)
      → cancel_account_deletion a token confirmed s ≡ (ok session, t)
      → Sound t
  cancel_account_deletion-Sound token confirmed session h =
      let (
        affirmed, c, valid, u, found, r, requested, state, status, early, user, users, requests,
        devices,
      ) =
        cancel_account_deletion_ok a token confirmed session s t h in
      let key = sym (get_any_by_id-id c.user_id s.world.users u found) in
      same-Sound t _ (update_request u.id (called_off a) s.requests) (users, requests)
        (open-IsSound u s.world.users s.requests (update_request u.id (called_off a) s.requests)
          (subst (λ k. get_any_by_id k s.world.users ≡ some u) key found)
          (update_request-SameBut u.id (called_off a) s.requests (λ r. refl)) sound a.env)

module _ (a : ActionEnv) (s t : Store) (sound : Sound s) where
  perform_ok-Sound : (c : Call) → perform c a s ≡ (ok tt, t) → Sound t
  perform_ok-Sound (deactivation i password otp) h =
      elim (Result-cases (deactivate_account a i password otp s)) [
        | inl (b, t', e) ↦ deactivate_account-Sound a s t sound i password otp b (ground arith)
        | inr (e, t', f) ↦ absurd (ground arith)
      ]
  perform_ok-Sound (deletion i password otp ack) h =
      elim (Result-cases (delete_account a i password otp ack s)) [
        | inl (r, t', e) ↦ delete_account-Sound a s t sound i password otp ack r (ground arith)
        | inr (e, t', f) ↦ absurd (ground arith)
      ]
  perform_ok-Sound (reactivation token confirmed) h =
      elim (Result-cases (reactivate_account a token confirmed s)) [
        | inl (x, t', e) ↦ reactivate_account-Sound a s t sound token confirmed x (ground arith)
        | inr (e, t', f) ↦ absurd (ground arith)
      ]
  perform_ok-Sound (cancellation token confirmed) h =
      elim (Result-cases (cancel_account_deletion a token confirmed s)) [
        | inl (x, t', e) ↦
            cancel_account_deletion-Sound a s t sound token confirmed x (ground arith)
        | inr (e, t', f) ↦ absurd (ground arith)
      ]

pub perform-Sound : (c : Call) (a : ActionEnv) (s : Store) → Sound s → Sound (perform c a s).1
perform-Sound c a s sound = elim (Result-cases (perform c a s)) [
  | inl (x, t, h) ↦ subst (λ p. Sound p.1) (sym h) (perform_ok-Sound a s t sound c h)
  | inr (e, t, h) ↦
      let (users, activity, requests, devices, reservations) = perform_atomic c a s t e h in
      subst (λ p. Sound p.1) (sym h) (same-Sound t s.world.users s.requests (users, requests) sound)
]
