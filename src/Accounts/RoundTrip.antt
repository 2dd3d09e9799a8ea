-- ===== src/Accounts/RoundTrip.antt =====
-- An account that was closed can be opened again.
use ziona_server.Base.{
  ℕ, ◌+◌, ◌*◌, ◌<◌, ◌≡◌, refl, Bool, true, false, Option, none, some, List, ==_refl, arith, inl,
  inr, Option-cases, Result-cases, Text, ok, subst, sym, ◌∙◌,
}
use ziona_server.Accounts.User.{User, Lifecycle, deactivated, pending_deletion, get_any_by_id, save}
use ziona_server.Accounts.Status.{ensure_account_can_authenticate}
use ziona_server.Accounts.Store.{
  DeletionRequest, pending, Store, Claims, reason_deactivated, reason_pending_deletion, ActionEnv,
  set_user, update_user, update_request, get_request, atomic,
}
use ziona_server.Accounts.Actions.{deactivate_account, delete_account, schedule, scheduled}
use ziona_server.Accounts.Return.{
  validate_recovery_token, reopened, called_off, resume_session, reactivate_account,
  cancel_account_deletion, cancel_request,
}
use ziona_server.Accounts.Effects.{
  cut_off, closed, resume_session_ok, delete_account_ok, deactivate_account_ok,
}
use ziona_server.Accounts.Table.{
  get_any_by_id-update_user, get_any_by_id-save, get_any_by_id-id, get_request-update_request,
}
use ziona_server.Otp.Verify.{Session, logged_in, record_successful_auth, generate_refresh_token}

resume_session_lenient :
    (a : ActionEnv) (u : User) (s : Store)
    → a.env.strict_redis ≡ false
    → (session : Session) × (t : Store) × (resume_session a u s ≡ (ok session, t))
unfolding resume_session record_successful_auth generate_refresh_token
resume_session_lenient a u s lenient = elim (Result-cases (resume_session a u s)) [
  | inl (x, t, e) ↦ (x, t, e)
  | inr (x, t, e) ↦ absurd (ground arith)
]

pub get_request-schedule :
    (a : ActionEnv) (i : ℕ) (requests : List DeletionRequest)
    → (get_request i (schedule a i requests).1 ≡ some (schedule a i requests).0)
      × ((schedule a i requests).0.status ≡ pending)
      × ((schedule a i requests).0.scheduled_for ≡ a.env.now + a.grace_days * 86400)
unfolding get_request
get_request-schedule a i requests = elim (Option-cases (get_request i requests)) [
  | inl e ↦ ground (arith, ==_refl i)
  | inr (r, e) ↦ ground (arith, get_request-update_request i (scheduled a) requests r (λ x. refl) e)
]

move_key :
    {i j : ℕ} (users : List User) {o : Option User}
    → i ≡ j
    → get_any_by_id i users ≡ o
    → get_any_by_id j users ≡ o
move_key users {o} e h = subst (λ k. get_any_by_id k users ≡ o) e h

-- The row of an account that was closed, opened again and logged in to.
abbrev pub recovered : ActionEnv → ActionEnv → Lifecycle → User → User
recovered a a' state u = logged_in a'.env (reopened (closed state (cut_off a.env.now u)))

recovered_can_authenticate :
    (a a' : ActionEnv) (state : Lifecycle) (u : User)
    → ensure_account_can_authenticate u ≡ none
    → ensure_account_can_authenticate (recovered a a' state u) ≡ none
unfolding ensure_account_can_authenticate
recovered_can_authenticate a a' state u h = ground arith

module _ (a : ActionEnv) (state : Lifecycle) (u : User) (users users' : List User)
    (found : get_any_by_id u.id users ≡ some u)
    (closing : users'
      ≡ update_user u.id (closed state) (update_user u.id (cut_off a.env.now) users)) where
  closed_row : get_any_by_id u.id users' ≡ some (closed state (cut_off a.env.now u))
  closed_row = rw closing (
      get_any_by_id-update_user u.id (closed state) _ (cut_off a.env.now u) (λ v. refl)
        (get_any_by_id-update_user u.id (cut_off a.env.now) users u (λ v. refl) found))

  recovered_row :
      (a' : ActionEnv)
      → get_any_by_id u.id (save (recovered a a' state u) (update_user u.id reopened users'))
        ≡ some (recovered a a' state u)
  recovered_row a' =
      get_any_by_id-save u.id (recovered a a' state u) _
        (reopened (closed state (cut_off a.env.now u))) (ground arith)
        (get_any_by_id-update_user u.id reopened users' (closed state (cut_off a.env.now u))
          (λ v. refl) closed_row)

module _ (a : ActionEnv) (token : Text) (t : Store) (c : Claims) (x : User)
    (lenient : a.env.strict_redis ≡ false)
    (found : get_any_by_id c.user_id t.world.users ≡ some x) where
  reactivate_account_lenient :
      validate_recovery_token a token reason_deactivated ≡ some c
      → x.lifecycle_state ≡ deactivated
      → (session : Session) × (v : Store) × (reactivate_account a token true t ≡ (ok session, v))
        × (v.world.users
            ≡ save (logged_in a.env (reopened x)) (update_user x.id reopened t.world.users))
  unfolding reactivate_account atomic
  reactivate_account_lenient valid state =
      let opened = set_user x.id reopened t in
      let (session, v, e) = resume_session_lenient a (reopened x) opened lenient in
      (
        session,
        v,
        ground arith,
        ground (arith, resume_session_ok a (reopened x) opened v session e),
      )

  cancel_account_deletion_lenient :
      (r : DeletionRequest)
      → validate_recovery_token a token reason_pending_deletion ≡ some c
      → x.lifecycle_state ≡ pending_deletion
      → get_request x.id t.requests ≡ some r
      → r.status ≡ pending
      → a.env.now < r.scheduled_for
      → (session : Session) × (v : Store) × (cancel_account_deletion a token true t
          ≡ (ok session, v))
        × (v.world.users
            ≡ save (logged_in a.env (reopened x)) (update_user x.id reopened t.world.users))
        × (v.requests ≡ update_request x.id (called_off a) t.requests)
  unfolding cancel_account_deletion cancel_request atomic
  cancel_account_deletion_lenient r valid state requested status early =
      let called = record t { requests = update_request x.id (called_off a) t.requests } in
      let opened = set_user x.id reopened called in
      let (session, v, e) = resume_session_lenient a (reopened x) opened lenient in
      let effect = resume_session_ok a (reopened x) opened v session e in
      (session, v, ground arith, ground (arith, effect), ground (arith, effect))

delete_account_scheduled :
    (a : ActionEnv) (i : ℕ) (password otp : Text) (s t : Store) (r : DeletionRequest) (u : User)
    → delete_account a i password otp true s ≡ (ok r, t)
    → get_any_by_id i s.world.users ≡ some u
    → ensure_account_can_authenticate u ≡ none
    → (t.world.users
        ≡ update_user u.id
            (closed pending_deletion)
            (update_user u.id (cut_off a.env.now) s.world.users))
      × ((r, t.requests) ≡ schedule a u.id s.requests)
unfolding ensure_account_can_authenticate
delete_account_scheduled a i password otp s t r u h found allowed =
    let (ack, u', found', nd, outcome) = delete_account_ok a i password otp true r s t h in
    elim outcome [
      | inl (opened, same) ↦ absurd (ground arith)
      | inr (allowed', users, requests, devices) ↦
          let e : u' ≡ u = ground arith in
          (
            subst
                (λ w.
                  t.world.users
                  ≡ update_user w.id (closed pending_deletion)
                      (update_user w.id (cut_off a.env.now) s.world.users))
                e users,
            subst (λ w. (r, t.requests) ≡ schedule a w.id s.requests) e requests,
          )
    ]

module _ (a a' : ActionEnv) (i : ℕ) (password otp token : Text) (s t : Store) (c : Claims)
    (lenient : a'.env.strict_redis ≡ false) (claimed : c.user_id ≡ i) where
  -- A deactivated account comes back. After a deactivation that succeeded, and with a recovery token
  -- of that account, a confirmed reactivation at any time succeeds, where the setting does not insist
  -- on Redis; the account may authenticate again, under the row it had but for the login, the cutoff
  -- of its older tokens and the flags of an open account.
  pub reactivate_account-deactivate_account :
      (b : Bool)
      → deactivate_account a i password otp s ≡ (ok b, t)
      → validate_recovery_token a' token reason_deactivated ≡ some c
      → (u : User) × (get_any_by_id i s.world.users ≡ some u)
        × (session : Session) × (v : Store) × (reactivate_account a' token true t ≡ (ok session, v))
        × (get_any_by_id i v.world.users ≡ some (recovered a a' deactivated u))
        × (ensure_account_can_authenticate (recovered a a' deactivated u) ≡ none)
  reactivate_account-deactivate_account b h valid =
      let (u, found, allowed, closing, rq, dv) = deactivate_account_ok a i password otp b s t h in
      let key : u.id ≡ i = get_any_by_id-id i s.world.users u found in
      let found' : get_any_by_id u.id s.world.users ≡ some u =
        move_key s.world.users (sym key) found in
      let row = closed_row a deactivated u s.world.users t.world.users found' closing in
      let (session, v, e, users) =
        reactivate_account_lenient a' token t c (closed deactivated (cut_off a.env.now u)) lenient
          (move_key t.world.users (key ∙ sym claimed) row) valid refl in
      (
        u,
        found,
        session,
        v,
        e,
        move_key v.world.users key (
            rw users (recovered_row a deactivated u s.world.users t.world.users found' closing a')),
        recovered_can_authenticate a a' deactivated u allowed,
      )

  -- A deletion can be called off. After a request to delete that scheduled the deletion of an account
  -- that could authenticate, and with a recovery token of that account, a confirmed cancellation in
  -- the days of grace succeeds, where the setting does not insist on Redis; the account may
  -- authenticate again, under the row it had but for the login, the cutoff of its older tokens and
  -- the flags of an open account.
  pub cancel_account_deletion-delete_account :
      (r : DeletionRequest) (u : User)
      → delete_account a i password otp true s ≡ (ok r, t)
      → get_any_by_id i s.world.users ≡ some u
      → ensure_account_can_authenticate u ≡ none
      → validate_recovery_token a' token reason_pending_deletion ≡ some c
      → a'.env.now < a.env.now + a.grace_days * 86400
      → (session : Session) × (v : Store) × (cancel_account_deletion a' token true t
          ≡ (ok session, v))
        × (get_any_by_id i v.world.users ≡ some (recovered a a' pending_deletion u))
        × (ensure_account_can_authenticate (recovered a a' pending_deletion u) ≡ none)
  cancel_account_deletion-delete_account r u h found allowed valid early =
      let (closing, scheduling) =
        delete_account_scheduled a i password otp s t r u h found allowed in
      let key : u.id ≡ i = get_any_by_id-id i s.world.users u found in
      let found' : get_any_by_id u.id s.world.users ≡ some u =
        move_key s.world.users (sym key) found in
      let row = closed_row a pending_deletion u s.world.users t.world.users found' closing in
      let (listed, status, due) = get_request-schedule a u.id s.requests in
      let (session, v, e, users, requests) =
        cancel_account_deletion_lenient a' token t c (closed pending_deletion (cut_off a.env.now u))
          lenient (move_key t.world.users (key ∙ sym claimed) row) r valid refl (ground arith)
          (ground arith) (ground arith) in
      (
        session,
        v,
        e,
        move_key v.world.users key (
            rw users
              (recovered_row a pending_deletion u s.world.users t.world.users found' closing a')),
        recovered_can_authenticate a a' pending_deletion u allowed,
      )
