-- ===== src/Accounts/Recovery.antt =====
-- The way back from deactivation and from scheduled deletion, and what a failure undoes.
use ziona_server.Base.{
  ℕ, ◌<◌, ◌≡◌, Bool, true, some, arith, inl, inr, Option-cases, Result-cases, Text, Result, ok, err,
}
use ziona_server.Accounts.User.{User, pending_deletion, get_any_by_id, save}
use ziona_server.Accounts.Store.{
  DeletionRequest, pending, Store, Claims, reason_pending_deletion, ActionEnv, ActionError, Action,
  set_user, update_user, update_request, get_request, atomic, roll_back,
}
use ziona_server.Accounts.Actions.{deactivate_account, delete_account}
use ziona_server.Accounts.Return.{
  validate_recovery_token, reopened, called_off, resume_session, reactivate_account,
  cancel_account_deletion, cancel_request,
}
use ziona_server.Accounts.Effects.{resume_session_ok}
use ziona_server.Otp.Verify.{Session, logged_in}

cancel_request_ok :
    (a : ActionEnv) (u : User) (r : DeletionRequest) (session : Session) (s t : Store)
    → cancel_request a u r s ≡ (ok session, t)
    → (u.lifecycle_state ≡ pending_deletion)
      × (r.status ≡ pending)
      × (a.env.now < r.scheduled_for)
      × (session.user ≡ logged_in a.env (reopened u))
      × (t.world.users
          ≡ save (logged_in a.env (reopened u)) (update_user u.id reopened s.world.users))
      × (t.requests ≡ update_request u.id (called_off a) s.requests)
      × (t.devices ≡ s.devices)
unfolding cancel_request
cancel_request_ok a u r session s t h =
    let called = record s { requests = update_request u.id (called_off a) s.requests } in
    let opened = set_user u.id reopened called in
    elim (Result-cases (resume_session a (reopened u) opened)) [
      | inr (x, t', g) ↦ absurd (ground arith)
      | inl (y, t', g) ↦
          let effect = resume_session_ok a (reopened u) opened t' y g in ground (arith, effect)
    ]

-- A cancellation that succeeds was confirmed, with a valid recovery token for an account that awaits
-- deletion, whose request is pending and not due yet. The request is then called off, the account's
-- row is open and carries the login, and no other row of the users, the devices or the requests
-- changed.
pub cancel_account_deletion_ok :
    (a : ActionEnv) (token : Text) (confirmed : Bool) (session : Session) (s t : Store)
    → cancel_account_deletion a token confirmed s ≡ (ok session, t)
    → (confirmed ≡ true)
      × (c : Claims) × (validate_recovery_token a token reason_pending_deletion ≡ some c)
      × (u : User) × (get_any_by_id c.user_id s.world.users ≡ some u)
      × (r : DeletionRequest) × (get_request u.id s.requests ≡ some r)
      × (u.lifecycle_state ≡ pending_deletion)
      × (r.status ≡ pending)
      × (a.env.now < r.scheduled_for)
      × (session.user ≡ logged_in a.env (reopened u))
      × (t.world.users
          ≡ save (logged_in a.env (reopened u)) (update_user u.id reopened s.world.users))
      × (t.requests ≡ update_request u.id (called_off a) s.requests)
      × (t.devices ≡ s.devices)
unfolding cancel_account_deletion atomic
cancel_account_deletion_ok a token confirmed session s t h =
    elim (Option-cases (validate_recovery_token a token reason_pending_deletion)) [
      | inl e ↦ absurd (ground arith)
      | inr (c, e) ↦ elim (Option-cases (get_any_by_id c.user_id s.world.users)) [
        | inl f ↦ absurd (ground arith)
        | inr (u, f) ↦ elim (Option-cases (get_request u.id s.requests)) [
          | inl k ↦ absurd (ground arith)
          | inr (r, k) ↦ elim (Result-cases (cancel_request a u r s)) [
            | inr (x, t', g) ↦ absurd (ground arith)
            | inl (y, t', g) ↦
                let effect = cancel_request_ok a u r y s t' g in ground (arith, effect)
          ]
        ]
      ]
    ]

-- The four actions, for what they have in common.
pub data Call : Type 0 where
  deactivation : ℕ → Text → Text → Call
  deletion : ℕ → Text → Text → Bool → Call
  reactivation cancellation : Text → Bool → Call

abbrev forget : {A : Type 0} → Result ActionError A × Store → Result ActionError (Unit {0}) × Store
forget (ok a, s) = (ok tt, s)
forget (err e, s) = (err e, s)

abbrev pub perform : Call → ActionEnv → Action (Unit {0})
perform (deactivation i password otp) a s = forget (deactivate_account a i password otp s)
perform (deletion i password otp ack) a s = forget (delete_account a i password otp ack s)
perform (reactivation token confirmed) a s = forget (reactivate_account a token confirmed s)
perform (cancellation token confirmed) a s = forget (cancel_account_deletion a token confirmed s)

atomic-err :
    {A : Type 0} (m : Action A) (s t : Store) (e : ActionError)
    → forget (atomic m s) ≡ (err e, t)
    → t ≡ roll_back s t
unfolding atomic roll_back
atomic-err m s t e h = elim (Result-cases (m s)) [
  | inl (x, t', g) ↦ absurd (ground arith)
  | inr (x, t', g) ↦ ground arith
]

-- An account action that raises leaves every row of the database as it was, at whatever step it
-- fails.
pub perform_atomic :
    (c : Call) (a : ActionEnv) (s t : Store) (e : ActionError)
    → perform c a s ≡ (err e, t)
    → (t.world.users ≡ s.world.users)
      × (t.world.activity ≡ s.world.activity)
      × (t.requests ≡ s.requests)
      × (t.devices ≡ s.devices)
      × (t.reservations ≡ s.reservations)
unfolding deactivate_account delete_account reactivate_account cancel_account_deletion roll_back
perform_atomic (deactivation i password otp) a s t e h = ground (arith, atomic-err _ s t e h)
perform_atomic (deletion i password otp ack) a s t e h = ground (arith, atomic-err _ s t e h)
perform_atomic (reactivation token confirmed) a s t e h = ground (arith, atomic-err _ s t e h)
perform_atomic (cancellation token confirmed) a s t e h = ground (arith, atomic-err _ s t e h)
