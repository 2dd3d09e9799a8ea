-- ===== src/Accounts/Effects.antt =====
-- What the account actions write: the rows of the database before and after each of them.
use ziona_server.Otp.Redis.{get_code, get_attempts, count_of}
use ziona_server.Otp.Limits.{check_attempts, increment_attempts}
use ziona_server.Base.{
  ℕ, ◌≡◌, ◌⊎◌, Bool, true, false, none, some, arith, inl, inr, Option-cases, Result-cases,
  if◌then◌else◌, Text, strip, map, filter_out, ok, ◌>>=◌, Option, Bool-cases,
}
use ziona_server.Accounts.User.{User, Lifecycle, deactivated, pending_deletion, get_any_by_id, save}
use ziona_server.Accounts.Status.{ensure_account_can_authenticate}
use ziona_server.Accounts.Store.{
  DeletionRequest, Store, Claims, reason_deactivated, ActionEnv, set_user, update_user, atomic,
}
use ziona_server.Accounts.Actions.{
  reauthenticate, revoke_user_sessions, switch_off, owned_by, deactivate_account, delete_account,
  begin_deletion, open_request, schedule, write_request,
}
use ziona_server.Accounts.Return.{
  validate_recovery_token, reopened, resume_session, reactivate_account,
}
use ziona_server.Otp.World.{Purpose, World, Env, M}
use ziona_server.Otp.Service.{verify_account_action_otp, is_account_action, normalize}
use ziona_server.Otp.Verify.{
  Session, logged_in, record_successful_auth, generate_refresh_token, clear_code, compare_code,
  check_code,
}

-- Methods that leave the table of users alone, in sequence.
>>=-users :
    {A B : Type 0} (m : M A) (k : A → M B) (w : World)
    → (m w).1.users ≡ w.users
    → ((a : A) (v : World) → (k a v).1.users ≡ v.users)
    → ((m >>= k) w).1.users ≡ w.users
>>=-users m k w first next = elim (Result-cases (m w)) [
  | inl (a, v, h) ↦ ground (arith, next a v)
  | inr (e, v, h) ↦ ground arith
]

module _ (env : Env) (email : Text) (i : ℕ) (code : Text) (purpose : Purpose) where
  check_attempts-users : (w : World) → (check_attempts env email purpose 5 w).1.users ≡ w.users
  unfolding check_attempts
  check_attempts-users w = ground arith

  clear_code-users : (w : World) → (clear_code env email i purpose w).1.users ≡ w.users
  unfolding clear_code
  clear_code-users w = ground arith

  compare_code-users :
      (stored : Option Text) (used : ℕ) (w : World)
      → (compare_code env (clear_code env email i purpose) email code purpose stored used w).1.users
        ≡ w.users
  unfolding compare_code increment_attempts
  compare_code-users none used w = ground arith
  compare_code-users (some stored) used w = ground (arith, clear_code-users w)

  abbrev compared : Option Text → Option ℕ → M (Unit {0})
  compared stored current =
      compare_code env (clear_code env email i purpose) email code purpose stored (count_of current)

  abbrev counted : Option Text → M (Unit {0})
  counted stored = get_attempts env purpose email >>= compared stored

  counted-users : (stored : Option Text) (w : World) → (counted stored w).1.users ≡ w.users
  counted-users stored w =
      >>=-users (get_attempts env purpose email) (compared stored) w (ground arith)
        (λ current v. compare_code-users stored (count_of current) v)

  check_code-users :
      (w : World)
      → (check_code env (clear_code env email i purpose) email i code purpose w).1.users ≡ w.users
  unfolding check_code
  check_code-users w =
      ground (arith, >>=-users (get_code env purpose i) counted w (ground arith) counted-users)

verify_account_action_otp-users :
    (env : Env) (email : Text) (i : ℕ) (code : Text) (purpose : Purpose) (w : World)
    → (verify_account_action_otp env email i code purpose w).1.users ≡ w.users
unfolding verify_account_action_otp
verify_account_action_otp-users env email i code purpose w =
    elim (Bool-cases (is_account_action purpose)) [
      | inr bad ↦ ground arith
      | inl good ↦ ground (
        arith,
        >>=-users (check_attempts env (normalize email) purpose 5)
            (λ x.
              check_code env (clear_code env (normalize email) i purpose) (normalize email) i
                (strip code) purpose)
            w (check_attempts-users env (normalize email) i code purpose w)
            (λ a v. check_code-users env (normalize email) i (strip code) purpose v),
      )
    ]

-- Two stores with the same rows of the tables that account actions are about.
abbrev SameRows : Store → Store → Type 0
SameRows s t = (t.world.users ≡ s.world.users) × (t.requests ≡ s.requests) × (t.devices ≡ s.devices)

reauthenticate-rows :
    (a : ActionEnv) (u : User) (password otp : Text) (purpose : Purpose) (s : Store)
    → SameRows s (reauthenticate a u password otp purpose s).1
unfolding reauthenticate
reauthenticate-rows a u password otp purpose s =
    ground (arith, verify_account_action_otp-users a.env u.email u.id (strip otp) purpose s.world)

abbrev pub cut_off : ℕ → User → User
cut_off now u = record u { token_invalid_before = some now }

revoke-rows :
    (a : ActionEnv) (i : ℕ) (b : Bool) (s : Store)
    → ((revoke_user_sessions a i b s).0 ≡ ok tt)
      × ((revoke_user_sessions a i b s).1.world.users
          ≡ update_user i (cut_off a.env.now) s.world.users)
      × ((revoke_user_sessions a i b s).1.requests ≡ s.requests)
      × ((revoke_user_sessions a i b s).1.devices
          ≡ (if b then filter_out (owned_by i) s.devices else map (switch_off i) s.devices))
unfolding revoke_user_sessions
revoke-rows a i b s = ground arith

abbrev pub closed : Lifecycle → User → User
closed state u = record u { lifecycle_state = state; is_active = false }

-- A deactivation that succeeds found an account that may authenticate. It is then deactivated and
-- not active, its older tokens are invalid, its devices get no push, and no other row of the users,
-- the devices or the deletion requests changed.
pub deactivate_account_ok :
    (a : ActionEnv) (i : ℕ) (password otp : Text) (b : Bool) (s t : Store)
    → deactivate_account a i password otp s ≡ (ok b, t)
    → (u : User) × (get_any_by_id i s.world.users ≡ some u)
      × (ensure_account_can_authenticate u ≡ none)
      × (t.world.users
          ≡ update_user u.id
              (closed deactivated)
              (update_user u.id (cut_off a.env.now) s.world.users))
      × (t.requests ≡ s.requests)
      × (t.devices ≡ map (switch_off u.id) s.devices)
unfolding deactivate_account atomic
deactivate_account_ok a i password otp b s t h =
    elim (Option-cases (get_any_by_id i s.world.users)) [
      | inl e ↦ absurd (ground arith)
      | inr (u, e) ↦ ground (
        arith,
        reauthenticate-rows a u password otp Purpose.account_deactivation s,
        revoke-rows a u.id false (reauthenticate a u password otp Purpose.account_deactivation s).1,
      )
    ]

begin_deletion_ok :
    (a : ActionEnv) (u : User) (password otp : Text) (r : DeletionRequest) (s t : Store)
    → begin_deletion a u password otp s ≡ (ok r, t)
    → (ensure_account_can_authenticate u ≡ none)
      × (t.world.users
          ≡ update_user u.id
              (closed pending_deletion)
              (update_user u.id (cut_off a.env.now) s.world.users))
      × ((r, t.requests) ≡ schedule a u.id s.requests)
      × (t.devices ≡ filter_out (owned_by u.id) s.devices)
unfolding begin_deletion write_request
begin_deletion_ok a u password otp r s t h = ground (
  arith,
  reauthenticate-rows a u password otp Purpose.account_deletion s,
  revoke-rows a u.id true (reauthenticate a u password otp Purpose.account_deletion s).1,
)

-- A request to delete that succeeds was acknowledged and found an account that is not soft-deleted.
-- Either a deletion of it is scheduled already, and then nothing changed and the answer is that
-- request; or it could authenticate, and then it awaits deletion and is not active, its older
-- tokens are invalid, its devices are forgotten, and the answer is the request that was written.
pub delete_account_ok :
    (a : ActionEnv) (i : ℕ) (password otp : Text) (ack : Bool) (r : DeletionRequest) (s t : Store)
    → delete_account a i password otp ack s ≡ (ok r, t)
    → (ack ≡ true)
      × (u : User) × (get_any_by_id i s.world.users ≡ some u)
      × (u.deleted_at ≡ none)
      × (((open_request u s.requests ≡ some r) × (t ≡ s))
          ⊎ ((ensure_account_can_authenticate u ≡ none)
              × (t.world.users
                  ≡ update_user u.id
                      (closed pending_deletion)
                      (update_user u.id (cut_off a.env.now) s.world.users))
              × ((r, t.requests) ≡ schedule a u.id s.requests)
              × (t.devices ≡ filter_out (owned_by u.id) s.devices)))
unfolding delete_account atomic
delete_account_ok a i password otp ack r s t h =
    elim (Option-cases (get_any_by_id i s.world.users)) [
      | inl e ↦ absurd (ground arith)
      | inr (u, e) ↦ elim (Option-cases (open_request u s.requests)) [
        | inr (r', f) ↦ (ground arith, u, e, ground arith, inl (ground arith, ground arith))
        | inl f ↦ elim (Result-cases (begin_deletion a u password otp s)) [
          | inr (x, t', g) ↦ absurd (ground arith)
          | inl (r', t', g) ↦
              let effect = begin_deletion_ok a u password otp r' s t' g in
              (ground arith, u, e, ground arith, inr (ground (arith, effect)))
        ]
      ]
    ]

-- What the start of a session leaves: the last login is set.
pub resume_session_ok :
    (a : ActionEnv) (u : User) (s t : Store) (session : Session)
    → resume_session a u s ≡ (ok session, t)
    → (session.user ≡ logged_in a.env u)
      × (session.access_user_id ≡ u.id)
      × (session.refresh_user_id ≡ u.id)
      × (t.world.users ≡ save (logged_in a.env u) s.world.users)
      × (t.requests ≡ s.requests)
      × (t.devices ≡ s.devices)
unfolding resume_session record_successful_auth generate_refresh_token
resume_session_ok a u s t session h = ground arith

-- A reactivation that succeeds was confirmed, with a valid recovery token for a deactivated account.
-- The session is that account's, its row is open and carries the login, and no other row of the
-- users, the devices or the deletion requests changed.
pub reactivate_account_ok :
    (a : ActionEnv) (token : Text) (confirmed : Bool) (session : Session) (s t : Store)
    → reactivate_account a token confirmed s ≡ (ok session, t)
    → (confirmed ≡ true)
      × (c : Claims) × (validate_recovery_token a token reason_deactivated ≡ some c)
      × (u : User) × (get_any_by_id c.user_id s.world.users ≡ some u)
      × (u.lifecycle_state ≡ deactivated)
      × (session.user ≡ logged_in a.env (reopened u))
      × (t.world.users
          ≡ save (logged_in a.env (reopened u)) (update_user u.id reopened s.world.users))
      × (t.requests ≡ s.requests)
      × (t.devices ≡ s.devices)
unfolding reactivate_account atomic
reactivate_account_ok a token confirmed session s t h =
    elim (Option-cases (validate_recovery_token a token reason_deactivated)) [
      | inl e ↦ absurd (ground arith)
      | inr (c, e) ↦ elim (Option-cases (get_any_by_id c.user_id s.world.users)) [
        | inl f ↦ absurd (ground arith)
        | inr (u, f) ↦
            let opened = set_user u.id reopened s in
            elim (Result-cases (resume_session a (reopened u) opened)) [
              | inr (x, t', g) ↦ absurd (ground arith)
              | inl (y, t', g) ↦
                  let effect = resume_session_ok a (reopened u) opened t' y g in
                  ground (arith, effect)
            ]
      ]
    ]
