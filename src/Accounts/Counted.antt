-- ===== src/Accounts/Counted.antt =====
-- A failed attempt at an account action is counted, though its transaction is undone.
use ziona_server.Accounts.Recovery.{Call, deactivation, deletion, perform}
use ziona_server.Base.{
  ℕ, ◌-◌, ◌<◌, ◌≡◌, true, false, none, some, [], arith, Text, text_eq, strip, is_empty, err, refl,
  Bool,
}
use ziona_server.Accounts.User.{User, get_any_by_id}
use ziona_server.Accounts.Status.{ensure_account_can_authenticate}
use ziona_server.Accounts.Store.{Store, ActionEnv, ActionError, otp_error, atomic, roll_back}
use ziona_server.Accounts.Actions.{
  reauthenticate, deactivate_account, delete_account, begin_deletion, open_request,
}
use ziona_server.Otp.World.{Purpose, auth, invalid_otp, account_deactivation, account_deletion}
use ziona_server.Otp.Redis.{live, count_of}
use ziona_server.Otp.Service.{normalize, is_account_action}
use ziona_server.Otp.Check.{tried, verify_account_action_otp_lem}

-- The two actions that a code confirms, with their purposes.
abbrev pub ask : Bool → ℕ → Text → Text → Call
ask false i password otp = deactivation i password otp
ask true i password otp = deletion i password otp true

abbrev pub purpose_of : Bool → Purpose
purpose_of false = account_deactivation
purpose_of true = account_deletion

module _ (a : ActionEnv) (i : ℕ) (u : User) (password otp : Text) (s : Store) where
  -- The tables with one failure more against the email of the user.
  abbrev pub counted : Purpose → Store
  counted purpose = record s {
    world = tried a.env (normalize u.email) u.id (strip (strip otp)) purpose s.world;
  }

  abbrev pub failures : Purpose → ℕ
  failures purpose = count_of (live a.env.now (s.world.attempts purpose (normalize u.email)))

  abbrev pub wrong_code : Purpose → ActionError
  wrong_code purpose = otp_error (auth (invalid_otp (some (5 - failures purpose - 1))))

  -- A code stands for the user and purpose, and the given one is another.
  abbrev pub IsWrong : Purpose → Type 0
  IsWrong purpose =
      (stored : Text) × (live a.env.now (s.world.codes purpose u.id) ≡ some stored)
      × (text_eq stored (strip (strip otp)) ≡ false)

  module _ (healthy : s.world.outage ≡ []) (blank : is_empty (strip password) ≡ true)
      (given : is_empty (strip otp) ≡ false) where
    reauthenticate_wrong :
        (purpose : Purpose)
        → is_account_action purpose ≡ true
        → failures purpose < 5
        → IsWrong purpose
        → reauthenticate a u password otp purpose s ≡ (err (wrong_code purpose), counted purpose)
    unfolding reauthenticate
    reauthenticate_wrong purpose action few (stored, there, other) = ground (
      arith,
      verify_account_action_otp_lem a.env u.email u.id (strip otp) purpose s.world healthy,
    )

    -- A deactivation, or a deletion, that is asked for with a wrong code changes nothing but the count
    -- of failures against the email of the account, which goes up by one and lives for ten minutes:
    -- the transaction is undone, the count is not. The answer tells the attempts that are left. The
    -- account is there and may authenticate, no deletion of it is open, a code stands for the action
    -- and fewer than five failures do, no password was given, and Redis answers.
    pub ask_counted :
        (leaves : Bool)
        → get_any_by_id i s.world.users ≡ some u
        → u.deleted_at ≡ none
        → ensure_account_can_authenticate u ≡ none
        → open_request u s.requests ≡ none
        → failures (purpose_of leaves) < 5
        → IsWrong (purpose_of leaves)
        → perform (ask leaves i password otp) a s
          ≡ (err (wrong_code (purpose_of leaves)), counted (purpose_of leaves))
    unfolding deactivate_account delete_account begin_deletion atomic roll_back
    ask_counted false found there active idle few wrong =
        ground (arith, reauthenticate_wrong account_deactivation refl few wrong)
    ask_counted true found there active idle few wrong =
        ground (arith, reauthenticate_wrong account_deletion refl few wrong)
