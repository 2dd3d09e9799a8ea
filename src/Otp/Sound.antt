-- ===== src/Otp/Sound.antt =====
-- What an accepted code says, whichever commands of Redis fail.
use ziona_server.Base.{
  [], ◌∷◌, ℕ, ◌<◌, ◌≡◌, ◌⊎◌, true, false, ◌&&◌, none, some, arith, Text, text_eq_sound, strip,
  Option-cases, Result-cases, >>-prefix, Bool-cases, inl, inr, ok, ◌>>◌, List, Bool, sym,
}
use ziona_server.Accounts.User.{User, get_by_email}
use ziona_server.Accounts.Status.{ensure_account_can_authenticate}
use ziona_server.Otp.World.{Purpose, World, Env}
use ziona_server.Otp.Redis.{live, count_of}
use ziona_server.Otp.Limits.{check_attempts}
use ziona_server.Otp.Verify.{check_code, clear_code}
use ziona_server.Otp.Service.{
  is_valid_purpose, is_signup, is_account_action, normalize, verify_account_action_otp,
  unified_verify_otp, Verified, complete,
}

-- Whether Redis fails at the next command.
abbrev pub fails_first : List Bool → Bool
fails_first [] = false
fails_first (fails ∷ rest) = fails

-- The lenient setting passes the limit unread if that read, the first command of a call, fails.
abbrev pub IsUnread : Env → World → Type 0
IsUnread env w = (env.strict_redis ≡ false) × (fails_first w.outage ≡ true)

-- Fewer than five failures stood against an email, or their count was not read.
abbrev pub IsWithinLimit : Env → Text → Purpose → World → Type 0
IsWithinLimit env email purpose w =
    (count_of (live env.now (w.attempts purpose email)) < 5) ⊎ IsUnread env w

module _ (env : Env) (email : Text) (user_id : ℕ) (given : Text) (purpose : Purpose) where
  abbrev pub Right : World → Type 0
  Right w =
      (live env.now (w.codes purpose user_id) ≡ some given) × IsWithinLimit env email purpose w

  check_attempts-ok :
      (w : World) (w' : World)
      → check_attempts env email purpose 5 w ≡ (ok tt, w')
      → (IsUnread env w × (w'.codes ≡ w.codes) × (w'.users ≡ w.users))
        ⊎ ((count_of (live env.now (w.attempts purpose email)) < 5)
            × (w'.codes ≡ w.codes)
            × (w'.users ≡ w.users))
  unfolding check_attempts
  check_attempts-ok w w' h = ground arith

  check_code-ok :
      (w : World) (w' : World)
      → check_code env (clear_code env email user_id purpose) email user_id given purpose w
        ≡ (ok tt, w')
      → live env.now (w.codes purpose user_id) ≡ some given
  unfolding check_code clear_code
  check_code-ok w w' h = elim (Option-cases (live env.now (w.codes purpose user_id))) [
    | inl e ↦ absurd (ground arith)
    | inr (stored, e) ↦ ground (arith, text_eq_sound stored given)
  ]

  check-Right :
      (w w' : World)
      → (check_attempts env email purpose 5
            >> check_code env (clear_code env email user_id purpose) email user_id given purpose)
          w
        ≡ (ok tt, w')
      → Right w
  check-Right w w' h = elim (Result-cases (check_attempts env email purpose 5 w)) [
    | inr (e, w₁, f) ↦ absurd (ground arith)
    | inl (x, w₁, f) ↦
        let passed = check_attempts-ok w w₁ f in
        let right = check_code-ok w₁ w' (ground arith) in
        elim passed [
          | inl (unread, codes, users) ↦ (rw (sym codes) right, inr unread)
          | inr (few, codes, users) ↦ (rw (sym codes) right, inl few)
        ]
  ]

-- An account action is allowed by a code only if the purpose is one, a code was stored for this user
-- and purpose and is still alive, the given code is that code up to white space, and fewer than five
-- failures stood against the email. Each command of Redis may fail on its own, under both settings.
-- The one exception is the limit: where the setting is lenient and the first command fails, which
-- reads the count of failures, the limit is passed unread.
pub verify_account_action_otp_sound :
    (env : Env) (raw_email : Text) (user_id : ℕ) (code : Text) (purpose : Purpose) (w w' : World)
    → verify_account_action_otp env raw_email user_id code purpose w ≡ (ok tt, w')
    → (is_account_action purpose ≡ true)
      × (live env.now (w.codes purpose user_id) ≡ some (strip code))
      × IsWithinLimit env (normalize raw_email) purpose w
unfolding verify_account_action_otp
verify_account_action_otp_sound env raw_email user_id code purpose w w' h =
    elim (Bool-cases (is_account_action purpose)) [
      | inr bad ↦ absurd (ground arith)
      | inl good ↦
          let right =
            check-Right env (normalize raw_email) user_id (strip code) purpose w w'
              (ground arith) in
          (good, right.0, right.1)
    ]

-- A code is accepted, for a session, a reset token or an account action, only if the purpose is
-- valid, the email belongs to a visible account that may authenticate and, at sign-up, is not
-- verified yet, a code was stored for that account and purpose and is still alive, the given code
-- is that code, and fewer than five failures stood against the email. Each command of Redis may fail
-- on its own, under both settings. The one exception is the limit: where the setting is lenient and
-- the first command fails, which reads the count of failures, the limit is passed unread.
pub unified_verify_otp_sound :
    (env : Env) (raw_email given : Text) (purpose : Purpose) (v : Verified) (w w' : World)
    → unified_verify_otp env raw_email given purpose w ≡ (ok v, w')
    → (u : User) × (get_by_email (normalize raw_email) w.users ≡ some u)
      × (is_valid_purpose purpose ≡ true)
      × (ensure_account_can_authenticate u ≡ none)
      × ((is_signup purpose && u.is_email_verified) ≡ false)
      × (live env.now (w.codes purpose u.id) ≡ some given)
      × IsWithinLimit env (normalize raw_email) purpose w
unfolding unified_verify_otp
unified_verify_otp_sound env raw_email given purpose v w w' h =
    let email = normalize raw_email in
    elim (Option-cases (get_by_email email w.users)) [
      | inl e ↦ absurd (ground arith)
      | inr (u, e) ↦ elim (Option-cases (ensure_account_can_authenticate u)) [
        | inr (x, f) ↦ absurd (ground arith)
        | inl f ↦ elim (Bool-cases (is_valid_purpose purpose)) [
          | inr bad ↦ absurd (ground arith)
          | inl valid ↦ elim (Bool-cases (is_signup purpose && u.is_email_verified)) [
            | inl again ↦ absurd (ground arith)
            | inr fresh ↦
                let (w₂, p) =
                  >>-prefix (check_attempts env email purpose 5)
                    (check_code env (clear_code env email u.id purpose) email u.id given purpose)
                    (complete env email u purpose) w v w' (ground arith) in
                let right = check-Right env email u.id given purpose w w₂ p in
                (u, e, valid, f, fresh, right.0, right.1)
          ]
        ]
      ]
    ]
