-- ===== src/Otp/Answer.antt =====
-- What the answer to a request for a reset code tells about the email.
use ziona_server.Base.{
  [], ℕ, ◌≡◌, ◌≤◌, none, some, arith, inl, inr, Option-cases, Result-cases, ◌↔◌, Text, ok,
}
use ziona_server.Accounts.User.{User, get_by_email}
use ziona_server.Accounts.Status.{ensure_account_can_authenticate}
use ziona_server.Otp.World.{World, Env, Purpose, password_reset}
use ziona_server.Otp.Sending.{admit, prepare_progressive_resend_lem}
use ziona_server.Otp.Service.{Sent, normalize, unified_send_otp}

admitted_delay :
    (env : Env) (email : Text) (purpose : Purpose) (w w' : World) (delay : ℕ)
    → admit env email purpose w ≡ (ok delay, w')
    → 30 ≤ delay
admitted_delay env email purpose w w' delay h = ground arith

module _ (env : Env) (raw_email : Text) (w w' : World) (r : Sent)
    (h : unified_send_otp env raw_email password_reset w ≡ (ok r, w')) where
  unknown_answer : get_by_email (normalize raw_email) w.users ≡ none → r.resend_after ≡ 0
  unfolding unified_send_otp
  unknown_answer e = ground arith

  known_answer :
      (u : User)
      → w.outage ≡ []
      → get_by_email (normalize raw_email) w.users ≡ some u
      → 30 ≤ r.resend_after
  unfolding unified_send_otp
  known_answer u healthy e = elim (Option-cases (ensure_account_can_authenticate u)) [
    | inr (x, f) ↦ absurd (ground arith)
    | inl f ↦
        let email = normalize raw_email in
        let same = prepare_progressive_resend_lem env email password_reset w healthy in
        elim (Result-cases (admit env email password_reset w)) [
          | inr (x, w₁, g) ↦ absurd (ground arith)
          | inl (delay, w₁, g) ↦
              let enough = admitted_delay env email password_reset w w₁ delay g in ground arith
        ]
  ]

-- The answer to a request for a password reset tells whether the email has an account that the
-- manager shows: where the request succeeds and Redis answers, `resend_after` is 0 exactly if there
-- is none.
pub unified_send_otp_tells :
    (env : Env) (raw_email : Text) (w w' : World) (r : Sent)
    → w.outage ≡ []
    → unified_send_otp env raw_email password_reset w ≡ (ok r, w')
    → (r.resend_after ≡ 0) ↔ (get_by_email (normalize raw_email) w.users ≡ none)
unified_send_otp_tells env raw_email w w' r healthy h = (
  λ zero_delay. elim (Option-cases (get_by_email (normalize raw_email) w.users)) [
    | inl e ↦ e
    | inr (u, e) ↦
        let late = known_answer env raw_email w w' r h u healthy e in absurd (omega arith)
  ],
  unknown_answer env raw_email w w' r h,
)
