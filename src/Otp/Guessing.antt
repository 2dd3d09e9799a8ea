-- ===== src/Otp/Guessing.antt =====
-- How many guesses one code can be tested against.
use ziona_server.Base.{
  ℕ, ◌+◌, ◌-◌, ◌≤◌, ◌<◌, ◌≡◌, refl, true, Option, none, some, List, [], ◌∷◌, arith, leb,
  if◌then◌else◌, Text, text_eq_refl, strip, Bool-cases, inl, inr, Result, err,
}
use ziona_server.Otp.World.{Purpose, same_purpose_refl, Entry, World, Env, Error, auth, invalid_otp}
use ziona_server.Otp.Service.{is_account_action, normalize, verify_account_action_otp}
use ziona_server.Otp.Check.{judge, verify_account_action_otp_lem}

-- A guess was compared with the stored code and was wrong.
abbrev pub is_wrong_guess : Result Error (Unit {0}) → ℕ
is_wrong_guess (err (auth (invalid_otp left))) = 1
is_wrong_guess _ = 0

-- Calls one after the other, each at its own time, and the number of wrong guesses among them.
pub wrong_guesses : Env → Text → ℕ → Purpose → List (ℕ × Text) → World → ℕ
wrong_guesses env email user_id purpose [] w = 0
wrong_guesses env email user_id purpose ((time, guess) ∷ rest) w =
    let (r, w') =
      verify_account_action_otp (record env { now = time }) email user_id guess purpose w in
    is_wrong_guess r + wrong_guesses env email user_id purpose rest w'

-- The times do not run backwards.
abbrev pub IsOrdered : ℕ → List (ℕ × Text) → Type 0
IsOrdered from [] = Unit
IsOrdered from ((time, guess) ∷ rest) = (from ≤ time) × IsOrdered time rest

-- The stored code, if there is one, expires by `limit`.
abbrev pub ExpiresBy : ℕ → Option (Entry Text) → Type 0
ExpiresBy limit none = Unit
ExpiresBy limit (some e) = e.expires ≤ limit

-- The guesses that are left while the code lives: a count that outlives the code is what it says,
-- one that may expire earlier is as good as none.
abbrev allowance : ℕ → Option (Entry ℕ) → ℕ
allowance limit none = 5
allowance limit (some e) = if leb limit e.expires then 5 - e.value else 5

abbrev budget : ℕ → Option (Entry Text) → Option (Entry ℕ) → ℕ
budget limit none attempts = 0
budget limit (some code) attempts = allowance limit attempts

module _ (env : Env) (email : Text) (user_id : ℕ) (purpose : Purpose) where
  abbrev after : Text → World → World
  after guess w = (judge env email user_id guess purpose w).1

  abbrev wrong : Text → World → ℕ
  wrong guess w = is_wrong_guess (judge env email user_id guess purpose w).0

  judge_dead :
      (limit : ℕ) (guess : Text) (w : World)
      → ExpiresBy limit (w.codes purpose user_id)
      → limit ≤ env.now
      → (wrong guess w ≡ 0) × ExpiresBy limit ((after guess w).codes purpose user_id)
  judge_dead limit guess w h d = ground (arith, same_purpose_refl purpose, text_eq_refl email)

  judge_alive :
      (limit : ℕ) (guess : Text) (w : World)
      → ExpiresBy limit (w.codes purpose user_id)
      → env.now < limit
      → limit ≤ env.now + 600
      → (wrong guess w
            + budget limit
                ((after guess w).codes purpose user_id)
                ((after guess w).attempts purpose email)
          ≤ budget limit (w.codes purpose user_id) (w.attempts purpose email))
        × ExpiresBy limit ((after guess w).codes purpose user_id)
  judge_alive limit guess w h d s = ground (arith, same_purpose_refl purpose, text_eq_refl email)

  judge_healthy : (guess : Text) (w : World) → w.outage ≡ [] → (after guess w).outage ≡ []
  judge_healthy guess w h = ground arith

budget-le : (limit : ℕ) (c : Option (Entry Text)) (a : Option (Entry ℕ)) → budget limit c a ≤ 5
budget-le limit c a = ground arith

module _ (env : Env) (raw_email : Text) (user_id : ℕ) (purpose : Purpose) (limit : ℕ)
    (action : is_account_action purpose ≡ true) where
  abbrev at_time : ℕ → Env
  at_time time = record env { now = time }

  abbrev next : ℕ → Text → World → World
  next time guess w = after (at_time time) (normalize raw_email) user_id purpose (strip guess) w

  wrong_guesses_step :
      (time : ℕ) (guess : Text) (rest : List (ℕ × Text)) (w : World)
      → w.outage ≡ []
      → wrong_guesses env raw_email user_id purpose ((time, guess) ∷ rest) w
        ≡ wrong (at_time time) (normalize raw_email) user_id purpose (strip guess) w
          + wrong_guesses env raw_email user_id purpose rest (next time guess w)
  unfolding wrong_guesses
  wrong_guesses_step time guess rest w h =
      rw (verify_account_action_otp_lem (at_time time) raw_email user_id guess purpose w h, action)

  wrong_guesses_dead :
      (from : ℕ) (guesses : List (ℕ × Text)) (w : World)
      → w.outage ≡ []
      → limit ≤ from
      → IsOrdered from guesses
      → ExpiresBy limit (w.codes purpose user_id)
      → wrong_guesses env raw_email user_id purpose guesses w ≡ 0
  unfolding wrong_guesses
  wrong_guesses_dead from [] w h d o c = refl
  wrong_guesses_dead from ((time, guess) ∷ rest) w h d (le, o) c =
      let email = normalize raw_email in
      let j =
        judge_dead (at_time time) email user_id purpose limit (strip guess) w c (omega arith) in
      let ih =
        wrong_guesses_dead time rest (next time guess w)
          (judge_healthy (at_time time) email user_id purpose (strip guess) w h) (omega arith) o
          j.1 in
      rw (wrong_guesses_step time guess rest w h) (omega (arith, j.0, ih))

  wrong_guesses_alive :
      (from : ℕ) (guesses : List (ℕ × Text)) (w : World)
      → w.outage ≡ []
      → limit ≤ from + 600
      → IsOrdered from guesses
      → ExpiresBy limit (w.codes purpose user_id)
      → wrong_guesses env raw_email user_id purpose guesses w
        ≤ budget limit (w.codes purpose user_id) (w.attempts purpose (normalize raw_email))
  unfolding wrong_guesses
  wrong_guesses_alive from [] w h s o c = omega arith
  wrong_guesses_alive from ((time, guess) ∷ rest) w h s (le, o) c =
      elim (Bool-cases (leb limit time)) [
        | inl dead ↦
            rw
              (wrong_guesses_dead time ((time, guess) ∷ rest) w h (ground arith) (omega arith, o) c)
              (omega arith)
        | inr alive ↦
            let email = normalize raw_email in
            let j =
              judge_alive (at_time time) email user_id purpose limit (strip guess) w c
                (ground arith) (omega arith) in
            let ih =
              wrong_guesses_alive time rest (next time guess w)
                (judge_healthy (at_time time) email user_id purpose (strip guess) w h) (omega arith)
                o j.1 in
            rw (wrong_guesses_step time guess rest w h) (omega (arith, j.0, ih))
      ]

-- The code of an account action cannot be found by trying. However many guesses are made, at times in
-- order, and whatever failures were counted before, at most five of them are compared with a stored
-- code and found wrong: once a guess was made the failure count outlives the code. No code lives more
-- than ten minutes from the first guess, no new code is sent in between, and Redis answers.
pub wrong_guesses-le :
    (env : Env) (raw_email : Text) (user_id : ℕ) (purpose : Purpose) (from : ℕ)
    (guesses : List (ℕ × Text)) (w : World)
    → is_account_action purpose ≡ true
    → w.outage ≡ []
    → IsOrdered from guesses
    → ExpiresBy (from + 600) (w.codes purpose user_id)
    → wrong_guesses env raw_email user_id purpose guesses w ≤ 5
wrong_guesses-le env raw_email user_id purpose from guesses w action h o c = omega (
  arith,
  wrong_guesses_alive env raw_email user_id purpose (from + 600) action from guesses w h
      (omega arith) o c,
  budget-le (from + 600) (w.codes purpose user_id) (w.attempts purpose (normalize raw_email)),
)
