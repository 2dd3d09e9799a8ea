-- ===== src/Tokens/Tests.antt =====
-- The theorems about refresh tokens at small inputs.
use ziona_server.Base.{
  ℕ, ◌≡◌, refl, true, false, Option, none, some, [], ◌∷◌, ◌==◌, ◌&&◌, arith, if◌then◌else◌, Text,
  text_eq, ok, err,
}
use ziona_server.Accounts.User.{Role}
use ziona_server.Tokens.State.{
  refresh, Payload, Pair, valid, TokenStore, TokenEnv, revoked, invalidated,
}
use ziona_server.Tokens.Service.{
  validate_payload, issued_at_us_after_user_cutoff, refresh_payload, validate_refresh_token,
  generate_refresh_token, revoke_all_user_tokens, rotate_refresh_token, check_state, is_inactive,
  enforce_user_token_cutoff,
}
use ziona_server.Tokens.Revocation.{
  validate_refresh_token-revoke_all_user_tokens, validate_refresh_token-generate_refresh_token,
  IsAfter,
}
use ziona_server.Tokens.Rotation.{rotate_refresh_token_replay, rotate_refresh_token_reuse}

-- Tokens 80 and 81 are refresh tokens of user 1.
abbrev payload : ℕ → ℕ → Payload
payload jti us = record {
  type = refresh;
  user_id = 1;
  role = none;
  iat = some 0;
  iat_us = some us;
  exp = 2592000;
  jti = jti;
}

abbrev encode : Payload → Text
encode p = p.jti ∷ []

abbrev decode : Text → Option Payload
decode t =
    if text_eq t (80 ∷ [])
    then some (payload 80 5)
    else if text_eq t (81 ∷ [])
    then some (payload 81 6)
    else none

abbrev at : ℕ → TokenEnv
at time = record {
  now = time;
  strict_redis = false;
  revoke_on_reuse = true;
  grace = 10;
  inactivity_days = 30;
  access_lifetime = 900;
  refresh_lifetime = 2592000;
  access_jti = 70;
  refresh_jti = 80;
  encode = encode;
  decode = decode;
}

abbrev sessions : TokenStore
sessions = record {
  states = λ i j.
      if i == 1 && j == 81
      then some (record { value = valid (some 6); expires = 9000000000 })
      else none;
  blacklist = λ j. none;
  cutoffs = λ i. if i == 1 then some none else none;
  outage = [];
}

-- Redis fails at the deletion of the sessions, so the cutoff alone decides.
abbrev failing : TokenStore
failing = record sessions { outage = true ∷ [] }

abbrev ended : ℕ → TokenStore
ended time = (revoke_all_user_tokens (at time) 1 failing).1

ended_now : revoke_all_user_tokens (at 4) 1 failing ≡ (ok tt, ended 4)
unfolding revoke_all_user_tokens
ended_now = refl

abbrev old_token : Text
old_token = 81 ∷ []

abbrev after : ℕ → TokenStore
after time = (validate_refresh_token (at 9) old_token (ended time)).1

accepted_later : validate_refresh_token (at 9) old_token (ended 4) ≡ (ok (payload 81 6), after 4)
unfolding text_eq validate_refresh_token validate_payload revoke_all_user_tokens check_state
    is_inactive enforce_user_token_cutoff
accepted_later = refl

refused_then : validate_refresh_token (at 9) old_token (ended 6) ≡ (err invalidated, after 6)
unfolding text_eq validate_refresh_token validate_payload revoke_all_user_tokens check_state
    is_inactive enforce_user_token_cutoff
refused_then = refl

validate_refresh_token-revoke_all_user_tokens_example : IsAfter 4 (payload 81 6)
unfolding text_eq
validate_refresh_token-revoke_all_user_tokens_example =
    validate_refresh_token-revoke_all_user_tokens (at 4) (at 9) 1 failing (ended 4) (after 4) none
      old_token (payload 81 6) (payload 81 6) refl ended_now refl refl accepted_later

abbrev begun : TokenStore
begun = (generate_refresh_token (at 5) 1 sessions).1

begun_now : generate_refresh_token (at 5) 1 sessions ≡ (ok (80 ∷ []), begun)
unfolding generate_refresh_token
begun_now = refl

validate_refresh_token-generate_refresh_token_example :
    validate_refresh_token (at 9) (80 ∷ []) begun
    ≡ (ok (refresh_payload (at 5) 1 (some none)), begun)
unfolding text_eq issued_at_us_after_user_cutoff
validate_refresh_token-generate_refresh_token_example =
    validate_refresh_token-generate_refresh_token (at 5) (at 9) 1 sessions begun none (80 ∷ []) refl
      refl begun_now refl (omega arith) (omega arith)

abbrev pair : Pair
pair = record { access_token = 70 ∷ []; refresh_token = 80 ∷ [] }

abbrev rotated : TokenStore
rotated = (rotate_refresh_token (at 8) old_token Role.user sessions).1

rotated_now : rotate_refresh_token (at 8) old_token Role.user sessions ≡ (ok pair, rotated)
unfolding rotate_refresh_token text_eq validate_payload
rotated_now = refl

rotate_refresh_token_replay_example :
    rotate_refresh_token (at 9) old_token Role.user rotated ≡ (ok pair, rotated)
unfolding text_eq
rotate_refresh_token_replay_example =
    rotate_refresh_token_replay (at 8) (at 9) old_token Role.user Role.user (payload 81 6) pair
      sessions rotated refl refl refl refl rotated_now (omega arith) (omega arith)

rotate_refresh_token_reuse_example :
    ((rotate_refresh_token (at 20000000) old_token Role.user rotated).0 ≡ err revoked)
    × (true ≡ true
        → (rotate_refresh_token (at 20000000) old_token Role.user rotated).1.cutoffs 1
          ≡ some (some 20000000))
unfolding text_eq
rotate_refresh_token_reuse_example =
    rotate_refresh_token_reuse (at 8) (at 20000000) old_token Role.user Role.user (payload 81 6)
      pair sessions rotated refl refl refl refl rotated_now (omega arith)
