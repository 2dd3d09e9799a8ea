-- ===== src/Tokens/Service.antt =====
-- The methods of `TokenService` on refresh tokens.
use ziona_server.Base.{
  ℕ, suc, ◌+◌, ◌-◌, ◌*◌, ◌/◌, max, Bool, true, false, not, ◌&&◌, Option, none, some, ◌==◌, leb, ltb,
  if◌then◌else◌, Text, ok, err, pure, gets, modify, when, ◌>>=◌, ◌>>◌,
}
use ziona_server.Accounts.User.{Role}
use ziona_server.Tokens.State.{
  TokenType, access, refresh, Payload, Pair, TokenState, valid, rotation_grace, TokenStore,
  TokenEnv, TokenError, invalid_token, wrong_type, revoked, inactive, user_not_found,
  invalid_payload, invalidated, T, refuse, except_redis, command, seconds, drop_user, get_state,
  set_state, delete_state, handle_failure,
}

abbrev pub is_refresh : TokenType → Bool
is_refresh refresh = true
is_refresh _ = false

-- `enforce_user_token_cutoff`: the error, if it raises one.
unfoldable pub enforce_user_token_cutoff : Payload → Option ℕ → Option TokenError
enforce_user_token_cutoff c none = none
enforce_user_token_cutoff c (some cutoff) = elim c.iat [
  | none ↦ some invalid_payload
  | some iat ↦ elim c.iat_us [
    | some us ↦ if leb us cutoff then some invalidated else none
    | none ↦ if leb (suc iat * seconds) cutoff then some invalidated else none
  ]
]

-- `_issued_at_us_after_user_cutoff`
unfoldable pub issued_at_us_after_user_cutoff : ℕ → Option (Option ℕ) → ℕ
issued_at_us_after_user_cutoff now none = now
issued_at_us_after_user_cutoff now (some none) = now
issued_at_us_after_user_cutoff now (some (some cutoff)) = max now (suc cutoff)

-- `last_seen < now - timedelta(days=…)`
unfoldable pub is_inactive : TokenEnv → TokenState → Bool
is_inactive e (valid none) = false
is_inactive e (valid (some last_seen)) = ltb (last_seen + e.inactivity_days * 86400 * seconds) e.now
is_inactive e (rotation_grace p) = false

abbrev pub cached : Option TokenState → Option Pair
cached none = none
cached (some (valid l)) = none
cached (some (rotation_grace p)) = some p

abbrev pub set_cutoff : ℕ → ℕ → TokenStore → TokenStore
set_cutoff i now s = record s {
  cutoffs = λ k.
      if i == k then elim (s.cutoffs k) [ none ↦ none | some c ↦ some (some now) ] else s.cutoffs k;
}

module _ (e : TokenEnv) where
  abbrev payload : TokenType → ℕ → Option Role → ℕ → ℕ → Option (Option ℕ) → Payload
  payload type i role lifetime jti cutoff = record {
    type = type;
    user_id = i;
    role = role;
    iat = some (e.now / seconds);
    iat_us = some (issued_at_us_after_user_cutoff e.now cutoff);
    exp = e.now / seconds + lifetime;
    jti = jti;
  }

  abbrev pub access_payload : ℕ → Role → Option (Option ℕ) → Payload
  access_payload i role cutoff = payload access i (some role) e.access_lifetime e.access_jti cutoff

  abbrev pub refresh_payload : ℕ → Option (Option ℕ) → Payload
  refresh_payload i cutoff = payload refresh i none e.refresh_lifetime e.refresh_jti cutoff

  -- `generate_access_token`
  unfoldable pub generate_access_token : ℕ → Role → T Text
  generate_access_token i role = gets (λ s. e.encode (access_payload i role (s.cutoffs i)))

  -- `generate_refresh_token`
  unfoldable pub generate_refresh_token : ℕ → T Text
  generate_refresh_token i = do
    token ← gets (λ s. e.encode (refresh_payload i (s.cutoffs i)))
    except_redis (set_state e i e.refresh_jti e.refresh_lifetime (valid (some e.now)))
        (handle_failure e)
    pure token

  -- `revoke_all_user_tokens`
  unfoldable pub revoke_all_user_tokens : ℕ → T (Unit {0})
  revoke_all_user_tokens i = do
    modify (set_cutoff i e.now)
    except_redis (command (λ s. (tt, record s { states = drop_user s.states i }))) (pure tt)

  -- `_handle_refresh_token_reuse`
  unfoldable pub handle_refresh_token_reuse : ℕ → T (Unit {0})
  unfolding revoke_all_user_tokens
  handle_refresh_token_reuse i = when e.revoke_on_reuse (revoke_all_user_tokens i)

  -- The `try` block of `validate_refresh_token`, after the key was read.
  unfoldable pub check_state : Payload → Option TokenState → T (Unit {0})
  unfolding handle_refresh_token_reuse is_inactive
  check_state c none = do handle_refresh_token_reuse c.user_id; refuse revoked
  check_state c (some state) =
      if is_inactive e state then (do delete_state e c.user_id c.jti; refuse inactive) else pure tt

  abbrev pub check_cutoff : Payload → T Payload
  check_cutoff c s = elim (s.cutoffs c.user_id) [
    | none ↦ (err user_not_found, s)
    | some cutoff ↦ elim (enforce_user_token_cutoff c cutoff) [
      | none ↦ (ok c, s)
      | some x ↦ (err x, s)
    ]
  ]

  -- The type test and what follows it, for a token that was decoded.
  unfoldable pub validate_payload : Payload → T Payload
  unfolding check_state enforce_user_token_cutoff
  validate_payload c = if not (is_refresh c.type) then refuse wrong_type else (do
    except_redis (do state ← get_state e c.user_id c.jti; check_state c state) (handle_failure e)
    check_cutoff c)

  -- `validate_refresh_token`
  unfoldable pub validate_refresh_token : Text → T Payload
  validate_refresh_token token s = elim (e.decode token) [
    | none ↦ (err invalid_token, s)
    | some c ↦ validate_payload c s
  ]

  -- What a rotation leaves at the key of the old token.
  unfoldable pub leave_grace : Payload → Pair → T (Unit {0})
  leave_grace c pair =
      if ltb 0 e.grace
      then set_state e c.user_id c.jti e.grace (rotation_grace pair)
      else delete_state e c.user_id c.jti

  unfoldable pub issue_pair : Payload → Role → T Pair
  unfolding generate_access_token generate_refresh_token leave_grace
  issue_pair c role = do
    access_token ← generate_access_token c.user_id role
    refresh_token ← generate_refresh_token c.user_id
    let pair : Pair = record { access_token = access_token; refresh_token = refresh_token }
    except_redis (leave_grace c pair) (handle_failure e)
    pure pair

  -- The pair that an earlier rotation left.
  unfoldable pub find_cached : Payload → T (Option Pair)
  find_cached c =
      except_redis (do state ← get_state e c.user_id c.jti; pure (cached state))
        (do handle_failure e; pure none)

  -- `rotate_refresh_token`
  unfoldable pub rotate_refresh_token : Text → Role → T Pair
  unfolding validate_refresh_token find_cached issue_pair
  rotate_refresh_token old_token role = do
    c ← validate_refresh_token old_token
    found ← find_cached c
    (λ s. elim found [ some pair ↦ (ok pair, s) | none ↦ issue_pair c role s ])

  abbrev pub is_not : ℕ → ℕ → Bool
  is_not a b = not (a == b)

  -- `revoke_all_user_tokens_except`
  unfoldable pub revoke_all_user_tokens_except : ℕ → ℕ → T (Unit {0})
  revoke_all_user_tokens_except i keep =
      except_redis
        (command (λ s. (
          tt,
          record s { states = λ k l. if i == k && is_not l keep then none else s.states k l },
        )))
        (pure tt)

  -- `blacklist_access_token`, on a token that can be decoded.
  unfoldable pub blacklist_access_token : Payload → T (Unit {0})
  blacklist_access_token c =
      let ttl = max ((c.exp * seconds - e.now) / seconds) 1 in
      except_redis
        (command (λ s. (
          tt,
          record s {
            blacklist = λ j.
                if j == c.jti
                then some (record { value = tt; expires = e.now + ttl * seconds })
                else s.blacklist j;
          },
        )))
        (pure tt)
