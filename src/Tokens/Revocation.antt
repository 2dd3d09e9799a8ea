-- ===== src/Tokens/Revocation.antt =====
-- The revocation of all sessions of a user, and the sessions that begin after it.
use ziona_server.Base.{
  [], ℕ, ◌+◌, ◌*◌, ◌≤◌, ◌<◌, ◌≡◌, ◌⊎◌, refl, Option, none, some, ==_refl, arith, inl, inr,
  Result-cases, Text, ok, ◌>>=◌, subst, sym, suc, Option-cases,
}
use ziona_server.Tokens.State.{
  Payload, TokenStore, TokenEnv, except_redis, get_state, handle_failure, seconds,
}
use ziona_server.Tokens.Service.{
  enforce_user_token_cutoff, issued_at_us_after_user_cutoff, is_inactive, check_state, check_cutoff,
  validate_payload, validate_refresh_token, generate_refresh_token, refresh_payload,
  revoke_all_user_tokens,
}

-- What the claims say of the time of issue: the marker in microseconds is later than a cutoff, or
-- there is none and the second of issue ends later.
abbrev pub IsAfter : ℕ → Payload → Type 0
IsAfter cutoff c =
    ((us : ℕ) × (c.iat_us ≡ some us) × (cutoff < us))
    ⊎ ((c.iat_us ≡ none) × (iat : ℕ) × (c.iat ≡ some iat) × (cutoff < suc iat * seconds))

module _ (e : TokenEnv) (c : Payload) where
  -- The Redis part of a validation leaves the cutoffs alone unless it refuses.
  state_checked :
      (s t : TokenStore)
      → except_redis
          (get_state e c.user_id c.jti >>= λ state. check_state e c state)
          (handle_failure e)
          s
        ≡ (ok tt, t)
      → t.cutoffs ≡ s.cutoffs
  unfolding check_state
  state_checked s t h = ground arith

  cutoff_checked :
      (s t : TokenStore) (p : Payload) (cutoff : ℕ)
      → s.cutoffs c.user_id ≡ some (some cutoff)
      → check_cutoff e c s ≡ (ok p, t)
      → IsAfter cutoff c
  unfolding enforce_user_token_cutoff
  cutoff_checked s t p cutoff h k = elim (Option-cases c.iat) [
    | inl none_at ↦ absurd (ground arith)
    | inr (iat, at) ↦ elim (Option-cases c.iat_us) [
      | inl unmarked ↦ inr (unmarked, iat, at, ground arith)
      | inr (us, marked) ↦ inl (us, marked, ground arith)
    ]
  ]

  validated_cutoff :
      (s t : TokenStore) (p : Payload) (cutoff : ℕ)
      → s.cutoffs c.user_id ≡ some (some cutoff)
      → validate_payload e c s ≡ (ok p, t)
      → IsAfter cutoff c
  unfolding validate_payload
  validated_cutoff s t p cutoff h v =
      elim (Result-cases (
        except_redis (get_state e c.user_id c.jti >>= λ state. check_state e c state)
          (handle_failure e) s)) [
            | inr (x, s₁, f) ↦ absurd (ground arith)
            | inl (x, s₁, f) ↦
                let kept = state_checked s s₁ f in
                cutoff_checked s₁ t p cutoff (ground arith) (ground arith)
          ]

revoked_cutoff :
    (e : TokenEnv) (i : ℕ) (s t : TokenStore) (old : Option ℕ)
    → s.cutoffs i ≡ some old
    → revoke_all_user_tokens e i s ≡ (ok tt, t)
    → t.cutoffs i ≡ some (some e.now)
unfolding revoke_all_user_tokens
revoked_cutoff e i s t old h k = ground (arith, ==_refl i)

-- After all sessions of a user were revoked, a refresh token of the user is accepted at a later call
-- only if its claims put its issue after the revocation: its marker in microseconds is later, or, for
-- a token without a marker, the second of its issue ends later. This holds for all settings and
-- whichever commands of Redis failed or fail: the cutoff stands in the database.
pub validate_refresh_token-revoke_all_user_tokens :
    (e e' : TokenEnv) (i : ℕ) (s t t' : TokenStore) (old : Option ℕ) (token : Text) (c p : Payload)
    → s.cutoffs i ≡ some old
    → revoke_all_user_tokens e i s ≡ (ok tt, t)
    → e'.decode token ≡ some c
    → c.user_id ≡ i
    → validate_refresh_token e' token t ≡ (ok p, t')
    → IsAfter e.now c
unfolding validate_refresh_token
validate_refresh_token-revoke_all_user_tokens e e' i s t t' old token c p h k d own v =
    let cutoff = revoked_cutoff e i s t old h k in
    validated_cutoff e' c t t' p e.now
      (subst (λ j. t.cutoffs j ≡ some (some e.now)) (sym own) cutoff) (ground arith)

issued_after :
    (now : ℕ) (old : Option ℕ)
    → (old ≡ none)
      ⊎ ((cutoff : ℕ) × (old ≡ some cutoff)
          × (cutoff < issued_at_us_after_user_cutoff now (some old)))
unfolding issued_at_us_after_user_cutoff
issued_after now none = inl refl
issued_after now (some cutoff) = inr (cutoff, refl, omega arith)

-- A session that begins after a revocation counts. A refresh token that was just issued to a user
-- who is there, even in the microsecond of the cutoff, is accepted while its state lives and it is
-- not inactive, with the claims it was issued with. Redis answers, and the token decodes to the
-- claims that were encoded.
pub validate_refresh_token-generate_refresh_token :
    (e e' : TokenEnv) (i : ℕ) (s t : TokenStore) (old : Option ℕ) (token : Text)
    → s.outage ≡ []
    → s.cutoffs i ≡ some old
    → generate_refresh_token e i s ≡ (ok token, t)
    → e'.decode token ≡ some (refresh_payload e i (some old))
    → e'.now < e.now + e.refresh_lifetime * seconds
    → e'.now ≤ e.now + e'.inactivity_days * 86400 * seconds
    → validate_refresh_token e' token t ≡ (ok (refresh_payload e i (some old)), t)
unfolding generate_refresh_token validate_refresh_token validate_payload check_state is_inactive
    enforce_user_token_cutoff
validate_refresh_token-generate_refresh_token e e' i s t old token healthy h g d live_still active =
    ground (arith, issued_after e.now old, ==_refl i, ==_refl e.refresh_jti)
