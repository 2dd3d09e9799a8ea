-- ===== src/Tokens/Rotation.antt =====
-- The rotation of a refresh token: the old one is good for a replay in the grace period, then for
-- nothing.
use ziona_server.Base.{
  [], ℕ, ◌+◌, ◌*◌, ◌≤◌, ◌<◌, ◌≡◌, true, Option, none, some, ==_refl, ltb, arith, inl, inr,
  Option-cases, Result-cases, if◌then◌else◌, Text, ok, err, ap, ◌∙◌,
}
use ziona_server.Accounts.User.{Role}
use ziona_server.Otp.World.{Entry}
use ziona_server.Otp.Redis.{live, entry_for}
use ziona_server.Tokens.State.{
  Payload, Pair, TokenState, rotation_grace, TokenStore, TokenEnv, revoked, seconds,
}
use ziona_server.Tokens.Service.{
  is_refresh, cached, enforce_user_token_cutoff, is_inactive, check_state, validate_payload,
  validate_refresh_token, generate_access_token, generate_refresh_token, issue_pair, leave_grace,
  find_cached, rotate_refresh_token, handle_refresh_token_reuse, revoke_all_user_tokens,
}

-- What a payload needs to be accepted, apart from its state in Redis.
abbrev IsAccepted : Payload → TokenStore → Type 0
IsAccepted c s =
    (is_refresh c.type ≡ true)
    × (cutoff : Option ℕ) × (s.cutoffs c.user_id ≡ some cutoff)
    × (enforce_user_token_cutoff c cutoff ≡ none)

module _ (e : TokenEnv) where
  -- What a rotation leaves at the old key.
  abbrev left_behind : Pair → Option (Entry TokenState)
  left_behind pair =
      if ltb 0 e.grace then entry_for e.now (e.grace * seconds) (rotation_grace pair) else none

  left_pair :
      (pair : Pair) (later : ℕ)
      → e.now ≤ later
      → later < e.now + e.grace * seconds
      → left_behind pair
        ≡ some (record { value = rotation_grace pair; expires = e.now + e.grace * seconds })
  left_pair pair later order early = ground arith

  left_nothing :
      (pair : Pair) (later : ℕ)
      → e.now + e.grace * seconds ≤ later
      → live later (left_behind pair) ≡ none
  left_nothing pair later late = ground arith

module _ (e : TokenEnv) (c : Payload) where
  validated :
      (s t : TokenStore) (p : Payload)
      → s.outage ≡ []
      → validate_payload e c s ≡ (ok p, t)
      → (p ≡ c) × (t ≡ s) × IsAccepted c s
  unfolding validate_payload check_state is_inactive
  validated s t p healthy h = elim (Option-cases (s.cutoffs c.user_id)) [
    | inl f ↦ absurd (ground arith)
    | inr (cutoff, f) ↦ ground (arith, f)
  ]

  issued :
      (role : Role) (s t : TokenStore) (pair : Pair)
      → s.outage ≡ []
      → issue_pair e c role s ≡ (ok pair, t)
      → (t.states c.user_id c.jti ≡ left_behind e pair) × (t.cutoffs ≡ s.cutoffs) × (t.outage ≡ [])
  unfolding issue_pair generate_access_token generate_refresh_token leave_grace
  issued role s t pair healthy h = ground (arith, ==_refl c.user_id, ==_refl c.jti)

  rotated :
      (role : Role) (token : Text) (s t : TokenStore) (pair : Pair)
      → s.outage ≡ []
      → e.decode token ≡ some c
      → cached (live e.now (s.states c.user_id c.jti)) ≡ none
      → rotate_refresh_token e token role s ≡ (ok pair, t)
      → (t.states c.user_id c.jti ≡ left_behind e pair) × (t.outage ≡ []) × IsAccepted c t
  unfolding rotate_refresh_token validate_refresh_token find_cached
  rotated role token s t pair healthy d first h = elim (Result-cases (validate_payload e c s)) [
    | inr (x, s₁, f) ↦ absurd (ground arith)
    | inl (p, s₁, f) ↦
        let (same, still, accepted) = validated s s₁ p healthy f in
        let pair_issued : issue_pair e c role s ≡ (ok pair, t) = ground arith in
        let (left_over, kept, up) = issued role s t pair healthy pair_issued in
        (left_over, up, ground (arith, accepted, kept))
  ]

  -- A replay finds the pair while it is there, and is refused afterwards.
  replayed :
      (role : Role) (token : Text) (t : TokenStore) (pair : Pair) (expires : ℕ)
      → t.outage ≡ []
      → e.decode token ≡ some c
      → IsAccepted c t
      → t.states c.user_id c.jti ≡ some (record { value = rotation_grace pair; expires = expires })
      → e.now < expires
      → rotate_refresh_token e token role t ≡ (ok pair, t)
  unfolding rotate_refresh_token validate_refresh_token validate_payload check_state is_inactive
      find_cached
  replayed role token t pair expires healthy d accepted found early = ground (arith, accepted)

  refused :
      (role : Role) (token : Text) (t : TokenStore)
      → t.outage ≡ []
      → e.decode token ≡ some c
      → IsAccepted c t
      → live e.now (t.states c.user_id c.jti) ≡ none
      → ((rotate_refresh_token e token role t).0 ≡ err revoked)
        × (e.revoke_on_reuse ≡ true
            → (rotate_refresh_token e token role t).1.cutoffs c.user_id ≡ some (some e.now))
  unfolding rotate_refresh_token validate_refresh_token validate_payload check_state
      handle_refresh_token_reuse revoke_all_user_tokens
  refused role token t healthy d accepted gone =
      (ground (arith, accepted), λ on. ground (arith, accepted, ==_refl c.user_id))

-- A refresh token that was rotated can be replayed in the grace period, by any client that holds it,
-- and the answer is the pair that the rotation issued; no token is issued and nothing changes. The
-- rotation was the first one of the token, and Redis answers.
pub rotate_refresh_token_replay :
    (e e' : TokenEnv) (old_token : Text) (role role' : Role) (c : Payload) (pair : Pair)
    (s t : TokenStore)
    → s.outage ≡ []
    → e.decode old_token ≡ some c
    → e'.decode old_token ≡ some c
    → cached (live e.now (s.states c.user_id c.jti)) ≡ none
    → rotate_refresh_token e old_token role s ≡ (ok pair, t)
    → e.now ≤ e'.now
    → e'.now < e.now + e.grace * seconds
    → rotate_refresh_token e' old_token role' t ≡ (ok pair, t)
rotate_refresh_token_replay e e' old_token role role' c pair s t healthy d d' first h order early =
    let (left_over, up, accepted) = rotated e c role old_token s t pair healthy d first h in
    replayed e' c role' old_token t pair (e.now + e.grace * seconds) up d' accepted
      (left_over ∙ left_pair e pair e'.now order early) early

-- A refresh token is used once: after a rotation and the grace period, which may be none, the old
-- token is refused as revoked, and where the setting says so all sessions of the user are revoked.
-- The rotation was the first one of the token, and Redis answers.
pub rotate_refresh_token_reuse :
    (e e' : TokenEnv) (old_token : Text) (role role' : Role) (c : Payload) (pair : Pair)
    (s t : TokenStore)
    → s.outage ≡ []
    → e.decode old_token ≡ some c
    → e'.decode old_token ≡ some c
    → cached (live e.now (s.states c.user_id c.jti)) ≡ none
    → rotate_refresh_token e old_token role s ≡ (ok pair, t)
    → e.now + e.grace * seconds ≤ e'.now
    → ((rotate_refresh_token e' old_token role' t).0 ≡ err revoked)
      × (e'.revoke_on_reuse ≡ true
          → (rotate_refresh_token e' old_token role' t).1.cutoffs c.user_id ≡ some (some e'.now))
rotate_refresh_token_reuse e e' old_token role role' c pair s t healthy d d' first h late =
    let (left_over, up, accepted) = rotated e c role old_token s t pair healthy d first h in
    refused e' c role' old_token t up d' accepted
      (ap (live e'.now) left_over ∙ left_nothing e pair e'.now late)
