-- ===== src/Tokens/State.antt =====
-- What the token service reads and writes: Redis and one column of the user table. Times are
-- microseconds here, the resolution of `iat_us`; `iat` and `exp` are seconds.
use ziona_server.Base.{
  ℕ, ◌*◌, Bool, List, inl, inr, ◌&&◌, Option, none, ◌==◌, if◌then◌else◌, Text, Method, ok, err,
  fail, fail_if,
}
use ziona_server.Accounts.User.{Role}
use ziona_server.Otp.World.{Entry}
use ziona_server.Otp.Redis.{live, next_command, entry_for}

pub data TokenType : Type 0 where
  access refresh account_recovery : TokenType

-- The claims of a token.
pub record Payload : Type 0 where
  pub type : TokenType
  pub user_id : ℕ
  pub role : Option Role
  pub iat : Option ℕ
  pub iat_us : Option ℕ
  pub exp : ℕ
  pub jti : ℕ

pub record Pair : Type 0 where
  pub access_token : Text
  pub refresh_token : Text

-- The JSON stored for a refresh token: its state with the last activity, or the pair that a rotation
-- left for replays.
pub data TokenState : Type 0 where
  valid : Option ℕ → TokenState
  rotation_grace : Pair → TokenState

pub record TokenStore : Type 0 where
  pub states : ℕ → ℕ → Option (Entry TokenState)  -- refresh:{user_id}:{jti}
  pub blacklist : ℕ → Option (Entry (Unit {0}))  -- blacklist:{jti}
  pub cutoffs : ℕ → Option (Option ℕ)  -- `token_invalid_before` of a user who is there
  pub outage : List Bool  -- for each of the next commands, whether it fails

-- What a call is given from outside. `encode` and `decode` are the JWT library's at the time of the
-- call; `decode` answers `none` for a token that is expired or not validly signed.
pub record TokenEnv : Type 0 where
  pub now : ℕ
  pub strict_redis : Bool  -- AUTH_STRICT_REDIS
  pub revoke_on_reuse : Bool  -- AUTH_REVOKE_ON_REFRESH_TOKEN_REUSE
  pub grace : ℕ  -- JWT_REFRESH_ROTATION_GRACE_SECONDS
  pub inactivity_days : ℕ  -- AUTH_REFRESH_TOKEN_INACTIVITY_DAYS
  pub access_lifetime : ℕ  -- JWT_ACCESS_TOKEN_LIFETIME, in seconds
  pub refresh_lifetime : ℕ  -- JWT_REFRESH_TOKEN_LIFETIME, in seconds
  pub access_jti : ℕ
  pub refresh_jti : ℕ
  pub encode : Payload → Text
  pub decode : Text → Option Payload

-- The `TokenError`s, or the exception of a Redis command.
pub data TokenError : Type 0 where
  invalid_token wrong_type revoked inactive user_not_found invalid_payload : TokenError
  invalidated unavailable : TokenError
  redis : TokenError

abbrev pub T : Type 0 → Type 0
T = Method TokenStore TokenError

abbrev pub refuse : {A : Type 0} → TokenError → T A
refuse = fail

-- `try: m; except TokenError: raise; except Exception: handler`
abbrev pub except_redis : {A : Type 0} → T A → T A → T A
except_redis m handler s =
    let (r, t) = m s in elim r [ ok a ↦ (ok a, t) | err redis ↦ handler t | err e ↦ (err e, t) ]

abbrev pub command : {A : Type 0} → (TokenStore → A × TokenStore) → T A
command f s = elim (next_command s.outage) [
  | inl rest ↦ (err redis, record s { outage = rest })
  | inr rest ↦ let (a, t) = f (record s { outage = rest }) in (ok a, t)
]

abbrev pub seconds : ℕ
seconds = 1000000

abbrev pub put_state :
    (ℕ → ℕ → Option (Entry TokenState))
    → ℕ
    → ℕ
    → Option (Entry TokenState)
    → ℕ
    → ℕ
    → Option (Entry TokenState)
put_state m i j v k l = if i == k && j == l then v else m k l

abbrev pub drop_user : (ℕ → ℕ → Option (Entry TokenState)) → ℕ → ℕ → ℕ → Option (Entry TokenState)
drop_user m i k l = if i == k then none else m k l

module _ (e : TokenEnv) where
  abbrev pub get_state : ℕ → ℕ → T (Option TokenState)
  get_state i j = command (λ s. (live e.now (s.states i j), s))

  abbrev pub set_state : ℕ → ℕ → ℕ → TokenState → T (Unit {0})
  set_state i j ttl v =
      command (λ s.
        (tt, record s { states = put_state s.states i j (entry_for e.now (ttl * seconds) v) }))

  abbrev pub delete_state : ℕ → ℕ → T (Unit {0})
  delete_state i j = command (λ s. (tt, record s { states = put_state s.states i j none }))

  -- `_handle_auth_redis_failure`
  abbrev pub handle_failure : T (Unit {0})
  handle_failure = fail_if e.strict_redis unavailable
