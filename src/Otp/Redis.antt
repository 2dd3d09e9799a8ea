-- ===== src/Otp/Redis.antt =====
-- The Redis commands that the service sends. A key whose expiry has come is not there any more.
use ziona_server.Base.{
  ℕ, suc, ◌⊎◌, inl, inr, Bool, true, false, List, [], ◌∷◌, ◌+◌, ◌-◌, Option, none, some, ◌==◌, ◌&&◌,
  ltb, if◌then◌else◌, Text, ok, err,
}
use ziona_server.Otp.World.{
  Purpose, Entry, EmailTable, put_id, put_email, ResetInfo, World, Env, infra, M,
}

-- Whether the next command fails (`inl`) or is answered, and the fate of those after it.
abbrev pub next_command : List Bool → List Bool ⊎ List Bool
next_command [] = inr []
next_command (true ∷ rest) = inl rest
next_command (false ∷ rest) = inr rest

-- One command, or one pipeline, which redis-py sends as one transaction.
abbrev pub command : {A : Type 0} → (World → A × World) → M A
command f w = elim (next_command w.outage) [
  | inl rest ↦ (err infra, record w { outage = rest })
  | inr rest ↦ let (a, w') = f (record w { outage = rest }) in (ok a, w')
]

module _ {V : Type 0} (now : ℕ) where
  abbrev pub live : Option (Entry V) → Option V
  live none = none
  live (some e) = if ltb now e.expires then some e.value else none

  -- `TTL`: 0 for a key that is not there, where Redis answers a negative number; the code tests
  -- only for a positive one.
  abbrev pub ttl : Option (Entry V) → ℕ
  ttl none = 0
  ttl (some e) = e.expires - now

abbrev pub entry_for : {V : Type 0} → ℕ → ℕ → V → Option (Entry V)
entry_for now seconds v = some (record { value = v; expires = now + seconds })

-- `int(raw) if raw else 0`
abbrev pub count_of : Option ℕ → ℕ
count_of none = 0
count_of (some n) = n

module _ (env : Env) where
  abbrev pub get_code : Purpose → ℕ → M (Option Text)
  get_code p i = command (λ w. (live env.now (w.codes p i), w))

  abbrev pub setex_code : Purpose → ℕ → ℕ → Text → M (Unit {0})
  setex_code p i seconds t =
      command (λ w. (tt, record w { codes = put_id w.codes p i (entry_for env.now seconds t) }))

  abbrev pub delete_code : Purpose → ℕ → M (Unit {0})
  delete_code p i = command (λ w. (tt, record w { codes = put_id w.codes p i none }))

  abbrev pub get_attempts : Purpose → Text → M (Option ℕ)
  get_attempts p e = command (λ w. (live env.now (w.attempts p e), w))

  -- `incr` and `expire` in one pipeline
  abbrev pub bump : EmailTable ℕ → Purpose → Text → ℕ → EmailTable ℕ
  bump m p e seconds =
      put_email m p e (entry_for env.now seconds (suc (count_of (live env.now (m p e)))))

  abbrev pub incr_attempts : Purpose → Text → M (Unit {0})
  incr_attempts p e = command (λ w. (tt, record w { attempts = bump w.attempts p e 600 }))

  abbrev pub delete_attempts : Purpose → Text → M (Unit {0})
  delete_attempts p e = command (λ w. (tt, record w { attempts = put_email w.attempts p e none }))

  abbrev pub get_sends : Purpose → Text → M (Option ℕ)
  get_sends p e = command (λ w. (live env.now (w.sends p e), w))

  abbrev pub incr_sends : Purpose → Text → M (Unit {0})
  incr_sends p e = command (λ w. (tt, record w { sends = bump w.sends p e 600 }))

  abbrev pub delete_sends : Purpose → Text → M (Unit {0})
  delete_sends p e = command (λ w. (tt, record w { sends = put_email w.sends p e none }))

  abbrev pub ttl_cooldown : Purpose → Text → M ℕ
  ttl_cooldown p e = command (λ w. (ttl env.now (w.cooldowns p e), w))

  abbrev pub setex_cooldown : Purpose → Text → ℕ → M (Unit {0})
  setex_cooldown p e seconds =
      command (λ w.
        (tt, record w { cooldowns = put_email w.cooldowns p e (entry_for env.now seconds tt) }))

  abbrev pub delete_cooldown : Purpose → Text → M (Unit {0})
  delete_cooldown p e = command (λ w. (tt, record w { cooldowns = put_email w.cooldowns p e none }))

  abbrev pub get_resends : Purpose → Text → M (Option ℕ)
  get_resends p e = command (λ w. (live env.now (w.resends p e), w))

  abbrev pub incr_resends : Purpose → Text → M (Unit {0})
  incr_resends p e = command (λ w. (tt, record w { resends = bump w.resends p e 600 }))

  abbrev pub setex_reset_token : ℕ → ℕ → ResetInfo → M (Unit {0})
  setex_reset_token token seconds info = command (λ w. (
    tt,
    record w {
      reset_tokens = λ t. if t == token then entry_for env.now seconds info else w.reset_tokens t;
    },
  ))

  abbrev pub setex_refresh : ℕ → ℕ → ℕ → M (Unit {0})
  setex_refresh user_id jti seconds = command (λ w. (
    tt,
    record w {
      refresh_tokens = λ i j.
          if i == user_id && j == jti then entry_for env.now seconds tt else w.refresh_tokens i j;
    },
  ))
