-- ===== src/Otp/Sending.antt =====
-- The progressive delays and the limit on sends.
use ziona_server.Base.{
  Bool, true, ℕ, ◌+◌, ◌-◌, ◌≤◌, ◌<◌, ◌≡◌, ◌&&◌, Option, none, some, List, [], ◌∷◌, arith, ltb, leb,
  ◌==◌, if◌then◌else◌, Text, text_eq_refl, Result, ok, err,
}
use ziona_server.Otp.World.{
  Purpose, same_purpose_refl, Entry, put_email, World, Env, Error, auth, rate_limit_exceeded,
  resend_cooldown, otp_service_unavailable,
}
use ziona_server.Otp.Redis.{live, ttl, count_of, bump, entry_for}
use ziona_server.Otp.Limits.{delay_at, check_cooldown, resend_delay, prepare_progressive_resend}

module _ (env : Env) (email : Text) (purpose : Purpose) where
  abbrev pub sent : World → ℕ → World
  sent w delay = record w {
    cooldowns = put_email w.cooldowns purpose email (entry_for env.now delay tt);
    sends = bump env w.sends purpose email 600;
  }

  -- What a request to send comes to, without commands.
  abbrev pub admit : World → Result Error ℕ × World
  admit w =
      let n = count_of (live env.now (w.sends purpose email)) in
      let left = ttl env.now (w.cooldowns purpose email) in
      if leb 3 n
      then (err (auth rate_limit_exceeded), w)
      else if ltb 0 n && ltb 0 left
      then (err (auth (resend_cooldown left)), w)
      else if n == 0
      then (ok 30, sent w 30)
      else (ok 60, sent w 60)

module _ (env : Env) (email : Text) (purpose : Purpose) (w : World) (healthy : w.outage ≡ []) where
  check_cooldown_lem :
      (n : ℕ)
      → check_cooldown env email purpose n w ≡ (
        if ltb 0 n && leb n 3 && ltb 0 (ttl env.now (w.cooldowns purpose email))
            then err (auth (resend_cooldown (ttl env.now (w.cooldowns purpose email))))
            else ok tt,
        w,
      )
  unfolding check_cooldown
  check_cooldown_lem n = ground arith

  resend_delay_lem : resend_delay env email purpose w ≡ (
      let n = count_of (live env.now (w.sends purpose email)) in
      let left = ttl env.now (w.cooldowns purpose email) in
      if leb 3 n
      then (err (auth rate_limit_exceeded), w)
      else if ltb 0 n && ltb 0 left
      then (err (auth (resend_cooldown left)), w)
      else (
        ok (delay_at (n + 1)),
        record w {
          cooldowns = put_email w.cooldowns purpose email (entry_for env.now (delay_at (n + 1)) tt);
        },
      ))
  unfolding resend_delay
  resend_delay_lem = ground arith

-- While Redis answers, a request to send a code is refused after three sends, refused with the
-- seconds left while a cooldown runs after a first send, and else admitted: the next one has to
-- wait 30 seconds after the first send and 60 seconds after the second and the third. A refusal
-- changes nothing; an admission sets the cooldown, counts the send and renews the count's ten
-- minutes.
pub prepare_progressive_resend_lem :
    (env : Env) (email : Text) (purpose : Purpose) (w : World)
    → w.outage ≡ []
    → prepare_progressive_resend env email purpose w ≡ admit env email purpose w
unfolding prepare_progressive_resend
prepare_progressive_resend_lem env email purpose w h = ground arith

abbrev is_admitted : Result Error ℕ → ℕ
is_admitted (ok delay) = 1
is_admitted (err e) = 0

-- Requests one after the other, each at its own time, and the number of them that are admitted.
pub admitted : Env → Text → Purpose → List ℕ → World → ℕ
admitted env email purpose [] w = 0
admitted env email purpose (time ∷ rest) w =
    let (r, w') = prepare_progressive_resend (record env { now = time }) email purpose w in
    is_admitted r + admitted env email purpose rest w'

-- The times are those of one window, in order.
abbrev pub InWindow : ℕ → ℕ → List ℕ → Type 0
InWindow from limit [] = Unit
InWindow from limit (time ∷ rest) = (from ≤ time) × (time < limit) × InWindow time limit rest

abbrev room : ℕ → Option (Entry ℕ) → ℕ
room limit none = 3
room limit (some e) = if leb limit e.expires then 3 - e.value else 3

module _ (email : Text) (purpose : Purpose) where
  admit-room :
      (env : Env) (limit : ℕ) (w : World)
      → env.now < limit
      → limit ≤ env.now + 600
      → is_admitted (admit env email purpose w).0
          + room limit ((admit env email purpose w).1.sends purpose email)
        ≤ room limit (w.sends purpose email)
  admit-room env limit w a b = ground (arith, same_purpose_refl purpose, text_eq_refl email)

  admit_healthy :
      (env : Env) (w : World) → w.outage ≡ [] → (admit env email purpose w).1.outage ≡ []
  admit_healthy env w h = ground arith

  admitted-room :
      (env : Env) (from limit : ℕ) (times : List ℕ) (w : World)
      → w.outage ≡ []
      → limit ≤ from + 600
      → InWindow from limit times
      → admitted env email purpose times w ≤ room limit (w.sends purpose email)
  unfolding admitted
  admitted-room env from limit [] w h b i = omega arith
  admitted-room env from limit (time ∷ rest) w h b i =
      let env' = record env { now = time } in
      let w' = (admit env' email purpose w).1 in
      rw (prepare_progressive_resend_lem env' email purpose w h) (
        omega (
          arith,
          admit-room env' limit w i.1 (omega arith),
          admitted-room env time limit rest w' (admit_healthy env' w h) (omega arith) i.2,
        ))

-- In any ten minutes at most three sends for one email and purpose are admitted, whatever the
-- number of requests and their times, and whatever was counted before. Redis answers throughout.
pub admitted-le :
    (env : Env) (email : Text) (purpose : Purpose) (from : ℕ) (times : List ℕ) (w : World)
    → w.outage ≡ []
    → InWindow from (from + 600) times
    → admitted env email purpose times w ≤ 3
admitted-le env email purpose from times w h i =
    ground (arith, admitted-room email purpose env from (from + 600) times w h)

-- Where the first command fails, the setting decides: strict refuses the request, lenient admits it
-- with no delay. Neither changes a table.
pub prepare_progressive_resend_down :
    (env : Env) (email : Text) (purpose : Purpose) (w : World) (rest : List Bool)
    → w.outage ≡ true ∷ rest
    → prepare_progressive_resend env email purpose w ≡ (
      if env.strict_redis then err (auth otp_service_unavailable) else ok 0,
      record w { outage = rest },
    )
unfolding prepare_progressive_resend
prepare_progressive_resend_down env email purpose w rest h = ground arith
