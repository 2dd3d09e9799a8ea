-- ===== src/Usernames/Grace.antt =====
-- The first two days of an account: three changes of its handle.
use ziona_server.Base.{
  ℕ, suc, ◌+◌, ◌-◌, ◌≤◌, ◌<◌, ◌≡◌, false, some, List, [], ◌∷◌, arith, inl, inr, Text, strip, subst,
  sym,
}
use ziona_server.Accounts.User.{User, get_any_by_id}
use ziona_server.Accounts.Store.{Store}
use ziona_server.Accounts.Table.{IsKeyed}
use ziona_server.Usernames.Policy.{grace_period, grace_changes_remaining}
use ziona_server.Usernames.Change.{is_limited, renamed, set_username}
use ziona_server.Usernames.Pace.{changes, set_username-pace}

-- A call at each of the times, all of them before `limit`.
abbrev pub Before : ℕ → List (ℕ × Text) → Type 0
Before limit [] = Unit
Before limit ((time, raw) ∷ rest) = (time < limit) × Before limit rest

renamed_in_grace :
    (u : User) (name : Text) (now : ℕ)
    → u.needs_username_selection ≡ false
    → now < u.created_at + grace_period
    → is_limited u now ≡ false
    → ((renamed u name now u).needs_username_selection ≡ false)
      × ((renamed u name now u).created_at ≡ u.created_at)
      × (suc (3 - (renamed u name now u).grace_username_changes) ≤ 3 - u.grace_username_changes)
unfolding renamed is_limited grace_changes_remaining
renamed_in_grace u name now chosen early free = ground arith

-- In the first two days of an account its handle changes at most three times through
-- `set_username`, the changes already made included, whatever the calls are and their order. The
-- account has chosen its first handle, and ids are unique.
pub changes-le_grace :
    (user_id : ℕ) (calls : List (ℕ × Text)) (u : User) (s : Store)
    → IsKeyed s.world.users
    → get_any_by_id user_id s.world.users ≡ some u
    → u.needs_username_selection ≡ false
    → Before (u.created_at + grace_period) calls
    → changes user_id calls s ≤ 3 - u.grace_username_changes
unfolding changes
changes-le_grace user_id [] u s keyed found chosen early = ground arith
changes-le_grace user_id ((time, raw) ∷ rest) u s keyed found chosen (early, later) =
    let (r, t) = set_username user_id raw false time s in
    let (keyed', outcome) = set_username-pace user_id raw time u s keyed found chosen in
    elim outcome [
      | inl (found', none_made) ↦
          let ih = changes-le_grace user_id rest u t keyed' found' chosen later in
          rw found (omega (arith, none_made, ih))
      | inr (found', free, at_most) ↦
          let u' = renamed u (strip raw) time u in
          let (chosen', created, fewer) = renamed_in_grace u (strip raw) time chosen early free in
          let later' = subst (λ c. Before (c + grace_period) rest) (sym created) later in
          let ih = changes-le_grace user_id rest u' t keyed' found' chosen' later' in
          rw found (omega (arith, at_most, fewer, ih))
    ]
