-- ===== src/Usernames/Cooldown.antt =====
-- After the first two days: one change of the handle in thirty days.
use ziona_server.Base.{
  ℕ, suc, ◌+◌, ◌≤◌, ◌<◌, ◌≡◌, false, Option, none, some, List, [], ◌∷◌, arith, inl, inr, leb,
  if◌then◌else◌, Text, strip,
}
use ziona_server.Accounts.User.{User, get_any_by_id}
use ziona_server.Accounts.Store.{Store}
use ziona_server.Accounts.Table.{IsKeyed}
use ziona_server.Usernames.Policy.{grace_period, change_cooldown}
use ziona_server.Usernames.Change.{is_limited, renamed, set_username}
use ziona_server.Usernames.Pace.{changes, set_username-pace}

-- The times are those of one window, in order.
abbrev pub Within : ℕ → ℕ → List (ℕ × Text) → Type 0
Within from limit [] = Unit
Within from limit ((time, raw) ∷ rest) = (from ≤ time) × (time < limit) × Within time limit rest

-- The changes that are left before `limit`.
abbrev left : ℕ → Option ℕ → ℕ
left limit none = 1
left limit (some last) = if leb limit (last + change_cooldown) then 0 else 1

renamed_after_grace :
    (u : User) (name : Text) (now limit : ℕ)
    → u.needs_username_selection ≡ false
    → u.created_at + grace_period ≤ now
    → now < limit
    → limit ≤ now + change_cooldown
    → is_limited u now ≡ false
    → ((renamed u name now u).needs_username_selection ≡ false)
      × ((renamed u name now u).created_at ≡ u.created_at)
      × (suc (left limit (renamed u name now u).last_username_change)
          ≤ left limit u.last_username_change)
unfolding renamed is_limited
renamed_after_grace u name now limit chosen late early near free = ground arith

changes_after_grace :
    (user_id from limit : ℕ) (calls : List (ℕ × Text)) (u : User) (s : Store)
    → IsKeyed s.world.users
    → get_any_by_id user_id s.world.users ≡ some u
    → u.needs_username_selection ≡ false
    → u.created_at + grace_period ≤ from
    → limit ≤ from + change_cooldown
    → Within from limit calls
    → changes user_id calls s ≤ left limit u.last_username_change
unfolding changes
changes_after_grace user_id from limit [] u s keyed found chosen late near within = ground arith
changes_after_grace user_id from limit ((time, raw) ∷ rest) u s keyed found chosen late near
      (le, early, later) =
    let (r, t) = set_username user_id raw false time s in
    let (keyed', outcome) = set_username-pace user_id raw time u s keyed found chosen in
    elim outcome [
      | inl (found', none_made) ↦
          let ih =
            changes_after_grace user_id time limit rest u t keyed' found' chosen (omega arith)
              (omega arith) later in
          rw found (omega (arith, none_made, ih))
      | inr (found', free, at_most) ↦
          let u' = renamed u (strip raw) time u in
          let (chosen', created, fewer) =
            renamed_after_grace u (strip raw) time limit chosen (omega arith) early (omega arith)
              free in
          let ih =
            changes_after_grace user_id time limit rest u' t keyed' found' chosen'
              (omega (arith, created)) (omega arith) later in
          rw found (omega (arith, at_most, fewer, ih))
    ]

-- After its first two days, the handle of an account changes at most once in any thirty days
-- through `set_username`, whatever the calls are. The account has chosen its first handle, and ids
-- are unique.
pub changes-le_once :
    (user_id from : ℕ) (calls : List (ℕ × Text)) (u : User) (s : Store)
    → IsKeyed s.world.users
    → get_any_by_id user_id s.world.users ≡ some u
    → u.needs_username_selection ≡ false
    → u.created_at + grace_period ≤ from
    → Within from (from + change_cooldown) calls
    → changes user_id calls s ≤ 1
changes-le_once user_id from calls u s keyed found chosen late within = ground (
  arith,
  changes_after_grace user_id from (from + change_cooldown) calls u s keyed found chosen late
      (omega arith) within,
)
