-- ===== src/Usernames/Change.antt =====
-- `UserService.set_username` (core/users/services.py): one change of a handle, in a transaction.
use ziona_server.Base.{
  ℕ, suc, ◌+◌, Bool, false, not, ◌&&◌, Option, none, some, List, ◌==◌, ltb, if◌then◌else◌, Text,
  text_eq, strip, is_empty, find_first, filter_out, ok, err, Method,
}
use ziona_server.Accounts.User.{User, is_visible, has_id}
use ziona_server.Accounts.Store.{Reservation, Store, set_user}
use ziona_server.Usernames.Format.{
  FormatError, validate_username, validate_username_format, validate_username_not_reserved,
}
use ziona_server.Usernames.Policy.{
  grace_period, change_cooldown, normalized_username, username_is_available,
  grace_changes_remaining, is_for, reserve_released_username,
}

pub data UsernameError : Type 0 where
  user_not_found username_already_selected rate_limit_exceeded username_taken : UsernameError
  invalid : FormatError → UsernameError

abbrev pub is_name : Text → Option Text → Bool
is_name t none = false
is_name t (some u) = text_eq u t

abbrev pub or_else : Option FormatError → Option FormatError → Option FormatError
or_else none y = y
or_else (some e) y = some e

-- The format check: the contract of onboarding at the first selection, the newer one afterwards.
unfoldable pub check_format : Bool → Text → Option FormatError
unfolding validate_username validate_username_format validate_username_not_reserved
check_format initial t =
    if initial
    then validate_username t
    else or_else (validate_username_format t) (validate_username_not_reserved t)

abbrev pub cools_down : Option ℕ → ℕ → Bool
cools_down none now = false
cools_down (some last) now = ltb now (last + change_cooldown)

-- The rate limit of a change that is no first selection.
unfoldable pub is_limited : User → ℕ → Bool
unfolding grace_changes_remaining
is_limited u now =
    if ltb now (u.created_at + grace_period)
    then grace_changes_remaining u now == 0
    else cools_down u.last_username_change now

abbrev pub renames : Option Text → Text → Bool
renames none t = false
renames (some old) t =
    not (is_empty old) && not (text_eq (normalized_username old) (normalized_username t))

-- The reservations after the change: the claims on the new handle go, the old handle is kept for
-- its owner.
unfoldable pub move_reservations : User → Text → ℕ → List Reservation → List Reservation
unfolding reserve_released_username
move_reservations u t now reservations =
    let left = filter_out (is_for (normalized_username t)) reservations in
    if renames u.username t && not u.needs_username_selection
    then reserve_released_username u.username u.id now left
    else left

-- The columns after the change.
unfoldable pub renamed : User → Text → ℕ → User → User
renamed u t now row =
    if u.needs_username_selection
    then record row { username = some t; needs_username_selection = false }
    else if ltb now (u.created_at + grace_period)
    then record row { username = some t; grace_username_changes = suc u.grace_username_changes }
    else record row { username = some t; last_username_change = some now }

-- From the format check on, for the user that was found.
unfoldable pub change_username : Text → ℕ → User → Method Store UsernameError User
unfolding check_format is_limited move_reservations renamed
change_username t now u s = elim (check_format u.needs_username_selection t) [
  | some e ↦ (err (invalid e), s)
  | none ↦
      if is_name t u.username
      then (if u.needs_username_selection
          then (
            ok (record u { needs_username_selection = false }),
            set_user u.id (λ row. record row { needs_username_selection = false }) s,
          )
          else (ok u, s))
      else if not u.needs_username_selection && is_limited u now
      then (err rate_limit_exceeded, s)
      else if not (username_is_available t (some u.id) now s.world.users s.reservations)
      then (err username_taken, s)
      else (
        ok (renamed u t now u),
        record (set_user u.id (renamed u t now) s) {
          reservations = move_reservations u t now s.reservations;
        },
      )
]

-- `User.objects.select_for_update().get(id=…)`
abbrev pub is_visible_id : ℕ → User → Bool
is_visible_id i u = is_visible u && has_id i u

-- `set_username`
unfoldable pub set_username : ℕ → Text → Bool → ℕ → Method Store UsernameError User
set_username user_id raw require_initial_selection now s =
    elim (find_first (is_visible_id user_id) s.world.users) [
      | none ↦ (err user_not_found, s)
      | some u ↦
          if require_initial_selection && not u.needs_username_selection
          then (err username_already_selected, s)
          else change_username (strip raw) now u s
    ]
