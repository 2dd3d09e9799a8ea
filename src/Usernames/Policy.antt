-- ===== src/Usernames/Policy.antt =====
-- core/users/username_policy.py: availability, the grace period, and reservations of released
-- handles.
use ziona_server.Base.{
  ℕ, ◌+◌, ◌-◌, Bool, true, false, not, ◌&&◌, Option, none, some, List, [], ◌∷◌, ◌==◌, leb, ltb,
  if◌then◌else◌, Text, text_eq, lower, is_empty, is_some, find_first, filter_out,
}
use ziona_server.Accounts.User.{User}
use ziona_server.Accounts.Store.{Reservation}

-- `GRACE_PERIOD`, `CHANGE_COOLDOWN` and `RESERVATION_PERIOD`, in seconds.
abbrev pub grace_period : ℕ
grace_period = 172800

abbrev pub change_cooldown : ℕ
change_cooldown = 2592000

abbrev pub reservation_period : ℕ
reservation_period = 1209600

abbrev pub max_grace_changes : ℕ
max_grace_changes = 3

-- `normalized_username`
unfoldable pub normalized_username : Text → Text
normalized_username = lower

-- `username__iexact`, on ASCII handles; a missing username matches nothing.
abbrev pub is_same_handle : Text → Option Text → Bool
is_same_handle t none = false
is_same_handle t (some u) = text_eq (normalized_username u) (normalized_username t)

abbrev pub is_other : Option ℕ → ℕ → Bool
is_other none i = true
is_other (some owner) i = not (i == owner)

-- A row of the first query: another user, deleted or not, who holds the handle.
abbrev pub holds : Text → Option ℕ → User → Bool
holds t owner u = is_same_handle t u.username && is_other owner u.id

abbrev pub claims : Text → ℕ → Reservation → Bool
claims t now r = text_eq r.username (normalized_username t) && ltb now r.expires_at

abbrev pub is_owner : Option ℕ → ℕ → Bool
is_owner none i = false
is_owner (some owner) i = i == owner

-- `username_is_available`
unfoldable pub username_is_available : Text → Option ℕ → ℕ → List User → List Reservation → Bool
username_is_available t owner now users reservations =
    if is_some (find_first (holds t owner) users)
    then false
    else elim (find_first (claims t now) reservations) [
      | none ↦ true
      | some r ↦ is_owner owner r.owner_id
    ]

-- `grace_changes_remaining`
unfoldable pub grace_changes_remaining : User → ℕ → ℕ
grace_changes_remaining u now =
    if leb (u.created_at + grace_period) now
    then 0
    else max_grace_changes - u.grace_username_changes

-- `username_editable_until`
unfoldable pub username_editable_until : User → ℕ → Option ℕ
unfolding grace_changes_remaining
username_editable_until u now =
    if grace_changes_remaining u now == 0 then none else some (u.created_at + grace_period)

abbrev pub is_for : Text → Reservation → Bool
is_for name r = text_eq r.username name

-- `UsernameReservation.objects.update_or_create(username=…)`; the column is unique.
unfoldable pub put_reservation : Reservation → List Reservation → List Reservation
put_reservation r [] = r ∷ []
put_reservation r (x ∷ xs) =
    let rest = put_reservation r xs in
    elim (is_for r.username x) [ true ↦ r ∷ xs | false ↦ x ∷ rest ]

-- `reserve_released_username`
unfoldable pub reserve_released_username : Option Text → ℕ → ℕ → List Reservation → List Reservation
unfolding put_reservation
reserve_released_username none owner now reservations = reservations
reserve_released_username (some name) owner now reservations =
    if is_empty name
    then reservations
    else put_reservation
        (record {
          username = normalized_username name;
          owner_id = owner;
          expires_at = now + reservation_period;
        })
        reservations

-- `cleanup_expired_username_reservations` (core/users/tasks.py): what is left, and the number gone.
abbrev pub is_expired : ℕ → Reservation → Bool
is_expired now r = leb r.expires_at now

unfoldable pub cleanup_expired : ℕ → List Reservation → List Reservation
cleanup_expired now = filter_out (is_expired now)
