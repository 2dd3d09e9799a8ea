-- ===== src/Usernames/Reservations.antt =====
-- A released handle is kept for its owner, and expired reservations can go.
use ziona_server.Base.{
  ℕ, ◌+◌, ◌≤◌, ◌<◌, ◌≡◌, refl, true, false, Option, none, some, List, [], ◌∷◌, ◌==◌, arith,
  filter_out, find_first, Text, text_eq_refl,
}
use ziona_server.Accounts.User.{User}
use ziona_server.Accounts.Store.{Reservation}
use ziona_server.Usernames.Policy.{
  normalized_username, reservation_period, is_for, claims, holds, put_reservation,
  reserve_released_username, username_is_available, cleanup_expired,
}
use ziona_server.Usernames.Change.{move_reservations, renames}

find_first-put_reservation :
    (name : Text) (now : ℕ) (r : Reservation) (reservations : List Reservation)
    → r.username ≡ normalized_username name
    → now < r.expires_at
    → find_first (claims name now) (put_reservation r reservations) ≡ some r
unfolding put_reservation
find_first-put_reservation name now r [] e live =
    ground (arith, text_eq_refl (normalized_username name))
find_first-put_reservation name now r (x ∷ reservations) e live = ground (
  arith,
  find_first-put_reservation name now r reservations e live,
  text_eq_refl (normalized_username name),
)

-- For two weeks after an account gave up a handle that nobody else holds, the handle is available
-- to an account exactly if it is the one that gave it up, whatever the reservations were before.
-- The change is no first selection and changes more than the case of letters.
pub username_is_available-move_reservations :
    (u : User) (old name : Text) (now later : ℕ) (j : ℕ) (users : List User)
    (reservations : List Reservation)
    → u.username ≡ some old
    → renames u.username name ≡ true
    → u.needs_username_selection ≡ false
    → later < now + reservation_period
    → find_first (holds old (some j)) users ≡ none
    → username_is_available old (some j) later users (move_reservations u name now reservations)
      ≡ (u.id == j)
unfolding username_is_available move_reservations reserve_released_username
username_is_available-move_reservations u old name now later j users reservations e change chosen
      early free =
    let r : Reservation = record {
      username = normalized_username old;
      owner_id = u.id;
      expires_at = now + reservation_period;
    } in
    let kept =
      find_first-put_reservation old later r
        (filter_out (is_for (normalized_username name)) reservations) refl early in
    ground (arith, kept)

find_first-cleanup_expired :
    (name : Text) (now later : ℕ) (reservations : List Reservation)
    → now ≤ later
    → find_first (claims name later) (cleanup_expired now reservations)
      ≡ find_first (claims name later) reservations
unfolding cleanup_expired
find_first-cleanup_expired name now later [] le = refl
find_first-cleanup_expired name now later (r ∷ reservations) le =
    ground (arith, find_first-cleanup_expired name now later reservations le)

-- The daily cleanup of expired reservations changes no answer: at its time and later, every handle
-- is available to exactly the accounts it was available to without the cleanup.
pub username_is_available-cleanup_expired :
    (name : Text) (owner : Option ℕ) (now later : ℕ) (users : List User)
    (reservations : List Reservation)
    → now ≤ later
    → username_is_available name owner later users (cleanup_expired now reservations)
      ≡ username_is_available name owner later users reservations
unfolding username_is_available
username_is_available-cleanup_expired name owner now later users reservations le =
    ground (arith, find_first-cleanup_expired name now later reservations le)
