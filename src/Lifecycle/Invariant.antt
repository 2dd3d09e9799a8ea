-- ===== src/Lifecycle/Invariant.antt =====
-- What holds of the rows of users and deletion requests, and how writing one row keeps it.
use ziona_server.Base.{
  ℕ, ◌≡◌, refl, Bool, true, false, not, ◌&&◌, ◌||◌, Option, none, some, List, [], ◌∷◌, ◌==◌, arith,
  if◌then◌else◌, is_some, all_of, count_if,
}
use ziona_server.Accounts.User.{
  User, is_active_state, is_pending_deletion, is_deleted, has_id, get_any_by_id, save,
}
use ziona_server.Accounts.Store.{DeletionRequest, update_user, update_request, get_request}
use ziona_server.Accounts.Actions.{is_open}
use ziona_server.Accounts.Table.{
  KeepsId, IsKeyed, KeepsOwner, count_if-update_user, all_of-update_user,
  get_request-update_request_other,
}

abbrev pub is_scheduled : Option DeletionRequest → Bool
is_scheduled none = false
is_scheduled (some r) = is_open r.status

-- A row is sound if it is soft-deleted exactly in the deleted state, is flagged active in the active
-- state only, and, where it awaits deletion, has a request that is not closed.
abbrev pub is_sound : List DeletionRequest → User → Bool
is_sound requests u =
    (if is_some u.deleted_at
      then is_deleted u.lifecycle_state
      else not (is_deleted u.lifecycle_state))
    && (is_active_state u.lifecycle_state || not u.is_active)
    && (not (is_pending_deletion u.lifecycle_state) || is_scheduled (get_request u.id requests))

abbrev pub IsSound : List User → List DeletionRequest → Type 0
IsSound users requests = IsKeyed users × (all_of (is_sound requests) users ≡ true)

-- The requests of everyone else are the same.
abbrev pub SameBut : ℕ → List DeletionRequest → List DeletionRequest → Type 0
SameBut i requests requests' =
    (j : ℕ) → (i == j) ≡ false → get_request j requests' ≡ get_request j requests

flip : (i j : ℕ) → (j == i) ≡ false → (i == j) ≡ false
flip i j h = ground arith

is_sound_other :
    (i : ℕ) (requests requests' : List DeletionRequest) (v : User)
    → SameBut i requests requests'
    → has_id i v ≡ false
    → is_sound requests v ≡ true
    → is_sound requests' v ≡ true
is_sound_other i requests requests' v same ne h = let e = same v.id (flip i v.id ne) in ground arith

-- One row is changed, into a sound one, and the requests of the others stay.
pub update_user-IsSound :
    (i : ℕ) (f : User → User) (users : List User) (requests requests' : List DeletionRequest)
    (u : User)
    → KeepsId f
    → SameBut i requests requests'
    → get_any_by_id i users ≡ some u
    → IsSound users requests
    → (is_sound requests u ≡ true → is_sound requests' (f u) ≡ true)
    → IsSound (update_user i f users) requests'
update_user-IsSound i f users requests requests' u keeps same found (keyed, sound) k = (
  λ j. rw (count_if-update_user i j f users keeps) (keyed j),
  all_of-update_user i f (is_sound requests) (is_sound requests')
      (λ v. is_sound_other i requests requests' v same) users u (keyed i) found sound k,
)

save-update_user : (u : User) (users : List User) → save u users ≡ update_user u.id (λ v. u) users
unfolding save update_user
save-update_user u users = refl

count_if-save :
    (u : User) (j : ℕ) (users : List User)
    → count_if (has_id j) (save u users) ≡ count_if (has_id j) users
unfolding save
count_if-save u j [] = refl
count_if-save u j (v ∷ users) = ground (arith, count_if-save u j users)

-- One row is overwritten by a sound one.
pub save-IsSound :
    (u : User) (users : List User) (requests requests' : List DeletionRequest) (v : User)
    → SameBut u.id requests requests'
    → get_any_by_id u.id users ≡ some v
    → IsSound users requests
    → is_sound requests' u ≡ true
    → IsSound (save u users) requests'
save-IsSound u users requests requests' v same found (keyed, sound) k = (
  λ j. rw (count_if-save u j users) (keyed j),
  rw (save-update_user u users) (
      all_of-update_user u.id (λ x. u) (is_sound requests) (is_sound requests')
        (λ x. is_sound_other u.id requests requests' x same) users v (keyed u.id) found sound
        (λ x. k)),
)

pub update_request-SameBut :
    (i : ℕ) (f : DeletionRequest → DeletionRequest) (requests : List DeletionRequest)
    → KeepsOwner f
    → SameBut i requests (update_request i f requests)
update_request-SameBut i f requests keeps j ne =
    get_request-update_request_other i j f requests keeps ne
