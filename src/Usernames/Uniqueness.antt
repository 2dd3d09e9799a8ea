-- ===== src/Usernames/Uniqueness.antt =====
-- No two accounts have the same handle, whatever the case of its letters.
use ziona_server.Base.{
  ℕ, ◌+◌, ◌≤◌, ◌≡◌, ◌⊎◌, refl, Bool, true, false, not, ◌&&◌, none, some, List, [], ◌∷◌, arith, inl,
  inr, Bool-cases, Option-cases, if◌then◌else◌, count_if, find_first, Text, text_eq, text_eq_sound,
  strip, Result, err, subst, sym,
}
use ziona_server.Accounts.User.{User, has_id, get_any_by_id, is_visible}
use ziona_server.Accounts.Store.{Store, Reservation, update_user}
use ziona_server.Accounts.Table.{IsKeyed, get_any_by_id-shown, get_any_by_id-id}
use ziona_server.Usernames.Policy.{normalized_username, holds, username_is_available}
use ziona_server.Usernames.Change.{
  UsernameError, user_not_found, username_already_selected, renamed, change_username, set_username,
}

-- The handle in lower case is `key`.
abbrev pub has_key : Text → User → Bool
has_key key u = elim u.username [
  | none ↦ false
  | some name ↦ text_eq (normalized_username name) key
]

-- No handle, in lower case, stands in two rows.
abbrev pub AreUnique : List User → Type 0
AreUnique users = (key : Text) → count_if (has_key key) users ≤ 1

abbrev pub one : Bool → ℕ
one b = if b then 1 else 0

module _ (i : ℕ) (f : User → User) (p : User → Bool) where
  count_if-update_absent :
      (users : List User)
      → count_if (has_id i) users ≡ 0
      → count_if p (update_user i f users) ≡ count_if p users
  unfolding update_user
  count_if-update_absent [] c = refl
  count_if-update_absent (v ∷ users) c = ground (arith, count_if-update_absent users)

  count_if-update_found :
      (users : List User) (u : User)
      → count_if (has_id i) users ≤ 1
      → get_any_by_id i users ≡ some u
      → count_if p (update_user i f users) + one (p u) ≡ count_if p users + one (p (f u))
  unfolding update_user get_any_by_id
  count_if-update_found [] u c h = cc
  count_if-update_found (v ∷ users) u c h = elim (Bool-cases (has_id i v)) [
    | inl t ↦ ground (arith, count_if-update_absent users)
    | inr n ↦ ground (arith, count_if-update_found users u)
  ]

module _ (i : ℕ) (name : Text) where
  none_held_absent :
      (users : List User)
      → count_if (has_id i) users ≡ 0
      → find_first (holds name (some i)) users ≡ none
      → count_if (has_key (normalized_username name)) users ≡ 0
  none_held_absent [] c h = refl
  none_held_absent (v ∷ users) c h = ground (arith, none_held_absent users)

  -- If no other account holds the handle, only this one may be counted for it.
  none_held :
      (users : List User) (u : User)
      → count_if (has_id i) users ≤ 1
      → get_any_by_id i users ≡ some u
      → find_first (holds name (some i)) users ≡ none
      → count_if (has_key (normalized_username name)) users
        ≡ one (has_key (normalized_username name) u)
  unfolding get_any_by_id
  none_held [] u c h f = cc
  none_held (v ∷ users) u c h f = elim (Bool-cases (has_id i v)) [
    | inl t ↦ ground (arith, none_held_absent users)
    | inr n ↦ ground (arith, none_held users u)
  ]

-- A change of handle that `set_username` writes.
set_username-AreUnique_changed :
    (i : ℕ) (name : Text) (f : User → User) (users : List User) (u : User)
    → IsKeyed users
    → get_any_by_id i users ≡ some u
    → find_first (holds name (some i)) users ≡ none
    → (f u).username ≡ some name
    → AreUnique users
    → AreUnique (update_user i f users)
set_username-AreUnique_changed i name f users u keyed found free new unique key =
    let counted = count_if-update_found i f (has_key key) users u (keyed i) found in
    elim (Bool-cases (text_eq (normalized_username name) key)) [
      | inr other ↦ ground (arith, counted, unique key)
      | inl same ↦
          let e = text_eq_sound (normalized_username name) key same in
          let held = none_held i name users u (keyed i) found free in
          let held' = subst (λ k. count_if (has_key k) users ≡ one (has_key k u)) e held in
          ground (arith, counted, held')
    ]

set_username-AreUnique_kept :
    (i : ℕ) (f : User → User) (users : List User) (u : User)
    → IsKeyed users
    → get_any_by_id i users ≡ some u
    → (f u).username ≡ u.username
    → AreUnique users
    → AreUnique (update_user i f users)
set_username-AreUnique_kept i f users u keyed found same unique key =
    ground (arith, count_if-update_found i f (has_key key) users u (keyed i) found, unique key)

renamed-username :
    (u : User) (name : Text) (now : ℕ) (row : User) → (renamed u name now row).username ≡ some name
unfolding renamed
renamed-username u name now row = ground arith

abbrev selected : User → User
selected row = record row { needs_username_selection = false }

change_username-cases :
    (name : Text) (now : ℕ) (u : User) (s t : Store) (r : Result UsernameError User)
    → change_username name now u s ≡ (r, t)
    → (t.world.users ≡ s.world.users)
      ⊎ ((t.world.users ≡ update_user u.id selected s.world.users)
          ⊎ ((t.world.users ≡ update_user u.id (renamed u name now) s.world.users)
              × (username_is_available name (some u.id) now s.world.users s.reservations ≡ true)))
unfolding change_username
change_username-cases name now u s t r h = ground arith

pub available-free :
    (name : Text) (i now : ℕ) (users : List User) (reservations : List Reservation)
    → username_is_available name (some i) now users reservations ≡ true
    → find_first (holds name (some i)) users ≡ none
unfolding username_is_available
available-free name i now users reservations h = ground arith

change_username-AreUnique :
    (name : Text) (now : ℕ) (u : User) (s t : Store) (r : Result UsernameError User)
    → IsKeyed s.world.users
    → get_any_by_id u.id s.world.users ≡ some u
    → AreUnique s.world.users
    → change_username name now u s ≡ (r, t)
    → AreUnique t.world.users
change_username-AreUnique name now u s t r keyed found unique h =
    elim (change_username-cases name now u s t r h) [
      | inl same ↦ subst AreUnique (sym same) unique
      | inr (inl same) ↦
          subst AreUnique (sym same)
            (set_username-AreUnique_kept u.id selected s.world.users u keyed found refl unique)
      | inr (inr (same, free)) ↦ subst AreUnique (sym same) (
          set_username-AreUnique_changed u.id name (renamed u name now) s.world.users u keyed found
            (available-free name u.id now s.world.users s.reservations free)
            (renamed-username u name now u) unique)
    ]

pub set_username-cases :
    (user_id : ℕ) (raw : Text) (initial : Bool) (now : ℕ) (s t : Store)
    (r : Result UsernameError User)
    → IsKeyed s.world.users
    → set_username user_id raw initial now s ≡ (r, t)
    → ((t ≡ s) × (e : UsernameError) × (r ≡ err e))
      ⊎ ((u : User) × (u.id ≡ user_id)
          × (get_any_by_id u.id s.world.users ≡ some u)
          × (change_username (strip raw) now u s ≡ (r, t)))
unfolding set_username
set_username-cases user_id raw initial now s t r keyed h =
    elim (Option-cases (find_first (λ v. is_visible v && has_id user_id v) s.world.users)) [
      | inl e ↦ inl (ground arith, user_not_found, ground arith)
      | inr (u, e) ↦
          let found =
            (get_any_by_id-shown user_id is_visible s.world.users u (keyed user_id) e).0 in
          let key = get_any_by_id-id user_id s.world.users u found in
          elim (Bool-cases (initial && not u.needs_username_selection)) [
            | inl done ↦ inl (ground arith, username_already_selected, ground arith)
            | inr go ↦ inr (
              u,
              key,
              subst (λ k. get_any_by_id k s.world.users ≡ some u) (sym key) found,
              ground arith,
            )
          ]
    ]

-- `set_username` keeps handles unique: if no handle stands in two rows, the case of its letters
-- aside, then none does after a call, whether it succeeds or fails. Ids are unique.
pub set_username-AreUnique :
    (user_id : ℕ) (raw : Text) (initial : Bool) (now : ℕ) (s : Store)
    → IsKeyed s.world.users
    → AreUnique s.world.users
    → AreUnique ((set_username user_id raw initial now s).1.world.users)
set_username-AreUnique user_id raw initial now s keyed unique =
    let (r, t) = set_username user_id raw initial now s in
    elim (set_username-cases user_id raw initial now s t r keyed refl) [
      | inl (same, e, failed) ↦ subst (λ v. AreUnique v.world.users) (sym same) unique
      | inr (u, key, found, h) ↦
          change_username-AreUnique (strip raw) now u s t r keyed found unique h
    ]
