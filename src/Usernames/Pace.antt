-- ===== src/Usernames/Pace.antt =====
-- What one call of `set_username` comes to for the handle of an account.
use ziona_server.Base.{
  ℕ, ◌+◌, ◌≤◌, ◌≡◌, ◌⊎◌, refl, Bool, true, false, not, Option, none, some, List, [], ◌∷◌, arith,
  inl, inr, Bool-cases, Option-cases, Text, text_eq, text_eq_refl, strip, Result, ok, err, subst,
  sym,
}
use ziona_server.Accounts.User.{User, get_any_by_id}
use ziona_server.Accounts.Store.{Store, update_user}
use ziona_server.Accounts.Table.{
  IsKeyed, get_any_by_id-update_user, get_any_by_id-id, count_if-update_user,
}
use ziona_server.Usernames.Policy.{username_is_available}
use ziona_server.Usernames.Change.{
  UsernameError, is_name, check_format, is_limited, renamed, change_username, set_username,
}
use ziona_server.Usernames.Uniqueness.{set_username-cases, one}

abbrev same_name : Option Text → Option Text → Bool
same_name none none = true
same_name none (some b) = false
same_name (some a) none = false
same_name (some a) (some b) = text_eq a b

-- The answer is a user whose handle is another than the one that the row had.
abbrev pub is_change : Option User → Result UsernameError User → ℕ
is_change none r = 0
is_change (some u) (err e) = 0
is_change (some u) (ok v) = one (not (same_name v.username u.username))

-- Calls one after the other, each at its own time, and the number of changes among them.
unfoldable pub changes : ℕ → List (ℕ × Text) → Store → ℕ
changes user_id [] s = 0
changes user_id ((time, raw) ∷ rest) s =
    let (r, t) = set_username user_id raw false time s in
    is_change (get_any_by_id user_id s.world.users) r + changes user_id rest t

same_name_refl : (n : Option Text) → same_name n n ≡ true
same_name_refl none = refl
same_name_refl (some t) = text_eq_refl t

one_le : (u : Option User) (r : Result UsernameError User) → is_change u r ≤ 1
one_le u r = ground arith

change_username-pace :
    (name : Text) (now : ℕ) (u : User) (s t : Store) (r : Result UsernameError User)
    → u.needs_username_selection ≡ false
    → change_username name now u s ≡ (r, t)
    → ((t ≡ s) × (is_change (some u) r ≡ 0))
      ⊎ ((t.world.users ≡ update_user u.id (renamed u name now) s.world.users)
          × (is_limited u now ≡ false)
          × (is_change (some u) r ≤ 1))
unfolding change_username
change_username-pace name now u s t r chosen h =
    elim (Option-cases (check_format u.needs_username_selection name)) [
      | inr (e, f) ↦ inl (ground arith)
      | inl f ↦ elim (Bool-cases (is_name name u.username)) [
        | inl k ↦ inl (ground (arith, same_name_refl u.username))
        | inr k ↦ elim (Bool-cases (is_limited u now)) [
          | inl l ↦ inl (ground arith)
          | inr l ↦
              elim (Bool-cases
                (username_is_available name (some u.id) now s.world.users s.reservations)) [
                  | inr m ↦ inl (ground arith)
                  | inl m ↦ inr (ground arith, l, one_le (some u) r)
                ]
        ]
      ]
    ]

renamed-id : (u : User) (name : Text) (now : ℕ) (row : User) → (renamed u name now row).id ≡ row.id
unfolding renamed
renamed-id u name now row = ground arith

changed_row :
    (i : ℕ) (name : Text) (now : ℕ) (u : User) (s t : Store) (r : Result UsernameError User)
    → IsKeyed s.world.users
    → get_any_by_id i s.world.users ≡ some u
    → u.needs_username_selection ≡ false
    → change_username name now u s ≡ (r, t)
    → IsKeyed t.world.users
      × (((get_any_by_id i t.world.users ≡ some u) × (is_change (some u) r ≡ 0))
          ⊎ ((get_any_by_id i t.world.users ≡ some (renamed u name now u))
              × (is_limited u now ≡ false)
              × (is_change (some u) r ≤ 1)))
changed_row i name now u s t r keyed found chosen h =
    elim (change_username-pace name now u s t r chosen h) [
      | inl (same, none_made) ↦ (
        subst (λ w. IsKeyed w.world.users) (sym same) keyed,
        inl (subst (λ w. get_any_by_id i w.world.users ≡ some u) (sym same) found, none_made),
      )
      | inr (users, free, at_most) ↦
          let f = renamed u name now in
          let key = get_any_by_id-id i s.world.users u found in
          let users' = subst (λ k. t.world.users ≡ update_user k f s.world.users) key users in
          (
            subst IsKeyed (sym users') (λ j.
                subst (λ n. n ≤ 1)
                  (sym (count_if-update_user i j f s.world.users (renamed-id u name now)))
                  (keyed j)),
            inr (
              subst (λ us. get_any_by_id i us ≡ some (f u)) (sym users')
                  (get_any_by_id-update_user i f s.world.users u (renamed-id u name now) found),
              free,
              at_most,
            ),
          )
    ]

-- What one call comes to for the row of the user: it stays, or it is renamed within the limit.
pub set_username-pace :
    (user_id : ℕ) (raw : Text) (now : ℕ) (u : User) (s : Store)
    → IsKeyed s.world.users
    → get_any_by_id user_id s.world.users ≡ some u
    → u.needs_username_selection ≡ false
    → let (r, t) = set_username user_id raw false now s in
      IsKeyed t.world.users
      × (((get_any_by_id user_id t.world.users ≡ some u) × (is_change (some u) r ≡ 0))
          ⊎ ((get_any_by_id user_id t.world.users ≡ some (renamed u (strip raw) now u))
              × (is_limited u now ≡ false)
              × (is_change (some u) r ≤ 1)))
set_username-pace user_id raw now u s keyed found chosen =
    let (r, t) = set_username user_id raw false now s in
    elim (set_username-cases user_id raw false now s t r keyed refl) [
      | inl (same, e, failed) ↦
          (subst (λ w. IsKeyed w.world.users) (sym same) keyed, inl (ground arith))
      | inr (v, key, row, h) ↦
          let e : v ≡ u = ground arith in
          changed_row user_id (strip raw) now u s t r keyed found chosen
            (subst (λ w. change_username (strip raw) now w s ≡ (r, t)) e h)
    ]
