-- ===== src/Accounts/Table.antt =====
-- Lemmas on the tables of users and of deletion requests: rows found, updated and counted.
use ziona_server.Base.{
  ℕ, ◌≤◌, ◌≡◌, ◌≢◌, refl, Bool, true, false, ◌&&◌, none, some, List, [], ◌∷◌, ◌==◌, arith, inl, inr,
  Bool-cases, count_if, all_of, find_first,
}
use ziona_server.Accounts.User.{User, has_id, get_any_by_id, save}
use ziona_server.Accounts.Store.{DeletionRequest, update_user, get_request, update_request}

-- A change of columns that leaves the id alone.
abbrev pub KeepsId : (User → User) → Type 0
KeepsId f = (u : User) → (f u).id ≡ u.id

-- No id stands in two rows.
abbrev pub IsKeyed : List User → Type 0
IsKeyed users = (i : ℕ) → count_if (has_id i) users ≤ 1

pub count_if-update_user :
    (i j : ℕ) (f : User → User) (users : List User)
    → KeepsId f
    → count_if (has_id j) (update_user i f users) ≡ count_if (has_id j) users
unfolding update_user
count_if-update_user i j f [] k = refl
count_if-update_user i j f (v ∷ users) k = ground (arith, count_if-update_user i j f users k, k v)

pub get_any_by_id-update_user :
    (i : ℕ) (f : User → User) (users : List User) (u : User)
    → KeepsId f
    → get_any_by_id i users ≡ some u
    → get_any_by_id i (update_user i f users) ≡ some (f u)
unfolding update_user get_any_by_id
get_any_by_id-update_user i f [] u k h = cc
get_any_by_id-update_user i f (v ∷ users) u k h =
    ground (arith, get_any_by_id-update_user i f users u k, k v)

pub get_any_by_id-update_user_other :
    (i j : ℕ) (f : User → User) (users : List User)
    → KeepsId f
    → (i == j) ≡ false
    → get_any_by_id j (update_user i f users) ≡ get_any_by_id j users
unfolding update_user get_any_by_id
get_any_by_id-update_user_other i j f [] k ne = refl
get_any_by_id-update_user_other i j f (v ∷ users) k ne =
    ground (arith, get_any_by_id-update_user_other i j f users k ne, k v)

pub get_any_by_id-id :
    (i : ℕ) (users : List User) (u : User) → get_any_by_id i users ≡ some u → u.id ≡ i
unfolding get_any_by_id
get_any_by_id-id i [] u h = cc
get_any_by_id-id i (v ∷ users) u h = ground (arith, get_any_by_id-id i users u)

none_counted :
    (i : ℕ) (q : User → Bool) (users : List User)
    → count_if (has_id i) users ≡ 0
    → find_first (λ v. q v && has_id i v) users ≡ none
none_counted i q [] h = refl
none_counted i q (v ∷ users) h = ground (arith, none_counted i q users)

-- The manager hides the row of an id that stands in one row only.
pub find_first_hidden :
    (i : ℕ) (q : User → Bool) (users : List User) (u : User)
    → count_if (has_id i) users ≤ 1
    → get_any_by_id i users ≡ some u
    → q u ≡ false
    → find_first (λ v. q v && has_id i v) users ≡ none
unfolding get_any_by_id
find_first_hidden i q [] u c h hidden = refl
find_first_hidden i q (v ∷ users) u c h hidden = elim (Bool-cases (has_id i v)) [
  | inl t ↦ ground (arith, none_counted i q users)
  | inr f ↦ ground (arith, find_first_hidden i q users u)
]

-- It shows the row that the plain lookup finds, if that one is visible.
pub find_first_shown :
    (i : ℕ) (q : User → Bool) (users : List User) (u : User)
    → get_any_by_id i users ≡ some u
    → q u ≡ true
    → find_first (λ v. q v && has_id i v) users ≡ some u
unfolding get_any_by_id
find_first_shown i q [] u h shown = cc
find_first_shown i q (v ∷ users) u h shown = ground (arith, find_first_shown i q users u)

module _ (i : ℕ) (f : User → User) (p q : User → Bool)
    (other : (v : User) → has_id i v ≡ false → p v ≡ true → q v ≡ true) where
  all_of-update_user_none :
      (users : List User)
      → count_if (has_id i) users ≡ 0
      → all_of p users ≡ true
      → all_of q (update_user i f users) ≡ true
  unfolding update_user
  all_of-update_user_none [] c h = refl
  all_of-update_user_none (v ∷ users) c h = ground (arith, all_of-update_user_none users, other v)

  -- What holds of every row still holds after one row was changed, if the changed row is right.
  pub all_of-update_user :
      (users : List User) (u : User)
      → count_if (has_id i) users ≤ 1
      → get_any_by_id i users ≡ some u
      → all_of p users ≡ true
      → (p u ≡ true → q (f u) ≡ true)
      → all_of q (update_user i f users) ≡ true
  unfolding update_user get_any_by_id
  all_of-update_user [] u c h a k = refl
  all_of-update_user (v ∷ users) u c h a k = elim (Bool-cases (has_id i v)) [
    | inl t ↦ ground (arith, all_of-update_user_none users, k)
    | inr n ↦ ground (arith, all_of-update_user users u, other v)
  ]

abbrev pub KeepsOwner : (DeletionRequest → DeletionRequest) → Type 0
KeepsOwner f = (r : DeletionRequest) → (f r).user_id ≡ r.user_id

pub get_request-update_request :
    (i : ℕ) (f : DeletionRequest → DeletionRequest) (requests : List DeletionRequest)
    (r : DeletionRequest)
    → KeepsOwner f
    → get_request i requests ≡ some r
    → get_request i (update_request i f requests) ≡ some (f r)
unfolding update_request get_request
get_request-update_request i f [] r k h = cc
get_request-update_request i f (x ∷ requests) r k h =
    ground (arith, get_request-update_request i f requests r k, k x)

pub get_request-update_request_other :
    (i j : ℕ) (f : DeletionRequest → DeletionRequest) (requests : List DeletionRequest)
    → KeepsOwner f
    → (i == j) ≡ false
    → get_request j (update_request i f requests) ≡ get_request j requests
unfolding update_request get_request
get_request-update_request_other i j f [] k ne = refl
get_request-update_request_other i j f (x ∷ requests) k ne =
    ground (arith, get_request-update_request_other i j f requests k ne, k x)

pub get_any_by_id-save :
    (i : ℕ) (u : User) (users : List User) (x : User)
    → u.id ≡ i
    → get_any_by_id i users ≡ some x
    → get_any_by_id i (save u users) ≡ some u
unfolding save get_any_by_id
get_any_by_id-save i u [] x e h = cc
get_any_by_id-save i u (v ∷ users) x e h = ground (arith, get_any_by_id-save i u users x e)

not_counted :
    (i : ℕ) (q : User → Bool) (users : List User) (u : User)
    → count_if (has_id i) users ≡ 0
    → find_first (λ v. q v && has_id i v) users ≢ some u
not_counted i q [] u c h = cc
not_counted i q (v ∷ users) u c h = ground (arith, not_counted i q users u)

-- A row that the manager shows is the one that the plain lookup finds.
pub get_any_by_id-shown :
    (i : ℕ) (q : User → Bool) (users : List User) (u : User)
    → count_if (has_id i) users ≤ 1
    → find_first (λ v. q v && has_id i v) users ≡ some u
    → (get_any_by_id i users ≡ some u) × (q u ≡ true)
unfolding get_any_by_id
get_any_by_id-shown i q [] u c h = cc
get_any_by_id-shown i q (v ∷ users) u c h = elim (Bool-cases (has_id i v)) [
  | inl t ↦ ground (arith, not_counted i q users u)
  | inr n ↦ ground (arith, get_any_by_id-shown i q users u)
]
