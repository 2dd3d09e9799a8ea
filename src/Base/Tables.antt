-- ===== src/Base/Tables.antt =====
-- Tables as lists of rows with a primary key: a query for one row, an update of the rows that pass a
-- test, and what they do to each other.
use Prim.Native.Nat.{ℕ, ◌+◌, ◌≤◌}
use mathlib.Core.Path.{◌≡◌, refl}
use mathlib.Core.Bool.{Bool, true, false, ◌&&◌}
use mathlib.Core.List.{List, [], ◌∷◌}
use mathlib.Core.Option.{Option, none, some}
use mathlib.Core.Logic.{inl, inr}
use ziona_server.Base.Tests.{◌==◌, if◌then◌else◌, Bool-cases}
use ziona_server.Base.Lists.{count_if, filter_out, find_first}
use native.Mathlib.Omega.{arith}

module _ {A : Type 0} where
  -- `filter(...).update(...)`
  abbrev pub update_where : (A → Bool) → (A → A) → List A → List A
  update_where q f [] = []
  update_where q f (x ∷ xs) = let rest = update_where q f xs in if q x then f x ∷ rest else x ∷ rest

  -- `filter(...).exists()`
  abbrev pub any_of : (A → Bool) → List A → Bool
  any_of p [] = false
  any_of p (x ∷ xs) = let rest = any_of p xs in if p x then true else rest

  pub count_if-filter_out :
      (p q : A → Bool) (xs : List A)
      → ((x : A) → q x ≡ true → p x ≡ true)
      → count_if p (filter_out q xs) + count_if q xs ≡ count_if p xs
  count_if-filter_out p q [] k = refl
  count_if-filter_out p q (x ∷ xs) k = ground (arith, count_if-filter_out p q xs k, k x)

  pub count_if-filter_out_apart :
      (p q : A → Bool) (xs : List A)
      → ((x : A) → q x ≡ true → p x ≡ false)
      → count_if p (filter_out q xs) ≡ count_if p xs
  count_if-filter_out_apart p q [] k = refl
  count_if-filter_out_apart p q (x ∷ xs) k = ground (arith, count_if-filter_out_apart p q xs k, k x)

  pub count_if-filter_out_le :
      (p q : A → Bool) (xs : List A) → count_if p (filter_out q xs) ≤ count_if p xs
  count_if-filter_out_le p q [] = omega arith
  count_if-filter_out_le p q (x ∷ xs) = ground (arith, count_if-filter_out_le p q xs)

  pub count_if-filter_out_self : (q : A → Bool) (xs : List A) → count_if q (filter_out q xs) ≡ 0
  count_if-filter_out_self q [] = refl
  count_if-filter_out_self q (x ∷ xs) = ground (arith, count_if-filter_out_self q xs)

  pub filter_out-none : (q : A → Bool) (xs : List A) → count_if q xs ≡ 0 → filter_out q xs ≡ xs
  filter_out-none q [] h = refl
  filter_out-none q (x ∷ xs) h = ground (arith, filter_out-none q xs)

  pub any_of-filter_out_self : (q : A → Bool) (xs : List A) → any_of q (filter_out q xs) ≡ false
  any_of-filter_out_self q [] = refl
  any_of-filter_out_self q (x ∷ xs) = ground (arith, any_of-filter_out_self q xs)

  pub any_of-count_if : (p : A → Bool) (xs : List A) → any_of p xs ≡ true → 1 ≤ count_if p xs
  any_of-count_if p [] h = cc
  any_of-count_if p (x ∷ xs) h = ground (arith, any_of-count_if p xs)

  pub none_of-count_if : (p : A → Bool) (xs : List A) → any_of p xs ≡ false → count_if p xs ≡ 0
  none_of-count_if p [] h = refl
  none_of-count_if p (x ∷ xs) h = ground (arith, none_of-count_if p xs)

  -- A test that the update does not see counts the same rows.
  pub count_if-update_where :
      (p q : A → Bool) (f : A → A) (xs : List A)
      → ((x : A) → q x ≡ true → p (f x) ≡ p x)
      → count_if p (update_where q f xs) ≡ count_if p xs
  count_if-update_where p q f [] k = refl
  count_if-update_where p q f (x ∷ xs) k = ground (arith, count_if-update_where p q f xs k, k x)

module _ {A : Type 0} (key : A → ℕ) where
  abbrev pub has_key : ℕ → A → Bool
  has_key i x = key x == i

  abbrev pub lookup : ℕ → List A → Option A
  lookup i xs = find_first (has_key i) xs

  -- The row that a manager's query by primary key shows.
  abbrev pub get_where : (A → Bool) → ℕ → List A → Option A
  get_where q i xs = find_first (λ x. q x && has_key i x) xs

  abbrev pub update_at : (A → Bool) → ℕ → (A → A) → List A → List A
  update_at q i f xs = update_where (λ x. q x && has_key i x) f xs

  abbrev pub HasKeys : List A → Type 0
  HasKeys xs = (i : ℕ) → count_if (has_key i) xs ≤ 1

  abbrev pub KeepsKey : (A → A) → Type 0
  KeepsKey f = (x : A) → key (f x) ≡ key x

  pub lookup-key : (i : ℕ) (xs : List A) (x : A) → lookup i xs ≡ some x → key x ≡ i
  lookup-key i [] x h = cc
  lookup-key i (y ∷ xs) x h = ground (arith, lookup-key i xs x)

  lookup-none_counted : (i : ℕ) (xs : List A) → count_if (has_key i) xs ≡ 0 → lookup i xs ≡ none
  lookup-none_counted i [] h = refl
  lookup-none_counted i (y ∷ xs) h = ground (arith, lookup-none_counted i xs)

  get_where-none_counted :
      (q : A → Bool) (i : ℕ) (xs : List A) → count_if (has_key i) xs ≡ 0 → get_where q i xs ≡ none
  get_where-none_counted q i [] h = refl
  get_where-none_counted q i (y ∷ xs) h = ground (arith, get_where-none_counted q i xs)

  -- A row that a query shows is the row of its key.
  pub lookup-get_where :
      (q : A → Bool) (i : ℕ) (xs : List A) (x : A)
      → HasKeys xs
      → get_where q i xs ≡ some x
      → (lookup i xs ≡ some x) × (q x ≡ true)
  lookup-get_where q i xs x k h = go xs (k i) h
    where
      go :
          (ys : List A)
          → count_if (has_key i) ys ≤ 1
          → get_where q i ys ≡ some x
          → (lookup i ys ≡ some x) × (q x ≡ true)
      go [] c g = cc
      go (y ∷ ys) c g = elim (Bool-cases (has_key i y)) [
        | inl t ↦ ground (arith, get_where-none_counted q i ys)
        | inr n ↦ ground (arith, go ys)
      ]

  pub get_where-lookup :
      (q : A → Bool) (i : ℕ) (xs : List A) (x : A)
      → lookup i xs ≡ some x
      → q x ≡ true
      → get_where q i xs ≡ some x
  get_where-lookup q i [] x h t = cc
  get_where-lookup q i (y ∷ xs) x h t = ground (arith, get_where-lookup q i xs x)

  -- The row of a key after an update of that key, which it passes or not.
  pub lookup-update_at :
      (q : A → Bool) (i : ℕ) (f : A → A) (xs : List A) (x : A)
      → KeepsKey f
      → lookup i xs ≡ some x
      → lookup i (update_at q i f xs) ≡ some (if q x then f x else x)
  lookup-update_at q i f [] x k h = cc
  lookup-update_at q i f (y ∷ xs) x k h = ground (arith, lookup-update_at q i f xs x k, k y)

  pub lookup-update_at_missing :
      (q : A → Bool) (i : ℕ) (f : A → A) (xs : List A)
      → lookup i xs ≡ none
      → lookup i (update_at q i f xs) ≡ none
  lookup-update_at_missing q i f [] h = refl
  lookup-update_at_missing q i f (y ∷ xs) h = ground (arith, lookup-update_at_missing q i f xs)

  pub lookup-update_at_other :
      (q : A → Bool) (i j : ℕ) (f : A → A) (xs : List A)
      → KeepsKey f
      → (i == j) ≡ false
      → lookup j (update_at q i f xs) ≡ lookup j xs
  lookup-update_at_other q i j f [] k n = refl
  lookup-update_at_other q i j f (y ∷ xs) k n =
      ground (arith, lookup-update_at_other q i j f xs k n, k y)

  pub update_at-HasKeys :
      (q : A → Bool) (i : ℕ) (f : A → A) (xs : List A)
      → KeepsKey f
      → HasKeys xs
      → HasKeys (update_at q i f xs)
  update_at-HasKeys q i f xs k h j = ground (
    arith,
    h j,
    count_if-update_where (has_key j) (λ x. q x && has_key i x) f xs (λ x t. ground (arith, k x)),
  )

  pub lookup-cons :
      (i : ℕ) (y : A) (xs : List A)
      → lookup i (y ∷ xs) ≡ (if has_key i y then some y else lookup i xs)
  lookup-cons i y xs = ground arith

-- The number of rows that pass a test: one row of it.
abbrev pub bit : Bool → ℕ
bit true = 1
bit false = 0

module _ {A : Type 0} (key : A → ℕ) (p q : A → Bool) (i : ℕ) (f : A → A) where
  pub update_at-none_counted :
      (xs : List A) → count_if (has_key key i) xs ≡ 0 → update_at key q i f xs ≡ xs
  update_at-none_counted [] h = refl
  update_at-none_counted (y ∷ xs) h = ground (arith, update_at-none_counted xs)

  -- An update of one row changes a count by that row.
  pub count_if-update_at :
      (xs : List A) (x : A)
      → count_if (has_key key i) xs ≤ 1
      → lookup key i xs ≡ some x
      → count_if p (update_at key q i f xs) + bit (p x)
        ≡ count_if p xs + bit (p (if q x then f x else x))
  count_if-update_at [] x c h = cc
  count_if-update_at (y ∷ xs) x c h = elim (Bool-cases (has_key key i y)) [
    | inl t ↦ ground (arith, update_at-none_counted xs)
    | inr n ↦ ground (arith, count_if-update_at xs x)
  ]
