-- ===== src/Circles/Members/Guarded.antt =====
-- The shape that the services share: find a row, require that the caller is in its circle, act. The
-- tables are left alone, or the row was found and the caller is a member.
use ziona_server.Base.{
  ℕ, ◌≡◌, ◌⊎◌, true, Option, inl, inr, arith, Bool-cases, Result-cases, ok, in_transaction, ◌>>=◌,
  ◌>>◌,
}
use ziona_server.Circles.State.{CircleStore, CircleError, C}
use ziona_server.Circles.Members.{has_circle_membership, require_circle_membership}

module _ {A B : Type 0} (find : C A) (code : CircleError) (user_id : Option ℕ) (circle : A → ℕ)
    (act : A → C B) (s : CircleStore) where
  abbrev pub guarded : C B
  guarded =
      in_transaction (find >>= λ a. require_circle_membership code user_id (circle a) >> act a)

  pub guarded-cases :
      (find s).1 ≡ s
      → ((guarded s).1 ≡ s)
        ⊎ ((a : A) × (find s ≡ (ok a, s))
            × (has_circle_membership user_id (circle a) s ≡ true)
            × ((guarded s).1 ≡ (act a s).1))
  unfolding require_circle_membership
  guarded-cases reads = elim (Result-cases (find s)) [
    | inr (x, t, f) ↦ inl (ground arith)
    | inl (a, t, f) ↦ elim (Bool-cases (has_circle_membership user_id (circle a) s)) [
      | inr outside ↦ inl (ground arith)
      | inl inside ↦ elim (Result-cases (act a s)) [
        | inr (x, t', g) ↦ inl (ground arith)
        | inl (b, t', g) ↦ inr (a, ground arith, inside, ground arith)
      ]
    ]
  ]

  -- What a member gets is what the act answers.
  pub guarded-member :
      (a : A)
      → find s ≡ (ok a, s)
      → has_circle_membership user_id (circle a) s ≡ true
      → guarded s ≡ in_transaction (act a) s
  unfolding require_circle_membership
  guarded-member a f inside = elim (Result-cases (act a s)) [
    | inr (x, t', g) ↦ ground arith
    | inl (b, t', g) ↦ ground arith
  ]
