-- ===== src/Base/Monad.antt =====
-- Methods as functions on an explicit state, with exceptions. The state comes back after a raise
-- too, since what was written stays written; a database transaction is undone by its caller.
use mathlib.Core.Path.{◌≡◌, refl}
use mathlib.Core.Logic.{◌⊎◌, inl, inr}
use mathlib.Core.Bool.{Bool, true, false}
use native.Mathlib.Omega.{arith}
use ziona_server.Base.Tests.{if◌then◌else◌}

pub data Result (E A : Type 0) : Type 0 where
  ok : A → Result E A
  err : E → Result E A

abbrev pub Method : Type 0 → Type 0 → Type 0 → Type 0
Method S E A = S → Result E A × S

module _ {S E A : Type 0} where
  abbrev pub pure : A → Method S E A
  pure a s = (ok a, s)

  abbrev pub fail : E → Method S E A
  fail e s = (err e, s)

  abbrev pub gets : (S → A) → Method S E A
  gets f s = (ok (f s), s)

infixl 5 ◌>>=◌ ◌>>◌
abbrev pub ◌>>=◌ : {S E A B : Type 0} → Method S E A → (A → Method S E B) → Method S E B
◌>>=◌ m f s = let (r, s') = m s in elim r [ ok a ↦ f a s' | err e ↦ (err e, s') ]

abbrev pub ◌>>◌ : {S E A B : Type 0} → Method S E A → Method S E B → Method S E B
m >> k = m >>= λ _. k

module _ {S E : Type 0} where
  abbrev pub fail_if : Bool → E → Method S E (Unit {0})
  fail_if b e s = (if b then err e else ok tt, s)

  abbrev pub modify : (S → S) → Method S E (Unit {0})
  modify f s = (ok tt, f s)

  -- `if b: m`
  abbrev pub when : Bool → Method S E (Unit {0}) → Method S E (Unit {0})
  when b m s = elim b [ true ↦ m s | false ↦ (ok tt, s) ]

  -- `@transaction.atomic` around a method: a raise undoes what it wrote.
  abbrev pub in_transaction : {A : Type 0} → Method S E A → Method S E A
  in_transaction m s = let (r, t) = m s in elim r [ ok a ↦ (ok a, t) | err e ↦ (err e, s) ]

pub Result-cases :
    {S E A : Type 0} (r : Result E A × S)
    → ((a : A) × (s : S) × (r ≡ (ok a, s))) ⊎ ((e : E) × (s : S) × (r ≡ (err e, s)))
Result-cases (ok a, s) = inl (a, s, refl)
Result-cases (err e, s) = inr (e, s, refl)

-- A sequence that ends well has begun well.
pub >>-prefix :
    {S E A : Type 0} (a b : Method S E (Unit {0})) (c : Method S E A) (s : S) (v : A) (t : S)
    → (a >> (b >> c)) s ≡ (ok v, t)
    → (u : S) × ((a >> b) s ≡ (ok tt, u))
>>-prefix a b c s v t h = elim (Result-cases (a s)) [
  | inr (e, s₁, f) ↦ absurd (ground arith)
  | inl (x, s₁, f) ↦ elim (Result-cases (b s₁)) [
    | inr (e, s₂, g) ↦ absurd (ground arith)
    | inl (y, s₂, g) ↦ (s₂, ground arith)
  ]
]
