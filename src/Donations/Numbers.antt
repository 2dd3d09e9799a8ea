-- ===== src/Donations/Numbers.antt =====
-- The numbers of early supporters: each of them is given once, in order, and no more than there are.
use ziona_server.Base.{
  ℕ, suc, ◌+◌, ◌≤◌, ◌≡◌, refl, Bool, true, false, ◌&&◌, Option, none, some, List, ◌==◌, leb, ltb,
  arith, inl, inr, Bool-cases, count_if, lookup, HasKeys, is_some, bit, count_if-update_at,
  lookup-update_at, lookup-update_at_other, update_at-HasKeys, update_at, subst,
}
use ziona_server.Donations.Supporters.{
  SupporterIdentity, SupporterProgramState, Donation, DonationStore, identity_key, program_of,
  early_supporter_limit, save_identity, touched, assign_early_supporter, mark_succeeded,
}

abbrev pub has_number : ℕ → SupporterIdentity → Bool
has_number n x = elim x.early_supporter_number [ none ↦ false | some m ↦ m == n ]

abbrev pub is_early : SupporterIdentity → Bool
is_early x = x.is_early_supporter

-- The numbers below the next one are taken, each once, and no others are; who is early has a number;
-- the counter of the program is the number of early supporters, and there are not too many.
pub record AreNumbered (xs : List SupporterIdentity) (p : SupporterProgramState) : Type 0 where
  pub keyed : HasKeys identity_key xs
  pub matched :
      (i : ℕ) (x : SupporterIdentity)
      → lookup identity_key i xs ≡ some x
      → x.is_early_supporter ≡ is_some x.early_supporter_number
  pub numbered :
      (n : ℕ) → count_if (has_number n) xs ≡ bit (leb 1 n && ltb n p.next_early_supporter_number)
  pub counted : count_if is_early xs ≡ p.assigned_early_supporter_count
  pub in_step : suc p.assigned_early_supporter_count ≡ p.next_early_supporter_number
  pub bounded : p.next_early_supporter_number ≤ suc early_supporter_limit

abbrev pub HasNumbers : DonationStore → Type 0
HasNumbers s = AreNumbered s.identities (program_of s)

same-HasNumbers :
    (s t : DonationStore)
    → s.identities ≡ t.identities
    → s.program ≡ t.program
    → HasNumbers s
    → HasNumbers t
same-HasNumbers s t h k sound =
    subst (λ xs. AreNumbered xs (program_of t)) h
      (subst (λ p. AreNumbered s.identities (program_of (record t { program = p }))) k sound)

-- What a save writes into the row of a supporter.
abbrev written : SupporterIdentity → SupporterIdentity → SupporterIdentity
written y r = record r {
  is_early_supporter = y.is_early_supporter;
  early_supporter_number = y.early_supporter_number;
  first_supported_at = y.first_supported_at;
  last_supported_at = y.last_supported_at;
}

module _ (x y : SupporterIdentity) (xs : List SupporterIdentity) (keyed : HasKeys identity_key xs)
    (row : lookup identity_key x.id xs ≡ some x) where
  abbrev saved : List SupporterIdentity
  saved = update_at identity_key (λ r. true) x.id (written y) xs

  saved-counted :
      (p : SupporterIdentity → Bool)
      → count_if p saved + bit (p x) ≡ count_if p xs + bit (p (written y x))
  saved-counted p =
      count_if-update_at identity_key p (λ r. true) x.id (written y) xs x (keyed x.id) row

  saved-matched :
      y.is_early_supporter ≡ is_some y.early_supporter_number
      → ((i : ℕ) (z : SupporterIdentity)
          → lookup identity_key i xs ≡ some z
          → z.is_early_supporter ≡ is_some z.early_supporter_number)
      → (i : ℕ) (z : SupporterIdentity) → lookup identity_key i saved ≡ some z
      → z.is_early_supporter ≡ is_some z.early_supporter_number
  saved-matched new old i z h = elim (Bool-cases (x.id == i)) [
    | inl same ↦
        ground
          (arith, lookup-update_at identity_key (λ r. true) x.id (written y) xs x (λ r. refl) row)
    | inr other ↦ ground (
      arith,
      old i z,
      lookup-update_at_other identity_key (λ r. true) x.id i (written y) xs (λ r. refl) other,
    )
  ]

  saved-HasKeys : HasKeys identity_key saved
  saved-HasKeys = update_at-HasKeys identity_key (λ r. true) x.id (written y) xs (λ r. refl) keyed

module _ (now : ℕ) (x : SupporterIdentity) (s : DonationStore) (sound : HasNumbers s)
    (row : lookup identity_key x.id s.identities ≡ some x) where
  -- A supporter who has a number keeps it.
  again-HasNumbers : HasNumbers (save_identity (touched now x) s)
  again-HasNumbers = record {
    keyed = saved-HasKeys x (touched now x) s.identities sound.keyed row;
    matched =
        saved-matched x (touched now x) s.identities sound.keyed row (sound.matched x.id x row)
          sound.matched;
    numbered = λ n. ground (
      arith,
      sound.numbered n,
      saved-counted x (touched now x) s.identities sound.keyed row (has_number n),
    );
    counted = ground (
      arith,
      sound.counted,
      saved-counted x (touched now x) s.identities sound.keyed row is_early,
    );
    in_step = sound.in_step;
    bounded = sound.bounded;
  }

  abbrev granted : SupporterIdentity
  granted = record (touched now x) {
    is_early_supporter = true;
    early_supporter_number = some (program_of s).next_early_supporter_number;
  }

  abbrev advanced : SupporterProgramState
  advanced = record {
    next_early_supporter_number = suc (program_of s).next_early_supporter_number;
    assigned_early_supporter_count = suc (program_of s).assigned_early_supporter_count;
  }

  -- A supporter without a number takes the next one.
  granted-AreNumbered :
      x.is_early_supporter ≡ false
      → leb (program_of s).next_early_supporter_number early_supporter_limit ≡ true
      → AreNumbered (save_identity granted s).identities advanced
  granted-AreNumbered late free = record {
    keyed = saved-HasKeys x granted s.identities sound.keyed row;
    matched = saved-matched x granted s.identities sound.keyed row refl sound.matched;
    numbered = λ n. ground (
      arith,
      sound.numbered n,
      sound.matched x.id x row,
      sound.in_step,
      saved-counted x granted s.identities sound.keyed row (has_number n),
    );
    counted =
        ground
          (arith, sound.counted, saved-counted x granted s.identities sound.keyed row is_early);
    in_step = ground (arith, sound.in_step);
    bounded = ground (arith, sound.bounded);
  }

  drawn_store-HasNumbers :
      x.is_early_supporter ≡ false
      → leb (program_of s).next_early_supporter_number early_supporter_limit ≡ true
      → HasNumbers (save_identity granted (record s { program = some advanced }))
  drawn_store-HasNumbers late free = granted-AreNumbered late free

  pub assign_early_supporter-HasNumbers : HasNumbers (assign_early_supporter now x s).1
  unfolding assign_early_supporter
  assign_early_supporter-HasNumbers = elim (Bool-cases x.is_early_supporter) [
    | inl early ↦
        same-HasNumbers (save_identity (touched now x) s) (assign_early_supporter now x s).1
          (ground arith) (ground arith) again-HasNumbers
    | inr late ↦
        elim (Bool-cases (leb (program_of s).next_early_supporter_number early_supporter_limit)) [
          | inl free ↦
              same-HasNumbers (save_identity granted (record s { program = some advanced }))
                (assign_early_supporter now x s).1 (ground arith) (ground arith)
                (drawn_store-HasNumbers late free)
          | inr full ↦
              same-HasNumbers
                (save_identity (touched now x) (record s { program = some (program_of s) }))
                (assign_early_supporter now x s).1 (ground arith) (ground arith) again-HasNumbers
        ]
  ]

-- The identity that a caller holds is a row, if there is one.
abbrev pub IsHeld : Option SupporterIdentity → DonationStore → Type 0
IsHeld none s = Unit
IsHeld (some x) s = lookup identity_key x.id s.identities ≡ some x

mark_succeeded_kept :
    (now : ℕ) (d : Donation) (identity : Option SupporterIdentity) (s : DonationStore)
    → HasNumbers s
    → IsHeld identity s
    → HasNumbers (mark_succeeded now d identity s)
unfolding mark_succeeded
mark_succeeded_kept now d none s sound held =
    same-HasNumbers s (mark_succeeded now d none s) (ground arith) (ground arith) sound
mark_succeeded_kept now d (some x) s sound held =
    same-HasNumbers (assign_early_supporter now x s).1 (mark_succeeded now d (some x) s)
      (ground arith) (ground arith) (assign_early_supporter-HasNumbers now x s sound held)

-- A payment that succeeds, whoever it is from and whatever its donation was before, keeps the numbers
-- of early supporters in order: each number below the next one is held by one supporter, the counter
-- of the program counts them, and there are a thousand of them at most.
pub mark_succeeded-HasNumbers :
    (now : ℕ) (d : Donation) (identity : Option SupporterIdentity) (s : DonationStore)
    → HasNumbers s
    → IsHeld identity s
    → HasNumbers (mark_succeeded now d identity s)
      × (count_if is_early (mark_succeeded now d identity s).identities ≤ 1000)
mark_succeeded-HasNumbers now d identity s sound held =
    let kept = mark_succeeded_kept now d identity s sound held in
    (kept, ground (arith, kept.counted, kept.in_step, kept.bounded))
