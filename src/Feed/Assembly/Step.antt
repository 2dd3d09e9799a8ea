-- ===== src/Feed/Assembly/Step.antt =====
-- One round of the loop of `assemble_page`: what it keeps and what it moves.
use ziona_server.Base.{
  ℕ, suc, ◌+◌, ◌≤◌, ◌<◌, max, ◌≡◌, Bool, none, some, List, [], ◌∷◌, arith, ◌==◌, if◌then◌else◌,
  length, get_elem?, take, find_first, length-append, get_elem?-append, count_if-append,
  count_if-take-suc, get_elem?-lt_length, length-le_get_elem?-none, Option-cases, List-cases, subst,
  inl, inr,
}
use ziona_server.Feed.Assembly.{
  Post, Assembly, max_carry, fits, remove, take_fitting, consume, pop_waiting, relax, next_fresh,
  step, count_id,
}

-- What a round does to the ids, over the list of fresh candidates, and to the measure.
pub record Moves (fresh : List Post) (s t : Assembly) : Type 0 where
  pub same_ids :
      (i : ℕ)
      → count_id i t.page + count_id i t.waiting + count_id i (take s.consumed fresh)
        ≡ count_id i s.page + count_id i s.waiting + count_id i (take t.consumed fresh)
  pub in_range : s.consumed ≤ length fresh → t.consumed ≤ length fresh
  pub carry_bound : length t.waiting ≤ max max_carry (length s.waiting)
  pub keeps : (i : ℕ) → i < length s.page → get_elem? t.page i ≡ get_elem? s.page i
  pub page_grows : length s.page ≤ length t.page
  pub page_step : length t.page ≤ length s.page + 1
  pub progress : length s.page + s.consumed < length t.page + t.consumed

count_id-remove :
    (f : Post → Bool) (i : ℕ) (xs : List Post) (c : Post)
    → find_first f xs ≡ some c
    → count_id i xs ≡ count_id i (c ∷ []) + count_id i (remove c.id xs)
unfolding remove
count_id-remove f i [] c h = cc
count_id-remove f i (x ∷ xs) c h = ground (arith, count_id-remove f i xs c)

length-remove :
    (f : Post → Bool) (xs : List Post) (c : Post)
    → find_first f xs ≡ some c
    → length xs ≡ suc (length (remove c.id xs))
unfolding remove
length-remove f [] c h = cc
length-remove f (x ∷ xs) c h = ground (arith, length-remove f xs c)

module _ (fresh : List Post) where
  take_fitting-Moves : (rule : ℕ) (s t : Assembly) → take_fitting rule s ≡ some t → Moves fresh s t
  unfolding take_fitting
  take_fitting-Moves rule s t h = elim (Option-cases (find_first (fits s.page rule) s.waiting)) [
    | inl e ↦ ground arith
    | inr (c, e) ↦ record {
      same_ids = λ i. ground (
        arith,
        count_id-remove (fits s.page rule) i s.waiting c e,
        count_if-append (λ (p : Post). p.id == i) s.page (c ∷ []),
      );
      in_range = λ r. ground arith;
      carry_bound = ground (arith, length-remove (fits s.page rule) s.waiting c e);
      keeps = λ i l. ground (arith, get_elem?-append s.page (c ∷ []) i l);
      page_grows = ground (arith, length-append s.page (c ∷ []));
      page_step = ground (arith, length-append s.page (c ∷ []));
      progress = ground (arith, length-append s.page (c ∷ []));
    }
  ]

  consume-Moves :
      (rule : ℕ) (s : Assembly) (post : Post)
      → length s.waiting < max_carry
      → get_elem? fresh s.consumed ≡ some post
      → Moves fresh s (consume rule s post)
  unfolding consume
  consume-Moves rule s post room e = record {
    same_ids = λ i. ground (
      arith,
      count_if-append (λ (p : Post). p.id == i) s.page (post ∷ []),
      count_if-append (λ (p : Post). p.id == i) s.waiting (post ∷ []),
      count_if-take-suc (λ (p : Post). p.id == i) fresh s.consumed e,
    );
    in_range = λ r. ground (arith, get_elem?-lt_length fresh s.consumed e);
    carry_bound = ground (arith, length-append s.waiting (post ∷ []));
    keeps = λ i l. ground (arith, get_elem?-append s.page (post ∷ []) i l);
    page_grows = ground (arith, length-append s.page (post ∷ []));
    page_step = ground (arith, length-append s.page (post ∷ []));
    progress = ground (arith, length-append s.page (post ∷ []));
  }

  pop_waiting-Moves : (s t : Assembly) → pop_waiting s ≡ some t → Moves fresh s t
  unfolding pop_waiting
  pop_waiting-Moves s t h = elim (List-cases s.waiting) [
    | inl e ↦ ground arith
    | inr (c, rest, e) ↦ record {
      same_ids = λ i. ground (arith, count_if-append (λ (p : Post). p.id == i) s.page (c ∷ []));
      in_range = λ r. ground arith;
      carry_bound = ground arith;
      keeps = λ i l. ground (arith, get_elem?-append s.page (c ∷ []) i l);
      page_grows = ground (arith, length-append s.page (c ∷ []));
      page_step = ground (arith, length-append s.page (c ∷ []));
      progress = ground (arith, length-append s.page (c ∷ []));
    }
  ]

  relax-Moves : (rule : ℕ) (s t : Assembly) → relax rule s ≡ some t → Moves fresh s t
  unfolding relax
  relax-Moves rule s t h = elim (Option-cases (if rule == 0 then none else take_fitting 0 s)) [
    | inl e ↦ pop_waiting-Moves s t (ground arith)
    | inr (u, e) ↦ take_fitting-Moves 0 s t (ground arith)
  ]

  pub step-Moves : (rule : ℕ) (s t : Assembly) → step rule fresh s ≡ some t → Moves fresh s t
  unfolding step
  step-Moves rule s t h = elim (Option-cases (take_fitting rule s)) [
    | inr (u, e) ↦ take_fitting-Moves rule s t (ground arith)
    | inl e ↦ elim (Option-cases (next_fresh fresh s)) [
      | inr (post, f) ↦
          subst (Moves fresh s) (ground arith)
            (consume-Moves rule s post (ground arith) (ground arith))
      | inl f ↦ relax-Moves rule s t (ground arith)
    ]
  ]

  -- The loop breaks only with nothing left: no post waits and no fresh candidate remains.
  pub step_break :
      (rule : ℕ) (s : Assembly)
      → step rule fresh s ≡ none
      → (s.waiting ≡ []) × (length fresh ≤ s.consumed)
  unfolding step relax pop_waiting
  step_break rule s h = elim (Option-cases (get_elem? fresh s.consumed)) [
    | inl e ↦ ground (arith, length-le_get_elem?-none fresh s.consumed e)
    | inr (p, e) ↦ ground arith
  ]
