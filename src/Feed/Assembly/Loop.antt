-- ===== src/Feed/Assembly/Loop.antt =====
-- The loop of `assemble_page`: it ends, and what holds when it has ended.
use ziona_server.Base.{
  ℕ, zero, suc, ◌+◌, ◌≤◌, ◌<◌, max, ◌≡◌, ◌⊎◌, refl, some, List, [], arith, ltb, length, get_elem?,
  take, subst, Option-cases, Bool-cases, inl, inr, ◌∙◌,
}
use ziona_server.Feed.Assembly.{Post, Assembly, max_carry, step, fill, count_id}
use ziona_server.Feed.Assembly.Step.{Moves, step-Moves, step_break}

-- What the loop has done between two states, and that it has ended.
pub record Filled (limit : ℕ) (fresh : List Post) (s t : Assembly) : Type 0 where
  pub same_ids :
      (i : ℕ)
      → count_id i t.page + count_id i t.waiting + count_id i (take s.consumed fresh)
        ≡ count_id i s.page + count_id i s.waiting + count_id i (take t.consumed fresh)
  pub in_range : s.consumed ≤ length fresh → t.consumed ≤ length fresh
  pub carry_bound : length t.waiting ≤ max max_carry (length s.waiting)
  pub keeps : (i : ℕ) → i < length s.page → get_elem? t.page i ≡ get_elem? s.page i
  pub page_bound : length s.page ≤ limit → length t.page ≤ limit
  pub ended : (limit ≤ length t.page) ⊎ ((t.waiting ≡ []) × (length fresh ≤ t.consumed))

module _ (limit rule : ℕ) (fresh : List Post) where
  here-Filled :
      (s : Assembly)
      → (limit ≤ length s.page) ⊎ ((s.waiting ≡ []) × (length fresh ≤ s.consumed))
      → Filled limit fresh s s
  here-Filled s e = record {
    same_ids = λ i. refl;
    in_range = λ r. r;
    carry_bound = omega arith;
    keeps = λ i l. refl;
    page_bound = λ r. r;
    ended = e;
  }

  then-Filled :
      (s u t : Assembly)
      → length s.page < limit
      → Moves fresh s u
      → Filled limit fresh u t
      → Filled limit fresh s t
  then-Filled s u t room m f = record {
    same_ids = λ i. omega (arith, m.same_ids i, f.same_ids i);
    in_range = λ r. f.in_range (m.in_range r);
    carry_bound = omega arith;
    keeps = λ i l. f.keeps i (omega (arith, m.page_grows)) ∙ m.keeps i l;
    page_bound = λ r. f.page_bound (omega arith);
    ended = f.ended;
  }

  pub fill-Filled :
      (fuel : ℕ) (s t : Assembly) → fill fuel limit rule fresh s ≡ some t → Filled limit fresh s t
  unfolding fill
  fill-Filled zero s t h = cc
  fill-Filled (suc fuel) s t h = elim (Bool-cases (ltb (length s.page) limit)) [
    | inr full ↦ subst (Filled limit fresh s) (ground arith) (here-Filled s (inl (ground arith)))
    | inl room ↦ elim (Option-cases (step rule fresh s)) [
      | inl e ↦
          subst (Filled limit fresh s) (ground arith)
            (here-Filled s (inr (step_break fresh rule s e)))
      | inr (u, e) ↦
          then-Filled s u t (ground arith) (step-Moves fresh rule s u e)
            (fill-Filled fuel u t (ground arith))
    ]
  ]

  -- Enough fuel: the places left on the page and the candidates left.
  pub fill_total :
      (fuel : ℕ) (s : Assembly)
      → length s.page ≤ limit
      → s.consumed ≤ length fresh
      → limit + length fresh < fuel + length s.page + s.consumed
      → (t : Assembly) × (fill fuel limit rule fresh s ≡ some t)
  unfolding fill
  fill_total zero s p c h = absurd (omega arith)
  fill_total (suc fuel) s p c h = elim (Bool-cases (ltb (length s.page) limit)) [
    | inr full ↦ (s, ground arith)
    | inl room ↦ elim (Option-cases (step rule fresh s)) [
      | inl e ↦ (s, ground arith)
      | inr (u, e) ↦
          let m = step-Moves fresh rule s u e in
          let (t, r) =
            fill_total fuel u (ground (arith, m.page_step)) (m.in_range c)
              (omega (arith, m.progress)) in
          (t, ground (arith, r))
    ]
  ]
