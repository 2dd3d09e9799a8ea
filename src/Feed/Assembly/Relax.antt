-- ===== src/Feed/Assembly/Relax.antt =====
-- The order in which `assemble_page` relaxes its variety rules.
use ziona_server.Base.{
  ℕ, ◌≤◌, ◌<◌, ◌≡◌, ◌⊎◌, true, false, none, some, List, arith, ◌==◌, length, Option-cases,
  Bool-cases, inl, inr, find_first, last?, last?-snoc, find_first_sound, length-le_get_elem?-none,
}
use ziona_server.Feed.Assembly.{
  Post, Assembly, max_carry, fits, step, take_fitting, consume, relax, next_fresh,
}

take_fitting-fits :
    (rule : ℕ) (s t : Assembly) (shown : Post)
    → take_fitting rule s ≡ some t
    → last? t.page ≡ some shown
    → fits s.page rule shown ≡ true
unfolding take_fitting
take_fitting-fits rule s t shown h last =
    elim (Option-cases (find_first (fits s.page rule) s.waiting)) [
      | inl e ↦ ground arith
      | inr (c, e) ↦
          ground (arith, find_first_sound (fits s.page rule) s.waiting e, last?-snoc s.page c)
    ]

take_fitting-none :
    (rule : ℕ) (s : Assembly)
    → take_fitting rule s ≡ none
    → find_first (fits s.page rule) s.waiting ≡ none
unfolding take_fitting
take_fitting-none rule s h = ground arith

consume-fits :
    (rule : ℕ) (s : Assembly) (post shown : Post)
    → length s.page < length (consume rule s post).page
    → last? (consume rule s post).page ≡ some shown
    → fits s.page rule shown ≡ true
unfolding consume
consume-fits rule s post shown grown last = ground (arith, last?-snoc s.page post)

next_fresh-none :
    (fresh : List Post) (s : Assembly)
    → next_fresh fresh s ≡ none
    → (max_carry ≤ length s.waiting) ⊎ (length fresh ≤ s.consumed)
next_fresh-none fresh s h = ground (arith, length-le_get_elem?-none fresh s.consumed)

relax-fits :
    (rule : ℕ) (s t : Assembly) (shown : Post)
    → relax rule s ≡ some t
    → last? t.page ≡ some shown
    → take_fitting rule s ≡ none
    → (fits s.page 0 shown ≡ true) ⊎ (find_first (fits s.page 0) s.waiting ≡ none)
unfolding relax
relax-fits rule s t shown h last e = elim (Option-cases (take_fitting 0 s)) [
  | inl f ↦ inr (take_fitting-none 0 s f)
  | inr (u, f) ↦ elim (Bool-cases (rule == 0)) [
    | inl z ↦ absurd (ground arith)
    | inr z ↦ inl (take_fitting-fits 0 s t shown (ground arith) last)
  ]
]

-- The rules are relaxed in order of importance. If a round shows a post that breaks the rules, then
-- no waiting post obeys them and no fresh candidate may be consumed; and if the post breaks even
-- the creator rules alone, then so does every waiting post.
pub step_relaxes :
    (rule : ℕ) (fresh : List Post) (s t : Assembly) (shown : Post)
    → step rule fresh s ≡ some t
    → length s.page < length t.page
    → last? t.page ≡ some shown
    → fits s.page rule shown ≡ false
    → (find_first (fits s.page rule) s.waiting ≡ none)
      × ((max_carry ≤ length s.waiting) ⊎ (length fresh ≤ s.consumed))
      × ((fits s.page 0 shown ≡ true) ⊎ (find_first (fits s.page 0) s.waiting ≡ none))
unfolding step
step_relaxes rule fresh s t shown h grown last broken = elim (Option-cases (take_fitting rule s)) [
  | inr (u, e) ↦ absurd (ground (arith, take_fitting-fits rule s t shown))
  | inl e ↦ elim (Option-cases (next_fresh fresh s)) [
    | inr (post, f) ↦ absurd (ground (arith, consume-fits rule s post shown))
    | inl f ↦ (
      take_fitting-none rule s e,
      next_fresh-none fresh s f,
      relax-fits rule s t shown (ground arith) last e,
    )
  ]
]
