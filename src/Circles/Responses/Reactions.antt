-- ===== src/Circles/Responses/Reactions.antt =====
-- The reactions to responses and their counters.
use ziona_server.Base.{
  ℕ, ◌≤◌, ◌≡◌, ◌⊎◌, refl, Bool, true, none, some, List, [], ◌∷◌, ◌==◌, arith, inl, inr, Bool-cases,
  Option-cases, count_if, find_first, Text, ok, lookup, HasKeys, lookup-update_at,
  lookup-update_at_other, update_at-HasKeys, count_if-update_where, subst, sym, count_if-filter_out,
  count_if-filter_out_apart, count_if-filter_out_le,
}
use ziona_server.Circles.Content.{
  AnchorResponse, Reaction, ReactionType, response_key, shows_response, pos, same_reaction,
}
use ziona_server.Circles.State.{CircleStore, CircleEnv, not_circle_member}
use ziona_server.Circles.Members.Guarded.{guarded-cases}
use ziona_server.Circles.Responses.{
  reacted, reaction_up, reaction_down, add_reaction, drop_reaction, change_reaction,
  switch_reaction, read_reaction, require_response, toggle_reaction,
}
use ziona_server.Circles.Responses.Threads.{require_response-ok, require_response-reads}

-- The reactions that a response's counter counts.
abbrev pub reaction_to : ℕ → Reaction → Bool
reaction_to i r = r.response_id == i

-- Every response counts its reactions, and no user reacts twice to a response.
pub record ReactionsTallied (s : CircleStore) : Type 0 where
  pub keyed : HasKeys response_key s.responses
  pub once : (i u : ℕ) → count_if (reacted i u) s.reactions ≤ 1
  pub tallied :
      (i : ℕ) (r : AnchorResponse)
      → lookup response_key i s.responses ≡ some r
      → r.reaction_count ≡ pos (count_if (reaction_to i) s.reactions)

no_reaction :
    (i u : ℕ) (rs : List Reaction)
    → find_first (reacted i u) rs ≡ none
    → count_if (reacted i u) rs ≡ 0
no_reaction i u [] h = refl
no_reaction i u (r ∷ rs) h = ground (arith, no_reaction i u rs)

a_reaction :
    (i u : ℕ) (rs : List Reaction) (r : Reaction)
    → find_first (reacted i u) rs ≡ some r
    → 1 ≤ count_if (reacted i u) rs
a_reaction i u [] r h = cc
a_reaction i u (x ∷ rs) r h = ground (arith, a_reaction i u rs r)

module _ (e : CircleEnv) (u : ℕ) (s : CircleStore) (c : AnchorResponse) (type : ReactionType)
    (found : lookup response_key c.id s.responses ≡ some c)
    (shown : shows_response e.active_user c ≡ true) (sound : ReactionsTallied s) where
  add_tallied :
      (j : ℕ) (d : AnchorResponse)
      → lookup response_key j (add_reaction e type u c.id s).responses ≡ some d
      → d.reaction_count ≡ pos (count_if (reaction_to j) (add_reaction e type u c.id s).reactions)
  add_tallied j d h = elim (Bool-cases (c.id == j)) [
    | inl same ↦ ground (
      arith,
      sound.tallied c.id c found,
      lookup-update_at response_key (shows_response e.active_user) c.id reaction_up s.responses c
          (λ x. refl) found,
    )
    | inr apart ↦ ground (
      arith,
      sound.tallied j d,
      lookup-update_at_other response_key (shows_response e.active_user) c.id j reaction_up
          s.responses (λ x. refl) apart,
    )
  ]

  add-ReactionsTallied :
      find_first (reacted c.id u) s.reactions ≡ none
      → ReactionsTallied (add_reaction e type u c.id s)
  add-ReactionsTallied off = record {
    keyed =
        update_at-HasKeys response_key (shows_response e.active_user) c.id reaction_up s.responses
          (λ x. refl) sound.keyed;
    once = λ j v. ground (arith, sound.once j v, no_reaction c.id u s.reactions off);
    tallied = add_tallied;
  }

  drop_tallied :
      (r : Reaction)
      → find_first (reacted c.id u) s.reactions ≡ some r
      → (j : ℕ) (d : AnchorResponse)
      → lookup response_key j (drop_reaction e u c.id s).responses ≡ some d
      → d.reaction_count ≡ pos (count_if (reaction_to j) (drop_reaction e u c.id s).reactions)
  drop_tallied r on j d h = elim (Bool-cases (c.id == j)) [
    | inl same ↦ ground (
      arith,
      sound.tallied c.id c found,
      sound.once c.id u,
      a_reaction c.id u s.reactions r on,
      count_if-filter_out (reaction_to j) (reacted c.id u) s.reactions (λ l k. ground arith),
      lookup-update_at response_key (shows_response e.active_user) c.id reaction_down s.responses c
          (λ x. refl) found,
    )
    | inr apart ↦ ground (
      arith,
      sound.tallied j d,
      count_if-filter_out_apart (reaction_to j) (reacted c.id u) s.reactions (λ l k. ground arith),
      lookup-update_at_other response_key (shows_response e.active_user) c.id j reaction_down
          s.responses (λ x. refl) apart,
    )
  ]

  drop-ReactionsTallied :
      (r : Reaction)
      → find_first (reacted c.id u) s.reactions ≡ some r
      → ReactionsTallied (drop_reaction e u c.id s)
  drop-ReactionsTallied r on = record {
    keyed =
        update_at-HasKeys response_key (shows_response e.active_user) c.id reaction_down s.responses
          (λ x. refl) sound.keyed;
    once = λ j v.
        ground (
          arith,
          sound.once j v,
          count_if-filter_out_le (reacted j v) (reacted c.id u) s.reactions,
        );
    tallied = drop_tallied r on;
  }

  change-ReactionsTallied : ReactionsTallied (change_reaction e type u c.id s)
  change-ReactionsTallied = record {
    keyed = sound.keyed;
    once = λ j v. ground (
      arith,
      sound.once j v,
      count_if-update_where (reacted j v) (reacted c.id u) (λ r. record r { reaction_type = type })
          s.reactions (λ x t. refl),
    );
    tallied = λ j d h. ground (
      arith,
      sound.tallied j d,
      count_if-update_where (reaction_to j) (reacted c.id u)
          (λ r. record r { reaction_type = type }) s.reactions (λ x t. refl),
    );
  }

  -- No reaction, the same one, or another one.
  switched :
      ((find_first (reacted c.id u) s.reactions ≡ none)
        × ((switch_reaction e type u c.id s).1 ≡ add_reaction e type u c.id s))
      ⊎ ((r : Reaction) × (find_first (reacted c.id u) s.reactions ≡ some r)
          × ((switch_reaction e type u c.id s).1 ≡ drop_reaction e u c.id s))
      ⊎ ((switch_reaction e type u c.id s).1 ≡ change_reaction e type u c.id s)
  switched = elim (Option-cases (find_first (reacted c.id u) s.reactions)) [
    | inl off ↦ inl (off, ground arith)
    | inr (r, on) ↦ elim (Bool-cases (same_reaction r.reaction_type type)) [
      | inl same ↦ inr (inl (r, on, ground arith))
      | inr other ↦ inr (inr (ground arith))
    ]
  ]

  switch-ReactionsTallied : ReactionsTallied (switch_reaction e type u c.id s).1
  switch-ReactionsTallied = elim switched [
    | inl (off, same) ↦ subst ReactionsTallied (sym same) (add-ReactionsTallied off)
    | inr (inl (r, on, same)) ↦ subst ReactionsTallied (sym same) (drop-ReactionsTallied r on)
    | inr (inr same) ↦ subst ReactionsTallied (sym same) change-ReactionsTallied
  ]

toggle_cases :
    (e : CircleEnv) (u i : ℕ) (t : Text) (s : CircleStore)
    → ((toggle_reaction e u i t s).1 ≡ s)
      ⊎ ((type : ReactionType) × (r : AnchorResponse) × (k : ℕ) × (require_response e i s
            ≡ (ok (r, k), s))
          × ((toggle_reaction e u i t s).1 ≡ (switch_reaction e type u r.id s).1))
unfolding toggle_reaction
toggle_cases e u i t s = elim (Option-cases (read_reaction t)) [
  | inl unknown ↦ inl (ground arith)
  | inr (type, known) ↦
      elim (guarded-cases (require_response e i) not_circle_member (some u) (λ f. f.1)
        (λ f. switch_reaction e type u f.0.id) s (require_response-reads e i s)) [
          | inl same ↦ inl (ground arith)
          | inr ((r, k), found, m, same) ↦ inr (type, r, k, found, ground arith)
        ]
]

-- Reactions keep every counter equal to the number of reactions, whatever they answer, and no user
-- has two reactions to a response.
pub toggle_reaction-ReactionsTallied :
    (e : CircleEnv) (u i : ℕ) (t : Text) (s : CircleStore)
    → ReactionsTallied s
    → ReactionsTallied (toggle_reaction e u i t s).1
toggle_reaction-ReactionsTallied e u i t s sound = elim (toggle_cases e u i t s) [
  | inl same ↦ subst ReactionsTallied (sym same) sound
  | inr (type, r, k, found, same) ↦
      let (row, shown) = require_response-ok e i s r k sound.keyed found in
      subst ReactionsTallied (sym same) (switch-ReactionsTallied e u s r type row shown sound)
]
