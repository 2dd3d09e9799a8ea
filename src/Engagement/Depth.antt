-- ===== src/Engagement/Depth.antt =====
-- How deep a comment stands, and what the loop of `_get_thread_depth` finds of it.
use ziona_server.Base.{
  ℕ, zero, suc, ◌≡◌, ◌⊎◌, refl, true, false, none, some, List, [], ◌∷◌, leb, arith, inl, inr,
  Option-cases, count_if, lookup, has_key, HasKeys, get_where-lookup,
}
use ziona_server.Engagement.State.{Comment, EngagementStore, comment_is_shown, comment_id_of}
use ziona_server.Engagement.Comments.{get_thread_depth, comment_max_thread_depth}

-- At most so many parents stand above a comment, each of them a comment on the same post.
abbrev pub IsWithin : ℕ → List Comment → Comment → Type 0
IsWithin zero cs c = c.parent_comment ≡ none
IsWithin (suc n) cs c =
    (c.parent_comment ≡ none)
    ⊎ ((p : ℕ) × (q : Comment) × (c.parent_comment ≡ some p)
        × (lookup comment_id_of p cs ≡ some q)
        × (q.post_id ≡ c.post_id)
        × IsWithin n cs q)

pub record AreShallow (s : EngagementStore) : Type 0 where
  pub keyed : HasKeys comment_id_of s.comments
  pub within :
      (i : ℕ) (c : Comment)
      → lookup comment_id_of i s.comments ≡ some c
      → IsWithin comment_max_thread_depth s.comments c

-- No comment is deleted, and every author is active.
abbrev pub AreShown : EngagementStore → Type 0
AreShown s =
    (i : ℕ) (c : Comment) → lookup comment_id_of i s.comments ≡ some c → comment_is_shown s c ≡ true

-- A comment whose depth is computed below the limit leaves room for one more, if all show.
pub get_thread_depth-IsWithin :
    (s : EngagementStore) (c : Comment)
    → AreShown s
    → IsWithin 3 s.comments c
    → leb 3 (get_thread_depth s c) ≡ false
    → IsWithin 2 s.comments c
unfolding get_thread_depth
get_thread_depth-IsWithin s c shown (inl top) h = inl top
get_thread_depth-IsWithin s c shown (inr (p, q, up, row, same, inl top)) h =
    inr (p, q, up, row, same, inl top)
get_thread_depth-IsWithin s c shown (inr (p, q, up, row, same, inr (p₂, q₂, up₂, row₂, same₂, r)))
      h =
    inr (p, q, up, row, same, inr (p₂, q₂, up₂, row₂, same₂, top))
  where
    top : q₂.parent_comment ≡ none
    top = elim (Option-cases q₂.parent_comment) [
      | inl none_above ↦ none_above
      | inr (p₃, deep) ↦ absurd (
          ground (
            arith,
            get_where-lookup comment_id_of (comment_is_shown s) p s.comments q row (shown p q row),
            get_where-lookup comment_id_of (comment_is_shown s) p₂ s.comments q₂ row₂
                (shown p₂ q₂ row₂),
          ))
    ]

module _ (new : Comment) (cs : List Comment)
    (fresh : count_if (has_key comment_id_of new.id) cs ≡ 0) where
  no_such_comment :
      (ds : List Comment)
      → count_if (has_key comment_id_of new.id) ds ≡ 0
      → lookup comment_id_of new.id ds ≡ none
  no_such_comment [] h = refl
  no_such_comment (d ∷ ds) h = ground (arith, no_such_comment ds)

  -- A row that was there is still the row of its key.
  pub lookup-fresh :
      (i : ℕ) (c : Comment)
      → lookup comment_id_of i cs ≡ some c
      → lookup comment_id_of i (new ∷ cs) ≡ some c
  lookup-fresh i c h = ground (arith, no_such_comment cs fresh)

  -- A new row leaves the others where they stood.
  pub IsWithin-fresh : (n : ℕ) (c : Comment) → IsWithin n cs c → IsWithin n (new ∷ cs) c
  IsWithin-fresh zero c h = h
  IsWithin-fresh (suc n) c (inl top) = inl top
  IsWithin-fresh (suc n) c (inr (p, q, up, row, same, r)) =
      inr (p, q, up, lookup-fresh p q row, same, IsWithin-fresh n q r)
