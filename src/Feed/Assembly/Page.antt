-- ===== src/Feed/Assembly/Page.antt =====
-- What `assemble_page` promises of one page.
use ziona_server.Base.{
  ℕ, suc, subst, ◌+◌, ◌≤◌, ◌<◌, max, ◌≡◌, ◌⊎◌, Bool, true, some, List, [], ◌∷◌, arith,
  if◌then◌else◌, length, get_elem?, take,
}
use ziona_server.Feed.Assembly.{
  Post, Assembly, max_carry, fits, step, fill, remove, take_fitting, assemble_page, count_id,
}
use ziona_server.Feed.Assembly.Loop.{Filled, fill-Filled, fill_total}

abbrev start : List Post → Assembly
start carried = record { page = []; waiting = carried; consumed = 0 }

-- The loop of `assemble_page` ends: every call returns a page.
pub assemble_page_total :
    (carried fresh : List Post) (limit : ℕ) (vary : Bool) (kind_run : ℕ)
    → (t : Assembly) × (assemble_page carried fresh limit vary kind_run ≡ some t)
unfolding assemble_page
assemble_page_total carried fresh limit vary kind_run =
    fill_total limit (if vary then kind_run else 0) fresh (suc (limit + length fresh))
      (start carried) (omega arith) (omega arith) (omega arith)

fits_empty : (rule : ℕ) (c : Post) → fits [] rule c ≡ true
unfolding fits
fits_empty rule c = ground arith

first_step :
    (rule : ℕ) (fresh : List Post) (c : Post) (rest : List Post)
    → step rule fresh (start (c ∷ rest))
      ≡ some (record { page = c ∷ []; waiting = rest; consumed = 0 })
unfolding step take_fitting remove
first_step rule fresh c rest = ground (arith, fits_empty rule c)

fill_first :
    (fuel limit rule : ℕ) (fresh : List Post) (c : Post) (rest : List Post) (t : Assembly)
    → 0 < limit
    → fill (suc fuel) limit rule fresh (start (c ∷ rest)) ≡ some t
    → get_elem? t.page 0 ≡ some c
unfolding fill
fill_first fuel limit rule fresh c rest t room h =
    (fill-Filled limit rule fresh fuel (record { page = c ∷ []; waiting = rest; consumed = 0 }) t
        (ground (arith, first_step rule fresh c rest))).keeps
      0 (omega arith)

module _ (carried fresh : List Post) (limit : ℕ) (vary : Bool) (kind_run : ℕ) (t : Assembly)
    (assembled : assemble_page carried fresh limit vary kind_run ≡ some t) where
  filled : Filled limit fresh (start carried) t
  unfolding assemble_page
  filled =
      fill-Filled limit (if vary then kind_run else 0) fresh (suc (limit + length fresh))
        (start carried) t assembled

  -- Nothing is lost and nothing is repeated: every id stands as often on the page and in the new
  -- carry together as in the old carry and the consumed prefix of the fresh candidates together.
  pub assemble_page_partition :
      (i : ℕ)
      → count_id i t.page + count_id i t.waiting
        ≡ count_id i carried + count_id i (take t.consumed fresh)
  assemble_page_partition i = omega (arith, filled.same_ids i)

  -- The page never exceeds the limit, no candidate past the end is consumed, and a page that is
  -- shorter than the limit has used up the carry and all the fresh candidates.
  pub assemble_page_full :
      (length t.page ≤ limit)
      × (t.consumed ≤ length fresh)
      × ((length t.page ≡ limit) ⊎ ((t.waiting ≡ []) × (t.consumed ≡ length fresh)))
  assemble_page_full =
      let f = filled in
      (
        f.page_bound (omega arith),
        f.in_range (omega arith),
        ground (arith, f.ended, f.in_range, f.page_bound),
      )

  -- A held-back post is not starved: the first carried post opens the next page, whatever the
  -- variety rules say.
  pub assemble_page_offers_carried :
      (c : Post) (rest : List Post) → carried ≡ c ∷ rest → 0 < limit → get_elem? t.page 0 ≡ some c
  unfolding assemble_page
  assemble_page_offers_carried c rest e room =
      fill_first (limit + length fresh) limit (if vary then kind_run else 0) fresh c rest t room
        (subst (λ w. assemble_page w fresh limit vary kind_run ≡ some t) e assembled)

  -- The new carry holds at most twelve posts, or no more than the old one held.
  pub assemble_page_carry : length t.waiting ≤ max max_carry (length carried)
  assemble_page_carry = filled.carry_bound
