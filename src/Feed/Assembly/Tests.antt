-- ===== src/Feed/Assembly/Tests.antt =====
-- Pages assembled from small inputs, and the theorems about pages at those inputs.
use ziona_server.Base.{ℕ, ◌+◌, ◌≤◌, ◌≡◌, ◌⊎◌, refl, true, some, List, [], ◌∷◌, length, take}
use ziona_server.Feed.Assembly.{Post, Assembly, assemble_page, step, count_id}
use ziona_server.Feed.Assembly.Page.{
  assemble_page_total, assemble_page_partition, assemble_page_full,
}

abbrev post : ℕ → ℕ → ℕ → Post
post id user_id post_type = record { id = id; user_id = user_id; post_type = post_type }

abbrev carried : List Post
carried = post 1 7 0 ∷ post 2 7 1 ∷ []

-- Two posts by author 7 are carried; the fresh ones are by authors 8 and 9.
abbrev fresh : List Post
fresh = post 3 8 0 ∷ post 4 8 1 ∷ post 5 9 0 ∷ []

abbrev first_page : Assembly
first_page = record { page = post 1 7 0 ∷ post 3 8 0 ∷ post 2 7 1 ∷ []; waiting = []; consumed = 1 }

assembled : assemble_page carried fresh 3 true 2 ≡ some first_page
unfolding assemble_page
assembled = refl

assemble_page_total_example : (t : Assembly) × (assemble_page carried fresh 3 true 2 ≡ some t)
assemble_page_total_example = assemble_page_total carried fresh 3 true 2

assemble_page_partition_example :
    count_id 2 first_page.page + count_id 2 first_page.waiting
    ≡ count_id 2 carried + count_id 2 (take 1 fresh)
assemble_page_partition_example =
    assemble_page_partition carried fresh 3 true 2 first_page assembled 2

assemble_page_full_example :
    (length first_page.page ≤ 3)
    × (first_page.consumed ≤ length fresh)
    × ((length first_page.page ≡ 3)
        ⊎ ((first_page.waiting ≡ []) × (first_page.consumed ≡ length fresh)))
assemble_page_full_example = assemble_page_full carried fresh 3 true 2 first_page assembled

-- One author only: the second post breaks the rules and nothing else is left.
abbrev before : Assembly
before = record { page = post 1 7 0 ∷ []; waiting = post 2 7 1 ∷ []; consumed = 0 }

abbrev after : Assembly
after = record { page = post 1 7 0 ∷ post 2 7 1 ∷ []; waiting = []; consumed = 0 }

stepped : step 2 [] before ≡ some after
unfolding step
stepped = refl
