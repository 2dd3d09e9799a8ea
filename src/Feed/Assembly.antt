-- ===== src/Feed/Assembly.antt =====
-- core/feed/services/assembly.py: `assemble_page` fills a page from the carried and the fresh
-- candidates. Ids, authors and kinds are only compared, so they are numbers. A queryset row is
-- `Post`; Django's `==` on rows is equality of ids.
pub mod Step
pub mod Loop
pub mod Page
pub mod Relax
mod Tests
use ziona_server.Base.{
  ℕ, zero, suc, ◌+◌, ◌-◌, Bool, true, false, not, ◌&&◌, Option, none, some, List, [], ◌∷◌, ◌++◌,
  ltb, leb, ◌==◌, if◌then◌else◌, length, get_elem?, last_n, last?, count_if, all_of, find_first,
}

pub record Post : Type 0 where
  pub id : ℕ
  pub user_id : ℕ
  pub post_type : ℕ

abbrev pub max_carry : ℕ
max_carry = 12

abbrev pub creator_diversity_window : ℕ
creator_diversity_window = 10

abbrev pub creator_diversity_max_per_window : ℕ
creator_diversity_max_per_window = 2

abbrev pub same_author : ℕ → Post → Bool
same_author author item = item.user_id == author

abbrev pub same_kind : ℕ → Post → Bool
same_kind kind item = item.post_type == kind

abbrev pub follows_author : Option Post → ℕ → Bool
follows_author none author = false
follows_author (some item) author = same_author author item

-- `_fits`
unfoldable pub fits : List Post → ℕ → Post → Bool
fits page max_kind_run post =
    if follows_author (last? page) post.user_id
    then false
    else if leb creator_diversity_max_per_window
        (count_if (same_author post.user_id) (last_n (creator_diversity_window - 1) page))
    then false
    else if not (max_kind_run == 0)
        && leb max_kind_run (length page)
        && all_of (same_kind post.post_type) (last_n max_kind_run page)
    then false
    else true

-- The variables of `assemble_page` that its loop changes.
pub record Assembly : Type 0 where
  pub page : List Post
  pub waiting : List Post
  pub consumed : ℕ

-- `waiting.remove(choice)`: the first row with the id of `choice` goes.
unfoldable pub remove : ℕ → List Post → List Post
remove i [] = []
remove i (x ∷ xs) = let rest = remove i xs in elim (x.id == i) [ true ↦ xs | false ↦ x ∷ rest ]

-- The closure `take`: `none` is its `False`.
unfoldable pub take_fitting : ℕ → Assembly → Option Assembly
unfolding fits remove
take_fitting rule s = elim (find_first (fits s.page rule) s.waiting) [
  | none ↦ none
  | some choice ↦
      some (record s { page = s.page ++ choice ∷ []; waiting = remove choice.id s.waiting })
]

-- The next fresh candidate is consumed: shown if it fits, carried if not.
unfoldable pub consume : ℕ → Assembly → Post → Assembly
unfolding fits
consume rule s post =
    if fits s.page rule post
    then record s { page = s.page ++ post ∷ []; consumed = suc s.consumed }
    else record s { waiting = s.waiting ++ post ∷ []; consumed = suc s.consumed }

-- The last resort: `waiting.pop(0)`, or the loop's `break`, which is `none`.
unfoldable pub pop_waiting : Assembly → Option Assembly
pop_waiting s = elim s.waiting [
  | [] ↦ none
  | post ∷ rest ↦ some (record s { page = s.page ++ post ∷ []; waiting = rest })
]

abbrev pub or_else : Option Assembly → Option Assembly → Option Assembly
or_else none y = y
or_else (some a) y = some a

-- What happens when nothing fits and no more may be consumed.
unfoldable pub relax : ℕ → Assembly → Option Assembly
unfolding take_fitting pop_waiting
relax rule s = or_else (if rule == 0 then none else take_fitting 0 s) (pop_waiting s)

-- The choice of a fresh candidate, if the carry has room for one.
abbrev pub next_fresh : List Post → Assembly → Option Post
next_fresh fresh s = if ltb (length s.waiting) max_carry then get_elem? fresh s.consumed else none

-- One round of the `while` loop; `none` is `break`.
unfoldable pub step : ℕ → List Post → Assembly → Option Assembly
unfolding take_fitting consume relax
step rule fresh s =
    or_else (take_fitting rule s)
      (elim (next_fresh fresh s) [ some post ↦ some (consume rule s post) | none ↦ relax rule s ])

-- `while len(page) < limit`, on fuel: `none` means that the fuel ran out.
unfoldable pub fill : ℕ → ℕ → ℕ → List Post → Assembly → Option Assembly
unfolding step
fill zero limit rule fresh s = none
fill (suc fuel) limit rule fresh s =
    if ltb (length s.page) limit
    then elim (step rule fresh s) [ none ↦ some s | some s' ↦ fill fuel limit rule fresh s' ]
    else some s

-- `assemble_page`; `kind_run` is the value of `_max_kind_run()`, from the settings.
unfoldable pub assemble_page : List Post → List Post → ℕ → Bool → ℕ → Option Assembly
unfolding fill
assemble_page carried fresh limit vary_kinds kind_run =
    fill (suc (limit + length fresh)) limit (if vary_kinds then kind_run else 0) fresh
      (record { page = []; waiting = carried; consumed = 0 })

-- How often an id stands in a list.
abbrev pub count_id : ℕ → List Post → ℕ
count_id i = count_if (λ post. post.id == i)
