-- ===== src/Circles/Hidden.antt =====
-- core/engagement/hidden_content.py: what a user hides from circles, in a window of 1,000 rows. The
-- cache of hidden ids is left out.
use ziona_server.Base.{
  ℕ, suc, ◌-◌, ◌≤◌, ◌≡◌, refl, Bool, true, false, ◌&&◌, some, List, [], ◌∷◌, ◌==◌, if◌then◌else◌,
  arith, inl, inr, Bool-cases, count_if, any_of, ==_refl,
}
use ziona_server.Circles.Content.{HiddenContent, TargetType, same_target}
use ziona_server.Circles.State.{CircleStore}
use ziona_server.Circles.Comments.{hides, is_hidden}

abbrev pub hidden_content_limit : ℕ
hidden_content_limit = 1000

abbrev pub hidden_by : ℕ → HiddenContent → Bool
hidden_by user_id h = h.user_id == user_id

-- The newest `n` rows of a user stay, of rows with the newest first.
unfoldable pub keep_newest : ℕ → ℕ → List HiddenContent → List HiddenContent
keep_newest n user_id [] = []
keep_newest n user_id (h ∷ rows) =
    let rest = keep_newest (if hidden_by user_id h then n - 1 else n) user_id rows in
    if hidden_by user_id h && n == 0 then rest else h ∷ rest

-- `_trim_hidden_rows`
unfoldable pub trim_hidden_rows : ℕ → List HiddenContent → List HiddenContent
unfolding keep_newest
trim_hidden_rows user_id rows = keep_newest hidden_content_limit user_id rows

-- `hide_circle_content_for_user`
unfoldable pub hide_circle_content_for_user : ℕ → TargetType → ℕ → CircleStore → CircleStore
unfolding trim_hidden_rows
hide_circle_content_for_user user_id type target_id s =
    if any_of (hides user_id type target_id) s.hidden then s else record s {
      hidden =
          trim_hidden_rows user_id
            (record { user_id = user_id; target_type = type; target_id = target_id } ∷ s.hidden);
    }

-- A user has at most 1,000 hidden rows.
abbrev pub IsTrimmed : CircleStore → Type 0
IsTrimmed s = (u : ℕ) → count_if (hidden_by u) s.hidden ≤ hidden_content_limit

keep_newest-le :
    (n u : ℕ) (rows : List HiddenContent) → count_if (hidden_by u) (keep_newest n u rows) ≤ n
unfolding keep_newest
keep_newest-le n u [] = omega arith
keep_newest-le n u (h ∷ rows) =
    ground (arith, keep_newest-le (n - 1) u rows, keep_newest-le n u rows)

keep_newest-others :
    (n u v : ℕ) (rows : List HiddenContent)
    → (u == v) ≡ false
    → count_if (hidden_by v) (keep_newest n u rows) ≡ count_if (hidden_by v) rows
unfolding keep_newest
keep_newest-others n u v [] apart = refl
keep_newest-others n u v (h ∷ rows) apart =
    ground (arith, keep_newest-others (if hidden_by u h then n - 1 else n) u v rows apart)

pub same_target_refl : (t : TargetType) → same_target t t ≡ true
same_target_refl t = ground arith

trimmed_le :
    (n u v : ℕ) (h : HiddenContent) (rows : List HiddenContent)
    → h.user_id ≡ u
    → count_if (hidden_by v) rows ≤ n
    → count_if (hidden_by v) (keep_newest n u (h ∷ rows)) ≤ n
trimmed_le n u v h rows own few = elim (Bool-cases (u == v)) [
  | inl same ↦ ground (arith, keep_newest-le n u (h ∷ rows))
  | inr apart ↦ ground (arith, keep_newest-others n u v (h ∷ rows) apart)
]

hidden_first :
    (n u : ℕ) (type : TargetType) (i : ℕ) (rows : List HiddenContent)
    → any_of
        (hides u type i)
        (keep_newest (suc n) u (record { user_id = u; target_type = type; target_id = i } ∷ rows))
      ≡ true
unfolding keep_newest
hidden_first n u type i rows = ground (arith, ==_refl u, ==_refl i, same_target_refl type)

-- Hiding keeps every user's rows within the limit, and what was just hidden is hidden.
pub hide_circle_content_for_user-IsTrimmed :
    (u : ℕ) (type : TargetType) (i : ℕ) (s : CircleStore)
    → IsTrimmed s
    → IsTrimmed (hide_circle_content_for_user u type i s)
      × (is_hidden (some u) type i (hide_circle_content_for_user u type i s) ≡ true)
unfolding hide_circle_content_for_user trim_hidden_rows
hide_circle_content_for_user-IsTrimmed u type i s trimmed =
    elim (Bool-cases (any_of (hides u type i) s.hidden)) [
      | inl already ↦ (λ v. ground (arith, trimmed v), ground arith)
      | inr new ↦ (
        λ v. ground (
          arith,
          trimmed_le 1000 u v (record { user_id = u; target_type = type; target_id = i }) s.hidden
              refl (trimmed v),
        ),
        ground (arith, hidden_first 999 u type i s.hidden),
      )
    ]
