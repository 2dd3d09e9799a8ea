-- ===== src/Circles/Reports/Threshold.antt =====
-- Three reporters hide what they report, fewer do not, and nobody counts twice.
use ziona_server.Base.{
  ℕ, suc, ◌≤◌, ◌<◌, ◌≡◌, refl, Bool, true, false, ◌&&◌, none, some, List, [], ◌∷◌, ◌==◌, leb,
  if◌then◌else◌, arith, inl, inr, Bool-cases, Option-cases, count_if, any_of, ap, ◌∙◌, Text,
  get_where, update_where, subst, sym, ==_refl, none_of-count_if,
}
use ziona_server.Circles.Content.{
  TargetType, anchor, response, circle, post, comment, CircleReport, shows_anchor, shows_response,
  shows_post, shows_comment, anchor_key, response_key, post_key, comment_key, shows_circle,
}
use ziona_server.Circles.State.{CircleStore, CircleEnv}
use ziona_server.Circles.Hidden.{hide_circle_content_for_user, same_target_refl}
use ziona_server.Circles.Reports.{
  reports_on, reported_by, count_distinct, reporters, auto_hide_content, add_report, file_report,
}

-- The constraint `unique_reporter_target`.
abbrev pub HasUniqueReports : CircleStore → Type 0
HasUniqueReports s =
    (u : ℕ) (type : TargetType) (i : ℕ) → count_if (reported_by u type i) s.reports ≤ 1

-- Whether a target shows to anybody.
abbrev pub is_shown : CircleEnv → TargetType → ℕ → CircleStore → Bool
is_shown e anchor i s = any_of (λ a. shows_anchor e.active_user a && a.id == i) s.anchors
is_shown e response i s = any_of (λ r. shows_response e.active_user r && r.id == i) s.responses
is_shown e post i s = any_of (λ p. shows_post e.active_user p && p.id == i) s.posts
is_shown e comment i s = any_of (λ c. shows_comment e.active_user c && c.id == i) s.comments
is_shown e circle i s = any_of (λ c. shows_circle e.active_user c && c.id == i) s.circles

-- The tables of content are the same.
abbrev pub SameContent : CircleStore → CircleStore → Type 0
SameContent s t =
    (t.circles ≡ s.circles)
    × (t.anchors ≡ s.anchors)
    × (t.responses ≡ s.responses)
    × (t.posts ≡ s.posts)
    × (t.comments ≡ s.comments)

-- What the third reporter does: nobody sees the content any more, but circles stay.
abbrev pub IsTakenDown : CircleEnv → TargetType → ℕ → CircleStore → CircleStore → Type 0
IsTakenDown e circle i s t = SameContent s t
IsTakenDown e anchor i s t = is_shown e anchor i t ≡ false
IsTakenDown e response i s t = is_shown e response i t ≡ false
IsTakenDown e post i s t = is_shown e post i t ≡ false
IsTakenDown e comment i s t = is_shown e comment i t ≡ false

-- Rows deleted by key show no more.
module _ {A : Type 0} (key : A → ℕ) (shows : A → Bool) (i : ℕ) where
  deleted_all :
      (delete : A → A) (xs : List A)
      → ((x : A) → shows (delete x) ≡ false)
      → ((x : A) → (key (delete x) == i) ≡ (key x == i))
      → any_of (λ x. shows x && key x == i) (update_where (λ x. key x == i) delete xs) ≡ false
  deleted_all delete [] gone same = refl
  deleted_all delete (x ∷ xs) gone same = ground (arith, deleted_all delete xs gone same, gone x)

  absent_all :
      (xs : List A)
      → get_where key shows i xs ≡ none
      → any_of (λ x. shows x && key x == i) xs ≡ false
  absent_all [] h = refl
  absent_all (x ∷ xs) h = ground (arith, absent_all xs)

auto_hide_content-IsTakenDown :
    (e : CircleEnv) (type : TargetType) (i : ℕ) (r s : CircleStore)
    → SameContent r s
    → IsTakenDown e type i r (auto_hide_content e type i s)
unfolding auto_hide_content
auto_hide_content-IsTakenDown e anchor i r s same =
    elim (Option-cases (get_where anchor_key (shows_anchor e.active_user) i s.anchors)) [
      | inl absent ↦ ground (arith, absent_all anchor_key (shows_anchor e.active_user) i s.anchors)
      | inr (a, found) ↦ ground (
        arith,
        deleted_all anchor_key (shows_anchor e.active_user) i
            (λ x. record x { deleted_at = some e.now }) s.anchors (λ x. ground arith) (λ x. refl),
      )
    ]
auto_hide_content-IsTakenDown e response i r s same =
    elim (Option-cases (get_where response_key (shows_response e.active_user) i s.responses)) [
      | inl absent ↦
          ground (arith, absent_all response_key (shows_response e.active_user) i s.responses)
      | inr (r, found) ↦ ground (
        arith,
        deleted_all response_key (shows_response e.active_user) i
            (λ x. record x { deleted_at = some e.now }) s.responses (λ x. ground arith) (λ x. refl),
      )
    ]
auto_hide_content-IsTakenDown e post i r s same =
    elim (Option-cases (get_where post_key (shows_post e.active_user) i s.posts)) [
      | inl absent ↦ ground (arith, absent_all post_key (shows_post e.active_user) i s.posts)
      | inr (p, found) ↦ ground (
        arith,
        deleted_all post_key (shows_post e.active_user) i
            (λ x. record x { deleted_at = some e.now }) s.posts (λ x. ground arith) (λ x. refl),
      )
    ]
auto_hide_content-IsTakenDown e comment i r s same =
    elim (Option-cases (get_where comment_key (shows_comment e.active_user) i s.comments)) [
      | inl absent ↦
          ground (arith, absent_all comment_key (shows_comment e.active_user) i s.comments)
      | inr (c, found) ↦ ground (
        arith,
        deleted_all comment_key (shows_comment e.active_user) i
            (λ x. record x { deleted_at = some e.now }) s.comments (λ x. ground arith) (λ x. refl),
      )
    ]
auto_hide_content-IsTakenDown e circle i r s same = same

a_reporter :
    (u : ℕ) (type : TargetType) (i : ℕ) (rs : List CircleReport)
    → any_of (λ y. y == u) (reporters type i rs) ≡ true
    → 1 ≤ count_if (reported_by u type i) rs
a_reporter u type i [] h = cc
a_reporter u type i (r ∷ rs) h = ground (arith, a_reporter u type i rs)

-- With one report each, distinct reporters are reports.
count_distinct-reporters :
    (type : TargetType) (i : ℕ) (rs : List CircleReport)
    → ((u : ℕ) → count_if (reported_by u type i) rs ≤ 1)
    → count_distinct (reporters type i rs) ≡ count_if (reports_on type i) rs
unfolding count_distinct
count_distinct-reporters type i [] once = refl
count_distinct-reporters type i (r ∷ rs) once = ground (
  arith,
  count_distinct-reporters type i rs (λ u. ground (arith, once u)),
  a_reporter r.reporter_id type i rs,
  once r.reporter_id,
  ==_refl r.reporter_id,
)

auto_hide-reports :
    (e : CircleEnv) (type : TargetType) (i : ℕ) (s : CircleStore)
    → (auto_hide_content e type i s).reports ≡ s.reports
unfolding auto_hide_content
auto_hide-reports e anchor i s = ground arith
auto_hide-reports e response i s = ground arith
auto_hide-reports e post i s = ground arith
auto_hide-reports e comment i s = ground arith
auto_hide-reports e circle i s = refl

pub if-true : {A : Type 0} (b : Bool) (x y : A) → b ≡ true → (if b then x else y) ≡ x
if-true b x y h = ground arith

pub if-false : {A : Type 0} (b : Bool) (x y : A) → b ≡ false → (if b then x else y) ≡ y
if-false b x y h = ground arith

module _ (e : CircleEnv) (u c : ℕ) (type : TargetType) (i : ℕ) (reason : Text) (s : CircleStore)
    (unique : HasUniqueReports s) (new : any_of (reported_by u type i) s.reports ≡ false) where
  filed : CircleStore
  filed = hide_circle_content_for_user u type i (add_report e u c type i reason s)

  filed_reports : filed.reports ≡ (add_report e u c type i reason s).reports
  unfolding filed hide_circle_content_for_user
  filed_reports = ground arith

  filed_same : SameContent s filed
  unfolding filed hide_circle_content_for_user
  filed_same = (ground arith, ground arith, ground arith, ground arith, ground arith)

  filed_once :
      (v : ℕ) → count_if (reported_by v type i) (add_report e u c type i reason s).reports ≤ 1
  filed_once v =
      ground (arith, unique v type i, none_of-count_if (reported_by u type i) s.reports new)

  filed_count :
      count_distinct (reporters type i filed.reports) ≡ suc (count_if (reports_on type i) s.reports)
  filed_count =
      ap (λ rs. count_distinct (reporters type i rs)) filed_reports
      ∙ (count_distinct-reporters type i (add_report e u c type i reason s).reports filed_once
          ∙ ground (arith, same_target_refl type, ==_refl i))

  file_report_as : file_report e u c type i reason s ≡ (
      if leb 3 (count_distinct (reporters type i filed.reports))
      then auto_hide_content e type i filed
      else filed)
  unfolding filed
  file_report_as = refl

  file_report_few :
      suc (count_if (reports_on type i) s.reports) < 3 → file_report e u c type i reason s ≡ filed
  file_report_few few =
      file_report_as
      ∙ if-false (leb 3 (count_distinct (reporters type i filed.reports))) _ _
          (ground (arith, filed_count))

  file_report_many :
      3 ≤ suc (count_if (reports_on type i) s.reports)
      → file_report e u c type i reason s ≡ auto_hide_content e type i filed
  file_report_many many =
      file_report_as
      ∙ if-true (leb 3 (count_distinct (reporters type i filed.reports))) _ _
          (ground (arith, filed_count))

  -- Below three reporters the content stays; from the third on it is taken down, a circle excepted.
  pub file_report_lem :
      (suc (count_if (reports_on type i) s.reports) < 3
        → SameContent s (file_report e u c type i reason s))
      × (3 ≤ suc (count_if (reports_on type i) s.reports)
          → IsTakenDown e type i s (file_report e u c type i reason s))
  file_report_lem = (
    (λ few. subst (SameContent s) (sym (file_report_few few)) filed_same),
    (λ many.
        subst (IsTakenDown e type i s) (sym (file_report_many many))
          (auto_hide_content-IsTakenDown e type i s filed filed_same)),
  )

  pub file_reports :
      (file_report e u c type i reason s).reports ≡ (add_report e u c type i reason s).reports
  file_reports = elim (Bool-cases (leb 3 (count_distinct (reporters type i filed.reports)))) [
    | inl many ↦
        ap (λ t. t.reports) (file_report_as ∙ if-true _ _ _ many)
        ∙ (auto_hide-reports e type i filed ∙ filed_reports)
    | inr few ↦ ap (λ t. t.reports) (file_report_as ∙ if-false _ _ _ few) ∙ filed_reports
  ]
