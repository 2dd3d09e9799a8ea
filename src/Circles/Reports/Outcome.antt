-- ===== src/Circles/Reports/Outcome.antt =====
-- What a report does that is taken.
use ziona_server.Base.{
  ℕ, suc, ◌≤◌, ◌<◌, ◌≡◌, ◌⊎◌, refl, true, false, none, some, arith, inl, inr, Bool-cases,
  Option-cases, Result-cases, count_if, any_of, Text, ok, subst, sym, ap, ◌∙◌, ==_refl,
}
use ziona_server.Circles.Content.{TargetType}
use ziona_server.Circles.State.{CircleStore, CircleEnv, ClientId}
use ziona_server.Circles.Members.{has_circle_membership, require_circle_membership}
use ziona_server.Circles.Hidden.{hide_circle_content_for_user, same_target_refl}
use ziona_server.Circles.Reports.{
  reports_on, reported_by, file_report, submit_report, report_circle_content, has_target,
  read_target_type, require_circle_row,
}
use ziona_server.Circles.Reports.Threshold.{
  HasUniqueReports, SameContent, file_report_lem, file_reports, if-true, if-false, IsTakenDown,
}

-- A report that is taken was on a target of the circle, and its reporter is a member.
reported :
    (e : CircleEnv) (u : ℕ) (target_type reason : Text) (target circle_id : ClientId)
    (s t : CircleStore)
    → report_circle_content e u target_type target reason circle_id s ≡ (ok tt, t)
    → (type : TargetType) × (c : ℕ) × (i : ℕ) × (target ≡ some i)
      × (circle_id ≡ some c)
      × (read_target_type target_type ≡ some type)
      × (has_circle_membership (some u) c s ≡ true)
      × (has_target e type i c s ≡ true)
      × (t ≡ submit_report e u c type i reason s)
unfolding report_circle_content require_circle_membership
reported e u target_type reason none none s t h = absurd (ground arith)
reported e u target_type reason none (some c) s t h = absurd (ground arith)
reported e u target_type reason (some i) none s t h = absurd (ground arith)
reported e u target_type reason (some i) (some c) s t h =
    elim (Option-cases (read_target_type target_type)) [
      | inl unknown ↦ absurd (ground arith)
      | inr (type, known) ↦ elim (Result-cases (require_circle_row e c s)) [
        | inr (x, t', lost) ↦ absurd (ground arith)
        | inl (k, t', found) ↦ elim (Bool-cases (has_circle_membership (some u) c s)) [
          | inr outside ↦ absurd (ground arith)
          | inl inside ↦ elim (Bool-cases (has_target e type i c s)) [
            | inr absent ↦ absurd (ground arith)
            | inl there ↦ (type, c, i, refl, refl, known, inside, there, ground arith)
          ]
        ]
      ]
    ]

hidden-reports :
    (u : ℕ) (type : TargetType) (i : ℕ) (s : CircleStore)
    → (hide_circle_content_for_user u type i s).reports ≡ s.reports
unfolding hide_circle_content_for_user
hidden-reports u type i s = ground arith

-- The report was on file already, or it is one more.
abbrev pub Counts : CircleEnv → ℕ → TargetType → ℕ → CircleStore → CircleStore → Type 0
Counts e u type i s t =
    ((any_of (reported_by u type i) s.reports ≡ true)
      × (t ≡ hide_circle_content_for_user u type i s))
    ⊎ ((any_of (reported_by u type i) s.reports ≡ false)
        × (count_if (reports_on type i) t.reports ≡ suc (count_if (reports_on type i) s.reports))
        × (count_if (reports_on type i) t.reports < 3 → SameContent s t)
        × (3 ≤ count_if (reports_on type i) t.reports → IsTakenDown e type i s t))

module _ (e : CircleEnv) (u c : ℕ) (type : TargetType) (i : ℕ) (reason : Text) (s : CircleStore)
    (unique : HasUniqueReports s) where
  filed-Counts :
      any_of (reported_by u type i) s.reports ≡ false
      → Counts e u type i s (file_report e u c type i reason s)
  filed-Counts new =
      let (few, many) = file_report_lem e u c type i reason s unique new in
      let count : count_if (reports_on type i) (file_report e u c type i reason s).reports
          ≡ suc (count_if (reports_on type i) s.reports) =
        ap (count_if (reports_on type i)) (file_reports e u c type i reason s unique new)
        ∙ ground (arith, same_target_refl type, ==_refl i) in
      inr (new, count, (λ h. few (omega (arith, count, h))), (λ h. many (omega (arith, count, h))))

  submit_report_new :
      any_of (reported_by u type i) s.reports ≡ false
      → submit_report e u c type i reason s ≡ file_report e u c type i reason s
  unfolding submit_report
  submit_report_new new = if-false (any_of (reported_by u type i) s.reports) _ _ new

  submit_report_again :
      any_of (reported_by u type i) s.reports ≡ true
      → submit_report e u c type i reason s ≡ hide_circle_content_for_user u type i s
  unfolding submit_report
  submit_report_again again = if-true (any_of (reported_by u type i) s.reports) _ _ again

  submitted : Counts e u type i s (submit_report e u c type i reason s)
  submitted = elim (Bool-cases (any_of (reported_by u type i) s.reports)) [
    | inl again ↦ inl (again, submit_report_again again)
    | inr new ↦ subst (Counts e u type i s) (sym (submit_report_new new)) (filed-Counts new)
  ]

-- A report that is taken names a kind of target, a target and a circle; it comes from a member of that
-- circle, and the target is in it. If the reporter had reported it before, the report only hides it
-- from the reporter. Otherwise it counts as one reporter more: below three the content stays as it
-- was, and from the third on nobody sees an anchor, response, post or comment that was reported; a
-- circle stays as it was. No user had two reports on one thing before.
pub report_circle_content_lem :
    (e : CircleEnv) (u : ℕ) (target_type reason : Text) (target circle_id : ClientId)
    (s t : CircleStore)
    → HasUniqueReports s
    → report_circle_content e u target_type target reason circle_id s ≡ (ok tt, t)
    → (type : TargetType) × (c : ℕ) × (i : ℕ) × (read_target_type target_type ≡ some type)
      × (circle_id ≡ some c)
      × (target ≡ some i)
      × (has_circle_membership (some u) c s ≡ true)
      × (has_target e type i c s ≡ true)
      × Counts e u type i s t
report_circle_content_lem e u target_type reason target circle_id s t unique h =
    let (type, c, i, same, in_circle, known, inside, there, done) =
      reported e u target_type reason target circle_id s t h in
    (
      type,
      c,
      i,
      known,
      in_circle,
      same,
      inside,
      there,
      subst (Counts e u type i s) (sym done) (submitted e u c type i reason s unique),
    )
