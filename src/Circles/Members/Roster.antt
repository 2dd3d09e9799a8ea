-- ===== src/Circles/Members/Roster.antt =====
-- What membership promises: each circle has a roster, a finite map from users to roles, and the calls
-- on the table act as the steps of the roster.
use ziona_server.Base.{
  ℕ, ◌+◌, ◌≤◌, ◌<◌, ◌≡◌, ◌≢◌, ◌⊎◌, refl, false, ◌&&◌, Option, none, some, List, [], ◌∷◌, ◌==◌,
  if◌then◌else◌, arith, inl, inr, Bool-cases, count_if, filter_out, find_first, any_of,
  count_if-filter_out_le, Result, ok, err, ==_refl, is_some,
}
use ziona_server.Circles.Content.{CircleRole, member, admin, Membership}
use ziona_server.Circles.State.{
  CircleStore, CircleEnv, CircleError, circle_not_found, already_member, not_member,
  cannot_leave_last_admin, is_member, get_membership,
}
use ziona_server.Circles.Members.{find_circle, is_admin_of, MemberCall, join, leave, create}

-- Users to roles, for every circle.
abbrev pub Roster : Type 0
Roster = ℕ → ℕ → Option CircleRole

abbrev pub set_role : ℕ → ℕ → Option CircleRole → Roster → Roster
set_role c u role r d v = if c == d && u == v then role else r d v

-- An admin besides `u`.
abbrev pub HasOtherAdmin : Roster → ℕ → ℕ → Type 0
HasOtherAdmin r c u = (v : ℕ) × (v ≢ u) × (r c v ≡ some admin)

-- A call, its answer and the rosters before and after it. Only a circle that is open is joined, only
-- by a user who is not in it, and as a member; who leaves is in it, and is no admin or not the only
-- one; a refusal leaves the rosters alone.
pub data RosterStep (s : CircleStore) (r : Roster)
    : MemberCall → Result CircleError (Unit {0}) → Roster → Type 0 where
  joins :
      {e : CircleEnv} {u c : ℕ}
      → find_circle e c s ≢ none
      → r c u ≡ none
      → RosterStep s r (join e u c) (ok tt) (set_role c u (some member) r)
  is_closed :
      {e : CircleEnv} {u c : ℕ}
      → find_circle e c s ≡ none
      → RosterStep s r (join e u c) (err circle_not_found) r
  is_in_already :
      {e : CircleEnv} {u c : ℕ} → r c u ≢ none → RosterStep s r (join e u c) (err already_member) r
  leaves :
      {u c : ℕ}
      → r c u ≢ none
      → (r c u ≢ some admin) ⊎ HasOtherAdmin r c u
      → RosterStep s r (leave u c) (ok tt) (set_role c u none r)
  is_not_in : {u c : ℕ} → r c u ≡ none → RosterStep s r (leave u c) (err not_member) r
  is_last :
      {u c : ℕ}
      → r c u ≡ some admin
      → ((v : ℕ) → r c v ≡ some admin → v ≡ u)
      → RosterStep s r (leave u c) (err cannot_leave_last_admin) r
  founds :
      {e : CircleEnv} {u : ℕ}
      → RosterStep s r (create e u) (ok tt) (set_role e.new_id u (some admin) r)

-- The roster of a table.
abbrev pub role_of : Option Membership → Option CircleRole
role_of none = none
role_of (some m) = some m.role

abbrev pub roster : CircleStore → Roster
roster s c u = role_of (get_membership c u s)

-- The constraint `unique_circle_user_membership`.
abbrev pub HasUniqueMembers : CircleStore → Type 0
HasUniqueMembers s = (c u : ℕ) → count_if (is_member c u) s.memberships ≤ 1

module _ (c u : ℕ) where
  pub find_first-any_of :
      (ms : List Membership) → any_of (is_member c u) ms ≡ is_some (find_first (is_member c u) ms)
  find_first-any_of [] = refl
  find_first-any_of (m ∷ ms) = ground (arith, find_first-any_of ms)

  pub dropped :
      (ms : List Membership) → find_first (is_member c u) (filter_out (is_member c u) ms) ≡ none
  dropped [] = refl
  dropped (m ∷ ms) = ground (arith, dropped ms)

  pub kept :
      (d v : ℕ) (ms : List Membership)
      → (c == d && u == v) ≡ false
      → find_first (is_member d v) (filter_out (is_member c u) ms) ≡ find_first (is_member d v) ms
  kept d v [] n = refl
  kept d v (m ∷ ms) n = ground (arith, kept d v ms)

  -- An admin is counted.
  pub admin_counted :
      (ms : List Membership) (m : Membership)
      → find_first (is_member c u) ms ≡ some m
      → m.role ≡ admin
      → 1 ≤ count_if (is_admin_of c) ms
  admin_counted [] m h r = cc
  admin_counted (x ∷ ms) m h r = ground (arith, admin_counted ms m)

  pub fewer_admins :
      (ms : List Membership) (m : Membership)
      → find_first (is_member c u) ms ≡ some m
      → m.role ≡ admin
      → count_if (is_admin_of c) (filter_out (is_member c u) ms) < count_if (is_admin_of c) ms
  fewer_admins [] m h r = cc
  fewer_admins (x ∷ ms) m h r =
      ground (arith, fewer_admins ms m, count_if-filter_out_le (is_admin_of c) (is_member c u) ms)

  pub other_admins :
      (ms : List Membership)
      → count_if (is_admin_of c) ms
        ≤ count_if (is_admin_of c) (filter_out (is_member c u) ms) + count_if (is_member c u) ms
  other_admins [] = omega arith
  other_admins (x ∷ ms) = ground (arith, other_admins ms)

is_absent :
    (c u : ℕ) (ms : List Membership)
    → count_if (is_member c u) ms ≡ 0
    → find_first (is_member c u) ms ≡ none
is_absent c u [] h = refl
is_absent c u (x ∷ ms) h = ground (arith, is_absent c u ms)

-- Some user is the admin that is counted.
pub admin_found :
    (c : ℕ) (ms : List Membership)
    → ((v : ℕ) → count_if (is_member c v) ms ≤ 1)
    → 1 ≤ count_if (is_admin_of c) ms
    → (v : ℕ) × (role_of (find_first (is_member c v) ms) ≡ some admin)
admin_found c [] k h = absurd (ground arith)
admin_found c (x ∷ ms) k h = elim (Bool-cases (is_admin_of c x)) [
  | inl t ↦ (x.user_id, ground (arith, ==_refl x.user_id))
  | inr f ↦
      let (v, found) = admin_found c ms (λ v. ground (arith, k v)) (ground arith) in
      (v, ground (arith, k v, is_absent c v ms))
]
