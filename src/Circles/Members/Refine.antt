-- ===== src/Circles/Members/Refine.antt =====
-- The table of memberships acts as the roster that it stands for.
use ziona_server.Base.{
  ℕ, ◌≤◌, ◌≡◌, ◌≢◌, true, false, ◌&&◌, none, some, List, ◌∷◌, ◌==◌, arith, inl, inr, Bool-cases,
  Option-cases, count_if, filter_out, find_first, any_of, Result, ok, err, ==_refl, subst, sym,
  count_if-filter_out_le,
}
use ziona_server.Circles.Content.{CircleRole, member, admin, Membership, same_role}
use ziona_server.Circles.State.{
  CircleStore, CircleEnv, CircleError, circle_not_found, already_member, not_member,
  cannot_leave_last_admin, is_member, get_membership,
}
use ziona_server.Circles.Members.{
  find_circle, join_circle, leave_circle, create_circle, is_admin_of, perform_call, is_last_admin,
  add_membership, drop_membership, MemberCall, join, leave, create,
}
use ziona_server.Circles.Members.Roster.{
  Roster, set_role, HasOtherAdmin, RosterStep, joins, is_closed, is_in_already, leaves, is_not_in,
  is_last, founds, role_of, roster, HasUniqueMembers, find_first-any_of, dropped, kept,
  admin_counted, fewer_admins, other_admins, admin_found,
}

roster_added :
    (c u : ℕ) (role : CircleRole) (ms : List Membership) (d v : ℕ)
    → role_of (find_first (is_member d v) (record { circle_id = c; user_id = u; role = role } ∷ ms))
      ≡ set_role c u (some role) (λ d v. role_of (find_first (is_member d v) ms)) d v
roster_added c u role ms d v = ground arith

roster_dropped :
    (c u : ℕ) (ms : List Membership) (d v : ℕ)
    → role_of (find_first (is_member d v) (filter_out (is_member c u) ms))
      ≡ set_role c u none (λ d v. role_of (find_first (is_member d v) ms)) d v
roster_dropped c u ms d v = elim (Bool-cases (c == d && u == v)) [
  | inl t ↦ ground (arith, dropped d v ms)
  | inr f ↦ ground (arith, kept c u d v ms f)
]

-- What a call returns, as a step of the rosters.
abbrev pub IsStep : CircleStore → MemberCall → Result CircleError (Unit {0}) × CircleStore → Type 0
IsStep s call (a, t) = RosterStep s (roster s) call a (roster t)

moved :
    {s : CircleStore} {call : MemberCall} {a : Result CircleError (Unit {0})} {r r' r'' : Roster}
    → ((d v : ℕ) → r'' d v ≡ r' d v)
    → RosterStep s r call a r'
    → RosterStep s r call a r''
moved {s} {call} {a} {r} p step = subst (RosterStep s r call a) (sym (λ i d v. p d v i)) step

answered :
    (s : CircleStore) (call : MemberCall) (a : Result CircleError (Unit {0})) (t : CircleStore)
    → perform_call call s ≡ (a, t)
    → RosterStep s (roster s) call a (roster t)
    → IsStep s call (perform_call call s)
answered s call a t p step = subst (IsStep s call) (sym p) step

role_none :
    (c u : ℕ) (s : CircleStore) → any_of (is_member c u) s.memberships ≡ false → roster s c u ≡ none
role_none c u s h = ground (arith, find_first-any_of c u s.memberships)

role_some :
    (c u : ℕ) (s : CircleStore) → any_of (is_member c u) s.memberships ≡ true → roster s c u ≢ none
role_some c u s h k = ground (arith, find_first-any_of c u s.memberships)

join_refines :
    (e : CircleEnv) (u c : ℕ) (s : CircleStore)
    → IsStep s (join e u c) (perform_call (join e u c) s)
unfolding perform_call join_circle
join_refines e u c s = elim (Option-cases (find_circle e c s)) [
  | inl closed ↦ answered s (join e u c) (err circle_not_found) s (ground arith) (is_closed closed)
  | inr (circle, found) ↦ elim (Bool-cases (any_of (is_member c u) s.memberships)) [
    | inl t ↦
        answered s (join e u c) (err already_member) s (ground arith)
          (is_in_already (role_some c u s t))
    | inr f ↦ answered s (join e u c) (ok tt) (add_membership c u member s) (ground arith) (
        moved (roster_added c u member s.memberships)
          (joins (λ k. ground arith) (role_none c u s f)))
  ]
]

create_refines :
    (e : CircleEnv) (u : ℕ) (s : CircleStore) → IsStep s (create e u) (perform_call (create e u) s)
unfolding perform_call create_circle
create_refines e u s = moved (roster_added e.new_id u admin s.memberships) founds

other_role :
    (c u v : ℕ) (ms : List Membership)
    → role_of (find_first (is_member c v) (filter_out (is_member c u) ms)) ≡ some admin
    → (v ≢ u) × (role_of (find_first (is_member c v) ms) ≡ some admin)
other_role c u v ms h = elim (Bool-cases (c == c && u == v)) [
  | inl t ↦ absurd (ground (arith, dropped c v ms))
  | inr f ↦ ((λ k. ground (arith, ==_refl c)), ground (arith, kept c u c v ms f))
]

-- An admin besides the only one makes two.
only_admin :
    (c u v : ℕ) (ms : List Membership)
    → count_if (is_admin_of c) ms ≤ 1
    → role_of (find_first (is_member c u) ms) ≡ some admin
    → role_of (find_first (is_member c v) ms) ≡ some admin
    → v ≡ u
only_admin c u v ms one hu hv = elim (Bool-cases (c == c && u == v)) [
  | inl t ↦ ground arith
  | inr f ↦ elim (Option-cases (find_first (is_member c u) ms)) [
    | inl absent ↦ absurd (ground arith)
    | inr (m, found) ↦ elim (Option-cases (find_first (is_member c v) ms)) [
      | inl absent ↦ absurd (ground arith)
      | inr (n, other) ↦ absurd (
          ground (
            arith,
            fewer_admins c u ms m,
            kept c u c v ms f,
            admin_counted c v (filter_out (is_member c u) ms) n,
          ))
    ]
  ]
]

-- A circle with two admins has one besides `u`.
another_admin :
    (c u : ℕ) (s : CircleStore)
    → HasUniqueMembers s
    → 2 ≤ count_if (is_admin_of c) s.memberships
    → HasOtherAdmin (roster s) c u
another_admin c u s unique two =
    let others = filter_out (is_member c u) s.memberships in
    let (v, found) =
      admin_found c others
        (λ v.
          omega (
            arith,
            count_if-filter_out_le (is_member c v) (is_member c u) s.memberships,
            unique c v,
          ))
        (omega (arith, other_admins c u s.memberships, unique c u)) in
    let (apart, role) = other_role c u v s.memberships found in (v, apart, role)

leave_refines :
    (u c : ℕ) (s : CircleStore)
    → HasUniqueMembers s
    → IsStep s (leave u c) (perform_call (leave u c) s)
unfolding perform_call leave_circle
leave_refines u c s unique = elim (Option-cases (get_membership c u s)) [
  | inl absent ↦ answered s (leave u c) (err not_member) s (ground arith) (is_not_in (ground arith))
  | inr (m, found) ↦ elim (Bool-cases (is_last_admin c m s)) [
    | inl last ↦
        answered s (leave u c) (err cannot_leave_last_admin) s (ground arith) (
          is_last (ground arith)
            (λ v. only_admin c u v s.memberships (ground arith) (ground arith)))
    | inr more ↦ answered s (leave u c) (ok tt) (drop_membership c u s) (ground arith) (
        moved (roster_dropped c u s.memberships) (
          leaves (λ k. ground arith)
            (elim (Bool-cases (same_role m.role admin)) [
              | inl t ↦ inr (another_admin c u s unique (ground arith))
              | inr f ↦ inl (λ k. ground arith)
            ])))
  ]
]

-- The memberships refine the rosters: what a call answers and does to the table is a step of the
-- rosters that the table stands for, if no user is twice in a circle.
pub perform_refines :
    (call : MemberCall) (s : CircleStore) → HasUniqueMembers s → IsStep s call (perform_call call s)
perform_refines (join e u c) s unique = join_refines e u c s
perform_refines (leave u c) s unique = leave_refines u c s unique
perform_refines (create e u) s unique = create_refines e u s
