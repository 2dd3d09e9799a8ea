-- ===== src/Circles/Members/Governed.antt =====
-- Every circle keeps an admin: `leave_circle` refuses the last one.
use ziona_server.Base.{
  ℕ, ◌≤◌, ◌≡◌, refl, Bool, false, some, List, [], ◌∷◌, ◌==◌, arith, inl, inr, Bool-cases,
  Option-cases, count_if, filter_out, find_first, lookup, count_if-filter_out_le, none_of-count_if,
  filter_out-none,
}
use ziona_server.Circles.Content.{admin, Circle, Membership, circle_key, same_role}
use ziona_server.Circles.State.{CircleStore, CircleEnv, is_member, get_membership}
use ziona_server.Circles.Members.{
  join_circle, leave_circle, create_circle, is_admin_of, perform_call, run_calls, MemberCall, join,
  leave, create,
}
use ziona_server.Circles.Members.Roster.{HasUniqueMembers, other_admins}

abbrev pub HasAdmin : ℕ → CircleStore → Type 0
HasAdmin c s = 1 ≤ count_if (is_admin_of c) s.memberships

-- No user is twice in a circle, and every circle of the table has an admin.
pub record IsGoverned (s : CircleStore) : Type 0 where
  pub unique : HasUniqueMembers s
  pub governed : (i : ℕ) (c : Circle) → lookup circle_key i s.circles ≡ some c → HasAdmin i s

abbrev pub in_circle : ℕ → Membership → Bool
in_circle c m = m.circle_id == c

-- The id that a new circle draws is new: no membership has it.
abbrev pub IsFreshCall : MemberCall → CircleStore → Type 0
IsFreshCall (join e u c) s = Unit {0}
IsFreshCall (leave u c) s = Unit {0}
IsFreshCall (create e u) s = count_if (in_circle e.new_id) s.memberships ≡ 0

abbrev pub AreFreshCalls : List MemberCall → CircleStore → Type 0
AreFreshCalls [] s = Unit {0}
AreFreshCalls (call ∷ calls) s = IsFreshCall call s × AreFreshCalls calls (perform_call call s).1

not_in_circle :
    (c u : ℕ) (ms : List Membership)
    → count_if (in_circle c) ms ≡ 0
    → count_if (is_member c u) ms ≡ 0
not_in_circle c u [] h = refl
not_in_circle c u (m ∷ ms) h = ground (arith, not_in_circle c u ms)

-- Who is in a circle once and is no admin is not counted as one.
plain_kept :
    (c u : ℕ) (ms : List Membership) (m : Membership)
    → count_if (is_member c u) ms ≤ 1
    → find_first (is_member c u) ms ≡ some m
    → same_role m.role admin ≡ false
    → count_if (is_admin_of c) (filter_out (is_member c u) ms) ≡ count_if (is_admin_of c) ms
plain_kept c u [] m one h r = cc
plain_kept c u (x ∷ ms) m one h r = elim (Bool-cases (is_member c u x)) [
  | inl t ↦ ground (arith, filter_out-none (is_member c u) ms)
  | inr f ↦ ground (arith, plain_kept c u ms m)
]

dropped_elsewhere :
    (c d u : ℕ) (ms : List Membership)
    → (c == d) ≡ false
    → count_if (is_admin_of d) (filter_out (is_member c u) ms) ≡ count_if (is_admin_of d) ms
dropped_elsewhere c d u [] n = refl
dropped_elsewhere c d u (x ∷ ms) n = ground (arith, dropped_elsewhere c d u ms n)

leave-HasAdmin :
    (u c i : ℕ) (s : CircleStore)
    → HasUniqueMembers s
    → HasAdmin i s
    → HasAdmin i (leave_circle u c s).1
unfolding leave_circle
leave-HasAdmin u c i s unique h = elim (Option-cases (get_membership c u s)) [
  | inl absent ↦ ground arith
  | inr (m, found) ↦ elim (Bool-cases (c == i)) [
    | inl t ↦
        ground (arith, plain_kept c u s.memberships m, other_admins c u s.memberships, unique c u)
    | inr f ↦ ground (arith, dropped_elsewhere c i u s.memberships f)
  ]
]

leave_unique :
    (u c : ℕ) (s : CircleStore) → HasUniqueMembers s → HasUniqueMembers (leave_circle u c s).1
unfolding leave_circle
leave_unique u c s unique d v = elim (Option-cases (get_membership c u s)) [
  | inl absent ↦ ground (arith, unique d v)
  | inr (m, found) ↦
      ground
        (arith, unique d v, count_if-filter_out_le (is_member d v) (is_member c u) s.memberships)
]

join_unique :
    (e : CircleEnv) (u c : ℕ) (s : CircleStore)
    → HasUniqueMembers s
    → HasUniqueMembers (join_circle e u c s).1
unfolding join_circle
join_unique e u c s unique d v =
    ground (arith, unique d v, none_of-count_if (is_member d v) s.memberships)

create_unique :
    (e : CircleEnv) (u : ℕ) (s : CircleStore)
    → IsFreshCall (create e u) s
    → HasUniqueMembers s
    → HasUniqueMembers (create_circle e u s).1
unfolding create_circle
create_unique e u s fresh unique d v = ground (arith, unique d v, not_in_circle d v s.memberships)

leave-circles : (u c : ℕ) (s : CircleStore) → (leave_circle u c s).1.circles ≡ s.circles
unfolding leave_circle
leave-circles u c s = ground arith

join-governed :
    (e : CircleEnv) (u c i : ℕ) (s : CircleStore) (k : Circle)
    → IsGoverned s
    → lookup circle_key i (join_circle e u c s).1.circles ≡ some k
    → HasAdmin i (join_circle e u c s).1
unfolding join_circle
join-governed e u c i s k g h = ground (arith, g.governed i k)

create-governed :
    (e : CircleEnv) (u i : ℕ) (s : CircleStore) (k : Circle)
    → IsGoverned s
    → lookup circle_key i (create_circle e u s).1.circles ≡ some k
    → HasAdmin i (create_circle e u s).1
unfolding create_circle
create-governed e u i s k g h = ground (arith, g.governed i k)

perform_call-IsGoverned :
    (call : MemberCall) (s : CircleStore)
    → IsFreshCall call s
    → IsGoverned s
    → IsGoverned (perform_call call s).1
unfolding perform_call
perform_call-IsGoverned (join e u c) s fresh g = record {
  unique = join_unique e u c s g.unique;
  governed = λ i k. join-governed e u c i s k g;
}
perform_call-IsGoverned (leave u c) s fresh g = record {
  unique = leave_unique u c s g.unique;
  governed = λ i k h.
      leave-HasAdmin u c i s g.unique (g.governed i k (ground (arith, leave-circles u c s)));
}
perform_call-IsGoverned (create e u) s fresh g = record {
  unique = create_unique e u s fresh g.unique;
  governed = λ i k. create-governed e u i s k g;
}

-- However users found, join and leave circles, no user is twice in a circle and every circle has an
-- admin, if that held before. New circles draw new ids.
pub run_calls-IsGoverned :
    (calls : List MemberCall) (s : CircleStore)
    → AreFreshCalls calls s
    → IsGoverned s
    → IsGoverned (run_calls calls s)
unfolding run_calls
run_calls-IsGoverned [] s fresh g = g
run_calls-IsGoverned (call ∷ calls) s fresh g =
    run_calls-IsGoverned calls (perform_call call s).1 fresh.1
      (perform_call-IsGoverned call s fresh.0 g)
