-- ===== src/Circles/Members.antt =====
-- core/circles/services/membership.py, access.py and permissions.py: who belongs to a circle.
pub mod Roster
pub mod Refine
pub mod Governed
pub mod Guarded
use ziona_server.Base.{
  ℕ, Bool, true, false, ◌&&◌, not, Option, none, some, List, ◌∷◌, ◌==◌, leb, if◌then◌else◌,
  count_if, filter_out, [], any_of, get_where, ok, err, fail, fail_if, gets, modify, pure,
  in_transaction, ◌>>=◌, ◌>>◌,
}
use ziona_server.Circles.Content.{
  CircleRole, member, admin, Circle, Membership, same_role, is_null, shows_circle, circle_key,
}
use ziona_server.Circles.State.{
  CircleStore, CircleEnv, C, ClientId, circle_not_found, already_member, not_member,
  cannot_leave_last_admin, CircleError, is_member, get_membership,
}

-- `has_circle_membership`
unfoldable pub has_circle_membership : Option ℕ → ℕ → CircleStore → Bool
has_circle_membership none circle_id s = false
has_circle_membership (some user_id) circle_id s =
    any_of (is_member circle_id user_id) s.memberships

-- `require_circle_membership`, with the code to raise.
unfoldable pub require_circle_membership : CircleError → Option ℕ → ℕ → C (Unit {0})
unfolding has_circle_membership
require_circle_membership code user_id circle_id s =
    fail_if (not (has_circle_membership user_id circle_id s)) code s

abbrev pub is_open : (ℕ → Bool) → Circle → Bool
is_open active_user c = shows_circle active_user c && (c.is_active && is_null c.deleted_at)

-- The circle that `Circle.objects.get(id=..., is_active=True, deleted_at__isnull=True)` finds.
abbrev pub find_circle : CircleEnv → ℕ → CircleStore → Option Circle
find_circle e circle_id s = get_where circle_key (is_open e.active_user) circle_id s.circles

abbrev pub require_circle : CircleEnv → ℕ → C Circle
require_circle e circle_id s = elim (find_circle e circle_id s) [
  | none ↦ (err circle_not_found, s)
  | some c ↦ (ok c, s)
]

-- `can_view_circle`, `can_join_circle`
unfoldable pub can_view_circle : CircleEnv → ℕ → CircleStore → Bool
can_view_circle e circle_id s = any_of (λ c. is_open e.active_user c && c.id == circle_id) s.circles

unfoldable pub can_join_circle : CircleEnv → Option ℕ → ℕ → CircleStore → Bool
unfolding can_view_circle
can_join_circle e none circle_id s = false
can_join_circle e (some user_id) circle_id s = can_view_circle e circle_id s

abbrev pub is_circle_admin : Membership → Bool
is_circle_admin m = same_role m.role admin

unfoldable pub can_create_anchor : Option ℕ → ℕ → CircleStore → Bool
can_create_anchor none circle_id s = false
can_create_anchor (some user_id) circle_id s = elim (get_membership circle_id user_id s) [
  | none ↦ false
  | some m ↦ is_circle_admin m
]

abbrev pub add_membership : ℕ → ℕ → CircleRole → CircleStore → CircleStore
add_membership circle_id user_id role s = record s {
  memberships = record { circle_id = circle_id; user_id = user_id; role = role } ∷ s.memberships;
}

unfoldable pub join_circle : CircleEnv → ℕ → ℕ → C (Unit {0})
join_circle e user_id circle_id = in_transaction (do
  require_circle e circle_id
  in_circle ← gets (λ s. any_of (is_member circle_id user_id) s.memberships)
  fail_if in_circle already_member
  modify (add_membership circle_id user_id member))

abbrev pub is_admin_of : ℕ → Membership → Bool
is_admin_of circle_id m = m.circle_id == circle_id && same_role m.role admin

-- The test of `leave_circle` on the member's role and the number of admins.
abbrev pub is_last_admin : ℕ → Membership → CircleStore → Bool
is_last_admin circle_id m s =
    same_role m.role admin && leb (count_if (is_admin_of circle_id) s.memberships) 1

abbrev pub drop_membership : ℕ → ℕ → CircleStore → CircleStore
drop_membership circle_id user_id s = record s {
  memberships = filter_out (is_member circle_id user_id) s.memberships;
}

unfoldable pub leave_circle : ℕ → ℕ → C (Unit {0})
leave_circle user_id circle_id = in_transaction (λ s. elim (get_membership circle_id user_id s) [
  | none ↦ (err not_member, s)
  | some m ↦
      if is_last_admin circle_id m s
      then (err cannot_leave_last_admin, s)
      else (ok tt, drop_membership circle_id user_id s)
])

-- The new circle is active, and its creator becomes its first admin.
abbrev pub add_circle : CircleEnv → ℕ → CircleStore → CircleStore
add_circle e creator_id s = record s {
  circles =
      record { id = e.new_id; is_active = true; created_by = some creator_id; deleted_at = none }
      ∷ s.circles;
}

unfoldable pub create_circle : CircleEnv → ℕ → C (Unit {0})
create_circle e creator_id =
    in_transaction
      (do modify (add_circle e creator_id); modify (add_membership e.new_id creator_id admin))

-- The calls that change who belongs to a circle, and a run of them: a call that raises changes
-- nothing, and the next one follows.
pub data MemberCall : Type 0 where
  join : CircleEnv → ℕ → ℕ → MemberCall
  leave : ℕ → ℕ → MemberCall
  create : CircleEnv → ℕ → MemberCall

unfoldable pub perform_call : MemberCall → C (Unit {0})
unfolding join_circle leave_circle create_circle
perform_call (join e user_id circle_id) = join_circle e user_id circle_id
perform_call (leave user_id circle_id) = leave_circle user_id circle_id
perform_call (create e creator_id) = create_circle e creator_id

unfoldable pub run_calls : List MemberCall → CircleStore → CircleStore
unfolding perform_call
run_calls [] s = s
run_calls (c ∷ calls) s = run_calls calls (perform_call c s).1
