-- ===== src/Lifecycle/Operations.antt =====
-- Every operation of an administrator keeps the tables sound, whether it succeeds or fails.
use ziona_server.Base.{
  ℕ, ◌≤◌, ◌≡◌, refl, Bool, true, false, none, some, List, arith, inl, inr, Option-cases,
  Result-cases, count_if, strip, ok, subst, sym,
}
use ziona_server.Accounts.User.{User, has_id, get_any_by_id, is_visible}
use ziona_server.Accounts.Store.{Store, ActionEnv, update_user, set_user}
use ziona_server.Accounts.Actions.{revoke_user_sessions}
use ziona_server.Accounts.Effects.{cut_off}
use ziona_server.Accounts.Table.{
  get_any_by_id-update_user, get_any_by_id-id, get_any_by_id-shown, KeepsId,
}
use ziona_server.Admin.Erase.{anonymized, anonymize_user}
use ziona_server.Admin.Guards.{
  Operation, warning, suspension, deletion, reactivation, permanent_deletion, restoration, run,
  lookup, run_err, run_missing,
}
use ziona_server.Admin.Undo.{revoke-users}
use ziona_server.Admin.Users.{
  set_warned, set_suspended, set_deleted, set_reactivated, set_restored, warn_user, suspend_user,
  delete_user, permanently_delete_user, restore_user, reactivate_user, revoke,
}
use ziona_server.Lifecycle.Invariant.{is_sound, IsSound, update_user-IsSound}
use ziona_server.Lifecycle.Steps.{Sound, SameTables, same-Sound, cut_off-IsSound}

-- What an operation writes to the row that it found, but for the cutoff of tokens.
abbrev pub written : Operation → ActionEnv → ℕ → User → User
written (warning reason) a i = set_warned a.env.now
written (suspension reason) a i = set_suspended a.env.now (strip reason)
written deletion a i = set_deleted a.env.now
written reactivation a i = set_reactivated
written (permanent_deletion reason confirmation acknowledged) a i = anonymized i a.env.now
written (restoration reason) a i = set_restored

-- The table after an operation that succeeded.
abbrev pub rewritten : Operation → ActionEnv → ℕ → List User → List User
rewritten (suspension reason) a i users =
    update_user i (cut_off a.env.now) (update_user i (written (suspension reason) a i) users)
rewritten deletion a i users =
    update_user i (cut_off a.env.now) (update_user i (written deletion a i) users)
rewritten (permanent_deletion reason confirmation ack) a i users =
    update_user i (written (permanent_deletion reason confirmation ack) a i)
      (update_user i (cut_off a.env.now) users)
rewritten op a i users = update_user i (written op a i) users

revoke-requests :
    (a : ActionEnv) (i : ℕ) (b : Bool) (s : Store) → (revoke a i b s).requests ≡ s.requests
unfolding revoke_user_sessions
revoke-requests a i b s = ground arith

pub run_rows :
    (op : Operation) (a : ActionEnv) (admin_id i : ℕ) (s t : Store) (u : User)
    → lookup op i s ≡ some u
    → run op a admin_id i s ≡ (ok tt, t)
    → SameTables t (rewritten op a u.id s.world.users) s.requests
unfolding warn_user suspend_user delete_user permanently_delete_user restore_user reactivate_user
    anonymize_user
run_rows (warning reason) a admin_id i s t u e h = ground arith
run_rows (suspension reason) a admin_id i s t u e h =
    let s' = set_user u.id (set_suspended a.env.now (strip reason)) s in
    ground (arith, revoke-users a u.id false s', revoke-requests a u.id false s')
run_rows deletion a admin_id i s t u e h =
    let s' = set_user u.id (set_deleted a.env.now) s in
    ground (arith, revoke-users a u.id true s', revoke-requests a u.id true s')
run_rows reactivation a admin_id i s t u e h = ground arith
run_rows (permanent_deletion reason confirmation ack) a admin_id i s t u e h =
    ground (arith, revoke-users a u.id true s, revoke-requests a u.id true s)
run_rows (restoration reason) a admin_id i s t u e h = ground arith

-- The row that was found is the one of its id.
lookup-any :
    (op : Operation) (i : ℕ) (s : Store) (u : User)
    → count_if (has_id i) s.world.users ≤ 1
    → lookup op i s ≡ some u
    → get_any_by_id i s.world.users ≡ some u
lookup-any (warning reason) i s u one e = (get_any_by_id-shown i is_visible s.world.users u one e).0
lookup-any (suspension reason) i s u one e =
    (get_any_by_id-shown i is_visible s.world.users u one e).0
lookup-any deletion i s u one e = (get_any_by_id-shown i is_visible s.world.users u one e).0
lookup-any reactivation i s u one e = e
lookup-any (permanent_deletion reason confirmation ack) i s u one e = e
lookup-any (restoration reason) i s u one e = e

lookup-row :
    (op : Operation) (i : ℕ) (s : Store) (u : User)
    → count_if (has_id i) s.world.users ≤ 1
    → lookup op i s ≡ some u
    → get_any_by_id u.id s.world.users ≡ some u
lookup-row op i s u one e =
    let found = lookup-any op i s u one e in
    subst (λ k. get_any_by_id k s.world.users ≡ some u)
      (sym (get_any_by_id-id i s.world.users u found)) found

reactivate_user-undeleted :
    (a : ActionEnv) (admin_id i : ℕ) (s t : Store) (u : User)
    → get_any_by_id i s.world.users ≡ some u
    → run reactivation a admin_id i s ≡ (ok tt, t)
    → u.deleted_at ≡ none
unfolding reactivate_user
reactivate_user-undeleted a admin_id i s t u e h = ground arith

-- One update is enough for soundness: `cut_off` keeps it before and after.
module _ (a : ActionEnv) (s : Store) (u : User) (found : get_any_by_id u.id s.world.users ≡ some u)
    (sound : Sound s) where
  written-IsSound :
      (f : User → User)
      → KeepsId f
      → (is_sound s.requests u ≡ true → is_sound s.requests (f u) ≡ true)
      → IsSound (update_user u.id f s.world.users) s.requests
  written-IsSound f keeps k =
      update_user-IsSound u.id f s.world.users s.requests s.requests u keeps (λ j n. refl) found
        sound k

  written_cut_off-IsSound :
      (f : User → User)
      → KeepsId f
      → (is_sound s.requests u ≡ true → is_sound s.requests (f u) ≡ true)
      → IsSound (update_user u.id (cut_off a.env.now) (update_user u.id f s.world.users)) s.requests
  written_cut_off-IsSound f keeps k =
      cut_off-IsSound a.env.now u.id (update_user u.id f s.world.users) s.requests (f u)
        (get_any_by_id-update_user u.id f s.world.users u keeps found) (written-IsSound f keeps k)

  rewritten-IsSound :
      (op : Operation)
      → (op ≡ reactivation → u.deleted_at ≡ none)
      → IsSound (rewritten op a u.id s.world.users) s.requests
  unfolding anonymized
  rewritten-IsSound (warning reason) k =
      written-IsSound (set_warned a.env.now) (λ v. refl) (λ h. ground arith)
  rewritten-IsSound (suspension reason) k =
      written_cut_off-IsSound (set_suspended a.env.now (strip reason)) (λ v. refl)
        (λ h. ground arith)
  rewritten-IsSound deletion k =
      written_cut_off-IsSound (set_deleted a.env.now) (λ v. refl) (λ h. ground arith)
  rewritten-IsSound reactivation k =
      let live = k refl in written-IsSound set_reactivated (λ v. refl) (λ h. ground arith)
  rewritten-IsSound (permanent_deletion reason confirmation ack) k =
      update_user-IsSound u.id (anonymized u.id a.env.now)
        (update_user u.id (cut_off a.env.now) s.world.users) s.requests s.requests
        (cut_off a.env.now u) (λ v. refl) (λ j n. refl)
        (get_any_by_id-update_user u.id (cut_off a.env.now) s.world.users u (λ v. refl) found)
        (cut_off-IsSound a.env.now u.id s.world.users s.requests u found sound) (λ h. ground arith)
  rewritten-IsSound (restoration reason) k =
      written-IsSound set_restored (λ v. refl) (λ h. ground arith)

pub run-Sound :
    (op : Operation) (a : ActionEnv) (admin_id i : ℕ) (s : Store)
    → Sound s
    → Sound (run op a admin_id i s).1
run-Sound op a admin_id i s sound = elim (Result-cases (run op a admin_id i s)) [
  | inr (e, t, h) ↦
      subst (λ p. Sound p.1) (sym h) (subst Sound (sym (run_err op a admin_id i s t e h)) sound)
  | inl (x, t, h) ↦ elim (Option-cases (lookup op i s)) [
    | inl e ↦ absurd (run_missing op a admin_id i s t e h)
    | inr (u, e) ↦
        subst (λ p. Sound p.1) (sym h)
          (same-Sound t _ s.requests (run_rows op a admin_id i s t u e h) (
            rewritten-IsSound a s u (lookup-row op i s u (sound.0 i) e) sound op (λ q.
              reactivate_user-undeleted a admin_id i s t u (subst (λ o. lookup o i s ≡ some u) q e)
                (subst (λ o. run o a admin_id i s ≡ (ok tt, t)) q h))))
  ]
]
