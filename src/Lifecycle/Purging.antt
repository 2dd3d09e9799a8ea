-- ===== src/Lifecycle/Purging.antt =====
-- A run of the purge keeps the tables sound.
use ziona_server.Base.{
  ℕ, zero, suc, ◌≤◌, ◌≡◌, refl, Bool, true, false, some, List, [], ◌∷◌, arith, inl, inr, Bool-cases,
  Option-cases, if◌then◌else◌, all_of, count_if, find_first, subst, sym,
}
use ziona_server.Accounts.User.{User, get_any_by_id}
use ziona_server.Accounts.Store.{DeletionRequest, Store, get_request}
use ziona_server.Accounts.Actions.{is_open}
use ziona_server.Accounts.Table.{get_any_by_id-id}
use ziona_server.Admin.Erase.{anonymized}
use ziona_server.Lifecycle.Invariant.{is_scheduled, is_sound, SameBut, update_user-IsSound}
use ziona_server.Lifecycle.Steps.{Sound, same-Sound}
use ziona_server.Purge.Task.{
  PurgeEnv, next_due, has_request_id, write_by_id, claimed, finished, marked_failed, purge_one,
  purge_loop, purge_due_account_deletions, clamp, is_out_of_time,
}
use ziona_server.Purge.Requests.{
  AreKeyed, KeepsKeys, find_first-next_due, write_by_id-AreKeyed, find_first-write_by_id,
  purge_one_rows, purge_loop-none, purge_loop-some,
}
use ziona_server.Purge.Spared.{anonymized-id}

-- A write that leaves the request open.
module _ (j : ℕ) (f : DeletionRequest → DeletionRequest) (keeps : KeepsKeys f) where
  still_scheduled :
      (i : ℕ) (requests : List DeletionRequest)
      → ((r : DeletionRequest) → is_open (f r).status ≡ true)
      → is_scheduled (get_request i requests) ≡ true
      → is_scheduled (get_request i (write_by_id j f requests)) ≡ true
  unfolding get_request write_by_id
  still_scheduled i [] opens h = h
  still_scheduled i (x ∷ requests) opens h =
      ground (arith, still_scheduled i requests opens, opens x, keeps x)

  absent :
      (k : ℕ) (requests : List DeletionRequest)
      → count_if (has_request_id j) requests ≡ 0
      → get_request k (write_by_id j f requests) ≡ get_request k requests
  unfolding get_request write_by_id
  absent k [] h = refl
  absent k (x ∷ requests) h = ground (arith, absent k requests)

  -- A write to the one request of its id touches one user's request.
  write_by_id-SameBut :
      (requests : List DeletionRequest) (r : DeletionRequest)
      → count_if (has_request_id j) requests ≤ 1
      → find_first (has_request_id j) requests ≡ some r
      → SameBut r.user_id requests (write_by_id j f requests)
  unfolding get_request write_by_id
  write_by_id-SameBut [] r one h k ne = refl
  write_by_id-SameBut (x ∷ requests) r one h k ne = elim (Bool-cases (has_request_id j x)) [
    | inl y ↦ ground (arith, absent k requests, keeps x)
    | inr n ↦
        let ih = write_by_id-SameBut requests r (ground arith) (ground arith) k ne in
        ground (arith, ih)
  ]

mono-IsSound :
    (users : List User) (requests requests' : List DeletionRequest)
    → ((i : ℕ)
        → is_scheduled (get_request i requests) ≡ true
        → is_scheduled (get_request i requests') ≡ true)
    → all_of (is_sound requests) users ≡ true
    → all_of (is_sound requests') users ≡ true
mono-IsSound [] requests requests' mono h = refl
mono-IsSound (u ∷ users) requests requests' mono h =
    ground (arith, mono-IsSound users requests requests' mono, mono u.id)

anonymized-is_sound :
    (requests : List DeletionRequest) (i now : ℕ) (u : User)
    → is_sound requests (anonymized i now u) ≡ true
unfolding anonymized
anonymized-is_sound requests i now u = refl

abbrev pub SoundKeyed : Store → Type 0
SoundKeyed s = Sound s × AreKeyed s.requests

module _ (p : PurgeEnv) where
  purge_one-SoundKeyed :
      (s : Store) (r : DeletionRequest)
      → SoundKeyed s
      → find_first (has_request_id r.id) s.requests ≡ some r
      → SoundKeyed (purge_one p r.id s).1
  purge_one-SoundKeyed s r ((unique, sound), keyed) by_id =
      let opened = write_by_id r.id (claimed p) s.requests in
      let by_id₁ = find_first-write_by_id r.id (claimed p) (λ x. (refl, refl)) s.requests r by_id in
      let keyed₁ = write_by_id-AreKeyed r.id (claimed p) (λ x. (refl, refl)) s.requests keyed in
      let sound₁ =
        mono-IsSound s.world.users s.requests opened
          (λ i. still_scheduled r.id (claimed p) (λ x. (refl, refl)) i s.requests (λ x. refl))
          sound in
      let t = (purge_one p r.id s).1 in
      elim (purge_one_rows p r.id s r by_id) [
        | inl (o, u, found, users, requests) ↦
            let key = sym (get_any_by_id-id r.user_id s.world.users u found) in
            (
              same-Sound t _ _ (users, requests)
                  (update_user-IsSound u.id (anonymized u.id p.now) s.world.users opened
                    (write_by_id r.id (finished p) opened) u (anonymized-id u.id p.now)
                    (subst (λ k. SameBut k opened (write_by_id r.id (finished p) opened)) key
                      (write_by_id-SameBut r.id (finished p) (λ x. (refl, refl)) opened
                        (claimed p r) ((keyed₁ r.id).0) by_id₁))
                    (subst (λ k. get_any_by_id k s.world.users ≡ some u) key found) (unique, sound₁)
                    (λ h. anonymized-is_sound _ u.id p.now u)),
              subst AreKeyed (sym requests)
                  (write_by_id-AreKeyed r.id (finished p) (λ x. (refl, refl)) opened keyed₁),
            )
        | inr (inl (o, users, requests)) ↦ (
          same-Sound t _ _ (users, requests)
              (
                unique,
                mono-IsSound s.world.users opened (write_by_id r.id (marked_failed p) opened)
                    (λ i.
                      still_scheduled r.id (marked_failed p) (λ x. (refl, refl)) i opened
                        (λ x. refl))
                    sound₁,
              ),
          subst AreKeyed (sym requests)
              (write_by_id-AreKeyed r.id (marked_failed p) (λ x. (refl, refl)) opened keyed₁),
        )
        | inr (inr (o, users, requests)) ↦ (
          same-Sound t _ _ (users, requests) (unique, sound₁),
          subst AreKeyed (sym requests) keyed₁,
        )
      ]

  either : (b : Bool) (s t : Store) → SoundKeyed s → SoundKeyed t → SoundKeyed (if b then s else t)
  either true s t h k = h
  either false s t h k = k

  purge_loop-SoundKeyed :
      (n : ℕ) (attempted : List ℕ) (s : Store)
      → SoundKeyed s
      → SoundKeyed (purge_loop n p attempted s).1
  unfolding purge_loop
  purge_loop-SoundKeyed zero attempted s kept = kept
  purge_loop-SoundKeyed (suc n) attempted s kept =
      elim (Option-cases (next_due p attempted s.requests)) [
        | inl e ↦ subst (λ x. SoundKeyed x.1) (sym (purge_loop-none n p attempted s e)) kept
        | inr (r, e) ↦
            let by_id =
              find_first-next_due (λ x. x.id) p attempted s.requests r (λ k. (kept.1 k).0) e in
            let step = purge_one-SoundKeyed s r kept by_id in
            let rest = purge_loop-SoundKeyed n (r.id ∷ attempted) (purge_one p r.id s).1 step in
            subst (λ x. SoundKeyed x.1) (sym (purge_loop-some n p attempted s r e))
              (either (is_out_of_time (purge_one p r.id s).0) _ _ step rest)
      ]

  pub purge_due_account_deletions-SoundKeyed :
      (batch_size : ℕ) (s : Store)
      → SoundKeyed s
      → SoundKeyed (purge_due_account_deletions batch_size p s).1
  unfolding purge_due_account_deletions
  purge_due_account_deletions-SoundKeyed batch_size s kept =
      purge_loop-SoundKeyed (clamp batch_size) [] s kept
