-- ===== src/Purge/Settled.antt =====
-- What a run of the purge in which nothing fails does to the accounts whose deletion is due.
use ziona_server.Base.{
  ℕ, zero, suc, ◌-◌, ◌≡◌, ◌⊎◌, min, refl, true, false, some, List, [], ◌∷◌, ◌==◌, ==_refl, ==_iff,
  arith, inl, inr, Bool-cases, Option-cases, if◌then◌else◌, find_first, subst, sym,
  find_first_unique, ap, ◌∙◌, ◌≤◌, ◌<◌, count_if,
}
use ziona_server.Accounts.User.{User, get_any_by_id}
use ziona_server.Accounts.Store.{DeletionRequest, Store, has_user, get_request, update_user}
use ziona_server.Accounts.Table.{get_any_by_id-update_user, get_any_by_id-id}
use ziona_server.Admin.Erase.{anonymized}
use ziona_server.Purge.Task.{
  Outcome, done, PurgeEnv, is_claimable, next_due, has_request_id, write_by_id, purge_one,
  purge_loop, purge_due_account_deletions, clamp, is_out_of_time,
}
use ziona_server.Purge.Requests.{
  AreKeyed, KeepsKeys, find_first-next_due, purge_loop-none, purge_loop-some,
}
use ziona_server.Purge.Spared.{anonymized-id, purge_one_apart, purge_loop-Kept}
use ziona_server.Purge.Progress.{
  Ready, closed, closed-is_claimable, purge_one-done, purge_one-Ready, all-IsFresh, HaveUsers,
  due_count, purge_due_account_deletions_progress,
}

get_request-write_by_id :
    (i : ℕ) (f : DeletionRequest → DeletionRequest) (requests : List DeletionRequest)
    (own : DeletionRequest)
    → KeepsKeys f
    → get_request i requests ≡ some own
    → get_request i (write_by_id own.id f requests) ≡ some (f own)
unfolding get_request write_by_id
get_request-write_by_id i f [] own keeps h = cc
get_request-write_by_id i f (x ∷ requests) own keeps h =
    ground (arith, get_request-write_by_id i f requests own keeps, keeps x, ==_refl own.id)

get_request-user :
    (i : ℕ) (requests : List DeletionRequest) (own : DeletionRequest)
    → get_request i requests ≡ some own
    → own.user_id ≡ i
unfolding get_request
get_request-user i [] own h = cc
get_request-user i (x ∷ requests) own h = ground (arith, get_request-user i requests own)

module _ (p : PurgeEnv) (i : ℕ) (own : DeletionRequest) (u : User) where
  -- The deletion is complete and the user erased, or neither was touched.
  abbrev pub IsErased : Store → Type 0
  IsErased s =
      (get_request i s.requests ≡ some (closed p own))
      × (get_any_by_id i s.world.users ≡ some (anonymized i p.now u))

  abbrev pub IsUntouched : Store → Type 0
  IsUntouched s = (get_request i s.requests ≡ some own) × (get_any_by_id i s.world.users ≡ some u)

  abbrev pub IsSettled : Store → Type 0
  IsSettled s = IsErased s ⊎ IsUntouched s

  -- The request that is claimed next is the user's, or it is neither that nor about the user.
  own_or_apart :
      (attempted : List ℕ) (requests : List DeletionRequest) (r : DeletionRequest)
      → AreKeyed requests
      → get_request i requests ≡ some own
      → next_due p attempted requests ≡ some r
      → (r ≡ own) ⊎ (((own.id == r.id) ≡ false) × ((r.user_id == i) ≡ false))
  unfolding get_request
  own_or_apart attempted requests r keyed mine h =
      let by_id = find_first-next_due (λ x. x.id) p attempted requests r (λ k. (keyed k).0) h in
      let by_user =
        find_first-next_due (λ x. x.user_id) p attempted requests r (λ k. (keyed k).1) h in
      let mine_by_id =
        find_first_unique (has_request_id own.id) (has_user i) requests own mine (==_refl own.id)
          ((keyed own.id).0) in
      elim (Bool-cases (own.id == r.id)) [
        | inl y ↦
            let e = (==_iff own.id r.id).0 y in
            let same =
              subst (λ k. find_first (has_request_id k) requests ≡ some own) e mine_by_id in
            inl (ground arith)
        | inr n ↦ elim (Bool-cases (r.user_id == i)) [
          | inr other ↦ inr (n, other)
          | inl y ↦
              let e = (==_iff r.user_id i).0 y in
              let same = subst (λ k. find_first (has_user k) requests ≡ some r) e by_user in
              inl (ground arith)
        ]
      ]

  purge_one-IsErased :
      (s : Store)
      → p.outcome own.id ≡ done
      → AreKeyed s.requests
      → IsUntouched s
      → IsErased (purge_one p own.id s).1
  unfolding get_request
  purge_one-IsErased s fine keyed (mine, row) =
      let user = get_request-user i s.requests own mine in
      let by_id =
        find_first_unique (has_request_id own.id) (has_user i) s.requests own mine (==_refl own.id)
          ((keyed own.id).0) in
      let (o, users, requests) =
        purge_one-done p own.id s own u by_id
          (subst (λ k. get_any_by_id k s.world.users ≡ some u) (sym user) row) fine in
      let key = get_any_by_id-id i s.world.users u row in
      (
        subst (λ rs. get_request i rs ≡ some (closed p own)) (sym requests)
            (get_request-write_by_id i (closed p) s.requests own (λ x. (refl, refl)) mine),
        subst (λ us. get_any_by_id i us ≡ some (anonymized i p.now u)) (sym users)
            (subst
              (λ k.
                get_any_by_id i (update_user k (anonymized k p.now) s.world.users)
                ≡ some (anonymized i p.now u))
              (sym key)
              (get_any_by_id-update_user i (anonymized i p.now) s.world.users u
                (anonymized-id i p.now) row)),
      )

  module _ (fine : (j : ℕ) → p.outcome j ≡ done) where
    -- A turn that is done goes on with the rest of the run.
    purge_loop_next :
        (n : ℕ) (attempted : List ℕ) (s : Store) (r : DeletionRequest)
        → next_due p attempted s.requests ≡ some r
        → (purge_one p r.id s).0 ≡ done
        → (purge_loop (suc n) p attempted s).1
          ≡ (purge_loop n p (r.id ∷ attempted) (purge_one p r.id s).1).1
    purge_loop_next n attempted s r h o =
        ap (λ x. x.1) (purge_loop-some n p attempted s r h) ∙ if_done (purge_one p r.id s).0 _ _ o
      where
        if_done :
            (outcome : Outcome) (t v : Store)
            → outcome ≡ done
            → (if is_out_of_time outcome then t else v) ≡ v
        if_done outcome t v o = ground arith

    purge_loop-IsSettled :
        (n : ℕ) (attempted : List ℕ) (s : Store)
        → Ready p fine attempted s
        → IsUntouched s
        → IsSettled (purge_loop n p attempted s).1
    unfolding purge_loop
    purge_loop-IsSettled zero attempted s ready now = inr now
    purge_loop-IsSettled (suc n) attempted s (keyed, fresh, there) (mine, row) =
        elim (Option-cases (next_due p attempted s.requests)) [
          | inl e ↦
              subst (λ x. IsSettled x.1) (sym (purge_loop-none n p attempted s e)) (inr (mine, row))
          | inr (r, e) ↦
              let (o, fewer, ready) =
                purge_one-Ready p fine attempted s r (keyed, fresh, there) e in
              let t = (purge_one p r.id s).1 in
              subst IsSettled (sym (purge_loop_next n attempted s r e o))
                (elim (own_or_apart attempted s.requests r keyed mine e) [
                  | inl own_turn ↦
                      let erased =
                        subst (λ q. IsErased (purge_one p q.id s).1) (sym own_turn)
                          (purge_one-IsErased s (fine own.id) keyed (mine, row)) in
                      let (k, erased_row, erased_user) =
                        purge_loop-Kept p i (closed p own) (some (anonymized i p.now u))
                          (closed-is_claimable p own) n (r.id ∷ attempted) t
                          (ready.0, erased.0, erased.1) in
                      inl (erased_row, erased_user)
                  | inr (ne, other) ↦
                      let (k, mine', row') =
                        purge_one_apart p i own (some u) attempted s r (keyed, mine, row) e ne
                          other in
                      purge_loop-IsSettled n (r.id ∷ attempted) t ready (mine', row')
                ])
        ]

due_counted :
    (p : PurgeEnv) (i : ℕ) (requests : List DeletionRequest) (own : DeletionRequest)
    → get_request i requests ≡ some own
    → is_claimable p own ≡ true
    → 1 ≤ count_if (is_claimable p) requests
unfolding get_request
due_counted p i [] own h due = cc
due_counted p i (x ∷ requests) own h due = ground (arith, due_counted p i requests own)

-- A run in which no purge fails completes as many deletions as are due, up to its limit of 1 to 100,
-- and reports no failure; as many as are beyond the limit stay due. For each account with a request,
-- the request is completed and the row of the user erased, or both are as they were; the latter only
-- if the request was not due or more were due than the limit. Requests have ids of their own, a user
-- has one at most, and each is about a user who is there.
pub purge_due_account_deletions_settles :
    (batch_size : ℕ) (p : PurgeEnv) (s : Store) (i : ℕ) (own : DeletionRequest) (u : User)
    → ((j : ℕ) → p.outcome j ≡ done)
    → AreKeyed s.requests
    → HaveUsers s
    → get_request i s.requests ≡ some own
    → get_any_by_id i s.world.users ≡ some u
    → let (report, t) = purge_due_account_deletions batch_size p s in
      (report.completions ≡ min (clamp batch_size) (due_count p s))
      × (report.failures ≡ 0)
      × (due_count p t ≡ due_count p s - clamp batch_size)
      × (IsErased p i own u t
          ⊎ (IsUntouched p i own u t
              × ((is_claimable p own ≡ false) ⊎ (clamp batch_size < due_count p s))))
unfolding purge_due_account_deletions
purge_due_account_deletions_settles batch_size p s i own u fine keyed there mine row =
    let (completions, failures, left) =
      purge_due_account_deletions_progress batch_size p s fine keyed there in
    let t = (purge_due_account_deletions batch_size p s).1 in
    let settled : IsSettled p i own u t =
      purge_loop-IsSettled p i own u fine (clamp batch_size) [] s
        (keyed, all-IsFresh p s.requests, there) (mine, row) in
    (
      completions,
      failures,
      left,
      elim settled [
        | inl erased ↦ inl erased
        | inr untouched ↦ inr (
          untouched,
          elim (Bool-cases (is_claimable p own)) [
            | inr early ↦ inl early
            | inl due ↦ inr (
                beyond (clamp batch_size) (due_count p s) (due_count p t) left
                  (due_counted p i t.requests own untouched.0 due))
          ],
        )
      ],
    )
  where
    beyond : (n k d : ℕ) → d ≡ k - n → 1 ≤ d → n < k
    beyond n k d left more = omega arith
