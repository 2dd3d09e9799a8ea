-- ===== src/Purge/Progress.antt =====
-- How many deletions a run of the purge completes in which nothing fails.
use ziona_server.Base.{
  ℕ, zero, suc, ◌+◌, ◌-◌, ◌≤◌, min, ◌≡◌, refl, Bool, true, false, not, ◌&&◌, none, some, List, [],
  ◌∷◌, arith, inl, inr, Bool-cases, Option-cases, if◌then◌else◌, is_some, all_of, count_if,
  find_first, subst, sym, ◌∙◌, ap,
}
use ziona_server.Accounts.User.{User, get_any_by_id}
use ziona_server.Accounts.Store.{DeletionRequest, Store, get_request, update_user}
use ziona_server.Accounts.Table.{KeepsId}
use ziona_server.Admin.Erase.{anonymized, anonymize_user}
use ziona_server.Purge.Task.{
  Outcome, done, PurgeEnv, Report, is_claimable, is_one_of, next_due, has_request_id, write_by_id,
  claimed, finished, purge_one, purge_account_deletion, purge_loop, purge_due_account_deletions,
  clamp, is_out_of_time, tally,
}
use ziona_server.Purge.Spared.{anonymized-id}
use ziona_server.Purge.Requests.{
  AreKeyed, KeepsKeys, find_first-next_due, next_due-is_candidate, write_by_id-AreKeyed,
  find_first-write_by_id, purge_loop-none, purge_loop-some,
}

abbrev pub due_count : PurgeEnv → Store → ℕ
due_count p s = count_if (is_claimable p) s.requests

abbrev one : Bool → ℕ
one b = if b then 1 else 0

-- No attempted request may be claimed.
abbrev pub IsFresh : PurgeEnv → List ℕ → List DeletionRequest → Type 0
IsFresh p attempted requests =
    all_of (λ r. not (is_claimable p r && is_one_of attempted r.id)) requests ≡ true

module _ (p : PurgeEnv) (j : ℕ) (f : DeletionRequest → DeletionRequest) (keeps : KeepsKeys f)
    (closes : (r : DeletionRequest) → is_claimable p (f r) ≡ false) where
  count_absent :
      (requests : List DeletionRequest)
      → count_if (has_request_id j) requests ≡ 0
      → count_if (is_claimable p) (write_by_id j f requests) ≡ count_if (is_claimable p) requests
  unfolding write_by_id
  count_absent [] c = refl
  count_absent (x ∷ requests) c = ground (arith, count_absent requests)

  -- Closing one request takes it out of the count.
  count_closed :
      (requests : List DeletionRequest) (r : DeletionRequest)
      → count_if (has_request_id j) requests ≤ 1
      → find_first (has_request_id j) requests ≡ some r
      → count_if (is_claimable p) (write_by_id j f requests) + one (is_claimable p r)
        ≡ count_if (is_claimable p) requests
  unfolding write_by_id
  count_closed [] r c h = cc
  count_closed (x ∷ requests) r c h = elim (Bool-cases (has_request_id j x)) [
    | inl t ↦ ground (arith, count_absent requests, closes x)
    | inr n ↦ ground (arith, count_closed requests r)
  ]

  IsFresh-closed :
      (attempted : List ℕ) (requests : List DeletionRequest)
      → IsFresh p attempted requests
      → IsFresh p (j ∷ attempted) (write_by_id j f requests)
  unfolding write_by_id
  IsFresh-closed attempted [] h = refl
  IsFresh-closed attempted (x ∷ requests) h =
      ground (arith, IsFresh-closed attempted requests, closes x)

  requested :
      (i : ℕ) (requests : List DeletionRequest)
      → is_some (get_request i (write_by_id j f requests)) ≡ is_some (get_request i requests)
  unfolding write_by_id get_request
  requested i [] = refl
  requested i (x ∷ requests) = ground (arith, requested i requests, keeps x)

none_due :
    (p : PurgeEnv) (attempted : List ℕ) (requests : List DeletionRequest)
    → IsFresh p attempted requests
    → next_due p attempted requests ≡ none
    → count_if (is_claimable p) requests ≡ 0
unfolding next_due
none_due p attempted [] fresh h = refl
none_due p attempted (r ∷ requests) fresh h = ground (arith, none_due p attempted requests)

-- Both writes of a request that is purged.
abbrev pub closed : PurgeEnv → DeletionRequest → DeletionRequest
closed p r = finished p (claimed p r)

pub closed-is_claimable : (p : PurgeEnv) (r : DeletionRequest) → is_claimable p (closed p r) ≡ false
unfolding is_claimable
closed-is_claimable p r = refl

fuse :
    (p : PurgeEnv) (j : ℕ) (requests : List DeletionRequest)
    → write_by_id j (finished p) (write_by_id j (claimed p) requests)
      ≡ write_by_id j (closed p) requests
unfolding write_by_id
fuse p j [] = refl
fuse p j (r ∷ requests) = ground (arith, fuse p j requests)

-- Every request is about a user who is there.
abbrev pub HaveUsers : Store → Type 0
HaveUsers s =
    (i : ℕ)
    → is_some (get_request i s.requests) ≡ true
    → is_some (get_any_by_id i s.world.users) ≡ true

still_there :
    (i j : ℕ) (f : User → User) (users : List User)
    → KeepsId f
    → is_some (get_any_by_id i (update_user j f users)) ≡ is_some (get_any_by_id i users)
unfolding update_user get_any_by_id
still_there i j f [] k = refl
still_there i j f (v ∷ users) k = ground (arith, still_there i j f users k, k v)

pub purge_one-done :
    (p : PurgeEnv) (j : ℕ) (s : Store) (r : DeletionRequest) (u : User)
    → find_first (has_request_id j) s.requests ≡ some r
    → get_any_by_id r.user_id s.world.users ≡ some u
    → p.outcome j ≡ done
    → ((purge_one p j s).0 ≡ done)
      × ((purge_one p j s).1.world.users ≡ update_user u.id (anonymized u.id p.now) s.world.users)
      × ((purge_one p j s).1.requests ≡ write_by_id j (closed p) s.requests)
unfolding purge_one purge_account_deletion anonymize_user
purge_one-done p j s r u h e o =
    let found = find_first-write_by_id j (claimed p) (λ x. (refl, refl)) s.requests r h in
    ground (arith, found, fuse p j s.requests)

module _ (p : PurgeEnv) (fine : (i : ℕ) → p.outcome i ≡ done) where
  abbrev pub Ready : List ℕ → Store → Type 0
  Ready attempted s = AreKeyed s.requests × IsFresh p attempted s.requests × HaveUsers s

  pub purge_one-Ready :
      (attempted : List ℕ) (s : Store) (r : DeletionRequest)
      → Ready attempted s
      → next_due p attempted s.requests ≡ some r
      → ((purge_one p r.id s).0 ≡ done)
        × (suc (due_count p (purge_one p r.id s).1) ≡ due_count p s)
        × Ready (r.id ∷ attempted) (purge_one p r.id s).1
  unfolding get_request
  purge_one-Ready attempted s r (keyed, fresh, there) h =
      let due = next_due-is_candidate p attempted s.requests r h in
      let by_id = find_first-next_due (λ x. x.id) p attempted s.requests r (λ k. (keyed k).0) h in
      let by_user =
        find_first-next_due (λ x. x.user_id) p attempted s.requests r (λ k. (keyed k).1) h in
      let owned : get_request r.user_id s.requests ≡ some r = by_user in
      let present = there r.user_id (ap is_some owned) in
      elim (Option-cases (get_any_by_id r.user_id s.world.users)) [
        | inl e ↦ absurd (ground arith)
        | inr (u, e) ↦
            let (o, users, requests) = purge_one-done p r.id s r u by_id e (fine r.id) in
            let fewer =
              count_closed p r.id (closed p) (λ x. (refl, refl)) (closed-is_claimable p) s.requests
                r ((keyed r.id).0) by_id in
            let fresh' =
              IsFresh-closed p r.id (closed p) (λ x. (refl, refl)) (closed-is_claimable p) attempted
                s.requests fresh in
            (
              o,
              rw requests (ground (arith, fewer)),
              (
                subst AreKeyed (sym requests)
                    (write_by_id-AreKeyed r.id (closed p) (λ x. (refl, refl)) s.requests keyed),
                subst (IsFresh p (r.id ∷ attempted)) (sym requests) fresh',
                λ i asked.
                    rw
                      (
                        users,
                        still_there i u.id (anonymized u.id p.now) s.world.users
                            (anonymized-id u.id p.now),
                      )
                      (there i (
                        sym (
                          requested p r.id (closed p) (λ x. (refl, refl)) (closed-is_claimable p) i
                            s.requests)
                        ∙ (sym (ap (λ rs. is_some (get_request i rs)) requests) ∙ asked))),
              ),
            )
      ]

  -- What a run with `n` attempts comes to, where `k` requests are due.
  abbrev Progress : ℕ → ℕ → Report × Store → Type 0
  Progress n k (report, s) =
      (report.completions ≡ min n k) × (report.failures ≡ 0) × (due_count p s ≡ k - n)

  Progress-step :
      (n k : ℕ) (outcome : Outcome) (report : Report) (before s t : Store)
      → outcome ≡ done
      → suc k ≡ due_count p before
      → Progress n k (report, t)
      → Progress
          (suc n)
          (due_count p before)
          (tally outcome report, if is_out_of_time outcome then s else t)
  Progress-step n k outcome report before s t o fewer progress = ground (arith, progress)

  purge_loop-Progress :
      (n : ℕ) (attempted : List ℕ) (s : Store)
      → Ready attempted s
      → Progress n (due_count p s) (purge_loop n p attempted s)
  unfolding purge_loop
  purge_loop-Progress zero attempted s ready = (ground arith, refl, ground arith)
  purge_loop-Progress (suc n) attempted s (keyed, fresh, there) =
      elim (Option-cases (next_due p attempted s.requests)) [
        | inl e ↦
            let empty = none_due p attempted s.requests fresh e in
            subst (Progress (suc n) (due_count p s)) (sym (purge_loop-none n p attempted s e))
              (ground (arith, empty), refl, ground (arith, empty))
        | inr (r, e) ↦
            let (o, fewer, ready) = purge_one-Ready attempted s r (keyed, fresh, there) e in
            subst (Progress (suc n) (due_count p s)) (sym (purge_loop-some n p attempted s r e)) (
              Progress-step n (due_count p (purge_one p r.id s).1) (purge_one p r.id s).0
                (purge_loop n p (r.id ∷ attempted) (purge_one p r.id s).1).0 s
                (purge_one p r.id s).1 (purge_loop n p (r.id ∷ attempted) (purge_one p r.id s).1).1
                o fewer (purge_loop-Progress n (r.id ∷ attempted) (purge_one p r.id s).1 ready))
      ]

pub all-IsFresh : (p : PurgeEnv) (requests : List DeletionRequest) → IsFresh p [] requests
all-IsFresh p [] = refl
all-IsFresh p (r ∷ requests) = ground (arith, all-IsFresh p requests)

-- A run in which no purge fails completes as many deletions as are due, up to its limit of 1 to 100,
-- reports no failure, and leaves as many due as are beyond the limit. Requests have ids of their own, a user has
-- one at most, and each is about a user who is there.
pub purge_due_account_deletions_progress :
    (batch_size : ℕ) (p : PurgeEnv) (s : Store)
    → ((i : ℕ) → p.outcome i ≡ done)
    → AreKeyed s.requests
    → HaveUsers s
    → let (report, t) = purge_due_account_deletions batch_size p s in
      (report.completions ≡ min (clamp batch_size) (due_count p s))
      × (report.failures ≡ 0)
      × (due_count p t ≡ due_count p s - clamp batch_size)
unfolding purge_due_account_deletions
purge_due_account_deletions_progress batch_size p s fine keyed there =
    purge_loop-Progress p fine (clamp batch_size) [] s (keyed, all-IsFresh p s.requests, there)
