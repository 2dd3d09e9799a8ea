-- ===== src/Purge/Requests.antt =====
-- The rows that a run of the purge reads and writes.
use ziona_server.Base.{
  ℕ, suc, ◌≤◌, ◌≡◌, ◌⊎◌, refl, Bool, true, false, none, some, List, [], ◌∷◌, ◌==◌, ==_refl, arith,
  inl, inr, Option-cases, if◌then◌else◌, count_if, find_first,
}
use ziona_server.Accounts.User.{User, get_any_by_id}
use ziona_server.Accounts.Store.{DeletionRequest, Store, has_user, get_request, update_user}
use ziona_server.Admin.Erase.{anonymized, anonymize_user}
use ziona_server.Purge.Task.{
  done, broken, out_of_time, PurgeEnv, is_candidate, next_due, has_request_id, write_by_id, claimed,
  finished, marked_failed, purge_one, purge_account_deletion, purge_loop, nothing, tally,
  is_out_of_time,
}

-- Requests have ids of their own, and a user has one at most.
abbrev pub AreKeyed : List DeletionRequest → Type 0
AreKeyed requests =
    (i : ℕ) → (count_if (has_request_id i) requests ≤ 1) × (count_if (has_user i) requests ≤ 1)

abbrev pub KeepsKeys : (DeletionRequest → DeletionRequest) → Type 0
KeepsKeys f = (r : DeletionRequest) → ((f r).id ≡ r.id) × ((f r).user_id ≡ r.user_id)

module _ (key : DeletionRequest → ℕ) where
  abbrev pub has : ℕ → DeletionRequest → Bool
  has i r = key r == i

  counted :
      (i : ℕ) (requests : List DeletionRequest) (r : DeletionRequest)
      → find_first (has i) requests ≡ some r
      → 1 ≤ count_if (has i) requests
  counted i [] r h = cc
  counted i (x ∷ requests) r h = ground (arith, counted i requests r)

  tail_count :
      (i : ℕ) (x : DeletionRequest) (requests : List DeletionRequest)
      → count_if (has i) (x ∷ requests) ≤ 1
      → count_if (has i) requests ≤ 1
  tail_count i x requests h = ground arith

  pub find_first-next_due :
      (p : PurgeEnv) (attempted : List ℕ) (requests : List DeletionRequest) (r : DeletionRequest)
      → ((i : ℕ) → count_if (has i) requests ≤ 1)
      → next_due p attempted requests ≡ some r
      → find_first (has (key r)) requests ≡ some r
  unfolding next_due
  find_first-next_due p attempted [] r k h = cc
  find_first-next_due p attempted (x ∷ requests) r k h =
      elim (Option-cases (next_due p attempted requests)) [
        | inl e ↦ ground (arith, ==_refl (key x))
        | inr (q, e) ↦
            let ih =
              find_first-next_due p attempted requests q (λ i. tail_count i x requests (k i)) e in
            ground (arith, ih, counted (key q) requests q ih, k (key q), ==_refl (key x))
      ]

pub next_due-is_candidate :
    (p : PurgeEnv) (attempted : List ℕ) (requests : List DeletionRequest) (r : DeletionRequest)
    → next_due p attempted requests ≡ some r
    → is_candidate p attempted r ≡ true
unfolding next_due
next_due-is_candidate p attempted [] r h = cc
next_due-is_candidate p attempted (x ∷ requests) r h =
    elim (Option-cases (next_due p attempted requests)) [
      | inl e ↦ ground arith
      | inr (q, e) ↦ let ih = next_due-is_candidate p attempted requests q e in ground (arith, ih)
    ]

module _ (j : ℕ) (f : DeletionRequest → DeletionRequest) (keeps : KeepsKeys f) where
  pub count_if-write_by_id :
      (i : ℕ) (requests : List DeletionRequest)
      → (count_if (has_request_id i) (write_by_id j f requests)
          ≡ count_if (has_request_id i) requests)
        × (count_if (has_user i) (write_by_id j f requests) ≡ count_if (has_user i) requests)
  unfolding write_by_id
  count_if-write_by_id i [] = (refl, refl)
  count_if-write_by_id i (r ∷ requests) = ground (arith, count_if-write_by_id i requests, keeps r)

  pub write_by_id-AreKeyed :
      (requests : List DeletionRequest) → AreKeyed requests → AreKeyed (write_by_id j f requests)
  write_by_id-AreKeyed requests keyed i = ground (arith, count_if-write_by_id i requests, keyed i)

  pub find_first-write_by_id :
      (requests : List DeletionRequest) (r : DeletionRequest)
      → find_first (has_request_id j) requests ≡ some r
      → find_first (has_request_id j) (write_by_id j f requests) ≡ some (f r)
  unfolding write_by_id
  find_first-write_by_id [] r h = cc
  find_first-write_by_id (x ∷ requests) r h =
      ground (arith, find_first-write_by_id requests r, keeps x)

  pub get_request-write_by_id_other :
      (i : ℕ) (requests : List DeletionRequest) (r : DeletionRequest)
      → get_request i requests ≡ some r
      → (r.id == j) ≡ false
      → get_request i (write_by_id j f requests) ≡ some r
  unfolding write_by_id get_request
  get_request-write_by_id_other i [] r h ne = cc
  get_request-write_by_id_other i (x ∷ requests) r h ne =
      ground (arith, get_request-write_by_id_other i requests r, keeps x)

-- What one turn of the loop writes, on a request that is there.
pub purge_one_rows :
    (p : PurgeEnv) (j : ℕ) (s : Store) (r : DeletionRequest)
    → find_first (has_request_id j) s.requests ≡ some r
    → let (outcome, t) = purge_one p j s in
      let opened = write_by_id j (claimed p) s.requests in
      ((outcome ≡ done)
        × (u : User) × (get_any_by_id r.user_id s.world.users ≡ some u)
        × (t.world.users ≡ update_user u.id (anonymized u.id p.now) s.world.users)
        × (t.requests ≡ write_by_id j (finished p) opened))
      ⊎ (((outcome ≡ broken)
            × (t.world.users ≡ s.world.users)
            × (t.requests ≡ write_by_id j (marked_failed p) opened))
          ⊎ ((outcome ≡ out_of_time) × (t.world.users ≡ s.world.users) × (t.requests ≡ opened)))
unfolding purge_one purge_account_deletion anonymize_user
purge_one_rows p j s r h =
    let found = find_first-write_by_id j (claimed p) (λ x. (refl, refl)) s.requests r h in
    elim (Option-cases (get_any_by_id r.user_id s.world.users)) [
      | inl e ↦ ground (arith, found)
      | inr (u, e) ↦ ground (arith, found)
    ]

module _ (n : ℕ) (p : PurgeEnv) (attempted : List ℕ) (s : Store) where
  pub purge_loop-none :
      next_due p attempted s.requests ≡ none → purge_loop (suc n) p attempted s ≡ (nothing, s)
  unfolding purge_loop
  purge_loop-none e = ground arith

  pub purge_loop-some :
      (r : DeletionRequest)
      → next_due p attempted s.requests ≡ some r
      → purge_loop (suc n) p attempted s ≡ (
          let (outcome, t) = purge_one p r.id s in
          let (report, v) = purge_loop n p (r.id ∷ attempted) t in
          (tally outcome report, if is_out_of_time outcome then t else v))
  unfolding purge_loop
  purge_loop-some r e = ground arith
