-- ===== src/Purge/Spared.antt =====
-- A run of the purge leaves alone every account whose deletion is not due.
use ziona_server.Base.{
  ℕ, zero, suc, ◌≡◌, refl, Bool, true, false, Option, some, List, [], ◌∷◌, ◌==◌, ==_refl, ==_iff,
  arith, inl, inr, Bool-cases, Option-cases, if◌then◌else◌, find_first, subst, sym, ◌∙◌,
  find_first_unique,
}
use ziona_server.Accounts.User.{User, get_any_by_id}
use ziona_server.Accounts.Store.{DeletionRequest, Store, has_user, get_request}
use ziona_server.Accounts.Table.{get_any_by_id-update_user_other, get_any_by_id-id}
use ziona_server.Admin.Erase.{anonymized}
use ziona_server.Purge.Task.{
  PurgeEnv, is_claimable, next_due, has_request_id, write_by_id, claimed, finished, marked_failed,
  purge_one, purge_loop, purge_due_account_deletions, clamp, is_out_of_time,
}
use ziona_server.Purge.Requests.{
  AreKeyed, KeepsKeys, find_first-next_due, next_due-is_candidate, write_by_id-AreKeyed,
  get_request-write_by_id_other, purge_one_rows, purge_loop-none, purge_loop-some,
}

pub anonymized-id : (i now : ℕ) (u : User) → (anonymized i now u).id ≡ u.id
unfolding anonymized
anonymized-id i now u = refl

module _ (p : PurgeEnv) (i : ℕ) (own : DeletionRequest) (u : Option User) where
  -- The user's row and request.
  abbrev pub Kept : Store → Type 0
  Kept s =
      AreKeyed s.requests
      × (get_request i s.requests ≡ some own)
      × (get_any_by_id i s.world.users ≡ u)

  -- Writing another request keeps the user's.
  write_by_id-Kept :
      (j : ℕ) (f : DeletionRequest → DeletionRequest) (requests : List DeletionRequest)
      → KeepsKeys f
      → AreKeyed requests
      → get_request i requests ≡ some own
      → (own.id == j) ≡ false
      → AreKeyed (write_by_id j f requests) × (get_request i (write_by_id j f requests) ≡ some own)
  write_by_id-Kept j f requests keeps keyed mine ne = (
    write_by_id-AreKeyed j f keeps requests keyed,
    get_request-write_by_id_other j f keeps i requests own mine ne,
  )

  -- The purge of another request, about another user, keeps both.
  pub purge_one_apart :
      (attempted : List ℕ) (s : Store) (r : DeletionRequest)
      → Kept s
      → next_due p attempted s.requests ≡ some r
      → (own.id == r.id) ≡ false
      → (r.user_id == i) ≡ false
      → Kept (purge_one p r.id s).1
  purge_one_apart attempted s r (keyed, mine, row) h ne other =
      let by_id = find_first-next_due (λ x. x.id) p attempted s.requests r (λ k. (keyed k).0) h in
      let opened = write_by_id r.id (claimed p) s.requests in
      let (keyed₁, mine₁) =
        write_by_id-Kept r.id (claimed p) s.requests (λ x. (refl, refl)) keyed mine ne in
      let finish = write_by_id-Kept r.id (finished p) opened (λ x. (refl, refl)) keyed₁ mine₁ ne in
      let failing =
        write_by_id-Kept r.id (marked_failed p) opened (λ x. (refl, refl)) keyed₁ mine₁ ne in
      let t = (purge_one p r.id s).1 in
      elim (purge_one_rows p r.id s r by_id) [
        | inl (o, v, found, users, requests) ↦
            let key = get_any_by_id-id r.user_id s.world.users v found in
            let untouched =
              get_any_by_id-update_user_other v.id i (anonymized v.id p.now) s.world.users
                (λ x. anonymized-id v.id p.now x) (subst (λ k. (k == i) ≡ false) (sym key) other) in
            (
              subst AreKeyed (sym requests) finish.0,
              subst (λ rs. get_request i rs ≡ some own) (sym requests) finish.1,
              subst (λ us. get_any_by_id i us ≡ u) (sym users) (untouched ∙ row),
            )
        | inr (inl (o, users, requests)) ↦ (
          subst AreKeyed (sym requests) failing.0,
          subst (λ rs. get_request i rs ≡ some own) (sym requests) failing.1,
          subst (λ us. get_any_by_id i us ≡ u) (sym users) row,
        )
        | inr (inr (o, users, requests)) ↦ (
          subst AreKeyed (sym requests) keyed₁,
          subst (λ rs. get_request i rs ≡ some own) (sym requests) mine₁,
          subst (λ us. get_any_by_id i us ≡ u) (sym users) row,
        )
      ]

module _ (p : PurgeEnv) (i : ℕ) (own : DeletionRequest) (u : Option User)
    (early : is_claimable p own ≡ false) where
  -- A request that is claimed is neither the user's nor about the user.
  another :
      (attempted : List ℕ) (requests : List DeletionRequest) (r : DeletionRequest)
      → AreKeyed requests
      → get_request i requests ≡ some own
      → next_due p attempted requests ≡ some r
      → ((own.id == r.id) ≡ false) × ((r.user_id == i) ≡ false)
  unfolding get_request
  another attempted requests r keyed mine h =
      let due = next_due-is_candidate p attempted requests r h in
      let by_id = find_first-next_due (λ x. x.id) p attempted requests r (λ k. (keyed k).0) h in
      let by_user =
        find_first-next_due (λ x. x.user_id) p attempted requests r (λ k. (keyed k).1) h in
      let mine_by_id =
        find_first_unique (has_request_id own.id) (has_user i) requests own mine (==_refl own.id)
          ((keyed own.id).0) in
      (
        elim (Bool-cases (own.id == r.id)) [
          | inr n ↦ n
          | inl y ↦
              let e = (==_iff own.id r.id).0 y in
              let same =
                subst (λ k. find_first (has_request_id k) requests ≡ some own) e mine_by_id in
              absurd (ground arith)
        ],
        elim (Bool-cases (r.user_id == i)) [
          | inr n ↦ n
          | inl y ↦
              let e = (==_iff r.user_id i).0 y in
              let same = subst (λ k. find_first (has_user k) requests ≡ some r) e by_user in
              absurd (ground arith)
        ],
      )

  purge_one-Kept :
      (attempted : List ℕ) (s : Store) (r : DeletionRequest)
      → Kept p i own u s
      → next_due p attempted s.requests ≡ some r
      → Kept p i own u (purge_one p r.id s).1
  purge_one-Kept attempted s r (keyed, mine, row) h =
      let (ne, other) = another attempted s.requests r keyed mine h in
      purge_one_apart p i own u attempted s r (keyed, mine, row) h ne other

  if_Kept :
      (b : Bool) (s t : Store)
      → Kept p i own u s
      → Kept p i own u t
      → Kept p i own u (if b then s else t)
  if_Kept true s t h k = h
  if_Kept false s t h k = k

  pub purge_loop-Kept :
      (n : ℕ) (attempted : List ℕ) (s : Store)
      → Kept p i own u s
      → Kept p i own u (purge_loop n p attempted s).1
  unfolding purge_loop
  purge_loop-Kept zero attempted s kept = kept
  purge_loop-Kept (suc n) attempted s kept = elim (Option-cases (next_due p attempted s.requests)) [
    | inl e ↦ subst (λ x. Kept p i own u x.1) (sym (purge_loop-none n p attempted s e)) kept
    | inr (r, e) ↦
        let step = purge_one-Kept attempted s r kept e in
        let rest = purge_loop-Kept n (r.id ∷ attempted) (purge_one p r.id s).1 step in
        subst (λ x. Kept p i own u x.1) (sym (purge_loop-some n p attempted s r e))
          (if_Kept (is_out_of_time (purge_one p r.id s).0) _ _ step rest)
  ]

-- A run of the purge, of any size and whatever fails in it, leaves the row of a user and the user's
-- deletion request as they are, if the request may not be claimed at that time: a pending one that
-- is not due yet, one that was cancelled or completed, or one that used up its retries. Requests
-- have ids of their own, and a user has one at most.
pub purge_due_account_deletions_spares :
    (batch_size : ℕ) (p : PurgeEnv) (s : Store) (i : ℕ) (own : DeletionRequest)
    → AreKeyed s.requests
    → get_request i s.requests ≡ some own
    → is_claimable p own ≡ false
    → let t = (purge_due_account_deletions batch_size p s).1 in
      (get_request i t.requests ≡ some own)
      × (get_any_by_id i t.world.users ≡ get_any_by_id i s.world.users)
unfolding purge_due_account_deletions
purge_due_account_deletions_spares batch_size p s i own keyed mine early =
    let (keyed', mine', row) =
      purge_loop-Kept p i own (get_any_by_id i s.world.users) early (clamp batch_size) [] s
        (keyed, mine, refl) in
    (mine', row)
