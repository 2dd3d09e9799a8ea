-- ===== src/Lifecycle/Keys.antt =====
-- Deletion requests keep their keys: an id each, and one for a user at most.
use ziona_server.Base.{
  ℕ, ◌≤◌, ◌≡◌, refl, none, List, [], ◌∷◌, ◌==◌, arith, inl, inr, Bool-cases, Option-cases,
  Result-cases, count_if, ok, subst, sym, ap, ==_iff,
}
use ziona_server.Accounts.Store.{
  DeletionRequest, Store, ActionEnv, has_user, get_request, update_request,
}
use ziona_server.Accounts.Actions.{
  schedule, scheduled, blank_request, deactivate_account, delete_account,
}
use ziona_server.Accounts.Return.{called_off, reactivate_account, cancel_account_deletion}
use ziona_server.Accounts.Effects.{deactivate_account_ok, delete_account_ok, reactivate_account_ok}
use ziona_server.Accounts.Recovery.{
  Call, deactivation, deletion, reactivation, cancellation, perform, perform_atomic,
  cancel_account_deletion_ok,
}
use ziona_server.Admin.Guards.{Operation, run, run_err, run_missing, lookup}
use ziona_server.Lifecycle.Operations.{run_rows}
use ziona_server.Purge.Task.{has_request_id}
use ziona_server.Purge.Requests.{AreKeyed, KeepsKeys}

-- No request has this id yet.
abbrev pub IsFreshId : ℕ → List DeletionRequest → Type 0
IsFreshId i requests = count_if (has_request_id i) requests ≡ 0

count_if-update_request :
    (i k : ℕ) (f : DeletionRequest → DeletionRequest) (requests : List DeletionRequest)
    → KeepsKeys f
    → (count_if (has_request_id k) (update_request i f requests)
        ≡ count_if (has_request_id k) requests)
      × (count_if (has_user k) (update_request i f requests) ≡ count_if (has_user k) requests)
unfolding update_request
count_if-update_request i k f [] keeps = (refl, refl)
count_if-update_request i k f (r ∷ requests) keeps =
    ground (arith, count_if-update_request i k f requests keeps, keeps r)

update_request-AreKeyed :
    (i : ℕ) (f : DeletionRequest → DeletionRequest) (requests : List DeletionRequest)
    → KeepsKeys f
    → AreKeyed requests
    → AreKeyed (update_request i f requests)
update_request-AreKeyed i f requests keeps keyed k =
    ground (arith, count_if-update_request i k f requests keeps, keyed k)

none_of :
    (i : ℕ) (requests : List DeletionRequest)
    → get_request i requests ≡ none
    → count_if (has_user i) requests ≡ 0
unfolding get_request
none_of i [] h = refl
none_of i (r ∷ requests) h = ground (arith, none_of i requests)

new_key :
    (key : DeletionRequest → ℕ) (r : DeletionRequest) (requests : List DeletionRequest) (k : ℕ)
    → count_if (λ x. key x == key r) requests ≡ 0
    → count_if (λ x. key x == k) requests ≤ 1
    → count_if (λ x. key x == k) (r ∷ requests) ≤ 1
new_key key r requests k fresh le = elim (Bool-cases (key r == k)) [
  | inl y ↦
      let e = (==_iff (key r) k).0 y in
      let fresh' = subst (λ j. count_if (λ x. key x == j) requests ≡ 0) e fresh in ground arith
  | inr n ↦ ground arith
]

schedule-AreKeyed :
    (a : ActionEnv) (i : ℕ) (requests : List DeletionRequest)
    → IsFreshId a.request_id requests
    → AreKeyed requests
    → AreKeyed (schedule a i requests).1
schedule-AreKeyed a i requests fresh keyed = elim (Option-cases (get_request i requests)) [
  | inl e ↦ λ k.
      let row = scheduled a (blank_request a i) in
      let ids = new_key (λ x. x.id) row requests k fresh ((keyed k).0) in
      let users = new_key (λ x. x.user_id) row requests k (none_of i requests e) ((keyed k).1) in
      ground (arith, ids, users)
  | inr (r, e) ↦ λ k.
      let kept = update_request-AreKeyed i (scheduled a) requests (λ x. (refl, refl)) keyed k in
      ground (arith, kept)
]

module _ (a : ActionEnv) (s t : Store) (fresh : IsFreshId a.request_id s.requests)
    (keyed : AreKeyed s.requests) where
  perform_ok-AreKeyed : (c : Call) → perform c a s ≡ (ok tt, t) → AreKeyed t.requests
  perform_ok-AreKeyed (deactivation i password otp) h =
      elim (Result-cases (deactivate_account a i password otp s)) [
        | inl (b, t', e) ↦
            let (u, found, allowed, users, requests, devices) =
              deactivate_account_ok a i password otp b s t (ground arith) in
            subst AreKeyed (sym requests) keyed
        | inr (e, t', f) ↦ absurd (ground arith)
      ]
  perform_ok-AreKeyed (deletion i password otp ack) h =
      elim (Result-cases (delete_account a i password otp ack s)) [
        | inr (e, t', f) ↦ absurd (ground arith)
        | inl (r, t', e) ↦
            let (acknowledged, u, found, nd, outcome) =
              delete_account_ok a i password otp ack r s t (ground arith) in
            elim outcome [
              | inl (opened, same) ↦ subst (λ v. AreKeyed v.requests) (sym same) keyed
              | inr (allowed, users, written, devices) ↦
                  subst AreKeyed (sym (ap (λ q. q.1) written))
                    (schedule-AreKeyed a u.id s.requests fresh keyed)
            ]
      ]
  perform_ok-AreKeyed (reactivation token confirmed) h =
      elim (Result-cases (reactivate_account a token confirmed s)) [
        | inr (e, t', f) ↦ absurd (ground arith)
        | inl (x, t', e) ↦
            let (affirmed, c, valid, u, found, state, user, users, requests, devices) =
              reactivate_account_ok a token confirmed x s t (ground arith) in
            subst AreKeyed (sym requests) keyed
      ]
  perform_ok-AreKeyed (cancellation token confirmed) h =
      elim (Result-cases (cancel_account_deletion a token confirmed s)) [
        | inr (e, t', f) ↦ absurd (ground arith)
        | inl (x, t', e) ↦
            let (
              affirmed, c, valid, u, found, r, requested, state, status, early, user, users,
              requests, devices,
            ) =
              cancel_account_deletion_ok a token confirmed x s t (ground arith) in
            subst AreKeyed (sym requests)
              (update_request-AreKeyed u.id (called_off a) s.requests (λ x. (refl, refl)) keyed)
      ]

pub perform-AreKeyed :
    (c : Call) (a : ActionEnv) (s : Store)
    → IsFreshId a.request_id s.requests
    → AreKeyed s.requests
    → AreKeyed (perform c a s).1.requests
perform-AreKeyed c a s fresh keyed = elim (Result-cases (perform c a s)) [
  | inl (x, t, h) ↦
      subst (λ p. AreKeyed p.1.requests) (sym h) (perform_ok-AreKeyed a s t fresh keyed c h)
  | inr (e, t, h) ↦
      let (users, activity, requests, devices, reservations) = perform_atomic c a s t e h in
      subst (λ p. AreKeyed p.1.requests) (sym h) (subst AreKeyed (sym requests) keyed)
]

pub run-AreKeyed :
    (op : Operation) (a : ActionEnv) (admin_id i : ℕ) (s : Store)
    → AreKeyed s.requests
    → AreKeyed (run op a admin_id i s).1.requests
run-AreKeyed op a admin_id i s keyed = elim (Result-cases (run op a admin_id i s)) [
  | inr (e, t, h) ↦
      subst (λ p. AreKeyed p.1.requests) (sym h)
        (subst (λ v. AreKeyed v.requests) (sym (run_err op a admin_id i s t e h)) keyed)
  | inl (x, t, h) ↦ elim (Option-cases (lookup op i s)) [
    | inl e ↦ absurd (run_missing op a admin_id i s t e h)
    | inr (u, e) ↦
        subst (λ p. AreKeyed p.1.requests) (sym h)
          (subst AreKeyed (sym ((run_rows op a admin_id i s t u e h).1)) keyed)
  ]
]
