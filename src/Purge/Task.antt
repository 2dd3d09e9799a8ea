-- ===== src/Purge/Task.antt =====
-- The purge of accounts whose deletion is due (core/users/tasks.py). The task claims one request at
-- a time, so a batch of the query is one row; rows that are due at the same second are taken in
-- table order. A run happens at one time.
use ziona_server.Base.{
  ℕ, zero, suc, ◌+◌, Bool, true, false, not, ◌&&◌, ◌||◌, Option, none, some, List, [], ◌∷◌, ◌==◌,
  leb, ltb, if◌then◌else◌, Text, map, find_first,
}
use ziona_server.Accounts.User.{get_any_by_id}
use ziona_server.Accounts.Store.{
  DeletionRequest, DeletionStatus, pending, purging, completed, failed, Store,
}
use ziona_server.Admin.Erase.{anonymize_user}

-- How the parts of a purge end that are no part of this store: the removal of the media objects and
-- of the content. `SoftTimeLimitExceeded` stops the run.
pub data Outcome : Type 0 where
  done broken out_of_time : Outcome

pub record PurgeEnv : Type 0 where
  pub now : ℕ
  pub retry_limit : ℕ  -- ACCOUNT_DELETION_PURGE_MAX_RETRIES
  pub outcome : ℕ → Outcome  -- by request id
  pub failure_code : Text  -- the name of the exception's type

abbrev pub is_purging : DeletionStatus → Bool
is_purging purging = true
is_purging _ = false

-- The filter of `_claim_due_requests`.
unfoldable pub is_claimable : PurgeEnv → DeletionRequest → Bool
is_claimable p r = elim r.status [
  | pending ↦ leb r.scheduled_for p.now
  | failed ↦ leb r.scheduled_for p.now && ltb r.retry_count p.retry_limit
  | purging ↦ leb (r.updated_at + 3600) p.now && ltb r.retry_count p.retry_limit
  | _ ↦ false
]

abbrev pub is_one_of : List ℕ → ℕ → Bool
is_one_of [] i = false
is_one_of (x ∷ xs) i = x == i || is_one_of xs i

abbrev pub is_candidate : PurgeEnv → List ℕ → DeletionRequest → Bool
is_candidate p attempted r = is_claimable p r && not (is_one_of attempted r.id)

abbrev pub earlier : DeletionRequest → Option DeletionRequest → DeletionRequest
earlier r none = r
earlier r (some q) = if leb r.scheduled_for q.scheduled_for then r else q

-- `.filter(…).exclude(…).order_by("scheduled_for")[:1]`
unfoldable pub next_due : PurgeEnv → List ℕ → List DeletionRequest → Option DeletionRequest
unfolding is_claimable
next_due p attempted [] = none
next_due p attempted (r ∷ requests) =
    let rest = next_due p attempted requests in
    if is_candidate p attempted r then some (earlier r rest) else rest

abbrev pub has_request_id : ℕ → DeletionRequest → Bool
has_request_id i r = r.id == i

unfoldable pub write_by_id :
    ℕ → (DeletionRequest → DeletionRequest) → List DeletionRequest → List DeletionRequest
write_by_id i f = map (λ r. if r.id == i then f r else r)

-- The columns that a claim writes; a stale claim counts as a retry.
abbrev pub claimed : PurgeEnv → DeletionRequest → DeletionRequest
claimed p r = record r {
  status = purging;
  failure_code = [];
  retry_count = if is_purging r.status then suc r.retry_count else r.retry_count;
  updated_at = p.now;
}

abbrev pub change_request : ℕ → (DeletionRequest → DeletionRequest) → Store → Store
change_request i f s = record s { requests = write_by_id i f s.requests }

abbrev pub finished : PurgeEnv → DeletionRequest → DeletionRequest
finished p r = record r {
  status = completed;
  completed_at = some p.now;
  failure_code = [];
  updated_at = p.now;
}

abbrev pub is_done : Outcome → Bool
is_done done = true
is_done _ = false

-- `_purge_account_deletion`, from the claim on: the request is in PURGING.
unfoldable pub purge_account_deletion : PurgeEnv → ℕ → Store → Outcome × Store
unfolding write_by_id anonymize_user
purge_account_deletion p request_id s = elim (find_first (has_request_id request_id) s.requests) [
  | none ↦ (broken, s)
  | some r ↦
      if not (is_purging r.status)
      then (done, s)
      else if not (is_done (p.outcome request_id))
      then (p.outcome request_id, s)
      else elim (get_any_by_id r.user_id s.world.users) [
        | none ↦ (broken, s)
        | some u ↦ (done, change_request request_id (finished p) (anonymize_user u p.now s))
      ]
]

-- `_record_purge_failure`
abbrev pub marked_failed : PurgeEnv → DeletionRequest → DeletionRequest
marked_failed p r = record r {
  status = failed;
  retry_count = suc r.retry_count;
  failure_code = p.failure_code;
  updated_at = p.now;
}

pub record Report : Type 0 where
  pub claimed_count : ℕ
  pub completions : ℕ
  pub failures : ℕ
  pub is_stopped : Bool  -- the soft time limit was raised

-- The rest of a run after one request, by how its purge ended.
abbrev pub tally : Outcome → Report → Report
tally done t = record t { claimed_count = suc t.claimed_count; completions = suc t.completions }
tally broken t = record t { claimed_count = suc t.claimed_count; failures = suc t.failures }
tally out_of_time t = record { claimed_count = 1; completions = 0; failures = 0; is_stopped = true }

abbrev pub after_purge : PurgeEnv → ℕ → Outcome × Store → Store
after_purge p i (done, s) = s
after_purge p i (broken, s) = change_request i (marked_failed p) s
after_purge p i (out_of_time, s) = s

abbrev pub nothing : Report
nothing = record { claimed_count = 0; completions = 0; failures = 0; is_stopped = false }

-- One turn of the loop: the outcome of the purge and the store after it.
unfoldable pub purge_one : PurgeEnv → ℕ → Store → Outcome × Store
unfolding purge_account_deletion write_by_id
purge_one p i s =
    let result = purge_account_deletion p i (change_request i (claimed p) s) in
    (result.0, after_purge p i result)

abbrev pub is_out_of_time : Outcome → Bool
is_out_of_time out_of_time = true
is_out_of_time _ = false

-- The loop of `purge_due_account_deletions`, with the attempts that are left.
unfoldable pub purge_loop : ℕ → PurgeEnv → List ℕ → Store → Report × Store
unfolding next_due purge_one
purge_loop zero p attempted s = (nothing, s)
purge_loop (suc n) p attempted s = elim (next_due p attempted s.requests) [
  | none ↦ (nothing, s)
  | some r ↦
      let (outcome, t) = purge_one p r.id s in
      let (report, v) = purge_loop n p (r.id ∷ attempted) t in
      if is_out_of_time outcome then (tally outcome report, t) else (tally outcome report, v)
]

-- `max(1, min(batch_size, 100))`
abbrev pub clamp : ℕ → ℕ
clamp n = if leb n 0 then 1 else if leb 100 n then 100 else n

-- `purge_due_account_deletions`
unfoldable pub purge_due_account_deletions : ℕ → PurgeEnv → Store → Report × Store
unfolding purge_loop
purge_due_account_deletions batch_size p s = purge_loop (clamp batch_size) p [] s
