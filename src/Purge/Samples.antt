-- ===== src/Purge/Samples.antt =====
-- Settings and rows for the tests of the purge.
use ziona_server.Base.{ℕ, none, [], ◌∷◌, codes}
use ziona_server.Accounts.Store.{DeletionRequest, pending, Store}
use ziona_server.Accounts.Samples.{tables}
use ziona_server.Purge.Task.{done, PurgeEnv}

abbrev pub run_at : ℕ → PurgeEnv
run_at time = record {
  now = time;
  retry_limit = 3;
  outcome = λ i. done;
  failure_code = codes "ERROR";
}

-- Ada's deletion, due at second 500.
abbrev pub due_request : DeletionRequest
due_request = record {
  id = 5;
  user_id = 1;
  status = pending;
  requested_at = 0;
  scheduled_for = 500;
  cancelled_at = none;
  completed_at = none;
  retry_count = 0;
  failure_code = [];
  updated_at = 0;
}

abbrev pub scheduled_tables : Store
scheduled_tables = record tables { requests = due_request ∷ [] }
