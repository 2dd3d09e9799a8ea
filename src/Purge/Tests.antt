-- ===== src/Purge/Tests.antt =====
-- The theorems about the purge at small inputs.
use ziona_server.Base.{◌-◌, min, ◌≡◌, refl, some, arith, ◌⊎◌, ◌<◌, false}
use ziona_server.Accounts.User.{get_any_by_id}
use ziona_server.Accounts.Store.{get_request, Store}
use ziona_server.Purge.Task.{purge_due_account_deletions, clamp, is_claimable, Report}
use ziona_server.Purge.Requests.{AreKeyed}
use ziona_server.Purge.Samples.{run_at, due_request, scheduled_tables}
use ziona_server.Purge.Spared.{purge_due_account_deletions_spares}
use ziona_server.Purge.Progress.{HaveUsers, due_count}
use ziona_server.Purge.Settled.{IsErased, IsUntouched, purge_due_account_deletions_settles}
use ziona_server.Accounts.Samples.{ada}

keyed : AreKeyed scheduled_tables.requests
keyed i = ground arith

purge_due_account_deletions_spares_example :
    (get_request 1 (purge_due_account_deletions 20 (run_at 499) scheduled_tables).1.requests
      ≡ some due_request)
    × (get_any_by_id 1 (purge_due_account_deletions 20 (run_at 499) scheduled_tables).1.world.users
        ≡ get_any_by_id 1 scheduled_tables.world.users)
unfolding get_request is_claimable
purge_due_account_deletions_spares_example =
    purge_due_account_deletions_spares 20 (run_at 499) scheduled_tables 1 due_request keyed refl
      refl

have_users : HaveUsers scheduled_tables
unfolding get_request get_any_by_id
have_users i asked = ground arith

abbrev purged : Report × Store
purged = purge_due_account_deletions 20 (run_at 600) scheduled_tables

purge_due_account_deletions_settles_example :
    (purged.0.completions ≡ min (clamp 20) (due_count (run_at 600) scheduled_tables))
    × (purged.0.failures ≡ 0)
    × (due_count (run_at 600) purged.1 ≡ due_count (run_at 600) scheduled_tables - clamp 20)
    × (IsErased (run_at 600) 1 due_request ada purged.1
        ⊎ (IsUntouched (run_at 600) 1 due_request ada purged.1
            × ((is_claimable (run_at 600) due_request ≡ false)
                ⊎ (clamp 20 < due_count (run_at 600) scheduled_tables))))
unfolding get_request get_any_by_id
purge_due_account_deletions_settles_example =
    purge_due_account_deletions_settles 20 (run_at 600) scheduled_tables 1 due_request ada
      (λ i. refl) keyed have_users refl refl
