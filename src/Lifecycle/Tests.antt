-- ===== src/Lifecycle/Tests.antt =====
-- A small history of an account: it is deleted, and purged when the days of grace are over.
use ziona_server.Base.{refl, true, [], arith, codes}
use ziona_server.Accounts.Store.{Store}
use ziona_server.Accounts.Recovery.{Call, deletion, perform}
use ziona_server.Accounts.Samples.{tables, action_at}
use ziona_server.Admin.Guards.{warning, run}
use ziona_server.Lifecycle.Purging.{SoundKeyed}
use ziona_server.Lifecycle.History.{History, start, acted, moderated, purged, History-SoundKeyed}
use ziona_server.Purge.Samples.{run_at}
use ziona_server.Purge.Task.{purge_due_account_deletions}

abbrev leave : Call
leave = deletion 1 (codes "pw") [] true

abbrev leaving : Store
leaving = (perform leave (action_at 5) tables).1

abbrev warned : Store
warned = (run (warning (codes "spam")) (action_at 6) 9 2 leaving).1

abbrev gone : Store
gone = (purge_due_account_deletions 20 (run_at 9000000) warned).1

abbrev history : History tables gone
history =
    purged
      (moderated (acted (start tables) leave (action_at 5) refl) (warning (codes "spam"))
        (action_at 6) 9 2)
      20 (run_at 9000000)

tables_kept : SoundKeyed tables
tables_kept = ((λ i. ground arith, refl), λ i. ground arith)

History-SoundKeyed_example : SoundKeyed gone
History-SoundKeyed_example = History-SoundKeyed tables gone history tables_kept
