-- ===== src/Lifecycle/History.antt =====
-- Any history of account actions, administrators' operations and runs of the purge.
use ziona_server.Base.{ℕ}
use ziona_server.Accounts.Store.{Store, ActionEnv}
use ziona_server.Accounts.Recovery.{Call, perform}
use ziona_server.Admin.Guards.{Operation, run}
use ziona_server.Lifecycle.Steps.{perform-Sound}
use ziona_server.Lifecycle.Operations.{run-Sound}
use ziona_server.Lifecycle.Keys.{IsFreshId, perform-AreKeyed, run-AreKeyed}
use ziona_server.Lifecycle.Purging.{SoundKeyed, purge_due_account_deletions-SoundKeyed}
use ziona_server.Purge.Task.{PurgeEnv, purge_due_account_deletions}

-- A history: account actions, administrators' operations and runs of the purge, in any order, with
-- any result. The id that an action may give to a new request is not in use.
pub data History : Store → Store → Type 0 where
  start : (s : Store) → History s s
  acted :
      {s t : Store}
      → History s t
      → (c : Call) (a : ActionEnv) → IsFreshId a.request_id t.requests
      → History s (perform c a t).1
  moderated :
      {s t : Store}
      → History s t
      → (op : Operation) (a : ActionEnv) (admin_id target : ℕ)
      → History s (run op a admin_id target t).1
  purged :
      {s t : Store}
      → History s t
      → (batch_size : ℕ) (p : PurgeEnv) → History s (purge_due_account_deletions batch_size p t).1

-- Whatever account actions, administrators' operations and runs of the purge happen, in any order and
-- with any result, the tables stay sound: ids stay unique, a user has one deletion request at most,
-- and a user's row is soft-deleted exactly in the deleted state, is flagged active in the active
-- state only, and awaits deletion only while it has a request that is neither cancelled nor
-- completed.
pub History-SoundKeyed : (s t : Store) → History s t → SoundKeyed s → SoundKeyed t
History-SoundKeyed s _ (start _) kept = kept
History-SoundKeyed s _ (acted h c a fresh) kept =
    let (sound, keyed) = History-SoundKeyed s _ h kept in
    (perform-Sound c a _ sound, perform-AreKeyed c a _ fresh keyed)
History-SoundKeyed s _ (moderated h op a admin_id target) kept =
    let (sound, keyed) = History-SoundKeyed s _ h kept in
    (run-Sound op a admin_id target _ sound, run-AreKeyed op a admin_id target _ keyed)
History-SoundKeyed s _ (purged h batch_size p) kept =
    purge_due_account_deletions-SoundKeyed p batch_size _ (History-SoundKeyed s _ h kept)
