-- ===== src/Transactions.antt =====
-- backend/src/utils/mongoTransactions.ts: a handler's writes as one database transaction, tried up
-- to five times. The deployment (`Env.topology`) and the outcome of each attempt (`Store.faults`,
-- one for each attempt to come) are the environment's. A rolled-back attempt leaves the store as
-- it was; the wait between attempts is left out.
pub mod Atomic
pub mod Retry
use hop_drop.Common.{
  ℕ, zero, suc, Bool, true, false, ◌&&◌, List, [], ◌∷◌, ltb, if◌then◌else◌, Error,
  transaction_unsupported, write_conflict, failure, Result, ok, err,
}
use hop_drop.Env.{Topology, replica_set, no_sessions, unreachable}
use hop_drop.Store.{Store, Action, Fault, commits, fails, commit_unknown}

unfoldable pub is_transaction_unsupported : Error → Bool
is_transaction_unsupported transaction_unsupported = true
is_transaction_unsupported _ = false

unfoldable pub is_write_conflict_or_transient : Error → Bool
is_write_conflict_or_transient write_conflict = true
is_write_conflict_or_transient _ = false

abbrev pub next_fault : List Fault → Fault
next_fault [] = commits
next_fault (f ∷ fs) = f

abbrev pub later_faults : List Fault → List Fault
later_faults [] = []
later_faults (f ∷ fs) = fs

-- How an attempt that started at `s` ends, once its body has given a result.
unfoldable pub commit : {A : Type 0} → Fault → Store → Result A × Store → Result A × Store
commit fault s (err e, s') = (err e, s)
commit commits s (ok a, s') = (ok a, s')
commit (fails e) s (ok a, s') = (err e, s)
commit (commit_unknown applied) s (ok a, s') = (err write_conflict, if applied then s' else s)

-- `startTransaction`, the body and `commitTransaction`, or `abortTransaction`.
unfoldable pub attempt : {A : Type 0} → Topology → Action A → Action A
unfolding commit
attempt replica_set fn s =
    let s0 = record s { faults = later_faults s.faults } in commit (next_fault s.faults) s0 (fn s0)
attempt _ fn s = (err transaction_unsupported, s)

-- The `return` and the `catch` of the loop's body, with the later attempts as `retry`.
unfoldable pub after_attempt :
    {A : Type 0} → Action A → ℕ → Action A → Result A × Store → Result A × Store
unfolding is_transaction_unsupported is_write_conflict_or_transient
after_attempt fn left retry (ok a, s) = (ok a, s)
after_attempt fn left retry (err e, s) =
    if is_transaction_unsupported e
    then fn s
    else if is_write_conflict_or_transient e && ltb 0 left
    then retry s
    else (err e, s)

-- The loop over the attempts that are left.
unfoldable pub run_attempts : {A : Type 0} → Topology → ℕ → Action A → Action A
unfolding attempt after_attempt
run_attempts topology zero fn s = (err (failure "Transaction max retries exceeded"), s)
run_attempts topology (suc left) fn s =
    after_attempt fn left (run_attempts topology left fn) (attempt topology fn s)

abbrev pub max_retries : ℕ
max_retries = 5

-- `runInTransaction`: without sessions the body runs outside any transaction.
unfoldable pub run_in_transaction : {A : Type 0} → Topology → Action A → Action A
unfolding run_attempts
run_in_transaction no_sessions fn s = fn s
run_in_transaction unreachable fn s = (err (failure "session"), s)
run_in_transaction topology fn s = run_attempts topology max_retries fn s
