-- ===== src/Transactions/Atomic.antt =====
-- What `runInTransaction` of backend/src/utils/mongoTransactions.ts promises its callers: all of
-- the body's writes or none, on a replica set whose commits do not get lost; and every answer of
-- the body, with no retry, where there are no transactions.
use hop_drop.Common.{
  ltb, ◌&&◌, Bool-cases, ◌⊎◌, ℕ, zero, suc, ◌≡◌, ◌≢◌, refl, ap, true, false, inl, inr, List, [],
  ◌∷◌, Error, api, duplicate_key, transaction_unsupported, write_conflict, failure, Result, ok, err,
  ⊤, All,
}
use hop_drop.Transactions.{
  after_attempt, commit, attempt, run_attempts, run_in_transaction, next_fault, later_faults,
  max_retries, is_transaction_unsupported, is_write_conflict_or_transient,
}
use hop_drop.Env.{replica_set}
use hop_drop.Store.{Store, Action, Fault, commits, fails, commit_unknown}

-- A fault of a replica set that is no commit whose answer was lost after it took effect.
abbrev pub RollsBack : Fault → Type 0
RollsBack (commit_unknown true) = ⊥
RollsBack (fails transaction_unsupported) = ⊥
RollsBack _ = ⊤

later_faults-RollsBack : (fs : List Fault) → All RollsBack fs → All RollsBack (later_faults fs)
later_faults-RollsBack [] h = tt
later_faults-RollsBack (f ∷ fs) h = h.1

-- An answer with all the writes of one run of the body, or an error with none.
abbrev pub AllOrNothing : {A : Type 0} → Action A → Store → Result A × Store → Type 0
AllOrNothing fn s (ok a, s') = (fs : List Fault) × (fn (record s { faults = fs }) ≡ (ok a, s'))
AllOrNothing fn s (err e, s') = s' ≡ record s { faults = s'.faults }

-- How an attempt ends that rolls back on failure: as its body did, or with an error at its start.
commit_cases :
    {A : Type 0} (f : Fault) (s : Store) (r : Result A × Store)
    → RollsBack f
    → r.0 ≢ err transaction_unsupported
    → ((a : A) × (commit f s r ≡ (ok a, r.1)) × (r ≡ (ok a, r.1)))
      ⊎ ((e : Error) × (commit f s r ≡ (err e, s)) × (e ≢ transaction_unsupported))
unfolding commit
commit_cases f s (err e, s') h n = inr (e, refl, λ q. n (ap err q))
commit_cases commits s (ok a, s') h n = inl (a, refl, refl)
commit_cases (fails (api c m)) s (ok a, s') h n = inr (api c m, refl, λ q. cc)
commit_cases (fails duplicate_key) s (ok a, s') h n = inr (duplicate_key, refl, λ q. cc)
commit_cases (fails transaction_unsupported) s (ok a, s') h n = absurd h
commit_cases (fails write_conflict) s (ok a, s') h n = inr (write_conflict, refl, λ q. cc)
commit_cases (fails (failure m)) s (ok a, s') h n = inr (failure m, refl, λ q. cc)
commit_cases (commit_unknown true) s (ok a, s') h n = absurd h
commit_cases (commit_unknown false) s (ok a, s') h n = inr (write_conflict, refl, λ q. cc)

RollsBack-next : (fs : List Fault) → All RollsBack fs → RollsBack (next_fault fs)
RollsBack-next [] h = tt
RollsBack-next (f ∷ fs) h = h.0

unsupported_sound : (e : Error) → e ≢ transaction_unsupported → is_transaction_unsupported e ≡ false
unfolding is_transaction_unsupported
unsupported_sound (api c m) n = refl
unsupported_sound duplicate_key n = refl
unsupported_sound transaction_unsupported n = absurd (n refl)
unsupported_sound write_conflict n = refl
unsupported_sound (failure m) n = refl

module _ {A : Type 0} (fn : Action A)
    (supported : (s : Store) → (fn s).0 ≢ err transaction_unsupported) where
  AllOrNothing-faults :
      (s : Store) (fs : List Fault) (x : Result A × Store)
      → AllOrNothing fn (record s { faults = fs }) x
      → AllOrNothing fn s x
  AllOrNothing-faults s fs (ok a, s') h = h
  AllOrNothing-faults s fs (err e, s') h = h

  retry_or_stop-AllOrNothing :
      (left : ℕ) (retry : Action A) (s : Store) (fs : List Fault) (e : Error)
      → e ≢ transaction_unsupported
      → AllOrNothing fn s (retry (record s { faults = fs }))
      → AllOrNothing fn s (after_attempt fn left retry (err e, record s { faults = fs }))
  unfolding after_attempt
  retry_or_stop-AllOrNothing left retry s fs e n h =
      rw (unsupported_sound e n)
        (elim (Bool-cases (is_write_conflict_or_transient e && ltb 0 left)) [
          | inl again ↦ rw again h
          | inr over ↦ rw over refl
        ])

  run_attempts-AllOrNothing :
      (left : ℕ) (s : Store)
      → All RollsBack s.faults
      → AllOrNothing fn s (run_attempts replica_set left fn s)
  unfolding run_attempts attempt
  run_attempts-AllOrNothing zero s h = refl
  run_attempts-AllOrNothing (suc left) s h =
      let fs = later_faults s.faults in
      let s0 = record s { faults = fs } in
      let rest = run_attempts-AllOrNothing left s0 (later_faults-RollsBack s.faults h) in
      elim (commit_cases (next_fault s.faults) s0 (fn s0) (RollsBack-next s.faults h)
        (supported s0)) [
          | inl (a, done, answer) ↦ rw (done, run_attempts) (fs, answer)
          | inr (e, undone, n) ↦
              rw (undone, run_attempts)
                (retry_or_stop-AllOrNothing left (run_attempts replica_set left fn) s fs e n
                  (AllOrNothing-faults s fs (run_attempts replica_set left fn s0) rest))
        ]

  -- On a replica set whose commits do not get lost, `runInTransaction` answers with all the writes
  -- of one run of its body, or throws and leaves the store as it was, whatever faults the attempts
  -- meet and however often it retries.
  pub run_in_transaction-AllOrNothing :
      (s : Store) → All RollsBack s.faults → AllOrNothing fn s (run_in_transaction replica_set fn s)
  unfolding run_in_transaction
  run_in_transaction-AllOrNothing s h = run_attempts-AllOrNothing max_retries s h
