-- ===== src/Transactions/Retry.antt =====
-- What holds of `runInTransaction` of backend/src/utils/mongoTransactions.ts on every deployment,
-- with lost commits and refusals too: an invariant of the body is one of the whole, and an answer
-- is the answer of the body's last run.
use hop_drop.Common.{
  ℕ, zero, suc, ◌≡◌, refl, sym, ◌⊎◌, inl, inr, true, false, ◌&&◌, List, ltb, Bool-cases, Result, ok,
  err,
}
use mathlib.Core.Path.{subst}
use hop_drop.Store.{Store, Action, Fault, commits, fails, commit_unknown}
use hop_drop.Env.{Topology, replica_set, standalone, no_sessions, unreachable}
use hop_drop.Transactions.{
  commit, attempt, after_attempt, run_attempts, run_in_transaction, later_faults, next_fault,
  max_retries, is_transaction_unsupported, is_write_conflict_or_transient,
}

commit_state :
    {A : Type 0} (f : Fault) (s : Store) (r : Result A × Store)
    → ((commit f s r).1 ≡ s) ⊎ ((commit f s r).1 ≡ r.1)
unfolding commit
commit_state f s (err e, s') = inl refl
commit_state commits s (ok a, s') = inr refl
commit_state (fails e) s (ok a, s') = inl refl
commit_state (commit_unknown true) s (ok a, s') = inr refl
commit_state (commit_unknown false) s (ok a, s') = inl refl

commit-eq-ok :
    {A : Type 0} (f : Fault) (s : Store) (r : Result A × Store) (a : A) (s' : Store)
    → commit f s r ≡ (ok a, s')
    → r ≡ (ok a, s')
unfolding commit
commit-eq-ok f s (err e, s1) a s' h = cc
commit-eq-ok commits s (ok b, s1) a s' h = h
commit-eq-ok (fails e) s (ok b, s1) a s' h = cc
commit-eq-ok (commit_unknown applied) s (ok b, s1) a s' h = cc

module _ {A : Type 0} (fn : Action A) where
  module _ {ℓ} (P : Store → Type ℓ)
      (any_faults : (s : Store) (fs : List Fault) → P s → P (record s { faults = fs }))
      (body : (s : Store) → P s → P (fn s).1) where
    attempt-keeps : (topology : Topology) (s : Store) → P s → P (attempt topology fn s).1
    unfolding attempt
    attempt-keeps replica_set s h =
        let s0 = record s { faults = later_faults s.faults } in
        let h0 = any_faults s (later_faults s.faults) h in
        elim (commit_state (next_fault s.faults) s0 (fn s0)) [
          | inl back ↦ subst P (sym back) h0
          | inr done ↦ subst P (sym done) (body s0 h0)
        ]
    attempt-keeps standalone s h = h
    attempt-keeps no_sessions s h = h
    attempt-keeps unreachable s h = h

    after_attempt-keeps :
        (left : ℕ) (retry : Action A) (r : Result A × Store)
        → ((s : Store) → P s → P (retry s).1)
        → P r.1
        → P (after_attempt fn left retry r).1
    unfolding after_attempt
    after_attempt-keeps left retry (ok a, s) again h = h
    after_attempt-keeps left retry (err e, s) again h =
        elim (Bool-cases (is_transaction_unsupported e)) [
          | inl bare ↦ rw bare (body s h)
          | inr other ↦
              rw other (elim (Bool-cases (is_write_conflict_or_transient e && ltb 0 left)) [
                | inl retried ↦ rw retried (again s h)
                | inr thrown ↦ rw thrown h
              ])
        ]

    run_attempts-keeps :
        (topology : Topology) (left : ℕ) (s : Store) → P s → P (run_attempts topology left fn s).1
    unfolding run_attempts
    run_attempts-keeps topology zero s h = h
    run_attempts-keeps topology (suc left) s h =
        after_attempt-keeps left (run_attempts topology left fn) (attempt topology fn s)
          (run_attempts-keeps topology left) (attempt-keeps topology s h)

    -- What the body keeps, and what does not speak of the faults to come, the transaction keeps,
    -- whatever it answers.
    pub run_in_transaction-keeps :
        (topology : Topology) (s : Store) → P s → P (run_in_transaction topology fn s).1
    unfolding run_in_transaction
    run_in_transaction-keeps no_sessions s h = body s h
    run_in_transaction-keeps unreachable s h = h
    run_in_transaction-keeps replica_set s h = run_attempts-keeps replica_set max_retries s h
    run_in_transaction-keeps standalone s h = run_attempts-keeps standalone max_retries s h

  -- The body has run, and ended with this answer and this store.
  abbrev pub Ran : A → Store → Type 0
  Ran a s' = (s : Store) × (fn s ≡ (ok a, s'))

  attempt-Ran :
      (topology : Topology) (s : Store) (a : A) (s' : Store)
      → attempt topology fn s ≡ (ok a, s')
      → Ran a s'
  unfolding attempt
  attempt-Ran replica_set s a s' h =
      (record s { faults = later_faults s.faults }, commit-eq-ok (next_fault s.faults) _ _ a s' h)
  attempt-Ran standalone s a s' h = cc
  attempt-Ran no_sessions s a s' h = cc
  attempt-Ran unreachable s a s' h = cc

  after_attempt-Ran :
      (left : ℕ) (retry : Action A) (r : Result A × Store) (a : A) (s' : Store)
      → ((s : Store) → retry s ≡ (ok a, s') → Ran a s')
      → (r ≡ (ok a, s') → Ran a s')
      → after_attempt fn left retry r ≡ (ok a, s')
      → Ran a s'
  unfolding after_attempt
  after_attempt-Ran left retry (ok b, s) a s' again first h = first h
  after_attempt-Ran left retry (err e, s) a s' again first h =
      elim (Bool-cases (is_transaction_unsupported e)) [
        | inl bare ↦ (s, rw bare at h)
        | inr other ↦ elim (Bool-cases (is_write_conflict_or_transient e && ltb 0 left)) [
          | inl retried ↦ again s (rw (other, retried) at h)
          | inr thrown ↦ first (rw (other, thrown) at h)
        ]
      ]

  run_attempts-Ran :
      (topology : Topology) (left : ℕ) (s : Store) (a : A) (s' : Store)
      → run_attempts topology left fn s ≡ (ok a, s')
      → Ran a s'
  unfolding run_attempts
  run_attempts-Ran topology zero s a s' h = cc
  run_attempts-Ran topology (suc left) s a s' h =
      after_attempt-Ran left (run_attempts topology left fn) (attempt topology fn s) a s'
        (λ s1. run_attempts-Ran topology left s1 a s') (attempt-Ran topology s a s') h

  -- An answer comes from a run of the body, whose store is the one that is left.
  pub run_in_transaction-Ran :
      (topology : Topology) (s : Store) (a : A) (s' : Store)
      → run_in_transaction topology fn s ≡ (ok a, s')
      → Ran a s'
  unfolding run_in_transaction
  run_in_transaction-Ran no_sessions s a s' h = (s, h)
  run_in_transaction-Ran unreachable s a s' h = cc
  run_in_transaction-Ran replica_set s a s' h = run_attempts-Ran replica_set max_retries s a s' h
  run_in_transaction-Ran standalone s a s' h = run_attempts-Ran standalone max_retries s a s' h
