-- ===== src/Escrow/Release.antt =====
-- What `releaseFunds` of backend/src/services/escrow.service.ts does to the wallets and the ledger,
-- and that a match is paid out once.
use hop_drop.Transactions.Retry.{run_in_transaction-Ran, run_in_transaction-keeps}
use hop_drop.Common.{
  Option-cases, ⊤, Result, err, some, if◌then◌else◌, refl, sym, ap, ◌∙◌, inl, inr, Bool-cases, ok,
  ◌⊎◌, false, List, arith, ==_refl, ℕ, ◌≡◌, Bool, true,
}
use hop_drop.Store.{pure, continue, Fault, Store}
use hop_drop.Escrow.{
  sender_payment_of, payout_of, release_funds, release_body, Payout, is_payout_of, pay_out,
}
use hop_drop.Collection.{find_by_id, exists}
use hop_drop.Model.DeliveryRequest.{DeliveryRequest}
use hop_drop.Model.Trip.{Trip}
use hop_drop.Model.Match.{Match}
use hop_drop.Env.{Env, Topology}
use hop_drop.Transactions.{run_in_transaction}
use mathlib.Core.Path.{subst}
use mathlib.Core.Bool.{false≢true}
use hop_drop.Collection.Laws.{exists-insert}

-- Whether the ledger has a completed payout of the match.
abbrev pub is_paid : ℕ → Store → Bool
is_paid match s = exists (is_payout_of match) s.transactions

-- A payout leaves its row in the ledger.
pay_out-is_paid :
    (match carrier sender : ℕ) (p : Payout) (paid : ℕ) (s : Store)
    → is_paid match (pay_out match carrier sender p paid s) ≡ true
unfolding pay_out is_payout_of
pay_out-is_paid match carrier sender p paid s = simp (exists-insert, ==_refl)

module _ (match carrier sender : ℕ) (p : Payout) (paid : ℕ) where
  -- The store afterwards is the one before, or the one before with one payout; the faults to come
  -- are the environment's.
  abbrev pub AtMostOnce : Store → Store → Type 0
  AtMostOnce s s' =
      (fs : List Fault) × ((s' ≡ record s { faults = fs })
        ⊎ (s' ≡ record (pay_out match carrier sender p paid s) { faults = fs }))

  body_cases :
      (s : Store)
      → let s' = (release_body match carrier sender p paid s).1 in
        (s' ≡ s) ⊎ ((is_paid match s ≡ false) × (s' ≡ pay_out match carrier sender p paid s))
  unfolding release_body
  body_cases s = ground arith

  pay_out-faults :
      (s : Store) (fs : List Fault)
      → pay_out match carrier sender p paid (record s { faults = fs })
        ≡ record (pay_out match carrier sender p paid s) { faults = fs }
  unfolding pay_out
  pay_out-faults s fs = refl

  body-AtMostOnce :
      (s s1 : Store)
      → AtMostOnce s s1
      → AtMostOnce s (release_body match carrier sender p paid s1).1
  body-AtMostOnce s s1 (fs, once) = elim (body_cases s1) [
    | inl same ↦ subst (AtMostOnce s) (sym same) (fs, once)
    | inr (unpaid, done) ↦ elim once [
      | inl e ↦ (fs, inr (done ∙ ap (pay_out match carrier sender p paid) e ∙ pay_out-faults s fs))
      | inr e ↦ absurd (paid_twice unpaid e)
    ]
  ]
    where
      paid_twice :
          is_paid match s1 ≡ false
          → s1 ≡ record (pay_out match carrier sender p paid s) { faults = fs }
          → ⊥
      paid_twice unpaid e =
          false≢true
            (sym unpaid ∙ ap (is_paid match) e ∙ pay_out-is_paid match carrier sender p paid s)

  body_ok :
      (s s' : Store)
      → release_body match carrier sender p paid s ≡ (ok tt, s')
      → s' ≡ (if is_paid match s then s else pay_out match carrier sender p paid s)
  unfolding release_body
  body_ok s s' h = ground arith

  -- After a run of the body that ends well, the match is paid.
  body-is_paid :
      (s s' : Store)
      → release_body match carrier sender p paid s ≡ (ok tt, s')
      → is_paid match s' ≡ true
  body-is_paid s s' h = elim (Bool-cases (is_paid match s)) [
    | inl before ↦ let e : s' ≡ s = rw before at (body_ok s s' h) in ap (is_paid match) e ∙ before
    | inr unpaid ↦
        let e : s' ≡ pay_out match carrier sender p paid s = rw unpaid at (body_ok s s' h) in
        ap (is_paid match) e ∙ pay_out-is_paid match carrier sender p paid s
  ]

  with_faults : List Fault → Store → Store
  with_faults fs s = record s { faults = fs }

  AtMostOnce-faults :
      (s s1 : Store) (fs : List Fault) → AtMostOnce s s1 → AtMostOnce s (record s1 { faults = fs })
  unfolding with_faults
  AtMostOnce-faults s s1 fs (fs', inl e) = (fs, inl (ap (with_faults fs) e))
  AtMostOnce-faults s s1 fs (fs', inr e) = (fs, inr (ap (with_faults fs) e))

  -- The transaction of a release pays at most once, whatever the deployment and the faults.
  transaction-AtMostOnce :
      (topology : Topology) (s : Store)
      → AtMostOnce s (run_in_transaction topology (release_body match carrier sender p paid) s).1
  transaction-AtMostOnce topology s =
      run_in_transaction-keeps (release_body match carrier sender p paid) (AtMostOnce s)
        (AtMostOnce-faults s) (body-AtMostOnce s) topology s (s.faults, inl refl)

-- A step whose answer is dropped leaves the store as the step left it.
discard_state : {A : Type 0} (b : A) (r : Result ⊤ × Store) → (continue r (λ _. pure b)).1 ≡ r.1
discard_state b (ok a, s') = refl
discard_state b (err e, s') = refl

-- `releaseFunds` of a match either leaves the store as it was or pays out once, the amounts that
-- the match, its trip and its request give, on every deployment, through every retry, and also
-- where the answer to a commit is lost.
pub release_funds-AtMostOnce :
    (env : Env) (match : ℕ) (s : Store) (m : Match) (t : Trip) (r : DeliveryRequest)
    → find_by_id match s.matches ≡ some m
    → find_by_id m.trip s.trips ≡ some t
    → find_by_id m.delivery_request s.requests ≡ some r
    → AtMostOnce match m.carrier m.sender
        (payout_of env m t r)
        (sender_payment_of m r)
        s
        (release_funds env match s).1
unfolding release_funds
release_funds-AtMostOnce env match s m t r fm ft fr =
    let p = payout_of env m t r in
    let paid = sender_payment_of m r in
    let body = release_body match m.carrier m.sender p paid in
    let once = AtMostOnce match m.carrier m.sender p paid s in
    rw (fm, release_funds)
      (elim (Bool-cases (is_paid match s)) [
        | inl before ↦ rw before (s.faults, inl refl)
        | inr unpaid ↦
            rw (unpaid, ft, fr)
              (subst once (sym (discard_state p (run_in_transaction env.topology body s)))
                (transaction-AtMostOnce match m.carrier m.sender p paid env.topology s))
      ])

discard_ok :
    {A : Type 0} (b a : A) (s' : Store) (r : Result ⊤ × Store)
    → continue r (λ _. pure b) ≡ (ok a, s')
    → r ≡ (ok tt, s')
discard_ok b a s' (ok tt, s) h = cc
discard_ok b a s' (err e, s) h = cc

module _ (env : Env) (match : ℕ) (s s' : Store) (p : Payout)
    (h : release_funds env match s ≡ (ok p, s')) where
  paid_after :
      (m : Match)
      → find_by_id match s.matches ≡ some m
      → is_paid match s ≡ false
      → is_paid match s' ≡ true
  unfolding release_funds
  paid_after m q unpaid = elim (Option-cases (find_by_id m.trip s.trips)) [
    | inl q1 ↦ cc (rw (q, unpaid, q1) at h)
    | inr (t, q1) ↦ elim (Option-cases (find_by_id m.delivery_request s.requests)) [
      | inl q2 ↦ cc (rw (q, unpaid, q1, q2) at h)
      | inr (r, q2) ↦
          let h1 = rw (q, unpaid, q1, q2) at h in
          let p1 = payout_of env m t r in
          let paid = sender_payment_of m r in
          let body = release_body match m.carrier m.sender p1 paid in
          let done = discard_ok p1 p s' (run_in_transaction env.topology body s) h1 in
          let ran = run_in_transaction-Ran body env.topology s tt s' done in
          body-is_paid match m.carrier m.sender p1 paid ran.0 s' ran.1
    ]
  ]

  -- Where a release answers, the match is paid.
  pub release_funds-is_paid : is_paid match s' ≡ true
  unfolding release_funds
  release_funds-is_paid = elim (Option-cases (find_by_id match s.matches)) [
    | inl q ↦ cc (rw q at h)
    | inr (m, q) ↦ elim (Bool-cases (is_paid match s)) [
      | inl before ↦
          let h1 : (s ≡ s') = ap (λ x. x.1) (rw (q, before) at h) in
          ap (is_paid match) (sym h1) ∙ before
      | inr unpaid ↦ paid_after m q unpaid
    ]
  ]
