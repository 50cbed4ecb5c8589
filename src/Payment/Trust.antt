-- ===== src/Payment/Trust.antt =====
-- Whom backend/src/services/payment.service.ts believes, and how often: signatures, and
-- confirmations that come twice.
use hop_drop.Model.Transaction.{
  provider_order, mock_order, digest, mock_signature, mock_signature, mock_order, digest,
  is_completed, Transaction, safety_deposit, Signature, OrderId,
}
use hop_drop.Common.{
  ◌≢◌, ap, true, ◌&&◌, arith, ◌≡◌, refl, inl, inr, false, some, ◌==◌, Bool-cases, Option-cases,
  Result, ok, err, ℕ,
}
use hop_drop.Payment.{paid_row, verify_signature, Provider}
use mathlib.Core.Path.{subst}
use hop_drop.Collection.Laws.{find_one-update, find_by_id-update_self}
use hop_drop.Collection.{find_one, find_by_id, Unique}
use hop_drop.Model.Trip.{Trip}
use hop_drop.Payment.Confirm.{
  is_payment_row, idempotent, confirmed, confirm_delivery_payment, lock_deposit,
  confirm_trip_deposit,
}
use hop_drop.Env.{Env}
use hop_drop.Store.{Store}

-- An error that leaves the store as it was.
abbrev pub Refused : {A : Type 0} → Store → Result A × Store → Type 0
Refused s (ok a, s') = ⊥
Refused s (err e, s') = s' ≡ s

-- Only the provider's digest is believed, and the mock signature of a mock order in the demo mode.
not_verified :
    (env : Env) (provider : Provider) (order : OrderId) (payment : ℕ) (signature : Signature)
    → signature ≢ digest (provider.payment_digest order payment)
    → ((k : ℕ) → order ≡ mock_order k → signature ≡ mock_signature → env.demo_mode ≡ false)
    → verify_signature env provider order payment signature ≡ false
unfolding verify_signature
not_verified env provider (mock_order k) payment mock_signature other no_demo = no_demo k refl refl
not_verified env provider (provider_order k) payment mock_signature other no_demo = refl
not_verified env provider (mock_order k) payment (digest d) other no_demo = ground arith
not_verified env provider (provider_order k) payment (digest d) other no_demo = ground arith

module _ (env : Env) (provider : Provider) (user : ℕ) (order : OrderId) (payment : ℕ)
    (signature : Signature) where
  -- A confirmation whose signature is not the digest of its order and payment under the provider's
  -- secret is refused and changes nothing, for a deposit and for a delivery. The mock signature of a
  -- mock order counts as forged unless the demo mode is on.
  pub forged-Refused :
      (trip request : ℕ) (s : Store)
      → signature ≢ digest (provider.payment_digest order payment)
      → ((k : ℕ) → order ≡ mock_order k → signature ≡ mock_signature → env.demo_mode ≡ false)
      → Refused s (confirm_trip_deposit env provider trip user order payment signature s)
        × Refused s (confirm_delivery_payment env provider request user order payment signature s)
  unfolding confirm_trip_deposit confirm_delivery_payment
  forged-Refused trip request s other no_demo = (deposit, delivery)
    where
      forged : verify_signature env provider order payment signature ≡ false
      forged = not_verified env provider order payment signature other no_demo

      deposit : Refused s (confirm_trip_deposit env provider trip user order payment signature s)
      deposit = elim (Option-cases (find_by_id trip s.trips)) [
        | inl q ↦ rw (q, confirm_trip_deposit) refl
        | inr (t, q) ↦ elim (Bool-cases (t.carrier == user)) [
          | inl own ↦ rw (q, confirm_trip_deposit) (rw own (rw forged refl))
          | inr other ↦ rw (q, confirm_trip_deposit) (rw other refl)
        ]
      ]

      delivery :
          Refused s (confirm_delivery_payment env provider request user order payment signature s)
      delivery = elim (Option-cases (find_by_id request s.requests)) [
        | inl q ↦ rw (q, confirm_delivery_payment) refl
        | inr (r, q) ↦ elim (Bool-cases (r.sender == user)) [
          | inl own ↦ rw (q, confirm_delivery_payment) (rw own (rw forged refl))
          | inr other ↦ rw (q, confirm_delivery_payment) (rw other refl)
        ]
      ]

  paid_row-kept :
      (b : Transaction)
      → is_payment_row order user safety_deposit (paid_row payment signature b)
        ≡ is_payment_row order user safety_deposit b
  unfolding is_payment_row paid_row
  paid_row-kept b = refl

  -- What a confirmation finds after the deposit is locked.
  locked_again :
      (trip : ℕ) (s : Store) (t : Trip) (k : ℕ) (tx : Transaction)
      → Unique s.transactions
      → find_by_id trip s.trips ≡ some t
      → (t.carrier == user) ≡ true
      → verify_signature env provider order payment signature ≡ true
      → find_one (is_payment_row order user safety_deposit) s.transactions ≡ some (k, tx)
      → let s1 = (lock_deposit env trip t user payment signature k tx s).1 in
        confirm_trip_deposit env provider trip user order payment signature s1 ≡ (ok idempotent, s1)
  unfolding confirm_trip_deposit lock_deposit paid_row
  locked_again trip s t k tx unique q own genuine q2 =
      let paid_trip =
        find_by_id-update_self trip
          (λ t. record t {
            safety_deposit_paid = true;
            safety_deposit_transaction_id = some payment;
          })
          s.trips q in
      let row =
        find_one-update (is_payment_row order user safety_deposit) (paid_row payment signature)
          s.transactions k tx paid_row-kept unique q2 in
      rw (paid_trip, confirm_trip_deposit)
        (rw own (rw genuine (rw (row, confirm_trip_deposit) refl)))

  -- A deposit that is confirmed is not confirmed again: the same request, sent a second time,
  -- answers so and changes nothing.
  pub confirm_trip_deposit-twice :
      (trip : ℕ) (s s' : Store)
      → Unique s.transactions
      → confirm_trip_deposit env provider trip user order payment signature s ≡ (ok confirmed, s')
      → confirm_trip_deposit env provider trip user order payment signature s' ≡ (ok idempotent, s')
  unfolding confirm_trip_deposit lock_deposit
  confirm_trip_deposit-twice trip s s' unique h = elim (Option-cases (find_by_id trip s.trips)) [
    | inl q ↦ cc (rw q at h)
    | inr (t, q) ↦ elim (Bool-cases (t.carrier == user)) [
      | inr other ↦ cc (rw (q, other) at h)
      | inl own ↦ elim (Bool-cases (verify_signature env provider order payment signature)) [
        | inr forged ↦ cc (rw (q, own, forged) at h)
        | inl genuine ↦
            elim (Option-cases
              (find_one (is_payment_row order user safety_deposit) s.transactions)) [
                | inl q2 ↦ cc (rw (q, own, genuine, q2) at h)
                | inr ((k, tx), q2) ↦
                    elim (Bool-cases (is_completed tx.status && t.safety_deposit_paid)) [
                      | inl done ↦ cc (rw (q, own, genuine, q2, done) at h)
                      | inr open_row ↦
                          subst
                            (λ x.
                              confirm_trip_deposit env provider trip user order payment signature x
                              ≡ (ok idempotent, x))
                            (ap (λ x. x.1) (rw (q, own, genuine, q2, open_row) at h))
                            (locked_again trip s t k tx unique q own genuine q2)
                    ]
              ]
      ]
    ]
  ]
