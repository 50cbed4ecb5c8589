-- ===== src/Tests/Ledger.antt =====
-- Runs of the ledger and of the payments of backend/src/services: holds, releases, confirmations.
use hop_drop.Common.{
  List, ◌+◌, ◌*◌, ◌≤◌, ◌<◌, min, max, ◌≡◌, true, false, arith, write_conflict, refl, some, none, [],
  ◌∷◌, ok,
}
use hop_drop.Payment.Webhook.{
  record_webhook, update_order_row, apply_event, received_before, WebhookBody, handle_webhook,
  payment_captured, payment_failed,
}
use hop_drop.Model.Match.{new_match}
use hop_drop.Escrow.Release.{release_funds-is_paid, is_paid, release_funds-AtMostOnce, AtMostOnce}
use hop_drop.Transactions.{after_attempt, commit, attempt, run_attempts, run_in_transaction}
use hop_drop.Payment.Trust.{confirm_trip_deposit-twice, forged-Refused, Refused}
use hop_drop.Payment.Once.{
  webhook_once, WebhookStep, wait, sweep, message, elsewhere, on_webhook_steps,
}
use hop_drop.Transactions.Atomic.{run_in_transaction-AllOrNothing, AllOrNothing}
use hop_drop.Env.{replica_set}
use hop_drop.Payment.Confirm.{
  idempotent, confirm_delivery_payment, is_payment_row, lock_deposit, confirm_trip_deposit,
}
use hop_drop.Pricing.Fairness.{quote_adds_up, deposit_bounds, quote_mono}
use hop_drop.Collection.{exists, find_one, find_by_id}
use hop_drop.Escrow.{
  sender_payment_of, pay_out, payout_of, sender_payment, release_body, hold_body, release_funds,
}
use hop_drop.Pricing.{
  min_payout, declared_rupees, raw_carrier_earning, calculate_quote,
  calculate_safety_deposit_amount,
}
use hop_drop.Model.Transaction.{for_trip, safety_deposit, provider_order, digest}
use hop_drop.Tests.Fixtures.{
  demo_package, demo_window, demo_env, demo_store, demo_match, demo_trip, demo_request,
}
use hop_drop.Payment.{Provider, initiated_row, verify_signature}
use hop_drop.Store.{Store, fails, commit_unknown}

-- A release whose first commit is refused with a write conflict and whose second one gets lost.
abbrev faulty_store : Store
faulty_store = record demo_store { faults = fails write_conflict ∷ commit_unknown true ∷ [] }

release_funds-AtMostOnce_example :
    AtMostOnce 7 1 2
      (payout_of demo_env demo_match demo_trip demo_request)
      (sender_payment_of demo_match demo_request)
      faulty_store
      (release_funds demo_env 7 faulty_store).1
unfolding find_by_id new_match
release_funds-AtMostOnce_example =
    release_funds-AtMostOnce demo_env 7 faulty_store demo_match demo_trip demo_request refl refl
      refl

abbrev conflict_store : Store
conflict_store = record demo_store { faults = fails write_conflict ∷ [] }

release_funds-is_paid_example : is_paid 7 (release_funds demo_env 7 demo_store).1 ≡ true
unfolding release_funds release_body pay_out payout_of find_by_id exists run_in_transaction
    run_attempts attempt commit after_attempt new_match
release_funds-is_paid_example =
    release_funds-is_paid demo_env 7 demo_store (release_funds demo_env 7 demo_store).1
      (payout_of demo_env demo_match demo_trip demo_request) refl

run_in_transaction-AllOrNothing_example :
    AllOrNothing
      (hold_body 2 7 22000 sender_payment)
      conflict_store
      (run_in_transaction replica_set (hold_body 2 7 22000 sender_payment) conflict_store)
unfolding hold_body
run_in_transaction-AllOrNothing_example =
    run_in_transaction-AllOrNothing (hold_body 2 7 22000 sender_payment) (λ s h. cc) conflict_store
      (tt, tt)

abbrev demo_provider : Provider
demo_provider = record { payment_digest = λ o p. p + 1; webhook_digest = λ b. b + 2 }

forged-Refused_example :
    Refused demo_store
      (confirm_trip_deposit demo_env demo_provider 3 1 (provider_order 4) 8 (digest 5) demo_store)
    × Refused demo_store (
        confirm_delivery_payment demo_env demo_provider 5 1
          (provider_order 4)
          8
          (digest 5)
          demo_store)
unfolding verify_signature
forged-Refused_example =
    forged-Refused demo_env demo_provider 1 (provider_order 4) 8 (digest 5) 3 5 demo_store (λ h. cc)
      (λ k h. cc)

-- A trip whose deposit is ordered and not paid.
abbrev unpaid_store : Store
unpaid_store = record demo_store {
  trips = (3, record demo_trip { safety_deposit_paid = false }) ∷ [];
  transactions =
      (9, initiated_row 1000 1 safety_deposit 50000 (provider_order 4) (for_trip 3)) ∷ [];
}

abbrev after_deposit : Store
after_deposit =
    (confirm_trip_deposit demo_env demo_provider 3 1 (provider_order 4) 8 (digest 9) unpaid_store).1

confirm_trip_deposit-twice_example :
    confirm_trip_deposit demo_env demo_provider 3 1 (provider_order 4) 8 (digest 9) after_deposit
    ≡ (ok idempotent, after_deposit)
unfolding confirm_trip_deposit lock_deposit verify_signature is_payment_row initiated_row find_by_id
    find_one
confirm_trip_deposit-twice_example =
    confirm_trip_deposit-twice demo_env demo_provider 1 (provider_order 4) 8 (digest 9) 3
      unpaid_store after_deposit (refl, tt) refl

abbrev captured_body : WebhookBody
captured_body = record {
  raw = 5;
  event = payment_captured;
  payment_entity = some (record { id = 8; order_id = some (provider_order 4) });
}

abbrev failed_body : WebhookBody
failed_body = record captured_body { raw = 6; event = payment_failed }

abbrev after_webhook : Store
after_webhook = (handle_webhook demo_provider captured_body (some 7) unpaid_store).1

-- What comes between the two messages, an hour later.
abbrev webhook_steps : List WebhookStep
webhook_steps = wait 3600000 ∷ sweep ∷ message captured_body (some 7) ∷ elsewhere demo_store ∷ []

webhook_once_example :
    let s2 = on_webhook_steps demo_provider webhook_steps after_webhook in
    handle_webhook demo_provider failed_body (some 8) s2 ≡ (ok received_before, s2)
unfolding handle_webhook find_one exists apply_event update_order_row record_webhook initiated_row
webhook_once_example =
    webhook_once demo_provider captured_body failed_body
      (record { id = 8; order_id = some (provider_order 4) })
      (record { id = 8; order_id = some (provider_order 4) }) 7 8 webhook_steps unpaid_store
      after_webhook refl refl refl refl (omega arith) refl

quote_adds_up_example :
    let q = calculate_quote demo_env 50 none demo_window demo_package in
    (q.total_charge ≡ q.carrier_earning + q.platform_fee)
    × (q.carrier_earning ≡ max (raw_carrier_earning q) (min_payout demo_package))
    × (200 * q.platform_fee ≤ 2 * (q.carrier_earning * 10) + 100)
    × (2 * (q.carrier_earning * 10) < 200 * q.platform_fee + 100)
quote_adds_up_example = quote_adds_up demo_env none demo_window 50 demo_package

quote_mono_example :
    let q = calculate_quote demo_env 50 none demo_window demo_package in
    let q' =
      calculate_quote demo_env 60 none demo_window (record demo_package { weight_g = 2500 }) in
    (q.carrier_earning ≤ q'.carrier_earning) × (q.total_charge ≤ q'.total_charge)
quote_mono_example =
    quote_mono demo_env none demo_window 50 60 2500 demo_package (omega arith) (omega arith)

deposit_bounds_example :
    let d = calculate_safety_deposit_amount demo_env demo_package in
    (d ≤ 500000)
    × (min 50000 500000 ≤ d)
    × (min (declared_rupees demo_package * 10) 500000 ≤ d)
    × (d ≤ max (declared_rupees demo_package * 10) 50000)
deposit_bounds_example = deposit_bounds demo_env demo_package
