-- ===== src/Tests/Requests.antt =====
-- Runs of the requests of backend/src/services/delivery.service.ts, of a payout and of a rating.
use hop_drop.Delivery.Refund.{cancel_request-closes, cancel_request-worth, worth}
use hop_drop.Delivery.Requests.{
  cancelled_match, refund_wallet, cancelled_request, is_open_match_of, is_refundable, cancel_writes,
  cancel_request,
}
use hop_drop.Escrow.Wallets.{pay_out-wallets}
use hop_drop.Model.Match.{new_match, MatchStatus}
use hop_drop.Common.Int.{◌-ℤ◌, clip, ◌+ℤ◌, pos}
use hop_drop.Collection.{update_by_id, update_many, Every, find_by_id}
use hop_drop.Collection.Laws.{Every-nil, Every-cons}
use hop_drop.Escrow.Quoted.{payout_of-quote, quote_of}
use hop_drop.MatchService.Ratings.{rate_match-HasFairRating, HasFairRating}
use hop_drop.Escrow.{sender_payment_of, pay_out, payout_of, Payout}
use hop_drop.MatchService.Feedback.{rate_match}
use hop_drop.Pricing.{calculate_quote}
use hop_drop.Model.DeliveryRequest.{DeliveryRequest}
use hop_drop.Model.User.{User, new_user}
use hop_drop.Common.{◌+◌, ◌≡◌, true, false, arith, refl, some, none, [], ◌∷◌}
use hop_drop.Tests.Fixtures.{
  demo_env, demo_store, demo_match, demo_trip, demo_request, demo_package, with_wallet,
}
use hop_drop.Store.{Store}

abbrev after_cancel : Store
after_cancel = (cancel_request 2 5 demo_store).1

cancel_request-closes_example : is_open_match_of 5 (cancelled_match 1000 2 demo_match) ≡ false
unfolding cancel_request cancel_writes find_by_id is_refundable update_many is_open_match_of
    new_match
cancel_request-closes_example =
    cancel_request-closes 2 5 demo_store after_cancel demo_request
      (cancelled_request true demo_request) 7 (cancelled_match 1000 2 demo_match) refl refl refl
      refl

abbrev meera : User
meera = with_wallet 0 22000 (new_user "Meera" "m@x" 92)

abbrev ravi : User
ravi = with_wallet 0 50000 (new_user "Ravi" "r@x" 91)

cancel_request-worth_example :
    worth (record meera { wallet = refund_wallet 22000 meera.wallet }) ≡ worth meera
unfolding cancel_request cancel_writes find_by_id is_refundable update_by_id
cancel_request-worth_example =
    cancel_request-worth 2 5 demo_store 2 meera
      (record meera { wallet = refund_wallet 22000 meera.wallet }) refl refl

-- The request of the store with the amounts of its quote.
abbrev quoted_request : DeliveryRequest
quoted_request =
    let q = calculate_quote demo_env 50 none demo_request.preferred_delivery_window demo_package in
    record demo_request {
      quoted_price = some q.carrier_earning;
      platform_fee = some q.platform_fee;
      total_charge = some q.total_charge;
    }

payout_of-quote_example :
    let q = quote_of demo_env 50 none demo_match demo_trip quoted_request in
    let p = payout_of demo_env demo_match demo_trip quoted_request in
    (p.payout_to_carrier ≡ q.carrier_earning)
    × (p.payout_to_carrier + p.platform_fee ≡ sender_payment_of demo_match quoted_request)
payout_of-quote_example =
    payout_of-quote demo_env 50 none demo_match demo_trip quoted_request refl refl refl

abbrev demo_payout : Payout
demo_payout = record { payout_to_carrier = 20000; deposit_amount = 50000; platform_fee = 2000 }

pay_out-wallets_example :
    let s' = pay_out 7 1 2 demo_payout 22000 demo_store in
    (find_by_id 1 s'.users
      ≡ some (record ravi {
        wallet = record {
          balance = pos 0 +ℤ pos 70000;
          escrow_held = clip (pos 50000 -ℤ pos 50000);
        };
      }))
    × (find_by_id 2 s'.users
        ≡ some (record meera {
          wallet = record { balance = pos 0; escrow_held = clip (pos 22000 -ℤ pos 22000) };
        }))
    × (find_by_id 6 s'.users ≡ find_by_id 6 demo_store.users)
unfolding find_by_id
pay_out-wallets_example =
    pay_out-wallets 7 1 2 6 demo_payout 22000 demo_store ravi meera (λ e. omega arith) refl refl
      (λ e. omega arith) (λ e. omega arith)

-- The match of the store, delivered.
abbrev delivered_store : Store
delivered_store = record demo_store {
  matches = (7, record demo_match { status = MatchStatus.delivered }) ∷ [];
}

fair : Every HasFairRating delivered_store.users
unfolding new_user
fair =
    Every-cons HasFairRating 1 ravi _ (omega arith, omega arith)
      (Every-cons HasFairRating 2 meera _ (omega arith, omega arith) (Every-nil HasFairRating))

rate_match-HasFairRating_example :
    Every HasFairRating (rate_match 7 2 3 none delivered_store).1.users
rate_match-HasFairRating_example =
    rate_match-HasFairRating 7 2 3 none delivered_store (omega arith) (omega arith) fair
