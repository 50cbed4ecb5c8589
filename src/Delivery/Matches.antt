-- ===== src/Delivery/Matches.antt =====
-- Lists of requests in backend/src/services/delivery.service.ts, the payment of a request, and the
-- matches that its sender sees: where there are none yet, a search runs first.
use hop_drop.Store.{pure, guard, require, gets, ◌>>=◌, ◌>>◌, Action, Store}
use hop_drop.Collection.{find_by_id, find_all, Collection}
use hop_drop.Payment.Confirm.{confirm_delivery_payment, Confirmation}
use hop_drop.Payment.Orders.{create_delivery_order, OrderResult, OrderAnswer}
use hop_drop.Model.Transaction.{Signature, OrderId}
use hop_drop.Model.DeliveryRequest.{DeliveryRequest}
use hop_drop.Model.Match.{Match}
use hop_drop.Matching.{CandidateRanking}
use hop_drop.Payment.{Provider}
use hop_drop.Env.{Env}
use hop_drop.Common.{ℕ, String, Bool, true, false, Option, List, [], ◌∷◌, ◌==◌, if◌then◌else◌}
use mathlib.Core.List.{reverse}

-- `listAllRequests`; the requests that were made last come first.
unfoldable pub list_all_requests : Store → Collection DeliveryRequest
list_all_requests s = reverse s.requests

-- `listMyRequests`
unfoldable pub list_my_requests : ℕ → Store → Collection DeliveryRequest
list_my_requests user s = reverse (find_all (λ r. r.sender == user) s.requests)

-- `createDeliveryPaymentOrder`
unfoldable pub create_delivery_payment_order : Env → OrderAnswer → ℕ → ℕ → Action OrderResult
create_delivery_payment_order env answer user request =
    create_delivery_order env answer request user

-- `confirmDeliveryPay`
unfoldable pub confirm_delivery_pay :
    Env → Provider → ℕ → ℕ → OrderId → ℕ → Signature → Action Confirmation
confirm_delivery_pay env provider user request order payment signature =
    confirm_delivery_payment env provider request user order payment signature

abbrev pub matches_of : ℕ → Store → Collection Match
matches_of request s = find_all (λ m. m.delivery_request == request) s.matches

abbrev pub is_empty_list {ℓ} : {A : Type ℓ} → List A → Bool
is_empty_list [] = true
is_empty_list (x ∷ xs) = false

module _ (env : Env) (in_city : String → String → Bool)
    (retrieved ranked : Option (List CandidateRanking)) where
  -- `getRequestMatches`
  unfoldable pub get_request_matches : ℕ → ℕ → Action (Collection Match)
  get_request_matches user request = do
    found ← gets (λ s. find_by_id request s.requests)
    r ← require found 404 "Delivery request not found"
    guard (r.sender == user) 403 "Forbidden"
    matches ← gets (matches_of request)
    if is_empty_list matches
        then (do
          proposed ← hop_drop.Matching.Search.find_matches env in_city retrieved ranked request
          gets (matches_of request))
        else pure matches
