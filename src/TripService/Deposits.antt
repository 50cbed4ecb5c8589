-- ===== src/TripService/Deposits.antt =====
-- The deposits of trips in backend/src/services/trip.service.ts: the order before a trip is posted,
-- and the confirmation, after which the trip is matched against the pending requests.
use hop_drop.Payment.{find_newest, same_description, initiated_row, Provider}
use hop_drop.Store.{gets, pure, modify, ◌>>=◌, ◌>>◌, Action}
use hop_drop.Payment.Orders.{
  order_of, is_open, create_trip_deposit_order, OrderResult, OrderAnswer, create_standalone_order,
}
use hop_drop.Matching.Search.{match_trip_against_pending_requests}
use hop_drop.Model.Transaction.{
  draft_trip_deposit, TransactionType, Signature, same_type, OrderId, Transaction,
}
use hop_drop.Common.{none, some, [], ◌∷◌, ◌&&◌, List, ◌==◌, Bool, Option, String, ℕ}
use hop_drop.Payment.Confirm.{confirm_trip_deposit, Confirmation}
use hop_drop.Escrow.{create_transactions}
use hop_drop.Matching.{CandidateRanking}
use hop_drop.Env.{Env}

-- The query for a draft's deposit that is not made yet.
unfoldable pub is_open_draft_of : ℕ → Transaction → Bool
is_open_draft_of user t =
    t.user == user
    && same_type t.type TransactionType.safety_deposit
    && is_open t.status
    && same_description t.description draft_trip_deposit

-- A new order for the deposit of a draft, with its row.
unfoldable pub new_draft_order : Env → OrderAnswer → ℕ → Action (OrderId × ℕ)
unfolding create_standalone_order
new_draft_order env answer user = do
  order ← create_standalone_order env env.default_safety_deposit_paise answer
  modify (λ s.
      create_transactions
        (initiated_row s.now user TransactionType.safety_deposit env.default_safety_deposit_paise
            order.0 draft_trip_deposit
          ∷ [])
        s)
  pure order

unfoldable draft_order : Env → OrderAnswer → ℕ → Option (OrderId × ℕ) → Action (OrderId × ℕ)
unfolding new_draft_order
draft_order env answer user (some order) = pure order
draft_order env answer user none = new_draft_order env answer user

-- `createPreTripDepositOrder`
unfoldable pub create_pre_trip_deposit_order : Env → OrderAnswer → ℕ → Action (OrderId × ℕ)
unfolding is_open_draft_of order_of draft_order
create_pre_trip_deposit_order env answer user = do
  existing ← gets (λ s. find_newest (is_open_draft_of user) s.transactions)
  draft_order env answer user (order_of existing)

-- `createDepositOrder`
unfoldable pub create_deposit_order : Env → OrderAnswer → ℕ → ℕ → Action OrderResult
create_deposit_order env answer user trip = create_trip_deposit_order env answer trip user

module _ (env : Env) (provider : Provider) (in_city : String → String → Bool)
    (retrieved ranked : Option (List CandidateRanking)) where
  -- `confirmDeposit`
  unfoldable pub confirm_deposit : ℕ → ℕ → OrderId → ℕ → Signature → Action Confirmation
  confirm_deposit user trip order payment signature = do
    result ← confirm_trip_deposit env provider trip user order payment signature
    matches ← match_trip_against_pending_requests env in_city retrieved ranked trip
    pure result
