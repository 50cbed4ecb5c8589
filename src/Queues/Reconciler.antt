-- ===== src/Queues/Reconciler.antt =====
-- `processPaymentReconciliation` of backend/src/queues/paymentReconcilerQueue.ts: holds that are
-- pending for ten minutes are completed, and their matches are confirmed.
use hop_drop.Model.Transaction.{TransactionStatus, escrow_hold, same_type, is_pending, Transaction}
use hop_drop.Json.{end, text, field, obj}
use hop_drop.Collection.{find_by_id, update_by_id, Collection, find_all}
use hop_drop.Common.{
  ◌*◌, [], ◌∷◌, ◌+◌, leb, some, none, ◌&&◌, ◌||◌, if◌then◌else◌, is_some, Bool, Option, ⊤, ℕ,
}
use hop_drop.Store.{gets, ◌>>=◌, ◌>>◌, modify, pure, Action}
use hop_drop.MatchService.Status.{save_match, push_entry}
use hop_drop.Model.Match.{MatchStatus, TimelineEvent, Match}
use hop_drop.MatchService.Confirm.{has_status}

-- The query for the pending holds.
unfoldable pub is_stale_hold : ℕ → Transaction → Bool
is_stale_hold now t =
    is_pending t.status && same_type t.type escrow_hold && leb (t.created_at + 10 * 60 * 1000) now

-- `txn.razorpayPaymentId || txn.razorpayOrderId`
abbrev has_payment : Transaction → Bool
has_payment t = is_some t.razorpay_payment_id || is_some t.razorpay_order_id

unfoldable pub complete_transaction : ℕ → Action ⊤
complete_transaction id = modify (λ s. record s {
  transactions =
      update_by_id id (λ t. record t { status = TransactionStatus.completed }) s.transactions;
})

-- What is saved of a match that is confirmed.
unfoldable pub reconciled_match : ℕ → Match → Match
reconciled_match now m =
    push_entry
      (record {
        event = TimelineEvent.sender_confirmed;
        timestamp = now;
        actor = none;
        metadata = some (
            obj (field "reason" (text "Payment reconciled via background reconciler engine.") end));
      })
      (record m { status = MatchStatus.sender_confirmed })

unfoldable pub confirm_match : ℕ → ℕ → Match → Action ℕ
unfolding reconciled_match
confirm_match now match m =
    if has_status m.status MatchStatus.carrier_accepted || has_status m.status MatchStatus.proposed
    then save_match match (reconciled_match now) >> pure 1
    else pure 0

-- The body of the loop, once the match is looked for: how many matches it confirms.
unfoldable pub reconcile_match : ℕ → ℕ → Transaction → ℕ → Option Match → Action ℕ
unfolding complete_transaction confirm_match
reconcile_match now id t match none = pure 0
reconcile_match now id t match (some m) =
    if has_payment t then complete_transaction id >> confirm_match now match m else pure 0

unfoldable pub reconcile_transaction : ℕ → ℕ → Transaction → Option ℕ → Action ℕ
unfolding reconcile_match
reconcile_transaction now id t none = pure 0
reconcile_transaction now id t (some match) = do
  found ← gets (λ s. find_by_id match s.matches)
  reconcile_match now id t match found

-- The loop over the holds.
unfoldable pub reconcile_transactions : ℕ → Collection Transaction → Action ℕ
unfolding reconcile_transaction
reconcile_transactions now [] = pure 0
reconcile_transactions now ((id, t) ∷ ts) = do
  confirmed ← reconcile_transaction now id t t.match
  others ← reconcile_transactions now ts
  pure (confirmed + others)

-- `processPaymentReconciliation`: `reconciledCount`
unfoldable pub process_payment_reconciliation : Action ℕ
unfolding is_stale_hold reconcile_transactions
process_payment_reconciliation s =
    reconcile_transactions s.now (find_all (is_stale_hold s.now) s.transactions) s
