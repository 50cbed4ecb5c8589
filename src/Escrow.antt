-- ===== src/Escrow.antt =====
-- backend/src/services/escrow.service.ts: the hold of a payment and its release, in the ledger and
-- in the wallets. Amounts are whole paise.
pub mod Release
pub mod Quoted
pub mod Wallets
use hop_drop.Common.{
  ◌-◌, [], suc, ◌*◌, ◌==◌, false, none, ok, round_div, ◌&&◌, ◌∷◌, Bool, List, Option, String,
  if◌then◌else◌, or_num, some, ⊤, ◌+◌, ℕ,
}
use hop_drop.Common.Int.{pos, ◌+ℤ◌, ◌-ℤ◌, clip}
use hop_drop.Model.Match.{Match}
use hop_drop.Model.Trip.{Trip}
use hop_drop.Model.DeliveryRequest.{DeliveryRequest}
use hop_drop.Model.User.{Wallet}
use hop_drop.Model.Transaction.{
  Transaction, TransactionType, carrier_payout, escrow_hold, escrow_release, platform_fee, pending,
  completed, plain, same_type, is_completed,
}
use hop_drop.Collection.{find_by_id, update_by_id, insert, exists}
use hop_drop.Store.{gets, require, modify, pure, Store, Action, ◌>>=◌, ◌>>◌}
use hop_drop.Env.{Env}
use hop_drop.Transactions.{run_in_transaction}

-- `Transaction.create`, in the order given.
unfoldable pub create_transactions : List Transaction → Store → Store
create_transactions [] s = s
create_transactions (t ∷ ts) s =
    create_transactions ts
      (record s { transactions = insert s.next_id t s.transactions; next_id = suc s.next_id })

-- `User.findByIdAndUpdate` and `save` of the wallet.
abbrev pub update_wallet : ℕ → (Wallet → Wallet) → Store → Store
update_wallet user f s = record s {
  users = update_by_id user (λ u. record u { wallet = f u.wallet }) s.users;
}

abbrev pub same_id : Option ℕ → ℕ → Bool
same_id none k = false
same_id (some j) k = j == k

-- The query for a completed payout of a match.
unfoldable pub is_payout_of : ℕ → Transaction → Bool
is_payout_of match t =
    same_id t.match match && same_type t.type carrier_payout && is_completed t.status

pub data HoldType : Type 0 where
  carrier_deposit sender_payment : HoldType

abbrev hold_description : HoldType → String
hold_description carrier_deposit = "Escrow hold (carrier_deposit)"
hold_description sender_payment = "Escrow hold (sender_payment)"

-- The ledger rows that the service writes.
unfoldable pub hold_row : ℕ → ℕ → ℕ → ℕ → HoldType → Transaction
hold_row now user match amount type = record {
  user = user;
  match = some match;
  type = escrow_hold;
  amount = amount;
  razorpay_order_id = none;
  razorpay_payment_id = none;
  razorpay_signature = none;
  status = pending;
  description = plain (hold_description type);
  created_at = now;
}

unfoldable pub settled_row : ℕ → ℕ → ℕ → TransactionType → ℕ → String → Transaction
settled_row now user match type amount description = record {
  user = user;
  match = some match;
  type = type;
  amount = amount;
  razorpay_order_id = none;
  razorpay_payment_id = none;
  razorpay_signature = none;
  status = completed;
  description = plain description;
  created_at = now;
}

-- The body of the transaction of `holdFunds`.
unfoldable pub hold_body : ℕ → ℕ → ℕ → HoldType → Action ⊤
unfolding create_transactions hold_row
hold_body user match amount type s = (
  ok tt,
  update_wallet user (λ w. record w { escrow_held = w.escrow_held +ℤ pos amount })
      (create_transactions (hold_row s.now user match amount type ∷ []) s),
)

abbrev pub hold_user : HoldType → Match → ℕ
hold_user carrier_deposit m = m.carrier
hold_user sender_payment m = m.sender

-- What a release pays out.
pub record Payout : Type 0 where
  pub payout_to_carrier : ℕ
  pub deposit_amount : ℕ
  pub platform_fee : ℕ

-- Who is paid what: the amounts of `releaseFunds`. `-` stops at 0, as `Math.max` does there.
abbrev pub sender_payment_of : Match → DeliveryRequest → ℕ
sender_payment_of m r = or_num r.total_charge m.agreed_price

unfoldable pub payout_of : Env → Match → Trip → DeliveryRequest → Payout
payout_of env m t r =
    let paid = sender_payment_of m r in
    let fee = or_num r.platform_fee (round_div (paid * env.platform_fee_percent) 100) in
    record {
      payout_to_carrier = or_num r.quoted_price (paid - fee);
      deposit_amount = or_num t.safety_deposit_amount 0;
      platform_fee = fee;
    }

-- The writes of the transaction of `releaseFunds`, for a carrier and a sender who are two accounts:
-- backend/src/services/matching.service.ts proposes nobody's own trip. One account for both would be
-- saved from two copies of it, the second without the changes of the first.
unfoldable pub pay_out : ℕ → ℕ → ℕ → Payout → ℕ → Store → Store
unfolding create_transactions settled_row
pay_out match carrier sender p paid s =
    let s1 =
      update_wallet carrier
        (λ w. record {
          balance = w.balance +ℤ pos (p.deposit_amount + p.payout_to_carrier);
          escrow_held = clip (w.escrow_held -ℤ pos p.deposit_amount);
        })
        s in
    let s2 =
      update_wallet sender (λ w. record w { escrow_held = clip (w.escrow_held -ℤ pos paid) }) s1 in
    let s3 =
      create_transactions
        (settled_row s.now carrier match escrow_release p.deposit_amount
            "Safety deposit released to carrier wallet"
          ∷ settled_row s.now carrier match carrier_payout p.payout_to_carrier
              "Delivery payout released to carrier"
          ∷ settled_row s.now sender match platform_fee p.platform_fee "Platform fee deducted"
          ∷ [])
        s2 in
    record s3 {
      matches =
          update_by_id match (λ m. record m { payout_to_carrier = some p.payout_to_carrier })
            s3.matches;
    }

-- The body of the transaction of `releaseFunds`: it reads the users and the match again, and stops
-- if another worker has paid.
unfoldable pub release_body : ℕ → ℕ → ℕ → Payout → ℕ → Action ⊤
unfolding pay_out is_payout_of
release_body match carrier sender p paid = do
  tx_carrier ← gets (λ s. find_by_id carrier s.users)
  require tx_carrier 404 "Users or match disappeared inside transaction"
  tx_sender ← gets (λ s. find_by_id sender s.users)
  require tx_sender 404 "Users or match disappeared inside transaction"
  tx_match ← gets (λ s. find_by_id match s.matches)
  require tx_match 404 "Users or match disappeared inside transaction"
  still_released ← gets (λ s. exists (is_payout_of match) s.transactions)
  modify (λ s. if still_released then s else pay_out match carrier sender p paid s)

module _ (env : Env) where
  -- `holdFunds`
  unfoldable pub hold_funds : ℕ → ℕ → HoldType → Action ⊤
  hold_funds match amount type = do
    found ← gets (λ s. find_by_id match s.matches)
    m ← require found 404 "Match not found"
    run_in_transaction env.topology (hold_body (hold_user type m) match amount type)

  -- `releaseFunds`
  unfoldable pub release_funds : ℕ → Action Payout
  release_funds match = do
    found ← gets (λ s. find_by_id match s.matches)
    m ← require found 404 "Match not found"
    already_released ← gets (λ s. exists (is_payout_of match) s.transactions)
    if already_released
        then pure (record {
          payout_to_carrier = or_num m.payout_to_carrier 0;
          deposit_amount = 0;
          platform_fee = 0;
        })
        else (do
          trip ← gets (λ s. find_by_id m.trip s.trips)
          t ← require trip 404 "Related trip or delivery request not found"
          delivery ← gets (λ s. find_by_id m.delivery_request s.requests)
          r ← require delivery 404 "Related trip or delivery request not found"
          let p = payout_of env m t r
          run_in_transaction env.topology
              (release_body match m.carrier m.sender p (sender_payment_of m r))
          pure p)
