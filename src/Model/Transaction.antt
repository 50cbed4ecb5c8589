-- ===== src/Model/Transaction.antt =====
-- backend/src/models/Transaction.ts: the ledger of payments, holds, payouts and refunds.
use hop_drop.Common.{◌==◌, ℕ, String, Bool, true, false, Option}

pub data TransactionType : Type 0 where
  delivery_payment safety_deposit carrier_payout refund : TransactionType
  platform_fee escrow_hold escrow_release : TransactionType

abbrev pub same_type : TransactionType → TransactionType → Bool
same_type delivery_payment delivery_payment = true
same_type safety_deposit safety_deposit = true
same_type carrier_payout carrier_payout = true
same_type refund refund = true
same_type platform_fee platform_fee = true
same_type escrow_hold escrow_hold = true
same_type escrow_release escrow_release = true
same_type _ _ = false

pub data TransactionStatus : Type 0 where
  initiated pending completed failed refunded : TransactionStatus

abbrev pub is_completed : TransactionStatus → Bool
is_completed completed = true
is_completed _ = false

abbrev pub is_pending : TransactionStatus → Bool
is_pending pending = true
is_pending _ = false

-- Which trip or delivery a transaction is for: the texts `trip:<id>`, `delivery:<id>`,
-- `draft_trip_deposit`, and any other description.
pub data Description : Type 0 where
  for_trip for_delivery : ℕ → Description
  draft_trip_deposit : Description
  plain : String → Description

-- An order of the payment provider, or the stand-in of the demo mode (`mock_order_…`).
pub data OrderId : Type 0 where
  provider_order mock_order : ℕ → OrderId

abbrev pub same_order : OrderId → OrderId → Bool
same_order (provider_order a) (provider_order b) = a == b
same_order (mock_order a) (mock_order b) = a == b
same_order _ _ = false

-- A signature: the digest that it spells, or the text `mock_signature`.
pub data Signature : Type 0 where
  digest : ℕ → Signature
  mock_signature : Signature

pub record Transaction : Type 0 where
  pub user : ℕ
  pub match : Option ℕ
  pub type : TransactionType
  pub amount : ℕ
  pub razorpay_order_id : Option OrderId
  pub razorpay_payment_id : Option ℕ
  pub razorpay_signature : Option Signature
  pub status : TransactionStatus
  pub description : Description
  pub created_at : ℕ
