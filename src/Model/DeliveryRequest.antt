-- ===== src/Model/DeliveryRequest.antt =====
-- backend/src/models/DeliveryRequest.ts: a sender's package, its time window and its payment.
use hop_drop.Model.Transaction.{OrderId}
use hop_drop.Common.{ℕ, String, Bool, Option}
use hop_drop.Model.Trip.{Location, Category, Dimensions}

-- The `package` path of a request; the word is reserved here, so the field is `parcel`.
pub record Package : Type 0 where
  pub description : String
  pub category : Category
  pub weight_g : ℕ
  pub dimensions_cm : Option Dimensions
  pub is_fragile : Bool
  pub declared_value : Option ℕ
  pub photo_url : Option String

pub record Recipient : Type 0 where
  pub name : String
  pub phone : String
  pub address : String

pub record DeliveryWindow : Type 0 where
  pub earliest : ℕ
  pub latest : ℕ

-- `created` is no status of the schema: an unvalidated update in
-- backend/src/queues/slaRematchQueue.ts writes it all the same.
pub data DeliveryStatus : Type 0 where
  pending matched pickup_otp_sent picked_up in_transit delivery_otp_sent : DeliveryStatus
  delivered cancelled expired created : DeliveryStatus

pub data PaymentStatus : Type 0 where
  unpaid paid refunded partial_refund : PaymentStatus

pub record DeliveryRequest : Type 0 where
  pub sender : ℕ
  pub origin : Location
  pub destination : Location
  pub parcel : Package
  pub recipient : Recipient
  pub preferred_delivery_window : DeliveryWindow
  pub status : DeliveryStatus
  pub quoted_price : Option ℕ
  pub platform_fee : Option ℕ
  pub total_charge : Option ℕ
  pub match : Option ℕ
  pub payment_order_id : Option OrderId
  pub payment_status : PaymentStatus
  pub expires_at : Option ℕ
