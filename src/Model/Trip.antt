-- ===== src/Model/Trip.antt =====
-- backend/src/models/Trip.ts: a journey on which a carrier has luggage capacity to spare.
use hop_drop.Common.{ℕ, String, Bool, true, false, Option, List}
use hop_drop.Common.Int.{ℤ}

pub record Location : Type 0 where
  pub city : String
  pub state : Option String
  pub coordinates : Option (ℤ × ℤ)  -- longitude and latitude, in millionths of a degree
  pub place_id : Option String
  pub full_address : Option String

pub data Category : Type 0 where
  documents clothing electronics food fragile medicine other : Category

pub Category-discrete : Discrete Category
Category-discrete = hlevel

abbrev pub same_category : Category → Category → Bool
same_category documents documents = true
same_category clothing clothing = true
same_category electronics electronics = true
same_category food food = true
same_category fragile fragile = true
same_category medicine medicine = true
same_category other other = true
same_category _ _ = false

pub data TransportMode : Type 0 where
  bus train car bike flight other : TransportMode

pub record TransportDetails : Type 0 where
  pub name : Option String
  pub pnr : Option String
  pub seat_number : Option String

pub record Dimensions : Type 0 where
  pub length : Option ℕ
  pub width : Option ℕ
  pub height : Option ℕ

pub record Capacity : Type 0 where
  pub weight_g : ℕ
  pub dimensions_cm : Option Dimensions
  pub allowed_categories : List Category

pub data TripStatus : Type 0 where
  active full in_transit completed cancelled : TripStatus

pub record Trip : Type 0 where
  pub carrier : ℕ
  pub origin : Location
  pub destination : Location
  pub departure_time : ℕ
  pub estimated_arrival_time : Option ℕ
  pub mode_of_transport : TransportMode
  pub transport_details : Option TransportDetails
  pub available_capacity : Capacity
  pub price_per_kg : ℕ
  pub status : TripStatus
  pub safety_deposit_paid : Bool
  pub safety_deposit_amount : Option ℕ
  pub safety_deposit_transaction_id : Option ℕ
  pub pickup_instructions : Option String
  pub dropoff_instructions : Option String
  pub matches : List ℕ
