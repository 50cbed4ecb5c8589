-- ===== src/Model/Match.antt =====
-- backend/src/models/Match.ts: a carrier's trip paired with a sender's delivery request.
use hop_drop.Common.{ℕ, String, Bool, false, Option, none, List, [], ◌∷◌}
use hop_drop.Json.{Json}

pub data MatchStatus : Type 0 where
  proposed carrier_accepted sender_confirmed active pickup_pending picked_up : MatchStatus
  in_transit delivery_pending delivered cancelled disputed : MatchStatus

pub MatchStatus-discrete : Discrete MatchStatus
MatchStatus-discrete = hlevel

pub data TimelineEvent : Type 0 where
  match_proposed carrier_accepted sender_confirmed payment_done : TimelineEvent
  pickup_otp_generated pickup_verified delivery_otp_generated delivery_verified : TimelineEvent
  completed cancelled disputed rapido_booked : TimelineEvent

pub record TimelineEntry : Type 0 where
  pub event : TimelineEvent
  pub timestamp : ℕ
  pub actor : Option ℕ
  pub metadata : Option Json

-- A rating given by one party to the other; `score` is a whole number of stars.
pub record Rating : Type 0 where
  pub score : ℕ
  pub comment : Option String
  pub at : ℕ

-- The `otp` paths of a match: when a code was generated and when it was verified.
pub record OtpTimes : Type 0 where
  pub generated_at : Option ℕ
  pub verified_at : Option ℕ

pub record Rapido : Type 0 where
  pub requested : Bool
  pub booking_id : Option String
  pub status : Option String

pub record Match : Type 0 where
  pub trip : ℕ
  pub delivery_request : ℕ
  pub carrier : ℕ
  pub sender : ℕ
  pub status : MatchStatus
  pub pickup_otp : OtpTimes
  pub delivery_otp : OtpTimes
  pub timeline : List TimelineEntry
  pub agreed_price : ℕ
  pub payout_to_carrier : Option ℕ
  pub rapido : Rapido
  pub sender_rated_carrier : Option Rating
  pub carrier_rated_sender : Option Rating

abbrev pub no_times : OtpTimes
no_times = record { generated_at = none; verified_at = none }

-- A document as the schema builds it from the required fields.
unfoldable pub new_match : ℕ → ℕ → ℕ → ℕ → ℕ → Option ℕ → TimelineEntry → Match
new_match trip request carrier sender price payout entry = record {
  trip = trip;
  delivery_request = request;
  carrier = carrier;
  sender = sender;
  status = proposed;
  pickup_otp = no_times;
  delivery_otp = no_times;
  timeline = entry ∷ [];
  agreed_price = price;
  payout_to_carrier = payout;
  rapido = record { requested = false; booking_id = none; status = none };
  sender_rated_carrier = none;
  carrier_rated_sender = none;
}
