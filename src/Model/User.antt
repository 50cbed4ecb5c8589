-- ===== src/Model/User.antt =====
-- backend/src/models/User.ts: an account with its wallet and rating.
use hop_drop.Common.{ℕ, String, Bool, true, false, Option, none, List, [], ◌∷◌}
use hop_drop.Common.Int.{ℤ, pos}

pub data Role : Type 0 where
  sender carrier admin : Role

-- Amounts in paise. `$inc` can take them below 0.
pub record Wallet : Type 0 where
  pub balance : ℤ
  pub escrow_held : ℤ

-- `average` is in hundredths of a star: the code rounds it to two decimals.
pub record UserRating : Type 0 where
  pub average : ℕ
  pub count : ℕ

pub data GovernmentId : Type 0 where
  aadhaar pan passport dl : GovernmentId

pub data KycTier : Type 0 where
  tier_1_basic tier_2_verified tier_3_pro : KycTier

pub record PayoutBank : Type 0 where
  pub account_number_masked : Option String
  pub ifsc : Option String
  pub verified : Bool
  pub holder_name : Option String

-- A capacity is in grams.
pub record CarrierPreferences : Type 0 where
  pub preferred_modes : List String
  pub max_capacity_g : ℕ
  pub allowed_categories : List String
  pub instant_booking : Bool
  pub bio : String
  pub emergency_contact : String

-- `refresh_token_hash` is a hash by bcrypt.
pub record User : Type 0 where
  pub name : String
  pub email : String
  pub phone : ℕ
  pub phone_verified : Bool
  pub email_verified : Bool
  pub profile_photo : Option String
  pub role : List Role
  pub rating : UserRating
  pub wallet : Wallet
  pub government_id_verified : Bool
  pub government_id_type : Option GovernmentId
  pub government_id_last4 : Option String
  pub aadhaar_verified : Bool
  pub aadhaar_masked : Option String
  pub payout_upi : Option String
  pub payout_bank : PayoutBank
  pub carrier_preferences : CarrierPreferences
  pub kyc_tier : KycTier
  pub total_deliveries : ℕ
  pub total_trips_as_carrier : ℕ
  pub is_active : Bool
  pub refresh_token_hash : Option ℕ
  pub fcm_token : Option String

-- A document as the schema builds it from the required fields.
unfoldable pub new_user : String → String → ℕ → User
new_user name email phone = record {
  name = name;
  email = email;
  phone = phone;
  phone_verified = false;
  email_verified = false;
  profile_photo = none;
  role = sender ∷ [];
  rating = record { average = 500; count = 0 };
  wallet = record { balance = pos 0; escrow_held = pos 0 };
  government_id_verified = false;
  government_id_type = none;
  government_id_last4 = none;
  aadhaar_verified = false;
  aadhaar_masked = none;
  payout_upi = none;
  payout_bank = record {
    account_number_masked = none;
    ifsc = none;
    verified = false;
    holder_name = none;
  };
  carrier_preferences = record {
    preferred_modes = "train" ∷ "car" ∷ [];
    max_capacity_g = 10000;
    allowed_categories = "documents" ∷ "electronics" ∷ "clothing" ∷ [];
    instant_booking = true;
    bio = "";
    emergency_contact = "";
  };
  kyc_tier = tier_1_basic;
  total_deliveries = 0;
  total_trips_as_carrier = 0;
  is_active = true;
  refresh_token_hash = none;
  fcm_token = none;
}
