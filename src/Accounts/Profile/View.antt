-- ===== src/Accounts/Profile/View.antt =====
-- What backend/src/services/user.service.ts shows of an account.
use mathlib.Core.List.{reverse}
use hop_drop.Accounts.Text.{join_text}
use hop_drop.Common.{
  true, false, some, [], ◌∷◌, take, ◌==◌, none, List, Option, String, if◌then◌else◌, ◌+◌, ◌||◌,
  Bool, ℕ,
}
use hop_drop.Collection.{find_all, Collection}
use hop_drop.Model.User.{PayoutBank, GovernmentId, CarrierPreferences, KycTier, UserRating, User}
use hop_drop.Store.{gets, pure, ◌>>=◌, Action}
use hop_drop.Accounts.Profile.{fetch_user, has_payout}
use hop_drop.Model.Transaction.{Transaction}
use hop_drop.Common.Int.{ℤ}

-- `getMyProfile`: the document without the hash of the token.
unfoldable pub get_my_profile : ℕ → Action User
get_my_profile user = do u ← fetch_user user; pure (record u { refresh_token_hash = none })

-- `getCarrierSetupStatus`
pub record SetupStatus : Type 0 where
  pub user_id : ℕ
  pub name : String
  pub phone : ℕ
  pub email : String
  pub profile_photo : Option String
  pub rating : UserRating
  pub kyc_tier : KycTier
  pub completion_percentage : ℕ
  pub trip_limit_rupees : ℕ
  pub aadhaar_verified : Bool
  pub aadhaar_masked : Option String
  pub aadhaar_type : GovernmentId
  pub payout_configured : Bool
  pub payout_upi : Option String
  pub payout_bank : PayoutBank
  pub preferences : CarrierPreferences

abbrev pub has_aadhaar : User → Bool
has_aadhaar u = u.aadhaar_verified || u.government_id_verified

abbrev pub has_preferences : User → Bool
has_preferences u = elim u.carrier_preferences.preferred_modes [ [] ↦ false | _ ∷ _ ↦ true ]

abbrev points_if : Bool → ℕ → ℕ
points_if b n = if b then n else 0

unfoldable pub completion_percentage : User → ℕ
completion_percentage u =
    25
    + points_if (has_aadhaar u) 35
    + points_if (has_payout u) 25
    + points_if (has_preferences u) 15

abbrev masked_number : User → Option String
masked_number u = elim u.aadhaar_masked [
  | some t ↦ some t
  | none ↦ elim u.government_id_last4 [ none ↦ none | some t ↦ some (join_text "XXXXXXXX" t) ]
]

unfoldable pub get_carrier_setup_status : ℕ → Action SetupStatus
unfolding completion_percentage
get_carrier_setup_status user = do
  u ← fetch_user user
  pure (record {
    user_id = user;
    name = u.name;
    phone = u.phone;
    email = u.email;
    profile_photo = u.profile_photo;
    rating = u.rating;
    kyc_tier = u.kyc_tier;
    completion_percentage = completion_percentage u;
    trip_limit_rupees = if has_aadhaar u then 15000 else 1000;
    aadhaar_verified = has_aadhaar u;
    aadhaar_masked = masked_number u;
    aadhaar_type = elim u.government_id_type [ none ↦ GovernmentId.aadhaar | some type ↦ type ];
    payout_configured = has_payout u;
    payout_upi = u.payout_upi;
    payout_bank = u.payout_bank;
    preferences = u.carrier_preferences;
  })

-- `getWallet`: the newest hundred of the transactions of an account.
pub record WalletView : Type 0 where
  pub balance : ℤ
  pub escrow_held : ℤ
  pub transactions : List (ℕ × Transaction)

-- `sort({ createdAt: -1 })`: the later of two documents is created later, or at the same time.
unfoldable pub newest_first : Collection Transaction → Collection Transaction
newest_first c = reverse c

unfoldable pub get_wallet : ℕ → Action WalletView
unfolding newest_first
get_wallet user = do
  u ← fetch_user user
  transactions ← gets (λ s. find_all (λ t. t.user == user) s.transactions)
  pure (record {
    balance = u.wallet.balance;
    escrow_held = u.wallet.escrow_held;
    transactions = take 100 (newest_first transactions);
  })

-- `getPublicProfile`
pub record PublicProfile : Type 0 where
  pub id : ℕ
  pub name : String
  pub profile_photo : Option String
  pub rating : UserRating
  pub total_deliveries : ℕ
  pub total_trips_as_carrier : ℕ
  pub carrier_preferences : CarrierPreferences
  pub kyc_tier : KycTier
  pub government_id_verified : Bool

unfoldable pub get_public_profile : ℕ → Action PublicProfile
get_public_profile user = do
  u ← fetch_user user
  pure (record {
    id = user;
    name = u.name;
    profile_photo = u.profile_photo;
    rating = u.rating;
    total_deliveries = u.total_deliveries;
    total_trips_as_carrier = u.total_trips_as_carrier;
    carrier_preferences = u.carrier_preferences;
    kyc_tier = u.kyc_tier;
    government_id_verified = u.government_id_verified;
  })
