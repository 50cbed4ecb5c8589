-- ===== src/Accounts/Profile.antt =====
-- backend/src/services/user.service.ts: the profile of an account, its identity checks, its ways to
-- be paid, its preferences and its deactivation. The cipher for the last digits of a number is an
-- argument, `encrypt_last4`. What is read is in `View`.
pub mod View
use hop_drop.Accounts.Text.{
  is_empty, join_text, text_or, text_length, nat_eq, all_digits, to_upper, trim, same_phone,
  to_lower, without_spaces, take_last, has_char, take_first,
}
use hop_drop.Common.{
  failure, zero, suc, [], ◌∷◌, length, ok, api, duplicate_key, err, not, is_some, none, some, ◌&&◌,
  ◌||◌, Bool, Result, false, if◌then◌else◌, true, List, Option, String, ℕ,
}
use hop_drop.Accounts.Sessions.{merge_roles, set_user}
use text.Mathlib.Text.{◌==◌}
use hop_drop.Collection.{find_all, find_by_id, Collection}
use hop_drop.Store.{throw, require, gets, guard, ◌>>=◌, ◌>>◌, Action, Store}
use hop_drop.Common.Int.{pos, ltb_ℤ}
use hop_drop.Model.Match.{MatchStatus, Match}
use hop_drop.Model.User.{
  tier_2_verified, aadhaar, tier_3_pro, CarrierPreferences, Role, GovernmentId, User,
}
use hop_drop.MatchService.Confirm.{has_status}

abbrev pub fetch_user : ℕ → Action User
fetch_user user = do found ← gets (λ s. find_by_id user s.users); require found 404 "User not found"

-- `findByIdAndUpdate` of an account, with the document as it is then.
abbrev pub update_user : ℕ → (User → User) → Action User
update_user user f = do set_user user f; fetch_user user

-- What an owner sends for the profile.
pub record ProfileUpdate : Type 0 where
  pub name : Option String
  pub email : Option String
  pub profile_photo : Option String

unfoldable pub updated_profile : ProfileUpdate → User → User
updated_profile p u = record u {
  name = elim p.name [ none ↦ u.name | some t ↦ trim t ];
  email = elim p.email [ none ↦ u.email | some t ↦ to_lower (trim t) ];
  profile_photo = elim p.profile_photo [ none ↦ u.profile_photo | some t ↦ some (trim t) ];
}

-- The index of the e-mails: whether another account has this one.
unfoldable pub is_taken : ℕ → String → Collection User → Bool
is_taken user email [] = false
is_taken user email ((k, u) ∷ c) =
    if not (same_phone k user) && u.email == email then true else is_taken user email c

abbrev takes_email : ℕ → Option String → Store → Bool
takes_email user none s = false
takes_email user (some email) s = is_taken user (to_lower (trim email)) s.users

-- A required text that is given and has nothing in it, which the validators of the schema refuse.
abbrev is_blank : Option String → Bool
is_blank none = false
is_blank (some t) = is_empty (trim t)

-- `updateMyProfile`
unfoldable pub update_my_profile : ℕ → ProfileUpdate → Action User
unfolding updated_profile is_taken
update_my_profile user p s =
    if is_blank p.name || is_blank p.email
    then (err (failure "ValidationError"), s)
    else if takes_email user p.email s && is_some (find_by_id user s.users)
    then (err duplicate_key, s)
    else update_user user (updated_profile p) s

abbrev is_aadhaar : GovernmentId → Bool
is_aadhaar aadhaar = true
is_aadhaar _ = false

-- What `verifyGovernmentId` saves; what is undefined is left as it is.
unfoldable pub with_government_id : String → GovernmentId → String → User → User
with_government_id encrypted type last4 u = record u {
  government_id_verified = true;
  government_id_type = some type;
  government_id_last4 = some encrypted;
  aadhaar_verified = if is_aadhaar type then true else u.aadhaar_verified;
  aadhaar_masked = if is_aadhaar type then some (join_text "XXXXXXXX" last4) else u.aadhaar_masked;
  kyc_tier = tier_2_verified;
}

abbrev pub has_payout : User → Bool
has_payout u = is_some u.payout_upi || u.payout_bank.verified

-- `if (!user.role.includes('carrier')) user.role.push('carrier')`
abbrev pub with_carrier_role : List Role → List Role
with_carrier_role roles = merge_roles roles (Role.carrier ∷ [])

unfoldable pub with_aadhaar : String → String → User → User
with_aadhaar encrypted last4 u = record u {
  government_id_verified = true;
  government_id_type = some aadhaar;
  government_id_last4 = some encrypted;
  aadhaar_verified = true;
  aadhaar_masked = some (join_text "XXXX-XXXX-" last4);
  kyc_tier = if has_payout u then tier_3_pro else tier_2_verified;
  role = with_carrier_role u.role;
}

module _ (encrypt_last4 : String → String) where
  -- `verifyGovernmentId`
  unfoldable pub verify_government_id : ℕ → GovernmentId → String → Action User
  unfolding with_government_id take_last
  verify_government_id user type number =
      let last4 = take_last 4 number in
      update_user user (with_government_id (encrypt_last4 last4) type last4)

  -- `verifyCarrierAadhaarDigiLocker`
  unfoldable pub verify_carrier_aadhaar_digi_locker : ℕ → String → Action User
  unfolding with_aadhaar take_last merge_roles without_spaces all_digits
  verify_carrier_aadhaar_digi_locker user number = do
    let clean = without_spaces number
    guard (nat_eq (text_length clean) 12 && all_digits clean) 400
        "Invalid 12-digit Aadhaar number format"
    fetch_user user
    update_user user (with_aadhaar (encrypt_last4 (take_last 4 clean)) (take_last 4 clean))

-- How a carrier wants to be paid.
pub data PayoutMethod : Type 0 where
  upi : Option String → PayoutMethod
  bank : Option String → Option String → Option String → PayoutMethod

-- The way to be paid that `saveCarrierPayoutMethod` saves, or what is wrong with it.
unfoldable pub with_payout : PayoutMethod → User → Result User
unfolding has_char take_last to_lower to_upper
with_payout (upi none) u = err (api 400 "Invalid UPI ID format (e.g. user@okhdfcbank)")
with_payout (upi (some id)) u =
    if has_char 64 id
    then ok (record u { payout_upi = some (to_lower (trim id)) })
    else err (api 400 "Invalid UPI ID format (e.g. user@okhdfcbank)")
with_payout (bank (some account) (some ifsc) holder) u =
    if is_empty account || is_empty ifsc
    then err (api 400 "Bank account number and IFSC are required")
    else ok (record u {
      payout_bank = record {
        account_number_masked = some (join_text "XXXX" (take_last 4 account));
        ifsc = some (trim (to_upper ifsc));
        verified = true;
        holder_name = some (elim holder [ none ↦ u.name | some name ↦ text_or (trim name) u.name ]);
      };
    })
with_payout (bank _ _ _) u = err (api 400 "Bank account number and IFSC are required")

abbrev with_pro_tier : User → User
with_pro_tier u =
    if u.aadhaar_verified || u.government_id_verified then record u { kyc_tier = tier_3_pro } else u

abbrev save_user : ℕ → Result User → Action User
save_user user (ok u) = update_user user (λ _. with_pro_tier u)
save_user user (err e) = throw e

-- `saveCarrierPayoutMethod`
unfoldable pub save_carrier_payout_method : ℕ → PayoutMethod → Action User
unfolding with_payout
save_carrier_payout_method user method = do
  u ← fetch_user user
  save_user user (with_payout method u)

-- What a carrier sends for the preferences.
pub record PreferencesInput : Type 0 where
  pub preferred_modes : Option (List String)
  pub max_capacity_g : Option ℕ
  pub allowed_categories : Option (List String)
  pub instant_booking : Option Bool
  pub bio : Option String
  pub emergency_contact : Option String

abbrev or_same : {A : Type 0} → Option A → A → A
or_same none a = a
or_same (some b) a = b

abbrev positive_or : ℕ → ℕ → ℕ
positive_or zero other = other
positive_or (suc n) other = suc n

unfoldable pub merged_preferences : PreferencesInput → CarrierPreferences → CarrierPreferences
unfolding take_first
merged_preferences p old = record {
  preferred_modes = or_same p.preferred_modes old.preferred_modes;
  max_capacity_g = positive_or (or_same p.max_capacity_g 0) (positive_or old.max_capacity_g 10000);
  allowed_categories = or_same p.allowed_categories old.allowed_categories;
  instant_booking = or_same p.instant_booking old.instant_booking;
  bio = elim p.bio [ none ↦ old.bio | some t ↦ take_first 500 t ];
  emergency_contact = elim p.emergency_contact [
    | none ↦ old.emergency_contact
    | some t ↦ take_first 20 t
  ];
}

-- `saveCarrierPreferences`
unfoldable pub save_carrier_preferences : ℕ → PreferencesInput → Action User
unfolding merged_preferences
save_carrier_preferences user p = do
  fetch_user user
  update_user user (λ u. record u {
    carrier_preferences = merged_preferences p u.carrier_preferences;
    role = with_carrier_role u.role;
  })

-- The query for the matches of an account that count as active. The code also names `accepted` and
-- `confirmed`, which no match has.
unfoldable pub is_active_match_of : ℕ → Match → Bool
is_active_match_of user m =
    (same_phone m.carrier user || same_phone m.sender user)
    && (has_status m.status MatchStatus.proposed
        || has_status m.status MatchStatus.active
        || has_status m.status MatchStatus.picked_up)

unfoldable pub deactivated : User → User
deactivated u = record u {
  is_active = false;
  fcm_token = none;
  refresh_token_hash = none;
  name = "Deactivated User";
  profile_photo = none;
}

-- `deleteMyAccount`
unfoldable pub delete_my_account : ℕ → Action User
unfolding is_active_match_of deactivated
delete_my_account user = do
  u ← fetch_user user
  guard (not (ltb_ℤ (pos 0) u.wallet.escrow_held)) 400
      "Cannot deactivate account with funds held in escrow. Please complete or cancel pending transactions."
  matches ← gets (λ s. find_all (is_active_match_of user) s.matches)
  guard (nat_eq (length matches) 0) 400
      "Cannot deactivate account with active deliveries or trips in progress."
  update_user user deactivated
