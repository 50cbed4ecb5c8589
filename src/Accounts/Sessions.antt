-- ===== src/Accounts/Sessions.antt =====
-- The sessions of backend/src/services/auth.service.ts and googleAuth.service.ts. A token is the list
-- of its characters. The signing of tokens, bcrypt and the check of a Google token are parameters;
-- the message with a code is sent by a third party, and left out.
use hop_drop.Otp.{generate_otp, verify_otp, Bcrypt}
use hop_drop.Collection.{insert, exists, find_by_id, find_one, update_by_id}
use hop_drop.Accounts.Text.{same_phone, to_lower, before_char, trim}
use hop_drop.Store.{OtpKey, when, guard, pure, require, gets, modify, ◌>>=◌, ◌>>◌, Action}
use hop_drop.Model.User.{Wallet, UserRating, new_user, Role, User}
use hop_drop.Env.{Env}
use hop_drop.Common.{
  ℕ, suc, ◌+◌, ◌<◌, String, ◌≡◌, Bool, true, false, not, ◌&&◌, ◌||◌, Option, none, some, List, [],
  ◌∷◌, ◌++◌, ⊤, if◌then◌else◌, is_some, take, any, duplicate_key, ok, err,
}
use text.Mathlib.Text.{◌==◌}

-- What a token says.
pub record TokenPayload : Type 0 where
  pub id : ℕ
  pub phone : ℕ
  pub roles : List Role

pub data TokenKind : Type 0 where
  access refresh : TokenKind

-- `jsonwebtoken`, with the secret of each kind of token and its time to live: a token is verified
-- until it expires.
pub record Jwt : Type 0 where
  pub expiry_ms : TokenKind → ℕ
  pub sign : TokenKind → ℕ → TokenPayload → List ℕ
  pub verify : TokenKind → ℕ → List ℕ → Option TokenPayload
  pub verifies :
      (kind : TokenKind) (issued now : ℕ) (p : TokenPayload)
      → now < issued + expiry_ms kind
      → verify kind now (sign kind issued p) ≡ some p

-- `sanitizeUser`: what of an account is sent to its owner.
pub record SanitizedUser : Type 0 where
  pub id : ℕ
  pub name : String
  pub email : String
  pub phone : ℕ
  pub phone_verified : Bool
  pub email_verified : Bool
  pub role : List Role
  pub rating : UserRating
  pub wallet : Wallet
  pub profile_photo : Option String
  pub total_deliveries : ℕ
  pub total_trips_as_carrier : ℕ

abbrev pub sanitize_user : ℕ → User → SanitizedUser
sanitize_user id u = record {
  id = id;
  name = u.name;
  email = u.email;
  phone = u.phone;
  phone_verified = u.phone_verified;
  email_verified = u.email_verified;
  role = u.role;
  rating = u.rating;
  wallet = u.wallet;
  profile_photo = u.profile_photo;
  total_deliveries = u.total_deliveries;
  total_trips_as_carrier = u.total_trips_as_carrier;
}

pub record Session : Type 0 where
  pub access_token : List ℕ
  pub refresh_token : List ℕ
  pub user : SanitizedUser

-- bcrypt reads the first 72 characters of a text.
abbrev pub bcrypt_input : List ℕ → List ℕ
bcrypt_input t = take 72 t

abbrev pub set_user : ℕ → (User → User) → Action ⊤
set_user user f = modify (λ s. record s { users = update_by_id user f s.users })

abbrev pub payload_of : ℕ → User → TokenPayload
payload_of user u = record { id = user; phone = u.phone; roles = u.role }

-- `User.findOne` by a test.
abbrev pub find_user : (User → Bool) → Action (Option (ℕ × User))
find_user p = gets (λ s. find_one p s.users)

-- `User.create`: the schema trims the name and lowers the e-mail, and an index refuses an e-mail or a
-- telephone number that is taken.
unfoldable pub create_user : User → Action ℕ
create_user draft s =
    let u = record draft { name = trim draft.name; email = to_lower draft.email } in
    if exists (λ v. v.email == u.email || same_phone v.phone u.phone) s.users
    then (err duplicate_key, s)
    else (ok s.next_id, record s { users = insert s.next_id u s.users; next_id = suc s.next_id })

-- What a Google token says, once it is checked.
pub record GooglePayload : Type 0 where
  pub email : Option String
  pub name : Option String

-- `demoProfiles`
pub record DemoProfile : Type 0 where
  pub name : String
  pub email : String
  pub phone : ℕ
  pub role : List Role

pub data DemoPersona : Type 0 where
  carrier sender_priya sender_rahul : DemoPersona

unfoldable pub demo_profile : DemoPersona → DemoProfile
demo_profile DemoPersona.carrier = record {
  name = "Arjun Rao";
  email = "arjun@hopdrop.demo";
  phone = 9876500011;
  role = Role.carrier ∷ Role.sender ∷ [];
}
demo_profile sender_priya = record {
  name = "Priya Nair";
  email = "priya@hopdrop.demo";
  phone = 9876500022;
  role = Role.sender ∷ [];
}
demo_profile sender_rahul = record {
  name = "Rahul Mehta";
  email = "rahul@hopdrop.demo";
  phone = 9876500033;
  role = Role.sender ∷ [];
}

abbrev pub same_role : Role → Role → Bool
same_role Role.sender Role.sender = true
same_role Role.carrier Role.carrier = true
same_role Role.admin Role.admin = true
same_role _ _ = false

-- `Array.from(new Set([...roles, ...others]))`, where the roles of an account are distinct.
unfoldable pub merge_roles : List Role → List Role → List Role
merge_roles roles [] = roles
merge_roles roles (r ∷ others) =
    merge_roles (if any (same_role r) roles then roles else roles ++ r ∷ []) others

module _ (jwt : Jwt) (bcrypt : Bcrypt) where
  -- `issueTokens`; `salt` is what bcrypt draws.
  unfoldable pub issue_tokens : ℕ → ℕ → Action Session
  issue_tokens salt user = do
    now ← gets (λ s. s.now)
    found ← gets (λ s. find_by_id user s.users)
    u ← require found 404 "User not found"
    let token = jwt.sign refresh now (payload_of user u)
    set_user user
        (λ u. record u { refresh_token_hash = some (bcrypt.hash salt (bcrypt_input token)) })
    pure (record {
      access_token = jwt.sign access now (payload_of user u);
      refresh_token = token;
      user = sanitize_user user u;
    })

  -- `sendOtp`: the message with the code is sent by a third party.
  unfoldable pub send_otp : ℕ → ℕ → ℕ → Action ⊤
  send_otp draw salt phone = generate_otp bcrypt (OtpKey.phone phone) draw salt >>= λ _. pure tt

  -- `verifyOtpLogin`
  unfoldable pub verify_otp_login : ℕ → ℕ → List ℕ → Action Session
  unfolding issue_tokens
  verify_otp_login salt phone otp = do
    verify_otp bcrypt (OtpKey.phone phone) otp
    found ← find_user (λ u. same_phone u.phone phone && u.is_active)
    user ← require found 404 "User not found. Please register."
    issue_tokens salt user.0

  -- `registerUser`
  unfoldable pub register_user : ℕ → String → String → ℕ → List ℕ → Action Session
  unfolding issue_tokens create_user
  register_user salt name email phone otp = do
    verify_otp bcrypt (OtpKey.phone phone) otp
    existing ← find_user (λ u. same_phone u.phone phone || u.email == email)
    guard (not (is_some existing)) 409 "User already exists with provided phone/email"
    user ← create_user (record (new_user name email phone) { phone_verified = true })
    issue_tokens salt user

  -- `refreshAuthToken`
  unfoldable pub refresh_auth_token : ℕ → List ℕ → Action Session
  unfolding issue_tokens
  refresh_auth_token salt token = do
    now ← gets (λ s. s.now)
    payload ← require (jwt.verify refresh now token) 401 "Invalid refresh token"
    found ← gets (λ s. find_by_id payload.id s.users)
    u ← require found 401 "Invalid refresh token"
    hash ← require u.refresh_token_hash 401 "Invalid refresh token"
    guard (bcrypt.compare (bcrypt_input token) hash) 401 "Refresh token revoked"
    issue_tokens salt payload.id

  -- The account of `googleLogin`, found or made; `placeholder` stands for its missing number.
  unfoldable pub google_user : ℕ → Option String → String → Option (ℕ × User) → Action ℕ
  unfolding create_user
  google_user placeholder name email none =
      let own_name : String = elim name [ none ↦ before_char 64 email | some n ↦ n ] in
      create_user
        (record (new_user own_name (to_lower email) placeholder) { email_verified = true })
  google_user placeholder name email (some (k, u)) = do
    when (not u.email_verified) (set_user k (λ u. record u { email_verified = true }))
    pure k

  -- `googleLogin`: `checked` is what the library says of the token, if it is valid.
  unfoldable pub google_login : Bool → ℕ → ℕ → Option GooglePayload → Action Session
  unfolding google_user issue_tokens
  google_login configured salt placeholder checked = do
    guard configured 503 "Google login not configured"
    payload ← require checked 401 "Invalid Google token"
    email ← require payload.email 401 "Google token missing email"
    found ← find_user (λ u. u.email == to_lower email)
    user ← google_user placeholder payload.name email found
    issue_tokens salt user

  -- `ensureDemoUser`
  unfoldable pub ensure_demo_user : DemoProfile → Option (ℕ × User) → Action ℕ
  unfolding create_user
  ensure_demo_user profile none =
      create_user (record (new_user profile.name profile.email profile.phone) {
        phone_verified = true;
        email_verified = true;
        role = profile.role;
      })
  ensure_demo_user profile (some (k, u)) = do
    set_user k (λ u. record u {
      is_active = true;
      phone_verified = true;
      role = merge_roles u.role profile.role;
    })
    pure k

  -- `demoLogin`
  unfoldable pub demo_login : Env → ℕ → DemoPersona → Action Session
  unfolding ensure_demo_user issue_tokens demo_profile
  demo_login env salt persona = do
    guard env.demo_mode 403 "Demo mode is disabled"
    let profile = demo_profile persona
    found ← find_user (λ u. same_phone u.phone profile.phone)
    user ← ensure_demo_user profile found
    issue_tokens salt user

-- `logoutUser`
unfoldable pub logout_user : ℕ → Action ⊤
logout_user user = set_user user (λ u. record u { refresh_token_hash = none })
