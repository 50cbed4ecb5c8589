-- ===== src/Tests/Accounts.antt =====
-- Runs of the sessions of backend/src/services/auth.service.ts, with a stand-in for the signing of
-- tokens that writes out what a token says.
use mathlib.Core.Path.{ap₂}
use hop_drop.Accounts.Revoked.{refresh_auth_token_iff, is_ok}
use hop_drop.Common.{
  zero, suc, refl, api, ap, err, none, ltb, lt→ltb, ==_refl, take, ◌&&◌, ok, some, ◌==◌, ◌↔◌, [],
  if◌then◌else◌, true, ◌+◌, Option, map, ◌<◌, ◌∷◌, ◌≡◌, List, ℕ,
}
use hop_drop.Accounts.Sessions.{
  logout_user, sanitize_user, access, refresh, refresh_auth_token, Jwt, Session, TokenKind,
  TokenPayload, issue_tokens,
}
use hop_drop.Tests.Fixtures.{with_wallet, demo_store, demo_bcrypt}
use hop_drop.Model.User.{new_user, Role}
use hop_drop.Collection.{find_by_id}
use hop_drop.Store.{Store}

abbrev role_code : Role → ℕ
role_code Role.sender = 0
role_code Role.carrier = 1
role_code Role.admin = 2

abbrev role_of : ℕ → Role
role_of zero = Role.sender
role_of (suc zero) = Role.carrier
role_of (suc (suc n)) = Role.admin

role_of-role_code : (r : Role) → role_of (role_code r) ≡ r
role_of-role_code Role.sender = refl
role_of-role_code Role.carrier = refl
role_of-role_code Role.admin = refl

roles_back : (roles : List Role) → map role_of (map role_code roles) ≡ roles
roles_back [] = refl
roles_back (r ∷ roles) = ap₂ (λ x xs. x ∷ xs) (role_of-role_code r) (roles_back roles)

abbrev kind_code : TokenKind → ℕ
kind_code access = 0
kind_code refresh = 1

abbrev pub demo_sign : TokenKind → ℕ → TokenPayload → List ℕ
demo_sign kind issued p = kind_code kind ∷ issued ∷ p.id ∷ p.phone ∷ map role_code p.roles

abbrev demo_verify : TokenKind → ℕ → List ℕ → Option TokenPayload
demo_verify kind now (k ∷ issued ∷ id ∷ phone ∷ roles) =
    if k == kind_code kind && ltb now (issued + 604800000)
    then some (record { id = id; phone = phone; roles = map role_of roles })
    else none
demo_verify kind now _ = none

pub demo_verifies :
    (kind : TokenKind) (issued now : ℕ) (p : TokenPayload)
    → now < issued + 604800000
    → demo_verify kind now (demo_sign kind issued p) ≡ some p
demo_verifies kind issued now p h = rw (==_refl (kind_code kind)) (
    rw (lt→ltb now (issued + 604800000) h) (
      ap (λ roles. some (record { id = p.id; phone = p.phone; roles = roles }))
        (roles_back p.roles)))

abbrev pub demo_jwt : Jwt
demo_jwt = record {
  expiry_ms = λ kind. 604800000;
  sign = demo_sign;
  verify = demo_verify;
  verifies = demo_verifies;
}

abbrev ravi_payload : TokenPayload
ravi_payload = record { id = 1; phone = 91; roles = Role.sender ∷ [] }

abbrev ravi_session : Session
ravi_session = record {
  access_token = demo_sign access 1000 ravi_payload;
  refresh_token = demo_sign refresh 1000 ravi_payload;
  user = sanitize_user 1 (with_wallet 0 50000 (new_user "Ravi" "r@x" 91));
}

abbrev logged_in : Store
logged_in = (issue_tokens demo_jwt demo_bcrypt 4 1 demo_store).1

session_issued : issue_tokens demo_jwt demo_bcrypt 4 1 demo_store ≡ (ok ravi_session, logged_in)
unfolding issue_tokens find_by_id new_user
session_issued = refl

-- A token that was issued before.
abbrev older_token : List ℕ
older_token = demo_sign refresh 900 ravi_payload

older_token_verified : demo_jwt.verify refresh logged_in.now older_token ≡ some ravi_payload
unfolding issue_tokens find_by_id new_user
older_token_verified = refl

refresh_auth_token_iff_example :
    ((is_ok (refresh_auth_token demo_jwt demo_bcrypt 5 older_token logged_in).0 ≡ true)
      ↔ (take 72 older_token ≡ take 72 ravi_session.refresh_token))
    × (refresh_auth_token demo_jwt demo_bcrypt 5 older_token (logout_user 1 logged_in).1
        ≡ (err (api 401 "Invalid refresh token"), (logout_user 1 logged_in).1))
refresh_auth_token_iff_example =
    refresh_auth_token_iff demo_jwt demo_bcrypt 4 5 1 ravi_session demo_store logged_in older_token
      ravi_payload session_issued older_token_verified refl
