-- ===== src/Accounts/Revoked.antt =====
-- Which refresh tokens backend/src/services/auth.service.ts accepts.
use hop_drop.Collection.Laws.{find_by_id-update, find_by_id-update_self}
use hop_drop.Collection.{Collection, update_by_id, find_by_id}
use hop_drop.Common.{
  none, arith, sym, ap, ◌∙◌, ◌↔◌, [], take, api, refl, inl, inr, false, Bool-cases, Option-cases,
  err, some, true, ok, ◌≡◌, List, ℕ, Bool, Result,
}
use hop_drop.Accounts.Sessions.{
  logout_user, payload_of, bcrypt_input, refresh, TokenPayload, Session, issue_tokens,
  refresh_auth_token, Jwt,
}
use hop_drop.Model.User.{User}
use hop_drop.Store.{Store}
use hop_drop.Otp.{Bcrypt}

abbrev pub is_ok {ℓ} : {A : Type ℓ} → Result A → Bool
is_ok (ok a) = true
is_ok (err e) = false

find_by_id-update_none :
    {A : Type 0} (k : ℕ) (f : A → A) (c : Collection A)
    → find_by_id k c ≡ none
    → find_by_id k (update_by_id k f c) ≡ none
find_by_id-update_none k f c h = ground (arith, find_by_id-update k k f c)

abbrev token_of : Result Session → List ℕ
token_of (ok session) = session.refresh_token
token_of (err e) = []

module _ (jwt : Jwt) (bcrypt : Bcrypt) where
  issue_tokens-stores :
      (salt user : ℕ) (session : Session) (s s1 : Store)
      → issue_tokens jwt bcrypt salt user s ≡ (ok session, s1)
      → (u : User) × (find_by_id user s1.users ≡ some u)
        × (u.refresh_token_hash ≡ some (bcrypt.hash salt (bcrypt_input session.refresh_token)))
  unfolding issue_tokens
  issue_tokens-stores salt user session s s1 h = elim (Option-cases (find_by_id user s.users)) [
    | inl missing ↦ cc (rw missing at h)
    | inr (u, there) ↦
        let token = jwt.sign refresh s.now (payload_of user u) in
        let new_hash = λ (v : User). record v {
          refresh_token_hash = some (bcrypt.hash salt (bcrypt_input token));
        } in
        let e = rw there at h in
        let same : token ≡ session.refresh_token = ap (λ x. token_of x.0) e in
        let users : update_by_id user new_hash s.users ≡ s1.users = ap (λ x. x.1.users) e in
        (
          new_hash u,
          rw (← users) (find_by_id-update_self user new_hash s.users there),
          ap (λ t. some (bcrypt.hash salt (bcrypt_input t))) same,
        )
  ]

  issue_tokens-ok :
      (salt user : ℕ) (s : Store) (u : User)
      → find_by_id user s.users ≡ some u
      → is_ok (issue_tokens jwt bcrypt salt user s).0 ≡ true
  unfolding issue_tokens
  issue_tokens-ok salt user s u there = rw there refl

  refresh_auth_token-stored :
      (salt : ℕ) (token : List ℕ) (p : TokenPayload) (u : User) (hash : ℕ) (s : Store)
      → jwt.verify refresh s.now token ≡ some p
      → find_by_id p.id s.users ≡ some u
      → u.refresh_token_hash ≡ some hash
      → is_ok (refresh_auth_token jwt bcrypt salt token s).0
        ≡ bcrypt.compare (bcrypt_input token) hash
  unfolding refresh_auth_token
  refresh_auth_token-stored salt token p u hash s verified there stored =
      elim (Bool-cases (bcrypt.compare (bcrypt_input token) hash)) [
        | inl same ↦
            rw verified (rw there (rw stored (rw same (issue_tokens-ok salt p.id s u there))))
        | inr other ↦ rw verified (rw there (rw stored (rw other refl)))
      ]

  refresh_auth_token-logged_out :
      (salt : ℕ) (token : List ℕ) (p : TokenPayload) (s : Store)
      → jwt.verify refresh s.now token ≡ some p
      → refresh_auth_token jwt bcrypt salt token (logout_user p.id s).1
        ≡ (err (api 401 "Invalid refresh token"), (logout_user p.id s).1)
  unfolding refresh_auth_token logout_user
  refresh_auth_token-logged_out salt token p s verified =
      elim (Option-cases (find_by_id p.id s.users)) [
        | inl missing ↦ rw verified (rw (find_by_id-update_none p.id _ s.users missing) refl)
        | inr (u, there) ↦ rw verified (rw (find_by_id-update_self p.id _ s.users there) refl)
      ]

-- Once tokens are issued, a refresh with a valid token of the same account is answered exactly if
-- the first 72 characters of the token, which bcrypt reads, are those of the refresh token that was
-- issued; and once the account is logged out, such a token is refused with 401 and nothing changes.
pub refresh_auth_token_iff :
    (jwt : Jwt) (bcrypt : Bcrypt) (salt later_salt user : ℕ) (session : Session) (s s1 : Store)
    (token : List ℕ) (p : TokenPayload)
    → issue_tokens jwt bcrypt salt user s ≡ (ok session, s1)
    → jwt.verify refresh s1.now token ≡ some p
    → p.id ≡ user
    → ((is_ok (refresh_auth_token jwt bcrypt later_salt token s1).0 ≡ true)
        ↔ (take 72 token ≡ take 72 session.refresh_token))
      × (refresh_auth_token jwt bcrypt later_salt token (logout_user user s1).1
          ≡ (err (api 401 "Invalid refresh token"), (logout_user user s1).1))
refresh_auth_token_iff jwt bcrypt salt later_salt user session s s1 token p issued verified own =
    let (u, there, stored) = issue_tokens-stores jwt bcrypt salt user session s s1 issued in
    let answer =
      refresh_auth_token-stored jwt bcrypt later_salt token p u _ s1 verified (rw own there)
        stored in
    (
      (
        λ h. bcrypt.rejects_other salt _ _ (sym answer ∙ h),
        λ same. answer ∙ rw same (bcrypt.accepts_own salt (take 72 session.refresh_token)),
      ),
      rw (← own) (refresh_auth_token-logged_out jwt bcrypt later_salt token p s1 verified),
    )
