-- ===== src/Otp.antt =====
-- backend/src/services/otp.service.ts: one-time codes in Redis, hashed by bcrypt, with three
-- tries each. bcrypt is a parameter; the random number and the salt are arguments. A code is the
-- list of its characters.
pub mod Digits
pub mod Tries
pub mod Keys
use hop_drop.Common.{
  ℕ, zero, suc, ◌+◌, ◌*◌, ◌/◌, ◌%◌, ◌≡◌, Bool, true, false, Option, none, some, List, [], ◌∷◌, ltb,
  ◌==◌, if◌then◌else◌, ok,
}
use hop_drop.Store.{
  ◌>>=◌, ◌>>◌, Action, OtpKey, phone, pickup, delivery, OtpEntry, gets, pure, require, guard,
  modify,
}

-- What the service relies on: a text is accepted against its own hash, whatever the salt, and no
-- other text is (for texts of this length, short of a collision).
pub record Bcrypt : Type 0 where
  pub hash : ℕ → List ℕ → ℕ
  pub compare : List ℕ → ℕ → Bool
  pub accepts_own : (salt : ℕ) (t : List ℕ) → compare t (hash salt t) ≡ true
  pub rejects_other : (salt : ℕ) (t u : List ℕ) → compare t (hash salt u) ≡ true → t ≡ u

abbrev pub otp_ttl_seconds : ℕ
otp_ttl_seconds = 600

abbrev pub max_attempts : ℕ
max_attempts = 3

abbrev pub same_key : OtpKey → OtpKey → Bool
same_key (phone a) (phone b) = a == b
same_key (pickup a) (pickup b) = a == b
same_key (delivery a) (delivery b) = a == b
same_key _ _ = false

-- Redis `GET`: an entry is gone once its time to live is over.
unfoldable pub get_otp : ℕ → OtpKey → List (OtpKey × OtpEntry) → Option OtpEntry
get_otp now key [] = none
get_otp now key ((k, e) ∷ es) =
    if same_key k key then (if ltb now e.expires_at then some e else none) else get_otp now key es

-- Redis `SETEX`
unfoldable pub set_otp : OtpKey → OtpEntry → List (OtpKey × OtpEntry) → List (OtpKey × OtpEntry)
set_otp key e [] = (key, e) ∷ []
set_otp key e ((k, f) ∷ es) = if same_key k key then (key, e) ∷ es else (k, f) ∷ set_otp key e es

-- Redis `DEL`
unfoldable pub del_otp : OtpKey → List (OtpKey × OtpEntry) → List (OtpKey × OtpEntry)
del_otp key [] = []
del_otp key ((k, f) ∷ es) =
    let rest = del_otp key es in if same_key k key then rest else (k, f) ∷ rest

-- `Number.prototype.toString`, for a number of at most `fuel` digits: the digits before `acc`.
unfoldable pub digits_from : ℕ → ℕ → List ℕ → List ℕ
digits_from zero n acc = acc
digits_from (suc fuel) n acc =
    let rest = digits_from fuel (n / 10) ((48 + n % 10) ∷ acc) in
    if ltb n 10 then (48 + n) ∷ acc else rest

-- `crypto.randomInt(100000, 999999).toString()`; a draw is any number.
unfoldable pub random_otp : ℕ → List ℕ
unfolding digits_from
random_otp draw = digits_from 7 (100000 + draw % 899999) []

abbrev pub new_entry : ℕ → ℕ → ℕ → OtpEntry
new_entry now hash attempts = record {
  hash = hash;
  attempts = attempts;
  created_at = now;
  expires_at = now + otp_ttl_seconds * 1000;
}

module _ (bcrypt : Bcrypt) where
  -- `generateOTP`
  unfoldable pub generate_otp : OtpKey → ℕ → ℕ → Action (List ℕ)
  generate_otp key draw salt s =
      let otp = random_otp draw in
      (ok otp, record s { otps = set_otp key (new_entry s.now (bcrypt.hash salt otp) 0) s.otps })

  -- `verifyOTP`
  unfoldable pub verify_otp : OtpKey → List ℕ → Action Bool
  verify_otp key input = do
    now ← gets (λ s. s.now)
    found ← gets (λ s. get_otp s.now key s.otps)
    entry ← require found 400 "OTP expired or not found"
    guard (ltb entry.attempts max_attempts) 429 "Too many attempts. Request new OTP"
    modify (λ s. record s {
      otps = set_otp key (new_entry now entry.hash (entry.attempts + 1)) s.otps;
    })
    guard (bcrypt.compare input entry.hash) 400 "Invalid OTP"
    modify (λ s. record s { otps = del_otp key s.otps })
    pure true
