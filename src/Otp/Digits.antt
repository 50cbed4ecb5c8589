-- ===== src/Otp/Digits.antt =====
-- The text of a code of backend/src/services/otp.service.ts.
use hop_drop.Common.{ℕ, zero, suc, ◌+◌, ◌/◌, ◌%◌, ◌≤◌, ◌<◌, ◌≡◌, List, [], ◌∷◌, arith, length, All}
use hop_drop.Otp.{digits_from, random_otp}

-- The character is a decimal digit.
abbrev pub IsDigit : ℕ → Type 0
IsDigit c = (48 ≤ c) × (c ≤ 57)

digits_from-IsDigit :
    (fuel n : ℕ) (acc : List ℕ) → All IsDigit acc → All IsDigit (digits_from fuel n acc)
unfolding digits_from
digits_from-IsDigit zero n acc h = h
digits_from-IsDigit (suc fuel) n acc h =
    ground (arith, digits_from-IsDigit fuel (n / 10) ((48 + n % 10) ∷ acc))

-- A number of exactly six digits, printed.
length-six : (n : ℕ) → 100000 ≤ n → n < 1000000 → length (digits_from 7 n []) ≡ 6
unfolding digits_from
length-six n lo hi = ground arith

-- Whatever is drawn, a code has six characters, all of them digits.
pub random_otp_format : (draw : ℕ) → (length (random_otp draw) ≡ 6) × All IsDigit (random_otp draw)
unfolding random_otp
random_otp_format draw = (
  length-six (100000 + draw % 899999) (omega arith) (omega arith),
  digits_from-IsDigit 7 (100000 + draw % 899999) [] tt,
)
