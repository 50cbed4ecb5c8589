-- ===== src/Accounts/Text.antt =====
-- What backend/src/services/user.service.ts and its like do with texts. A character is a code point
-- here, where JavaScript counts units of UTF-16, which are the same in the texts that are cut.
use Prim.Native.Char.{Char, code}
use Prim.Native.String.{String, [], ◌∷◌, ◌++◌}
use hop_drop.Common.{ℕ, suc, ◌-◌, Bool, true, false, ◌||◌, ◌&&◌, leb, ◌==◌, if◌then◌else◌}

abbrev pub text_length : String → ℕ
text_length [] = 0
text_length (c ∷ t) = suc (text_length t)

-- `slice(-n)`
unfoldable pub take_last : ℕ → String → String
take_last n [] = []
take_last n (c ∷ t) = if leb (suc (text_length t)) n then c ∷ t else take_last n t

-- `slice(0, n)`
unfoldable pub take_first : ℕ → String → String
take_first n [] = []
take_first n (c ∷ t) = let rest = take_first (n - 1) t in if n == 0 then [] else c ∷ rest

-- The white space of ASCII: the tab to the carriage return, and the space.
abbrev pub is_space : Char → Bool
is_space c = code c == 32 || (leb 9 (code c) && leb (code c) 13)

-- `replace(/\s+/g, '')`
unfoldable pub without_spaces : String → String
without_spaces [] = []
without_spaces (c ∷ t) = let rest = without_spaces t in if is_space c then rest else c ∷ rest

unfoldable pub trim_start : String → String
trim_start [] = []
trim_start (c ∷ t) = if is_space c then trim_start t else c ∷ t

abbrev pub is_empty : String → Bool
is_empty [] = true
is_empty (c ∷ t) = false

unfoldable pub trim_end : String → String
trim_end [] = []
trim_end (c ∷ t) = let rest = trim_end t in if is_space c && is_empty rest then [] else c ∷ rest

-- `trim`
abbrev pub trim : String → String
trim t = trim_start (trim_end t)

-- Whether a text has a character.
unfoldable pub has_char : ℕ → String → Bool
has_char k [] = false
has_char k (c ∷ t) = if code c == k then true else has_char k t

-- `/^\d*$/`
unfoldable pub all_digits : String → Bool
all_digits [] = true
all_digits (c ∷ t) = leb 48 (code c) && leb (code c) 57 && all_digits t

-- The letter at the place of `c` in the first alphabet, taken from the second.
unfoldable pub exchange : String → String → Char → Char
exchange (a ∷ from) (b ∷ to) c = if code c == code a then b else exchange from to c
exchange _ _ c = c

unfoldable pub exchange_all : String → String → String → String
unfolding exchange
exchange_all from to [] = []
exchange_all from to (c ∷ t) = exchange from to c ∷ exchange_all from to t

abbrev upper_letters : String
upper_letters = "ABCDEFGHIJKLMNOPQRSTUVWXYZ"

abbrev lower_letters : String
lower_letters = "abcdefghijklmnopqrstuvwxyz"

-- `toLowerCase` and `toUpperCase`, on the letters of ASCII.
unfoldable pub to_lower : String → String
unfolding exchange_all
to_lower t = exchange_all upper_letters lower_letters t

unfoldable pub to_upper : String → String
unfolding exchange_all
to_upper t = exchange_all lower_letters upper_letters t

abbrev pub same_phone : ℕ → ℕ → Bool
same_phone a b = a == b

-- `email.split('@')[0]`
unfoldable pub before_char : ℕ → String → String
before_char k [] = []
before_char k (c ∷ t) = let rest = before_char k t in if code c == k then [] else c ∷ rest

abbrev pub nat_eq : ℕ → ℕ → Bool
nat_eq a b = a == b

-- `a || b` of texts
abbrev pub text_or : String → String → String
text_or [] b = b
text_or (c ∷ t) b = c ∷ t

abbrev pub join_text : String → String → String
join_text a b = a ++ b
