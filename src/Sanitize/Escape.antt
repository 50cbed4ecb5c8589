-- ===== src/Sanitize/Escape.antt =====
-- `escapeRegex` of backend/src/utils/sanitize.ts: a text that is searched for as it is written.
use Prim.Native.Char.{Char, code}
use Prim.Native.String.{String, [], ◌∷◌}
use hop_drop.Common.{◌||◌, Bool, if◌then◌else◌, ◌==◌}
use hop_drop.Accounts.Text.{join_text}

-- The characters with a meaning in a regular expression.
abbrev pub is_special_char : Char → Bool
is_special_char c =
    code c == 46
    || code c == 42
    || code c == 43
    || code c == 63
    || code c == 94
    || code c == 36
    || code c == 123
    || code c == 125
    || code c == 40
    || code c == 41
    || code c == 124
    || code c == 91
    || code c == 93
    || code c == 92

-- `escapeRegex`, of a text
unfoldable pub escape_regex : String → String
escape_regex [] = []
escape_regex (c ∷ t) =
    let rest = c ∷ escape_regex t in if is_special_char c then join_text "\\" rest else rest
