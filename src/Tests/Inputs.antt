-- ===== src/Tests/Inputs.antt =====
-- Runs of `sanitizeNoSql` of backend/src/utils/sanitize.ts on a login with an operator, and without.
use hop_drop.Sanitize.{has_dot, has_dollar, is_operator_key, sanitize_no_sql}
use hop_drop.Common.{◌≡◌, refl, true}
use hop_drop.Json.{Json, obj, text, num, end, field}
use hop_drop.Sanitize.Clean.{is_clean, sanitize_no_sql-is_clean, clean_unchanged}

abbrev operator_login : Json
operator_login =
    obj (field "email" (text "ravi@hop") (field "password" (obj (field "$gt" (num 0) end)) end))

abbrev emptied_login : Json
emptied_login = obj (field "email" (text "ravi@hop") (field "password" (obj end) end))

sanitize_no_sql-is_clean_example : is_clean (sanitize_no_sql operator_login) ≡ true
sanitize_no_sql-is_clean_example = sanitize_no_sql-is_clean operator_login

operator_removed : sanitize_no_sql operator_login ≡ emptied_login
unfolding sanitize_no_sql is_operator_key has_dollar has_dot
operator_removed = refl

clean_unchanged_example : sanitize_no_sql emptied_login ≡ emptied_login
unfolding is_clean is_operator_key has_dollar has_dot
clean_unchanged_example = clean_unchanged emptied_login refl
