-- ===== src/Sanitize.antt =====
-- `sanitizeNoSql` of backend/src/utils/sanitize.ts: the removal of the keys of a request's JSON that
-- the database would read as operators or paths.
pub mod Clean
pub mod Escape
use Prim.Native.Char.{code}
use Prim.Native.String.{String, [], ◌∷◌}
use hop_drop.Common.{Bool, true, false, ◌||◌, ◌==◌, if◌then◌else◌}
use hop_drop.Json.{Json, Items, Fields, arr, obj, nil, cons, end, field}

-- `key.includes('.')`
unfoldable pub has_dot : String → Bool
has_dot [] = false
has_dot (c ∷ s) = if code c == 46 then true else has_dot s

-- `key.startsWith('$')`
unfoldable pub has_dollar : String → Bool
has_dollar [] = false
has_dollar (c ∷ s) = code c == 36

unfoldable pub is_operator_key : String → Bool
is_operator_key key = has_dollar key || has_dot key

unfoldable mutual
  pub sanitize_no_sql : Json → Json
  sanitize_no_sql (arr items) = arr (sanitize_items items)
  sanitize_no_sql (obj fields) = obj (sanitize_fields fields)
  sanitize_no_sql j = j

  pub sanitize_items : Items → Items
  sanitize_items nil = nil
  sanitize_items (cons j items) = cons (sanitize_no_sql j) (sanitize_items items)

  pub sanitize_fields : Fields → Fields
  sanitize_fields end = end
  sanitize_fields (field key j fields) =
      let rest = sanitize_fields fields in
      if is_operator_key key then rest else field key (sanitize_no_sql j) rest
