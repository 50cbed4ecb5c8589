-- ===== src/Sanitize/Clean.antt =====
-- What is left of a request after `sanitizeNoSql` of backend/src/utils/sanitize.ts.
use hop_drop.Common.{◌≡◌, refl, ap, arith, String, Bool, true, not, ◌&&◌}
use mathlib.Core.Bool.{and-eq-true_iff}
use hop_drop.Json.{Json, Items, Fields, null, flag, num, text, arr, obj, nil, cons, end, field}
use hop_drop.Sanitize.{sanitize_no_sql, sanitize_items, sanitize_fields, is_operator_key}

-- Whether no object in a value, at any depth, has a key that reads as an operator or a path.
unfoldable mutual
  pub is_clean : Json → Bool
  is_clean (arr items) = are_clean items
  is_clean (obj fields) = fields_clean fields
  is_clean j = true

  pub are_clean : Items → Bool
  are_clean nil = true
  are_clean (cons j items) = is_clean j && are_clean items

  pub fields_clean : Fields → Bool
  fields_clean end = true
  fields_clean (field key j fields) =
      not (is_operator_key key) && (is_clean j && fields_clean fields)

mutual
  unfolding sanitize_no_sql is_clean

  clean_value : (j : Json) → is_clean (sanitize_no_sql j) ≡ true
  clean_value (arr items) = clean_items items
  clean_value (obj fields) = clean_fields fields
  clean_value null = refl
  clean_value (flag b) = refl
  clean_value (num n) = refl
  clean_value (text s) = refl

  clean_items : (items : Items) → are_clean (sanitize_items items) ≡ true
  clean_items nil = refl
  clean_items (cons j items) = ground (arith, clean_value j, clean_items items)

  clean_fields : (fields : Fields) → fields_clean (sanitize_fields fields) ≡ true
  clean_fields end = refl
  clean_fields (field key j fields) = ground (arith, clean_value j, clean_fields fields)

-- What is left of a request has no key that starts with a dollar or holds a dot, at any depth.
pub sanitize_no_sql-is_clean : (j : Json) → is_clean (sanitize_no_sql j) ≡ true
sanitize_no_sql-is_clean j = clean_value j

kept_field :
    (key : String) (j : Json) (fields : Fields)
    → not (is_operator_key key) ≡ true
    → sanitize_no_sql j ≡ j
    → sanitize_fields fields ≡ fields
    → sanitize_fields (field key j fields) ≡ field key j fields
unfolding sanitize_no_sql
kept_field key j fields h hj hf = grind arith

mutual
  unfolding sanitize_no_sql is_clean

  same_value : (j : Json) → is_clean j ≡ true → sanitize_no_sql j ≡ j
  same_value (arr items) h = ap arr (same_items items h)
  same_value (obj fields) h = ap obj (same_fields fields h)
  same_value null h = refl
  same_value (flag b) h = refl
  same_value (num n) h = refl
  same_value (text s) h = refl

  same_items : (items : Items) → are_clean items ≡ true → sanitize_items items ≡ items
  same_items nil h = refl
  same_items (cons j items) h = rw (same_value j split.0, same_items items split.1)
    where
      split : (is_clean j ≡ true) × (are_clean items ≡ true)
      split = (and-eq-true_iff (is_clean j) (are_clean items)).0 h

  same_fields : (fields : Fields) → fields_clean fields ≡ true → sanitize_fields fields ≡ fields
  same_fields end h = refl
  same_fields (field key j fields) h =
      kept_field key j fields split.0 (same_value j rest.0) (same_fields fields rest.1)
    where
      split : (not (is_operator_key key) ≡ true) × (is_clean j && fields_clean fields ≡ true)
      split = (and-eq-true_iff _ _).0 h

      rest : (is_clean j ≡ true) × (fields_clean fields ≡ true)
      rest = (and-eq-true_iff _ _).0 split.1

-- A request without a key that starts with a dollar or holds a dot is left as it is.
pub clean_unchanged : (j : Json) → is_clean j ≡ true → sanitize_no_sql j ≡ j
clean_unchanged j h = same_value j h
