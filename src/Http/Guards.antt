-- ===== src/Http/Guards.antt =====
-- The middleware of backend/src/middleware that lets a request in by who sends it, the answer to an
-- error, and the cache of answers. A header is the list of its characters; the tokens are those of
-- the sessions, and the decoding of base64 is an argument.
use hop_drop.Common.{
  str_eq, ℕ, ◌+◌, ◌*◌, String, Bool, true, false, not, ◌&&◌, ◌||◌, Option, none, some, List, [],
  ◌∷◌, ⊤, ltb, leb, ◌==◌, if◌then◌else◌, length, any, Error, Result, api, duplicate_key,
  transaction_unsupported, write_conflict, failure, ok, err,
}
use hop_drop.Accounts.Sessions.{TokenKind, same_role, TokenPayload, Jwt}
use hop_drop.Accounts.Text.{text_or}
use hop_drop.Json.{Json}
use hop_drop.Model.User.{Role}

-- `startsWith` and `replace` of a prefix: the rest of a text after it.
unfoldable pub strip_prefix : List ℕ → List ℕ → Option (List ℕ)
strip_prefix [] t = some t
strip_prefix (p ∷ ps) [] = none
strip_prefix (p ∷ ps) (c ∷ t) = if p == c then strip_prefix ps t else none

-- `Bearer ` and `Basic `
abbrev bearer : List ℕ
bearer = 66 ∷ 101 ∷ 97 ∷ 114 ∷ 101 ∷ 114 ∷ 32 ∷ []

abbrev basic : List ℕ
basic = 66 ∷ 97 ∷ 115 ∷ 105 ∷ 99 ∷ 32 ∷ []

abbrev after_prefix : List ℕ → Option (List ℕ) → Option (List ℕ)
after_prefix prefix none = none
after_prefix prefix (some header) = strip_prefix prefix header

abbrev result_or : {A : Type 0} → Error → Option A → Result A
result_or e none = err e
result_or e (some a) = ok a

-- `requireAuth`: the user of the request.
unfoldable pub require_auth : Jwt → ℕ → Option (List ℕ) → Result TokenPayload
unfolding strip_prefix
require_auth jwt now header = elim (after_prefix bearer header) [
  | none ↦ err (api 401 "Invalid or expired token")
  | some token ↦
      result_or (api 401 "Invalid or expired token") (jwt.verify TokenKind.access now token)
]

-- `requireRole`
unfoldable pub require_role : Role → Option TokenPayload → Result ⊤
require_role role none = err (api 401 "Unauthorized")
require_role role (some user) =
    if any (same_role role) user.roles || any (same_role Role.admin) user.roles
    then ok tt
    else err (api 403 "Forbidden")

-- `timingSafeEqual`, on texts of one length.
unfoldable pub same_text : List ℕ → List ℕ → Bool
same_text [] [] = true
same_text (a ∷ as1) (b ∷ bs) = let rest = same_text as1 bs in if a == b then rest else false
same_text _ _ = false

-- `requireInternalService`, for the token of the settings.
unfoldable pub require_internal_service : List ℕ → Option (List ℕ) → Result ⊤
unfolding same_text
require_internal_service expected none = err (api 401 "Unauthorized internal service request")
require_internal_service expected (some token) =
    if not (length token == length expected) || not (same_text token expected)
    then err (api 401 "Unauthorized internal service request")
    else ok tt

-- `decoded.slice(separatorIndex + 1)`, nothing where there is no colon.
unfoldable pub after_colon : List ℕ → List ℕ
after_colon [] = []
after_colon (c ∷ t) = let rest = after_colon t in if c == 58 then t else rest

abbrev check_password : List ℕ → List ℕ → Result ⊤
check_password expected given =
    if length given == length expected && same_text given expected
    then ok tt
    else err (api 401 "Invalid Bull Board credentials")

-- `bullBoardBasicAuth`, with the password of the settings, if there is one.
unfoldable pub bull_board_basic_auth :
    (List ℕ → List ℕ) → Option (List ℕ) → Option (List ℕ) → Result ⊤
unfolding strip_prefix after_colon same_text
bull_board_basic_auth decode none header = err (api 503 "Bull Board password is not configured")
bull_board_basic_auth decode (some expected) header = elim (after_prefix basic header) [
  | none ↦ err (api 401 "Bull Board authentication required")
  | some credentials ↦ check_password expected (after_colon (decode credentials))
]

-- What `errorHandler` is given: an error of a handler, or of the validation of its input.
pub data Failure : Type 0 where
  invalid_input : Failure
  thrown : Error → Failure

pub record ErrorAnswer : Type 0 where
  pub status : ℕ
  pub message : String

abbrev error_status : Error → ℕ
error_status (api status message) = if status == 0 then 500 else status
error_status _ = 500

abbrev error_message : Error → String
error_message (api status message) = text_or message "Internal server error"
error_message (failure message) = text_or message "Internal server error"
error_message duplicate_key = "E11000 duplicate key error"
error_message transaction_unsupported =
    "Transaction numbers are only allowed on a replica set member or mongos"
error_message write_conflict = "WriteConflict"

-- `errorHandler`: in production the message of a fault of the server is not sent.
unfoldable pub error_handler : Bool → Failure → ErrorAnswer
error_handler production invalid_input = record { status = 400; message = "Validation failed" }
error_handler production (thrown e) = record {
  status = error_status e;
  message =
      if leb 500 (error_status e) && production then "Internal server error" else error_message e;
}

-- `buildCacheKey`: the method, the URL and the user, if there is one.
pub record CacheKey : Type 0 where
  pub method : String
  pub original_url : String
  pub user : Option ℕ

-- What Redis holds for an answer, and when it expires.
pub record CacheEntry : Type 0 where
  pub body : Json
  pub expires_at : ℕ

abbrev same_user : Option ℕ → Option ℕ → Bool
same_user none none = true
same_user (some a) (some b) = a == b
same_user _ _ = false

abbrev pub same_cache_key : CacheKey → CacheKey → Bool
same_cache_key a b =
    str_eq a.method b.method && str_eq a.original_url b.original_url && same_user a.user b.user

unfoldable pub get_cached : ℕ → CacheKey → List (CacheKey × CacheEntry) → Option Json
get_cached now key [] = none
get_cached now key ((k, e) ∷ es) =
    if same_cache_key k key
    then (if ltb now e.expires_at then some e.body else none)
    else get_cached now key es

-- `setex`: the newest entry of a key comes first.
unfoldable pub set_cached :
    ℕ → CacheKey → ℕ → Json → List (CacheKey × CacheEntry) → List (CacheKey × CacheEntry)
set_cached now key ttl_seconds body es =
    (key, record { body = body; expires_at = now + ttl_seconds * 1000 }) ∷ es

-- `cacheMiddleware`: the status and body of the answer, from the cache or from the handler, whose
-- answer is an argument, and the cache that is left.
unfoldable pub cache_middleware :
    ℕ
    → ℕ
    → CacheKey
    → ℕ × Json
    → List (CacheKey × CacheEntry)
    → (ℕ × Json) × List (CacheKey × CacheEntry)
unfolding get_cached set_cached
cache_middleware ttl_seconds now key (status, body) cache =
    if not (str_eq key.method "GET")
    then ((status, body), cache)
    else elim (get_cached now key cache) [
      | some cached ↦ ((200, cached), cache)
      | none ↦ (
        (status, body),
        if leb 200 status && ltb status 300
            then set_cached now key ttl_seconds body cache
            else cache,
      )
    ]
