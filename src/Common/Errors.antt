-- ===== src/Common/Errors.antt =====
-- What a handler throws (backend/src/utils/ApiError.ts and the errors of the database driver), and
-- its result.
use Prim.Native.Nat.{ℕ}
use Prim.Native.String.{String}

-- `api` is `ApiError`; the others are the driver's errors that the code tells apart: code 11000,
-- code 20 or "Transaction numbers…", a write conflict or transient label, and any other.
pub data Error : Type 0 where
  api : ℕ → String → Error
  duplicate_key transaction_unsupported write_conflict : Error
  failure : String → Error

pub data Result {ℓ} (A : Type ℓ) : Type ℓ where
  ok : A → Result A
  err : Error → Result A
