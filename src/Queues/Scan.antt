-- ===== src/Queues/Scan.antt =====
-- The audit of the codes in backend/src/queues/otpCleanup.ts: a walk over the keys of Redis by SCAN,
-- which counts the codes that have no time to live left. `scan` is the answer of Redis to a cursor,
-- and `ttl` to a key.
use hop_drop.Common.{
  zero, suc, ◌+◌, some, ◌==◌, if◌then◌else◌, filter, none, Option, length, List, ℕ,
}
use hop_drop.Common.Int.{pos, ltb_ℤ, ℤ}
use hop_drop.Store.{OtpKey}

abbrev pub Scan : Type 0
Scan = ℕ → ℕ × List OtpKey

module _ (scan : Scan) (ttl : OtpKey → ℤ) where
  abbrev expired : List OtpKey → ℕ
  expired keys = length (filter (λ k. ltb_ℤ (ttl k) (pos 0)) keys)

  -- The loop `do … while (cursor !== '0')` from a cursor, with fuel.
  unfoldable pub count_expired : ℕ → ℕ → ℕ → Option ℕ
  count_expired zero cursor count = none
  count_expired (suc fuel) cursor count =
      let (next, keys) = scan cursor in
      let count' = count + expired keys in
      let rest = count_expired fuel next count' in if next == 0 then some count' else rest

  -- The worker of the audit: `expiredCount`
  unfoldable pub audit_codes : ℕ → Option ℕ
  unfolding count_expired
  audit_codes fuel = count_expired fuel 0 0
