-- ===== src/Http/Start.antt =====
-- `connectDB` of backend/src/config/db.ts: the connection is tried up to five times, or once on a
-- serverless platform, which goes on without one. How each attempt ends is an argument; the waits
-- between the attempts are left out.
use hop_drop.Common.{zero, suc, ◌+◌, ◌==◌, err, ok, ⊤, Result, if◌then◌else◌, ℕ, Bool}

pub data Connection : Type 0 where
  connected gave_up : Connection

abbrev pub connect_retries : Bool → ℕ
connect_retries serverless = if serverless then 1 else 5

-- The loop, with the attempts that are left and the number of the next one.
unfoldable pub connect_loop : Bool → (ℕ → Result ⊤) → ℕ → ℕ → Result Connection
connect_loop serverless attempt zero n = ok gave_up
connect_loop serverless attempt (suc left) n =
    let rest = connect_loop serverless attempt left (n + 1) in
    elim (attempt n) [
      | ok _ ↦ ok connected
      | err e ↦ if left == 0 then (if serverless then ok gave_up else err e) else rest
    ]

unfoldable pub connect_db : Bool → (ℕ → Result ⊤) → Result Connection
unfolding connect_loop
connect_db serverless attempt = connect_loop serverless attempt (connect_retries serverless) 1
