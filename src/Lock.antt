-- ===== src/Lock.antt =====
-- backend/src/utils/distributedLock.ts: a lock in Redis with an owner's token and a time to live of
-- ten seconds. The token is an argument: the code draws it from the clock and a random number. The code's
-- locks are those of matches, `match:accept:<id>`; a lock's key is the number of its match here.
pub mod Exclusion
use Prim.Native.String.{◌++◌}
use hop_drop.Common.{
  String, zero, suc, ◌/◌, ◌%◌, ◌+◌, ◌*◌, some, [], ◌∷◌, ltb, ◌==◌, if◌then◌else◌, ok, Result, none,
  List, Option, ⊤, ℕ,
}
use hop_drop.Store.{Action, Store, LockEntry, require, ◌>>=◌, ◌>>◌}

abbrev pub lock_ttl_seconds : ℕ
lock_ttl_seconds = 10

-- Redis `GET`
unfoldable pub get_lock : ℕ → ℕ → List (ℕ × LockEntry) → Option LockEntry
get_lock now key [] = none
get_lock now key ((k, e) ∷ es) =
    if k == key then (if ltb now e.expires_at then some e else none) else get_lock now key es

-- Redis `SET` and `DEL`
unfoldable pub del_lock : ℕ → List (ℕ × LockEntry) → List (ℕ × LockEntry)
del_lock key [] = []
del_lock key ((k, e) ∷ es) = let rest = del_lock key es in if k == key then rest else (k, e) ∷ rest

-- `acquireLock`: `SET key token NX EX ttl`
unfoldable pub acquire_lock : ℕ → ℕ → ℕ → Action (Option ℕ)
acquire_lock key token ttl_seconds s = elim (get_lock s.now key s.locks) [
  | some e ↦ (ok none, s)
  | none ↦ (
    ok (some token),
    record s {
      locks =
          (key, record { token = token; expires_at = s.now + ttl_seconds * 1000 })
          ∷ del_lock key s.locks;
    },
  )
]

-- `releaseLock`: the script deletes the key if it still holds the token.
unfoldable pub release_lock : ℕ → ℕ → Action ⊤
release_lock key token s = elim (get_lock s.now key s.locks) [
  | none ↦ (ok tt, s)
  | some e ↦ (ok tt, if e.token == token then record s { locks = del_lock key s.locks } else s)
]

-- `finally`
abbrev finish : {A : Type 0} → Action ⊤ → Result A × Store → Result A × Store
finish after (r, s) = (r, (after s).1)

abbrev digits : List String
digits = "0" ∷ "1" ∷ "2" ∷ "3" ∷ "4" ∷ "5" ∷ "6" ∷ "7" ∷ "8" ∷ "9" ∷ []

abbrev digit : ℕ → List String → String
digit n [] = ""
digit zero (d ∷ ds) = d
digit (suc n) (d ∷ ds) = digit n ds

-- A number as a template writes it, on fuel for its digits.
abbrev number_text : ℕ → ℕ → String
number_text zero n = ""
number_text (suc fuel) n =
    let tens = number_text fuel (n / 10) in
    if ltb n 10 then digit n digits else tens ++ digit (n % 10) digits

abbrev pub lock_message : ℕ → String
lock_message key =
    "Resource is being processed. Try again in a moment. [lock:match:accept:"
    ++ number_text (suc key) key
    ++ "]"

-- `withLock`
unfoldable pub with_lock : {A : Type 0} → ℕ → ℕ → Action A → Action A
with_lock key token fn = do
  held ← acquire_lock key token lock_ttl_seconds
  require held 409 (lock_message key)
  λ s. finish (release_lock key token) (fn s)
