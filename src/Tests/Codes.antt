-- ===== src/Tests/Codes.antt =====
-- Runs of the one-time codes of backend/src/services/otp.service.ts and of the lock of
-- backend/src/utils/distributedLock.ts.
use hop_drop.Lock.{release_lock, lock_message, lock_ttl_seconds, with_lock, get_lock, acquire_lock}
use hop_drop.Common.{none, ◌≡◌, true, false, List, arith, any, refl, [], ◌∷◌, ok, err, api}
use hop_drop.Otp.Tries.{verify-generate, later, guesses_bounded, run_guesses, Guess, after}
use hop_drop.Lock.Exclusion.{with_lock-excludes, LockEvent, wait, take, release, on_lock_events}
use hop_drop.Otp.{generate_otp, random_otp, verify_otp}
use hop_drop.Tests.Fixtures.{demo_store, demo_bcrypt}
use hop_drop.Store.{Store, pickup}

-- Four guesses, the last one right.
abbrev demo_guesses : List Guess
demo_guesses =
    record { wait = 1; input = 49 ∷ [] }
    ∷ record { wait = 1; input = 50 ∷ [] }
    ∷ record { wait = 1; input = [] }
    ∷ record { wait = 1; input = random_otp 42 }
    ∷ []

guesses_bounded_example :
    any
      (λ b. b)
      (after demo_bcrypt (pickup 7) 3 (
        run_guesses demo_bcrypt
          (pickup 7)
          demo_guesses
          (generate_otp demo_bcrypt (pickup 7) 42 0 demo_store).1))
    ≡ false
guesses_bounded_example = guesses_bounded demo_bcrypt (pickup 7) 42 0 demo_guesses demo_store

abbrev minute_later : Store
minute_later =
    later demo_bcrypt (pickup 7) 60000 (generate_otp demo_bcrypt (pickup 7) 42 0 demo_store).1

verify-generate_example :
    let (r, s2) = verify_otp demo_bcrypt (pickup 7) (random_otp 42) minute_later in
    (r ≡ ok true)
    × ((verify_otp demo_bcrypt (pickup 7) (random_otp 42) (later demo_bcrypt (pickup 7) 1 s2)).0
        ≡ err (api 400 "OTP expired or not found"))
verify-generate_example =
    verify-generate demo_bcrypt (pickup 7) 42 0 60000 1 demo_store (omega arith)

-- While the first holder has the lock, another asks for it, and releases what it does not have.
abbrev lock_events : List LockEvent
lock_events = take 7 55 ∷ wait 9000 ∷ release 7 55 ∷ take 8 55 ∷ []

with_lock-excludes_example :
    let s1 = on_lock_events lock_events (acquire_lock 7 99 lock_ttl_seconds demo_store).1 in
    (with_lock 7 55 (λ s. (ok tt, s)) s1 ≡ (err (api 409 (lock_message 7)), s1))
    × (get_lock s1.now 7 (release_lock 7 99 s1).1.locks ≡ none)
unfolding get_lock
with_lock-excludes_example =
    with_lock-excludes 7 99 55 (λ s. (ok tt, s)) lock_events demo_store refl
      (tt, (tt, (refl, (tt, tt)))) (omega arith)
