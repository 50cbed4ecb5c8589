-- ===== src/Tests/Matches.antt =====
-- A run of the handlers of backend/src/services/match.service.ts: the carrier asks for the pickup
-- code and the sender sends it back.
use hop_drop.MatchService.Handover.{verify_pickup_otp_for_match, generate_pickup_otp}
use hop_drop.Otp.{generate_otp, verify_otp, get_otp, set_otp}
use hop_drop.MatchService.Status.{update_match_status}
use hop_drop.Collection.{update_by_id}
use hop_drop.Tests.Fixtures.{list_code, pair_code}
use hop_drop.Common.{arith, ◌≡◌, true, not, ◌||◌, Option, refl, some, none}
use hop_drop.MatchService.Run.History.{delivered-has_proof}
use hop_drop.MatchService.Evidence.{delivery_proven, pickup_proven, is_handed_over}
use hop_drop.Model.Match.{delivered, new_match, Match}
use hop_drop.MatchService.Confirm.{has_status}
use hop_drop.Otp.{random_otp}
use hop_drop.Collection.{find_by_id}
use hop_drop.MatchService.Run.{serve, start, serves, pickup_otp_wanted, pickup_otp_sent_back}
use hop_drop.Tests.Fixtures.{demo_env, demo_store, demo_bcrypt, demo_match}
use hop_drop.Store.{Store}

abbrev coded_store : Store
coded_store = serve demo_env demo_bcrypt (pickup_otp_wanted 42 0 7 1) demo_store

abbrev handed_store : Store
handed_store = serve demo_env demo_bcrypt (pickup_otp_sent_back 7 2 (random_otp 42)) coded_store

abbrev or_match : Option Match → Match
or_match none = demo_match
or_match (some m) = m

abbrev handed_match : Match
handed_match = or_match (find_by_id 7 handed_store.matches)

delivered-has_proof_example :
    ((not (is_handed_over handed_match.status) || pickup_proven handed_match) ≡ true)
    × ((not (has_status handed_match.status delivered) || delivery_proven handed_match) ≡ true)
unfolding find_by_id new_match is_handed_over serve verify_pickup_otp_for_match generate_pickup_otp
    generate_otp update_match_status update_by_id verify_otp get_otp set_otp demo_bcrypt list_code
    random_otp pair_code
delivered-has_proof_example =
    delivered-has_proof demo_env demo_bcrypt demo_store handed_store 7 handed_match
      (λ j m q. ground arith) refl
      (serves coded_store (pickup_otp_sent_back 7 2 (random_otp 42))
        (serves demo_store (pickup_otp_wanted 42 0 7 1) start))
      refl
