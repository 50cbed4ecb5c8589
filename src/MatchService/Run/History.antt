-- ===== src/MatchService/Run/History.antt =====
-- What every match has behind it, whatever is requested of the handlers of
-- backend/src/services/match.service.ts.
use hop_drop.MatchService.Evidence.Rated.{
  request_rapido_for_match-Documented, dispute_match-Documented, rate_match-Documented,
}
use hop_drop.MatchService.Evidence.Delivered.{
  verify_delivery_otp_for_match-Documented, generate_delivery_otp-Documented,
}
use hop_drop.MatchService.Evidence.Handed.{
  verify_pickup_otp_for_match-Documented, generate_pickup_otp-Documented,
}
use hop_drop.MatchService.Evidence.Calls.{
  sender_reject-Documented, sender_confirm-Documented, carrier_reject-Documented,
  carrier_accept-Documented,
}
use hop_drop.Otp.{get_otp, Bcrypt}
use hop_drop.Otp.Keys.{has_otp-later, has_otp}
use hop_drop.Common.{not, ◌||◌, ◌+◌, ◌≡◌, Bool, true, false, some, [], arith, ℕ}
use hop_drop.MatchService.Run.{
  start, serves, waits, carrier_accepts, carrier_rejects, sender_confirms, sender_rejects,
  pickup_otp_wanted, delivery_otp_wanted, pickup_otp_sent_back, delivery_otp_sent_back, rated,
  disputes, rapido_wanted, MatchCall, serve, Reaches,
}
use hop_drop.MatchService.Evidence.{
  is_documented-fewer, delivery_proven, pickup_proven, is_handed_over, Documented, IsDocumented,
  is_documented,
}
use hop_drop.Store.{delivery, Store}
use hop_drop.Model.Match.{delivered, Match}
use hop_drop.MatchService.Confirm.{has_status}
use hop_drop.Collection.{find_by_id}
use hop_drop.Env.{Env}

module _ (env : Env) (bcrypt : Bcrypt) where
  serve-Documented : (c : MatchCall) (s : Store) → Documented s → Documented (serve env bcrypt c s)
  unfolding serve
  serve-Documented (carrier_accepts token match user) s h =
      carrier_accept-Documented env token match user s h
  serve-Documented (carrier_rejects match user) s h = carrier_reject-Documented env match user s h
  serve-Documented (sender_confirms match user) s h = sender_confirm-Documented env match user s h
  serve-Documented (sender_rejects match user) s h = sender_reject-Documented env match user s h
  serve-Documented (pickup_otp_wanted draw salt match user) s h =
      generate_pickup_otp-Documented env bcrypt draw salt match user s h
  serve-Documented (delivery_otp_wanted draw salt match user) s h =
      generate_delivery_otp-Documented env bcrypt draw salt match user s h
  serve-Documented (pickup_otp_sent_back match user otp) s h =
      verify_pickup_otp_for_match-Documented env bcrypt match user otp s h
  serve-Documented (delivery_otp_sent_back match user otp) s h =
      verify_delivery_otp_for_match-Documented env bcrypt match user otp s h
  serve-Documented (rated match user score comment) s h =
      rate_match-Documented match user score comment s h
  serve-Documented (disputes match user reason description) s h =
      dispute_match-Documented env match user reason description s h
  serve-Documented (rapido_wanted match user response) s h =
      request_rapido_for_match-Documented env match user response s h

  wait-Documented :
      (wait : ℕ) (s : Store) → Documented s → Documented (record s { now = s.now + wait })
  unfolding IsDocumented
  wait-Documented wait s h k m q =
      is_documented-fewer (has_otp s.now (delivery k) s.otps)
        (has_otp (s.now + wait) (delivery k) s.otps) m
        (has_otp-later s.now wait (delivery k) s.otps) (h k m q)

  Reaches-Documented : {s s' : Store} → Reaches env bcrypt s s' → Documented s → Documented s'
  Reaches-Documented start h = h
  Reaches-Documented (serves s1 c r) h = serve-Documented c s1 (Reaches-Documented r h)
  Reaches-Documented (waits s1 wait r) h = wait-Documented wait s1 (Reaches-Documented r h)

  proofs_of :
      (coded : Bool) (m : Match)
      → is_documented coded m ≡ true
      → ((not (is_handed_over m.status) || pickup_proven m) ≡ true)
        × ((not (has_status m.status delivered) || delivery_proven m) ≡ true)
  unfolding is_documented
  proofs_of coded m h = (ground arith, ground arith)

  nothing_to_prove : (m : Match) → is_handed_over m.status ≡ false → is_documented false m ≡ true
  unfolding is_documented is_handed_over
  nothing_to_prove m h = ground arith

  -- From a store without matches handed over and without one-time codes, whatever requests are
  -- served, in any order and by any users, a match that is picked up, in transit, waiting for its
  -- delivery or delivered has had its pickup code verified, and a delivered one its delivery code.
  pub delivered-has_proof :
      (s s' : Store) (k : ℕ) (m : Match)
      → ((j : ℕ) (m : Match) → find_by_id j s.matches ≡ some m → is_handed_over m.status ≡ false)
      → s.otps ≡ []
      → Reaches env bcrypt s s'
      → find_by_id k s'.matches ≡ some m
      → ((not (is_handed_over m.status) || pickup_proven m) ≡ true)
        × ((not (has_status m.status delivered) || delivery_proven m) ≡ true)
  unfolding IsDocumented has_otp get_otp
  delivered-has_proof s s' k m fresh no_codes r q =
      proofs_of (has_otp s'.now (delivery k) s'.otps) m (Reaches-Documented r initial k m q)
    where
      initial : Documented s
      initial j m q = rw no_codes (nothing_to_prove m (fresh j m q))
