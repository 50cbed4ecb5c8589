-- ===== src/MatchService/Run.antt =====
-- Any sequence of requests to the handlers of backend/src/services/match.service.ts, by any users
-- and in any order, with time passing between them.
pub mod History
use hop_drop.MatchService.Feedback.{request_rapido_for_match, dispute_match, rate_match}
use hop_drop.MatchService.Handover.{
  verify_delivery_otp_for_match, verify_pickup_otp_for_match, generate_delivery_otp,
  generate_pickup_otp,
}
use hop_drop.MatchService.Confirm.{sender_reject, sender_confirm, carrier_reject, carrier_accept}
use hop_drop.Otp.{Bcrypt}
use hop_drop.Env.{Env}
use hop_drop.Common.{◌+◌, String, Option, List, Result, ℕ}
use hop_drop.Store.{Store}

-- The requests, with the draws that their handlers make.
pub data MatchCall : Type 0 where
  carrier_accepts : ℕ → ℕ → ℕ → MatchCall
  carrier_rejects sender_confirms sender_rejects : ℕ → ℕ → MatchCall
  pickup_otp_wanted delivery_otp_wanted : ℕ → ℕ → ℕ → ℕ → MatchCall
  pickup_otp_sent_back delivery_otp_sent_back : ℕ → ℕ → List ℕ → MatchCall
  rated : ℕ → ℕ → ℕ → Option String → MatchCall
  disputes : ℕ → ℕ → String → String → MatchCall
  rapido_wanted : ℕ → ℕ → Result (String × Option String) → MatchCall

module _ (env : Env) (bcrypt : Bcrypt) where
  -- What a request leaves in the store, whether it is answered or refused.
  unfoldable pub serve : MatchCall → Store → Store
  serve (carrier_accepts token match user) s = (carrier_accept env token match user s).1
  serve (carrier_rejects match user) s = (carrier_reject env match user s).1
  serve (sender_confirms match user) s = (sender_confirm env match user s).1
  serve (sender_rejects match user) s = (sender_reject env match user s).1
  serve (pickup_otp_wanted draw salt match user) s =
      (generate_pickup_otp env bcrypt draw salt match user s).1
  serve (delivery_otp_wanted draw salt match user) s =
      (generate_delivery_otp env bcrypt draw salt match user s).1
  serve (pickup_otp_sent_back match user otp) s =
      (verify_pickup_otp_for_match env bcrypt match user otp s).1
  serve (delivery_otp_sent_back match user otp) s =
      (verify_delivery_otp_for_match env bcrypt match user otp s).1
  serve (rated match user score comment) s = (rate_match match user score comment s).1
  serve (disputes match user reason description) s =
      (dispute_match env match user reason description s).1
  serve (rapido_wanted match user response) s =
      (request_rapido_for_match env match user response s).1

  -- The stores that requests and waiting lead to.
  pub data Reaches (s : Store) : Store → Type 0 where
    start : Reaches s s
    serves : (s1 : Store) (c : MatchCall) → Reaches s s1 → Reaches s (serve c s1)
    waits : (s1 : Store) (wait : ℕ) → Reaches s s1 → Reaches s (record s1 { now = s1.now + wait })
