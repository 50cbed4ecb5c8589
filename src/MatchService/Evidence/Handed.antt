-- ===== src/MatchService/Evidence/Handed.antt =====
-- The handovers of backend/src/services/match.service.ts, and what follows a delivery, keep what a
-- match has behind it.
use hop_drop.Collection.Laws.{find_by_id-update_self, update-update}
use hop_drop.Model.DeliveryRequest.{DeliveryStatus}
use hop_drop.Model.Trip.{TripStatus}
use hop_drop.Otp.Keys.{has_otp, Checked-cases, verify_otp-Checked, has_otp-set_other}
use hop_drop.Collection.{update_by_id, Collection, find_by_id}
use hop_drop.MatchService.Evidence.{
  IsDocumented, picked_up, in_transit, IsDocumented-update, is_documented, is_handed_over,
  IsDocumented-codes, Documented,
}
use hop_drop.Otp.{verify_otp, generate_otp, Bcrypt}
use hop_drop.Store.{OtpEntry, OtpKey, ◌>>=◌, Store, pickup, delivery}
use hop_drop.MatchService.Handover.{
  pickup_was_verified, verify_pickup_otp_for_match, pickup_generated, generate_pickup_otp,
}
use hop_drop.Model.Match.{Match, pickup_pending}
use hop_drop.MatchService.Evidence.Calls.{after_status-Documented}
use hop_drop.MatchService.Status.{with_new_status, update_match_status}
use hop_drop.Common.{
  ◌≡◌, Bool, true, List, arith, refl, sym, ◌∙◌, inl, inr, ◌==◌, Bool-cases, Option-cases, ℕ,
}
use hop_drop.MatchService.Effects.{update_match_status-found, after_status}
use hop_drop.Json.{end}
use hop_drop.MatchService.Confirm.{is_paid_status}
use hop_drop.Store.Keeps.{Keeps}
use hop_drop.Env.{Env}

module _ (env : Env) (bcrypt : Bcrypt) where
  -- A pickup code is no delivery code.
  generated_pickup :
      (match draw salt : ℕ) (s : Store)
      → Documented s
      → Documented (generate_otp bcrypt (pickup match) draw salt s).1
  unfolding generate_otp
  generated_pickup match draw salt s h =
      IsDocumented-codes s.now s.matches s.otps _
        (λ k c. sym (has_otp-set_other s.now (pickup match) (delivery k) _ s.otps refl) ∙ c) h

  pub generate_pickup_otp-Documented :
      (draw salt match user : ℕ)
      → Keeps Documented (generate_pickup_otp env bcrypt draw salt match user)
  unfolding generate_pickup_otp after_status generate_otp is_handed_over is_documented
      pickup_generated
  generate_pickup_otp-Documented draw salt match user s h =
      elim (Option-cases (find_by_id match s.matches)) [
        | inl q ↦ rw (q, generate_pickup_otp) h
        | inr (m, q) ↦ elim (Bool-cases (m.carrier == user)) [
          | inr other ↦ rw (q, generate_pickup_otp) (rw other h)
          | inl own ↦ elim (Option-cases (find_by_id m.delivery_request s.requests)) [
            | inl q2 ↦ rw (q, generate_pickup_otp) (rw own (rw (q2, generate_pickup_otp) h))
            | inr (r, q2) ↦ elim (Bool-cases (is_paid_status r.payment_status)) [
              | inr unpaid ↦
                  rw (q, generate_pickup_otp) (rw own (rw (q2, generate_pickup_otp) (rw unpaid h)))
              | inl paid ↦
                  let s1 = (generate_otp bcrypt (pickup match) draw salt s).1 in
                  let bus = (update_match_status env match pickup_pending m.carrier end s1).1.bus in
                  rw (q, generate_pickup_otp)
                    (rw own (
                      rw (q2, generate_pickup_otp)
                        (rw paid (
                          rw
                            (
                              update_match_status-found env match pickup_pending m.carrier end s1 m
                                  q,
                              ◌>>=◌,
                            )
                            (IsDocumented-update s.now match (pickup_generated s.now m.carrier) _
                              s1.otps s1.otps (λ j n c. c) (λ m' q' g. g)
                              (after_status-Documented env match pickup_pending m.carrier end m bus
                                refl s1 (generated_pickup match draw salt s h)))))))
            ]
          ]
        ]
      ]

  -- The three changes of a verified pickup.
  pickup_step :
      (coded : Bool) (now sender carrier : ℕ) (m : Match)
      → is_documented coded (
          with_new_status now in_transit carrier end
            (pickup_was_verified now sender (with_new_status now picked_up sender end m)))
        ≡ true
  unfolding is_documented with_new_status pickup_was_verified is_handed_over
  pickup_step coded now sender carrier m = ground arith

  verified_pickup :
      (match now sender carrier : ℕ) (ms : Collection Match) (os : List (OtpKey × OtpEntry))
      → IsDocumented now ms os
      → IsDocumented now
          (update_by_id match (with_new_status now in_transit carrier end) (
            update_by_id match
              (pickup_was_verified now sender)
              (update_by_id match (with_new_status now picked_up sender end) ms)))
          os
  verified_pickup match now sender carrier ms os h =
      let f1 = with_new_status now picked_up sender end in
      let f2 = pickup_was_verified now sender in
      let f3 = with_new_status now in_transit carrier end in
      rw (update-update match f1 f2 ms) (
        rw (update-update match (λ m. f2 (f1 m)) f3 ms) (
          IsDocumented-update now match (λ m. f3 (f2 (f1 m))) ms os os (λ j n c. c)
            (λ m q g. pickup_step (has_otp now (delivery match) os) now sender carrier m) h))

  pub verify_pickup_otp_for_match-Documented :
      (match user : ℕ) (otp : List ℕ)
      → Keeps Documented (verify_pickup_otp_for_match env bcrypt match user otp)
  unfolding verify_pickup_otp_for_match after_status
  verify_pickup_otp_for_match-Documented match user otp s h =
      elim (Option-cases (find_by_id match s.matches)) [
        | inl q ↦ rw (q, verify_pickup_otp_for_match) h
        | inr (m, q) ↦ elim (Bool-cases (m.sender == user)) [
          | inr other ↦ rw (q, verify_pickup_otp_for_match) (rw other h)
          | inl own ↦
              let c = verify_otp-Checked bcrypt (pickup match) otp s in
              let h1 = IsDocumented-codes s.now s.matches s.otps c.0 (λ k. c.2 (delivery k)) h in
              elim (Checked-cases bcrypt (pickup match) otp s
                (verify_otp bcrypt (pickup match) otp s) c) [
                  | inl (e, wrong) ↦
                      rw (q, verify_pickup_otp_for_match) (rw own (rw (wrong, ◌>>=◌) h1))
                  | inr (a, right) ↦
                      let f1 = with_new_status s.now picked_up m.sender end in
                      let f2 = pickup_was_verified s.now m.sender in
                      let s1 = record s { otps = c.0 } in
                      let bus = (update_match_status env match picked_up m.sender end s1).1.bus in
                      let s2 = after_status env match picked_up m.sender end m bus s1 in
                      let s3 = record s2 {
                        matches = update_by_id match f2 s2.matches;
                        requests =
                            update_by_id m.delivery_request
                              (λ r. record r { status = DeliveryStatus.picked_up }) s2.requests;
                        trips =
                            update_by_id m.trip (λ t. record t { status = TripStatus.in_transit })
                              s2.trips;
                      } in
                      let found =
                        find_by_id-update_self match f2 (update_by_id match f1 s.matches)
                          (find_by_id-update_self match f1 s.matches q) in
                      rw (q, verify_pickup_otp_for_match)
                        (rw own (
                          rw (right, ◌>>=◌)
                            (rw
                              (
                                update_match_status-found env match picked_up m.sender end s1 m q,
                                ◌>>=◌,
                              )
                              (rw
                                (
                                  update_match_status-found env match in_transit m.carrier end s3
                                      (f2 (f1 m)) found,
                                  ◌>>=◌,
                                )
                                (verified_pickup match s.now m.sender m.carrier s.matches c.0
                                  h1)))))
                ]
        ]
      ]
