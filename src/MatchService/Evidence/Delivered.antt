-- ===== src/MatchService/Evidence/Delivered.antt =====
-- The delivery and what follows it in backend/src/services/match.service.ts keep what a match has
-- behind it.
use hop_drop.MatchService.Handover.{
  is_pending_on, complete_trip_if_done, delivery_generated, delivery_was_verified,
  generate_delivery_otp, verify_delivery_otp_for_match,
}
use hop_drop.Collection.{find_all, update_by_id, find_by_id, Collection}
use hop_drop.MatchService.Evidence.{
  subst, IsDocumented-codes, IsDocumented, in_transit, delivered, picked_up, is_handed_over,
  pickup_proven, is_documented, IsDocumented-update, Documented,
}
use hop_drop.Otp.Keys.{verify_otp-ok, has_otp-set_other, Checked-cases, has_otp, verify_otp-Checked}
use hop_drop.Collection.Laws.{update-update}
use hop_drop.Otp.{verify_otp, generate_otp, Bcrypt}
use hop_drop.Store.{◌>>=◌, OtpEntry, OtpKey, delivery}
use hop_drop.MatchService.Effects.{update_match_status-found, after_status}
use hop_drop.Json.{end}
use hop_drop.Model.Match.{delivery_pending, Match}
use hop_drop.Store.Keeps.{Keeps}
use hop_drop.MatchService.Confirm.{has_status}
use hop_drop.MatchService.Status.{with_new_status}
use hop_drop.Env.{Env}
use hop_drop.Common.{
  ℕ, ◌≡◌, sym, ◌∙◌, ◌≢◌, inl, inr, Bool, true, false, ◌||◌, some, List, arith, ◌==◌, Bool-cases,
  Option-cases, length,
}

module _ (env : Env) (bcrypt : Bcrypt) where
  -- A match whose status allows a delivery code has its pickup proven.
  proven :
      (coded : Bool) (m : Match)
      → (has_status m.status picked_up
          || has_status m.status in_transit
          || has_status m.status delivery_pending)
        ≡ true
      → is_documented coded m ≡ true
      → pickup_proven m ≡ true
  unfolding is_documented is_handed_over
  proven coded m on_the_way h = ground arith

  generated_step :
      (coded : Bool) (now carrier : ℕ) (m : Match)
      → pickup_proven m ≡ true
      → is_documented coded
          (delivery_generated now carrier (with_new_status now delivery_pending carrier end m))
        ≡ true
  unfolding is_documented with_new_status delivery_generated is_handed_over
  generated_step coded now carrier m h = ground arith

  delivered_step :
      (coded : Bool) (now user sender carrier : ℕ) (m : Match)
      → pickup_proven m ≡ true
      → is_documented coded
          (delivery_was_verified now sender carrier (with_new_status now delivered user end m))
        ≡ true
  unfolding is_documented with_new_status delivery_was_verified is_handed_over
  delivered_step coded now user sender carrier m h = ground arith

  coded_proven : (m : Match) → is_documented true m ≡ true → pickup_proven m ≡ true
  unfolding is_documented
  coded_proven m h = ground arith

  -- Two changes of a match with a proven pickup.
  twice_changed :
      (match now : ℕ) (f1 f2 : Match → Match) (ms : Collection Match) (m : Match)
      (os os' : List (OtpKey × OtpEntry))
      → find_by_id match ms ≡ some m
      → ((j : ℕ)
          → match ≢ j
          → has_otp now (delivery j) os' ≡ true
          → has_otp now (delivery j) os ≡ true)
      → is_documented (has_otp now (delivery match) os') (f2 (f1 m)) ≡ true
      → IsDocumented now ms os
      → IsDocumented now (update_by_id match f2 (update_by_id match f1 ms)) os'
  twice_changed match now f1 f2 ms m os os' q fewer done h = rw (update-update match f1 f2 ms) (
      IsDocumented-update now match (λ m. f2 (f1 m)) ms os os' fewer
        (λ m' q' g.
          let same : m ≡ m' = let e : some m ≡ some m' = sym q ∙ q' in cc in
          subst (λ x. is_documented (has_otp now (delivery match) os') (f2 (f1 x)) ≡ true) same
            done)
        h)

  pub generate_delivery_otp-Documented :
      (draw salt match user : ℕ)
      → Keeps Documented (generate_delivery_otp env bcrypt draw salt match user)
  unfolding generate_delivery_otp after_status generate_otp IsDocumented
  generate_delivery_otp-Documented draw salt match user s h =
      elim (Option-cases (find_by_id match s.matches)) [
        | inl q ↦ rw (q, generate_delivery_otp) h
        | inr (m, q) ↦ elim (Bool-cases (m.carrier == user)) [
          | inr other ↦ rw (q, generate_delivery_otp) (rw other h)
          | inl own ↦
              elim (Bool-cases (
                has_status m.status picked_up
                || has_status m.status in_transit
                || has_status m.status delivery_pending)) [
                  | inr early ↦ rw (q, generate_delivery_otp) (rw own (rw early h))
                  | inl on_the_way ↦
                      let s1 = (generate_otp bcrypt (delivery match) draw salt s).1 in
                      rw (q, generate_delivery_otp)
                        (rw own (
                          rw on_the_way (
                            rw
                              (
                                update_match_status-found env match delivery_pending m.carrier end
                                    s1 m q,
                                ◌>>=◌,
                              )
                              (twice_changed match s.now
                                (with_new_status s.now delivery_pending m.carrier end)
                                (delivery_generated s.now m.carrier) s.matches m s.otps s1.otps q
                                (λ j n c.
                                  sym (
                                    has_otp-set_other s.now (delivery match) (delivery j) _ s.otps
                                      (ne j n))
                                  ∙ c)
                                (generated_step (has_otp s.now (delivery match) s1.otps) s.now
                                  m.carrier m
                                  (proven (has_otp s.now (delivery match) s.otps) m on_the_way
                                    (h match m q)))
                                h))))
                ]
        ]
      ]
    where
      ne : (j : ℕ) → match ≢ j → (match == j) ≡ false
      ne j n = ground arith

  pub verify_delivery_otp_for_match-Documented :
      (match user : ℕ) (otp : List ℕ)
      → Keeps Documented (verify_delivery_otp_for_match env bcrypt match user otp)
  unfolding verify_delivery_otp_for_match after_status complete_trip_if_done IsDocumented
  verify_delivery_otp_for_match-Documented match user otp s h =
      elim (Option-cases (find_by_id match s.matches)) [
        | inl q ↦ rw (q, verify_delivery_otp_for_match) h
        | inr (m, q) ↦ elim (Bool-cases (m.sender == user)) [
          | inr other ↦ rw (q, verify_delivery_otp_for_match) (rw other h)
          | inl own ↦
              let c = verify_otp-Checked bcrypt (delivery match) otp s in
              elim (Checked-cases bcrypt (delivery match) otp s
                (verify_otp bcrypt (delivery match) otp s) c) [
                  | inl (e, wrong) ↦
                      rw (q, verify_delivery_otp_for_match)
                        (rw own (
                          rw (wrong, ◌>>=◌)
                            (IsDocumented-codes s.now s.matches s.otps c.0 (λ k. c.2 (delivery k))
                              h)))
                  | inr (a, right) ↦
                      let f1 = with_new_status s.now delivered user end in
                      let f2 = delivery_was_verified s.now m.sender m.carrier in
                      let s1 = record s { otps = c.0 } in
                      let ms = update_by_id match f2 (update_by_id match f1 s.matches) in
                      let coded = verify_otp-ok bcrypt (delivery match) otp s s1 a right in
                      let done : IsDocumented s.now ms c.0 =
                        twice_changed match s.now f1 f2 s.matches m s.otps c.0 q
                          (λ j n. c.2 (delivery j))
                          (delivered_step (has_otp s.now (delivery match) c.0) s.now user m.sender
                            m.carrier m (coded_proven m (rw coded at (h match m q))))
                          h in
                      rw (q, verify_delivery_otp_for_match)
                        (rw own (
                          rw (right, ◌>>=◌)
                            (rw
                              (update_match_status-found env match delivered user end s1 m q, ◌>>=◌)
                              (elim (Bool-cases
                                (length (find_all (is_pending_on m.trip) ms) == 0)) [
                                  | inl last ↦ rw last done
                                  | inr more ↦ rw more done
                                ]))))
                ]
        ]
      ]
