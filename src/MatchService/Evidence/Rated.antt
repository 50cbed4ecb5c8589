-- ===== src/MatchService/Evidence/Rated.antt =====
-- Ratings, disputes and rides in backend/src/services/match.service.ts keep what a match has
-- behind it.
use hop_drop.MatchService.Feedback.{
  is_review_of, ensure_involved, rapido_booked_as, dispute_match, request_rapido_for_match,
  rate_match, upsert_review, with_rating,
}
use hop_drop.MatchService.Evidence.Calls.{after_status-Documented}
use hop_drop.Store.{◌>>=◌, Store, delivery}
use hop_drop.MatchService.Effects.{update_match_status-found, after_status}
use hop_drop.Model.Match.{disputed, Rating, Match}
use hop_drop.MatchService.Status.{update_match_status}
use hop_drop.Json.{end, text, field}
use hop_drop.MatchService.Evidence.{
  delivered, is_handed_over, IsDocumented, IsDocumented-update, Documented, is_documented,
}
use hop_drop.MatchService.Confirm.{has_status}
use hop_drop.Otp.Keys.{has_otp}
use hop_drop.Collection.{find_by_id, update_by_id, find_one}
use hop_drop.Store.Keeps.{Keeps}
use hop_drop.Env.{Env}
use hop_drop.Common.{
  ℕ, String, ◌≡◌, refl, ◌∙◌, inl, inr, Bool, true, false, not, ◌&&◌, ◌||◌, Option, arith, ◌==◌,
  if◌then◌else◌, Bool-cases, Option-cases, is_some, Result, ok, err,
}

-- A change that leaves the status and the codes of a match.
unchanged-Documented :
    (match : ℕ) (g : Match → Match)
    → ((coded : Bool) (m : Match) → is_documented coded (g m) ≡ is_documented coded m)
    → (s : Store) → Documented s
    → IsDocumented s.now (update_by_id match g s.matches) s.otps
unchanged-Documented match g same s h =
    IsDocumented-update s.now match g s.matches s.otps s.otps (λ j n c. c)
      (λ m q d. same (has_otp s.now (delivery match) s.otps) m ∙ d) h

rating_step :
    (is_sender : Bool) (rating : Rating) (coded : Bool) (m : Match)
    → is_documented coded (with_rating is_sender rating m) ≡ is_documented coded m
unfolding with_rating is_documented
rating_step true rating coded m = refl
rating_step false rating coded m = refl

upsert_review-frame :
    (match from to score : ℕ) (comment : Option String) (s : Store)
    → Documented s
    → Documented (upsert_review match from to score comment s)
unfolding upsert_review
upsert_review-frame match from to score comment s h =
    elim (Option-cases (find_one (is_review_of match from to) s.reviews)) [
      | inl q ↦ rw (q, upsert_review) h
      | inr ((k, r), q) ↦ rw (q, upsert_review) h
    ]

pub rate_match-Documented :
    (match user score : ℕ) (comment : Option String)
    → Keeps Documented (rate_match match user score comment)
unfolding rate_match
rate_match-Documented match user score comment s h =
    elim (Option-cases (find_by_id match s.matches)) [
      | inl q ↦ rw (q, rate_match) h
      | inr (m, q) ↦ elim (Bool-cases (has_status m.status delivered)) [
        | inr early ↦ rw (q, rate_match) (rw early h)
        | inl over ↦ elim (Bool-cases (m.sender == user || m.carrier == user)) [
          | inr other ↦ rw (q, rate_match) (rw over (rw other h))
          | inl own ↦ elim (Bool-cases (not (m.sender == user && is_some m.sender_rated_carrier))) [
            | inr again ↦ rw (q, rate_match) (rw over (rw own (rw again h)))
            | inl first ↦
                elim (Bool-cases (not (m.carrier == user && is_some m.carrier_rated_sender))) [
                  | inr again ↦ rw (q, rate_match) (rw over (rw own (rw first (rw again h))))
                  | inl once ↦
                      let rating : Rating = record {
                        score = score;
                        comment = comment;
                        at = s.now;
                      } in
                      let g = with_rating (m.sender == user) rating in
                      rw (q, rate_match)
                        (rw over (
                          rw own (
                            rw first (
                              rw once (
                                upsert_review-frame match user
                                  (if m.sender == user then m.carrier else m.sender) score comment
                                  (record s { matches = update_by_id match g s.matches })
                                  (unchanged-Documented match g
                                    (rating_step (m.sender == user) rating) s h))))))
                ]
          ]
        ]
      ]
    ]

module _ (env : Env) where
  pub dispute_match-Documented :
      (match user : ℕ) (reason description : String)
      → Keeps Documented (dispute_match env match user reason description)
  unfolding dispute_match ensure_involved after_status is_handed_over
  dispute_match-Documented match user reason description s h =
      elim (Option-cases (find_by_id match s.matches)) [
        | inl q ↦ rw (q, dispute_match) h
        | inr (m, q) ↦ elim (Bool-cases (m.carrier == user || m.sender == user)) [
          | inr other ↦ rw (q, dispute_match) (rw other h)
          | inl own ↦
              let actor = if user == m.carrier then m.carrier else m.sender in
              let input =
                field "reason" (text reason) (field "description" (text description) end) in
              let bus = (update_match_status env match disputed actor input s).1.bus in
              rw (q, dispute_match)
                (rw own (
                  rw (update_match_status-found env match disputed actor input s m q, ◌>>=◌)
                    (after_status-Documented env match disputed actor input m bus refl s h)))
        ]
      ]

  pub request_rapido_for_match-Documented :
      (match user : ℕ) (response : Result (String × Option String))
      → Keeps Documented (request_rapido_for_match env match user response)
  unfolding request_rapido_for_match rapido_booked_as is_documented
  request_rapido_for_match-Documented match user (err e) s h = ground (arith)
  request_rapido_for_match-Documented match user (ok booking) s h =
      elim (Option-cases (find_by_id match s.matches)) [
        | inl q ↦ rw (q, request_rapido_for_match) h
        | inr (m, q) ↦ elim (Bool-cases (m.carrier == user)) [
          | inr other ↦ rw (q, request_rapido_for_match) (rw other h)
          | inl own ↦
              rw (q, request_rapido_for_match)
                (rw own (unchanged-Documented match _ (λ coded m. refl) s h))
        ]
      ]
