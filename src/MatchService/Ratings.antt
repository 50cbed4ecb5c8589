-- ===== src/MatchService/Ratings.antt =====
-- The averages that the ratings of backend/src/services/match.service.ts leave.
use hop_drop.Collection.Laws.{Every-update}
use hop_drop.MatchService.Feedback.{with_rating, is_review_of, rate_match, rate_user, upsert_review}
use hop_drop.Collection.{update_by_id, find_by_id, Every, find_one}
use hop_drop.Model.Match.{Rating, delivered}
use hop_drop.Store.{Store}
use hop_drop.MatchService.Confirm.{has_status}
use native.Mathlib.Nat.{mul-le-mul_right, le-div_iff_mul-le, div-lt_iff_lt-mul}
use hop_drop.Model.User.{User}
use hop_drop.Common.{
  String, ◌≡◌, refl, inl, inr, not, ◌&&◌, ◌||◌, Option, some, ◌==◌, if◌then◌else◌, Bool-cases,
  Option-cases, is_some, or_num, ℕ, ◌+◌, ◌*◌, ◌≤◌, ◌<◌, arith, round_div,
}

-- A rounded mean lies between bounds of what it is the mean of.
mean_bounds :
    (n d lo hi : ℕ) → 0 < d → lo * d ≤ n → n ≤ hi * d → (lo ≤ round_div n d) × (round_div n d ≤ hi)
unfolding round_div
mean_bounds n d lo hi pos above below =
    let wide : 0 < 2 * d = omega arith in
    let under : round_div n d < hi + 1 =
      (div-lt_iff_lt-mul {k = 2 * d} {x = 2 * n + d} {y = hi + 1} wide).1 (grind arith) in
    ((le-div_iff_mul-le {k = 2 * d} {x = lo} {y = 2 * n + d} wide).1 (grind arith), omega arith)

-- An average between one star and five.
abbrev pub HasFairRating : User → Type 0
HasFairRating u = (100 ≤ u.rating.average) × (u.rating.average ≤ 500)

rate_user-HasFairRating :
    (score : ℕ) (u : User)
    → 1 ≤ score
    → score ≤ 5
    → HasFairRating u
    → HasFairRating (rate_user score u)
unfolding rate_user
rate_user-HasFairRating score u lo hi h =
    let avg = u.rating.average in
    let count = u.rating.count in
    let known : or_num (some avg) 500 ≡ avg = ground arith in
    rw known (
      mean_bounds (avg * count + 100 * score) (count + 1) 100 500 (omega arith)
        (omega (arith, mul-le-mul_right count h.0)) (omega (arith, mul-le-mul_right count h.1)))

upsert_review-users :
    (match from to score : ℕ) (comment : Option String) (s : Store)
    → (upsert_review match from to score comment s).users ≡ s.users
unfolding upsert_review
upsert_review-users match from to score comment s =
    elim (Option-cases (find_one (is_review_of match from to) s.reviews)) [
      | inl q ↦ rw (q, upsert_review) refl
      | inr ((k, r), q) ↦ rw (q, upsert_review) refl
    ]

-- A rating of one to five stars keeps every user's average between one star and five, whether it
-- is accepted or refused.
pub rate_match-HasFairRating :
    (match user score : ℕ) (comment : Option String) (s : Store)
    → 1 ≤ score
    → score ≤ 5
    → Every HasFairRating s.users
    → Every HasFairRating (rate_match match user score comment s).1.users
unfolding rate_match
rate_match-HasFairRating match user score comment s lo hi h =
    elim (Option-cases (find_by_id match s.matches)) [
      | inl q ↦ rw (q, rate_match) h
      | inr (m, q) ↦ elim (Bool-cases (has_status m.status delivered)) [
        | inr early ↦ rw (q, rate_match) (rw early h)
        | inl over ↦ elim (Bool-cases (m.sender == user || m.carrier == user)) [
          | inr other ↦ rw (q, rate_match) (rw over (rw other h))
          | inl own ↦ elim (Bool-cases (not (m.sender == user && is_some m.sender_rated_carrier))) [
            | inr again ↦ rw (q, rate_match) (rw over (rw own (rw again h)))
            | inl first ↦
                elim (Bool-cases (not (m.carrier == user && is_some m.carrier_rated_sender))) [
                  | inr again ↦ rw (q, rate_match) (rw over (rw own (rw first (rw again h))))
                  | inl once ↦
                      let rating : Rating = record {
                        score = score;
                        comment = comment;
                        at = s.now;
                      } in
                      let rated_user = if m.sender == user then m.carrier else m.sender in
                      let s1 = record s {
                        matches =
                            update_by_id match (with_rating (m.sender == user) rating) s.matches;
                      } in
                      rw (q, rate_match)
                        (rw over (
                          rw own (
                            rw first (
                              rw once (
                                rw (upsert_review-users match user rated_user score comment s1) (
                                  Every-update HasFairRating rated_user (rate_user score) s.users h
                                    (λ u f.
                                      rate_user-HasFairRating score u lo hi
                                        (h rated_user u f))))))))
                ]
          ]
        ]
      ]
    ]
