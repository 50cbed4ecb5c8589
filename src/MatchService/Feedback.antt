-- ===== src/MatchService/Feedback.antt =====
-- What follows a delivery in backend/src/services/match.service.ts: the two ratings, a dispute, and
-- the booking of a ride, whose answer is an argument.
use hop_drop.Json.{obj, end, field, num, text}
use hop_drop.Collection.{insert, update_by_id, find_one}
use hop_drop.Model.Match.{rapido_booked, Match, Rating, delivered, disputed}
use hop_drop.MatchService.Status.{timeline_entry, push_entry, save_match, update_match_status}
use hop_drop.Notify.{emit_to_match}
use hop_drop.Store.{modify, Review, Store, pure, guard, gets, ◌>>=◌, ◌>>◌, Action}
use hop_drop.MatchService.Confirm.{has_status, fetch_match}
use hop_drop.Env.{Env}
use hop_drop.Model.User.{User}
use hop_drop.Common.{
  ℕ, suc, ◌+◌, ◌*◌, String, Bool, true, false, not, ◌&&◌, ◌||◌, Option, none, some, ◌==◌,
  if◌then◌else◌, is_some, or_num, round_div, Result,
}

abbrev pub is_review_of : ℕ → ℕ → ℕ → Review → Bool
is_review_of match from to r = r.match == match && r.from == from && r.to == to

-- `Review.findOneAndUpdate` with `upsert`
unfoldable pub upsert_review : ℕ → ℕ → ℕ → ℕ → Option String → Store → Store
upsert_review match from to score comment s =
    elim (find_one (is_review_of match from to) s.reviews) [
      | some (k, r) ↦ record s {
        reviews = update_by_id k (λ r. record r { score = score; comment = comment }) s.reviews;
      }
      | none ↦ record s {
        reviews =
            insert s.next_id
              (record { match = match; from = from; to = to; score = score; comment = comment })
              s.reviews;
        next_id = suc s.next_id;
      }
    ]

-- The new average in hundredths of a star: `toFixed(2)` of the mean, halves up.
unfoldable pub rate_user : ℕ → User → User
rate_user score u =
    let current_count = u.rating.count in
    let current_avg = or_num (some u.rating.average) 500 in
    record u {
      rating = record {
        average = round_div (current_avg * current_count + 100 * score) (current_count + 1);
        count = current_count + 1;
      };
    }

unfoldable pub with_rating : Bool → Rating → Match → Match
with_rating true rating m = record m { sender_rated_carrier = some rating }
with_rating false rating m = record m { carrier_rated_sender = some rating }

-- `rateMatch`
unfoldable pub rate_match : ℕ → ℕ → ℕ → Option String → Action Match
unfolding with_rating upsert_review rate_user
rate_match match user score comment = do
  m ← fetch_match match
  guard (has_status m.status delivered) 400 "Rating allowed only after delivery"
  let is_sender = m.sender == user
  let is_carrier = m.carrier == user
  guard (is_sender || is_carrier) 403 "Forbidden"
  guard (not (is_sender && is_some m.sender_rated_carrier)) 400
      "You have already submitted a rating for this delivery"
  guard (not (is_carrier && is_some m.carrier_rated_sender)) 400
      "You have already submitted a rating for this sender"
  now ← gets (λ s. s.now)
  let rated_user = if is_sender then m.carrier else m.sender
  let rating : Rating = record { score = score; comment = comment; at = now }
  save_match match (with_rating is_sender rating)
  modify (upsert_review match user rated_user score comment)
  modify (λ s. record s { users = update_by_id rated_user (rate_user score) s.users })
  pure (with_rating is_sender rating m)

module _ (env : Env) where
  -- `ensureInvolved`, and `getMatchById`
  unfoldable pub ensure_involved : ℕ → ℕ → Action Match
  ensure_involved match user = do
    m ← fetch_match match
    guard (m.carrier == user || m.sender == user) 403 "Forbidden"
    pure m

  -- `disputeMatch`
  unfoldable pub dispute_match : ℕ → ℕ → String → String → Action Match
  dispute_match match user reason description = do
    m ← ensure_involved match user
    let actor = if user == m.carrier then m.carrier else m.sender
    updated ←
        update_match_status env match disputed actor
          (field "reason" (text reason) (field "description" (text description) end))
    emit_to_match env match "notification:new" (
        field "type" (text "dispute")
          (field "matchId" (num match) (field "reason" (text reason) end)))
    pure updated

  -- The answer of the booking service.
  unfoldable pub rapido_booked_as : ℕ → String → String → Match → Match
  rapido_booked_as now booking_id status m =
      push_entry
        (timeline_entry now rapido_booked m.carrier
          (some (obj (field "bookingId" (text booking_id) end))))
        (record m {
          rapido = record { requested = true; booking_id = some booking_id; status = some status };
        })

  -- `requestRapidoForMatch`; `bookRapido` answers with a booking or fails.
  unfoldable pub request_rapido_for_match : ℕ → ℕ → Result (String × Option String) → Action Match
  unfolding rapido_booked_as
  request_rapido_for_match match user response = do
    m ← fetch_match match
    guard (m.carrier == user) 403 "Only carrier can request Rapido"
    booking ← λ s. (response, s)
    now ← gets (λ s. s.now)
    let status : String = elim booking.1 [ none ↦ "booked" | some t ↦ t ]
    save_match match (rapido_booked_as now booking.0 status)
    emit_to_match env match "notification:new" (
        field "type" (text "rapido")
          (field "matchId" (num match) (field "bookingId" (text booking.0) end)))
    pure (rapido_booked_as now booking.0 status m)
