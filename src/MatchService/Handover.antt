-- ===== src/MatchService/Handover.antt =====
-- The handover of backend/src/services/match.service.ts: the codes for the pickup and for the
-- delivery, which the carrier asks for and the sender confirms.
use hop_drop.Notify.{emit_to_match, notify_user, emit_to_user, on_bus}
use hop_drop.Store.{release_payout, delivery, pickup, Job, pure, guard, gets, ◌>>=◌, ◌>>◌, Action}
use hop_drop.MatchService.Status.{
  set_request_status, save_match, update_match_status, timeline_entry, push_entry,
}
use hop_drop.Model.Match.{
  delivery_verified, completed, delivery_otp_generated, pickup_otp_generated, pickup_verified,
  Match, pickup_pending, picked_up, in_transit, delivery_pending, delivered, cancelled, disputed,
}
use hop_drop.MatchService.Confirm.{
  is_paid_status, fetch_request, has_status, fetch_match, match_id_payload,
}
use hop_drop.Collection.{find_all, update_by_id}
use hop_drop.Otp.{generate_otp, verify_otp, Bcrypt}
use hop_drop.Env.{Env}
use hop_drop.Json.{Fields, end, field, num, text}
use hop_drop.Model.Trip.{TripStatus}
use hop_drop.Common.{
  ℕ, String, Bool, not, ◌&&◌, ◌||◌, none, some, List, [], ◌∷◌, ◌++◌, ⊤, ◌==◌, if◌then◌else◌, length,
  ok,
}
use hop_drop.Model.DeliveryRequest.{DeliveryStatus}

-- The changes that the handlers save besides the status.
unfoldable pub pickup_generated : ℕ → ℕ → Match → Match
pickup_generated now actor m =
    push_entry (timeline_entry now pickup_otp_generated actor none)
      (record m { pickup_otp = record m.pickup_otp { generated_at = some now } })

unfoldable pub pickup_was_verified : ℕ → ℕ → Match → Match
pickup_was_verified now actor m =
    push_entry (timeline_entry now pickup_verified actor none)
      (record m { pickup_otp = record m.pickup_otp { verified_at = some now } })

unfoldable pub delivery_generated : ℕ → ℕ → Match → Match
delivery_generated now actor m =
    push_entry (timeline_entry now delivery_otp_generated actor none)
      (record m { delivery_otp = record m.delivery_otp { generated_at = some now } })

unfoldable pub delivery_was_verified : ℕ → ℕ → ℕ → Match → Match
delivery_was_verified now sender carrier m =
    push_entry (timeline_entry now completed carrier none) (
      push_entry (timeline_entry now delivery_verified sender none)
        (record m { delivery_otp = record m.delivery_otp { verified_at = some now } }))

abbrev pub set_trip_status : ℕ → TripStatus → Action ⊤
set_trip_status trip status s =
    (ok tt, record s { trips = update_by_id trip (λ t. record t { status = status }) s.trips })

abbrev trip_status_payload : ℕ → String → Fields
trip_status_payload trip status = field "tripId" (num trip) (field "status" (text status) end)

-- A match that still has something to do on its trip: the query of `countDocuments`.
unfoldable pub is_pending_on : ℕ → Match → Bool
is_pending_on trip m =
    m.trip == trip
    && not (
        has_status m.status delivered
        || has_status m.status cancelled
        || has_status m.status disputed)

abbrev push_job : Job → Action ⊤
push_job job = on_bus (λ now b. record b { jobs = b.jobs ++ job ∷ [] })

module _ (env : Env) (bcrypt : Bcrypt) where
  -- `generatePickupOtp`
  unfoldable pub generate_pickup_otp : ℕ → ℕ → ℕ → ℕ → Action (List ℕ)
  unfolding pickup_generated
  generate_pickup_otp draw salt match user = do
    m ← fetch_match match
    guard (m.carrier == user) 403 "Forbidden"
    r ← fetch_request m.delivery_request "Delivery request not found"
    guard (is_paid_status r.payment_status) 400 "Payment pending. Cannot generate pickup OTP yet."
    otp ← generate_otp bcrypt (pickup match) draw salt
    updated ← update_match_status env match pickup_pending m.carrier end
    now ← gets (λ s. s.now)
    save_match match (pickup_generated now m.carrier)
    set_request_status m.delivery_request DeliveryStatus.pickup_otp_sent
    notify_user env m.sender "Pickup OTP Generated"
        "Carrier has generated pickup OTP. Verify to hand over package." "otp"
        (some (match_id_payload match))
    emit_to_user env m.carrier "otp:pickup_generated" (match_id_payload match)
    emit_to_match env match "otp:pickup_generated" (match_id_payload match)
    pure otp

  -- `verifyPickupOtpForMatch`
  unfoldable pub verify_pickup_otp_for_match : ℕ → ℕ → List ℕ → Action Match
  unfolding pickup_was_verified
  verify_pickup_otp_for_match match user otp = do
    m ← fetch_match match
    guard (m.sender == user) 403 "Only sender can verify pickup OTP"
    accepted ← verify_otp bcrypt (pickup match) otp
    updated ← update_match_status env match picked_up m.sender end
    now ← gets (λ s. s.now)
    save_match match (pickup_was_verified now m.sender)
    set_request_status m.delivery_request DeliveryStatus.picked_up
    set_trip_status m.trip TripStatus.in_transit
    again ← update_match_status env match in_transit m.carrier end
    emit_to_user env m.sender "trip:status_changed" (trip_status_payload m.trip "in_transit")
    emit_to_user env m.carrier "trip:status_changed" (trip_status_payload m.trip "in_transit")
    notify_user env m.carrier "Pickup Verified" "Package pickup verified. You are now in transit."
        "otp" (some (match_id_payload match))
    emit_to_user env m.sender "otp:pickup_verified" (match_id_payload match)
    emit_to_user env m.carrier "otp:pickup_verified" (match_id_payload match)
    emit_to_match env match "otp:pickup_verified" (match_id_payload match)
    pure (pickup_was_verified now m.sender updated)

  -- `generateDeliveryOtp`
  unfoldable pub generate_delivery_otp : ℕ → ℕ → ℕ → ℕ → Action (List ℕ)
  unfolding delivery_generated
  generate_delivery_otp draw salt match user = do
    m ← fetch_match match
    guard (m.carrier == user) 403 "Forbidden"
    guard
        (has_status m.status picked_up
          || has_status m.status in_transit
          || has_status m.status delivery_pending)
        400 "Delivery OTP can be generated only when in transit"
    otp ← generate_otp bcrypt (delivery match) draw salt
    updated ← update_match_status env match delivery_pending m.carrier end
    now ← gets (λ s. s.now)
    save_match match (delivery_generated now m.carrier)
    set_request_status m.delivery_request DeliveryStatus.delivery_otp_sent
    emit_to_user env m.carrier "otp:delivery_generated" (match_id_payload match)
    emit_to_match env match "otp:delivery_generated" (match_id_payload match)
    pure otp

  -- The trip of a delivered match is completed when no match of it is pending.
  unfoldable pub complete_trip_if_done : Match → Action ⊤
  unfolding is_pending_on
  complete_trip_if_done m = do
    pending_on_trip ← gets (λ s. length (find_all (is_pending_on m.trip) s.matches))
    if pending_on_trip == 0
        then (do
          set_trip_status m.trip TripStatus.completed
          emit_to_user env m.sender "trip:status_changed" (trip_status_payload m.trip "completed")
          emit_to_user env m.carrier "trip:status_changed" (trip_status_payload m.trip "completed"))
        else pure tt

  -- `verifyDeliveryOtpForMatch`
  unfoldable pub verify_delivery_otp_for_match : ℕ → ℕ → List ℕ → Action Match
  unfolding delivery_was_verified
  verify_delivery_otp_for_match match user otp = do
    m ← fetch_match match
    guard (m.sender == user) 403
        "Forbidden: Only the sender or designated recipient can verify the delivery OTP"
    accepted ← verify_otp bcrypt (delivery match) otp
    updated ← update_match_status env match delivered user end
    now ← gets (λ s. s.now)
    save_match match (delivery_was_verified now m.sender m.carrier)
    set_request_status m.delivery_request DeliveryStatus.delivered
    complete_trip_if_done m
    push_job (release_payout match env.escrow_release_delay_ms)
    emit_to_user env m.sender "otp:delivery_verified" (match_id_payload match)
    emit_to_user env m.carrier "otp:delivery_verified" (match_id_payload match)
    emit_to_match env match "otp:delivery_verified" (match_id_payload match)
    pure (delivery_was_verified now m.sender m.carrier updated)
