-- ===== src/MatchService/Confirm.antt =====
-- The proposal of backend/src/services/match.service.ts: it is accepted or rejected by the carrier,
-- then confirmed or rejected by the sender.
use hop_drop.Store.{when, pure, require, guard, gets, ◌>>=◌, ◌>>◌, Action}
use hop_drop.Notify.{emit_to_match, emit_to_user, notify_user}
use hop_drop.Escrow.{sender_payment, hold_funds, same_id}
use hop_drop.Model.Match.{
  payment_done, Match, proposed, carrier_accepted, sender_confirmed, active, pickup_pending,
  picked_up, in_transit, delivery_pending, delivered, cancelled, disputed, MatchStatus,
  TimelineEvent,
}
use hop_drop.Model.Transaction.{escrow_hold, same_type, Transaction}
use hop_drop.MatchService.Status.{save_match, timeline_entry, push_entry, update_match_status}
use hop_drop.Collection.{exists, find_by_id, update_by_id}
use hop_drop.Lock.{with_lock}
use hop_drop.Env.{Env}
use hop_drop.Json.{Fields, end, field, num, text}
use hop_drop.Model.DeliveryRequest.{
  DeliveryRequest, paid, unpaid, refunded, partial_refund, PaymentStatus,
}
use hop_drop.Common.{
  ℕ, String, Bool, true, false, not, ◌&&◌, none, some, ⊤, ◌==◌, if◌then◌else◌, or_num, ok,
}

-- A number for each status, to compare them.
abbrev pub status_code : MatchStatus → ℕ
status_code proposed = 0
status_code carrier_accepted = 1
status_code sender_confirmed = 2
status_code active = 3
status_code pickup_pending = 4
status_code picked_up = 5
status_code in_transit = 6
status_code delivery_pending = 7
status_code delivered = 8
status_code cancelled = 9
status_code disputed = 10

-- A test for a status of a match.
abbrev pub has_status : MatchStatus → MatchStatus → Bool
has_status s t = status_code s == status_code t

abbrev pub is_paid_status : PaymentStatus → Bool
is_paid_status paid = true
is_paid_status _ = false

abbrev pub payment_name : PaymentStatus → String
payment_name unpaid = "unpaid"
payment_name paid = "paid"
payment_name refunded = "refunded"
payment_name partial_refund = "partial_refund"

-- The query for a hold of a match.
unfoldable pub is_hold_of : ℕ → Transaction → Bool
is_hold_of match t = same_id t.match match && same_type t.type escrow_hold

abbrev pub match_id_payload : ℕ → Fields
match_id_payload match = field "matchId" (num match) end

-- `Match.findById`, or 404
abbrev pub fetch_match : ℕ → Action Match
fetch_match match = do
  found ← gets (λ s. find_by_id match s.matches)
  require found 404 "Match not found"

abbrev pub fetch_request : ℕ → String → Action DeliveryRequest
fetch_request request message = do
  found ← gets (λ s. find_by_id request s.requests)
  require found 404 message

abbrev pub save_request : ℕ → (DeliveryRequest → DeliveryRequest) → Action ⊤
save_request request f s = (ok tt, record s { requests = update_by_id request f s.requests })

-- The entries that `senderConfirm` pushes.
unfoldable pub confirm_entries : ℕ → ℕ → Bool → Match → Match
confirm_entries now sender is_paid m =
    let confirmed = push_entry (timeline_entry now TimelineEvent.sender_confirmed sender none) m in
    if is_paid
    then push_entry (timeline_entry now payment_done sender none) confirmed
    else confirmed

module _ (env : Env) where
  -- The callback of `carrierAccept`
  unfoldable pub accept_body : ℕ → ℕ → Action Match
  accept_body match user = do
    m ← fetch_match match
    guard (m.carrier == user) 403 "Forbidden"
    guard (has_status m.status proposed) 400 "Match already processed"
    updated ← update_match_status env match carrier_accepted m.carrier end
    notify_user env m.sender "Carrier Accepted"
        "A carrier accepted your delivery request. Confirm to proceed." "match"
        (some (match_id_payload match))
    emit_to_user env m.sender "match:carrier_accepted" (match_id_payload match)
    emit_to_match env match "match:carrier_accepted" (match_id_payload match)
    pure updated

  -- `carrierAccept`, under the lock of the match
  unfoldable pub carrier_accept : ℕ → ℕ → ℕ → Action Match
  carrier_accept token match user = with_lock match token (accept_body match user)

  -- `carrierReject`
  unfoldable pub carrier_reject : ℕ → ℕ → Action Match
  carrier_reject match user = do
    m ← fetch_match match
    guard (m.carrier == user) 403 "Forbidden"
    update_match_status env match cancelled m.carrier (field "reason" (text "carrier_rejected") end)

  -- `senderReject`
  unfoldable pub sender_reject : ℕ → ℕ → Action Match
  sender_reject match user = do
    m ← fetch_match match
    guard (m.sender == user) 403 "Forbidden"
    update_match_status env match cancelled m.sender (field "reason" (text "sender_rejected") end)

  -- The hold of the sender's payment, if there is none yet.
  unfoldable pub hold_if_missing : ℕ → Match → DeliveryRequest → Action ⊤
  unfolding is_hold_of
  hold_if_missing match m r = do
    existing ← gets (λ s. exists (is_hold_of match) s.transactions)
    if existing
        then pure tt
        else hold_funds env match (or_num r.total_charge m.agreed_price) sender_payment

  -- `senderConfirm` once the payment is held.
  unfoldable pub finish_confirm : ℕ → Match → DeliveryRequest → Match → Action (Match × Bool)
  unfolding confirm_entries
  finish_confirm match m r updated = do
    now ← gets (λ s. s.now)
    let is_paid = is_paid_status r.payment_status
    save_match match (confirm_entries now m.sender is_paid)
    save_request m.delivery_request (λ r. record r { match = some match })
    notify_user env m.carrier "Sender Confirmed Match"
        (if is_paid
          then "Sender confirmed and paid. You can start pickup."
          else "Sender confirmed. Awaiting payment.")
        "match" (some (match_id_payload match))
    when is_paid (emit_to_user env m.carrier "match:payment_received" (match_id_payload match))
    emit_to_match env match (if is_paid then "match:payment_received" else "notification:new") (
        field "matchId" (num match)
          (field "paymentStatus" (text (payment_name r.payment_status)) end))
    pure (confirm_entries now m.sender is_paid updated, not is_paid)

  -- `senderConfirm`; it also says whether the payment is still to come.
  unfoldable pub sender_confirm : ℕ → ℕ → Action (Match × Bool)
  unfolding finish_confirm
  sender_confirm match user = do
    m ← fetch_match match
    guard (m.sender == user) 403 "Forbidden"
    guard (has_status m.status carrier_accepted) 400 "Match must be accepted by carrier first"
    r ← fetch_request m.delivery_request "Delivery request missing"
    let is_paid = is_paid_status r.payment_status
    updated ←
        update_match_status env match (if is_paid then active else sender_confirmed) m.sender end
    when is_paid (hold_if_missing match m r)
    finish_confirm match m r updated
