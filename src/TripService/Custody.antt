-- ===== src/TripService/Custody.antt =====
-- When a trip of backend/src/services/trip.service.ts can be cancelled or changed.
use hop_drop.Common.{
  ◌≤◌, ◌<◌, ◌||◌, arith, ==_refl, ◌≡◌, refl, sym, ap, ◌∙◌, inl, inr, true, some, ◌==◌, Bool-cases,
  Option-cases, ℕ, ok,
}
use hop_drop.MatchService.Confirm.{has_status}
use hop_drop.Model.Match.{MatchStatus, Match}
use hop_drop.Collection.Laws.{exists-false, find_by_id-update_self}
use hop_drop.Collection.{exists, update_by_id, find_by_id}
use hop_drop.Payment.Trust.{Refused}
use hop_drop.TripService.Trips.{
  is_deposit_due, is_in_custody, is_blocking, is_cancelled_trip, TripUpdate, cancelled_trip,
  refund_deposit, cancel_trip, cancel_trip_writes, update_trip,
}
use hop_drop.Escrow.{create_transactions}
use hop_drop.Json.{Json}
use hop_drop.Model.Trip.{Trip}
use mathlib.Core.Bool.{false≢true}
use mathlib.Core.Path.{subst}
use hop_drop.Store.{Store}

-- The way of a match, step by step.
abbrev pub stage : MatchStatus → ℕ
stage MatchStatus.proposed = 0
stage MatchStatus.carrier_accepted = 1
stage MatchStatus.sender_confirmed = 2
stage MatchStatus.active = 3
stage MatchStatus.pickup_pending = 4
stage MatchStatus.picked_up = 5
stage MatchStatus.in_transit = 6
stage MatchStatus.delivery_pending = 7
stage MatchStatus.delivered = 8
stage MatchStatus.cancelled = 9
stage MatchStatus.disputed = 10

custody_statuses :
    (x : MatchStatus)
    → 2 ≤ stage x
    → stage x < 8
    → (has_status x MatchStatus.sender_confirmed
        || has_status x MatchStatus.active
        || has_status x MatchStatus.pickup_pending
        || has_status x MatchStatus.picked_up
        || has_status x MatchStatus.in_transit
        || has_status x MatchStatus.delivery_pending)
      ≡ true
custody_statuses MatchStatus.proposed low high = absurd (omega arith)
custody_statuses MatchStatus.carrier_accepted low high = absurd (omega arith)
custody_statuses MatchStatus.sender_confirmed low high = refl
custody_statuses MatchStatus.active low high = refl
custody_statuses MatchStatus.pickup_pending low high = refl
custody_statuses MatchStatus.picked_up low high = refl
custody_statuses MatchStatus.in_transit low high = refl
custody_statuses MatchStatus.delivery_pending low high = refl
custody_statuses MatchStatus.delivered low high = absurd (omega arith)
custody_statuses MatchStatus.cancelled low high = absurd (omega arith)
custody_statuses MatchStatus.disputed low high = absurd (omega arith)

stage-in_custody :
    (trip : ℕ) (m : Match)
    → m.trip ≡ trip
    → 2 ≤ stage m.status
    → stage m.status < 8
    → is_in_custody trip m ≡ true
unfolding is_in_custody
stage-in_custody trip m same low high =
    simp (custody_statuses m.status low high, ap (λ x. x == trip) same ∙ ==_refl trip)

module _ (user trip : ℕ) where
  -- While a match of a trip has the confirmation of its sender and is not delivered yet, a request to
  -- cancel the trip changes nothing, whoever sends it and whatever it is answered.
  pub cancel_trip-custody :
      (s : Store) (k : ℕ) (m : Match)
      → find_by_id k s.matches ≡ some m
      → m.trip ≡ trip
      → stage MatchStatus.sender_confirmed ≤ stage m.status
      → stage m.status < stage MatchStatus.delivered
      → (cancel_trip user trip s).1 ≡ s
  unfolding cancel_trip
  cancel_trip-custody s k m found same low high = elim (Option-cases (find_by_id trip s.trips)) [
    | inl q ↦ rw (q, cancel_trip) refl
    | inr (t, q) ↦ elim (Bool-cases (t.carrier == user)) [
      | inr other ↦ rw (q, cancel_trip) (rw other refl)
      | inl own ↦ elim (Bool-cases (is_cancelled_trip t.status)) [
        | inl before ↦ rw (q, cancel_trip) (rw own (rw before refl))
        | inr open_trip ↦ elim (Bool-cases (exists (is_in_custody trip) s.matches)) [
          | inl busy ↦ rw (q, cancel_trip) (rw own (rw (busy, open_trip) refl))
          | inr free ↦ absurd (
              false≢true (
                sym (exists-false (is_in_custody trip) s.matches k m free found)
                ∙ stage-in_custody trip m same low high))
        ]
      ]
    ]
  ]

  cancel_trip_writes-trips :
      (t : Trip) (s : Store)
      → (cancel_trip_writes user trip t s).1.trips ≡ update_by_id trip cancelled_trip s.trips
  unfolding cancel_trip_writes refund_deposit create_transactions
  cancel_trip_writes-trips t s = elim (Bool-cases (is_deposit_due t)) [
    | inl due ↦ rw due refl
    | inr kept ↦ rw kept refl
  ]

  cancel_again :
      (t : Trip) (s : Store)
      → find_by_id trip s.trips ≡ some t
      → (t.carrier == user) ≡ true
      → let s1 = (cancel_trip_writes user trip t s).1 in (cancel_trip user trip s1).1 ≡ s1
  unfolding cancel_trip cancelled_trip
  cancel_again t s q own =
      let s1 = (cancel_trip_writes user trip t s).1 in
      let found : find_by_id trip s1.trips ≡ some (cancelled_trip t) =
        ap (find_by_id trip) (cancel_trip_writes-trips t s)
        ∙ find_by_id-update_self trip cancelled_trip s.trips q in
      rw (found, cancel_trip) (rw own refl)

  -- A trip that is cancelled is not cancelled again: the same request, sent a second time, changes
  -- nothing, so that the deposit is paid back at most once.
  pub cancel_trip-twice :
      (s s' : Store) (t : Trip)
      → cancel_trip user trip s ≡ (ok t, s')
      → (cancel_trip user trip s').1 ≡ s'
  unfolding cancel_trip
  cancel_trip-twice s s' t h = elim (Option-cases (find_by_id trip s.trips)) [
    | inl q ↦ cc (rw q at h)
    | inr (a, q) ↦ elim (Bool-cases (a.carrier == user)) [
      | inr other ↦ cc (rw (q, other) at h)
      | inl own ↦ elim (Bool-cases (is_cancelled_trip a.status)) [
        | inl before ↦
            let same : s ≡ s' = ap (λ x. x.1) (rw (q, own, before) at h) in
            subst (λ x. (cancel_trip user trip x).1 ≡ x) same
              (rw (q, cancel_trip) (rw own (rw before refl)))
        | inr fresh ↦ elim (Bool-cases (exists (is_in_custody trip) s.matches)) [
          | inl busy ↦ cc (rw (q, own, fresh, busy) at h)
          | inr free ↦
              let done : (cancel_trip_writes user trip a s).1 ≡ s' =
                ap (λ x. x.1) (rw (q, own, fresh, free) at h) in
              subst (λ x. (cancel_trip user trip x).1 ≡ x) done (cancel_again a s q own)
        ]
      ]
    ]
  ]

  -- A trip on which a match is accepted is not changed by its carrier: the request is refused and
  -- leaves the store as it was.
  pub update_trip-frozen :
      (s : Store) (u : TripUpdate) (body : Json) (k : ℕ) (m : Match)
      → find_by_id k s.matches ≡ some m
      → is_blocking trip m ≡ true
      → Refused s (update_trip user trip u body s)
  unfolding update_trip
  update_trip-frozen s u body k m found blocking = elim (Option-cases (find_by_id trip s.trips)) [
    | inl q ↦ rw (q, update_trip) refl
    | inr (t, q) ↦ elim (Bool-cases (t.carrier == user)) [
      | inr other ↦ rw (q, update_trip) (rw other refl)
      | inl own ↦ elim (Bool-cases (exists (is_blocking trip) s.matches)) [
        | inl stuck ↦ rw (q, update_trip) (rw own (rw stuck refl))
        | inr free ↦
            absurd (
              false≢true
                (sym (exists-false (is_blocking trip) s.matches k m free found) ∙ blocking))
      ]
    ]
  ]
