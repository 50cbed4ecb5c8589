-- ===== src/MatchService/Evidence/Calls.antt =====
-- Every handler of backend/src/services/match.service.ts keeps what a match has behind it.
use hop_drop.Store.Keeps.{bind-Keeps, Keeps}
use hop_drop.Model.Match.{
  sender_confirmed, active, carrier_accepted, proposed, cancelled, Match, MatchStatus,
}
use hop_drop.Store.{◌>>◌, when, Action, ◌>>=◌, Store, Bus}
use hop_drop.MatchService.Confirm.{
  sender_confirm, is_hold_of, is_paid_status, carrier_accept, confirm_entries, finish_confirm,
  hold_if_missing, has_status, accept_body, sender_reject, carrier_reject,
}
use hop_drop.Common.{
  if◌then◌else◌, refl, ◌==◌, Bool-cases, ◌≡◌, inl, inr, Bool, true, false, arith, Option-cases, ℕ,
}
use hop_drop.Escrow.{hold_user, hold_body, sender_payment, HoldType, hold_funds}
use hop_drop.Transactions.Retry.{run_in_transaction-keeps}
use hop_drop.Lock.Exclusion.{with_lock-Keeps}
use hop_drop.Collection.{exists, find_by_id}
use hop_drop.Lock.{with_lock}
use hop_drop.Model.DeliveryRequest.{DeliveryRequest}
use hop_drop.Json.{end, text, field, Fields}
use hop_drop.MatchService.Evidence.{
  delivery, IsDocumented-update, is_handed_over, is_documented, Documented,
}
use hop_drop.Otp.Keys.{has_otp}
use hop_drop.MatchService.Effects.{update_match_status-found, after_status}
use hop_drop.MatchService.Status.{with_new_status, update_match_status}
use hop_drop.Env.{Env}

module _ (env : Env) where
  plain_step :
      (coded : Bool) (now : ℕ) (status : MatchStatus) (actor : ℕ) (metadata : Fields) (m : Match)
      → is_handed_over status ≡ false
      → is_documented coded m ≡ true
      → is_documented coded (with_new_status now status actor metadata m) ≡ true
  unfolding is_documented with_new_status is_handed_over
  plain_step coded now status actor metadata m plain h = ground arith

  -- A found match after a change to a status before the handover or after the end.
  pub after_status-Documented :
      (match : ℕ) (status : MatchStatus) (actor : ℕ) (metadata : Fields) (m : Match) (bus : Bus)
      → is_handed_over status ≡ false
      → (s : Store) → Documented s
      → Documented (after_status env match status actor metadata m bus s)
  unfolding after_status
  after_status-Documented match status actor metadata m bus plain s h =
      IsDocumented-update s.now match (with_new_status s.now status actor metadata) s.matches s.otps
        s.otps (λ j n c. c)
        (λ m q.
          plain_step (has_otp s.now (delivery match) s.otps) s.now status actor metadata m plain)
        h

  -- A change to a status before the handover or after the end.
  pub update_match_status-Documented :
      (match : ℕ) (status : MatchStatus) (actor : ℕ) (metadata : Fields)
      → is_handed_over status ≡ false
      → Keeps Documented (update_match_status env match status actor metadata)
  unfolding update_match_status after_status
  update_match_status-Documented match status actor metadata plain s h =
      elim (Option-cases (find_by_id match s.matches)) [
        | inl q ↦ rw (q, update_match_status) h
        | inr (m, q) ↦ rw (update_match_status-found env match status actor metadata s m q) (
            after_status-Documented match status actor metadata m
              (update_match_status env match status actor metadata s).1.bus plain s h)
      ]

  pub carrier_reject-Documented :
      (match user : ℕ) → Keeps Documented (carrier_reject env match user)
  unfolding carrier_reject is_handed_over
  carrier_reject-Documented match user s h = elim (Option-cases (find_by_id match s.matches)) [
    | inl q ↦ rw (q, carrier_reject) h
    | inr (m, q) ↦ elim (Bool-cases (m.carrier == user)) [
      | inl own ↦
          rw (q, carrier_reject)
            (rw own (
              update_match_status-Documented match cancelled m.carrier
                (field "reason" (text "carrier_rejected") end) refl s h))
      | inr other ↦ rw (q, carrier_reject) (rw other h)
    ]
  ]

  pub sender_reject-Documented : (match user : ℕ) → Keeps Documented (sender_reject env match user)
  unfolding sender_reject is_handed_over
  sender_reject-Documented match user s h = elim (Option-cases (find_by_id match s.matches)) [
    | inl q ↦ rw (q, sender_reject) h
    | inr (m, q) ↦ elim (Bool-cases (m.sender == user)) [
      | inl own ↦
          rw (q, sender_reject)
            (rw own (
              update_match_status-Documented match cancelled m.sender
                (field "reason" (text "sender_rejected") end) refl s h))
      | inr other ↦ rw (q, sender_reject) (rw other h)
    ]
  ]

  accept_body-Documented : (match user : ℕ) → Keeps Documented (accept_body env match user)
  unfolding accept_body after_status is_handed_over
  accept_body-Documented match user s h = elim (Option-cases (find_by_id match s.matches)) [
    | inl q ↦ rw (q, accept_body) h
    | inr (m, q) ↦ elim (Bool-cases (m.carrier == user)) [
      | inl own ↦ elim (Bool-cases (has_status m.status proposed)) [
        | inl fresh ↦
            rw (q, accept_body)
              (rw own (
                rw fresh (
                  rw
                    (
                      update_match_status-found env match carrier_accepted m.carrier end s m q,
                      ◌>>=◌,
                    )
                    (after_status-Documented match carrier_accepted m.carrier end m s.bus refl s
                      h))))
        | inr closed ↦ rw (q, accept_body) (rw own (rw closed h))
      ]
      | inr other ↦ rw (q, accept_body) (rw other h)
    ]
  ]

  with_lock-Documented :
      {A : Type 0} (key token : ℕ) (fn : Action A)
      → Keeps Documented fn
      → Keeps Documented (with_lock key token fn)
  with_lock-Documented key token fn body s h =
      with_lock-Keeps Documented (λ s ls h. h) key token fn body s h

  -- `carrierAccept` keeps it, whether the lock is free or held.
  pub carrier_accept-Documented :
      (token match user : ℕ) → Keeps Documented (carrier_accept env token match user)
  unfolding carrier_accept
  carrier_accept-Documented token match user =
      with_lock-Documented match token (accept_body env match user)
        (accept_body-Documented match user)

  -- What a transaction that leaves matches and codes alone keeps.
  hold_funds-Documented :
      (match amount : ℕ) (type : HoldType) → Keeps Documented (hold_funds env match amount type)
  unfolding hold_funds hold_body
  hold_funds-Documented match amount type s h = elim (Option-cases (find_by_id match s.matches)) [
    | inl q ↦ rw (q, hold_funds) h
    | inr (m, q) ↦
        rw (q, hold_funds)
          (run_in_transaction-keeps (hold_body (hold_user type m) match amount type) Documented
            (λ s fs h. h) (λ s h. h) env.topology s h)
  ]

  hold_if_missing-Documented :
      (match : ℕ) (m : Match) (r : DeliveryRequest)
      → Keeps Documented (hold_if_missing env match m r)
  unfolding hold_if_missing
  hold_if_missing-Documented match m r s h =
      elim (Bool-cases (exists (is_hold_of match) s.transactions)) [
        | inl held ↦ rw held h
        | inr missing ↦ rw missing (hold_funds-Documented match _ sender_payment s h)
      ]

  entries_step :
      (coded : Bool) (now actor : ℕ) (is_paid : Bool) (m : Match)
      → is_documented coded m ≡ true
      → is_documented coded (confirm_entries now actor is_paid m) ≡ true
  unfolding is_documented confirm_entries
  entries_step coded now actor true m h = h
  entries_step coded now actor false m h = h

  finish_confirm-Documented :
      (match : ℕ) (m : Match) (r : DeliveryRequest) (updated : Match)
      → Keeps Documented (finish_confirm env match m r updated)
  unfolding finish_confirm
  finish_confirm-Documented match m r updated s h =
      elim (Bool-cases (is_paid_status r.payment_status)) [
        | inl paid ↦
            rw (paid, finish_confirm)
              (IsDocumented-update s.now match (confirm_entries s.now m.sender true) s.matches
                s.otps s.otps (λ j n c. c)
                (λ m' q.
                  entries_step (has_otp s.now (delivery match) s.otps) s.now m.sender true m')
                h)
        | inr unpaid ↦
            rw (unpaid, finish_confirm)
              (IsDocumented-update s.now match (confirm_entries s.now m.sender false) s.matches
                s.otps s.otps (λ j n c. c)
                (λ m' q.
                  entries_step (has_otp s.now (delivery match) s.otps) s.now m.sender false m')
                h)
      ]

  -- The rest of `senderConfirm`, for a payment that is made or not.
  confirmed-Documented :
      (match : ℕ) (m : Match) (r : DeliveryRequest) (is_paid : Bool) (updated : Match)
      → Keeps Documented
          (when is_paid (hold_if_missing env match m r) >> finish_confirm env match m r updated)
  confirmed-Documented match m r true updated =
      bind-Keeps Documented (hold_if_missing env match m r) _ (hold_if_missing-Documented match m r)
        (λ a. finish_confirm-Documented match m r updated)
  confirmed-Documented match m r false updated = finish_confirm-Documented match m r updated

  confirm_status :
      (is_paid : Bool) → is_handed_over (if is_paid then active else sender_confirmed) ≡ false
  unfolding is_handed_over
  confirm_status true = refl
  confirm_status false = refl

  pub sender_confirm-Documented :
      (match user : ℕ) → Keeps Documented (sender_confirm env match user)
  unfolding sender_confirm after_status
  sender_confirm-Documented match user s h = elim (Option-cases (find_by_id match s.matches)) [
    | inl q ↦ rw (q, sender_confirm) h
    | inr (m, q) ↦ elim (Bool-cases (m.sender == user)) [
      | inr other ↦ rw (q, sender_confirm) (rw other h)
      | inl own ↦ elim (Bool-cases (has_status m.status carrier_accepted)) [
        | inr early ↦ rw (q, sender_confirm) (rw own (rw early h))
        | inl accepted ↦ elim (Option-cases (find_by_id m.delivery_request s.requests)) [
          | inl none_q ↦
              rw (q, sender_confirm) (rw own (rw accepted (rw (none_q, sender_confirm) h)))
          | inr (r, q2) ↦
              let paid = is_paid_status r.payment_status in
              let status = if paid then active else sender_confirmed in
              let bus = (update_match_status env match status m.sender end s).1.bus in
              rw (q, sender_confirm)
                (rw own (
                  rw accepted (
                    rw (q2, sender_confirm)
                      (rw (update_match_status-found env match status m.sender end s m q, ◌>>=◌)
                        (confirmed-Documented match m r paid
                          (with_new_status s.now status m.sender end m) _
                          (after_status-Documented match status m.sender end m bus
                            (confirm_status paid) s h))))))
        ]
      ]
    ]
  ]
