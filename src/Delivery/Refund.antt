-- ===== src/Delivery/Refund.antt =====
-- What the cancellation of a request in backend/src/services/delivery.service.ts does, and which
-- trip a new request is quoted by.
use hop_drop.Common.{
  ◌⊎◌, or_num, none, [], ◌∷◌, ◌≤◌, ◌≡◌, refl, sym, ap, ◌∙◌, inl, inr, Bool, true, false, some,
  arith, ◌==◌, Bool-cases, Option-cases, ℕ, ok,
}
use hop_drop.Collection.Laws.{find_by_id-update, find_by_id-update_self}
use hop_drop.Escrow.{update_wallet}
use hop_drop.Collection.{Collection, update_by_id, update_many, find_by_id}
use hop_drop.Delivery.Requests.{
  is_cancelled_request, is_refundable, cancelled_match, cancelled_request, refund_wallet,
  cancel_request, cancel_writes, find_cheapest, is_open_match_of,
}
use hop_drop.Model.Match.{Match}
use hop_drop.Model.Trip.{Trip}
use hop_drop.Common.Int.{ℤ, ◌+ℤ◌, int_laws}
use hop_drop.Model.DeliveryRequest.{DeliveryRequest}
use hop_drop.Model.User.{User}
use mathlib.Core.Path.{subst}
use hop_drop.Store.{Store}

find_cheapest-none :
    (p : Trip → Bool) (c : Collection Trip) (u : Trip) (k : ℕ)
    → find_cheapest p c ≡ none
    → find_by_id k c ≡ some u
    → p u ≡ false
unfolding find_cheapest find_by_id
find_cheapest-none p [] u k h found = cc
find_cheapest-none p ((j, a) ∷ c) u k h found =
    ground (arith, λ (q : find_cheapest p c ≡ none). find_cheapest-none p c u k q)

find_cheapest_sound :
    (p : Trip → Bool) (c : Collection Trip) (t : Trip) → find_cheapest p c ≡ some t → p t ≡ true
unfolding find_cheapest
find_cheapest_sound p [] t h = cc
find_cheapest_sound p ((j, a) ∷ c) t h = elim (Option-cases (find_cheapest p c)) [
  | inl q ↦ ground arith
  | inr (v, q) ↦ ground (arith, find_cheapest_sound p c v q)
]

-- A new request is quoted by a candidate that no other candidate undercuts.
pub find_cheapest_first :
    (p : Trip → Bool) (c : Collection Trip) (t u : Trip) (k : ℕ)
    → find_cheapest p c ≡ some t
    → find_by_id k c ≡ some u
    → p u ≡ true
    → (p t ≡ true) × (t.price_per_kg ≤ u.price_per_kg)
unfolding find_cheapest find_by_id
find_cheapest_first p [] t u k picked found fits = cc
find_cheapest_first p ((j, a) ∷ c) t u k picked found fits =
    elim (Option-cases (find_cheapest p c)) [
      | inl q ↦ ground (arith, find_cheapest-none p c u k q)
      | inr (v, q) ↦ ground (arith, find_cheapest_sound p c v q, find_cheapest_first p c v u k q)
    ]

some_inj : {A : Type 0} (a b : A) → some a ≡ some b → a ≡ b
some_inj a b h = cc

-- What is in a wallet and what is held of it, together.
abbrev pub worth : User → ℤ
worth u = u.wallet.balance +ℤ u.wallet.escrow_held

refund-worth :
    (charge : ℕ) (u : User) → worth (record u { wallet = refund_wallet charge u.wallet }) ≡ worth u
refund-worth charge u = grind int_laws

module _ (user request : ℕ) where
  -- What a cancellation leaves in the store, but for the messages.
  cancel_writes-requests :
      (r : DeliveryRequest) (s : Store)
      → (cancel_writes user request r s).1.requests
        ≡ update_by_id request (cancelled_request (is_refundable r)) s.requests
  unfolding cancel_writes
  cancel_writes-requests r s = elim (Bool-cases (is_refundable r)) [
    | inl paid_back ↦ rw paid_back refl
    | inr kept ↦ rw kept refl
  ]

  cancel_again :
      (r : DeliveryRequest) (s : Store)
      → find_by_id request s.requests ≡ some r
      → (r.sender == user) ≡ true
      → let s1 = (cancel_writes user request r s).1 in
        cancel_request user request s1 ≡ (ok (cancelled_request (is_refundable r) r), s1)
  unfolding cancel_request cancelled_request
  cancel_again r s q own =
      let s1 = (cancel_writes user request r s).1 in
      let found : find_by_id request s1.requests ≡ some (cancelled_request (is_refundable r) r) =
        ap (find_by_id request) (cancel_writes-requests r s)
        ∙ find_by_id-update_self request (cancelled_request (is_refundable r)) s.requests q in
      rw (found, cancel_request) (rw own refl)

  -- A cancellation takes effect once: the same request, sent a second time, is answered and
  -- changes nothing, so that a charge is paid back at most once.
  pub cancel_request-twice :
      (s s' : Store) (r : DeliveryRequest)
      → cancel_request user request s ≡ (ok r, s')
      → (cancel_request user request s').1 ≡ s'
  unfolding cancel_request
  cancel_request-twice s s' r h = elim (Option-cases (find_by_id request s.requests)) [
    | inl q ↦ cc (rw q at h)
    | inr (a, q) ↦ elim (Bool-cases (a.sender == user)) [
      | inr other ↦ cc (rw (q, other) at h)
      | inl own ↦ elim (Bool-cases (is_cancelled_request a.status)) [
        | inl before ↦
            let same : s ≡ s' = ap (λ x. x.1) (rw (q, own, before) at h) in
            subst (λ x. (cancel_request user request x).1 ≡ x) same
              (rw (q, cancel_request) (rw own (rw before refl)))
        | inr fresh ↦
            let done : (cancel_writes user request a s).1 ≡ s' =
              ap (λ x. x.1) (rw (q, own, fresh) at h) in
            subst (λ x. (cancel_request user request x).1 ≡ x) done
              (ap (λ x. x.1) (cancel_again a s q own))
      ]
    ]
  ]

  cancel_writes-matches :
      (r : DeliveryRequest) (s : Store)
      → (cancel_writes user request r s).1.matches
        ≡ update_many (is_open_match_of request) (cancelled_match s.now r.sender) s.matches
  unfolding cancel_writes
  cancel_writes-matches r s = elim (Bool-cases (is_refundable r)) [
    | inl paid_back ↦ rw paid_back refl
    | inr kept ↦ rw kept refl
  ]

  closed :
      (now sender : ℕ) (m : Match) → is_open_match_of request (cancelled_match now sender m) ≡ false
  unfolding is_open_match_of cancelled_match
  closed now sender m = ground arith

  none_open :
      (c : Collection Match) (k : ℕ) (m : Match) (now sender : ℕ)
      → find_by_id k (update_many (is_open_match_of request) (cancelled_match now sender) c)
        ≡ some m
      → is_open_match_of request m ≡ false
  unfolding find_by_id update_many
  none_open [] k m now sender e = cc
  none_open ((i, a) ∷ c) k m now sender e = elim (Bool-cases (i == k)) [
    | inr there ↦ none_open c k m now sender (rw there at e)
    | inl here ↦ elim (Bool-cases (is_open_match_of request a)) [
      | inl taken ↦
          subst (λ x. is_open_match_of request x ≡ false) (cc (rw (here, taken) at e))
            (closed now sender a)
      | inr left ↦ subst (λ x. is_open_match_of request x ≡ false) (cc (rw (here, left) at e)) left
    ]
  ]

  -- A cancellation leaves no match of the request open before the handover.
  pub cancel_request-closes :
      (s s' : Store) (r r' : DeliveryRequest) (k : ℕ) (m : Match)
      → find_by_id request s.requests ≡ some r
      → is_cancelled_request r.status ≡ false
      → cancel_request user request s ≡ (ok r', s')
      → find_by_id k s'.matches ≡ some m
      → is_open_match_of request m ≡ false
  unfolding cancel_request
  cancel_request-closes s s' r r' k m q fresh h found = elim (Bool-cases (r.sender == user)) [
    | inr other ↦ cc (rw (q, other) at h)
    | inl own ↦
        let done : (cancel_writes user request r s).1 ≡ s' =
          ap (λ x. x.1) (rw (q, own, fresh) at h) in
        none_open s.matches k m s.now r.sender
          (ap (find_by_id k) (sym (cancel_writes-matches r s) ∙ ap (λ x. x.matches) done) ∙ found)
  ]

  -- Paying back moves money between the two pockets of a wallet.
  refund_kept :
      (charge : ℕ) (s : Store) (k : ℕ) (u u' : User)
      → find_by_id k s.users ≡ some u
      → find_by_id k (update_wallet user (refund_wallet charge) s).users ≡ some u'
      → worth u' ≡ worth u
  refund_kept charge s k u u' q q' =
      let f : User → User = λ u. record u { wallet = refund_wallet charge u.wallet } in
      elim (Bool-cases (user == k)) [
        | inl mine ↦
            ap worth
              (sym (some_inj (f u) u' (rw (find_by_id-update k user f s.users, mine, q) at q')))
            ∙ refund-worth charge u
        | inr other ↦
            ap worth (sym (some_inj u u' (rw (find_by_id-update k user f s.users, other, q) at q')))
      ]

  wallet_cases :
      (s : Store)
      → let users = (cancel_request user request s).1.users in
        (users ≡ s.users)
        ⊎ ((charge : ℕ) × (users ≡ (update_wallet user (refund_wallet charge) s).users))
  unfolding cancel_request cancel_writes
  wallet_cases s = elim (Option-cases (find_by_id request s.requests)) [
    | inl q ↦ rw (q, cancel_request) (inl refl)
    | inr (r, q) ↦ elim (Bool-cases (r.sender == user)) [
      | inr other ↦ rw (q, cancel_request) (rw other (inl refl))
      | inl own ↦ elim (Bool-cases (is_cancelled_request r.status)) [
        | inl before ↦ rw (q, cancel_request) (rw own (rw before (inl refl)))
        | inr fresh ↦ elim (Bool-cases (is_refundable r)) [
          | inl paid_back ↦
              rw (q, cancel_request)
                (rw own (rw fresh (rw paid_back (inr (or_num r.total_charge 0, refl)))))
          | inr kept ↦ rw (q, cancel_request) (rw own (rw fresh (rw kept (inl refl))))
        ]
      ]
    ]
  ]

  -- A cancellation, answered or refused, changes nobody's wealth: what is in the wallet and what is
  -- held make up the same sum before and after.
  pub cancel_request-worth :
      (s : Store) (k : ℕ) (u u' : User)
      → find_by_id k s.users ≡ some u
      → find_by_id k (cancel_request user request s).1.users ≡ some u'
      → worth u' ≡ worth u
  cancel_request-worth s k u u' q q' = elim (wallet_cases s) [
    | inl same ↦ ap worth (some_inj u' u (sym q' ∙ ap (find_by_id k) same ∙ q))
    | inr (charge, moved) ↦ refund_kept charge s k u u' q (ap (find_by_id k) (sym moved) ∙ q')
  ]
