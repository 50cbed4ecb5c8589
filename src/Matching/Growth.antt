-- ===== src/Matching/Growth.antt =====
-- What the proposals of backend/src/services/matching.service.ts keep: a property of the matches and
-- of the next identifier holds after a proposal if it holds after the insertion of its match.
use hop_drop.Matching.Search.{
  Search, find_matches, match_trip_against_pending_requests, run_search, gather, propose_requests,
  propose_trips,
}
use hop_drop.Matching.{CandidateRanking}
use hop_drop.Common.{
  String, List, [], ◌∷◌, ◌==◌, All, Error, suc, inl, inr, Bool, true, Option, none, some, Result,
  api, duplicate_key, transaction_unsupported, write_conflict, failure, ok, err, false, ◌≡◌,
  Bool-cases, ℕ,
}
use hop_drop.Transactions.Retry.{run_in_transaction-keeps}
use hop_drop.Collection.{find_by_id, find_one, insert, exists, Collection}
use hop_drop.Store.Keeps.{require-Keeps, continue-keeps, Keeps}
use hop_drop.Matching.Proposals.{
  emit_match_proposal_created, after_proposal, create_match_proposal, existing_or, recover_proposal,
  without_transaction_or_throw, announce_if_created, create_match_without_transaction, find_pair,
  created_or_found, find_or_create, proposal_body, proposed_match, is_pair, create_match,
}
use hop_drop.Pricing.{calculate_quote, Quote}
use hop_drop.Store.{require, Store}
use hop_drop.Transactions.{is_transaction_unsupported}
use hop_drop.Env.{Env}
use hop_drop.Model.DeliveryRequest.{DeliveryRequest}
use hop_drop.Model.Trip.{Trip}
use hop_drop.Model.Match.{Match}

module _ {ℓ} (Q : Collection Match → ℕ → Type ℓ) where
  abbrev pub Holds : Store → Type ℓ
  Holds s = Q s.matches s.next_id

  -- The property holds after a new match of a pair that has none.
  abbrev pub GrowsBy : Match → Type ℓ
  GrowsBy m =
      (c : Collection Match) (n : ℕ)
      → Q c n
      → exists (is_pair m.trip m.delivery_request) c ≡ false
      → Q (insert n m c) (suc n)

  create_match-Holds : (m : Match) (s : Store) → GrowsBy m → Holds s → Holds (create_match m s).1
  unfolding create_match
  create_match-Holds m s grows h =
      elim (Bool-cases (exists (is_pair m.trip m.delivery_request) s.matches)) [
        | inl there ↦ rw there h
        | inr free ↦ rw free (grows s.matches s.next_id h free)
      ]

  module _ (trip : ℕ) (t : Trip) (request : ℕ) (r : DeliveryRequest) (quote : Quote)
      (grows : (now : ℕ) → GrowsBy (proposed_match now trip t request r quote)) where
    proposal_body-Holds : Keeps Holds (proposal_body trip t request r quote)
    unfolding proposal_body
    proposal_body-Holds s h =
        let m = proposed_match s.now trip t request r quote in
        continue-keeps Holds (create_match m s) _ (create_match-Holds m s (grows s.now) h)
          (λ match s' h'. h')

    created_or_found-Holds :
        (x : Result ℕ × Store) (m : Match) (s : Store)
        → Holds x.1
        → Holds (created_or_found trip t request r quote x m s).1
    unfolding created_or_found find_pair
    created_or_found-Holds (ok match, s1) m s h = h
    created_or_found-Holds (err (api n t), s1) m s h = h
    created_or_found-Holds (err duplicate_key, s1) m s h = h
    created_or_found-Holds (err transaction_unsupported, s1) m s h = h
    created_or_found-Holds (err write_conflict, s1) m s h = h
    created_or_found-Holds (err (failure t), s1) m s h = h

    find_or_create-Holds :
        (found : Option (ℕ × Match)) → Keeps Holds (find_or_create trip t request r quote found)
    unfolding find_or_create
    find_or_create-Holds (some found) s h = h
    find_or_create-Holds none s h =
        let m = proposed_match s.now trip t request r quote in
        created_or_found-Holds (create_match m s) m s (create_match-Holds m s (grows s.now) h)

    module _ (env : Env) where
      announce-Holds :
          (created : Bool) (match : ℕ)
          → Keeps Holds (announce_if_created trip t request r quote env created match)
      unfolding announce_if_created
      announce-Holds true match s h = h
      announce-Holds false match s h = h

      without_transaction-Holds :
          Keeps Holds (create_match_without_transaction trip t request r quote env)
      unfolding create_match_without_transaction
      without_transaction-Holds s h =
          let there = find_one (is_pair trip request) s.matches in
          continue-keeps Holds (find_or_create trip t request r quote there s) _
            (find_or_create-Holds there s h)
            (λ outcome s1 h1.
              continue-keeps Holds (require outcome.1 500 "Unable to create match proposal" s1) _
                (require-Keeps Holds outcome.1 500 "Unable to create match proposal" s1 h1)
                (λ match s2 h2.
                  continue-keeps Holds
                    (announce_if_created trip t request r quote env outcome.0 match.0 _) _
                    (announce-Holds outcome.0 match.0 _ h2) (λ _ s3 h3. h3)))

      throw_or-Holds :
          (e : Error) → Keeps Holds (without_transaction_or_throw trip t request r quote env e)
      unfolding without_transaction_or_throw
      throw_or-Holds e s h = elim (Bool-cases (is_transaction_unsupported e)) [
        | inl bare ↦ rw bare (without_transaction-Holds s h)
        | inr other ↦ rw other h
      ]

      existing_or-Holds :
          (e : Error) (found : Option (ℕ × Match))
          → Keeps Holds (existing_or trip t request r quote env e found)
      unfolding existing_or
      existing_or-Holds e none s h = throw_or-Holds e s h
      existing_or-Holds e (some found) s h = h

      recover_proposal-Holds :
          (e : Error) → Keeps Holds (recover_proposal trip t request r quote env e)
      unfolding recover_proposal find_pair
      recover_proposal-Holds duplicate_key s h =
          existing_or-Holds duplicate_key (find_one (is_pair trip request) s.matches) s h
      recover_proposal-Holds (api n text) s h = throw_or-Holds (api n text) s h
      recover_proposal-Holds transaction_unsupported s h =
          throw_or-Holds transaction_unsupported s h
      recover_proposal-Holds write_conflict s h = throw_or-Holds write_conflict s h
      recover_proposal-Holds (failure text) s h = throw_or-Holds (failure text) s h

      after_proposal-Holds :
          (x : Result (ℕ × Match) × Store)
          → Holds x.1
          → Holds (after_proposal trip t request r quote env x).1
      unfolding after_proposal emit_match_proposal_created
      after_proposal-Holds (ok match, s) h = h
      after_proposal-Holds (err e, s) h = recover_proposal-Holds e s h

  -- A proposal keeps the property if the match that it may make does.
  pub create_match_proposal-Holds :
      (env : Env) (trip : ℕ × Trip) (request : ℕ × DeliveryRequest)
      → ((now : ℕ) (quote : Quote)
          → GrowsBy (proposed_match now trip.0 trip.1 request.0 request.1 quote))
      → Keeps Holds (create_match_proposal env trip request)
  unfolding create_match_proposal
  create_match_proposal-Holds env (trip, t) (request, r) grows s h =
      let quote =
        calculate_quote env t.price_per_kg (find_by_id t.carrier s.users)
          r.preferred_delivery_window r.parcel in
      let each = λ (now : ℕ). grows now quote in
      after_proposal-Holds trip t request r quote each env _ (
        run_in_transaction-keeps (proposal_body trip t request r quote) Holds (λ s1 fs h1. h1)
          (proposal_body-Holds trip t request r quote each) env.topology s h)

-- The same for the loops over candidates, whichever of them are reached.
module _ {ℓ} (Q : Collection Match → ℕ → Type ℓ) (env : Env) where
  gather-Holds :
      {A : Type 0} (x : Result A) (y : Result (List A) × Store)
      → Holds Q y.1
      → Holds Q (gather x y).1
  gather-Holds (ok a) (ok rest, s) h = h
  gather-Holds (ok a) (err e, s) h = h
  gather-Holds (err e) (_, s) h = h

  pub propose_trips-Holds :
      (request : ℕ × DeliveryRequest) (trips : Collection Trip)
      → All
          (λ trip.
            (now : ℕ) (quote : Quote)
            → GrowsBy Q (proposed_match now trip.0 trip.1 request.0 request.1 quote))
          trips
      → Keeps (Holds Q) (propose_trips env request trips)
  unfolding propose_trips
  propose_trips-Holds request [] grow s h = h
  propose_trips-Holds request (trip ∷ trips) grow s h =
      let first = create_match_proposal env trip request s in
      gather-Holds first.0 (propose_trips env request trips first.1) (
        propose_trips-Holds request trips grow.1 first.1
          (create_match_proposal-Holds Q env trip request grow.0 s h))

  pub propose_requests-Holds :
      (trip : ℕ × Trip) (requests : Collection DeliveryRequest)
      → All
          (λ request.
            (request.1.sender == trip.1.carrier) ≡ false
            → (now : ℕ) (quote : Quote)
            → GrowsBy Q (proposed_match now trip.0 trip.1 request.0 request.1 quote))
          requests
      → Keeps (Holds Q) (propose_requests env trip requests)
  unfolding propose_requests
  propose_requests-Holds trip [] grow s h = h
  propose_requests-Holds trip ((k, r) ∷ requests) grow s h =
      elim (Bool-cases (r.sender == trip.1.carrier)) [
        | inl own ↦ rw own (propose_requests-Holds trip requests grow.1 s h)
        | inr other ↦ rw other (
            continue-keeps (Holds Q) (create_match_proposal env trip (k, r) s) _
              (create_match_proposal-Holds Q env trip (k, r) (grow.0 other) s h)
              (λ match s1 h1.
                continue-keeps (Holds Q) (propose_requests env trip requests s1) _
                  (propose_requests-Holds trip requests grow.1 s1 h1) (λ _ s2 h2. h2)))
      ]

-- The same for the searches, for a property that every new match of a free pair keeps.
module _ {ℓ} (Q : Collection Match → ℕ → Type ℓ) (grows : (m : Match) → GrowsBy Q m) where
  All-const {κ} : {A : Type 0} (P : A → Type κ) (xs : List A) → ((x : A) → P x) → All P xs
  All-const P [] h = tt
  All-const P (x ∷ xs) h = (h x, All-const P xs h)

  module _ (env : Env) (in_city : String → String → Bool)
      (retrieved ranked : Option (List CandidateRanking)) where
    find_matches-Holds :
        (request : ℕ) → Keeps (Holds Q) (find_matches env in_city retrieved ranked request)
    unfolding find_matches
    find_matches-Holds request s h =
        continue-keeps (Holds Q) (require (find_by_id request s.requests) 404 _ s) _
          (require-Keeps (Holds Q) (find_by_id request s.requests) 404 _ s h)
          (λ r s1 h1.
            propose_trips-Holds Q env (request, r) _ (All-const _ _ (λ x now quote. grows _)) s1 h1)

    pub match_trip-Holds :
        (trip : ℕ)
        → Keeps (Holds Q) (match_trip_against_pending_requests env in_city retrieved ranked trip)
    unfolding match_trip_against_pending_requests
    match_trip-Holds trip s h =
        continue-keeps (Holds Q) (require (find_by_id trip s.trips) 404 _ s) _
          (require-Keeps (Holds Q) (find_by_id trip s.trips) 404 _ s h)
          (λ t s1 h1.
            propose_requests-Holds Q env (trip, t) _ (All-const _ _ (λ x other now quote. grows _))
              s1 h1)

    pub run_search-Holds :
        (search : Search) → Keeps (Holds Q) (run_search env in_city retrieved ranked search)
    unfolding run_search
    run_search-Holds (Search.for_request id) s h = find_matches-Holds id s h
    run_search-Holds (Search.for_trip id) s h = match_trip-Holds id s h
