-- ===== src/Matching/Pairs.antt =====
-- What backend/src/services/matching.service.ts does with a pair that has a match: the index of
-- backend/src/models/Match.ts refuses a second one.
use hop_drop.Transactions.{
  later_faults, commit, after_attempt, attempt, run_attempts, run_in_transaction,
}
use hop_drop.Env.{standalone, replica_set, no_sessions, Topology, unreachable, Env}
use hop_drop.Collection.{find_by_id, Collection, exists, find_one}
use hop_drop.Pricing.{calculate_quote, Quote}
use hop_drop.Matching.Proposals.{
  add_match_to_trip, after_proposal, announce_if_created, create_match_proposal,
  create_match_without_transaction, existing_or, recover_proposal, find_pair, created_or_found,
  find_or_create, proposal_body, proposed_match, is_pair, create_match,
}
use hop_drop.Common.{
  ◌≢◌, ℕ, refl, Bool, true, false, none, some, [], ◌∷◌, arith, duplicate_key, ok, err, ◌≡◌,
}
use hop_drop.Model.Match.{new_match, Match}
use hop_drop.Model.DeliveryRequest.{DeliveryRequest}
use hop_drop.Model.Trip.{Trip}
use hop_drop.Store.{Store}

module _ {ℓ} {A : Type ℓ} where
  find_one-some :
      (p : A → Bool) (c : Collection A) (x : ℕ × A) → find_one p c ≡ some x → exists p c ≡ true
  unfolding find_one exists
  find_one-some p [] x h = cc
  find_one-some p ((k, a) ∷ c) x h = ground (arith, find_one-some p c x)

-- A store as another, but for the outcomes of the transactions to come.
abbrev pub SameButFaults : Store → Store → Type 0
SameButFaults s s' = record s' { faults = s.faults } ≡ s

module _ (trip : ℕ) (t : Trip) (request : ℕ) (r : DeliveryRequest) (s : Store) (found : ℕ × Match)
    (there : find_one (is_pair trip request) s.matches ≡ some found) where
  create_match-taken :
      (now : ℕ) (quote : Quote)
      → create_match (proposed_match now trip t request r quote) s ≡ (err duplicate_key, s)
  unfolding create_match proposed_match new_match
  create_match-taken now quote =
      rw (find_one-some (is_pair trip request) s.matches found there, create_match) refl

  proposal_body-taken :
      (quote : Quote) → proposal_body trip t request r quote s ≡ (err duplicate_key, s)
  unfolding proposal_body
  proposal_body-taken quote = rw (create_match-taken s.now quote) refl

  recover-taken :
      (env : Env) (quote : Quote)
      → recover_proposal trip t request r quote env duplicate_key s ≡ (ok found, s)
  unfolding recover_proposal find_pair existing_or
  recover-taken env quote = rw there refl

  find_or_create-taken :
      (quote : Quote) → find_or_create trip t request r quote none s ≡ (ok (false, some found), s)
  unfolding find_or_create created_or_found find_pair
  find_or_create-taken quote = rw (create_match-taken s.now quote) (rw there refl)

module _ (trip : ℕ) (t : Trip) (request : ℕ) (r : DeliveryRequest) (s : Store) (found : ℕ × Match)
    (there : find_one (is_pair trip request) s.matches ≡ some found) where
  transaction-taken :
      (topology : Topology) (quote : Quote)
      → topology ≢ unreachable
      → (s' : Store) × (run_in_transaction topology (proposal_body trip t request r quote) s
          ≡ (err duplicate_key, s'))
        × (find_one (is_pair trip request) s'.matches ≡ some found)
        × SameButFaults s s'
  unfolding run_in_transaction run_attempts attempt after_attempt commit
  transaction-taken replica_set quote n =
      let s0 = record s { faults = later_faults s.faults } in
      (s0, rw (proposal_body-taken trip t request r s0 found there quote) refl, there, refl)
  transaction-taken standalone quote n =
      (s, proposal_body-taken trip t request r s found there quote, there, refl)
  transaction-taken no_sessions quote n =
      (s, proposal_body-taken trip t request r s found there quote, there, refl)
  transaction-taken unreachable quote n = absurd (n refl)

  without_transaction-taken :
      (env : Env) (quote : Quote)
      → let (x, s') = create_match_without_transaction trip t request r quote env s in
        (x ≡ ok found) × (s'.matches ≡ s.matches) × (s'.bus ≡ s.bus)
  unfolding create_match_without_transaction find_pair find_or_create announce_if_created
      add_match_to_trip
  without_transaction-taken env quote = rw (there, find_or_create) (refl, refl, refl)

-- A proposal of a trip and a request that have a match makes no second one and sends nothing. Unless
-- the database cannot be reached, it is answered with the match that is there and changes nothing,
-- whatever becomes of the transaction; so is the proposal without transactions, but for the trip's
-- list of matches and the request's status; and where somebody else makes the match between its
-- search for one and its own insertion, it finds theirs.
pub repeated_proposal :
    (env : Env) (trip : ℕ) (t : Trip) (request : ℕ) (r : DeliveryRequest) (quote : Quote)
    (s : Store) (found : ℕ × Match)
    → find_one (is_pair trip request) s.matches ≡ some found
    → env.topology ≢ unreachable
    → let (x, s') = create_match_proposal env (trip, t) (request, r) s in
      let (y, s'') = create_match_without_transaction trip t request r quote env s in
      ((x ≡ ok found) × SameButFaults s s')
      × ((y ≡ ok found) × (s''.matches ≡ s.matches) × (s''.bus ≡ s.bus))
      × (find_or_create trip t request r quote none s ≡ (ok (false, some found), s))
unfolding create_match_proposal after_proposal
repeated_proposal env trip t request r quote s found there reachable =
    let q =
      calculate_quote env t.price_per_kg (find_by_id t.carrier s.users) r.preferred_delivery_window
        r.parcel in
    let (s', ran, there', same) =
      transaction-taken trip t request r s found there env.topology q reachable in
    (
      rw ran (rw (recover-taken trip t request r s' found there' env q) (refl, same)),
      without_transaction-taken trip t request r s found there env quote,
      find_or_create-taken trip t request r s found there quote,
    )
