-- ===== src/Queues/Rematch/Outcome.antt =====
-- What the audit of backend/src/queues/slaRematchQueue.ts makes of each match.
use hop_drop.Collection.Queries.{
  found_later, Unique-find_all, none_later, find_by_id-find_all, found_here,
  find_by_id-insert_found, found_nil,
}
use hop_drop.Queues.Rematch.{
  process_sla_rematch_audit, count_rematch, cutoff_time, leaves_by, waits_for_pickup,
  cancelled_by_audit, Audit, Answers, penalize_carrier, audit_matches, cancel_overdue,
  rematch_result, rematch_trips, reopen_request, revert_trip,
}
use hop_drop.Collection.{find_all, Unique, update_by_id, Collection, find_by_id}
use hop_drop.Common.{
  sym, ==_iff, ap, true, false, ◌∙◌, ◌≢◌, ◌&&◌, if◌then◌else◌, refl, inl, inr, [], ◌∷◌, arith, ◌==◌,
  ok, err, Bool-cases, none, Option, some, ◌≡◌, Bool, String, ⊤, Result, ℕ,
}
use mathlib.Core.Path.{subst}
use hop_drop.Collection.Laws.{find_by_id-update_self, find_by_id-update_ne}
use hop_drop.Store.{Action, continue, Store}
use hop_drop.Matching.Growth.{match_trip-Holds, Holds, GrowsBy}
use hop_drop.Matching.Search.{match_trip_against_pending_requests}
use hop_drop.Store.Keeps.{continue-keeps, Keeps}
use hop_drop.Model.DeliveryRequest.{DeliveryRequest}
use hop_drop.Model.Trip.{Trip}
use hop_drop.Model.Match.{Match}
use hop_drop.Env.{Env}

-- The document that is stored under an identifier.
abbrev Stored : ℕ → Match → Collection Match → ℕ → Type 0
Stored k x c n = find_by_id k c ≡ some x

Stored-grows : (k : ℕ) (x m : Match) → GrowsBy (Stored k x) m
Stored-grows k x m c n h free = find_by_id-insert_found k n x m c h

rematch_result-store : (x : Result ⊤ × Store) → (rematch_result x).1 ≡ x.1
rematch_result-store (ok _, s) = refl
rematch_result-store (err e, s) = refl

module _ (env : Env) (in_city : String → String → Bool) (k : ℕ) (x : Match) where
  abbrev Kept : Store → Type 0
  Kept = Holds (Stored k x)

  rematch_trips-Kept :
      (answers : Answers) (trips : Collection Trip)
      → Keeps Kept (rematch_trips env in_city answers trips)
  unfolding rematch_trips
  rematch_trips-Kept answers [] s h = h
  rematch_trips-Kept answers ((j, t) ∷ trips) s h =
      continue-keeps Kept
        (match_trip_against_pending_requests env in_city (answers j).0 (answers j).1 j s) _
        (match_trip-Holds (Stored k x) (Stored-grows k x) env in_city (answers j).0 (answers j).1 j
          s h)
        (λ _ s1 h1. rematch_trips-Kept answers trips s1 h1)

  reopen_request-Kept :
      (answers : Answers) (now trip request : ℕ) (r : Option DeliveryRequest)
      → Keeps Kept (reopen_request env in_city answers now trip request r)
  unfolding reopen_request
  reopen_request-Kept answers now trip request none s h = h
  reopen_request-Kept answers now trip request (some r) s h =
      rw (rematch_result-store _) (rematch_trips-Kept answers _ _ h)

  revert_trip-Kept : (trip : ℕ) (r : Option DeliveryRequest) → Keeps Kept (revert_trip trip r)
  unfolding revert_trip
  revert_trip-Kept trip none s h = h
  revert_trip-Kept trip (some r) s h = elim (Bool-cases (r.parcel.weight_g == 0)) [
    | inl empty ↦ rw empty h
    | inr full ↦ rw full h
  ]

  -- Once the match is saved as cancelled, its document stays as it is.
  cancel_overdue-Kept :
      (answers : Answers) (now match : ℕ) (m : Match) (r : Option DeliveryRequest) (s : Store)
      → find_by_id k (update_by_id match (cancelled_by_audit now) s.matches) ≡ some x
      → Kept (cancel_overdue env in_city answers now match m r s).1
  unfolding cancel_overdue penalize_carrier
  cancel_overdue-Kept answers now match m r s h =
      continue-keeps Kept (revert_trip m.trip r _) _ (revert_trip-Kept m.trip r _ h)
        (λ _ s1 h1. reopen_request-Kept answers now m.trip m.delivery_request r s1 h1)

  head_ne : (j : ℕ) (m : Match) (c : Collection Match) → find_by_id k ((j, m) ∷ c) ≡ none → j ≢ k
  unfolding find_by_id
  head_ne j m c h = ground arith

  tail_none :
      (j : ℕ) (m : Match) (c : Collection Match)
      → find_by_id k ((j, m) ∷ c) ≡ none
      → find_by_id k c ≡ none
  unfolding find_by_id
  tail_none j m c h = ground arith

  audit_matches-other :
      (answers : ℕ → Answers) (found : Store) (matches : Collection Match) (a : Audit) (s : Store)
      → find_by_id k matches ≡ none
      → Kept s
      → Kept (audit_matches env in_city answers found matches a s).1
  unfolding audit_matches
  audit_matches-other answers found [] a s away h = h
  audit_matches-other answers found ((j, m) ∷ matches) a s away h =
      elim (Bool-cases (leaves_by (cutoff_time found.now) (find_by_id m.trip found.trips))) [
        | inl late ↦ rw late (
            let r = find_by_id m.delivery_request found.requests in
            continue-keeps Kept (cancel_overdue env in_city (answers j) found.now j m r s) _
              (cancel_overdue-Kept (answers j) found.now j m r s
                (find_by_id-update_ne k j _ s.matches (head_ne j m matches away) ∙ h))
              (λ b s1 h1.
                audit_matches-other answers found matches _ s1 (tail_none j m matches away) h1))
        | inr early ↦
            rw early (audit_matches-other answers found matches a s (tail_none j m matches away) h)
      ]

-- A trip of the match is there, and leaves before the cutoff.
abbrev pub is_overdue : Store → Match → Bool
is_overdue s m = waits_for_pickup m && leaves_by (cutoff_time s.now) (find_by_id m.trip s.trips)

-- What is left of a match after the audit.
abbrev pub audited : Store → Match → Match
audited s m = if is_overdue s m then cancelled_by_audit s.now m else m

continue-ok :
    {A B : Type 0} (r : Result A × Store) (f : A → Action B) (a : A)
    → r.0 ≡ ok a
    → continue r f ≡ f a r.1
continue-ok (ok b, s) f a h = ap (λ x. f x s) (cc)
continue-ok (err e, s) f a h = cc

rematch_result-ok : (x : Result ⊤ × Store) → (b : Bool) × ((rematch_result x).0 ≡ ok b)
rematch_result-ok (ok _, s) = (true, refl)
rematch_result-ok (err e, s) = (false, refl)

revert_trip-ok :
    (trip : ℕ) (r : Option DeliveryRequest) (s : Store) → (revert_trip trip r s).0 ≡ ok tt
unfolding revert_trip
revert_trip-ok trip none s = refl
revert_trip-ok trip (some r) s = elim (Bool-cases (r.parcel.weight_g == 0)) [
  | inl empty ↦ rw empty refl
  | inr full ↦ rw full refl
]

module _ (env : Env) (in_city : String → String → Bool) where
  reopen_request-ok :
      (answers : Answers) (now trip request : ℕ) (r : Option DeliveryRequest) (s : Store)
      → (b : Bool) × ((reopen_request env in_city answers now trip request r s).0 ≡ ok b)
  unfolding reopen_request
  reopen_request-ok answers now trip request none s = (false, refl)
  reopen_request-ok answers now trip request (some r) s = rematch_result-ok _

  -- The audit goes on after each match, also where the searches throw.
  cancel_overdue-ok :
      (answers : Answers) (now match : ℕ) (m : Match) (r : Option DeliveryRequest) (s : Store)
      → (b : Bool) × ((cancel_overdue env in_city answers now match m r s).0 ≡ ok b)
  unfolding cancel_overdue penalize_carrier
  cancel_overdue-ok answers now match m r s =
      rw (continue-ok (revert_trip m.trip r _) _ tt (revert_trip-ok m.trip r _))
        (reopen_request-ok answers now m.trip m.delivery_request r _)

  module _ (answers : ℕ → Answers) (found : Store) (k : ℕ) (x : Match) where
    abbrev Outcome : Store → Type 0
    Outcome s =
        find_by_id k s.matches
        ≡ some (
            if leaves_by (cutoff_time found.now) (find_by_id x.trip found.trips)
            then cancelled_by_audit found.now x
            else x)

    after_cancel :
        (j : ℕ) (m : Match) (matches : Collection Match) (a : Audit) (s : Store)
        → ((a : Audit) (s : Store)
            → find_by_id k s.matches ≡ some x
            → Outcome (audit_matches env in_city answers found matches a s).1)
        → j ≢ k
        → find_by_id k s.matches ≡ some x
        → Outcome
            (continue
              (cancel_overdue env in_city
                (answers j)
                found.now
                j
                m
                (find_by_id m.delivery_request found.requests)
                s)
              (λ b. audit_matches env in_city answers found matches (count_rematch b a))).1
    after_cancel j m matches a s rest other h =
        let r = find_by_id m.delivery_request found.requests in
        let done = cancel_overdue-ok (answers j) found.now j m r s in
        rw (continue-ok (cancel_overdue env in_city (answers j) found.now j m r s) _ done.0 done.1)
          (rest _ _ (
            cancel_overdue-Kept env in_city k x (answers j) found.now j m r s
              (find_by_id-update_ne k j _ s.matches other ∙ h)))

    audit_matches-here :
        (matches : Collection Match) (a : Audit) (s : Store)
        → find_by_id k matches ≡ none
        → find_by_id k s.matches ≡ some x
        → Outcome (audit_matches env in_city answers found ((k, x) ∷ matches) a s).1
    unfolding audit_matches
    audit_matches-here matches a s away h =
        elim (Bool-cases (leaves_by (cutoff_time found.now) (find_by_id x.trip found.trips))) [
          | inl late ↦ rw late (
              let r = find_by_id x.delivery_request found.requests in
              let gone = cancelled_by_audit found.now x in
              continue-keeps (Kept env in_city k gone)
                (cancel_overdue env in_city (answers k) found.now k x r s) _
                (cancel_overdue-Kept env in_city k gone (answers k) found.now k x r s
                  (find_by_id-update_self k _ s.matches h))
                (λ b s1 h1.
                  audit_matches-other env in_city k gone answers found matches _ s1 away h1))
          | inr early ↦
              rw early (audit_matches-other env in_city k x answers found matches a s away h)
        ]

    step :
        (j : ℕ) (m : Match) (matches : Collection Match) (a : Audit) (s : Store)
        → ((a : Audit) (s : Store)
            → find_by_id k s.matches ≡ some x
            → Outcome (audit_matches env in_city answers found matches a s).1)
        → j ≢ k
        → find_by_id k s.matches ≡ some x
        → Outcome (audit_matches env in_city answers found ((j, m) ∷ matches) a s).1
    unfolding audit_matches
    step j m matches a s rest other h =
        elim (Bool-cases (leaves_by (cutoff_time found.now) (find_by_id m.trip found.trips))) [
          | inl late ↦ rw late (after_cancel j m matches a s rest other h)
          | inr early ↦ rw early (rest a s h)
        ]

    audit_matches-hit :
        (matches : Collection Match) (a : Audit) (s : Store)
        → find_by_id k matches ≡ some x
        → Unique matches
        → find_by_id k s.matches ≡ some x
        → Outcome (audit_matches env in_city answers found matches a s).1
    audit_matches-hit [] a s there u h = absurd (found_nil k x there)
    audit_matches-hit ((j, m) ∷ matches) a s there u h = elim (Bool-cases (j == k)) [
      | inl same ↦
          let pair = found_here k j x m matches same there in
          subst (λ y. Outcome (audit_matches env in_city answers found (y ∷ matches) a s).1)
            (sym pair) (audit_matches-here matches a s (none_later k j matches same u.0) h)
      | inr other ↦
          let later = found_later k j x m matches other there in
          let rest = λ (a : Audit) (s : Store). audit_matches-hit matches a s later u.1 in
          step j m matches a s rest (λ e. cc (other, (==_iff j k).1 e)) h
    ]

-- The audit cancels the matches that wait for a pickup that has not happened and whose trip leaves
-- within 45 minutes, or has left, and leaves every other match as it is: whatever the routing search
-- answers, whatever becomes of the transactions, and also where a search for other trips throws.
-- Identifiers of matches are distinct.
pub process_sla_rematch_audit-matches :
    (env : Env) (in_city : String → String → Bool) (answers : ℕ → Answers) (s : Store) (k : ℕ)
    (m : Match)
    → Unique s.matches
    → find_by_id k s.matches ≡ some m
    → find_by_id k (process_sla_rematch_audit env in_city answers s).1.matches ≡ some (audited s m)
unfolding process_sla_rematch_audit
process_sla_rematch_audit-matches env in_city answers s k m u h =
    let waiting = find_all waits_for_pickup s.matches in
    let found = find_by_id-find_all waits_for_pickup k m s.matches u h in
    elim (Bool-cases (waits_for_pickup m)) [
      | inl waits ↦ rw waits (
          audit_matches-hit env in_city answers s k m waiting _ s (rw waits at found)
            (Unique-find_all waits_for_pickup s.matches u) h)
      | inr quiet ↦
          rw quiet (audit_matches-other env in_city k m answers s waiting _ s (rw quiet at found) h)
    ]
