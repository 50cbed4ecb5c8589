-- ===== src/Matching/Ranking.antt =====
-- What the ranking of backend/src/services/matching.service.ts keeps.
pub mod Once
use hop_drop.Common.{
  All-append, inl, inr, Bool-cases, Option-cases, All, All-map, ℕ, ◌≡◌, refl, true, false, Option,
  none, some, List, [], ◌∷◌, ◌++◌, arith, ◌==◌, if◌then◌else◌, is_some,
}
use mathlib.Core.Path.{subst}
use hop_drop.Collection.Alls.{Unique-found}
use hop_drop.Collection.{Unique, Collection, find_by_id}
use hop_drop.Matching.{
  rank_found, rank_with_routing_search, ranked_id, CandidateRanking, push_found, ordered, remainder,
}

module _ {ℓ} {A : Type ℓ} where
  pub find_by_id-append :
      (k : ℕ) (c d : Collection A)
      → find_by_id k (c ++ d)
        ≡ (if is_some (find_by_id k c) then find_by_id k c else find_by_id k d)
  unfolding find_by_id
  find_by_id-append k [] d = ground arith
  find_by_id-append k ((j, a) ∷ c) d = ground (arith, find_by_id-append k c d)

  pub find_by_id-push_found :
      (k j : ℕ) (o : Option A) (c : Collection A)
      → find_by_id k (push_found j o c)
        ≡ (if is_some o then if j == k then o else find_by_id k c else find_by_id k c)
  unfolding find_by_id push_found
  find_by_id-push_found k j none c = ground arith
  find_by_id-push_found k j (some a) c = ground arith

  -- A document that the answer names is the candidate of that identifier.
  find_by_id-ordered :
      (k : ℕ) (xs : List CandidateRanking) (c : Collection A)
      → is_some (find_by_id k (ordered xs c)) ≡ true
      → find_by_id k (ordered xs c) ≡ find_by_id k c
  unfolding ordered find_by_id
  find_by_id-ordered k [] c h = ground arith
  find_by_id-ordered k (x ∷ xs) c h = ground (
    arith,
    find_by_id-push_found k (ranked_id x) (find_by_id (ranked_id x) c) (ordered xs c),
    find_by_id-ordered k xs c,
  )

  -- A document that was not named is found after those that were.
  pub find_by_id-remainder :
      (k : ℕ) (seen c : Collection A)
      → is_some (find_by_id k seen) ≡ false
      → find_by_id k (remainder seen c) ≡ find_by_id k c
  unfolding remainder find_by_id
  find_by_id-remainder k seen [] h = refl
  find_by_id-remainder k seen ((j, a) ∷ c) h = ground (arith, find_by_id-remainder k seen c h)

  ranked_all :
      (k : ℕ) (xs : List CandidateRanking) (c : Collection A)
      → find_by_id k (ordered xs c ++ remainder (ordered xs c) c) ≡ find_by_id k c
  ranked_all k xs c = ground (
    arith,
    find_by_id-append k (ordered xs c) (remainder (ordered xs c) c),
    find_by_id-ordered k xs c,
    find_by_id-remainder k (ordered xs c) c,
  )

  rank_found-all :
      (k : ℕ) (xs : List CandidateRanking) (c : Collection A) {ranked : Collection A}
      → rank_found xs c ≡ some ranked
      → find_by_id k ranked ≡ find_by_id k c
  unfolding rank_found
  rank_found-all k [] c h = ground arith
  rank_found-all k (x ∷ xs) c h = ground (arith, ranked_all k (x ∷ xs) c)

-- An entry that the candidates hold as well.
abbrev pub IsCandidate {ℓ} : {A : Type ℓ} → Collection A → ℕ × A → Type ℓ
IsCandidate c x = find_by_id x.0 c ≡ some x.1

module _ {ℓ} {A : Type ℓ} where
  pub ranking_inj : {c d : Collection A} → some c ≡ some d → c ≡ d
  ranking_inj h = cc

  ordered-IsCandidate :
      (xs : List CandidateRanking) (c : Collection A) → All (IsCandidate c) (ordered xs c)
  unfolding ordered push_found
  ordered-IsCandidate [] c = tt
  ordered-IsCandidate (x ∷ xs) c = elim (Option-cases (find_by_id (ranked_id x) c)) [
    | inl q ↦ rw (q, push_found) (ordered-IsCandidate xs c)
    | inr (a, q) ↦ rw (q, push_found) (q, ordered-IsCandidate xs c)
  ]

  remainder-All {κ} :
      (P : ℕ × A → Type κ) (seen c : Collection A) → All P c → All P (remainder seen c)
  unfolding remainder
  remainder-All P seen [] h = tt
  remainder-All P seen ((j, a) ∷ c) h = elim (Bool-cases (is_some (find_by_id j seen))) [
    | inl there ↦ rw there (remainder-All P seen c h.1)
    | inr new ↦ rw new (h.0, remainder-All P seen c h.1)
  ]

-- Whatever the routing search answers, a ranking of trips or requests leaves out no candidate and
-- makes none up, if no two candidates have one identifier: each entry of it is a candidate under
-- that candidate's identifier, and each identifier finds in it what it finds among the candidates.
pub rank-IsCandidate :
    {A : Type 0} (answer : Option (List CandidateRanking)) (c ranked : Collection A)
    → Unique c
    → rank_with_routing_search answer c ≡ some ranked
    → All (IsCandidate c) ranked × ((k : ℕ) → find_by_id k ranked ≡ find_by_id k c)
unfolding rank_with_routing_search rank_found
rank-IsCandidate answer [] ranked u h =
    subst (λ r. All (IsCandidate []) r × ((k : ℕ) → find_by_id k r ≡ find_by_id k []))
      (ranking_inj h) (tt, λ k. refl)
rank-IsCandidate none (x ∷ c) ranked u h = ground arith
rank-IsCandidate (some []) (x ∷ c) ranked u h = ground arith
rank-IsCandidate (some (y ∷ ys)) (x ∷ c) ranked u h = (
  subst (All (IsCandidate (x ∷ c))) (ranking_inj h) (
      All-append (IsCandidate (x ∷ c)) (ordered (y ∷ ys) (x ∷ c)) _
        (ordered-IsCandidate (y ∷ ys) (x ∷ c))
        (remainder-All (IsCandidate (x ∷ c)) (ordered (y ∷ ys) (x ∷ c)) (x ∷ c)
          (Unique-found (x ∷ c) u))),
  λ k. rank_found-all k (y ∷ ys) (x ∷ c) h,
)
