-- ===== src/Matching/Ranking/Once.antt =====
-- How often the ranking of backend/src/services/matching.service.ts names a candidate.
use hop_drop.Matching.Ranking.{
  ranking_inj, find_by_id-append, find_by_id-remainder, subst, find_by_id-push_found,
}
use hop_drop.Collection.{Unique, Collection, find_by_id}
use hop_drop.Common.{
  ℕ, refl, ap, ◌∙◌, inl, inr, false, Option, none, some, List, [], ◌∷◌, ◌++◌, arith, ◌==◌,
  Bool-cases, is_some, any, All, All-map, ◌≡◌,
}
use hop_drop.Matching.{
  rank_found, rank_with_routing_search, ranked_id, CandidateRanking, push_found, ordered, remainder,
}

-- No two entries of an answer name one document.
abbrev pub NamesOnce : List CandidateRanking → Type 0
NamesOnce [] = Unit
NamesOnce (x ∷ xs) = (any (λ y. ranked_id y == ranked_id x) xs ≡ false) × NamesOnce xs

module _ {ℓ} {A : Type ℓ} where
  ordered-unnamed :
      (k : ℕ) (xs : List CandidateRanking) (c : Collection A)
      → any (λ y. ranked_id y == k) xs ≡ false
      → is_some (find_by_id k (ordered xs c)) ≡ false
  unfolding ordered find_by_id
  ordered-unnamed k [] c h = refl
  ordered-unnamed k (x ∷ xs) c h = ground (
    arith,
    find_by_id-push_found k (ranked_id x) (find_by_id (ranked_id x) c) (ordered xs c),
    ordered-unnamed k xs c,
  )

  push_found-Unique :
      (j : ℕ) (o : Option A) (c : Collection A)
      → is_some (find_by_id j c) ≡ false
      → Unique c
      → Unique (push_found j o c)
  unfolding push_found
  push_found-Unique j none c new u = u
  push_found-Unique j (some a) c new u = (new, u)

  ordered-Unique :
      (xs : List CandidateRanking) (c : Collection A) → NamesOnce xs → Unique (ordered xs c)
  unfolding ordered
  ordered-Unique [] c once = tt
  ordered-Unique (x ∷ xs) c once =
      push_found-Unique (ranked_id x) _ _ (ordered-unnamed (ranked_id x) xs c once.0)
        (ordered-Unique xs c once.1)

  -- The entries whose identifiers a collection does not hold.
  abbrev New : Collection A → ℕ × A → Type 0
  New seen x = is_some (find_by_id x.0 seen) ≡ false

  remainder-New : (seen c : Collection A) → All (New seen) (remainder seen c)
  unfolding remainder
  remainder-New seen [] = tt
  remainder-New seen ((j, a) ∷ c) = elim (Bool-cases (is_some (find_by_id j seen))) [
    | inl there ↦ rw there (remainder-New seen c)
    | inr new ↦ rw new (new, remainder-New seen c)
  ]

  remainder-Unique : (seen c : Collection A) → Unique c → Unique (remainder seen c)
  unfolding remainder
  remainder-Unique seen [] u = tt
  remainder-Unique seen ((j, a) ∷ c) u = elim (Bool-cases (is_some (find_by_id j seen))) [
    | inl there ↦ rw there (remainder-Unique seen c u.1)
    | inr new ↦
        rw new (ap is_some (find_by_id-remainder j seen c new) ∙ u.0, remainder-Unique seen c u.1)
  ]

  find_by_id-New :
      (j : ℕ) (a : A) (c d : Collection A)
      → All (New ((j, a) ∷ c)) d
      → is_some (find_by_id j d) ≡ false
  unfolding find_by_id
  find_by_id-New j a c [] h = refl
  find_by_id-New j a c ((k, b) ∷ d) h = ground (arith, h.0, find_by_id-New j a c d h.1)

  append-Unique : (c d : Collection A) → Unique c → Unique d → All (New c) d → Unique (c ++ d)
  unfolding find_by_id
  append-Unique [] d u v h = v
  append-Unique ((j, a) ∷ c) d u v h = (
    ground (arith, find_by_id-append j c d, u.0, find_by_id-New j a c d h),
    append-Unique c d u.1 v (All-map (λ x h. ground (arith, h)) d h),
  )

-- If the routing search names no candidate twice, and no two candidates have one identifier, a
-- ranking of trips or requests holds none twice.
pub rank-Unique :
    {A : Type 0} (xs : List CandidateRanking) (c ranked : Collection A)
    → NamesOnce xs
    → Unique c
    → rank_with_routing_search (some xs) c ≡ some ranked
    → Unique ranked
unfolding rank_with_routing_search rank_found
rank-Unique xs [] ranked once u h = subst Unique (ranking_inj h) tt
rank-Unique [] (x ∷ c) ranked once u h = ground arith
rank-Unique (y ∷ ys) (x ∷ c) ranked once u h = subst Unique (ranking_inj h) (
    append-Unique (ordered (y ∷ ys) (x ∷ c)) _ (ordered-Unique (y ∷ ys) (x ∷ c) once)
      (remainder-Unique _ (x ∷ c) u) (remainder-New _ (x ∷ c)))
