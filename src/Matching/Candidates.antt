-- ===== src/Matching/Candidates.antt =====
-- Where the candidates of backend/src/services/matching.service.ts come from: whatever holds of the
-- documents that a query gives holds of the candidates, ranked, sorted and cut as they may be.
use hop_drop.Matching.Search.{
  found_or, insert_by_score, retrieve_with_routing_search, sort_by_score, find_in,
}
use hop_drop.Common.{
  ◌&&◌, ==_iff, any, zero, suc, refl, inl, inr, none, [], arith, All-append, Bool-cases, ◌==◌, map,
  true, ◌∷◌, false, some, take, All, Option, is_some, ◌≡◌, List, Bool, ℕ,
}
use mathlib.Core.Path.{subst, ap₂}
use hop_drop.Common.Int.{ltb_ℤ, ℤ}
use hop_drop.Matching.{
  ranked_id, CandidateRanking, ordered, push_found, rank_found, rank_with_routing_search, remainder,
}
use hop_drop.Collection.{Unique, Collection, find_all, find_by_id}

module _ {A : Type 0} where
  -- What a query gives is stored under its identifier, and satisfies the query.
  abbrev pub FoundBy : (A → Bool) → Collection A → ℕ × A → Type 0
  FoundBy p c x = (find_by_id x.0 c ≡ some x.1) × (p x.1 ≡ true)

  FoundBy-later :
      (p : A → Bool) (j : ℕ) (b : A) (c d : Collection A)
      → is_some (find_by_id j c) ≡ false
      → All (FoundBy p c) d
      → All (FoundBy p ((j, b) ∷ c)) d
  unfolding find_by_id
  FoundBy-later p j b c [] new h = tt
  FoundBy-later p j b c ((k, a) ∷ d) new h =
      let other : (j == k) ≡ false = ground (arith, h.0) in
      ((rw other h.0.0, h.0.1), FoundBy-later p j b c d new h.1)

  FoundBy-head :
      (p : A → Bool) (j : ℕ) (b : A) (c : Collection A) → p b ≡ true → FoundBy p ((j, b) ∷ c) (j, b)
  unfolding find_by_id
  FoundBy-head p j b c h = (ground arith, h)

  pub find_all-FoundBy :
      (p : A → Bool) (c : Collection A) → Unique c → All (FoundBy p c) (find_all p c)
  unfolding find_all
  find_all-FoundBy p [] u = tt
  find_all-FoundBy p ((j, b) ∷ c) u =
      let later = FoundBy-later p j b c (find_all p c) u.0 (find_all-FoundBy p c u.1) in
      elim (Bool-cases (p b)) [
        | inl yes_p ↦ rw yes_p (FoundBy-head p j b c yes_p, later)
        | inr no_p ↦ rw no_p later
      ]

  pub find_in-FoundBy :
      (ids : List ℕ) (p : A → Bool) (c : Collection A)
      → Unique c
      → All (FoundBy p c) (find_in ids p c)
  unfolding find_in
  find_in-FoundBy ids p [] u = tt
  find_in-FoundBy ids p ((j, b) ∷ c) u =
      let later = FoundBy-later p j b c (find_in ids p c) u.0 (find_in-FoundBy ids p c u.1) in
      elim (Bool-cases (any (λ i. i == j) ids && p b)) [
        | inl both ↦ rw both (FoundBy-head p j b c (ground arith), later)
        | inr missing ↦ rw missing later
      ]

  some_inj : {x y : Collection A} → some x ≡ some y → x ≡ y
  some_inj e = cc

  module _ {ℓ} (P : ℕ × A → Type ℓ) where
    All-lookup : (k : ℕ) (a : A) (c : Collection A) → All P c → find_by_id k c ≡ some a → P (k, a)
    unfolding find_by_id
    All-lookup k a [] h e = cc
    All-lookup k a ((j, b) ∷ c) h e = elim (Bool-cases (j == k)) [
      | inl same ↦
          let doc : some b ≡ some a = rw same at e in
          let key : j ≡ k = (==_iff j k).0 same in subst P (ap₂ (λ i x. (i, x)) key (cc)) h.0
      | inr other ↦ All-lookup k a c h.1 (rw other at e)
    ]

    push_found-All :
        (k : ℕ) (o : Option A) (rest : Collection A)
        → ((a : A) → o ≡ some a → P (k, a))
        → All P rest
        → All P (push_found k o rest)
    unfolding push_found
    push_found-All k none rest h hr = hr
    push_found-All k (some a) rest h hr = (h a refl, hr)

    ordered-All : (xs : List CandidateRanking) (c : Collection A) → All P c → All P (ordered xs c)
    unfolding ordered
    ordered-All [] c h = tt
    ordered-All (x ∷ xs) c h =
        push_found-All (ranked_id x) (find_by_id (ranked_id x) c) (ordered xs c)
          (λ a. All-lookup (ranked_id x) a c h) (ordered-All xs c h)

    remainder-All : (seen c : Collection A) → All P c → All P (remainder seen c)
    unfolding remainder
    remainder-All seen [] h = tt
    remainder-All seen ((j, b) ∷ c) h = elim (Bool-cases (is_some (find_by_id j seen))) [
      | inl there ↦ rw there (remainder-All seen c h.1)
      | inr missing ↦ rw missing (h.0, remainder-All seen c h.1)
    ]

    rank_found-All :
        (xs : List CandidateRanking) (c ranked : Collection A)
        → All P c
        → rank_found xs c ≡ some ranked
        → All P ranked
    unfolding rank_found
    rank_found-All [] c ranked h e = cc
    rank_found-All (x ∷ xs) c ranked h e =
        let all =
          All-append P (ordered (x ∷ xs) c) (remainder (ordered (x ∷ xs) c) c)
            (ordered-All (x ∷ xs) c h) (remainder-All (ordered (x ∷ xs) c) c h) in
        subst (All P) (some_inj e) all

    pub rank-All :
        (answer : Option (List CandidateRanking)) (c ranked : Collection A)
        → All P c
        → rank_with_routing_search answer c ≡ some ranked
        → All P ranked
    unfolding rank_with_routing_search
    rank-All answer [] ranked h e = subst (All P) (some_inj e) h
    rank-All none (x ∷ c) ranked h e = cc
    rank-All (some xs) (x ∷ c) ranked h e = rank_found-All xs (x ∷ c) ranked h e

    insert_by_score-All :
        (score : ℕ × A → ℤ) (a : ℕ × A) (c : Collection A)
        → P a
        → All P c
        → All P (insert_by_score score a c)
    unfolding insert_by_score
    insert_by_score-All score a [] h hc = (h, tt)
    insert_by_score-All score a (b ∷ c) h hc = elim (Bool-cases (ltb_ℤ (score a) (score b))) [
      | inl lower ↦ rw lower (hc.0, insert_by_score-All score a c h hc.1)
      | inr upper ↦ rw upper (h, hc)
    ]

    pub sort_by_score-All :
        (score : ℕ × A → ℤ) (c : Collection A) → All P c → All P (sort_by_score score c)
    unfolding sort_by_score
    sort_by_score-All score [] h = tt
    sort_by_score-All score (a ∷ c) h =
        insert_by_score-All score a (sort_by_score score c) h.0 (sort_by_score-All score c h.1)

    pub retrieve-All :
        (answer : Option (List CandidateRanking)) (p : A → Bool) (c : Collection A)
        → ((ids : List ℕ) → All P (find_in ids p c))
        → All P (retrieve_with_routing_search answer p c)
    unfolding retrieve_with_routing_search
    retrieve-All none p c h = tt
    retrieve-All (some xs) p c h = ordered-All xs _ (h (map ranked_id xs))

  pub take-All {ℓ} : (P : ℕ × A → Type ℓ) (n : ℕ) (c : Collection A) → All P c → All P (take n c)
  take-All P zero c h = tt
  take-All P (suc n) [] h = tt
  take-All P (suc n) (x ∷ c) h = (h.0, take-All P n c h.1)

  -- A query that asks for more.
  pub FoundBy-weaken :
      (p q : A → Bool) (c d : Collection A)
      → ((a : A) → p a ≡ true → q a ≡ true)
      → All (FoundBy p c) d
      → All (FoundBy q c) d
  FoundBy-weaken p q c [] weaker h = tt
  FoundBy-weaken p q c (x ∷ d) weaker h =
      ((h.0.0, weaker x.1 h.0.1), FoundBy-weaken p q c d weaker h.1)

  pub found_or-All {ℓ} :
      (P : ℕ × A → Type ℓ) (c d : Collection A) → All P c → All P d → All P (found_or c d)
  found_or-All P [] d h hd = hd
  found_or-All P (x ∷ c) d h hd = h

  pub All-imp {ℓ κ} :
      (P : ℕ × A → Type ℓ) (Q : ℕ × A → Type κ) (c : Collection A)
      → ((x : ℕ × A) → P x → Q x)
      → All P c
      → All Q c
  All-imp P Q [] f h = tt
  All-imp P Q (x ∷ c) f h = (f x h.0, All-imp P Q c f h.1)
