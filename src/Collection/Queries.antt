-- ===== src/Collection/Queries.antt =====
-- What a lookup finds in the result of a query, at the head of a collection, and after an insertion.
use mathlib.Core.Path.{ap₂}
use hop_drop.Common.{
  refl, inl, inr, ==_iff, Bool-cases, arith, if◌then◌else◌, ◌∷◌, false, none, some, true, is_some,
  ◌==◌, ◌≡◌, [], Bool, ℕ,
}
use hop_drop.Collection.{Unique, Collection, insert, find_all, find_by_id}

module _ {ℓ} {A : Type ℓ} where
  pub find_by_id-insert_found :
      (k n : ℕ) (x a : A) (c : Collection A)
      → find_by_id k c ≡ some x
      → find_by_id k (insert n a c) ≡ some x
  unfolding find_by_id insert
  find_by_id-insert_found k n x a [] h = cc
  find_by_id-insert_found k n x a ((j, b) ∷ c) h = ground (arith, find_by_id-insert_found k n x a c)

  pub found_nil : (k : ℕ) (x : A) → find_by_id k [] ≡ some x → ⊥
  unfolding find_by_id
  found_nil k x h = cc

  pub found_here :
      (k j : ℕ) (x a : A) (c : Collection A)
      → (j == k) ≡ true
      → find_by_id k ((j, a) ∷ c) ≡ some x
      → ◌≡◌ {A = ℕ × A} (j, a) (k, x)
  unfolding find_by_id
  found_here k j x a c same h =
      let doc : some a ≡ some x = rw same at h in ap₂ (λ i y. (i, y)) ((==_iff j k).0 same) (cc)

  pub found_later :
      (k j : ℕ) (x a : A) (c : Collection A)
      → (j == k) ≡ false
      → find_by_id k ((j, a) ∷ c) ≡ some x
      → find_by_id k c ≡ some x
  unfolding find_by_id
  found_later k j x a c other h = rw other at h

  pub none_later :
      (k j : ℕ) (c : Collection A)
      → (j == k) ≡ true
      → is_some (find_by_id j c) ≡ false
      → find_by_id k c ≡ none
  none_later k j c same fresh = ground (arith, (==_iff j k).0 same)

  find_all-none :
      (p : A → Bool) (k : ℕ) (c : Collection A)
      → find_by_id k c ≡ none
      → find_by_id k (find_all p c) ≡ none
  unfolding find_by_id find_all
  find_all-none p k [] h = refl
  find_all-none p k ((j, b) ∷ c) h = ground (arith, find_all-none p k c)

  -- What a query finds under an identifier.
  pub find_by_id-find_all :
      (p : A → Bool) (k : ℕ) (m : A) (c : Collection A)
      → Unique c
      → find_by_id k c ≡ some m
      → find_by_id k (find_all p c) ≡ (if p m then some m else none)
  unfolding find_by_id find_all
  find_by_id-find_all p k m [] u h = cc
  find_by_id-find_all p k m ((j, b) ∷ c) u h = elim (Bool-cases (j == k)) [
    | inl same ↦
        let doc : b ≡ m = cc (rw same at h) in
        let gone = find_all-none p k c (none_later k j c same u.0) in
        rw doc (elim (Bool-cases (p m)) [
          | inl taken ↦ rw taken (rw same refl)
          | inr left ↦ rw left gone
        ])
    | inr other ↦
        let ih = find_by_id-find_all p k m c u.1 (rw other at h) in
        elim (Bool-cases (p b)) [ inl taken ↦ rw taken (rw other ih) | inr left ↦ rw left ih ]
  ]

  fresh-find_all :
      (p : A → Bool) (k : ℕ) (c : Collection A)
      → is_some (find_by_id k c) ≡ false
      → is_some (find_by_id k (find_all p c)) ≡ false
  fresh-find_all p k c h = ground (arith, find_all-none p k c)

  pub Unique-find_all : (p : A → Bool) (c : Collection A) → Unique c → Unique (find_all p c)
  unfolding find_all
  Unique-find_all p [] u = tt
  Unique-find_all p ((j, b) ∷ c) u = elim (Bool-cases (p b)) [
    | inl taken ↦ rw taken (fresh-find_all p j c u.0, Unique-find_all p c u.1)
    | inr left ↦ rw left (Unique-find_all p c u.1)
  ]
