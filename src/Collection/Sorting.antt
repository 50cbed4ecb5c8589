-- ===== src/Collection/Sorting.antt =====
-- The order of the results of a query: `sort` of the driver, and the pages that `skip` and `limit`
-- cut. The database promises no order among equals: a query sorts the documents as the database
-- comes upon them, any arrangement of them, which is an argument of each query; the sort itself
-- keeps the order of equals, so that an arrangement gives each order of them.
use hop_drop.Common.{
  ◌+◌, sym, ◌∙◌, ℕ, zero, suc, ◌-◌, ◌*◌, ◌≡◌, refl, ap, inl, inr, Bool, true, false, List, [], ◌∷◌,
  ◌++◌, arith, if◌then◌else◌, Bool-cases, length, take, drop, All, take-add,
}
use mathlib.Core.Path.{ap₂}
use hop_drop.Collection.{Collection}

module _ {ℓ} {A : Type ℓ} (comes_first : A → A → Bool) where
  unfoldable pub insert_by : ℕ × A → Collection A → Collection A
  insert_by x [] = x ∷ []
  insert_by x (y ∷ c) = if comes_first x.1 y.1 then x ∷ y ∷ c else y ∷ insert_by x c

  -- `sort`, of documents as they come
  unfoldable pub sort_by : Collection A → Collection A
  unfolding insert_by
  sort_by [] = []
  sort_by (x ∷ c) = insert_by x (sort_by c)

  -- Neighbours are in order.
  abbrev pub InOrder : Collection A → Type 0
  InOrder [] = Unit
  InOrder (x ∷ []) = Unit
  InOrder (x ∷ y ∷ c) = (comes_first x.1 y.1 ≡ true) × InOrder (y ∷ c)

  tail_InOrder : (y : ℕ × A) (c : Collection A) → InOrder (y ∷ c) → InOrder c
  tail_InOrder y [] h = tt
  tail_InOrder y (z ∷ c) h = h.1

  module _ (total : (a b : A) → comes_first a b ≡ false → comes_first b a ≡ true) where
    insert_after :
        (x y : ℕ × A) (c : Collection A)
        → comes_first y.1 x.1 ≡ true
        → InOrder (y ∷ c)
        → InOrder (insert_by x c)
        → InOrder (y ∷ insert_by x c)
    unfolding insert_by
    insert_after x y [] h hc hi = (h, tt)
    insert_after x y (z ∷ c) h hc hi = elim (Bool-cases (comes_first x.1 z.1)) [
      | inl first ↦ rw first (h, rw first at hi)
      | inr later ↦ rw later (hc.0, rw later at hi)
    ]

    insert_by-InOrder : (x : ℕ × A) (c : Collection A) → InOrder c → InOrder (insert_by x c)
    unfolding insert_by
    insert_by-InOrder x [] h = tt
    insert_by-InOrder x (y ∷ c) h = elim (Bool-cases (comes_first x.1 y.1)) [
      | inl first ↦ rw first (first, h)
      | inr later ↦
          rw later (
            insert_after x y c (total x.1 y.1 later) h (insert_by-InOrder x c (tail_InOrder y c h)))
    ]

    -- `sort` puts the documents in order.
    pub sort_by-InOrder : (c : Collection A) → InOrder (sort_by c)
    unfolding sort_by
    sort_by-InOrder [] = tt
    sort_by-InOrder (x ∷ c) = insert_by-InOrder x (sort_by c) (sort_by-InOrder c)

  -- What holds of every document still does once they are sorted.
  insert_by-All :
      (P : ℕ × A → Type 0) (x : ℕ × A) (c : Collection A) → P x → All P c → All P (insert_by x c)
  unfolding insert_by
  insert_by-All P x [] px h = (px, tt)
  insert_by-All P x (y ∷ c) px h = elim (Bool-cases (comes_first x.1 y.1)) [
    | inl first ↦ rw first (px, h)
    | inr later ↦ rw later (h.0, insert_by-All P x c px h.1)
  ]

  pub sort_by-All : (P : ℕ × A → Type 0) (c : Collection A) → All P c → All P (sort_by c)
  unfolding sort_by
  sort_by-All P [] h = tt
  sort_by-All P (x ∷ c) h = insert_by-All P x (sort_by c) h.0 (sort_by-All P c h.1)

  insert_by-length : (x : ℕ × A) (c : Collection A) → length (insert_by x c) ≡ suc (length c)
  unfolding insert_by
  insert_by-length x [] = refl
  insert_by-length x (y ∷ c) = ground (arith, insert_by-length x c)

  pub sort_by-length : (c : Collection A) → length (sort_by c) ≡ length c
  unfolding sort_by
  sort_by-length [] = refl
  sort_by-length (x ∷ c) = omega (arith, insert_by-length x (sort_by c), sort_by-length c)

module _ {ℓ} {A : Type ℓ} where
  -- `skip((page - 1) * limit).limit(limit)`
  unfoldable pub page_of : ℕ → ℕ → List A → List A
  page_of page limit xs = take limit (drop ((page - 1) * limit) xs)

  -- The first pages, one after the other.
  abbrev pub first_pages : ℕ → ℕ → List A → List A
  first_pages zero limit xs = []
  first_pages (suc n) limit xs = first_pages n limit xs ++ page_of (suc n) limit xs

  pub first_pages-take : (n limit : ℕ) (xs : List A) → first_pages n limit xs ≡ take (n * limit) xs
  unfolding page_of
  first_pages-take zero limit xs =
      let none_yet : 0 ≡ 0 * limit = omega arith in ap (λ k. take k xs) none_yet
  first_pages-take (suc n) limit xs =
      let index : suc n - 1 ≡ n = omega arith in
      let taken : n * limit + limit ≡ suc n * limit = omega arith in
      ap₂ ◌++◌ (first_pages-take n limit xs) (ap (λ k. take limit (drop (k * limit) xs)) index)
      ∙ sym (take-add (n * limit) limit xs)
      ∙ ap (λ k. take k xs) taken
