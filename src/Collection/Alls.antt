-- ===== src/Collection/Alls.antt =====
-- What holds of all documents of a collection, and still does after an update, a removal or a query.
use hop_drop.Collection.{Unique, find_by_id, without_id, Collection, update_by_id, find_all}
use hop_drop.Common.{
  some, arith, All-map, inl, inr, [], ◌∷◌, ◌==◌, Bool-cases, true, ◌≡◌, All, Bool, ℕ,
}

module _ {ℓ κ} {A : Type ℓ} (P : ℕ × A → Type κ) where
  pub update_by_id-All :
      (j : ℕ) (f : A → A)
      → ((i : ℕ) (a : A) → P (i, a) → P (i, f a))
      → (c : Collection A) → All P c
      → All P (update_by_id j f c)
  unfolding update_by_id
  update_by_id-All j f keeps [] h = tt
  update_by_id-All j f keeps ((i, a) ∷ c) h = elim (Bool-cases (i == j)) [
    | inl same ↦ rw same (keeps i a h.0, h.1)
    | inr other ↦ rw other (h.0, update_by_id-All j f keeps c h.1)
  ]

  pub without_id-All : (j : ℕ) (c : Collection A) → All P c → All P (without_id j c)
  without_id-All j [] h = tt
  without_id-All j ((i, a) ∷ c) h = elim (Bool-cases (i == j)) [
    | inl same ↦ rw same (without_id-All j c h.1)
    | inr other ↦ rw other (h.0, without_id-All j c h.1)
  ]

module _ {ℓ} {A : Type ℓ} where
  pub find_all-All : (p : A → Bool) (c : Collection A) → All (λ x. p x.1 ≡ true) (find_all p c)
  unfolding find_all
  find_all-All p [] = tt
  find_all-All p ((k, a) ∷ c) = elim (Bool-cases (p a)) [
    | inl taken ↦ rw taken (taken, find_all-All p c)
    | inr left ↦ rw left (find_all-All p c)
  ]

  pub find_all-keeps {κ} :
      (P : ℕ × A → Type κ) (p : A → Bool) (c : Collection A) → All P c → All P (find_all p c)
  unfolding find_all
  find_all-keeps P p [] h = tt
  find_all-keeps P p ((k, a) ∷ c) h = elim (Bool-cases (p a)) [
    | inl taken ↦ rw taken (h.0, find_all-keeps P p c h.1)
    | inr left ↦ rw left (find_all-keeps P p c h.1)
  ]

  -- A document is found under its own identifier.
  pub Unique-found : (c : Collection A) → Unique c → All (λ x. find_by_id x.0 c ≡ some x.1) c
  unfolding find_by_id
  Unique-found [] u = tt
  Unique-found ((j, a) ∷ c) u =
      (ground arith, All-map (λ x h. ground (arith, u.0, h)) c (Unique-found c u.1))
