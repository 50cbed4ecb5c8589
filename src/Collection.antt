-- ===== src/Collection.antt =====
-- A collection of the database: documents under their `_id`, in the order of insertion, with the
-- calls of the driver that the services make. The driver runs a query on its own; a query is a
-- Boolean test on documents here.
pub mod Laws
pub mod Queries
pub mod Sorting
pub mod Arranged
pub mod Alls
use hop_drop.Common.{
  ◌≡◌, is_some, ℕ, ◌<◌, Bool, true, false, Option, none, some, List, [], ◌∷◌, ◌++◌, ◌==◌,
  if◌then◌else◌,
}
use mathlib.Core.Option

abbrev pub Collection {ℓ} : Type ℓ → Type ℓ
Collection A = List (ℕ × A)

module _ {ℓ} {A : Type ℓ} where
  -- `findById`
  unfoldable pub find_by_id : ℕ → Collection A → Option A
  find_by_id k [] = none
  find_by_id k ((j, a) ∷ c) = if j == k then some a else find_by_id k c

  -- `findByIdAndUpdate`, and the `save` of the changed paths of a document
  unfoldable pub update_by_id : ℕ → (A → A) → Collection A → Collection A
  update_by_id k f [] = []
  update_by_id k f ((j, a) ∷ c) = if j == k then (j, f a) ∷ c else (j, a) ∷ update_by_id k f c

  -- `create`, under a new identifier
  unfoldable pub insert : ℕ → A → Collection A → Collection A
  insert k a c = c ++ (k, a) ∷ []

  -- `findOne`, in the order of insertion
  unfoldable pub find_one : (A → Bool) → Collection A → Option (ℕ × A)
  find_one p [] = none
  find_one p ((j, a) ∷ c) = if p a then some (j, a) else find_one p c

  -- `find`
  unfoldable pub find_all : (A → Bool) → Collection A → Collection A
  find_all p [] = []
  find_all p ((j, a) ∷ c) = let rest = find_all p c in if p a then (j, a) ∷ rest else rest

  -- `exists`
  unfoldable pub exists : (A → Bool) → Collection A → Bool
  exists p [] = false
  exists p ((j, a) ∷ c) = if p a then true else exists p c

  -- `updateMany`
  unfoldable pub update_many : (A → Bool) → (A → A) → Collection A → Collection A
  update_many p f [] = []
  update_many p f ((j, a) ∷ c) = (j, if p a then f a else a) ∷ update_many p f c

  -- `deleteOne` by its identifier
  abbrev pub without_id : ℕ → Collection A → Collection A
  without_id k [] = []
  without_id k ((j, a) ∷ c) = let rest = without_id k c in if j == k then rest else (j, a) ∷ rest

  unfoldable pub keys : Collection A → List ℕ
  keys [] = []
  keys ((j, a) ∷ c) = j ∷ keys c

  -- Every identifier is below `n`, so `n` is a new one.
  abbrev pub Below : ℕ → Collection A → Type 0
  Below n [] = Unit
  Below n ((j, a) ∷ c) = (j < n) × Below n c

  -- No identifier is used twice.
  abbrev pub Unique : Collection A → Type 0
  Unique [] = Unit
  Unique ((j, a) ∷ c) = (is_some (find_by_id j c) ≡ false) × Unique c

  -- What holds of every document that a lookup can find.
  abbrev pub Every {κ} : (A → Type κ) → Collection A → Type (ℓ ⊔ κ)
  Every P c = (k : ℕ) (a : A) → find_by_id k c ≡ some a → P a
