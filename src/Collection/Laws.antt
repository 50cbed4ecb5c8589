-- ===== src/Collection/Laws.antt =====
-- What a lookup finds after each call on a collection, and how a call changes counts and tests.
use hop_drop.Common.{
  ==_refl, Option-cases, ap, Option, inl, inr, is_some, ==_iff, Bool-cases, ℕ, suc, ◌+◌, ◌≡◌, refl,
  ◌≢◌, Bool, true, false, none, some, [], ◌∷◌, arith, ◌==◌, if◌then◌else◌, length, length-append,
}
use mathlib.Core.Option
use mathlib.Core.Path.{subst}
use hop_drop.Collection.{
  Unique, Every, Collection, find_by_id, update_by_id, insert, find_one, exists, Below,
}

module _ {ℓ} {A : Type ℓ} where
  pub find_by_id-update :
      (k j : ℕ) (f : A → A) (c : Collection A)
      → find_by_id k (update_by_id j f c)
        ≡ (if j == k then Option.map f (find_by_id k c) else find_by_id k c)
  unfolding find_by_id update_by_id
  find_by_id-update k j f [] = ground arith
  find_by_id-update k j f ((i, a) ∷ c) = ground (arith, find_by_id-update k j f c)

  pub find_by_id-update_self :
      (k : ℕ) (f : A → A) (c : Collection A) {a : A}
      → find_by_id k c ≡ some a
      → find_by_id k (update_by_id k f c) ≡ some (f a)
  find_by_id-update_self k f c h = ground (arith, find_by_id-update k k f c)

  pub find_by_id-update_ne :
      (k j : ℕ) (f : A → A) (c : Collection A)
      → j ≢ k
      → find_by_id k (update_by_id j f c) ≡ find_by_id k c
  find_by_id-update_ne k j f c h = ground (arith, find_by_id-update k j f c)

  pub find_by_id-insert_ne :
      (k j : ℕ) (a : A) (c : Collection A) → j ≢ k → find_by_id k (insert j a c) ≡ find_by_id k c
  unfolding find_by_id insert
  find_by_id-insert_ne k j a [] h = ground arith
  find_by_id-insert_ne k j a ((i, b) ∷ c) h = ground (arith, find_by_id-insert_ne k j a c h)

  pub find_by_id-Below : (n : ℕ) (c : Collection A) → Below n c → find_by_id n c ≡ none
  unfolding find_by_id
  find_by_id-Below n [] h = refl
  find_by_id-Below n ((i, b) ∷ c) h = ground (arith, find_by_id-Below n c h.1)

  pub find_by_id-insert_self :
      (n : ℕ) (a : A) (c : Collection A) → Below n c → find_by_id n (insert n a c) ≡ some a
  unfolding find_by_id insert
  find_by_id-insert_self n a [] h = ground arith
  find_by_id-insert_self n a ((i, b) ∷ c) h = ground (arith, find_by_id-insert_self n a c h.1)

  pub Below-insert : (n : ℕ) (a : A) (c : Collection A) → Below n c → Below (suc n) (insert n a c)
  unfolding insert
  Below-insert n a [] h = ground arith
  Below-insert n a ((i, b) ∷ c) h = (omega arith, Below-insert n a c h.1)

  pub Below-update :
      (n k : ℕ) (f : A → A) (c : Collection A) → Below n c → Below n (update_by_id k f c)
  unfolding update_by_id
  Below-update n k f [] h = tt
  Below-update n k f ((i, b) ∷ c) h = ground (arith, Below-update n k f c h.1)

  pub exists-insert :
      (p : A → Bool) (n : ℕ) (a : A) (c : Collection A)
      → exists p (insert n a c) ≡ (if p a then true else exists p c)
  unfolding exists insert
  exists-insert p n a [] = ground arith
  exists-insert p n a ((i, b) ∷ c) = ground (arith, exists-insert p n a c)

  pub length-insert : (n : ℕ) (a : A) (c : Collection A) → length (insert n a c) ≡ length c + 1
  unfolding insert
  length-insert n a c = omega (arith, length-append c ((n, a) ∷ []))

  pub length-update_by_id :
      (k : ℕ) (f : A → A) (c : Collection A) → length (update_by_id k f c) ≡ length c
  unfolding update_by_id
  length-update_by_id k f [] = refl
  length-update_by_id k f ((i, b) ∷ c) = ground (arith, length-update_by_id k f c)

  -- What `findOne` returns satisfies the query.
  pub find_one_sound :
      (p : A → Bool) (c : Collection A) (k : ℕ) (a : A) → find_one p c ≡ some (k, a) → p a ≡ true
  unfolding find_one
  find_one_sound p [] k a h = ground arith
  find_one_sound p ((i, b) ∷ c) k a h = ground (arith, find_one_sound p c k a)

  pub find_one-exists : (p : A → Bool) (c : Collection A) → find_one p c ≡ none → exists p c ≡ false
  unfolding find_one exists
  find_one-exists p [] h = refl
  find_one-exists p ((i, b) ∷ c) h = ground (arith, find_one-exists p c)

  is_some-update :
      (k j : ℕ) (f : A → A) (c : Collection A)
      → is_some (find_by_id k (update_by_id j f c)) ≡ is_some (find_by_id k c)
  is_some-update k j f c = ground (arith, find_by_id-update k j f c)

  pub Unique-update :
      (k : ℕ) (f : A → A) (c : Collection A) → Unique c → Unique (update_by_id k f c)
  unfolding update_by_id
  Unique-update k f [] h = tt
  Unique-update k f ((i, b) ∷ c) h = ground (arith, Unique-update k f c h.1, is_some-update i k f c)

  -- An update keeps what holds of every document, if it keeps it of the document that it changes.
  pub Every-update {κ} :
      (P : A → Type κ) (j : ℕ) (f : A → A) (c : Collection A)
      → Every P c
      → ((a : A) → find_by_id j c ≡ some a → P (f a))
      → Every P (update_by_id j f c)
  Every-update P j f c h step k a e = elim (Bool-cases (j == k)) [
    | inl same ↦ updated k a e (find_by_id k c) refl same
    | inr other ↦ h k a (rw (find_by_id-update k j f c, other) at e)
  ]
    where
      updated :
          (k : ℕ) (a : A)
          → find_by_id k (update_by_id j f c) ≡ some a
          → (o : Option A) → find_by_id k c ≡ o
          → (j == k) ≡ true
          → P a
      updated k a e none g same = cc (rw (find_by_id-update k j f c, same, g) at e)
      updated k a e (some b) g same =
          let found : some (f b) ≡ some a = rw (find_by_id-update k j f c, same, g) at e in
          let value : f b ≡ a = cc in subst P value (step b (rw ((==_iff j k).0 same) g))

  pub update-update :
      (k : ℕ) (f g : A → A) (c : Collection A)
      → update_by_id k g (update_by_id k f c) ≡ update_by_id k (λ a. g (f a)) c
  unfolding update_by_id
  update-update k f g [] = refl
  update-update k f g ((i, b) ∷ c) = elim (Bool-cases (i == k)) [
    | inl same ↦ rw same (rw same refl)
    | inr other ↦ rw other (rw other (ap (λ c. (i, b) ∷ c) (update-update k f g c)))
  ]

  -- What a lookup finds under the updated identifier is what was there, updated.
  pub find_by_id-updated :
      (k : ℕ) (f : A → A) (c : Collection A) (b : A)
      → find_by_id k (update_by_id k f c) ≡ some b
      → (a : A) × (find_by_id k c ≡ some a) × (f a ≡ b)
  find_by_id-updated k f c b h = elim (Option-cases (find_by_id k c)) [
    | inl q ↦ cc (rw (find_by_id-update k k f c, ==_refl k, q) at h)
    | inr (a, q) ↦ (
      a,
      q,
      let e : some (f a) ≡ some b = rw (find_by_id-update k k f c, ==_refl k, q) at h in cc,
    )
  ]

  find_one-is_some :
      (p : A → Bool) (c : Collection A) (k : ℕ) (a : A)
      → find_one p c ≡ some (k, a)
      → is_some (find_by_id k c) ≡ true
  unfolding find_one find_by_id
  find_one-is_some p [] k a h = cc
  find_one-is_some p ((i, b) ∷ c) k a h = ground (arith, find_one-is_some p c k a)

  -- A query finds the updated document again, if the update does not change what it asks for.
  pub find_one-update :
      (p : A → Bool) (f : A → A) (c : Collection A) (k : ℕ) (a : A)
      → ((b : A) → p (f b) ≡ p b)
      → Unique c
      → find_one p c ≡ some (k, a)
      → find_one p (update_by_id k f c) ≡ some (k, f a)
  unfolding find_one update_by_id
  find_one-update p f [] k a same u h = cc
  find_one-update p f ((i, b) ∷ c) k a same u h = elim (Bool-cases (p b)) [
    | inl here ↦
        let first : i ≡ k = cc (rw here at h) in
        let doc : b ≡ a = cc (rw here at h) in
        rw (first, ==_refl k) (rw (same b) (rw here (rw doc refl)))
    | inr there ↦
        let e : find_one p c ≡ some (k, a) = rw there at h in
        let fresh : (i == k) ≡ false = ground (arith, u.0, find_one-is_some p c k a e) in
        rw fresh (rw there (find_one-update p f c k a same u.1 e))
  ]

  pub Every-cons {κ} :
      (P : A → Type κ) (j : ℕ) (a : A) (c : Collection A) → P a → Every P c → Every P ((j, a) ∷ c)
  unfolding find_by_id
  Every-cons P j a c here there k b e = elim (Bool-cases (j == k)) [
    | inl same ↦ subst P (cc (rw same at e)) here
    | inr other ↦ there k b (rw other at e)
  ]

  pub Every-nil {κ} : (P : A → Type κ) → Every P []
  unfolding find_by_id
  Every-nil P k b e = cc

  -- Where a query finds nothing, no document satisfies it.
  pub exists-false :
      (p : A → Bool) (c : Collection A) (k : ℕ) (a : A)
      → exists p c ≡ false
      → find_by_id k c ≡ some a
      → p a ≡ false
  unfolding exists find_by_id
  exists-false p [] k a h q = cc
  exists-false p ((i, b) ∷ c) k a h q = ground (arith, exists-false p c k a)
