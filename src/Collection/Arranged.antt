-- ===== src/Collection/Arranged.antt =====
-- Sorted documents of a query: where no two have the same place in the order, the result does not
-- depend on how the database comes upon them.
use hop_drop.Common.{
  ℕ, refl, sym, ◌∙◌, inl, inr, Bool, true, false, [], ◌∷◌, arith, Bool-cases, All, ◌≡◌,
}
use mathlib.Core.Path.{subst, ap₂}
use mathlib.Core.List.{Permᴰ}
use hop_drop.Collection.Sorting.{insert_by, sort_by}
use hop_drop.Collection.{Collection}

module _ {ℓ} {A : Type ℓ} (comes_first : A → A → Bool)
    (total : (a b : A) → comes_first a b ≡ false → comes_first b a ≡ true)
    (transitive : (a b c : A)
      → comes_first a b ≡ true
      → comes_first b c ≡ true
      → comes_first a c ≡ true) where
  insert_swap :
      (x y : ℕ × A) (c : Collection A)
      → comes_first x.1 y.1 ≡ true
      → comes_first y.1 x.1 ≡ false
      → insert_by comes_first x (insert_by comes_first y c)
        ≡ insert_by comes_first y (insert_by comes_first x c)
  unfolding insert_by
  insert_swap x y [] xy yx = rw (xy, yx) refl
  insert_swap x y (z ∷ c) xy yx = elim (Bool-cases (comes_first y.1 z.1)) [
    | inl yz ↦ let xz = transitive x.1 y.1 z.1 xy yz in ground (arith, xz, yz, xy, yx)
    | inr zy ↦ elim (Bool-cases (comes_first x.1 z.1)) [
      | inl xz ↦ ground (arith, xz, zy, xy, yx)
      | inr zx ↦ ground (arith, zx, zy, insert_swap x y c xy yx)
    ]
  ]

  module _ {κ} (P : ℕ × A → Type κ)
      (no_ties : (x y : ℕ × A)
        → P x
        → P y
        → comes_first x.1 y.1 ≡ true
        → comes_first y.1 x.1 ≡ true
        → x ≡ y) where
    insert_comm :
        (x y : ℕ × A) (c : Collection A)
        → P x
        → P y
        → insert_by comes_first x (insert_by comes_first y c)
          ≡ insert_by comes_first y (insert_by comes_first x c)
    insert_comm x y c px py = elim (Bool-cases (comes_first x.1 y.1)) [
      | inl xy ↦ elim (Bool-cases (comes_first y.1 x.1)) [
        | inl yx ↦
            let same = no_ties x y px py xy yx in
            subst
              (λ z.
                insert_by comes_first x (insert_by comes_first z c)
                ≡ insert_by comes_first z (insert_by comes_first x c))
              same refl
        | inr yx ↦ insert_swap x y c xy yx
      ]
      | inr xy ↦ sym (insert_swap y x c (total x.1 y.1 xy) xy)
    ]

    Perm-All : {c d : Collection A} → Permᴰ c d → All P c → All P d
    Perm-All Permᴰ.nil h = tt
    Perm-All (Permᴰ.cons e p) h = (subst P e h.0, Perm-All p h.1)
    Perm-All (Permᴰ.swap e f) h = (subst P f h.1.0, (subst P e h.0, h.1.1))
    Perm-All (Permᴰ.trans p q) h = Perm-All q (Perm-All p h)

    -- The sort of the documents does not depend on their arrangement.
    pub sort_by-Perm :
        {c d : Collection A} → Permᴰ c d → All P c → sort_by comes_first c ≡ sort_by comes_first d
    unfolding sort_by
    sort_by-Perm Permᴰ.nil h = refl
    sort_by-Perm (Permᴰ.cons e p) h = ap₂ (insert_by comes_first) e (sort_by-Perm p h.1)
    sort_by-Perm (Permᴰ.swap {a} {b} {l = l} e f) h =
        insert_comm a b (sort_by comes_first l) h.0 h.1.0
        ∙ ap₂ (λ x y. insert_by comes_first x (insert_by comes_first y (sort_by comes_first l))) f e
    sort_by-Perm (Permᴰ.trans p q) h = sort_by-Perm p h ∙ sort_by-Perm q (Perm-All p h)
