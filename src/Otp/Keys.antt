-- ===== src/Otp/Keys.antt =====
-- Which codes the operations of backend/src/services/otp.service.ts leave in Redis.
use hop_drop.Common.{
  ◌⊎◌, Error, ok, err, sym, ap, ◌∙◌, ==_iff, ◌+◌, ◌≡◌, refl, inl, inr, Bool, true, false, some,
  List, [], ◌∷◌, arith, ltb, Bool-cases, Option-cases, is_some, Result, ℕ,
}
use mathlib.Core.Bool.{false≢true}
use mathlib.Core.Path.{subst}
use hop_drop.Store.{phone, pickup, delivery, Store, OtpKey, OtpEntry}
use hop_drop.Otp.Tries.{get_otp-del}
use hop_drop.Otp.{new_entry, del_otp, set_otp, verify_otp, Bcrypt, get_otp, same_key}

-- Whether there is a live code for the key.
unfoldable pub has_otp : ℕ → OtpKey → List (OtpKey × OtpEntry) → Bool
has_otp now key es = is_some (get_otp now key es)

same_key_sound : (a b : OtpKey) → same_key a b ≡ true → a ≡ b
same_key_sound (phone a) (phone b) h = ap phone ((==_iff a b).0 h)
same_key_sound (phone a) (pickup b) h = cc
same_key_sound (phone a) (delivery b) h = cc
same_key_sound (pickup a) (phone b) h = cc
same_key_sound (pickup a) (pickup b) h = ap pickup ((==_iff a b).0 h)
same_key_sound (pickup a) (delivery b) h = cc
same_key_sound (delivery a) (phone b) h = cc
same_key_sound (delivery a) (pickup b) h = cc
same_key_sound (delivery a) (delivery b) h = ap delivery ((==_iff a b).0 h)

pub has_otp-set_other :
    (now : ℕ) (key k : OtpKey) (e : OtpEntry) (es : List (OtpKey × OtpEntry))
    → same_key key k ≡ false
    → has_otp now k (set_otp key e es) ≡ has_otp now k es
unfolding has_otp get_otp set_otp
has_otp-set_other now key k e [] n = rw n
has_otp-set_other now key k e ((j, f) ∷ es) n = elim (Bool-cases (same_key j key)) [
  | inl same ↦
      let there : same_key j k ≡ false =
        subst (λ x. same_key x k ≡ false) (sym (same_key_sound j key same)) n in
      rw same (rw (n, there) refl)
  | inr other ↦ elim (Bool-cases (same_key j k)) [
    | inl here ↦ rw other (rw here refl)
    | inr there ↦ rw other (rw there (has_otp-set_other now key k e es n))
  ]
]

has_otp-del_self :
    (now : ℕ) (key : OtpKey) (es : List (OtpKey × OtpEntry))
    → has_otp now key (del_otp key es) ≡ false
unfolding has_otp
has_otp-del_self now key es = ap is_some (get_otp-del now key es)

has_otp-del_ne :
    (now : ℕ) (key k : OtpKey) (es : List (OtpKey × OtpEntry))
    → same_key key k ≡ false
    → has_otp now k (del_otp key es) ≡ has_otp now k es
unfolding has_otp get_otp del_otp
has_otp-del_ne now key k [] n = refl
has_otp-del_ne now key k ((j, f) ∷ es) n = elim (Bool-cases (same_key j key)) [
  | inl same ↦
      let there : same_key j k ≡ false =
        subst (λ x. same_key x k ≡ false) (sym (same_key_sound j key same)) n in
      rw same (rw there (has_otp-del_ne now key k es n))
  | inr other ↦ elim (Bool-cases (same_key j k)) [
    | inl here ↦ rw other (rw here refl)
    | inr there ↦ rw other (rw there (has_otp-del_ne now key k es n))
  ]
]

has_otp-del_other :
    (now : ℕ) (key k : OtpKey) (es : List (OtpKey × OtpEntry))
    → has_otp now k (del_otp key es) ≡ true
    → has_otp now k es ≡ true
has_otp-del_other now key k es h = elim (Bool-cases (same_key key k)) [
  | inl same ↦ absurd (false≢true (sym (gone same) ∙ h))
  | inr other ↦ sym (has_otp-del_ne now key k es other) ∙ h
]
  where
    gone : same_key key k ≡ true → has_otp now k (del_otp key es) ≡ false
    gone same =
        subst (λ x. has_otp now x (del_otp key es) ≡ false) (same_key_sound key k same)
          (has_otp-del_self now key es)

pub has_otp-later :
    (now wait : ℕ) (key : OtpKey) (es : List (OtpKey × OtpEntry))
    → has_otp (now + wait) key es ≡ true
    → has_otp now key es ≡ true
unfolding has_otp get_otp
has_otp-later now wait key [] h = h
has_otp-later now wait key ((k, f) ∷ es) h = ground (arith, has_otp-later now wait key es)

module _ (bcrypt : Bcrypt) (key : OtpKey) (input : List ℕ) where
  -- A check of a code leaves no code that was not there, and touches nothing else.
  abbrev pub Checked : Store → Result Bool × Store → Type 0
  Checked s r =
      (os : List (OtpKey × OtpEntry)) × (r.1 ≡ record s { otps = os })
      × ((k : OtpKey) → has_otp s.now k os ≡ true → has_otp s.now k s.otps ≡ true)

  recount :
      (s : Store) (e f : OtpEntry) (k : OtpKey)
      → get_otp s.now key s.otps ≡ some e
      → has_otp s.now k (set_otp key f s.otps) ≡ true
      → has_otp s.now k s.otps ≡ true
  unfolding has_otp
  recount s e f k found h = elim (Bool-cases (same_key key k)) [
    | inl same ↦ subst (λ x. has_otp s.now x s.otps ≡ true) (same_key_sound key k same) here
    | inr other ↦ sym (has_otp-set_other s.now key k f s.otps other) ∙ h
  ]
    where
      here : has_otp s.now key s.otps ≡ true
      here = ap is_some found

  pub verify_otp-Checked : (s : Store) → Checked s (verify_otp bcrypt key input s)
  unfolding verify_otp
  verify_otp-Checked s = elim (Option-cases (get_otp s.now key s.otps)) [
    | inl q ↦ rw (q, verify_otp) (s.otps, refl, λ k h. h)
    | inr (e, q) ↦ elim (Bool-cases (ltb e.attempts 3)) [
      | inr spent ↦ rw (q, verify_otp) (rw spent (s.otps, refl, λ k h. h))
      | inl under ↦
          let f = new_entry s.now e.hash (e.attempts + 1) in
          elim (Bool-cases (bcrypt.compare input e.hash)) [
            | inl right ↦
                rw (q, verify_otp)
                  (rw under (
                    rw right (
                      _,
                      refl,
                      λ k h.
                          recount s e f k q
                            (has_otp-del_other s.now key k (set_otp key f s.otps) h),
                    )))
            | inr wrong ↦
                rw (q, verify_otp) (rw under (rw wrong (_, refl, λ k h. recount s e f k q h)))
          ]
    ]
  ]

  -- The check throws or answers, in either case with the codes it leaves.
  pub Checked-cases :
      (s : Store) (r : Result Bool × Store) (c : Checked s r)
      → ((e : Error) × (r ≡ (err e, record s { otps = c.0 })))
        ⊎ ((a : Bool) × (r ≡ (ok a, record s { otps = c.0 })))
  Checked-cases s (err e, s') c = inl (e, ap (λ x. (err e, x)) c.1)
  Checked-cases s (ok a, s') c = inr (a, ap (λ x. (ok a, x)) c.1)

  -- A code is accepted only where there is one.
  pub verify_otp-ok :
      (s s' : Store) (a : Bool)
      → verify_otp bcrypt key input s ≡ (ok a, s')
      → has_otp s.now key s.otps ≡ true
  unfolding verify_otp has_otp
  verify_otp-ok s s' a h = elim (Option-cases (get_otp s.now key s.otps)) [
    | inl q ↦ cc (rw (q, verify_otp) at h)
    | inr (e, q) ↦ ap is_some q
  ]
