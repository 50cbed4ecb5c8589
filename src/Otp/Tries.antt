-- ===== src/Otp/Tries.antt =====
-- How many guesses a code of backend/src/services/otp.service.ts stands, and that it serves once.
use hop_drop.Common.{
  api, ◌<◌, any, suc, zero, ◌≢◌, lt→ltb, ℕ, ◌+◌, ◌≤◌, ◌≡◌, refl, Bool, true, false, none, some,
  List, [], ◌∷◌, inl, inr, arith, ltb, ==_refl, Bool-cases, Option-cases, Result, ok, err,
  if◌then◌else◌,
}
use hop_drop.Otp.{
  generate_otp, new_entry, random_otp, Bcrypt, same_key, get_otp, set_otp, del_otp, verify_otp,
}
use hop_drop.Store.{Store, OtpKey, phone, pickup, delivery, OtpEntry}

same_key_refl : (k : OtpKey) → same_key k k ≡ true
same_key_refl (phone a) = ==_refl a
same_key_refl (pickup a) = ==_refl a
same_key_refl (delivery a) = ==_refl a

pub get_otp-set :
    (now : ℕ) (key : OtpKey) (e : OtpEntry) (es : List (OtpKey × OtpEntry))
    → get_otp now key (set_otp key e es) ≡ (if ltb now e.expires_at then some e else none)
unfolding get_otp set_otp
get_otp-set now key e [] = rw (same_key_refl key)
get_otp-set now key e ((k, f) ∷ es) = elim (Bool-cases (same_key k key)) [
  | inl same ↦ rw (same, same_key_refl key)
  | inr other ↦ rw (other, other) (get_otp-set now key e es)
]

pub get_otp-del :
    (now : ℕ) (key : OtpKey) (es : List (OtpKey × OtpEntry))
    → get_otp now key (del_otp key es) ≡ none
unfolding get_otp del_otp
get_otp-del now key [] = refl
get_otp-del now key ((k, f) ∷ es) = elim (Bool-cases (same_key k key)) [
  | inl same ↦ rw same (get_otp-del now key es)
  | inr other ↦ rw (other, other) (get_otp-del now key es)
]

-- An entry that is there later is there now.
get_otp-later :
    (now wait : ℕ) (key : OtpKey) (es : List (OtpKey × OtpEntry)) (e : OtpEntry)
    → get_otp (now + wait) key es ≡ some e
    → get_otp now key es ≡ some e
unfolding get_otp
get_otp-later now wait key [] e h = cc
get_otp-later now wait key ((k, f) ∷ es) e h = elim (Bool-cases (same_key k key)) [
  | inl same ↦ ground arith
  | inr other ↦ rw other (get_otp-later now wait key es e (rw other at h))
]

abbrev is_ok : {A : Type 0} → Result A → Bool
is_ok (ok a) = true
is_ok (err e) = false

-- Somebody waits, and then sends a text.
pub record Guess : Type 0 where
  pub wait : ℕ
  pub input : List ℕ

module _ (bcrypt : Bcrypt) (key : OtpKey) where
  abbrev pub later : ℕ → Store → Store
  later wait s = record s { now = s.now + wait }

  -- Which of the guesses, one after the other, are accepted.
  pub run_guesses : List Guess → Store → List Bool
  run_guesses [] s = []
  run_guesses (g ∷ gs) s =
      let (r, s') = verify_otp bcrypt key g.input (later g.wait s) in is_ok r ∷ run_guesses gs s'

  -- The code at hand, if there is one, stands at most `tries` more guesses.
  abbrev pub Budget : ℕ → Store → Type 0
  Budget tries s = (e : OtpEntry) → get_otp s.now key s.otps ≡ some e → 3 ≤ e.attempts + tries

  Budget-later : (tries wait : ℕ) (s : Store) → Budget tries s → Budget tries (later wait s)
  Budget-later tries wait s h e f = h e (get_otp-later s.now wait key s.otps e f)

  verify_otp-spent :
      (input : List ℕ) (s : Store)
      → Budget 0 s
      → let (r, s') = verify_otp bcrypt key input s in (is_ok r ≡ false) × Budget 0 s'
  unfolding verify_otp
  verify_otp-spent input s h = elim (Option-cases (get_otp s.now key s.otps)) [
    | inl q ↦ rw (q, verify_otp) (refl, h)
    | inr (e, q) ↦ elim (Bool-cases (ltb e.attempts 3)) [
      | inl under ↦ absurd (ground (arith, h e q))
      | inr spent ↦ rw (q, verify_otp) (rw spent (refl, h))
    ]
  ]

  verify_otp-Budget :
      (input : List ℕ) (tries : ℕ) (s : Store)
      → Budget (suc tries) s
      → Budget tries (verify_otp bcrypt key input s).1
  unfolding verify_otp
  verify_otp-Budget input tries s h = elim (Option-cases (get_otp s.now key s.otps)) [
    | inl q ↦ rw (q, verify_otp) (λ e f. ground arith)
    | inr (e, q) ↦ elim (Bool-cases (ltb e.attempts 3)) [
      | inr spent ↦ rw (q, verify_otp) (rw spent (λ e' f. ground arith))
      | inl under ↦ elim (Bool-cases (bcrypt.compare input e.hash)) [
        | inl right ↦
            rw (q, verify_otp)
              (rw under (rw right (λ e' f. ground (arith, get_otp-del s.now key (counted e)))))
        | inr wrong ↦
            rw (q, verify_otp)
              (rw under (
                rw wrong (λ e' f. ground (
                  arith,
                  h e q,
                  get_otp-set s.now key (new_entry s.now e.hash (e.attempts + 1)) s.otps,
                ))))
      ]
    ]
  ]
    where
      counted : OtpEntry → List (OtpKey × OtpEntry)
      counted e = set_otp key (new_entry s.now e.hash (e.attempts + 1)) s.otps

  -- Guesses number `n + 1` and later.
  abbrev pub after : ℕ → List Bool → List Bool
  after zero bs = bs
  after (suc n) [] = []
  after (suc n) (b ∷ bs) = after n bs

  run_guesses-Budget :
      (tries : ℕ) (gs : List Guess) (s : Store)
      → Budget tries s
      → any (λ b. b) (after tries (run_guesses gs s)) ≡ false
  unfolding run_guesses
  run_guesses-Budget zero [] s h = refl
  run_guesses-Budget (suc tries) [] s h = refl
  run_guesses-Budget zero (g ∷ gs) s h =
      let spent = verify_otp-spent g.input (later g.wait s) (Budget-later 0 g.wait s h) in
      rw (spent.0)
        (run_guesses-Budget zero gs (verify_otp bcrypt key g.input (later g.wait s)).1 spent.1)
  run_guesses-Budget (suc tries) (g ∷ gs) s h =
      run_guesses-Budget tries gs (verify_otp bcrypt key g.input (later g.wait s)).1
        (verify_otp-Budget g.input tries (later g.wait s) (Budget-later (suc tries) g.wait s h))

  generate_otp-Budget :
      (draw salt : ℕ) (s : Store) → Budget 3 (generate_otp bcrypt key draw salt s).1
  unfolding generate_otp
  generate_otp-Budget draw salt s e f = omega arith

  -- Once a code is generated, no guess after the third is accepted, whatever is sent and however
  -- long anybody waits between two guesses, until a code is generated again.
  pub guesses_bounded :
      (draw salt : ℕ) (gs : List Guess) (s : Store)
      → any (λ b. b) (after 3 (run_guesses gs (generate_otp bcrypt key draw salt s).1)) ≡ false
  guesses_bounded draw salt gs s =
      run_guesses-Budget 3 gs (generate_otp bcrypt key draw salt s).1
        (generate_otp-Budget draw salt s)

  verify_otp-right :
      (input : List ℕ) (s : Store) (e : OtpEntry)
      → get_otp s.now key s.otps ≡ some e
      → ltb e.attempts 3 ≡ true
      → bcrypt.compare input e.hash ≡ true
      → verify_otp bcrypt key input s ≡ (
        ok true,
        record s {
          otps = del_otp key (set_otp key (new_entry s.now e.hash (e.attempts + 1)) s.otps);
        },
      )
  unfolding verify_otp
  verify_otp-right input s e found under right = rw (found, verify_otp) (rw under (rw right refl))

  verify_otp-missing :
      (input : List ℕ) (s : Store)
      → get_otp s.now key s.otps ≡ none
      → (verify_otp bcrypt key input s).0 ≡ err (api 400 "OTP expired or not found")
  unfolding verify_otp
  verify_otp-missing input s missing = rw (missing, verify_otp) refl

  -- A code that is sent back within ten minutes is accepted, and the same code is refused when it
  -- is sent again.
  pub verify-generate :
      (draw salt wait again : ℕ) (s : Store)
      → wait < 600000
      → let s1 = later wait (generate_otp bcrypt key draw salt s).1 in
        let (r, s2) = verify_otp bcrypt key (random_otp draw) s1 in
        (r ≡ ok true)
        × ((verify_otp bcrypt key (random_otp draw) (later again s2)).0
            ≡ err (api 400 "OTP expired or not found"))
  unfolding generate_otp
  verify-generate draw salt wait again s h =
      let otp = random_otp draw in
      let e = new_entry s.now (bcrypt.hash salt otp) 0 in
      let s1 = later wait (record s { otps = set_otp key e s.otps }) in
      let found : get_otp s1.now key s1.otps ≡ some e =
        ground (arith, get_otp-set s1.now key e s.otps) in
      rw (verify_otp-right otp s1 e found refl (bcrypt.accepts_own salt otp)) (
        refl,
        verify_otp-missing otp _
            (get_otp-del (s1.now + again) key (set_otp key (new_entry s1.now e.hash 1) s1.otps)),
      )

  -- A text other than the code is refused, and costs one try.
  pub verify_otp-wrong :
      (draw salt : ℕ) (input : List ℕ) (s : Store) (e : OtpEntry)
      → get_otp s.now key s.otps ≡ some e
      → e.hash ≡ bcrypt.hash salt (random_otp draw)
      → input ≢ random_otp draw
      → e.attempts < 3
      → let (r, s') = verify_otp bcrypt key input s in
        (r ≡ err (api 400 "Invalid OTP"))
        × (get_otp s'.now key s'.otps ≡ some (new_entry s.now e.hash (e.attempts + 1)))
  unfolding verify_otp
  verify_otp-wrong draw salt input s e found made wrong under =
      elim (Bool-cases (bcrypt.compare input e.hash)) [
        | inl right ↦
            absurd (wrong (bcrypt.rejects_other salt input (random_otp draw) (rw made at right)))
        | inr refused ↦
            rw (found, verify_otp)
              (rw (lt→ltb e.attempts 3 under) (
                rw refused (
                  refl,
                  ground (
                    arith,
                    get_otp-set s.now key (new_entry s.now e.hash (e.attempts + 1)) s.otps,
                  ),
                )))
      ]
