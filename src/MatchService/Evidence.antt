-- ===== src/MatchService/Evidence.antt =====
-- What a match of backend/src/services/match.service.ts has behind it: a picked-up package has a
-- verified pickup code, a delivered one also a verified delivery code.
pub mod Calls
pub mod Rated
pub mod Delivered
pub mod Handed
use hop_drop.Collection.Laws.{find_by_id-updated, find_by_id-update}
use hop_drop.Common.{
  sym, ◌≡◌, ◌≢◌, inl, inr, Bool, true, false, not, ◌&&◌, ◌||◌, some, List, arith, ◌==◌, ==_iff,
  Bool-cases, is_some, ℕ,
}
use mathlib.Core.Path.{subst}
use hop_drop.Model.Match.{delivery_pending, in_transit, delivered, picked_up, Match, MatchStatus}
use hop_drop.Collection.{update_by_id, find_by_id, Collection}
use hop_drop.MatchService.Confirm.{has_status}
use hop_drop.Store.{OtpEntry, Store, OtpKey, delivery}
use hop_drop.Otp.Keys.{has_otp}

-- The package is with the carrier or the recipient.
unfoldable pub is_handed_over : MatchStatus → Bool
is_handed_over status =
    has_status status picked_up
    || has_status status in_transit
    || has_status status delivery_pending
    || has_status status delivered

abbrev pub pickup_proven : Match → Bool
pickup_proven m = is_some m.pickup_otp.verified_at

abbrev pub delivery_proven : Match → Bool
delivery_proven m = is_some m.delivery_otp.verified_at

-- What a match has behind it; `coded` says that there is a delivery code for it.
unfoldable pub is_documented : Bool → Match → Bool
is_documented coded m =
    (not (is_handed_over m.status || coded) || pickup_proven m)
    && (not (has_status m.status delivered) || delivery_proven m)

unfoldable pub IsDocumented : ℕ → Collection Match → List (OtpKey × OtpEntry) → Type 0
IsDocumented now ms os =
    (k : ℕ) (m : Match)
    → find_by_id k ms ≡ some m
    → is_documented (has_otp now (delivery k) os) m ≡ true

abbrev pub Documented : Store → Type 0
Documented s = IsDocumented s.now s.matches s.otps

pub is_documented-fewer :
    (b c : Bool) (m : Match)
    → (c ≡ true → b ≡ true)
    → is_documented b m ≡ true
    → is_documented c m ≡ true
unfolding is_documented
is_documented-fewer b c m h = ground arith

pub IsDocumented-codes :
    (now : ℕ) (ms : Collection Match) (os os' : List (OtpKey × OtpEntry))
    → ((k : ℕ) → has_otp now (delivery k) os' ≡ true → has_otp now (delivery k) os ≡ true)
    → IsDocumented now ms os
    → IsDocumented now ms os'
unfolding IsDocumented
IsDocumented-codes now ms os os' fewer h k m found =
    is_documented-fewer (has_otp now (delivery k) os) (has_otp now (delivery k) os') m (fewer k)
      (h k m found)

pub IsDocumented-update :
    (now k : ℕ) (g : Match → Match) (ms : Collection Match) (os os' : List (OtpKey × OtpEntry))
    → ((j : ℕ) → k ≢ j → has_otp now (delivery j) os' ≡ true → has_otp now (delivery j) os ≡ true)
    → ((m : Match)
        → find_by_id k ms ≡ some m
        → is_documented (has_otp now (delivery k) os) m ≡ true
        → is_documented (has_otp now (delivery k) os') (g m) ≡ true)
    → IsDocumented now ms os
    → IsDocumented now (update_by_id k g ms) os'
unfolding IsDocumented
IsDocumented-update now k g ms os os' fewer step h j m found = elim (Bool-cases (k == j)) [
  | inl same ↦ here ((==_iff k j).0 same)
  | inr other ↦
      is_documented-fewer (has_otp now (delivery j) os) (has_otp now (delivery j) os') m
        (fewer j (ne other)) (h j m (rw (find_by_id-update j k g ms, other) at found))
]
  where
    ne : (k == j) ≡ false → k ≢ j
    ne other e = ground arith

    here : k ≡ j → is_documented (has_otp now (delivery j) os') m ≡ true
    here e =
        let (b, q, value) =
          find_by_id-updated k g ms m
            (subst (λ x. find_by_id x (update_by_id k g ms) ≡ some m) (sym e) found) in
        subst (λ x. is_documented (has_otp now (delivery x) os') m ≡ true) e
          (subst (λ b. is_documented (has_otp now (delivery k) os') b ≡ true) value
            (step b q (h k b q)))
