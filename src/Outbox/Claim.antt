-- ===== src/Outbox/Claim.antt =====
-- `claimOutboxBatch` of backend/src/services/outbox.service.ts: which events a batch takes.
use hop_drop.Common.{
  Bool-cases, ℕ, zero, suc, ◌≤◌, ◌≡◌, refl, Bool, true, false, none, some, List, [], ◌∷◌, inl, inr,
  arith, length, any, ◌==◌, ◌⊎◌, Option-cases, All, Option, ◌<◌,
}
use hop_drop.Model.OutboxEvent.{OutboxEvent, processing}
use hop_drop.Collection.{Collection, find_by_id, update_by_id, Unique, Every}
use mathlib.Core.Path.{subst}
use hop_drop.Collection.Laws.{
  find_by_id-update, find_by_id-update_self, Unique-update, Every-update,
}
use hop_drop.Outbox.{is_due, oldest_due, claim, claim_outbox_batch}

-- The event that `oldest_due` picks is the one stored under its identifier, and it is due.
pub oldest_due_sound :
    (now : ℕ) (c : Collection OutboxEvent) (k : ℕ) (e : OutboxEvent)
    → Unique c
    → oldest_due now c ≡ some (k, e)
    → (find_by_id k c ≡ some e) × (is_due now e ≡ true)
unfolding oldest_due find_by_id
oldest_due_sound now [] k e u h = cc
oldest_due_sound now ((j, a) ∷ c) k e u h = elim (Option-cases (oldest_due now c)) [
  | inl q ↦ ground arith
  | inr ((k', e'), q) ↦ ground (arith, oldest_due_sound now c k' e' u.1 q)
]

-- No event that is due was created before `t`.
abbrev pub NoneOlder : ℕ → ℕ → Collection OutboxEvent → Type 0
NoneOlder now t c = All (λ f. is_due now f.1 ≡ true → t ≤ f.1.created_at) c

NoneOlder-le :
    (now s t : ℕ) (c : Collection OutboxEvent) → s ≤ t → NoneOlder now t c → NoneOlder now s c
NoneOlder-le now s t [] le h = tt
NoneOlder-le now s t (x ∷ c) le h = (λ due. omega (arith, h.0 due), NoneOlder-le now s t c le h.1)

NoneOlder-none :
    (now t : ℕ) (c : Collection OutboxEvent) → oldest_due now c ≡ none → NoneOlder now t c
unfolding oldest_due
NoneOlder-none now t [] h = tt
NoneOlder-none now t ((j, a) ∷ c) h = (λ due. ground arith, NoneOlder-none now t c (ground arith))

oldest_due-NoneOlder :
    (now : ℕ) (c : Collection OutboxEvent) (k : ℕ) (e : OutboxEvent)
    → oldest_due now c ≡ some (k, e)
    → NoneOlder now e.created_at c
unfolding oldest_due
oldest_due-NoneOlder now [] k e h = tt
oldest_due-NoneOlder now ((j, a) ∷ c) k e h = elim (Option-cases (oldest_due now c)) [
  | inl q ↦ (ground arith, NoneOlder-none now e.created_at c q)
  | inr ((k', e'), q) ↦ (
    ground arith,
    NoneOlder-le now e.created_at e'.created_at c (ground arith)
        (oldest_due-NoneOlder now c k' e' q),
  )
]

NoneOlder-find :
    (now t : ℕ) (c : Collection OutboxEvent) (j : ℕ) (f : OutboxEvent)
    → NoneOlder now t c
    → find_by_id j c ≡ some f
    → is_due now f ≡ true
    → t ≤ f.created_at
unfolding find_by_id
NoneOlder-find now t [] j f h q due = cc
NoneOlder-find now t ((i, a) ∷ c) j f h q due = elim (Bool-cases (i == j)) [
  | inl here ↦
      let same : a ≡ f = cc (rw here at q) in
      subst (λ x. is_due now x ≡ true → t ≤ x.created_at) same h.0 due
  | inr there ↦ NoneOlder-find now t c j f h.1 (rw there at q) due
]

-- Events are claimed in the order of their creation: no event that is due was created before the
-- one that is picked next.
pub oldest_due_first :
    (now : ℕ) (c : Collection OutboxEvent) (k j : ℕ) (e f : OutboxEvent)
    → oldest_due now c ≡ some (k, e)
    → find_by_id j c ≡ some f
    → is_due now f ≡ true
    → e.created_at ≤ f.created_at
oldest_due_first now c k j e f picked q due =
    NoneOlder-find now e.created_at c j f (oldest_due-NoneOlder now c k e picked) q due

-- Nothing is picked only when nothing is due.
pub oldest_due-none :
    (now : ℕ) (c : Collection OutboxEvent)
    → oldest_due now c ≡ none
    → Every (λ e. is_due now e ≡ false) c
unfolding oldest_due find_by_id
oldest_due-none now [] h k e f = cc
oldest_due-none now ((j, a) ∷ c) h k e f =
    ground (arith, λ (q : oldest_due now c ≡ none). oldest_due-none now c q k e)

-- Whether an identifier is in a claimed batch.
abbrev pub listed : ℕ → List (ℕ × OutboxEvent) → Bool
listed k l = any (λ x. x.0 == k) l

-- A batch holds at most `limit` events.
pub length-claim :
    (limit now : ℕ) (c : Collection OutboxEvent) → length (claim_outbox_batch limit now c).0 ≤ limit
unfolding claim_outbox_batch
length-claim zero now c = omega arith
length-claim (suc limit) now c = elim (Option-cases (oldest_due now c)) [
  | inl q ↦ rw (q, claim_outbox_batch) (omega arith)
  | inr ((k, e), q) ↦
      rw (q, claim_outbox_batch) (omega (arith, length-claim limit now (update_by_id k claim c)))
]

-- A claimed event is taken: it is no longer due.
claim-is_due : (now : ℕ) (e : OutboxEvent) → is_due now (claim e) ≡ false
unfolding is_due claim
claim-is_due now e = refl

pub claim-Unique :
    (limit now : ℕ) (c : Collection OutboxEvent)
    → Unique c
    → Unique (claim_outbox_batch limit now c).1
unfolding claim_outbox_batch
claim-Unique zero now c u = u
claim-Unique (suc limit) now c u = elim (Option-cases (oldest_due now c)) [
  | inl q ↦ rw (q, claim_outbox_batch) u
  | inr ((k, e), q) ↦
      rw (q, claim_outbox_batch)
        (claim-Unique limit now (update_by_id k claim c) (Unique-update k claim c u))
]

-- An event that is not due is left as it is.
pub claim-not_due :
    (limit now : ℕ) (c : Collection OutboxEvent) (k : ℕ) (e : OutboxEvent)
    → Unique c
    → find_by_id k c ≡ some e
    → is_due now e ≡ false
    → find_by_id k (claim_outbox_batch limit now c).1 ≡ some e
unfolding claim_outbox_batch
claim-not_due zero now c k e u f d = f
claim-not_due (suc limit) now c k e u f d = elim (Option-cases (oldest_due now c)) [
  | inl q ↦ rw (q, claim_outbox_batch) f
  | inr ((j, a), q) ↦
      rw (q, claim_outbox_batch)
        (claim-not_due limit now (update_by_id j claim c) k e (Unique-update j claim c u)
          (ground (arith, oldest_due_sound now c j a u q, find_by_id-update k j claim c)) d)
]

-- Every claimed event is stored as the batch holds it.
pub claim-stored :
    (limit now : ℕ) (c : Collection OutboxEvent)
    → Unique c
    → let (claimed, c') = claim_outbox_batch limit now c in
      All (λ x. (find_by_id x.0 c' ≡ some x.1) × (x.1.status ≡ processing)) claimed
unfolding claim_outbox_batch claim
claim-stored zero now c u = tt
claim-stored (suc limit) now c u = elim (Option-cases (oldest_due now c)) [
  | inl q ↦ rw (q, claim_outbox_batch) tt
  | inr ((j, a), q) ↦
      let u' = Unique-update j claim c u in
      rw (q, claim_outbox_batch)
        (
          (
            claim-not_due limit now (update_by_id j claim c) j (claim a) u'
                (find_by_id-update_self j claim c (oldest_due_sound now c j a u q).0)
                (claim-is_due now a),
            refl,
          ),
          claim-stored limit now (update_by_id j claim c) u',
        )
]

-- An event that is being processed after a claim was claimed, or was so before.
pub claim-processing :
    (limit now : ℕ) (c : Collection OutboxEvent) (k : ℕ) (e : OutboxEvent)
    → let (claimed, c') = claim_outbox_batch limit now c in
      find_by_id k c' ≡ some e
      → e.status ≡ processing
      → (listed k claimed ≡ true) ⊎ (find_by_id k c ≡ some e)
unfolding claim_outbox_batch
claim-processing zero now c k e = λ f p. inr f
claim-processing (suc limit) now c k e = elim (Option-cases (oldest_due now c)) [
  | inl q ↦ rw (q, claim_outbox_batch) (λ f p. inr f)
  | inr ((j, a), q) ↦
      rw (q, claim_outbox_batch)
        (λ f p. ground (
          arith,
          claim-processing limit now (update_by_id j claim c) k e f p,
          find_by_id-update k j claim c,
        ))
]

-- What holds of every event, and of a due event once it is claimed, holds after the claim.
pub claim-Every {κ} :
    (P : OutboxEvent → Type κ) (limit now : ℕ) (c : Collection OutboxEvent)
    → Unique c
    → Every P c
    → ((e : OutboxEvent) → is_due now e ≡ true → P e → P (claim e))
    → Every P (claim_outbox_batch limit now c).1
unfolding claim_outbox_batch
claim-Every P zero now c u h step = h
claim-Every P (suc limit) now c u h step = elim (Option-cases (oldest_due now c)) [
  | inl q ↦ rw (q, claim_outbox_batch) h
  | inr ((j, a), q) ↦
      let picked = oldest_due_sound now c j a u q in
      rw (q, claim_outbox_batch)
        (claim-Every P limit now (update_by_id j claim c) (Unique-update j claim c u)
          (Every-update P j claim c h (λ b f.
            subst (λ x. P (claim x)) (some_eq picked.0 f) (step a picked.1 (h j a picked.0))))
          step)
]
  where
    some_eq : {o : Option OutboxEvent} {x y : OutboxEvent} → o ≡ some x → o ≡ some y → x ≡ y
    some_eq p q = cc

-- A batch that is not full leaves nothing that is due.
pub claim_drains :
    (limit now : ℕ) (c : Collection OutboxEvent)
    → length (claim_outbox_batch limit now c).0 < limit
    → (k : ℕ) (e : OutboxEvent) → find_by_id k (claim_outbox_batch limit now c).1 ≡ some e
    → is_due now e ≡ false
unfolding claim_outbox_batch
claim_drains zero now c = λ short. absurd (omega arith)
claim_drains (suc limit) now c = elim (Option-cases (oldest_due now c)) [
  | inl q ↦ rw (q, claim_outbox_batch) (λ short. oldest_due-none now c q)
  | inr ((j, a), q) ↦
      rw (q, claim_outbox_batch)
        (λ short. claim_drains limit now (update_by_id j claim c) (omega arith))
]

-- A batch does not list an event that was not due.
pub claim-listed :
    (limit now : ℕ) (c : Collection OutboxEvent) (k : ℕ) (e : OutboxEvent)
    → Unique c
    → find_by_id k c ≡ some e
    → is_due now e ≡ false
    → listed k (claim_outbox_batch limit now c).0 ≡ false
unfolding claim_outbox_batch
claim-listed zero now c k e u f d = refl
claim-listed (suc limit) now c k e u f d = elim (Option-cases (oldest_due now c)) [
  | inl q ↦ rw (q, claim_outbox_batch) refl
  | inr ((j, a), q) ↦
      let picked = oldest_due_sound now c j a u q in
      rw (q, claim_outbox_batch)
        (ground (
          arith,
          find_by_id-update k j claim c,
          claim-listed limit now (update_by_id j claim c) k e (Unique-update j claim c u),
          picked,
        ))
]

-- No event is listed twice.
abbrev pub Distinct : List (ℕ × OutboxEvent) → Type 0
Distinct [] = Unit
Distinct (x ∷ l) = (listed x.0 l ≡ false) × Distinct l

-- A batch that is claimed does not hold an event twice.
pub claim-Distinct :
    (limit now : ℕ) (c : Collection OutboxEvent)
    → Unique c
    → Distinct (claim_outbox_batch limit now c).0
unfolding claim_outbox_batch
claim-Distinct zero now c u = tt
claim-Distinct (suc limit) now c u = elim (Option-cases (oldest_due now c)) [
  | inl q ↦ rw (q, claim_outbox_batch) tt
  | inr ((j, a), q) ↦
      let u' = Unique-update j claim c u in
      rw (q, claim_outbox_batch)
        (
          claim-listed limit now (update_by_id j claim c) j (claim a) u'
              (find_by_id-update_self j claim c (oldest_due_sound now c j a u q).0)
              (claim-is_due now a),
          claim-Distinct limit now (update_by_id j claim c) u',
        )
]
