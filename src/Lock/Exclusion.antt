-- ===== src/Lock/Exclusion.antt =====
-- What the lock of backend/src/utils/distributedLock.ts excludes.
use hop_drop.Common.{
  true, ==_refl, ◌∙◌, false, ◌&&◌, All, Option-cases, ◌≢◌, refl, inl, inr, [], ◌∷◌, ◌==◌,
  Bool-cases, ◌+◌, api, arith, ◌*◌, err, ok, ◌<◌, none, some, List, ◌≡◌, ℕ,
}
use hop_drop.Lock.{
  lock_message, lock_ttl_seconds, get_lock, del_lock, acquire_lock, release_lock, with_lock,
}
use hop_drop.Store.Keeps.{require-Keeps, bind-Keeps, Keeps}
use hop_drop.Store.{require, ◌>>=◌, Store, Action, LockEntry}

pub get_lock-del_self :
    (now key : ℕ) (es : List (ℕ × LockEntry)) → get_lock now key (del_lock key es) ≡ none
unfolding get_lock del_lock
get_lock-del_self now key [] = refl
get_lock-del_self now key ((k, e) ∷ es) = elim (Bool-cases (k == key)) [
  | inl same ↦ rw same (get_lock-del_self now key es)
  | inr other ↦ rw (other, other) (get_lock-del_self now key es)
]

pub get_lock-del_ne :
    (now key k : ℕ) (es : List (ℕ × LockEntry))
    → key ≢ k
    → get_lock now k (del_lock key es) ≡ get_lock now k es
unfolding get_lock del_lock
get_lock-del_ne now key k [] n = refl
get_lock-del_ne now key k ((j, e) ∷ es) n = ground (arith, get_lock-del_ne now key k es n)

acquire_lock-held :
    (key token ttl : ℕ) (s : Store) (e : LockEntry)
    → get_lock s.now key s.locks ≡ some e
    → acquire_lock key token ttl s ≡ (ok none, s)
unfolding acquire_lock
acquire_lock-held key token ttl s e held = rw (held, acquire_lock) refl

-- While somebody holds the lock, `withLock` throws 409 and neither runs its body nor writes.
with_lock-held :
    {A : Type 0} (key token : ℕ) (fn : Action A) (s : Store) (e : LockEntry)
    → get_lock s.now key s.locks ≡ some e
    → with_lock key token fn s ≡ (err (api 409 (lock_message key)), s)
unfolding with_lock
with_lock-held key token fn s e held =
    rw (acquire_lock-held key token lock_ttl_seconds s e held, ◌>>=◌) refl

-- What goes on while a lock is held: time, attempts to take a lock, and releases.
pub data LockEvent : Type 0 where
  wait : ℕ → LockEvent
  take release : ℕ → ℕ → LockEvent

unfoldable pub on_lock_event : LockEvent → Store → Store
unfolding acquire_lock release_lock
on_lock_event (wait n) s = record s { now = s.now + n }
on_lock_event (take key token) s = (acquire_lock key token lock_ttl_seconds s).1
on_lock_event (release key token) s = (release_lock key token s).1

unfoldable pub on_lock_events : List LockEvent → Store → Store
unfolding on_lock_event
on_lock_events [] s = s
on_lock_events (e ∷ es) s = on_lock_events es (on_lock_event e s)

abbrev pub elapsed : List LockEvent → ℕ
elapsed [] = 0
elapsed (wait n ∷ es) = n + elapsed es
elapsed (_ ∷ es) = elapsed es

-- An event that does not release the lock with its holder's token.
abbrev pub Spares : ℕ → ℕ → LockEvent → Type 0
Spares key holder (release k token) = (k == key && token == holder) ≡ false
Spares key holder _ = Unit

get_lock-later :
    (now later key : ℕ) (es : List (ℕ × LockEntry)) (e : LockEntry)
    → get_lock now key es ≡ some e
    → later < e.expires_at
    → get_lock later key es ≡ some e
unfolding get_lock
get_lock-later now later key [] e h l = cc
get_lock-later now later key ((k, f) ∷ es) e h l = elim (Bool-cases (k == key)) [
  | inl same ↦ ground arith
  | inr other ↦ rw other (get_lock-later now later key es e (rw other at h) l)
]

module _ (key : ℕ) (e : LockEntry) where
  -- The entry of the lock is there and does not run out for a while.
  abbrev HeldFor : ℕ → Store → Type 0
  HeldFor n s = (get_lock s.now key s.locks ≡ some e) × (s.now + n < e.expires_at)

  take-HeldFor :
      (k token n : ℕ) (s : Store)
      → HeldFor n s
      → HeldFor n (acquire_lock k token lock_ttl_seconds s).1
  unfolding acquire_lock get_lock
  take-HeldFor k token n s h = elim (Option-cases (get_lock s.now k s.locks)) [
    | inr (f, q) ↦ rw (q, acquire_lock) h
    | inl q ↦ elim (Bool-cases (k == key)) [
      | inl same ↦ ground (arith, h.0, q)
      | inr other ↦
          rw (q, acquire_lock)
            (rw other (get_lock-del_ne s.now k key s.locks (λ j. ground arith) ∙ h.0, h.1))
    ]
  ]

  not_spared :
      (k token now : ℕ) (f : LockEntry) (es : List (ℕ × LockEntry))
      → k ≡ key
      → get_lock now k es ≡ some f
      → get_lock now key es ≡ some e
      → (f.token == token) ≡ true
      → (k == key && token == e.token) ≡ false
      → ⊥
  not_spared k token now f es j q held mine other = ground arith

  release-HeldFor :
      (k token n : ℕ) (s : Store)
      → (k == key && token == e.token) ≡ false
      → HeldFor n s
      → HeldFor n (release_lock k token s).1
  unfolding release_lock
  release-HeldFor k token n s other h = elim (Option-cases (get_lock s.now k s.locks)) [
    | inl q ↦ rw (q, release_lock) h
    | inr (f, q) ↦ elim (Bool-cases (f.token == token)) [
      | inr theirs ↦ rw (q, release_lock) (rw theirs h)
      | inl mine ↦
          rw (q, release_lock)
            (rw mine (
              get_lock-del_ne s.now k key s.locks
                    (λ j. not_spared k token s.now f s.locks j q h.0 mine other)
                  ∙ h.0,
              h.1,
            ))
    ]
  ]

  on_lock_events-HeldFor :
      (es : List LockEvent) (s : Store)
      → All (Spares key e.token) es
      → HeldFor (elapsed es) s
      → HeldFor 0 (on_lock_events es s)
  unfolding on_lock_events on_lock_event
  on_lock_events-HeldFor [] s sp h = h
  on_lock_events-HeldFor (wait n ∷ es) s sp h =
      on_lock_events-HeldFor es _ sp.1 (
        get_lock-later s.now (s.now + n) key s.locks e h.0 (omega (arith, h.1)),
        omega (arith, h.1),
      )
  on_lock_events-HeldFor (take k token ∷ es) s sp h =
      on_lock_events-HeldFor es _ sp.1 (take-HeldFor k token (elapsed es) s h)
  on_lock_events-HeldFor (release k token ∷ es) s sp h =
      on_lock_events-HeldFor es _ sp.1 (release-HeldFor k token (elapsed es) s sp.0 h)

acquire-HeldFor :
    (key holder n : ℕ) (s : Store)
    → get_lock s.now key s.locks ≡ none
    → n < lock_ttl_seconds * 1000
    → HeldFor key
        (record { token = holder; expires_at = s.now + lock_ttl_seconds * 1000 })
        n
        (acquire_lock key holder lock_ttl_seconds s).1
unfolding acquire_lock get_lock
acquire-HeldFor key holder n s free short = rw (free, acquire_lock) (ground arith, omega arith)

release_lock-own :
    (key holder until : ℕ) (s : Store)
    → get_lock s.now key s.locks ≡ some (record { token = holder; expires_at = until })
    → get_lock s.now key (release_lock key holder s).1.locks ≡ none
unfolding release_lock
release_lock-own key holder until s held =
    rw (held, release_lock) (rw (==_refl holder) (get_lock-del_self s.now key s.locks))

-- Who takes a free lock has it alone for its ten seconds: whatever locks are taken or released in
-- the meantime, `withLock` on it throws 409 and neither runs its body nor writes, as long as nobody
-- else releases it with the holder's token; and the holder's release frees it.
pub with_lock-excludes :
    {A : Type 0} (key holder token : ℕ) (fn : Action A) (events : List LockEvent) (s : Store)
    → get_lock s.now key s.locks ≡ none
    → All (Spares key holder) events
    → elapsed events < lock_ttl_seconds * 1000
    → let s1 = on_lock_events events (acquire_lock key holder lock_ttl_seconds s).1 in
      (with_lock key token fn s1 ≡ (err (api 409 (lock_message key)), s1))
      × (get_lock s1.now key (release_lock key holder s1).1.locks ≡ none)
with_lock-excludes key holder token fn events s free spared short =
    let s1 = on_lock_events events (acquire_lock key holder lock_ttl_seconds s).1 in
    let held =
      on_lock_events-HeldFor key _ events _ spared
        (acquire-HeldFor key holder (elapsed events) s free short) in
    (with_lock-held key token fn s1 _ held.0, release_lock-own key holder _ s1 held.0)

module _ {ℓ} (P : Store → Type ℓ)
    (any_locks : (s : Store) (ls : List (ℕ × LockEntry)) → P s → P (record s { locks = ls })) where
  acquire_lock-Keeps : (key token ttl : ℕ) → Keeps P (acquire_lock key token ttl)
  unfolding acquire_lock
  acquire_lock-Keeps key token ttl s h = elim (Option-cases (get_lock s.now key s.locks)) [
    | inl q ↦ rw (q, acquire_lock) (any_locks s _ h)
    | inr (e, q) ↦ rw (q, acquire_lock) h
  ]

  release_lock-Keeps : (key token : ℕ) → Keeps P (release_lock key token)
  unfolding release_lock
  release_lock-Keeps key token s h = elim (Option-cases (get_lock s.now key s.locks)) [
    | inl q ↦ rw (q, release_lock) h
    | inr (e, q) ↦ elim (Bool-cases (e.token == token)) [
      | inl mine ↦ rw (q, release_lock) (rw mine (any_locks s _ h))
      | inr other ↦ rw (q, release_lock) (rw other h)
    ]
  ]

  -- What a body keeps, and what does not speak of locks, `withLock` keeps around it.
  pub with_lock-Keeps :
      {A : Type 0} (key token : ℕ) (fn : Action A) → Keeps P fn → Keeps P (with_lock key token fn)
  unfolding with_lock
  with_lock-Keeps key token fn body =
      bind-Keeps P (acquire_lock key token lock_ttl_seconds) _
        (acquire_lock-Keeps key token lock_ttl_seconds)
        (λ held.
          bind-Keeps P (require held 409 (lock_message key)) _
            (require-Keeps P held 409 (lock_message key))
            (λ a s h. release_lock-Keeps key token _ (body s h)))
