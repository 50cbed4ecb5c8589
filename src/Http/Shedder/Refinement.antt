-- ===== src/Http/Shedder/Refinement.antt =====
-- The shedder of backend/src/middleware/loadShedder.ts against its specification: the set of the
-- requests in service, which has room for the limit.
use hop_drop.Collection.Laws.{Below-insert, find_by_id-insert_ne, Unique-update, Below-update}
use hop_drop.Http.Shedder.{
  RequestPath, fresh_shedder, handle, handle_all, shed, admitted, passed, Shedder, is_exempt,
  release_flag, Verdict, HttpEvent,
}
use hop_drop.Common.{
  ◌<◌, sym, ◌∙◌, ◌≢◌, leb, is_some, length-append, ◌≤◌, inl, inr, Option, Bool-cases, refl, ltb,
  suc, ap, arith, if◌then◌else◌, length, true, ◌==◌, ◌∷◌, none, not, some, ◌++◌, false, filter, ◌≡◌,
  Bool, List, [], ℕ,
}
use mathlib.Core.Path.{ap₂}
use hop_drop.Collection.{Below, Unique, update_by_id, Collection, find_by_id, insert}
use hop_drop.Collection.Queries.{none_later}

pub record InService : Type 0 where
  pub next : ℕ
  pub open_requests : List ℕ

abbrev remove : ℕ → List ℕ → List ℕ
remove k l = filter (λ j. not (j == k)) l

-- A request is let in if it is exempt, in which case it is not counted, or if there is room.
unfoldable pub serve : ℕ → HttpEvent → InService → List Verdict × InService
serve limit (HttpEvent.arrives path) s =
    let s1 = record s { next = suc s.next } in
    if is_exempt path
    then (passed ∷ [], s1)
    else if ltb (length s.open_requests) limit
    then (admitted ∷ [], record s1 { open_requests = s.open_requests ++ s.next ∷ [] })
    else (shed ∷ [], s1)
serve limit (HttpEvent.finishes id) s = ([], record s { open_requests = remove id s.open_requests })
serve limit (HttpEvent.closes id) s = ([], record s { open_requests = remove id s.open_requests })

unfoldable pub serve_all : ℕ → List HttpEvent → InService → List Verdict × InService
unfolding serve
serve_all limit [] s = ([], s)
serve_all limit (e ∷ es) s =
    let first = serve limit e s in
    let rest = serve_all limit es first.1 in (first.0 ++ rest.0, rest.1)

abbrev pub nobody : InService
nobody = record { next = 0; open_requests = [] }

-- The requests whose flag is not set.
abbrev pub unreleased : Collection Bool → List ℕ
unreleased [] = []
unreleased ((j, b) ∷ c) = let rest = unreleased c in if b then rest else j ∷ rest

unreleased-insert :
    (n : ℕ) (c : Collection Bool) → unreleased (insert n false c) ≡ unreleased c ++ n ∷ []
unfolding insert
unreleased-insert n [] = refl
unreleased-insert n ((j, true) ∷ c) = unreleased-insert n c
unreleased-insert n ((j, false) ∷ c) = ap (λ l. j ∷ l) (unreleased-insert n c)

remove-absent :
    (k : ℕ) (c : Collection Bool) → find_by_id k c ≡ none → remove k (unreleased c) ≡ unreleased c
unfolding find_by_id
remove-absent k [] h = refl
remove-absent k ((j, true) ∷ c) h = ground (arith, remove-absent k c)
remove-absent k ((j, false) ∷ c) h = ground (arith, remove-absent k c)

-- A release takes an open request out.
remove-open :
    (k : ℕ) (c : Collection Bool)
    → Unique c
    → find_by_id k c ≡ some false
    → (remove k (unreleased c) ≡ unreleased (update_by_id k (λ _. true) c))
      × (length (unreleased c) ≡ suc (length (unreleased (update_by_id k (λ _. true) c))))
unfolding find_by_id update_by_id
remove-open k [] u h = cc
remove-open k ((j, true) ∷ c) u h = elim (Bool-cases (j == k)) [
  | inl same ↦ cc (rw same at h)
  | inr other ↦ rw other (remove-open k c u.1 (rw other at h))
]
remove-open k ((j, false) ∷ c) u h = elim (Bool-cases (j == k)) [
  | inl same ↦ rw same (remove-absent k c (none_later k j c same u.0), refl)
  | inr other ↦
      let ih = remove-open k c u.1 (rw other at h) in rw other (ap (λ l. j ∷ l) ih.0, ap suc ih.1)
]

remove-released :
    (k : ℕ) (c : Collection Bool)
    → Unique c
    → find_by_id k c ≡ some true
    → remove k (unreleased c) ≡ unreleased c
unfolding find_by_id
remove-released k [] u h = cc
remove-released k ((j, true) ∷ c) u h = elim (Bool-cases (j == k)) [
  | inl same ↦ remove-absent k c (none_later k j c same u.0)
  | inr other ↦ remove-released k c u.1 (rw other at h)
]
remove-released k ((j, false) ∷ c) u h = elim (Bool-cases (j == k)) [
  | inl same ↦ cc (rw same at h)
  | inr other ↦ rw other (ap (λ l. j ∷ l) (remove-released k c u.1 (rw other at h)))
]

Below-suc : (n : ℕ) (c : Collection Bool) → Below n c → Below (suc n) c
Below-suc n [] h = tt
Below-suc n ((j, b) ∷ c) h = (omega arith, Below-suc n c h.1)

find_by_id-empty : (n : ℕ) → is_some (find_by_id {A = Bool} n []) ≡ false
unfolding find_by_id
find_by_id-empty n = refl

lt-irrefl_at : {n j : ℕ} → n ≡ j → j < n → ⊥
lt-irrefl_at e h = omega arith

Unique-insert :
    (n : ℕ) (a : Bool) (c : Collection Bool) → Below n c → Unique c → Unique (insert n a c)
unfolding insert
Unique-insert n a [] h u = (find_by_id-empty n, tt)
Unique-insert n a ((j, b) ∷ c) h u =
    let other : n ≢ j = λ e. absurd (lt-irrefl_at e h.0) in
    (rw (find_by_id-insert_ne j n a c other) u.0, Unique-insert n a c h.1 u.1)

-- The shedder is in a state that stands for a state of the specification.
pub record Refines (limit : ℕ) (s : Shedder) (sp : InService) : Type 0 where
  pub same_next : sp.next ≡ s.next
  pub same_open : sp.open_requests ≡ unreleased s.released
  pub counted : s.in_flight ≡ length (unreleased s.released)
  pub within : s.in_flight ≤ limit
  pub numbered : Below s.next s.released
  pub distinct : Unique s.released

-- The same answer, and states that stand for one another.
abbrev pub Simulates : ℕ → List Verdict × Shedder → List Verdict × InService → Type 0
Simulates limit x y = (x.0 ≡ y.0) × Refines limit x.1 y.1

release-Refines :
    (limit id : ℕ) (s : Shedder) (sp : InService)
    → Refines limit s sp
    → (o : Option Bool) → find_by_id id s.released ≡ o
    → Refines limit (release_flag id o s) (record sp { open_requests = remove id sp.open_requests })
unfolding release_flag
release-Refines limit id s sp r none e = record {
  same_next = r.same_next;
  same_open = rw r.same_open (remove-absent id s.released e);
  counted = r.counted;
  within = r.within;
  numbered = r.numbered;
  distinct = r.distinct;
}
release-Refines limit id s sp r (some true) e = record {
  same_next = r.same_next;
  same_open = rw r.same_open (remove-released id s.released r.distinct e);
  counted = r.counted;
  within = r.within;
  numbered = r.numbered;
  distinct = r.distinct;
}
release-Refines limit id s sp r (some false) e = record {
  same_next = r.same_next;
  same_open = rw r.same_open (remove-open id s.released r.distinct e).0;
  counted = ground (arith, r.counted, (remove-open id s.released r.distinct e).1);
  within = ground (arith, r.within);
  numbered = Below-update s.next id _ s.released r.numbered;
  distinct = Unique-update id _ s.released r.distinct;
}

arrive-Refines :
    (limit : ℕ) (path : RequestPath) (s : Shedder) (sp : InService)
    → Refines limit s sp
    → Simulates limit
        (handle limit (HttpEvent.arrives path) s)
        (serve limit (HttpEvent.arrives path) sp)
unfolding handle serve
arrive-Refines limit path s sp r = elim (Bool-cases (is_exempt path)) [
  | inl exempt ↦ rw exempt (
    refl,
    record {
      same_next = ap suc r.same_next;
      same_open = r.same_open;
      counted = r.counted;
      within = r.within;
      numbered = Below-suc s.next s.released r.numbered;
      distinct = r.distinct;
    },
  )
  | inr counts ↦ elim (Bool-cases (leb limit s.in_flight)) [
    | inl full ↦
        let no_room : ltb (length sp.open_requests) limit ≡ false =
          rw r.same_open (ground (arith, r.counted)) in
        rw counts (
          rw full (
            rw no_room (
              refl,
              record {
                same_next = ap suc r.same_next;
                same_open = r.same_open;
                counted = r.counted;
                within = r.within;
                numbered = Below-suc s.next s.released r.numbered;
                distinct = r.distinct;
              },
            )))
    | inr room ↦
        let has_room : ltb (length sp.open_requests) limit ≡ true =
          rw r.same_open (ground (arith, r.counted)) in
        rw counts (
          rw room (
            rw has_room (
              refl,
              record {
                same_next = ap suc r.same_next;
                same_open =
                    rw (r.same_open, r.same_next) (sym (unreleased-insert s.next s.released));
                counted =
                    rw (unreleased-insert s.next s.released) (
                      omega
                        (arith, r.counted, length-append (unreleased s.released) (s.next ∷ [])));
                within = ground arith;
                numbered = Below-insert s.next false s.released r.numbered;
                distinct = Unique-insert s.next false s.released r.numbered r.distinct;
              },
            )))
  ]
]

handle-Refines :
    (limit : ℕ) (e : HttpEvent) (s : Shedder) (sp : InService)
    → Refines limit s sp
    → Simulates limit (handle limit e s) (serve limit e sp)
unfolding handle serve
handle-Refines limit (HttpEvent.arrives path) s sp r = arrive-Refines limit path s sp r
handle-Refines limit (HttpEvent.finishes id) s sp r =
    (refl, release-Refines limit id s sp r (find_by_id id s.released) refl)
handle-Refines limit (HttpEvent.closes id) s sp r =
    (refl, release-Refines limit id s sp r (find_by_id id s.released) refl)

handle_all-Refines :
    (limit : ℕ) (es : List HttpEvent) (s : Shedder) (sp : InService)
    → Refines limit s sp
    → Simulates limit (handle_all limit es s) (serve_all limit es sp)
unfolding handle_all serve_all
handle_all-Refines limit [] s sp r = (refl, r)
handle_all-Refines limit (e ∷ es) s sp r =
    let first = handle-Refines limit e s sp r in
    let rest = handle_all-Refines limit es _ _ first.1 in
    (ap₂ (λ a b. a ++ b) first.0 rest.0, rest.1)

fresh-Refines : (limit : ℕ) → Refines limit fresh_shedder nobody
fresh-Refines limit = record {
  same_next = refl;
  same_open = refl;
  counted = refl;
  within = omega arith;
  numbered = tt;
  distinct = tt;
}

-- Whatever arrives, finishes and closes, in any order and any number of times, the shedder gives the
-- verdicts of the specification, which keeps the set of the requests in service; its counter is
-- their number, and never more than the limit.
pub load_shedder-Refines :
    (limit : ℕ) (es : List HttpEvent)
    → ((handle_all limit es fresh_shedder).0 ≡ (serve_all limit es nobody).0)
      × ((handle_all limit es fresh_shedder).1.in_flight
          ≡ length (serve_all limit es nobody).1.open_requests)
      × ((handle_all limit es fresh_shedder).1.in_flight ≤ limit)
load_shedder-Refines limit es =
    let (same, r) = handle_all-Refines limit es fresh_shedder nobody (fresh-Refines limit) in
    (same, r.counted ∙ ap length (sym r.same_open), r.within)
