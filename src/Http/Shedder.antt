-- ===== src/Http/Shedder.antt =====
-- `loadShedder` of backend/src/middleware/loadShedder.ts: a request is let in while fewer than the
-- limit are in service. A request that is let in has a `released` flag of its own, which its
-- `finish` and `close` events share.
pub mod Refinement
use hop_drop.Collection.{update_by_id, insert, Collection, find_by_id}
use hop_drop.Common.{
  ◌-◌, none, some, or_num, ◌+◌, leb, ◌++◌, if◌then◌else◌, true, ◌∷◌, List, Option, false, suc, Bool,
  String, [], ℕ,
}

pub data RequestPath : Type 0 where
  health ready metrics : RequestPath
  other_path : String → RequestPath

-- `exemptPaths`
abbrev pub is_exempt : RequestPath → Bool
is_exempt (other_path p) = false
is_exempt _ = true

-- What happens to the application: a request arrives, or the response of one finishes or closes.
-- Requests are numbered in the order of their arrival.
pub data HttpEvent : Type 0 where
  arrives : RequestPath → HttpEvent
  finishes closes : ℕ → HttpEvent

-- `hopdrop.inFlight`, and the `released` flags of the requests that were let in.
pub record Shedder : Type 0 where
  pub next : ℕ
  pub in_flight : ℕ
  pub released : Collection Bool

pub data Verdict : Type 0 where
  passed admitted shed : Verdict

-- The middleware on the request with the next number.
unfoldable pub load_shedder : ℕ → RequestPath → Shedder → Verdict × Shedder
load_shedder limit path s =
    let s1 = record s { next = suc s.next } in
    if is_exempt path then (passed, s1) else if leb limit s.in_flight then (shed, s1) else (
      admitted,
      record s1 { in_flight = s.in_flight + 1; released = insert s.next false s.released },
    )

-- `release`, for a request with this flag; a request without one has no `release`.
unfoldable pub release_flag : ℕ → Option Bool → Shedder → Shedder
release_flag id none s = s
release_flag id (some true) s = s
release_flag id (some false) s = record s {
  in_flight = or_num (some s.in_flight) 1 - 1;
  released = update_by_id id (λ _. true) s.released;
}

unfoldable pub release : ℕ → Shedder → Shedder
unfolding release_flag
release id s = release_flag id (find_by_id id s.released) s

-- The verdicts on the requests of a run, and the state that it leaves.
unfoldable pub handle : ℕ → HttpEvent → Shedder → List Verdict × Shedder
unfolding load_shedder release
handle limit (arrives path) s = let (v, s1) = load_shedder limit path s in (v ∷ [], s1)
handle limit (finishes id) s = ([], release id s)
handle limit (closes id) s = ([], release id s)

unfoldable pub handle_all : ℕ → List HttpEvent → Shedder → List Verdict × Shedder
unfolding handle
handle_all limit [] s = ([], s)
handle_all limit (e ∷ es) s =
    let first = handle limit e s in
    let rest = handle_all limit es first.1 in (first.0 ++ rest.0, rest.1)

abbrev pub fresh_shedder : Shedder
fresh_shedder = record { next = 0; in_flight = 0; released = [] }
