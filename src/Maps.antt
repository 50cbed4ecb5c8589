-- ===== src/Maps.antt =====
-- The search for places of backend/src/services/maps.service.ts: how texts are made comparable, and
-- which of the places that are found twice is kept. Coordinates are in millionths of a degree. The
-- calls of the map providers and the scores, which are fractions with logarithms, are left out.
pub mod Words
pub mod Texts
pub mod Clicks
use hop_drop.Common.{
  ◌==◌, false, [], ltb, ◌&&◌, map, str_eq, ℕ, ◌∷◌, Bool, List, String, if◌then◌else◌,
}
use hop_drop.Accounts.Text.{is_empty}
use hop_drop.Common.Int.{ℤ, pos, negsuc}

pub record Candidate : Type 0 where
  pub e_loc : String
  pub latitude : ℤ
  pub longitude : ℤ
  pub source_order : ℕ
  pub normalized_name : String
  pub normalized_city : String

-- The `dedupeKey`: the identifier of a place, or else what it is called and where it is.
pub data DedupeKey : Type 0 where
  by_loc : String → DedupeKey
  by_place : String → String → ℤ → ℤ → DedupeKey

unfoldable pub dedupe_key : Candidate → DedupeKey
dedupe_key c =
    if is_empty c.e_loc
    then by_place c.normalized_name c.normalized_city c.latitude c.longitude
    else by_loc c.e_loc

abbrev same_int : ℤ → ℤ → Bool
same_int (pos a) (pos b) = a == b
same_int (negsuc a) (negsuc b) = a == b
same_int _ _ = false

abbrev pub same_dedupe_key : DedupeKey → DedupeKey → Bool
same_dedupe_key (by_loc a) (by_loc b) = str_eq a b
same_dedupe_key (by_place a b x y) (by_place c d z w) =
    str_eq a c && str_eq b d && same_int x z && same_int y w
same_dedupe_key _ _ = false

-- One candidate of the loop, on the map in the order of its keys.
unfoldable pub keep_first : Candidate → List (DedupeKey × Candidate) → List (DedupeKey × Candidate)
unfolding dedupe_key
keep_first c [] = (dedupe_key c, c) ∷ []
keep_first c ((k, d) ∷ rest) =
    let others = keep_first c rest in
    if same_dedupe_key k (dedupe_key c)
    then (k, if ltb c.source_order d.source_order then c else d) ∷ rest
    else (k, d) ∷ others

unfoldable pub keep_all :
    List (DedupeKey × Candidate) → List Candidate → List (DedupeKey × Candidate)
unfolding keep_first
keep_all kept [] = kept
keep_all kept (c ∷ cs) = keep_all (keep_first c kept) cs

-- `dedupeCandidates`
unfoldable pub dedupe_candidates : List Candidate → List Candidate
unfolding keep_all
dedupe_candidates cs = map (λ x. x.1) (keep_all [] cs)
