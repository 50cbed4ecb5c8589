-- ===== src/Matching.antt =====
-- The ranking of backend/src/services/matching.service.ts: the candidates of a match in the order
-- of the routing search, whose answer is an argument, and after them the candidates it left out.
pub mod Ranking
pub mod Proposals
pub mod Search
pub mod Growth
pub mod Candidates
pub mod Fitness
pub mod Pairs
use hop_drop.Common.{[], is_some, if◌then◌else◌, ◌++◌, ◌∷◌, none, some, List, Option, ℕ}
use hop_drop.Collection.{find_by_id, Collection}

-- A candidate of the answer, for a trip or a request, with the identifier in the field of its kind.
-- Its score and reasons are not read by the ranking.
pub record CandidateRanking : Type 0 where
  pub candidate_id : ℕ
  pub document_id : Option ℕ

-- `candidate.trip_id || candidate.candidate_id`
unfoldable pub named : ℕ → Option ℕ → ℕ
named candidate none = candidate
named candidate (some document) = document

unfoldable pub ranked_id : CandidateRanking → ℕ
ranked_id x = named x.candidate_id x.document_id

module _ {ℓ} {A : Type ℓ} where
  unfoldable pub push_found : ℕ → Option A → Collection A → Collection A
  push_found k none rest = rest
  push_found k (some a) rest = (k, a) ∷ rest

  -- The documents that the answer names, in its order.
  unfoldable pub ordered : List CandidateRanking → Collection A → Collection A
  ordered [] c = []
  ordered (x ∷ xs) c = push_found (ranked_id x) (find_by_id (ranked_id x) c) (ordered xs c)

  -- The documents that are not `seen`.
  unfoldable pub remainder : Collection A → Collection A → Collection A
  remainder seen [] = []
  remainder seen ((j, a) ∷ c) =
      let rest = remainder seen c in if is_some (find_by_id j seen) then rest else (j, a) ∷ rest

  unfoldable pub rank_found : List CandidateRanking → Collection A → Option (Collection A)
  rank_found [] c = none
  rank_found (x ∷ xs) c = some (ordered (x ∷ xs) c ++ remainder (ordered (x ∷ xs) c) c)

  -- Nothing to rank is answered at once; no answer, or an empty one, ranks nothing.
  unfoldable pub rank_with_routing_search :
      Option (List CandidateRanking) → Collection A → Option (Collection A)
  rank_with_routing_search answer [] = some []
  rank_with_routing_search none (x ∷ c) = none
  rank_with_routing_search (some candidates) (x ∷ c) = rank_found candidates (x ∷ c)
