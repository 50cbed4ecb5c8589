-- ===== src/MatchService/Effects.antt =====
-- What the steps of the handlers of backend/src/services/match.service.ts leave in the store.
use hop_drop.MatchService.Status.{
  map_match_status_to_delivery_status, with_new_status, update_match_status,
}
use hop_drop.Collection.{find_by_id, update_by_id}
use hop_drop.Model.Match.{Match, MatchStatus}
use hop_drop.Json.{Fields}
use hop_drop.Env.{Env}
use hop_drop.Common.{ℕ, ◌≡◌, refl, some, ok}
use hop_drop.Store.{Store, Bus}

module _ (env : Env) (match : ℕ) where
  -- The store after a change of status, but for the messages.
  unfoldable pub after_status : MatchStatus → ℕ → Fields → Match → Bus → Store → Store
  after_status status actor metadata m bus s = record s {
    matches = update_by_id match (with_new_status s.now status actor metadata) s.matches;
    requests =
        update_by_id m.delivery_request
          (λ r. record r { status = map_match_status_to_delivery_status status }) s.requests;
    bus = bus;
  }

  pub update_match_status-found :
      (status : MatchStatus) (actor : ℕ) (metadata : Fields) (s : Store) (m : Match)
      → find_by_id match s.matches ≡ some m
      → let r = update_match_status env match status actor metadata s in
        r ≡ (
          ok (with_new_status s.now status actor metadata m),
          after_status status actor metadata m r.1.bus s,
        )
  unfolding update_match_status after_status
  update_match_status-found status actor metadata s m q = rw (q, update_match_status) refl
